-- ===== src/Prelude/Bytes.antt =====
-- Byte arrays as maps from offsets, with the C library's memcpy, memmove and memset.
use Prim.Native.Nat.{ℕ, ◌+◌, ◌-◌, ◌≤◌, ◌<◌}
use mathlib.Core.Path.{◌≡◌, ap}
use mathlib.Core.Logic.{◌⊎◌}
use mathlib.Core.Bool.{◌&&◌, true}
use native.Mathlib.Omega.{arith}
use microbit_dal.Prelude.Tests.{ltb, leb, if◌then◌else◌}

abbrev pub Bytes : Type 0
Bytes = ℕ → ℕ

-- The `n` bytes of `src` from `s` on are written to `dst` from `d` on.
pub copy : Bytes → ℕ → Bytes → ℕ → ℕ → Bytes
copy dst d src s n i = if leb d i && ltb i (d + n) then src (s + (i - d)) else dst i

-- What the C library promises of its memcpy inside one array, of `n` bytes from `s` on to `d`: they
-- are copied if the two regions do not overlap.
abbrev pub CopiesApart : (Bytes → ℕ → ℕ → ℕ → Bytes) → Type 0
CopiesApart memcpy =
    (b : Bytes) (d s n i : ℕ) → (d + n ≤ s) ⊎ (s + n ≤ d) → memcpy b d s n i ≡ copy b d b s n i

-- `n` zeros are written from `d` on.
pub clear : Bytes → ℕ → ℕ → Bytes
clear dst d n i = if leb d i && ltb i (d + n) then 0 else dst i

-- One byte is written.
unfoldable pub put : Bytes → ℕ → ℕ → Bytes
put dst d v i = if leb d i && leb i d then v else dst i

module _ (dst : Bytes) (d n : ℕ) where
  pub copy-hit :
      (src : Bytes) (s i k j : ℕ) → k < n → i ≡ d + k → j ≡ s + k → copy dst d src s n i ≡ src j
  unfolding copy
  copy-hit src s i k j h e f =
      let there : s + (d + k - d) ≡ s + k = omega arith in
      let inside : (leb d (d + k) && ltb (d + k) (d + n)) ≡ true = ground arith in
      rw (e, f, inside) (ap src there)

  pub copy-miss : (src : Bytes) (s i : ℕ) → (i < d) ⊎ (d + n ≤ i) → copy dst d src s n i ≡ dst i
  unfolding copy
  copy-miss src s i h = ground arith

  pub clear-hit : (i : ℕ) → d ≤ i → i < d + n → clear dst d n i ≡ 0
  unfolding clear
  clear-hit i h k = ground arith

  pub clear-miss : (i : ℕ) → (i < d) ⊎ (d + n ≤ i) → clear dst d n i ≡ dst i
  unfolding clear
  clear-miss i h = ground arith
