-- ===== src/Text.antt =====
-- source/core/MicroBitCompat.cpp: `string_reverse` and `itoa`. A buffer is a map from offsets to
-- characters; a pointer into it is an offset, and the length that `strlen` gives is an argument.
pub mod Decimal
pub mod Roundtrip
mod Tests
use microbit_dal.Prelude.{
  ℕ, zero, suc, ◌+◌, ◌-◌, ◌/◌, ◌%◌, Bool, true, false, ltb, ◌&&◌, if◌then◌else◌, ◌*◌, ◌^◌, ◌≤◌, ◌<◌,
  ◌≡◌, refl, sym, ap, subst, ◌∙◌, ◌≢◌, ◌↔◌, ◌⊎◌, inl, inr, not, ◌&&◌, ◌||◌, Option, none, some,
  List, [], ◌∷◌, ◌++◌, map, append-nil, append_assoc, arith, leb, ◌==◌, ltb→lt, lt→ltb, leb→le,
  ==_iff, Bool-cases, Option-cases, length,
}
use microbit_dal.Prelude.Int.{ℤ, pos, negsuc}
use microbit_dal.Prelude.Bytes.{Bytes, put}

-- A round of the loop of `string_reverse`.
pub swap : ℕ → ℕ → Bytes → Bytes
swap i j s = put (put s i (s j)) j (s i)

-- The loop of `string_reverse`, of at most `fuel` rounds.
pub reverse_loop : ℕ → ℕ → ℕ → Bytes → Bytes
unfolding swap
reverse_loop zero i j s = s
reverse_loop (suc fuel) i j s =
    let later = reverse_loop fuel (i + 1) (j - 1) (swap i j s) in if ltb i j then later else s

-- `string_reverse` of a string of `n` characters.
pub string_reverse : ℕ → Bytes → Bytes
unfolding reverse_loop
string_reverse n s = reverse_loop n 0 (n - 1) s

-- The magnitude of `n`: the code keeps `n` at or below 0, and takes `abs` of each remainder.
abbrev pub magnitude : ℤ → ℕ
magnitude (pos n) = n
magnitude (negsuc n) = n + 1

abbrev pub is_negative : ℤ → Bool
is_negative (pos n) = false
is_negative (negsuc n) = true

-- The do loop of `itoa`, of at most `fuel + 1` rounds: the buffer, and `i`.
pub digits_loop : ℕ → ℕ → ℕ → Bytes → Bytes × ℕ
digits_loop zero m i s = (put s i (m % 10 + 48), i + 1)
digits_loop (suc fuel) m i s =
    let written = put s i (m % 10 + 48) in
    let later = digits_loop fuel (m / 10) (i + 1) written in
    if ltb 0 (m / 10) then later else (written, i + 1)

-- `itoa` behind its loop.
pub finish : Bool → Bytes × ℕ → Bytes
unfolding string_reverse
finish true (s, i) = string_reverse (i + 1) (put (put s i 45) (i + 1) 0)
finish false (s, i) = string_reverse i (put s i 0)

-- `itoa`; an `int` has at most ten digits.
pub itoa : ℤ → Bytes → Bytes
unfolding digits_loop finish
itoa n s = finish (is_negative n) (digits_loop 10 (magnitude n) 0 s)

-- `isdigit` of inc/core/MicroBitCompat.h.
abbrev pub is_digit : ℕ → Bool
is_digit c = ltb 47 c && ltb c 58
