-- ===== src/PacketBuffer/Sharing.antt =====
-- source/types/PacketBuffer.cpp: what is read through the handles on a packet that is written.
use microbit_dal.Prelude.{
  ℕ, zero, suc, ◌%◌, ◌^◌, ◌<◌, ◌≡◌, refl, sym, ap, subst, ◌∙◌, inl, inr, Bool, true, false, ◌&&◌,
  none, some, List, [], ◌∷◌, arith, ltb, ◌==◌, if◌then◌else◌, Bool-cases, Option-cases,
}
use microbit_dal.Prelude.Bytes.{Bytes, put}
use microbit_dal.RefCounted.{State, Object, store}
use microbit_dal.RefCounted.Counts.{count, Counted}
use microbit_dal.RefCounted.Values.{IsValid}
use microbit_dal.PacketBuffer.{get_elem?, Packet, ok, set_byte, get_byte}

put_lem : (b : Bytes) (p v j : ℕ) → put b p v j ≡ (if j == p then v else b j)
unfolding put
put_lem b p v j = ground arith

-- Whether handle `k` points to an address.
abbrev pub points_to : List ℕ → ℕ → ℕ → Bool
points_to [] k a = false
points_to (h ∷ hs) zero a = h == a
points_to (h ∷ hs) (suc k) a = points_to hs k a

points_to-some : (hs : List ℕ) (k a b : ℕ) → get_elem? hs k ≡ some b → points_to hs k a ≡ (b == a)
points_to-some [] k a b e = cc
points_to-some (h ∷ hs) zero a b e = let same : h ≡ b = cc in ap (λ x. x == a) same
points_to-some (h ∷ hs) (suc k) a b e = points_to-some hs k a b e

points_to-none : (hs : List ℕ) (k a : ℕ) → get_elem? hs k ≡ none → points_to hs k a ≡ false
points_to-none [] k a e = refl
points_to-none (h ∷ hs) zero a e = cc
points_to-none (h ∷ hs) (suc k) a e = points_to-none hs k a e

-- The state after the byte at a position of the packet at address `a` was written: the counts are
-- right, the handles point where they did, and exactly the handles on `a` read the new byte there.
abbrev pub Written : ℕ → ℕ → ℕ → State Packet → State Packet → Type 0
Written a position v s s' =
    IsValid s'
    × (s'.handles ≡ s.handles)
    × ((k j : ℕ)
        → get_byte k j s' ≡ (
            if points_to s.handles k a && j == position
            then some (some (v % 2 ^ 8))
            else get_byte k j s))

-- `setByte` at a position inside the packet succeeds, keeps every count right and every handle where
-- it points, and the byte that it writes is then read at that position through each handle on the same
-- packet; every other read is as it was.
pub set_byte-Written :
    (i a position v : ℕ) (o : Object Packet) (s : State Packet)
    → IsValid s
    → get_elem? s.handles i ≡ some a
    → s.memory a ≡ some o
    → position < o.payload.length
    → (s' : State Packet) × (set_byte i position v s ≡ some (s', ok)) × Written a position v s s'
unfolding set_byte get_byte
set_byte-Written i a position v o s valid e at inside =
    let new : Object Packet = record o {
      payload = record o.payload { payload = put o.payload.payload position (v % 2 ^ 8) };
    } in
    let m = store a (some new) s.memory in
    let in_range : ltb position o.payload.length ≡ true = ground arith in
    let here : m a ≡ some new = ground arith in
    (
      record s { memory = m },
      rw (e, at, in_range) refl,
      (
        λ p. elim (Bool-cases (p == a)) [
          | inl same ↦
              let e' : p ≡ a = ground arith in
              let counted : Counted (m a) (count a s.handles) =
                subst (λ x. Counted x (count a s.handles)) (sym here)
                  (subst (λ x. Counted x (count a s.handles)) at (valid a)) in
              subst (λ x. Counted (m x) (count x s.handles)) (sym e') counted
          | inr other ↦
              let kept : m p ≡ s.memory p = ground arith in
              subst (λ x. Counted x (count p s.handles)) (sym kept) (valid p)
        ],
        refl,
        λ k j. elim (Option-cases (get_elem? s.handles k)) [
          | inl g ↦ let out = points_to-none s.handles k a g in rw (out, g) refl
          | inr (b, g) ↦
              let to = points_to-some s.handles k a b g in
              let bytes = put_lem o.payload.payload position (v % 2 ^ 8) j in
              elim (Bool-cases (b == a)) [
                | inl same ↦
                    let e' : b ≡ a = ground arith in
                    let old : s.memory b ≡ some o = ap s.memory e' ∙ at in
                    elim (Bool-cases (j == position)) [
                      | inl there ↦
                          let within : ltb j o.payload.length ≡ true = ground arith in
                          rw (to, g, same, old, within, bytes, there) refl
                      | inr elsewhere ↦ rw (to, g, same, old, bytes, elsewhere) refl
                    ]
                | inr other ↦ rw (to, g, other) refl
              ]
        ],
      ),
    )
