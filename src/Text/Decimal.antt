-- ===== src/Text/Decimal.antt =====
-- `string_reverse` turns a string round, and `itoa` writes the decimal digits of its number.
use microbit_dal.Prelude.{
  ℕ, zero, suc, ◌+◌, ◌-◌, ◌*◌, ◌/◌, ◌%◌, ◌≤◌, ◌<◌, ◌≡◌, ◌⊎◌, inl, inr, refl, sym, ap, ◌∙◌, ltb, leb,
  arith, Bool-cases, if-cases,
}
use microbit_dal.Prelude.Bytes.{Bytes, put}
use microbit_dal.Text.{swap, reverse_loop, string_reverse, digits_loop}

swap-first : (i j : ℕ) (s : Bytes) → i < j → swap i j s i ≡ s j
unfolding swap put
swap-first i j s h = ground arith

swap-last : (i j : ℕ) (s : Bytes) → swap i j s j ≡ s i
unfolding swap put
swap-last i j s = ground arith

swap-other : (i j k : ℕ) (s : Bytes) → i < k → k < j → swap i j s k ≡ s k
unfolding swap put
swap-other i j k s lo hi = ground arith

swap-outside : (i j k : ℕ) (s : Bytes) → (k < i) ⊎ (j < k) → i < j → swap i j s k ≡ s k
unfolding swap put
swap-outside i j k s out h = ground arith

-- What is between `i` and `j` is turned round, and nothing else changes.
abbrev pub Reversed : ℕ → ℕ → Bytes → Bytes → Type 0
Reversed i j s r =
    ((k : ℕ) → i ≤ k → k ≤ j → r k ≡ s (i + j - k)) × ((k : ℕ) → (k < i) ⊎ (j < k) → r k ≡ s k)

turned_lem :
    (i j : ℕ) (s later : Bytes)
    → i < j
    → ((k : ℕ) → i + 1 ≤ k → k ≤ j - 1 → later k ≡ swap i j s (i + 1 + (j - 1) - k))
    → ((k : ℕ) → (k < i + 1) ⊎ (j - 1 < k) → later k ≡ swap i j s k)
    → Reversed i j s later
turned_lem i j s later lt inside outside = (
  λ k lo hi. elim (Bool-cases (ltb i k)) [
    | inr f ↦
        let e : k ≡ i = ground arith in
        ap later e ∙ outside i (inl (omega arith)) ∙ swap-first i j s lt ∙ ap s (omega arith)
    | inl t ↦ elim (Bool-cases (ltb k j)) [
      | inl u ↦
          inside k (ground arith) (ground arith)
          ∙ swap-other i j (i + 1 + (j - 1) - k) s (ground arith) (ground arith)
          ∙ ap s (omega arith)
      | inr u ↦
          let e : k ≡ j = ground arith in
          ap later e ∙ outside j (inr (omega arith)) ∙ swap-last i j s ∙ ap s (omega arith)
    ]
  ],
  λ k out.
      outside k (elim out [ inl h ↦ inl (omega arith) | inr h ↦ inr (omega arith) ])
      ∙ swap-outside i j k s out lt,
)

reverse_loop-Reversed :
    (fuel i j : ℕ) (s : Bytes) → j ≤ i + fuel → Reversed i j s (reverse_loop fuel i j s)
unfolding reverse_loop
reverse_loop-Reversed zero i j s h = (λ k lo hi. ap s (omega arith), λ k out. refl)
reverse_loop-Reversed (suc fuel) i j s h =
    let later = reverse_loop fuel (i + 1) (j - 1) (swap i j s) in
    if-cases (Reversed i j s) (ltb i j) later s
      (λ t.
        let lt : i < j = ground arith in
        let (inside, outside) =
          reverse_loop-Reversed fuel (i + 1) (j - 1) (swap i j s) (omega arith) in
        turned_lem i j s later lt inside outside)
      (λ f. (λ k lo hi. ap s (ground arith), λ k out. refl))

abbrev pub div10 : ℕ → ℕ → ℕ
div10 zero m = m
div10 (suc j) m = div10 j m / 10

div10-inner : (j m : ℕ) → div10 j (m / 10) ≡ div10 (suc j) m
div10-inner zero m = refl
div10-inner (suc j) m = ap (λ k. k / 10) (div10-inner j m)

-- What the loop of `itoa` writes from `i` on: the digits of `m`, the lowest first, all of them.
abbrev pub Written : ℕ → ℕ → Bytes → Bytes × ℕ → Type 0
Written m i s (s', c) =
    (i < c)
    × ((k : ℕ) → i ≤ k → k < c → s' k ≡ div10 (k - i) m % 10 + 48)
    × ((k : ℕ) → k < i → s' k ≡ s k)
    × (div10 (c - i) m ≡ 0)

abbrev pub power : ℕ → ℕ
power zero = 1
power (suc k) = 10 * power k

pub put-here : (s : Bytes) (i v : ℕ) → put s i v i ≡ v
unfolding put
put-here s i v = ground arith

pub put-below : (s : Bytes) (i v k : ℕ) → k < i → put s i v k ≡ s k
unfolding put
put-below s i v k h = ground arith

one_digit : (m i : ℕ) (s : Bytes) → m < 10 → Written m i s (put s i (m % 10 + 48), i + 1)
one_digit m i s h =
    let one : i + 1 - i ≡ 1 = omega arith in
    (
      omega arith,
      λ k lo hi.
          let e : k ≡ i = omega arith in
          let none : k - i ≡ 0 = omega arith in
          ap (put s i (m % 10 + 48)) e
          ∙ put-here s i (m % 10 + 48)
          ∙ sym (ap (λ t. div10 t m % 10 + 48) none),
      λ k h. put-below s i (m % 10 + 48) k h,
      ap (λ t. div10 t m) one ∙ omega arith,
    )

more_digits :
    (m i : ℕ) (s : Bytes) (r : Bytes × ℕ)
    → Written (m / 10) (i + 1) (put s i (m % 10 + 48)) r
    → Written m i s r
more_digits m i s (s', c) (lt, here, below, all) = (
  omega arith,
  λ k lo hi. elim (Bool-cases (ltb i k)) [
    | inr f ↦
        let e : k ≡ i = ground arith in
        let none : k - i ≡ 0 = omega arith in
        ap s' e
        ∙ below i (omega arith)
        ∙ put-here s i (m % 10 + 48)
        ∙ sym (ap (λ t. div10 t m % 10 + 48) none)
    | inl t ↦
        let e : suc (k - (i + 1)) ≡ k - i = ground arith in
        here k (ground arith) hi
        ∙ ap (λ d. d % 10 + 48) (div10-inner (k - (i + 1)) m ∙ ap (λ t. div10 t m) e)
  ],
  λ k h. below k (omega arith) ∙ put-below s i (m % 10 + 48) k h,
  (let e : suc (c - (i + 1)) ≡ c - i = omega arith in
      sym (div10-inner (c - (i + 1)) m ∙ ap (λ t. div10 t m) e) ∙ all),
)

pub digits_loop-Written :
    (fuel m i : ℕ) (s : Bytes) → m < power (suc fuel) → Written m i s (digits_loop fuel m i s)
unfolding digits_loop
digits_loop-Written zero m i s h = one_digit m i s h
digits_loop-Written (suc fuel) m i s h =
    let written = put s i (m % 10 + 48) in
    if-cases (Written m i s) (ltb 0 (m / 10)) (digits_loop fuel (m / 10) (i + 1) written)
      (written, i + 1)
      (λ t.
        more_digits m i s (digits_loop fuel (m / 10) (i + 1) written)
          (digits_loop-Written fuel (m / 10) (i + 1) written (omega arith)))
      (λ f. one_digit m i s (ground arith))

pub digits_loop-bound : (fuel m i : ℕ) (s : Bytes) → (digits_loop fuel m i s).1 ≤ i + suc fuel
unfolding digits_loop
digits_loop-bound zero m i s = omega arith
digits_loop-bound (suc fuel) m i s =
    let written = put s i (m % 10 + 48) in
    if-cases (λ (r : Bytes × ℕ). r.1 ≤ i + suc (suc fuel)) (ltb 0 (m / 10))
      (digits_loop fuel (m / 10) (i + 1) written) (written, i + 1)
      (λ t. let later = digits_loop-bound fuel (m / 10) (i + 1) written in omega arith)
      (λ f. omega arith)

-- `string_reverse` of a string of `n` characters: each character comes to the place as far from the
-- other end, and nothing behind the string changes.
pub string_reverse-Reversed : (n : ℕ) (s : Bytes) → Reversed 0 (n - 1) s (string_reverse n s)
unfolding string_reverse
string_reverse-Reversed n s = reverse_loop-Reversed n 0 (n - 1) s (omega arith)

string_reverse-string_reverse :
    (n : ℕ) (s : Bytes) (k : ℕ) → string_reverse n (string_reverse n s) k ≡ s k
string_reverse-string_reverse n s k =
    let (inside, outside) = string_reverse-Reversed n s in
    let (inside', outside') = string_reverse-Reversed n (string_reverse n s) in
    elim (Bool-cases (leb k (n - 1))) [
      | inl t ↦
          inside' k (omega arith) (ground arith)
          ∙ inside (0 + (n - 1) - k) (omega arith) (omega arith)
          ∙ ap s (ground arith)
      | inr f ↦ outside' k (inr (ground arith)) ∙ outside k (inr (ground arith))
    ]
