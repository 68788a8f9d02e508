-- ===== src/RingBuffer/Contents.antt =====
-- A ring buffer as the list of the bytes that it holds, oldest first.
use native.Mathlib.Nat.{mod-eq_of_lt}
use microbit_dal.Prelude.{
  ℕ, zero, suc, ◌+◌, ◌-◌, ◌%◌, ◌<◌, ◌≡◌, refl, sym, ap, subst, ◌∙◌, ◌≢◌, ◌↔◌, inl, inr, true, false,
  none, some, List, [], ◌∷◌, ◌++◌, arith, ltb, ◌==◌, if◌then◌else◌, Bool-cases, length,
}
use microbit_dal.Prelude.Bytes.{Bytes, put}
use microbit_dal.RingBuffer.{Ring, push, pop, is_empty, buffered_size}

-- `n` bytes from offset `t` on, in a buffer of `size`.
abbrev pub slice : Bytes → ℕ → ℕ → ℕ → List ℕ
slice b size zero t = []
slice b size (suc n) t = b t ∷ slice b size n ((t + 1) % size)

abbrev pub contents : Ring → List ℕ
contents r = slice r.buff r.size (buffered_size r) r.tail

pub record IsValid (r : Ring) : Type 0 where
  pub head_in : r.head < r.size
  pub tail_in : r.tail < r.size

pub next_mod : (t n : ℕ) → t < n → (t + 1) % n ≡ (if t + 1 == n then 0 else t + 1)
next_mod t n h = elim (Bool-cases (t + 1 == n)) [
  | inl wraps ↦ let e : t + 1 ≡ n = ground arith in rw (wraps, e) (grind arith)
  | inr stays ↦ rw stays (mod-eq_of_lt (ground arith))
]

length-slice : (b : Bytes) (size n t : ℕ) → length (slice b size n t) ≡ n
length-slice b size zero t = refl
length-slice b size (suc n) t = ap suc (length-slice b size n ((t + 1) % size))

pub length-contents : (r : Ring) → length (contents r) ≡ buffered_size r
length-contents r = length-slice r.buff r.size (buffered_size r) r.tail

pub is_empty_iff : (r : Ring) → IsValid r → (is_empty r ≡ true) ↔ (buffered_size r ≡ 0)
unfolding is_empty buffered_size
is_empty_iff r v = (λ h. ground arith, λ h. ground arith)

pub contents-nil : (r : Ring) → IsValid r → is_empty r ≡ true → contents r ≡ []
contents-nil r v h = ap (λ k. slice r.buff r.size k r.tail) ((is_empty_iff r v).0 h)

pub contents-cons :
    (r : Ring) → IsValid r → is_empty r ≡ false → (x : ℕ) × (xs : List ℕ) × (contents r ≡ x ∷ xs)
contents-cons r v h =
    let ne : buffered_size r ≢ 0 = λ e. cc ((is_empty_iff r v).1 e) in
    let more : buffered_size r ≡ suc (buffered_size r - 1) = omega (arith, ne) in
    (
      r.buff r.tail,
      slice r.buff r.size (buffered_size r - 1) ((r.tail + 1) % r.size),
      ap (λ k. slice r.buff r.size k r.tail) more,
    )

pub pop-size : (r : Ring) → (pop r).0.size ≡ r.size
unfolding pop
pop-size r = refl

-- The offset `k` places behind `t`.
abbrev ahead : ℕ → ℕ → ℕ → ℕ
ahead size t k = if ltb (t + k) size then t + k else t + k - size

-- A write behind the slice is the slice's next byte.
slice-put :
    (b : Bytes) (size n t c h : ℕ)
    → t < size
    → n < size
    → h ≡ ahead size t n
    → slice (put b h c) size (suc n) t ≡ slice b size n t ++ c ∷ []
unfolding put
slice-put b size zero t c h in_t in_n e =
    let same : h ≡ t = ground arith in ap (λ v. v ∷ []) (ground arith)
slice-put b size (suc n) t c h in_t in_n e =
    let next = next_mod t size in_t in
    let in_next : (t + 1) % size < size = ground (arith, next) in
    let there : h ≡ ahead size ((t + 1) % size) n = ground (arith, next) in
    let first : put b h c t ≡ b t = ground (arith) in
    let rest = slice-put b size n ((t + 1) % size) c h in_next (omega arith) there in
    ap (λ v. v ∷ slice (put b h c) size (suc n) ((t + 1) % size)) first ∙ ap (λ l. b t ∷ l) rest

pub push_full : (c : ℕ) (r : Ring) → IsValid r → (push c r ≡ none) ↔ (buffered_size r + 1 ≡ r.size)
unfolding push buffered_size
push_full c r v =
    let next = next_mod r.head r.size v.head_in in
    (λ h. ground (arith, next), λ h. ground (arith, next))

pushed :
    (c : ℕ) (r : Ring)
    → IsValid r
    → (r.head + 1) % r.size ≢ r.tail
    → let r' : Ring = record r { buff = put r.buff r.head c; head = (r.head + 1) % r.size } in
      IsValid r' × (r'.size ≡ r.size) × (contents r' ≡ contents r ++ c ∷ [])
unfolding buffered_size
pushed c r v room =
    let next = next_mod r.head r.size v.head_in in
    let r' : Ring = record r { buff = put r.buff r.head c; head = (r.head + 1) % r.size } in
    let more : buffered_size r' ≡ suc (buffered_size r) = ground (arith, next) in
    let few : buffered_size r < r.size = ground arith in
    let behind : r.head ≡ ahead r.size r.tail (buffered_size r) = ground arith in
    (
      record { head_in = ground (arith, next); tail_in = v.tail_in },
      refl,
      ap (λ k. slice r'.buff r.size k r.tail) more
          ∙ slice-put r.buff r.size (buffered_size r) r.tail c r.head v.tail_in few behind,
    )

pub push_room :
    (c : ℕ) (r r' : Ring) → IsValid r → push c r ≡ some r' → buffered_size r + 1 < r.size
unfolding push buffered_size
push_room c r r' v h = let next = next_mod r.head r.size v.head_in in ground (arith, next)

pub push_lem :
    (c : ℕ) (r r' : Ring)
    → IsValid r
    → push c r ≡ some r'
    → IsValid r' × (r'.size ≡ r.size) × (contents r' ≡ contents r ++ c ∷ [])
unfolding push buffered_size
push_lem c r r' v h =
    let next = next_mod r.head r.size v.head_in in
    let made : record r { buff = put r.buff r.head c; head = (r.head + 1) % r.size } ≡ r' =
      ground (arith, next) in
    subst (λ s. IsValid s × (s.size ≡ r.size) × (contents s ≡ contents r ++ c ∷ [])) made
      (pushed c r v (ground (arith, next)))

pub pop_lem :
    (r : Ring) (x : ℕ) (xs : List ℕ)
    → IsValid r
    → contents r ≡ x ∷ xs
    → IsValid (pop r).0 × ((pop r).1 ≡ x) × (contents (pop r).0 ≡ xs)
unfolding pop buffered_size
pop_lem r x xs v h =
    let next = next_mod r.tail r.size v.tail_in in
    let r' : Ring = record r { tail = (r.tail + 1) % r.size } in
    let some_bytes : buffered_size r ≢ 0 =
      λ e. cc (sym (ap (λ k. slice r.buff r.size k r.tail) e) ∙ h) in
    let fewer : buffered_size r ≡ suc (buffered_size r') = ground (arith, next, some_bytes) in
    let split : r.buff r.tail ∷ contents r' ≡ x ∷ xs =
      sym (ap (λ k. slice r.buff r.size k r.tail) fewer) ∙ h in
    (record { head_in = v.head_in; tail_in = ground (arith, next) }, cc, cc)

pub buffered_size-lt : (r : Ring) → IsValid r → buffered_size r < r.size
unfolding buffered_size
buffered_size-lt r v = ground arith
