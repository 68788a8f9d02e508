-- ===== src/Serial/Port/Delimiter.antt =====
-- Reading up to a delimiter.
use native.Mathlib.Nat.{mod-eq_of_lt, mod-eq-sub-mod}
use microbit_dal.Prelude.{
  ℕ, zero, suc, ◌+◌, ◌-◌, ◌%◌, ◌≤◌, ◌<◌, ◌≡◌, refl, sym, ap, ◌∙◌, inl, inr, true, false, none, some,
  List, [], ◌∷◌, ◌++◌, append_assoc, arith, ltb, if◌then◌else◌, ltb→lt, Bool-cases, length,
}
use microbit_dal.Prelude.Bytes.{Bytes}
use microbit_dal.RingBuffer.{Ring, buffered_size}
use microbit_dal.RingBuffer.Contents.{IsValid, contents, slice, next_mod, buffered_size-lt}
use microbit_dal.Serial.{Serial}
use microbit_dal.Serial.Port.{
  until_found, member, find_delimiter, circular_copy, take_until, read_until,
}

abbrev pub NoneOf : List ℕ → List ℕ → Type 0
NoneOf delims [] = Unit
NoneOf delims (c ∷ cs) = (member c delims ≡ false) × NoneOf delims cs

-- The first delimiter of a buffer: where the scan finds it, and what is copied up to there.
abbrev Finds : ℕ → List ℕ → Ring → ℕ → List ℕ → Type 0
Finds n delims r t before =
    (found : ℕ) × ((find_delimiter n delims r t).1 ≡ some found)
    × (found ≡ (
        if ltb (t + length before) r.size then t + length before else t + length before - r.size))
    × (circular_copy (length before) r.buff r.size t ≡ before)
    × (length before < n)

find_first :
    (n : ℕ) (delims : List ℕ) (r : Ring) (t : ℕ) (before after : List ℕ) (d : ℕ)
    → slice r.buff r.size n t ≡ before ++ d ∷ after
    → NoneOf delims before
    → member d delims ≡ true
    → t < r.size
    → n < r.size
    → Finds n delims r t before
unfolding find_delimiter circular_copy
find_first zero delims r t [] after d at none_of is in_t in_n = cc
find_first zero delims r t (c ∷ cs) after d at none_of is in_t in_n = cc
find_first (suc n) delims r t [] after d at none_of is in_t in_n =
    let here : r.buff t ≡ d = cc in
    let hit : member (r.buff t) delims ≡ true = ap (λ c. member c delims) here ∙ is in
    let next = (t + 1) % r.size in
    (
      t,
      ap (λ b. (if b then (next, some t) else find_delimiter n delims r next).1) hit,
      ground arith,
      refl,
      omega arith,
    )
find_first (suc n) delims r t (c ∷ cs) after d at none_of is in_t in_n =
    let here : r.buff t ≡ c = cc in
    let miss : member (r.buff t) delims ≡ false = ap (λ c. member c delims) here ∙ none_of.0 in
    let next = (t + 1) % r.size in
    let where_next = next_mod t r.size in_t in
    let in_next : next < r.size = ground (arith, where_next) in
    let rest : slice r.buff r.size n next ≡ cs ++ d ∷ after = cc in
    let (found, hit, place, copied, few) =
      find_first n delims r next cs after d rest none_of.1 is in_next (omega arith) in
    (
      found,
      ap (λ b. (if b then (next, some t) else find_delimiter n delims r next).1) miss ∙ hit,
      ground (arith, where_next, place),
      ap (λ l. r.buff t ∷ l) copied ∙ ap (λ x. x ∷ cs) here,
      omega (arith, few),
    )

find_none :
    (n : ℕ) (delims : List ℕ) (r : Ring) (t : ℕ)
    → NoneOf delims (slice r.buff r.size n t)
    → (find_delimiter n delims r t).1 ≡ none
unfolding find_delimiter
find_none zero delims r t h = refl
find_none (suc n) delims r t h =
    let next = (t + 1) % r.size in
    ap (λ b. (if b then (next, some t) else find_delimiter n delims r next).1) h.0
    ∙ find_none n delims r next h.1

-- The offset `k` places behind `t`.
abbrev ahead : ℕ → ℕ → ℕ → ℕ
ahead size t k = if ltb (t + k) size then t + k else t + k - size

ahead_mod : (size t k : ℕ) → t < size → k < size → (t + k) % size ≡ ahead size t k
ahead_mod size t k in_t in_k = elim (Bool-cases (ltb (t + k) size)) [
  | inl inside ↦ rw inside (mod-eq_of_lt (ltb→lt (t + k) size inside))
  | inr wraps ↦
      let over : size ≤ t + k = ground arith in
      let small : (t + k - size) % size ≡ t + k - size = mod-eq_of_lt (omega arith) in
      rw wraps (mod-eq-sub-mod over ∙ small)
]

slice-suffix :
    (b : Bytes) (size n t : ℕ) (before after : List ℕ)
    → slice b size n t ≡ before ++ after
    → t < size
    → n < size
    → (slice b size (n - length before) (ahead size t (length before)) ≡ after)
      × (length before ≤ n)
slice-suffix b size n t [] after at in_t in_n =
    let here : ahead size t 0 ≡ t = ground arith in
    let all : n - 0 ≡ n = omega arith in
    (ap (slice b size (n - 0)) here ∙ ap (λ k. slice b size k t) all ∙ at, omega arith)
slice-suffix b size zero t (c ∷ cs) after at in_t in_n = cc
slice-suffix b size (suc n) t (c ∷ cs) after at in_t in_n =
    let where_next = next_mod t size in_t in
    let next = (t + 1) % size in
    let rest : slice b size n next ≡ cs ++ after = cc in
    let (same, few) =
      slice-suffix b size n next cs after rest (ground (arith, where_next)) (omega arith) in
    let place : ahead size t (suc (length cs)) ≡ ahead size next (length cs) =
      ground (arith, where_next) in
    let left : suc n - suc (length cs) ≡ n - length cs = omega arith in
    (
      ap (slice b size (suc n - suc (length cs))) place
          ∙ ap (λ k. slice b size k (ahead size next (length cs))) left
          ∙ same,
      omega (arith, few),
    )

length_snoc : (xs : List ℕ) (x : ℕ) → length (xs ++ x ∷ []) ≡ suc (length xs)
length_snoc [] x = refl
length_snoc (y ∷ xs) x = ap suc (length_snoc xs x)

-- The contents with the tail moved on by `k` bytes.
contents_moved :
    (r : Ring) (k l : ℕ)
    → IsValid r
    → k ≡ suc l
    → k ≤ buffered_size r
    → contents (record r { tail = (r.tail + l + 1) % r.size })
      ≡ slice r.buff r.size (buffered_size r - k) (ahead r.size r.tail k)
unfolding buffered_size
contents_moved r k l v e few =
    let same : r.tail + l + 1 ≡ r.tail + k = omega arith in
    let in_k : k < r.size = omega (arith, buffered_size-lt r v) in
    let moved : (r.tail + l + 1) % r.size ≡ ahead r.size r.tail k =
      ap (λ x. x % r.size) same ∙ ahead_mod r.size r.tail k v.tail_in in_k in
    let fewer : buffered_size (record r { tail = ahead r.size r.tail k }) ≡ buffered_size r - k =
      ground arith in
    ap (λ x. contents (record r { tail = x })) moved
    ∙ ap (λ n. slice r.buff r.size n (ahead r.size r.tail k)) fewer

-- `readUntil` with ASYNC on a free port: it gives the text before the first delimiter, and leaves
-- what is behind that delimiter.
read_until_lem :
    (delims before after : List ℕ) (d : ℕ) (s : Serial)
    → IsValid s.rx
    → s.rx_in_use ≡ false
    → contents s.rx ≡ before ++ d ∷ after
    → NoneOf delims before
    → member d delims ≡ true
    → ((read_until delims s).1 ≡ before) × (contents (read_until delims s).0.rx ≡ after)
unfolding read_until until_found take_until
read_until_lem delims before after d s v free at none_of is =
    let n = buffered_size s.rx in
    let few : n < s.rx.size = buffered_size-lt s.rx v in
    let (found, hit, place, copied, inside) =
      find_first n delims s.rx s.rx.tail before after d at none_of is v.tail_in few in
    let runs : read_until delims s ≡ take_until found (record s { rx_in_use = false }) =
      ap (λ b. if b then (s, []) else until_found (find_delimiter n delims s.rx s.rx.tail).1 s) free
      ∙ ap (λ m. until_found m s) hit in
    let split : contents s.rx ≡ (before ++ d ∷ []) ++ after =
      at ∙ sym (append_assoc before (d ∷ []) after) in
    let behind =
      slice-suffix s.rx.buff s.rx.size n s.rx.tail (before ++ d ∷ []) after split v.tail_in few in
    let local_size : (if ltb found s.rx.tail
          then (s.rx.size - s.rx.tail) + found
          else found - s.rx.tail)
        ≡ length before =
      ground (arith, place, v) in
    (
      ap (λ r. r.1) runs
          ∙ ap (λ k. circular_copy k s.rx.buff s.rx.size s.rx.tail) local_size
          ∙ copied,
      ap (λ r. contents r.0.rx) runs
          ∙ ap (λ l. contents (record (s.rx) { tail = (s.rx.tail + l + 1) % s.rx.size })) local_size
          ∙ contents_moved s.rx (length (before ++ d ∷ [])) (length before) v (length_snoc before d)
              behind.1
          ∙ behind.0,
    )
