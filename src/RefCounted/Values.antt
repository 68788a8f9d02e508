-- ===== src/RefCounted/Values.antt =====
-- source/types/RefCounted.cpp: the operations on handles, by what the handles hold.
use microbit_dal.Prelude.{
  set, if-both, get_elem?, ℕ, zero, suc, ◌+◌, ◌-◌, ◌≤◌, ◌<◌, ◌≡◌, refl, sym, ap, subst, ◌∙◌, ◌≢◌,
  inl, inr, Option, none, some, List, [], ◌∷◌, map, arith, ◌==◌, if◌then◌else◌, Bool-cases, length,
}
use microbit_dal.RefCounted.{
  Object, Memory, State, store, construct, copy, assign, destroy, remove_at,
}
use microbit_dal.RefCounted.Counts.{
  count-set, count-get_elem?, decr-Moves, count-remove_at, incr-Moves, count-length, count, Counted,
  value,
}

module _ {A : Type 0} where
  -- Each count is that of the handles, so that no handle points to a freed object, and each object
  -- outside flash has a handle.
  abbrev pub IsValid : State A → Type 0
  IsValid s = (p : ℕ) → Counted (s.memory p) (count p s.handles)

  -- What the handles hold
  abbrev pub values : State A → List (Option A)
  values s = map (λ p. value (s.memory p)) s.handles

  -- An operation that succeeds, and what the handles then hold.
  abbrev pub Succeeds : Option (State A) → List (Option A) → Type 0
  Succeeds r vs = (s : State A) × (r ≡ some s) × IsValid s × (values s ≡ vs)

  -- `value` does not depend on memory that no handle points to.
  values_agree :
      (m m' : Memory A) (hs : List ℕ)
      → ((p : ℕ) → 1 ≤ count p hs → value (m' p) ≡ value (m p))
      → map (λ p. value (m' p)) hs ≡ map (λ p. value (m p)) hs
  values_agree m m' [] h = refl
  values_agree m m' (p ∷ hs) h =
      let here : 1 ≤ count p (p ∷ hs) = ground arith in
      let rest = values_agree m m' hs (λ q k.
        h q (if-both (λ n. 1 ≤ n + count q hs) (q == p) (omega (arith, k)) (omega (arith, k)))) in
      rw (h p here, rest) refl

  map-set : (f : ℕ → Option A) (hs : List ℕ) (i q : ℕ) → map f (set hs i q) ≡ set (map f hs) i (f q)
  map-set f [] i q = refl
  map-set f (h ∷ hs) zero q = refl
  map-set f (h ∷ hs) (suc i) q = ap (λ k. f h ∷ k) (map-set f hs i q)

  map-remove_at :
      (f : ℕ → Option A) (hs : List ℕ) (i : ℕ) → map f (remove_at i hs) ≡ remove_at i (map f hs)
  map-remove_at f [] i = refl
  map-remove_at f (h ∷ hs) zero = refl
  map-remove_at f (h ∷ hs) (suc i) = ap (λ k. f h ∷ k) (map-remove_at f hs i)

  -- The objects that are counted right still are, and keep their payload, when the number of handles
  -- changes at one address only.
  moved :
      (p n : ℕ) (m m' : Memory A) (c c' : ℕ → ℕ)
      → ((q : ℕ) → Counted (m q) (c q))
      → Counted (m' p) n
      → ((q : ℕ) → q ≢ p → m' q ≡ m q)
      → (1 ≤ n → value (m' p) ≡ value (m p))
      → c' p ≡ n
      → ((q : ℕ) → q ≢ p → c' q ≡ c q)
      → (q : ℕ) → Counted (m' q) (c' q) × (1 ≤ c' q → value (m' q) ≡ value (m q))
  moved p n m m' c c' v here others keeps at away q = elim (Bool-cases (q == p)) [
    | inl same ↦
        let e : q ≡ p = ground arith in
        rw e (subst (λ k. Counted (m' p) k) (sym at) here, λ k. keeps (omega (arith, at, k)))
    | inr apart ↦ let ne : q ≢ p = ground arith in rw (others q ne, away q ne) (v q, λ k. refl)
  ]

  pub construct-IsValid :
      (p : ℕ) (a : A) (s : State A)
      → s.memory p ≡ none
      → IsValid s
      → IsValid (construct p a s) × (values (construct p a s) ≡ some a ∷ values s)
  unfolding construct
  construct-IsValid p a s free v =
      let o : Option (Object A) = some (record { ref_count = 3; payload = a }) in
      let unused : count p s.handles ≡ 0 = subst (λ x. Counted x (count p s.handles)) free (v p) in
      let m' : Memory A = store p o s.memory in
      let same : m' p ≡ o = ground arith in
      let at : count p (p ∷ s.handles) ≡ 1 = ground (arith, unused) in
      let new : Counted (m' p) (count p (p ∷ s.handles)) =
        rw (same, at) (inr (omega arith, omega arith)) in
      (
        λ q. elim (Bool-cases (q == p)) [
          | inl here ↦
              let e : q ≡ p = ground arith in
              subst (λ x. Counted (m' x) (count x (p ∷ s.handles))) (sym e) new
          | inr other ↦
              let mem : m' q ≡ s.memory q = ground arith in
              let cnt : count q (p ∷ s.handles) ≡ count q s.handles = ground arith in
              subst (λ x. Counted x (count q (p ∷ s.handles))) (sym mem)
                (subst (λ k. Counted (s.memory q) k) (sym cnt) (v q))
        ],
        ap (λ x. value x ∷ map (λ q. value (m' q)) s.handles) same
            ∙ ap (λ k. some a ∷ k)
                (values_agree s.memory m' s.handles (λ q h.
                  let ne : q ≢ p =
                    λ e. omega (arith, subst (λ k. 1 ≤ count k s.handles) e h, unused) in
                  let mem : m' q ≡ s.memory q = ground arith in ap value mem)),
      )

  pub copy-Succeeds :
      (i p : ℕ) (s : State A)
      → IsValid s
      → length s.handles < 32766
      → get_elem? s.handles i ≡ some p
      → Succeeds (copy i s) (value (s.memory p) ∷ values s)
  unfolding copy
  copy-Succeeds i p s v b e =
      let n = count p s.handles in
      let few = count-length s.handles p in
      let (m, ok, here, others, keeps) =
        incr-Moves p n s.memory (v p) (count-get_elem? s.handles i p e) (omega (arith, few)) in
      let at : count p (p ∷ s.handles) ≡ suc n = ground arith in
      let after =
        moved p (suc n) s.memory m (λ q. count q s.handles) (λ q. count q (p ∷ s.handles)) v here
          others keeps at (λ q h. ground arith) in
      (
        record { memory = m; handles = p ∷ s.handles },
        rw (e, ok) refl,
        λ q. (after q).0,
        values_agree s.memory m (p ∷ s.handles) (λ q. (after q).1),
      )

  pub destroy-Succeeds :
      (i p : ℕ) (s : State A)
      → IsValid s
      → length s.handles < 32766
      → get_elem? s.handles i ≡ some p
      → Succeeds (destroy i s) (remove_at i (values s))
  unfolding destroy
  destroy-Succeeds i p s v b e =
      let left = count p (remove_at i s.handles) in
      let few = count-length s.handles p in
      let gone = count-remove_at s.handles i p p e in
      let one : suc left ≡ count p s.handles = ground arith in
      let (m, ok, here, others, keeps) =
        decr-Moves p left s.memory (subst (λ k. Counted (s.memory p) k) (sym one) (v p))
          (omega (arith, few)) in
      let after =
        moved p left s.memory m (λ q. count q s.handles) (λ q. count q (remove_at i s.handles)) v
          here others keeps refl (λ q h. ground (arith, count-remove_at s.handles i p q e)) in
      (
        record { memory = m; handles = remove_at i s.handles },
        rw (e, ok) refl,
        λ q. (after q).0,
        values_agree s.memory m (remove_at i s.handles) (λ q. (after q).1)
            ∙ map-remove_at (λ q. value (s.memory q)) s.handles i,
      )

  live_yet :
      (i p q a : ℕ) (s : State A)
      → get_elem? s.handles i ≡ some p
      → 1 ≤ count a (set s.handles i q)
      → 1 ≤ count q s.handles
      → p ≢ q
      → 1 ≤ (if a == p then count p s.handles - 1 else count a s.handles)
  live_yet i p q a s e h k ne =
      let here : a ≡ q → 1 ≤ count a s.handles =
        λ e. subst (λ x. 1 ≤ count x s.handles) (sym e) k in
      let there : a ≡ p → count p s.handles ≡ count a s.handles =
        λ e. ap (λ x. count x s.handles) (sym e) in
      ground (arith, count-set s.handles i p q a e, ne, h, here, there)

  pub assign-Succeeds :
      (i j p q : ℕ) (s : State A)
      → IsValid s
      → length s.handles < 32766
      → get_elem? s.handles i ≡ some p
      → get_elem? s.handles j ≡ some q
      → Succeeds (assign i j s) (set (values s) i (value (s.memory q)))
  unfolding assign
  assign-Succeeds i j p q s v b e e' = elim (Bool-cases (p == q)) [
    | inl same ↦
        let e2 : p ≡ q = ground arith in
        (
          record { memory = s.memory; handles = set s.handles i q },
          rw (e, e', same) refl,
          λ a.
              let cnt : count a (set s.handles i q) ≡ count a s.handles =
                ground (arith, count-set s.handles i p q a e, e2) in
              subst (λ k. Counted (s.memory a) k) (sym cnt) (v a),
          map-set (λ a. value (s.memory a)) s.handles i q,
        )
    | inr other ↦
        let left = count p s.handles - 1 in
        let ne : p ≢ q = ground arith in
        let some_p = count-get_elem? s.handles i p e in
        let some_q = count-get_elem? s.handles j q e' in
        let few_p = count-length s.handles p in
        let few_q = count-length s.handles q in
        let one : suc left ≡ count p s.handles = omega (arith, some_p) in
        let between : ℕ → ℕ = λ a. if a == p then left else count a s.handles in
        let (m, ok, here, others, keeps) =
          decr-Moves p left s.memory (subst (λ k. Counted (s.memory p) k) (sym one) (v p))
            (omega (arith, few_p)) in
        let at : between p ≡ left = ground arith in
        let first =
          moved p left s.memory m (λ a. count a s.handles) between v here others keeps at
            (λ a h. ground arith) in
        let at_q : between q ≡ count q s.handles = ground arith in
        let (m', ok', here', others', keeps') =
          incr-Moves q (count q s.handles) m (subst (λ k. Counted (m q) k) at_q (first q).0) some_q
            (omega (arith, few_q)) in
        let after = λ (a : ℕ). count a (set s.handles i q) in
        let at' : after q ≡ suc (count q s.handles) =
          ground (arith, count-set s.handles i p q q e) in
        let second =
          moved q (suc (count q s.handles)) m m' between after (λ a. (first a).0) here' others'
            keeps' at' (λ a h. ground (arith, count-set s.handles i p q a e)) in
        (
          record { memory = m'; handles = set s.handles i q },
          rw (e, e', other, ok, ok') refl,
          λ a. (second a).0,
          values_agree s.memory m' (set s.handles i q)
                (λ a h. (second a).1 h ∙ (first a).1 (live_yet i p q a s e h some_q ne))
              ∙ map-set (λ a. value (s.memory a)) s.handles i q,
        )
  ]
