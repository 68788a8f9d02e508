-- ===== src/RefCounted/Counts.antt =====
-- What `incr` and `decr` do to an object whose count is that of its handles.
use microbit_dal.Prelude.{
  set, if-both, get_elem?, ℕ, zero, suc, ◌+◌, ◌-◌, ◌*◌, ◌%◌, ◌^◌, ◌≤◌, ◌<◌, ◌≡◌, refl, sym, ap,
  subst, ◌∙◌, ◌≢◌, ◌⊎◌, inl, inr, Bool, true, false, Option, none, some, List, [], ◌∷◌, arith, ◌==◌,
  if◌then◌else◌, Bool-cases, Option-cases, length,
}
use microbit_dal.RefCounted.{remove_at, Object, Memory, store, incr, decr, is_read_only}

-- How many handles point to an address.
abbrev pub count : ℕ → List ℕ → ℕ
count p [] = 0
count p (h ∷ hs) = (if p == h then 1 else 0) + count p hs

pub count-get_elem? : (hs : List ℕ) (i p : ℕ) → get_elem? hs i ≡ some p → 1 ≤ count p hs
count-get_elem? [] i p e = cc
count-get_elem? (h ∷ hs) zero p e = let same : h ≡ p = cc in ground arith
count-get_elem? (h ∷ hs) (suc i) p e = omega (arith, count-get_elem? hs i p e)

pub count-length : (hs : List ℕ) (p : ℕ) → count p hs ≤ length hs
count-length [] p = omega arith
count-length (h ∷ hs) p =
    let rest = count-length hs p in
    if-both (λ n. n + count p hs ≤ suc (length hs)) (p == h) (omega arith) (omega arith)

pub count-set :
    (hs : List ℕ) (i p q a : ℕ)
    → get_elem? hs i ≡ some p
    → count a (set hs i q) + (if a == p then 1 else 0) ≡ count a hs + (if a == q then 1 else 0)
count-set [] i p q a e = cc
count-set (h ∷ hs) zero p q a e = let same : h ≡ p = cc in rw same (omega arith)
count-set (h ∷ hs) (suc i) p q a e = omega (arith, count-set hs i p q a e)

pub count-remove_at :
    (hs : List ℕ) (i p a : ℕ)
    → get_elem? hs i ≡ some p
    → count a (remove_at i hs) + (if a == p then 1 else 0) ≡ count a hs
count-remove_at [] i p a e = cc
count-remove_at (h ∷ hs) zero p a e = let same : h ≡ p = cc in rw same (omega arith)
count-remove_at (h ∷ hs) (suc i) p a e = omega (arith, count-remove_at hs i p a e)

module _ {A : Type 0} where
  -- An object in flash is not counted; any other has a handle, and the count `2 n + 1` for `n` handles.
  abbrev pub Counted : Option (Object A) → ℕ → Type 0
  Counted none n = n ≡ 0
  Counted (some o) n = (o.ref_count ≡ 65535) ⊎ ((1 ≤ n) × (o.ref_count ≡ 2 * n + 1))

  abbrev pub value : Option (Object A) → Option A
  value none = none
  value (some o) = some o.payload

  -- A new memory in which one address has `n` handles, and the rest is as it was; the payload stays
  -- while there is a handle.
  abbrev pub Moves : ℕ → ℕ → Memory A → Option (Memory A) → Type 0
  Moves p n m r =
      (m' : Memory A) × (r ≡ some m')
      × Counted (m' p) n
      × ((q : ℕ) → q ≢ p → m' q ≡ m q)
      × (1 ≤ n → value (m' p) ≡ value (m p))

  store_same : (p : ℕ) (o : Option (Object A)) (m : Memory A) → store p o m p ≡ o
  store_same p o m = ground arith

  store_other : (p : ℕ) (o : Option (Object A)) (m : Memory A) (q : ℕ) → q ≢ p → store p o m q ≡ m q
  store_other p o m q h = ground arith

  incr_at :
      (p : ℕ) (m : Memory A) (o : Object A) (b : Bool)
      → m p ≡ some o
      → is_read_only o.ref_count ≡ some b
      → incr p m
        ≡ some (
            if b then m else store p (some (record o { ref_count = (o.ref_count + 2) % 2 ^ 16 })) m)
  incr_at p m o b e r = rw (e, r) refl

  decr_at :
      (p : ℕ) (m : Memory A) (o : Object A) (b : Bool)
      → m p ≡ some o
      → is_read_only o.ref_count ≡ some b
      → let count = (o.ref_count + 2 ^ 16 - 2) % 2 ^ 16 in
        decr p m
        ≡ some (
            if b
            then m
            else if count == 1
            then store p none m
            else store p (some (record o { ref_count = count })) m)
  decr_at p m o b e r = rw (e, r) refl

  -- The memory in which nothing happened to an object in flash.
  stays :
      (p n : ℕ) (m : Memory A) (o : Object A) (r : Option (Memory A))
      → m p ≡ some o
      → o.ref_count ≡ 65535
      → r ≡ some m
      → Moves p n m r
  stays p n m o r e full same =
      let flash : Counted (m p) n = subst (λ x. Counted x n) (sym e) (inl full) in
      (m, same, flash, λ q h. refl, λ h. refl)

  -- The memory in which the object has another count.
  recounted :
      (p n k : ℕ) (m : Memory A) (o : Object A) (r : Option (Memory A))
      → m p ≡ some o
      → 1 ≤ n
      → k ≡ 2 * n + 1
      → r ≡ some (store p (some (record o { ref_count = k })) m)
      → Moves p n m r
  recounted p n k m o r e live odd same =
      let at = store_same p (some (record o { ref_count = k })) m in
      (
        store p (some (record o { ref_count = k })) m,
        same,
        subst (λ x. Counted x n) (sym at) (inr (live, odd)),
        store_other p (some (record o { ref_count = k })) m,
        λ h. ap value at ∙ ap value (sym e),
      )

  pub incr-Moves :
      (p n : ℕ) (m : Memory A) → Counted (m p) n → 1 ≤ n → n < 32766 → Moves p (suc n) m (incr p m)
  incr-Moves p n m c h b = elim (Option-cases (m p)) [
    | inl e ↦ absurd (omega (arith, subst (λ x. Counted x n) e c, h))
    | inr (o, e) ↦ elim (subst (λ x. Counted x n) e c) [
      | inl full ↦
          let flash : is_read_only o.ref_count ≡ some true = rw full refl in
          stays p (suc n) m o (incr p m) e full (incr_at p m o true e flash)
      | inr (live, odd) ↦
          let heap : is_read_only o.ref_count ≡ some false = ground arith in
          let k : (o.ref_count + 2) % 2 ^ 16 ≡ 2 * suc n + 1 = omega (arith, odd) in
          recounted p (suc n) ((o.ref_count + 2) % 2 ^ 16) m o (incr p m) e (omega arith) k
            (incr_at p m o false e heap)
    ]
  ]

  pub decr-Moves :
      (p n : ℕ) (m : Memory A) → Counted (m p) (suc n) → n < 32766 → Moves p n m (decr p m)
  decr-Moves p n m c b = elim (Option-cases (m p)) [
    | inl e ↦ absurd (omega (arith, subst (λ x. Counted x (suc n)) e c))
    | inr (o, e) ↦ elim (subst (λ x. Counted x (suc n)) e c) [
      | inl full ↦
          let flash : is_read_only o.ref_count ≡ some true = rw full refl in
          stays p n m o (decr p m) e full (decr_at p m o true e flash)
      | inr (live, odd) ↦
          let heap : is_read_only o.ref_count ≡ some false = ground arith in
          let less : (o.ref_count + 2 ^ 16 - 2) % 2 ^ 16 ≡ 2 * n + 1 = omega (arith, odd) in
          let here = decr_at p m o false e heap in
          let others = store_other p none m in
          elim (Bool-cases (n == 0)) [
            | inl last ↦
                let zero_left : n ≡ 0 = ground arith in
                let one : ((o.ref_count + 2 ^ 16 - 2) % 2 ^ 16 == 1) ≡ true = ground arith in
                (
                  store p none m,
                  here ∙ rw one refl,
                  subst (λ x. Counted x n) (sym (store_same p none m)) zero_left,
                  others,
                  λ k. absurd (omega (arith, k, zero_left)),
                )
            | inr more ↦
                let live_yet : 1 ≤ n = ground arith in
                let many : ((o.ref_count + 2 ^ 16 - 2) % 2 ^ 16 == 1) ≡ false = ground arith in
                recounted p n ((o.ref_count + 2 ^ 16 - 2) % 2 ^ 16) m o (decr p m) e live_yet less
                  (here ∙ rw many refl)
          ]
    ]
  ]
