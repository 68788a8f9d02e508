-- ===== src/MessageBus/Order.antt =====
-- The order of the list of listeners, and the registration of listeners.
use microbit_dal.Prelude.{
  length-append, suc, ◌≤◌, ◌<◌, ◌≡◌, refl, sym, ap, subst, ◌∙◌, ◌≢◌, ◌⊎◌, inl, inr, true, false,
  ◌&&◌, ◌||◌, none, some, List, [], ◌∷◌, ◌++◌, arith, ltb, ◌==◌, Bool-cases, Option-cases, length,
}
use microbit_dal.Listener.{Listener}
use microbit_dal.MessageBus.{
  ok, not_supported, same_registration, resurrect, skip_ids, skip_values, place, add, same_callback,
}

-- The order of the list: by id, then by value.
abbrev pub Le : Listener → Listener → Type 0
Le a b = (a.id < b.id) ⊎ ((a.id ≡ b.id) × (a.value ≤ b.value))

abbrev pub Below : Listener → List Listener → Type 0
Below a [] = Unit {0}
Below a (b ∷ ls) = Le a b × Below a ls

abbrev pub IsSorted : List Listener → Type 0
IsSorted [] = Unit {0}
IsSorted (a ∷ ls) = Below a ls × IsSorted ls

Le-trans : (a b c : Listener) → Le a b → Le b c → Le a c
Le-trans a b c h k = omega arith

Below-trans : (a b : Listener) (ls : List Listener) → Le a b → Below b ls → Below a ls
Below-trans a b [] h k = tt
Below-trans a b (c ∷ ls) h k = (Le-trans a b c h k.0, Below-trans a b ls h k.1)

resurrect-Below :
    (new a : Listener) (ls ls' : List Listener)
    → resurrect new ls ≡ some ls'
    → Below a ls
    → Below a ls'
unfolding resurrect
resurrect-Below new a [] ls' e h = cc
resurrect-Below new a (l ∷ ls) ls' e h = elim (Bool-cases (same_registration new l)) [
  | inl same ↦ subst (Below a) {x = record l { deleting = false } ∷ ls} (ground arith) h'
  | inr other ↦ elim (Option-cases (resurrect new ls)) [
    | inl missing ↦ ground arith
    | inr (found, eq) ↦
        let kept : Below a (l ∷ found) = (h.0, resurrect-Below new a ls found eq h.1) in
        subst (Below a) {x = l ∷ found} (ground arith) kept
  ]
]
  where
    h' : Below a (record l { deleting = false } ∷ ls)
    h' = h

resurrect-IsSorted :
    (new : Listener) (ls ls' : List Listener)
    → resurrect new ls ≡ some ls'
    → IsSorted ls
    → IsSorted ls'
unfolding resurrect
resurrect-IsSorted new [] ls' e h = cc
resurrect-IsSorted new (l ∷ ls) ls' e h = elim (Bool-cases (same_registration new l)) [
  | inl same ↦ subst IsSorted {x = record l { deleting = false } ∷ ls} (ground arith) h'
  | inr other ↦ elim (Option-cases (resurrect new ls)) [
    | inl missing ↦ ground arith
    | inr (found, eq) ↦
        let kept : IsSorted (l ∷ found) =
          (resurrect-Below new l ls found eq h.0, resurrect-IsSorted new ls found eq h.1) in
        subst IsSorted {x = l ∷ found} (ground arith) kept
  ]
]
  where
    Below_same : (ls : List Listener) → Below l ls → Below (record l { deleting = false }) ls
    Below_same [] b = b
    Below_same (x ∷ xs) b = (b.0, Below_same xs b.1)

    h' : IsSorted (record l { deleting = false } ∷ ls)
    h' = (Below_same ls h.0, h.1)

-- Every listener of the list comes before `new`.
abbrev Above : List Listener → Listener → Type 0
Above [] new = Unit {0}
Above (b ∷ ls) new = Le b new × Above ls new

-- Where the two loops of `add` stop in a sorted list.
record Splits (new : Listener) (ls : List Listener) (p : List Listener × List Listener)
    : Type 0 where
  whole : p.0 ++ p.1 ≡ ls
  above : Above p.0 new
  below : Below new p.1

skip_values-Splits :
    (new : Listener) (ls : List Listener)
    → IsSorted ls
    → Below (record new { value = 0 }) ls
    → Splits new ls (skip_values new ls)
unfolding skip_values
skip_values-Splits new [] s h = record { whole = refl; above = tt; below = tt }
skip_values-Splits new (l ∷ ls) s h =
    let rest = skip_values-Splits new ls s.1 h.1 in
    elim (Bool-cases (l.id == new.id && ltb l.value new.value)) [
      | inl go ↦ rw go (record {
        whole = ap (◌∷◌ l) rest.whole;
        above = (ground arith, rest.above);
        below = rest.below;
      })
      | inr stop ↦
          let first : Le new l = ground arith in
          rw stop
            (record { whole = refl; above = tt; below = (first, Below-trans new l ls first s.0) })
    ]

skip_ids-Splits :
    (new : Listener) (ls : List Listener) → IsSorted ls → Splits new ls (skip_ids new ls)
unfolding skip_ids
skip_ids-Splits new [] s = record { whole = refl; above = tt; below = tt }
skip_ids-Splits new (l ∷ ls) s =
    let rest = skip_ids-Splits new ls s.1 in
    elim (Bool-cases (ltb l.id new.id)) [
      | inl go ↦ rw go (record {
        whole = ap (◌∷◌ l) rest.whole;
        above = (ground arith, rest.above);
        below = rest.below;
      })
      | inr stop ↦
          let first : Le (record new { value = 0 }) l = ground arith in
          rw stop (
            skip_values-Splits new (l ∷ ls) s
              (first, Below-trans (record new { value = 0 }) l ls first s.0))
    ]

Below-insert :
    (a new : Listener) (b c : List Listener) → Le a new → Below a (b ++ c) → Below a (b ++ new ∷ c)
Below-insert a new [] c h k = (h, k)
Below-insert a new (x ∷ b) c h k = (k.0, Below-insert a new b c h k.1)

insert-IsSorted :
    (new : Listener) (b c : List Listener)
    → IsSorted (b ++ c)
    → Above b new
    → Below new c
    → IsSorted (b ++ new ∷ c)
insert-IsSorted new [] c s h k = (k, s)
insert-IsSorted new (x ∷ b) c s h k =
    (Below-insert x new b c h.0 s.0, insert-IsSorted new b c s.1 h.1 k)

place-IsSorted :
    (new : Listener) (p : List Listener × List Listener)
    → IsSorted (p.0 ++ p.1)
    → Above p.0 new
    → Below new p.1
    → IsSorted (place new p)
unfolding place
place-IsSorted new ([], []) s h k = (tt, tt)
place-IsSorted new ([], p ∷ after) s h k =
    elim (Bool-cases (ltb new.id p.id || (p.id == new.id && ltb new.value p.value))) [
      | inl front ↦ rw front (k, s)
      | inr behind ↦
          let equal : (p.id ≡ new.id) × (p.value ≡ new.value) = ground arith in
          rw behind ((omega arith, s.0), (Below-trans new p after (omega arith) s.0, s.1))
    ]
place-IsSorted new (p ∷ before, after) s h k = insert-IsSorted new (p ∷ before) after s h k

-- `MicroBitMessageBus::add` keeps the list in order of id, and of value under one id.
pub add-IsSorted : (new : Listener) (ls : List Listener) → IsSorted ls → IsSorted (add new ls).0
unfolding add
add-IsSorted new ls s = elim (Option-cases (resurrect new ls)) [
  | inl fresh ↦
      let split = skip_ids-Splits new ls s in
      rw (fresh, add)
        (place-IsSorted new (skip_ids new ls) (subst IsSorted (sym split.whole) s) split.above
          split.below)
  | inr (ls', old) ↦ rw (old, add) (resurrect-IsSorted new ls ls' old s)
]

-- A registration that captures what `new` does.
abbrev pub Registered : Listener → List Listener → Type 0
Registered new [] = ⊥
Registered new (l ∷ ls) = (same_registration new l ≡ true) ⊎ Registered new ls

-- A registration like `new` that is not marked for deletion.
abbrev pub Live : Listener → List Listener → Type 0
Live new [] = ⊥
Live new (l ∷ ls) = ((same_registration new l ≡ true) × (l.deleting ≡ false)) ⊎ Live new ls

same_registration_self : (l : Listener) → same_registration l l ≡ true
unfolding same_registration same_callback
same_registration_self l = ground arith

same_registration_deleting :
    (new l : Listener)
    → same_registration new (record l { deleting = false }) ≡ same_registration new l
unfolding same_registration same_callback
same_registration_deleting new l = refl

resurrect_found :
    (new : Listener) (ls : List Listener) → Registered new ls → resurrect new ls ≢ none
unfolding resurrect
resurrect_found new [] h = absurd h
resurrect_found new (l ∷ ls) (inl h) = ground arith
resurrect_found new (l ∷ ls) (inr h) = ground (arith, resurrect_found new ls h)

resurrect_lem :
    (new : Listener) (ls ls' : List Listener)
    → resurrect new ls ≡ some ls'
    → Registered new ls × Live new ls' × (length ls' ≡ length ls)
unfolding resurrect
resurrect_lem new [] ls' e = cc
resurrect_lem new (l ∷ ls) ls' e = elim (Bool-cases (same_registration new l)) [
  | inl same ↦ (
    inl same,
    subst (Live new) {x = record l { deleting = false } ∷ ls} (ground arith)
        (inl (same_registration_deleting new l ∙ same, refl)),
    ground arith,
  )
  | inr other ↦ elim (Option-cases (resurrect new ls)) [
    | inl missing ↦ ground arith
    | inr (found, eq) ↦
        let (a, b, c) = resurrect_lem new ls found eq in
        (inr a, subst (Live new) {x = l ∷ found} (ground arith) (inr b), ground arith)
  ]
]

insert-Live :
    (new : Listener) (b c : List Listener) → new.deleting ≡ false → Live new (b ++ new ∷ c)
insert-Live new [] c h = inl (same_registration_self new, h)
insert-Live new (x ∷ b) c h = inr (insert-Live new b c h)

place-Live :
    (new : Listener) (p : List Listener × List Listener)
    → new.deleting ≡ false
    → Live new (place new p) × (length (place new p) ≡ suc (length (p.0 ++ p.1)))
unfolding place
place-Live new ([], []) h = (inl (same_registration_self new, h), refl)
place-Live new ([], p ∷ after) h =
    elim (Bool-cases (ltb new.id p.id || (p.id == new.id && ltb new.value p.value))) [
      | inl front ↦ rw front (inl (same_registration_self new, h), refl)
      | inr behind ↦ rw behind (inr (inl (same_registration_self new, h)), refl)
    ]
place-Live new (p ∷ before, after) h = (
  insert-Live new (p ∷ before) after h,
  omega (arith, length-append (p ∷ before) (new ∷ after), length-append (p ∷ before) after),
)

-- `add` of a listener is idempotent: it is refused, and the list gets no longer, exactly when a
-- listener like it is there already; else the list has one more. Either way a listener like it
-- is afterwards in the list and not marked for deletion.
add_lem :
    (new : Listener) (ls : List Listener)
    → IsSorted ls
    → new.deleting ≡ false
    → Live new (add new ls).0
      × ((Registered new ls
            × ((add new ls).1 ≡ not_supported)
            × (length (add new ls).0 ≡ length ls))
          ⊎ ((¬ Registered new ls)
              × ((add new ls).1 ≡ ok)
              × (length (add new ls).0 ≡ suc (length ls))))
unfolding add
add_lem new ls s h = elim (Option-cases (resurrect new ls)) [
  | inl fresh ↦
      let split = skip_ids-Splits new ls s in
      let (live, len) = place-Live new (skip_ids new ls) h in
      rw (fresh, add)
        (
          live,
          inr (
            λ r. resurrect_found new ls r fresh,
            refl,
            len ∙ ap (λ x. suc (length x)) split.whole,
          ),
        )
  | inr (ls', old) ↦
      let (there, live, len) = resurrect_lem new ls ls' old in
      rw (old, add) (live, inl (there, refl, len))
]
