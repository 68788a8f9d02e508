-- ===== src/RefCounted/Runs.antt =====
-- Runs of the operations on handles, against a list of values that has no heap.
use microbit_dal.Prelude.{
  length-map, length-set, set, get_elem?, ℕ, zero, suc, ◌+◌, ◌≤◌, ◌<◌, ◌≡◌, refl, sym, ap, subst,
  ◌∙◌, Option, none, some, List, [], ◌∷◌, map, arith, length,
}
use microbit_dal.RefCounted.{State, construct, copy, assign, destroy, ◌>>=◌, remove_at}
use microbit_dal.RefCounted.Counts.{value}
use microbit_dal.RefCounted.Values.{
  IsValid, values, Succeeds, construct-IsValid, copy-Succeeds, assign-Succeeds, destroy-Succeeds,
}

-- One operation; the address of a new object is the one that `malloc` returns.
pub data Step (A : Type 0) : Type 0 where
  construct_step : ℕ → A → Step A
  copy_step : ℕ → Step A
  assign_step : ℕ → ℕ → Step A
  destroy_step : ℕ → Step A

length-remove_at : {B : Type 0} (i : ℕ) (xs : List B) → length (remove_at i xs) ≤ length xs
length-remove_at i [] = omega arith
length-remove_at zero (x ∷ xs) = omega arith
length-remove_at (suc i) (x ∷ xs) = omega (arith, length-remove_at i xs)

pub bind_some :
    {B C : Type 0} (r : Option B) (f : B → Option C) (c : C)
    → (r >>= f) ≡ some c
    → (b : B) × (r ≡ some b) × (f b ≡ some c)
bind_some none f c e = cc
bind_some (some b) f c e = (b, refl, e)

module _ {A : Type 0} where
  abbrev pub step : Step A → State A → Option (State A)
  step (Step.construct_step p a) s = some (construct p a s)
  step (Step.copy_step i) s = copy i s
  step (Step.assign_step i j) s = assign i j s
  step (Step.destroy_step i) s = destroy i s

  abbrev pub run : List (Step A) → State A → Option (State A)
  run [] s = some s
  run (st ∷ ss) s = do s' ← step st s; run ss s'

  -- The operations on values
  abbrev pub value_step : Step A → List A → Option (List A)
  value_step (Step.construct_step p a) vs = some (a ∷ vs)
  value_step (Step.copy_step i) vs = do v ← get_elem? vs i; some (v ∷ vs)
  value_step (Step.assign_step i j) vs = do
    u ← get_elem? vs i
    v ← get_elem? vs j
    some (set vs i v)
  value_step (Step.destroy_step i) vs = do v ← get_elem? vs i; some (remove_at i vs)

  abbrev pub value_run : List (Step A) → List A → Option (List A)
  value_run [] vs = some vs
  value_run (st ∷ ss) vs = do vs' ← value_step st vs; value_run ss vs'

  -- What the code relies on of `malloc`: it returns an address that is not in use.
  abbrev pub IsFree : Step A → State A → Type 0
  IsFree (Step.construct_step p a) s = s.memory p ≡ none
  IsFree (Step.copy_step i) s = Unit
  IsFree (Step.assign_step i j) s = Unit
  IsFree (Step.destroy_step i) s = Unit

  abbrev pub After : Option (State A) → (State A → Type 0) → Type 0
  After none P = Unit
  After (some s) P = P s

  abbrev pub Allocates : List (Step A) → State A → Type 0
  Allocates [] s = Unit
  Allocates (st ∷ ss) s = IsFree st s × After (step st s) (λ s'. Allocates ss s')

  get_elem?-values :
      (f : ℕ → Option A) (hs : List ℕ) (vs : List A) (i : ℕ) (v : A)
      → map f hs ≡ map some vs
      → get_elem? vs i ≡ some v
      → (p : ℕ) × (get_elem? hs i ≡ some p) × (f p ≡ some v)
  get_elem?-values f [] [] i v e g = cc
  get_elem?-values f [] (u ∷ vs) i v e g = cc
  get_elem?-values f (h ∷ hs) [] i v e g = cc
  get_elem?-values f (h ∷ hs) (u ∷ vs) zero v e g = (h, refl, cc)
  get_elem?-values f (h ∷ hs) (u ∷ vs) (suc i) v e g =
      let tail : map f hs ≡ map some vs = cc in get_elem?-values f hs vs i v tail g

  map-set-some :
      (vs : List A) (i : ℕ) (v : A) → map some (set vs i v) ≡ set (map some vs) i (some v)
  map-set-some [] i v = refl
  map-set-some (u ∷ vs) zero v = refl
  map-set-some (u ∷ vs) (suc i) v = ap (λ k. some u ∷ k) (map-set-some vs i v)

  map-remove_at-some : (vs : List A) (i : ℕ) → map some (remove_at i vs) ≡ remove_at i (map some vs)
  map-remove_at-some [] i = refl
  map-remove_at-some (u ∷ vs) zero = refl
  map-remove_at-some (u ∷ vs) (suc i) = ap (λ k. some u ∷ k) (map-remove_at-some vs i)

  step-Succeeds :
      (st : Step A) (s : State A) (vs vs' : List A)
      → IsValid s
      → values s ≡ map some vs
      → IsFree st s
      → length s.handles < 32766
      → value_step st vs ≡ some vs'
      → Succeeds (step st s) (map some vs')
  step-Succeeds (Step.construct_step p a) s vs vs' v e free b g =
      let (valid, shown) = construct-IsValid p a s free v in
      let out : a ∷ vs ≡ vs' = cc in
      (construct p a s, refl, valid, shown ∙ ap (λ k. some a ∷ k) e ∙ ap (map some) out)
  step-Succeeds (Step.copy_step i) s vs vs' v e free b g =
      let (u, at, out) = bind_some (get_elem? vs i) (λ u. some (u ∷ vs)) vs' g in
      let (p, here, same) = get_elem?-values (λ q. value (s.memory q)) s.handles vs i u e at in
      let done : u ∷ vs ≡ vs' = cc in
      let (s', ok, valid, shown) = copy-Succeeds i p s v b here in
      (
        s',
        ok,
        valid,
        shown ∙ ap (λ k. k ∷ values s) same ∙ ap (λ k. some u ∷ k) e ∙ ap (map some) done,
      )
  step-Succeeds (Step.assign_step i j) s vs vs' v e free b g =
      let (u, at, rest) =
        bind_some (get_elem? vs i) (λ u. get_elem? vs j >>= λ w. some (set vs i w)) vs' g in
      let (w, at', out) = bind_some (get_elem? vs j) (λ w. some (set vs i w)) vs' rest in
      let (p, here, same) = get_elem?-values (λ q. value (s.memory q)) s.handles vs i u e at in
      let (q, here', same') = get_elem?-values (λ q. value (s.memory q)) s.handles vs j w e at' in
      let done : set vs i w ≡ vs' = cc in
      let (s', ok, valid, shown) = assign-Succeeds i j p q s v b here here' in
      (
        s',
        ok,
        valid,
        shown
            ∙ ap (λ k. set (values s) i k) same'
            ∙ ap (λ k. set k i (some w)) e
            ∙ sym (map-set-some vs i w)
            ∙ ap (map some) done,
      )
  step-Succeeds (Step.destroy_step i) s vs vs' v e free b g =
      let (u, at, out) = bind_some (get_elem? vs i) (λ u. some (remove_at i vs)) vs' g in
      let (p, here, same) = get_elem?-values (λ q. value (s.memory q)) s.handles vs i u e at in
      let done : remove_at i vs ≡ vs' = cc in
      let (s', ok, valid, shown) = destroy-Succeeds i p s v b here in
      (
        s',
        ok,
        valid,
        shown ∙ ap (remove_at i) e ∙ sym (map-remove_at-some vs i) ∙ ap (map some) done,
      )

  length-value_step :
      (st : Step A) (vs vs' : List A) → value_step st vs ≡ some vs' → length vs' ≤ suc (length vs)
  length-value_step (Step.construct_step p a) vs vs' g =
      let out : a ∷ vs ≡ vs' = cc in omega (arith, ap length out)
  length-value_step (Step.copy_step i) vs vs' g =
      let (u, at, out) = bind_some (get_elem? vs i) (λ u. some (u ∷ vs)) vs' g in
      let done : u ∷ vs ≡ vs' = cc in omega (arith, ap length done)
  length-value_step (Step.assign_step i j) vs vs' g =
      let (u, at, rest) =
        bind_some (get_elem? vs i) (λ u. get_elem? vs j >>= λ w. some (set vs i w)) vs' g in
      let (w, at', out) = bind_some (get_elem? vs j) (λ w. some (set vs i w)) vs' rest in
      let done : set vs i w ≡ vs' = cc in omega (arith, ap length done, length-set vs i w)
  length-value_step (Step.destroy_step i) vs vs' g =
      let (u, at, out) = bind_some (get_elem? vs i) (λ u. some (remove_at i vs)) vs' g in
      let done : remove_at i vs ≡ vs' = cc in omega (arith, ap length done, length-remove_at i vs)

  length-values :
      (s : State A) (vs : List A) → values s ≡ map some vs → length s.handles ≡ length vs
  length-values s vs e =
      sym (length-map s.handles (λ p. value (s.memory p))) ∙ ap length e ∙ length-map vs some

  -- Handles on counted objects implement values: a run of constructors, copies, assignments and
  -- destructors that is possible on a list of values, with addresses that are not in use for the new
  -- objects, and at most 32,766 values and steps together, succeeds, so that it meets no panic and no
  -- freed object; the handles then hold what the list of values does, and each count is that of its
  -- handles.
  pub run-Refines :
      (ss : List (Step A)) (s : State A) (vs vs' : List A)
      → IsValid s
      → values s ≡ map some vs
      → Allocates ss s
      → length vs + length ss ≤ 32766
      → value_run ss vs ≡ some vs'
      → Succeeds (run ss s) (map some vs')
  run-Refines [] s vs vs' v e free b g =
      let same : vs ≡ vs' = cc in (s, refl, v, e ∙ ap (map some) same)
  run-Refines (st ∷ ss) s vs vs' v e free b g =
      let (between, first, rest) = bind_some (value_step st vs) (value_run ss) vs' g in
      let few : length s.handles < 32766 = omega (arith, length-values s vs e) in
      let (t, ok, valid, shown) = step-Succeeds st s vs between v e free.0 few first in
      let later : Allocates ss t = subst (λ r. After r (λ s'. Allocates ss s')) ok free.1 in
      let (t', ok', valid', shown') =
        run-Refines ss t between vs' valid shown later
          (omega (arith, length-value_step st vs between first)) rest in
      (t', ap (λ r. r >>= run ss) ok ∙ ok', valid', shown')
