-- ===== src/RefCounted/Tests.antt =====
-- Runs of handles on counted objects, and the theorem at a concrete run.
use microbit_dal.Prelude.{ℕ, refl, none, some, List, [], ◌∷◌, arith}
use microbit_dal.RefCounted.{State, construct, copy, assign, destroy}
use microbit_dal.RefCounted.Runs.{Step, run, run-Refines}
use microbit_dal.RefCounted.Values.{Succeeds}

abbrev no_objects : State ℕ
no_objects = record { memory = λ p. none; handles = [] }

-- Two objects and four handles: the second object is freed with its only handle.
abbrev steps : List (Step ℕ)
steps =
    Step.construct_step 5 70
    ∷ Step.copy_step 0
    ∷ Step.construct_step 6 80
    ∷ Step.assign_step 0 1
    ∷ Step.destroy_step 2
    ∷ []

run-Refines_example : Succeeds (run steps no_objects) (some 70 ∷ some 70 ∷ [])
unfolding construct copy assign destroy
run-Refines_example =
    run-Refines steps no_objects [] (70 ∷ 70 ∷ []) (λ p. refl) refl
      (refl, (tt, (refl, (tt, (tt, tt))))) (omega arith) refl
