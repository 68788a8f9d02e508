-- ===== src/MessageBus/Dispatch.antt =====
-- Which listeners an event reaches, and the removal of listeners.
use mathlib.Core.List.{Perm, perm_middle}
use mathlib.Core.List.Perm
use microbit_dal.Prelude.{
  ◌+◌, ◌<◌, ◌≡◌, refl, ap, ◌↔◌, inl, inr, Bool, true, false, not, ◌&&◌, ◌||◌, List, [], ◌∷◌, ◌++◌,
  arith, if◌then◌else◌, Bool-cases, length,
}
use microbit_dal.Listener.{Event, Listener}
use microbit_dal.MessageBus.{ok, wants, process, marks, mark_all, remove, delete_marked}

-- The listeners that the event is meant for.
abbrev pub addressed : Event → List Listener → List Listener
addressed e [] = []
addressed e (l ∷ ls) = if wants e l && not l.deleting then l ∷ addressed e ls else addressed e ls

-- The urgent pass and the normal pass of `process` together activate every listener that wants the
-- event and is not marked for deletion, exactly once.
pub process_twice_perm :
    (running : Bool) (e : Event) (ls : List Listener)
    → Perm (addressed e ls) ((process running e true ls).1 ++ (process running e false ls).1)
unfolding process
process_twice_perm running e [] = Perm.nil
process_twice_perm running e (l ∷ ls) =
    let ih = process_twice_perm running e ls in
    let rest = Perm.cons l ih in
    let middle =
      Perm.trans rest
        (Perm.symm (perm_middle (process running e true ls).1 (process running e false ls).1)) in
    ground (arith, ih, rest, middle)

-- An urgent pass that reports completion has activated all of them, so that no event is queued for
-- a listener that it has already reached, and none is lost.
process_complete :
    (running : Bool) (e : Event) (ls : List Listener)
    → (process running e true ls).0 ≡ true
    → ((process running e true ls).1 ≡ addressed e ls) × ((process running e false ls).1 ≡ [])
unfolding process
process_complete running e [] h = (refl, refl)
process_complete running e (l ∷ ls) h = ground (arith, process_complete running e ls)

-- What `remove` leaves: the same listeners, those that match now marked.
abbrev pub marked : Listener → List Listener → List Listener
marked listener [] = []
marked listener (l ∷ ls) =
    (if marks listener l then record l { deleting = true } else l) ∷ marked listener ls

abbrev pub some_match : Listener → List Listener → Bool
some_match listener [] = false
some_match listener (l ∷ ls) = marks listener l || some_match listener ls

mark_all_lem :
    (listener : Listener) (ls : List Listener)
    → ((mark_all listener ls).0 ≡ marked listener ls)
      × ((some_match listener ls ≡ true) ↔ (0 < (mark_all listener ls).1))
unfolding mark_all
mark_all_lem listener [] = (refl, (λ h. cc, λ h. absurd (omega arith)))
mark_all_lem listener (l ∷ ls) =
    let (same, iff) = mark_all_lem listener ls in
    elim (Bool-cases (marks listener l)) [
      | inl hit ↦
          rw hit (ap (◌∷◌ (record l { deleting = true })) same, (λ h. omega arith, λ h. refl))
      | inr miss ↦ rw miss (ap (◌∷◌ l) same, iff)
    ]

-- `remove` marks every listener that matches and no other, deletes none, and succeeds exactly if
-- one matches.
remove_lem :
    (listener : Listener) (ls : List Listener)
    → ((remove listener ls).0 ≡ marked listener ls)
      × (((remove listener ls).1 ≡ ok) ↔ (some_match listener ls ≡ true))
unfolding remove
remove_lem listener ls =
    let (same, iff) = mark_all_lem listener ls in
    (same, (λ h. iff.1 (ground arith), λ h. ground (arith, iff.0 h)))

abbrev pub doomed : Listener → Bool
doomed l = l.deleting && not l.busy

-- The listeners that are not both marked and idle, in their order.
abbrev pub survivors : List Listener → List Listener
survivors [] = []
survivors (l ∷ ls) = if doomed l then survivors ls else l ∷ survivors ls

-- `deleteMarkedListeners` deletes the marked listeners that are not busy and keeps all others in
-- their order; the result counts what was deleted.
delete_marked_lem :
    (ls : List Listener)
    → ((delete_marked ls).0 ≡ survivors ls)
      × ((delete_marked ls).1 + length (survivors ls) ≡ length ls)
unfolding delete_marked
delete_marked_lem [] = (refl, refl)
delete_marked_lem (l ∷ ls) = ground (arith, delete_marked_lem ls)
