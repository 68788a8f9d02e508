-- ===== src/MessageBus/Tests.antt =====
-- The bus at work, and the theorems about it at concrete inputs.
use mathlib.Core.List.{Perm}
use microbit_dal.Prelude.{
  ℕ, ◌≡◌, refl, ◌⊎◌, Bool, true, false, not, ◌&&◌, some, List, [], ◌∷◌, ◌++◌, arith, ◌==◌,
  if◌then◌else◌,
}
use microbit_dal.Listener.{Event, Listener}
use microbit_dal.MessageBus.{
  mark_all, marks, MessageBus, add, remove, delete_marked, element_at, process, queue_event,
  resurrect, place, skip_ids, skip_values, same_registration, same_callback, wants, listener_urgent,
  enqueue_event, not_supported,
}
use microbit_dal.MessageBus.Order.{IsSorted, add-IsSorted}
use microbit_dal.MessageBus.Dispatch.{process_twice_perm, addressed}
use microbit_dal.MessageBus.Queue.{IsValid, queue_event_in_order, AllBelow}

abbrev event : ℕ → ℕ → Event
event source value = record { source = source; value = value; timestamp = 0 }

abbrev listener : ℕ → ℕ → ℕ → Bool → Listener
listener id value cb immediate = record {
  id = id;
  value = value;
  cb = cb;
  target = 0;
  parameterised = false;
  method = false;
  busy = false;
  queue_if_busy = not immediate;
  drop_if_busy = false;
  nonblocking = immediate;
  urgent = immediate;
  deleting = false;
  evt = event 0 0;
  evt_queue = [];
}

abbrev registered : List Listener
registered = listener 1 0 100 true ∷ listener 1 3 101 false ∷ listener 7 0 102 false ∷ []

add_in_order :
    (add (listener 1 2 200 false) registered).0
    ≡ listener 1 0 100 true
      ∷ listener 1 2 200 false
      ∷ listener 1 3 101 false
      ∷ listener 7 0 102 false
      ∷ []
unfolding add resurrect place skip_ids skip_values same_registration same_callback
add_in_order = refl

add_again : (add (listener 1 3 101 false) registered).1 ≡ not_supported
unfolding add resurrect same_registration same_callback
add_again = refl

remove_and_delete :
    delete_marked (remove (listener 1 0 101 false) registered).0
    ≡ (listener 1 0 100 true ∷ listener 7 0 102 false ∷ [], 1)
unfolding delete_marked remove mark_all marks
remove_and_delete = refl

third : element_at 2 registered ≡ some (listener 7 0 102 false)
third = refl

registered-IsSorted : IsSorted registered
registered-IsSorted = omega arith

add-IsSorted_example : IsSorted (add (listener 1 2 200 false) registered).0
add-IsSorted_example = add-IsSorted (listener 1 2 200 false) registered registered-IsSorted

process_twice_perm_example :
    Perm (addressed (event 1 3) registered) (
      (process true (event 1 3) true registered).1 ++ (process true (event 1 3) false registered).1)
process_twice_perm_example = process_twice_perm true (event 1 3) registered

abbrev bus : MessageBus
bus = record { listeners = registered; evt_queue = event 5 1 ∷ []; queue_length = 1 }

bus-IsValid : IsValid bus
bus-IsValid = record { counted = refl; bounded = omega arith }

-- The urgent listener of id 1 answers its event 3 with an event of id 7.
abbrev answers : Listener → Event → List Event
answers l e = if (l.id == 1 && e.value == 3) && e.source == 1 then event 7 9 ∷ [] else []

-- The event stands in front of the answer to it.
sent_in_order :
    queue_event true answers 2 (event 1 3) bus
    ≡ some (record bus { evt_queue = event 5 1 ∷ event 1 3 ∷ event 7 9 ∷ []; queue_length = 3 })
unfolding queue_event process wants listener_urgent enqueue_event
sent_in_order = refl

abbrev sent : MessageBus
sent = record bus { evt_queue = event 5 1 ∷ event 1 3 ∷ event 7 9 ∷ []; queue_length = 3 }

queue_event_in_order_example :
    ((later : List Event) × (sent.evt_queue ≡ event 5 1 ∷ event 1 3 ∷ later))
    ⊎ (sent.queue_length ≡ 10)
unfolding process wants listener_urgent
queue_event_in_order_example =
    queue_event_in_order true answers 2 (event 1 3) bus sent bus-IsValid sent_in_order refl

abbrev rank : Event → ℕ
rank e = if e.source == 1 then 1 else 0

answers-AllBelow : (l : Listener) (e : Event) → AllBelow rank (rank e) (answers l e)
answers-AllBelow l e = ground arith
