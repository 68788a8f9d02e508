-- ===== src/Listener.antt =====
-- source/core/MicroBitListener.cpp, and the life of a listener in `async_callback` of
-- source/drivers/MicroBitMessageBus.cpp.
pub mod Machine
mod Tests
use microbit_dal.Prelude.{
  ℕ, zero, suc, ◌+◌, ◌-◌, ◌*◌, ◌/◌, ◌%◌, ◌^◌, ◌≤◌, ◌<◌, ◌≡◌, refl, sym, ap, subst, ◌∙◌, ◌≢◌, ◌↔◌,
  ◌⊎◌, inl, inr, Bool, true, false, not, ◌&&◌, ◌||◌, Option, none, some, List, [], ◌∷◌, ◌++◌, map,
  append-nil, append_assoc, arith, ltb, leb, ◌==◌, if◌then◌else◌, ltb→lt, lt→ltb, leb→le, ==_iff,
  Bool-cases, Option-cases, length,
}

-- `MicroBitEvent`; the time stamp is carried along.
pub record Event : Type 0 where
  pub source : ℕ
  pub value : ℕ
  pub timestamp : ℕ

abbrev pub max_queue_depth : ℕ
max_queue_depth = 10

-- `MicroBitListener`, with the MESSAGE_BUS_LISTENER_* bits of `flags` by name. `cb` is the word of
-- the callback's union; `target` is the object and method that `*cb_method` compares.
pub record Listener : Type 0 where
  pub id : ℕ
  pub value : ℕ
  pub cb : ℕ
  pub target : ℕ
  pub parameterised : Bool
  pub method : Bool
  pub busy : Bool
  pub queue_if_busy : Bool
  pub drop_if_busy : Bool
  pub nonblocking : Bool
  pub urgent : Bool
  pub deleting : Bool
  pub evt : Event
  pub evt_queue : List Event

-- `MicroBitListener::queue`: a full queue drops the event.
unfoldable pub enqueue : Event → List Event → List Event
enqueue e [] = e ∷ []
enqueue e (x ∷ q) = if ltb (length (x ∷ q)) max_queue_depth then (x ∷ q) ++ e ∷ [] else x ∷ q

pub queue : Event → Listener → Listener
unfolding enqueue
queue e l = record l { evt_queue = enqueue e l.evt_queue }

-- What `async_callback` does when it is entered: return at once, or fire the callback.
pub data Entry : Type 0 where
  dropped queued : Entry
  fires : Event → Entry

-- `async_callback` from its start to its first callback or return.
pub enter : Listener → Listener × Entry
unfolding queue
enter l =
    if l.busy && l.drop_if_busy
    then (l, dropped)
    else if l.busy && l.queue_if_busy
    then (queue l.evt l, queued)
    else (record l { busy = true }, fires l.evt)

-- What follows a callback: another round after `schedule()`, or the return.
pub data After : Type 0 where
  again done : After

-- `async_callback` from the return of a callback to the next `schedule()` or its own return.
pub finish : Listener → Listener × After
finish l = elim l.evt_queue [
  | [] ↦ (record l { busy = false }, done)
  | e ∷ q ↦
      if l.queue_if_busy
      then (record l { evt = e; evt_queue = q }, again)
      else (record l { busy = false }, done)
]

-- The activation in `process`: the event is recorded, then `async_callback` is entered.
pub activate : Event → Listener → Listener × Entry
unfolding enter
activate e l = enter (record l { evt = e })
