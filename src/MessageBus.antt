-- ===== src/MessageBus.antt =====
-- source/drivers/MicroBitMessageBus.cpp: the ordered list of listeners, and the event queue.
pub mod Order
pub mod Dispatch
pub mod Queue
mod Tests
use microbit_dal.Prelude.{
  xor, ℕ, zero, suc, ◌+◌, ◌-◌, ◌*◌, ◌/◌, ◌%◌, ◌^◌, ◌≤◌, ◌<◌, ◌≡◌, refl, sym, ap, subst, ◌∙◌, ◌≢◌,
  ◌↔◌, ◌⊎◌, inl, inr, Bool, true, false, not, ◌&&◌, ◌||◌, Option, none, some, List, [], ◌∷◌, ◌++◌,
  map, append-nil, append_assoc, arith, ltb, leb, ◌==◌, if◌then◌else◌, ltb→lt, lt→ltb, leb→le,
  ==_iff, Bool-cases, Option-cases, length,
}
use microbit_dal.Listener.{Event, Listener, max_queue_depth}

abbrev pub id_any : ℕ
id_any = 0

abbrev pub evt_any : ℕ
evt_any = 0

-- `==` on flags
abbrev pub eq_bool : Bool → Bool → Bool
eq_bool true b = b
eq_bool false b = not b

-- The results of `add` and `remove`.
pub data Status : Type 0 where
  ok not_supported invalid_parameter : Status

-- `methodCallback ? *l->cb_method == *newListener->cb_method : l->cb == newListener->cb`
abbrev pub id_message_bus_listener : ℕ
id_message_bus_listener = 1021

pub same_callback : Listener → Listener → Bool
same_callback new l = if new.method && l.method then l.target == new.target else l.cb == new.cb

pub same_registration : Listener → Listener → Bool
same_registration new l = (l.id == new.id && l.value == new.value) && same_callback new l

-- The first loop of `add`: a registration that matches is resurrected.
pub resurrect : Listener → List Listener → Option (List Listener)
resurrect new [] = none
resurrect new (l ∷ ls) =
    let rest = resurrect new ls in
    if same_registration new l
    then some (record l { deleting = false } ∷ ls)
    else elim rest [ none ↦ none | some ls' ↦ some (l ∷ ls') ]

-- `while (l != NULL && l->id == new->id && l->value < new->value)`
pub skip_values : Listener → List Listener → List Listener × List Listener
skip_values new [] = ([], [])
skip_values new (l ∷ ls) =
    let (before, after) = skip_values new ls in
    if l.id == new.id && ltb l.value new.value then (l ∷ before, after) else ([], l ∷ ls)

-- `while (l != NULL && l->id < new->id)`, and then the loop above from where it stops.
pub skip_ids : Listener → List Listener → List Listener × List Listener
skip_ids new [] = ([], [])
skip_ids new (l ∷ ls) =
    let (before, after) = skip_ids new ls in
    let values = skip_values new (l ∷ ls) in if ltb l.id new.id then (l ∷ before, after) else values

-- Add at the front of the list, or after `p`, the last listener passed over or else the first.
pub place : Listener → List Listener × List Listener → List Listener
place new ([], []) = new ∷ []
place new ([], p ∷ after) =
    if ltb new.id p.id || (p.id == new.id && ltb new.value p.value)
    then new ∷ p ∷ after
    else p ∷ new ∷ after
place new (p ∷ before, after) = (p ∷ before) ++ new ∷ after

-- `add` with a listener that is not NULL. The last result is the events that it makes, by source and
-- value: it is MICROBIT_ID_MESSAGE_BUS_LISTENER with the id of the new listener.
pub add : Listener → List Listener → List Listener × Status × List (ℕ × ℕ)
add new ls = elim (resurrect new ls) [
  | some ls' ↦ (ls', not_supported, [])
  | none ↦ (place new (skip_ids new ls), ok, (id_message_bus_listener, new.id) ∷ [])
]

-- The condition under which `remove` marks `l`.
pub marks : Listener → Listener → Bool
marks listener l =
    (eq_bool listener.method l.method
      && ((listener.method && l.target == listener.target)
          || (not listener.method && l.cb == listener.cb)))
    && ((listener.id == id_any || listener.id == l.id)
        && (listener.value == evt_any || listener.value == l.value))

-- The marked list, and how many were marked.
pub mark_all : Listener → List Listener → List Listener × ℕ
mark_all listener [] = ([], 0)
mark_all listener (l ∷ ls) =
    let (ls', n) = mark_all listener ls in
    if marks listener l then (record l { deleting = true } ∷ ls', suc n) else (l ∷ ls', n)

-- `remove` with a listener that is not NULL.
pub remove : Listener → List Listener → List Listener × Status
remove listener ls =
    let (ls', removed) = mark_all listener ls in
    (ls', if ltb 0 removed then ok else invalid_parameter)

-- The listeners left, and how many were deleted.
pub delete_marked : List Listener → List Listener × ℕ
delete_marked [] = ([], 0)
delete_marked (l ∷ ls) =
    let (ls', removed) = delete_marked ls in
    if l.deleting && not l.busy then (ls', suc removed) else (l ∷ ls', removed)

-- `elementAt`; a negative index is taken as 0, since the loop does not run.
abbrev pub element_at : ℕ → List Listener → Option Listener
element_at zero [] = none
element_at zero (l ∷ ls) = some l
element_at (suc n) [] = none
element_at (suc n) (l ∷ ls) = element_at n ls

-- The listener wants the event.
pub wants : Event → Listener → Bool
wants e l = (l.id == e.source || l.id == id_any) && (l.value == e.value || l.value == evt_any)

-- MESSAGE_BUS_LISTENER_IMMEDIATE is the two bits NONBLOCKING and URGENT. With no scheduler every
-- listener is urgent.
pub listener_urgent : Bool → Listener → Bool
listener_urgent running l = if running then l.nonblocking && l.urgent else true

-- One pass of `process`: whether it left nothing to do, and the listeners that it activates, in
-- the order of the list. `running` is `fiber_scheduler_running()`.
pub process : Bool → Event → Bool → List Listener → Bool × List Listener
process running e urgent [] = (true, [])
process running e urgent (l ∷ ls) =
    let (complete, activated) = process running e urgent ls in
    if wants e l
    then (if eq_bool (listener_urgent running l) urgent && not l.deleting
        then (complete, l ∷ activated)
        else (false, activated))
    else (complete, activated)

-- The bus: `evt_queue_head` to `evt_queue_tail` as a list, and `queueLength`.
pub record MessageBus : Type 0 where
  pub listeners : List Listener
  pub evt_queue : List Event
  pub queue_length : ℕ

-- `item->next = prev->next; prev->next = item` for the `k`-th item `prev`, counted from 1; at the
-- head for `prev == NULL`.
abbrev pub insert_after : ℕ → Event → List Event → List Event
insert_after zero e q = e ∷ q
insert_after (suc k) e [] = e ∷ []
insert_after (suc k) e (x ∷ q) = x ∷ insert_after k e q

-- What `queueEvent` does when the urgent listeners have run: `k` events were queued before.
pub enqueue_event : ℕ → Event → MessageBus → MessageBus
enqueue_event k e bus = if leb max_queue_depth bus.queue_length then bus else record bus {
  evt_queue = insert_after k e bus.evt_queue;
  queue_length = bus.queue_length + 1;
}

pub dequeue_event : MessageBus → MessageBus × Option Event
dequeue_event bus = elim bus.evt_queue [
  | [] ↦ (bus, none)
  | e ∷ q ↦ (record bus { evt_queue = q; queue_length = bus.queue_length - 1 }, some e)
]

abbrev pub send_all :
    (Event → MessageBus → Option MessageBus) → List Event → MessageBus → Option MessageBus
send_all send [] bus = some bus
send_all send (e ∷ es) bus = elim (send e bus) [ none ↦ none | some bus' ↦ send_all send es bus' ]

-- The callbacks are the program's: `sends l e` are the events that the urgent listener `l` sends
-- while it handles `e`.
module _ (running : Bool) (sends : Listener → Event → List Event) where
  abbrev pub all_sent : Event → List Listener → List Event
  all_sent e [] = []
  all_sent e (l ∷ ls) = sends l e ++ all_sent e ls

  -- `send`, which is `queueEvent`. The fuel bounds how deep urgent callbacks send events to one
  -- another; `none`: it has run out.
  pub queue_event : ℕ → Event → MessageBus → Option MessageBus
  queue_event zero e bus = none
  queue_event (suc depth) e bus =
      let (complete, activated) = process running e true bus.listeners in
      elim (send_all (λ e' b. queue_event depth e' b) (all_sent e activated) bus) [
        | none ↦ none
        | some bus' ↦ some (if complete then bus' else enqueue_event (length bus.evt_queue) e bus')
      ]

-- The loop of `idleTick`. `handle` processes one event, and says whether a fiber can run then.
-- `none`: more events were queued while others were processed than the fuel allows for.
pub idle_events : (Event → MessageBus → MessageBus × Bool) → ℕ → MessageBus → Option MessageBus
unfolding dequeue_event
idle_events handle zero bus = none
idle_events handle (suc fuel) bus =
    let (bus', next) = dequeue_event bus in
    elim next [
      | none ↦ some bus'
      | some e ↦
          let handled = handle e bus' in
          let rest = idle_events handle fuel handled.0 in if handled.1 then some handled.0 else rest
    ]

pub idle_tick : (Event → MessageBus → MessageBus × Bool) → ℕ → MessageBus → Option MessageBus
unfolding idle_events delete_marked
idle_tick handle fuel bus =
    idle_events handle fuel (record bus { listeners = (delete_marked bus.listeners).0 })
