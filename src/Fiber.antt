-- ===== src/Fiber.antt =====
-- source/core/MicroBitFiber.cpp: the queues of the fiber scheduler. Fibers are numbers; registers and
-- stacks are not modelled.
pub mod Queues
pub mod Scheduling
mod Tests
use microbit_dal.Prelude.{
  ℕ, zero, suc, ◌+◌, ◌-◌, ◌*◌, ◌/◌, ◌%◌, ◌^◌, ◌≤◌, ◌<◌, ◌≡◌, refl, sym, ap, subst, ◌∙◌, ◌≢◌, ◌↔◌,
  ◌⊎◌, inl, inr, Bool, true, false, not, ◌&&◌, ◌||◌, Option, none, some, List, [], ◌∷◌, ◌++◌, map,
  append-nil, append_assoc, arith, ltb, leb, ◌==◌, if◌then◌else◌, ltb→lt, lt→ltb, leb→le, ==_iff,
  Bool-cases, Option-cases, length,
}
use microbit_dal.Listener.{Event}

-- The four queues that a fiber may be on.
pub data Queue : Type 0 where
  run_queue sleep_queue wait_queue fiber_pool : Queue

abbrev pub index : Queue → ℕ
index run_queue = 0
index sleep_queue = 1
index wait_queue = 2
index fiber_pool = 3

-- MICROBIT_FIBER_FLAG_*
pub record Flags : Type 0 where
  pub fob : Bool
  pub parent : Bool
  pub child : Bool
  pub do_not_page : Bool

-- The scheduler's variables, and the fields `queue`, `context` and `flags` of each fiber. A queue is
-- the list that `next` and `prev` link.
pub record Scheduler : Type 0 where
  pub queues : Queue → List ℕ
  pub queue_of : ℕ → Option Queue
  pub context : ℕ → ℕ
  pub flags : ℕ → Flags
  pub current : ℕ
  pub forked : Option ℕ
  pub idle_fiber : ℕ
  pub running : Bool
  pub has_bus : Bool

abbrev pub update : {A : Type 0} → ℕ → A → (ℕ → A) → ℕ → A
update f v g x = if x == f then v else g x

abbrev pub remove_first : ℕ → List ℕ → List ℕ
remove_first f [] = []
remove_first f (x ∷ xs) = if x == f then xs else x ∷ remove_first f xs

pub queue_fiber : ℕ → Queue → Scheduler → Scheduler
queue_fiber f q s = record s {
  queue_of = update f (some q) s.queue_of;
  queues = λ p. if index p == index q then s.queues p ++ f ∷ [] else s.queues p;
}

-- The unlinking in `dequeue_fiber`, of a fiber that is on queue `q`.
pub unlink : ℕ → Queue → Scheduler → Scheduler
unlink f q s = record s {
  queue_of = update f none s.queue_of;
  queues = λ p. if index p == index q then remove_first f (s.queues p) else s.queues p;
}

pub dequeue_fiber : ℕ → Scheduler → Scheduler
unfolding unlink
dequeue_fiber f s = elim (s.queue_of f) [ none ↦ s | some q ↦ unlink f q s ]

abbrev pub no_flags : Flags
no_flags = record { fob = false; parent = false; child = false; do_not_page = false }

-- The branches of `getFiberContext`, by the pool. `fresh` is what `new Fiber()` gives; `none`: NULL.
pub context_from : List ℕ → Option ℕ → Scheduler → Scheduler × Option ℕ
unfolding dequeue_fiber
context_from (f ∷ fs) fresh s =
    let s' = dequeue_fiber f s in (record s' { flags = update f no_flags s'.flags }, some f)
context_from [] none s = (s, none)
context_from [] (some f) s = (record s { flags = update f no_flags s.flags }, some f)

pub get_fiber_context : Option ℕ → Scheduler → Scheduler × Option ℕ
unfolding context_from
get_fiber_context fresh s = context_from (s.queues fiber_pool) fresh s

-- Takes a fiber off its queue and puts it behind another.
pub move_fiber : Queue → ℕ → Scheduler → Scheduler
unfolding queue_fiber dequeue_fiber
move_fiber q f s = queue_fiber f q (dequeue_fiber f s)

-- The loop of `scheduler_tick`; `now f` is the time that is read when fiber `f` is looked at.
pub wake_sleepers : (ℕ → ℕ) → List ℕ → Scheduler → Scheduler
unfolding move_fiber
wake_sleepers now [] s = s
wake_sleepers now (f ∷ fs) s =
    wake_sleepers now fs (if leb (s.context f) (now f) then move_fiber run_queue f s else s)

pub scheduler_tick : (ℕ → ℕ) → Scheduler → Scheduler
unfolding wake_sleepers
scheduler_tick now s = wake_sleepers now (s.queues sleep_queue) s

-- MICROBIT_ID_NOTIFY_ONE, MICROBIT_ID_NOTIFY
abbrev pub id_notify_one : ℕ
id_notify_one = 1022

abbrev pub id_notify : ℕ
id_notify = 1023

-- What a fiber is blocked on: the id in the low half of its context, the value in the high half.
abbrev pub context_id : ℕ → ℕ
context_id c = c % 2 ^ 16

abbrev pub context_value : ℕ → ℕ
context_value c = c / 2 ^ 16 % 2 ^ 16

abbrev pub value_matches : Event → ℕ → Bool
value_matches e c = context_value c == 0 || context_value c == e.value

-- The two tests of `scheduler_event`, on the context of a fiber.
abbrev pub notify_one : Event → ℕ → Bool
notify_one e c = e.source == id_notify_one && context_id c == id_notify && value_matches e c

abbrev pub awaits : Event → ℕ → Bool
awaits e c = (context_id c == 0 || context_id c == e.source) && value_matches e c

-- The loop of `scheduler_event`, with `notifyOneComplete`.
pub wake_waiters : Event → Bool → List ℕ → Scheduler → Scheduler
unfolding move_fiber
wake_waiters e complete [] s = s
wake_waiters e complete (f ∷ fs) s =
    let one = notify_one e (s.context f) in
    let wake = if one then not complete else awaits e (s.context f) in
    wake_waiters e (complete || one) fs (if wake then move_fiber run_queue f s else s)

-- `scheduler_event`: the scheduler, and whether its listener for the event is then ignored.
pub scheduler_event : Event → Scheduler → Scheduler × Bool
unfolding wake_waiters
scheduler_event e s =
    if s.has_bus
    then (
      wake_waiters e false (s.queues wait_queue) s,
      not (e.source == id_notify) && not (e.source == id_notify_one),
    )
    else (s, false)

-- What `schedule` comes to: the chosen fiber goes on, `forkedFiber` is NULL where it is written
-- through, or the idle loop has not ended within the rounds that were allowed.
pub data Switch : Type 0 where
  switched : Scheduler → Switch
  null_fiber idling : Switch

-- The fibers behind `f` on its queue.
abbrev pub after : ℕ → List ℕ → List ℕ
after f [] = []
after f (x ∷ xs) = if x == f then xs else after f xs

abbrev pub head_or : ℕ → List ℕ → ℕ
head_or d [] = d
head_or d (x ∷ xs) = x

abbrev pub on : Queue → Option Queue → Bool
on q none = false
on q (some p) = index q == index p

-- The round robin of `schedule`, over the run queue.
abbrev pub pick : List ℕ → Bool → ℕ → ℕ → ℕ
pick [] runnable current idle = idle
pick (h ∷ t) runnable current idle = if runnable then head_or h (after current (h ∷ t)) else h

pub next_fiber : Scheduler → ℕ
next_fiber s =
    pick (s.queues run_queue) (on run_queue (s.queue_of s.current)) s.current s.idle_fiber

-- The loop that idles on the stack of the current fiber; `idle` is what the components do.
pub idle_loop : (Scheduler → Scheduler) → ℕ → Scheduler → Switch
idle_loop idle zero s = idling
idle_loop idle (suc rounds) s =
    let s' = idle s in
    let rest = idle_loop idle rounds s' in
    elim (s'.queues run_queue) [ [] ↦ rest | f ∷ fs ↦ switched (record s' { current = f }) ]

-- `schedule` where the current fiber has forked: the parent goes back to `invoke`.
pub fork : Scheduler → Switch
fork s = elim s.forked [
  | none ↦ null_fiber
  | some f ↦
      let parent : ℕ → Flags =
        update s.current (record (s.flags s.current) { parent = true }) s.flags in
      switched (record s { flags = update f (record (parent f) { child = true }) parent })
]

pub schedule : (Scheduler → Scheduler) → ℕ → Scheduler → Switch
unfolding next_fiber idle_loop fork
schedule idle rounds s =
    if not s.running
    then switched s
    else if (s.flags s.current).fob
    then fork s
    else if next_fiber s == s.idle_fiber && (s.flags s.current).do_not_page
    then idle_loop idle rounds s
    else switched (record s { current = next_fiber s })

-- The fiber that a blocking call blocks: a fork of the current one in fork on block, if there is
-- memory for it, and the current one otherwise.
pub blocking_fiber : Option ℕ → Scheduler → Scheduler × ℕ
unfolding get_fiber_context
blocking_fiber fresh s =
    let forked = get_fiber_context fresh s in
    if not (s.flags s.current).fob
    then (s, s.current)
    else (record forked.0 { forked = forked.1 }, elim forked.1 [ none ↦ s.current | some g ↦ g ])

-- `fiber_sleep`, up to the call of `schedule`, for `t` milliseconds from `now` on.
pub fall_asleep : ℕ → ℕ → Option ℕ → Scheduler → Scheduler
unfolding blocking_fiber move_fiber
fall_asleep t now fresh s =
    let (s', f) = blocking_fiber fresh s in
    move_fiber sleep_queue f (record s' { context = update f ((now + t) % 2 ^ 32) s'.context })

pub fiber_sleep : (Scheduler → Scheduler) → ℕ → ℕ → ℕ → Option ℕ → Scheduler → Switch
unfolding fall_asleep schedule
fiber_sleep idle rounds t now fresh s =
    if not s.running then switched s else schedule idle rounds (fall_asleep t now fresh s)

-- `fiber_wake_on_event` behind the fork: the fiber, and whether it listens for the event.
pub await_event : ℕ → ℕ → ℕ → Scheduler → Scheduler × Bool
unfolding move_fiber
await_event id value f s = (
  move_fiber wait_queue f (record s { context = update f (value * 2 ^ 16 + id) s.context }),
  not (id == id_notify) && not (id == id_notify_one),
)

-- `create_fiber` with an entry and a completion routine that are not NULL.
pub create_fiber : Option ℕ → Scheduler → Scheduler × Option ℕ
unfolding get_fiber_context queue_fiber
create_fiber fresh s =
    if not s.running
    then (s, none)
    else let (s', f) = get_fiber_context fresh s in
      elim f [ none ↦ (s', none) | some g ↦ (queue_fiber g run_queue s', some g) ]

pub release_fiber : (Scheduler → Scheduler) → ℕ → Scheduler → Switch
unfolding move_fiber schedule
release_fiber idle rounds s =
    if not s.running then switched s else schedule idle rounds (move_fiber fiber_pool s.current s)

-- `fiber_wake_on_event` up to its call of `schedule`: in fork on block a fork, which goes on with
-- `await_event` when it runs, is put on the run queue. `none`: the current fiber goes on.
pub fork_waiter : Option ℕ → Scheduler → Scheduler × Option ℕ
unfolding get_fiber_context move_fiber
fork_waiter fresh s =
    let made = get_fiber_context fresh s in
    let s' = record made.0 { forked = made.1 } in
    if not (s.flags s.current).fob
    then (s, none)
    else elim made.1 [ none ↦ (s', none) | some f ↦ (move_fiber run_queue f s', some f) ]
