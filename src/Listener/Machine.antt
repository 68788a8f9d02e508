-- ===== src/Listener/Machine.antt =====
-- One listener with the fiber that runs its callback, as a state machine over the arrivals, the
-- callback's returns, and the scheduler's return from the yield between two callbacks.
use microbit_dal.Prelude.{
  length-append, ◌≤◌, ◌<◌, ◌≡◌, refl, sym, ap, ◌∙◌, ◌≢◌, ◌↔◌, true, false, List, [], ◌∷◌, ◌++◌,
  append-nil, append_assoc, arith, length,
}
use microbit_dal.Listener.{
  Event, Listener, max_queue_depth, enqueue, queue, Entry, dropped, queued, fires, enter, After,
  again, done, finish, activate,
}

-- `yielded`: in `schedule()`, with the next event in `listener->evt`.
pub data Fiber : Type 0 where
  idle running yielded : Fiber

pub record State : Type 0 where
  pub listener : Listener
  pub fiber : Fiber

pub data Step : Type 0 where
  arrive : Event → Step
  return resume : Step

abbrev entered : Fiber → Entry → Fiber
entered f (fires e) = running
entered f dropped = f
entered f queued = f

abbrev fired : Entry → List Event
fired (fires e) = e ∷ []
fired dropped = []
fired queued = []

abbrev left : After → Fiber
left again = yielded
left done = idle

abbrev pub returns : Fiber → State → State × List Event
returns running s = let (l, a) = finish s.listener in (record { listener = l; fiber = left a }, [])
returns idle s = (s, [])
returns yielded s = (s, [])

-- After `schedule()` the loop fires the callback with what `listener->evt` now holds.
abbrev pub resumes : Fiber → State → State × List Event
resumes yielded s = (record s { fiber = running }, s.listener.evt ∷ [])
resumes idle s = (s, [])
resumes running s = (s, [])

-- A step, with the events that the callback is fired with. A return is a step of a running
-- callback and a resumption one of a yielded fiber; in other states they are no steps.
unfoldable pub step : Step → State → State × List Event
unfolding activate finish
step (arrive e) s =
    let (l, r) = activate e s.listener in
    (record { listener = l; fiber = entered s.fiber r }, fired r)
step return s = returns s.fiber s
step resume s = resumes s.fiber s

-- The listener is busy exactly while a callback is under way, and its queue is bounded.
pub record IsValid (s : State) : Type 0 where
  pub queues : s.listener.queue_if_busy ≡ true
  pub keeps : s.listener.drop_if_busy ≡ false
  pub busy_iff : (s.fiber ≡ idle) ↔ (s.listener.busy ≡ false)
  pub idle_empty : s.fiber ≡ idle → s.listener.evt_queue ≡ []
  pub bounded : length s.listener.evt_queue ≤ max_queue_depth

unfoldable pub run : List Step → State → State × List Event
run [] s = (s, [])
run (x ∷ xs) s = let (s', es) = step x s in let (s'', fs) = run xs s' in (s'', es ++ fs)

enqueue-le :
    (e : Event) (q : List Event)
    → length q ≤ max_queue_depth
    → length (enqueue e q) ≤ max_queue_depth
unfolding enqueue
enqueue-le e [] h = omega arith
enqueue-le e (x ∷ q) h = ground (arith, length-append (x ∷ q) (e ∷ []))

arrive-IsValid :
    (e : Event) (s : State) (f : Fiber) → s.fiber ≡ f → IsValid s → IsValid (step (arrive e) s).0
unfolding step enter queue
arrive-IsValid e s idle h v = ground (arith, v.busy_iff.0 h, v.idle_empty h)
arrive-IsValid e s running h v =
    ground (arith, v.busy_iff.1, enqueue-le e s.listener.evt_queue v.bounded)
arrive-IsValid e s yielded h v =
    ground (arith, v.busy_iff.1, enqueue-le e s.listener.evt_queue v.bounded)

-- A listener that queues when it is busy stays well formed under every step.
step-IsValid : (x : Step) (s : State) → IsValid s → IsValid (step x s).0
unfolding step
step-IsValid (arrive e) s v = arrive-IsValid e s s.fiber refl v
step-IsValid return s v = ground (arith, v.busy_iff)
step-IsValid resume s v = ground (arith, v.busy_iff)

-- The events that the listener owes its callback, oldest first.
abbrev pub owed : Fiber → Listener → List Event
owed yielded l = l.evt ∷ l.evt_queue
owed idle l = l.evt_queue
owed running l = l.evt_queue

abbrev pub pending : State → List Event
pending s = owed s.fiber s.listener

abbrev pub arrived : Step → List Event
arrived (arrive e) = e ∷ []
arrived return = []
arrived resume = []

abbrev pub arrivals : List Step → List Event
arrivals [] = []
arrivals (x ∷ xs) = arrived x ++ arrivals xs

-- An arrival finds room in the queue, and no fiber that has yielded between two callbacks.
abbrev pub CalmStep : Step → State → Type 0
CalmStep (arrive e) s = (s.fiber ≢ yielded) × (length s.listener.evt_queue < max_queue_depth)
CalmStep return s = Unit {0}
CalmStep resume s = Unit {0}

abbrev pub Calm : List Step → State → Type 0
Calm [] s = Unit {0}
Calm (x ∷ xs) s = CalmStep x s × Calm xs (step x s).0

enqueue-append :
    (e : Event) (q : List Event) → length q < max_queue_depth → enqueue e q ≡ q ++ e ∷ []
unfolding enqueue
enqueue-append e [] h = refl
enqueue-append e (x ∷ q) h = ground arith

arrive-pending :
    (e : Event) (s : State) (f : Fiber)
    → s.fiber ≡ f
    → IsValid s
    → CalmStep (arrive e) s
    → (step (arrive e) s).1 ++ pending (step (arrive e) s).0 ≡ pending s ++ e ∷ []
unfolding step enter queue
arrive-pending e s idle h v c = ground (arith, v.busy_iff.0 h, v.idle_empty h)
arrive-pending e s running h v c =
    ground (arith, v.busy_iff.1, enqueue-append e s.listener.evt_queue c.1)
arrive-pending e s yielded h v c = absurd (c.0 h)

step-pending :
    (x : Step) (s : State)
    → IsValid s
    → CalmStep x s
    → (step x s).1 ++ pending (step x s).0 ≡ pending s ++ arrived x
unfolding step
step-pending (arrive e) s v c = arrive-pending e s s.fiber refl v c
step-pending return s v c = ground (arith, v.idle_empty, append-nil (pending s))
step-pending resume s v c = ground (arith, append-nil (pending s))

-- While arrivals find room and never meet a yielded fiber, the callback is fired with every
-- event that arrives, once and in the order of arrival: what it is fired with, and then what the
-- listener still owes, is what it owed at first, and then what arrived.
pub run_in_order :
    (xs : List Step) (s : State)
    → IsValid s
    → Calm xs s
    → (run xs s).1 ++ pending (run xs s).0 ≡ pending s ++ arrivals xs
unfolding run
run_in_order [] s v c = sym (append-nil (pending s))
run_in_order (x ∷ xs) s v c =
    let s' = (step x s).0 in
    append_assoc (step x s).1 (run xs s').1 (pending (run xs s').0)
    ∙ ap (λ es. (step x s).1 ++ es) (run_in_order xs s' (step-IsValid x s v) c.1)
    ∙ sym (append_assoc (step x s).1 (pending s') (arrivals xs))
    ∙ ap (λ es. es ++ arrivals xs) (step-pending x s v c.0)
    ∙ append_assoc (pending s) (arrived x) (arrivals xs)

-- An event that arrives while the fiber has yielded overwrites `listener->evt`: the callback is
-- fired with the new event in place of the one that was owed, and the new one is queued as well.
pub arrival_overwrites :
    (e : Event) (s : State)
    → IsValid s
    → s.fiber ≡ yielded
    → length s.listener.evt_queue < max_queue_depth
    → ((run (arrive e ∷ resume ∷ []) s).1 ≡ e ∷ [])
      × (pending (run (arrive e ∷ resume ∷ []) s).0 ≡ s.listener.evt_queue ++ e ∷ [])
unfolding run step enter queue
arrival_overwrites e s v h room =
    ground (arith, v.busy_iff.1, enqueue-append e s.listener.evt_queue room)
