-- ===== src/Fiber/Scheduling.antt =====
-- What the scheduler does with the fibers of its queues.
use microbit_dal.Prelude.{
  ℕ, ◌+◌, ◌%◌, ◌^◌, ◌≡◌, refl, sym, ap, subst, ◌∙◌, ◌≢◌, inl, inr, Bool, true, false, not, ◌&&◌,
  ◌||◌, Option, none, some, List, [], ◌∷◌, ◌++◌, append-nil, append_assoc, arith, leb, ◌==◌,
  if◌then◌else◌, Bool-cases,
}
use microbit_dal.Listener.{Event}
use microbit_dal.Fiber.{
  Queue, run_queue, sleep_queue, wait_queue, fiber_pool, on, Scheduler, update, move_fiber,
  wake_sleepers, scheduler_tick, wake_waiters, scheduler_event, get_fiber_context, blocking_fiber,
  fall_asleep, notify_one, awaits, schedule, next_fiber, pick, fork, idle_loop, id_notify, Switch,
  switched, after, head_or, id_notify_one,
}
use microbit_dal.Fiber.Queues.{
  IsValid, count, count-append, keep_if, move_fiber-IsValid, move_fiber-context, move-leaves,
  move-joins, context_from-IsValid,
}

-- What waking leaves of queue `q`, and what it adds to the run queue, where `wakes` says which.
abbrev pub Wakes : Queue → (ℕ → Bool) → List ℕ → List ℕ → Scheduler → Scheduler → Type 0
Wakes q wakes kept fs s s' =
    (s'.queues q ≡ kept ++ keep_if (λ f. not (wakes f)) fs)
    × (s'.queues run_queue ≡ s.queues run_queue ++ keep_if wakes fs)

snoc_append : (xs ys : List ℕ) (x : ℕ) → (xs ++ x ∷ []) ++ ys ≡ xs ++ x ∷ ys
snoc_append xs ys x = append_assoc xs (x ∷ []) ys

module _ (q : Queue) (wakes : ℕ → Bool) (kept fs : List ℕ) (f : ℕ) where
  Wakes-woken :
      (s mid t : Scheduler)
      → wakes f ≡ true
      → mid.queues run_queue ≡ s.queues run_queue ++ f ∷ []
      → Wakes q wakes kept fs mid t
      → Wakes q wakes kept (f ∷ fs) s t
  Wakes-woken s mid t woken joins rest = rw woken (
    rest.0,
    rest.1
        ∙ ap (λ r. r ++ keep_if wakes fs) joins
        ∙ snoc_append (s.queues run_queue) (keep_if wakes fs) f,
  )

  Wakes-left :
      (s t : Scheduler)
      → wakes f ≡ false
      → Wakes q wakes (kept ++ f ∷ []) fs s t
      → Wakes q wakes kept (f ∷ fs) s t
  Wakes-left s t stays rest =
      rw stays (rest.0 ∙ snoc_append kept (keep_if (λ g. not (wakes g)) fs) f, rest.1)

wake_sleepers-Wakes :
    (now ctx : ℕ → ℕ) (kept fs : List ℕ) (s : Scheduler)
    → IsValid s
    → s.context ≡ ctx
    → s.queues sleep_queue ≡ kept ++ fs
    → Wakes sleep_queue (λ f. leb (ctx f) (now f)) kept fs s (wake_sleepers now fs s)
unfolding wake_sleepers
wake_sleepers-Wakes now ctx kept [] s v same at = (at, sym (append-nil (s.queues run_queue)))
wake_sleepers-Wakes now ctx kept (f ∷ fs) s v same at =
    let here : leb (s.context f) (now f) ≡ leb (ctx f) (now f) = ap (λ c. leb (c f) (now f)) same in
    let moved = move_fiber run_queue f s in
    let Goal : Bool → Type 0 = λ b.
      Wakes sleep_queue (λ g. leb (ctx g) (now g)) kept (f ∷ fs) s
        (wake_sleepers now fs (if b then moved else s)) in
    elim (Bool-cases (leb (ctx f) (now f))) [
      | inl due ↦ subst Goal (sym (here ∙ due)) (
          Wakes-woken sleep_queue _ kept fs f s moved (wake_sleepers now fs moved) due
            (move-joins s v sleep_queue (λ e. omega arith) f kept fs at)
            (wake_sleepers-Wakes now ctx kept fs moved (move_fiber-IsValid run_queue f s v)
              (move_fiber-context run_queue f s ∙ same)
              (move-leaves s v sleep_queue (λ e. omega arith) f kept fs at)))
      | inr early ↦ subst Goal (sym (here ∙ early)) (
          Wakes-left sleep_queue _ kept fs f s (wake_sleepers now fs s) early (
            wake_sleepers-Wakes now ctx (kept ++ f ∷ []) fs s v same
              (at ∙ sym (snoc_append kept fs f))))
    ]

-- A tick wakes every sleeping fiber whose time has come, in the order in which they sleep, behind
-- the fibers that can run already, and leaves the others asleep in their order.
pub scheduler_tick-Wakes :
    (now : ℕ → ℕ) (s : Scheduler)
    → IsValid s
    → Wakes sleep_queue
        (λ f. leb (s.context f) (now f))
        []
        (s.queues sleep_queue)
        s
        (scheduler_tick now s)
unfolding scheduler_tick
scheduler_tick-Wakes now s v =
    wake_sleepers-Wakes now s.context [] (s.queues sleep_queue) s v refl refl

notify_one-usual : (e : Event) (c : ℕ) → e.source ≢ id_notify_one → notify_one e c ≡ false
notify_one-usual e c h = ground arith

wake_waiters-Wakes :
    (e : Event) (ctx : ℕ → ℕ) (kept fs : List ℕ) (s : Scheduler)
    → e.source ≢ id_notify_one
    → IsValid s
    → s.context ≡ ctx
    → s.queues wait_queue ≡ kept ++ fs
    → Wakes wait_queue (λ f. awaits e (ctx f)) kept fs s (wake_waiters e false fs s)
unfolding wake_waiters
wake_waiters-Wakes e ctx kept [] s usual v same at = (at, sym (append-nil (s.queues run_queue)))
wake_waiters-Wakes e ctx kept (f ∷ fs) s usual v same at =
    let here : awaits e (s.context f) ≡ awaits e (ctx f) = ap (λ c. awaits e (c f)) same in
    let moved = move_fiber run_queue f s in
    let Goal : Bool → Bool → Type 0 = λ one b.
      Wakes wait_queue (λ g. awaits e (ctx g)) kept (f ∷ fs) s
        (wake_waiters e (false || one) fs (if (if one then true else b) then moved else s)) in
    subst (λ one. Goal one (awaits e (s.context f))) (sym (notify_one-usual e (s.context f) usual))
      (elim (Bool-cases (awaits e (ctx f))) [
        | inl woken ↦ subst (Goal false) (sym (here ∙ woken)) (
            Wakes-woken wait_queue _ kept fs f s moved (wake_waiters e false fs moved) woken
              (move-joins s v wait_queue (λ x. omega arith) f kept fs at)
              (wake_waiters-Wakes e ctx kept fs moved usual (move_fiber-IsValid run_queue f s v)
                (move_fiber-context run_queue f s ∙ same)
                (move-leaves s v wait_queue (λ x. omega arith) f kept fs at)))
        | inr left ↦ subst (Goal false) (sym (here ∙ left)) (
            Wakes-left wait_queue _ kept fs f s (wake_waiters e false fs s) left (
              wake_waiters-Wakes e ctx (kept ++ f ∷ []) fs s usual v same
                (at ∙ sym (snoc_append kept fs f))))
      ])

-- An event that is not on the NOTIFY_ONE channel wakes every fiber that waits for it, in the order
-- in which they wait, and leaves the others waiting in their order.
pub scheduler_event-Wakes :
    (e : Event) (s : Scheduler)
    → e.source ≢ id_notify_one
    → s.has_bus ≡ true
    → IsValid s
    → Wakes wait_queue
        (λ f. awaits e (s.context f))
        []
        (s.queues wait_queue)
        s
        (scheduler_event e s).0
unfolding scheduler_event
scheduler_event-Wakes e s usual bus v =
    let result : Bool → Scheduler × Bool = λ b.
      if b
      then (
        wake_waiters e false (s.queues wait_queue) s,
        not (e.source == id_notify) && not (e.source == id_notify_one),
      )
      else (s, false) in
    subst
      (λ b. Wakes wait_queue (λ f. awaits e (s.context f)) [] (s.queues wait_queue) s (result b).0)
      (sym bus) (wake_waiters-Wakes e s.context [] (s.queues wait_queue) s usual v refl refl)

after-middle : (f : ℕ) (xs ys : List ℕ) → count f xs ≡ 0 → after f (xs ++ f ∷ ys) ≡ ys
after-middle f [] ys h = ground arith
after-middle f (x ∷ xs) ys h = elim (Bool-cases (x == f)) [
  | inl same ↦ absurd (ground arith)
  | inr other ↦ rw other (after-middle f xs ys (ground arith))
]

head-rotated : (c h : ℕ) (r t : List ℕ) → head_or h r ≡ head_or c (r ++ h ∷ t)
head-rotated c h [] t = refl
head-rotated c h (x ∷ r) t = refl

pick-rotates :
    (l r : List ℕ) (c d : ℕ) → count c l ≡ 0 → pick (l ++ c ∷ r) true c d ≡ head_or c (r ++ l)
pick-rotates [] r c d h = ap (head_or c) (after-middle c [] r refl ∙ sym (append-nil r))
pick-rotates (x ∷ l) r c d h = ap (head_or x) (after-middle c (x ∷ l) r h) ∙ head-rotated c x r l

switch-plain :
    (a b c d : Bool) (w x y z : Switch)
    → a ≡ true
    → b ≡ false
    → d ≡ false
    → (if not a then w else if b then x else if c && d then y else z) ≡ z
switch-plain a b c d w x y z h k l = rw (h, k, l) (ground arith)

-- Round robin: a fiber that can run, and gives way, is followed by the next fiber of the run queue,
-- and the last one by the first.
schedule_rotates :
    (idle : Scheduler → Scheduler) (rounds : ℕ) (s : Scheduler) (l r : List ℕ)
    → IsValid s
    → s.running ≡ true
    → (s.flags s.current).fob ≡ false
    → (s.flags s.current).do_not_page ≡ false
    → s.queues run_queue ≡ l ++ s.current ∷ r
    → schedule idle rounds s ≡ switched (record s { current = head_or s.current (r ++ l) })
unfolding schedule next_fiber
schedule_rotates idle rounds s l r v running plain pages at =
    switch-plain s.running (s.flags s.current).fob (next_fiber s == s.idle_fiber)
      (s.flags s.current).do_not_page (switched s) (fork s) (idle_loop idle rounds s)
      (switched (record s { current = next_fiber s })) running plain pages
    ∙ ap (λ c. switched (record s { current = c }))
        (ap (λ b. pick (s.queues run_queue) b s.current s.idle_fiber) runnable
          ∙ ap (λ q. pick q true s.current s.idle_fiber) at
          ∙ pick-rotates l r s.current s.idle_fiber before)
  where
    placed :
        count s.current l + (count s.current r + 1)
        ≡ (if on run_queue (s.queue_of s.current) then 1 else 0)
    placed =
        let split = count-append s.current l (s.current ∷ r) in
        let all = sym (ap (count s.current) at) ∙ v s.current run_queue in
        ground (arith, split, all)

    runnable : on run_queue (s.queue_of s.current) ≡ true
    runnable = ground (arith, placed)

    before : count s.current l ≡ 0
    before = ground (arith, placed)

blocking_fiber-IsValid :
    (fresh : Option ℕ) (s : Scheduler)
    → IsValid s
    → ((g : ℕ) → fresh ≡ some g → s.queue_of g ≡ none)
    → IsValid (blocking_fiber fresh s).0
unfolding blocking_fiber get_fiber_context
blocking_fiber-IsValid fresh s v new = elim (Bool-cases (s.flags s.current).fob) [
  | inl forks ↦
      rw (forks, blocking_fiber) (context_from-IsValid (s.queues fiber_pool) fresh s v new).0
  | inr plain ↦ rw (plain, blocking_fiber) v
]

-- A fiber that falls asleep, or the fork that sleeps for it, is afterwards on one queue, as is every
-- other fiber, if a newly allocated fiber is on none.
fall_asleep-IsValid :
    (t now : ℕ) (fresh : Option ℕ) (s : Scheduler)
    → IsValid s
    → ((g : ℕ) → fresh ≡ some g → s.queue_of g ≡ none)
    → IsValid (fall_asleep t now fresh s)
unfolding fall_asleep
fall_asleep-IsValid t now fresh s v new =
    let blocked = blocking_fiber fresh s in
    move_fiber-IsValid sleep_queue blocked.1
      (record blocked.0 { context = update blocked.1 ((now + t) % 2 ^ 32) blocked.0.context })
      (blocking_fiber-IsValid fresh s v new)
