-- ===== src/Fiber/Queues.antt =====
-- The queues of the scheduler and the moves between them, with the invariant that links each fiber
-- to the queue that its `queue` field names.
use microbit_dal.Prelude.{
  ℕ, ◌+◌, ◌-◌, ◌≤◌, ◌≡◌, refl, sym, ap, subst, ◌∙◌, ◌≢◌, inl, inr, Bool, true, false, ◌||◌, Option,
  none, some, List, [], ◌∷◌, ◌++◌, arith, leb, ◌==◌, if◌then◌else◌, Bool-cases, Option-cases,
}
use microbit_dal.Listener.{Event}
use microbit_dal.Fiber.{
  Queue, run_queue, index, on, Scheduler, remove_first, context_from, unlink, queue_fiber,
  dequeue_fiber, move_fiber, wake_sleepers, wake_waiters, notify_one,
}

abbrev pub count : ℕ → List ℕ → ℕ
count f [] = 0
count f (x ∷ xs) = if x == f then count f xs + 1 else count f xs

pub count-append : (f : ℕ) (xs ys : List ℕ) → count f (xs ++ ys) ≡ count f xs + count f ys
count-append f [] ys = omega arith
count-append f (x ∷ xs) ys = ground (arith, count-append f xs ys)

count-remove_first :
    (f g : ℕ) (xs : List ℕ)
    → count f (remove_first g xs) ≡ (if f == g then count f xs - 1 else count f xs)
count-remove_first f g [] = ground arith
count-remove_first f g (x ∷ xs) = ground (arith, count-remove_first f g xs)

-- A fiber stands once on the queue that its `queue` names, and on no other.
abbrev pub IsValid : Scheduler → Type 0
IsValid s = (f : ℕ) (q : Queue) → count f (s.queues q) ≡ (if on q (s.queue_of f) then 1 else 0)

pub queue_fiber-IsValid :
    (f : ℕ) (q : Queue) (s : Scheduler)
    → IsValid s
    → s.queue_of f ≡ none
    → IsValid (queue_fiber f q s)
unfolding queue_fiber
queue_fiber-IsValid f q s v free g p = elim (Bool-cases (g == f)) [
  | inl same ↦
      let e : g ≡ f = ground arith in
      let nowhere : count f (s.queues p) ≡ 0 = v f p ∙ rw free refl in
      rw e (ground (arith, nowhere, count-append f (s.queues p) (f ∷ [])))
  | inr other ↦ rw other (ground (arith, v g p, count-append g (s.queues p) (f ∷ [])))
]

unlink-IsValid :
    (f : ℕ) (q : Queue) (s : Scheduler) → IsValid s → s.queue_of f ≡ some q → IsValid (unlink f q s)
unfolding unlink
unlink-IsValid f q s v there g p = elim (Bool-cases (g == f)) [
  | inl same ↦
      let e : g ≡ f = ground arith in
      let once : count f (s.queues p) ≡ (if index p == index q then 1 else 0) =
        v f p ∙ rw there refl in
      rw e (ground (arith, once, count-remove_first f f (s.queues p)))
  | inr other ↦ rw other (ground (arith, v g p, count-remove_first g f (s.queues p)))
]

pub dequeue_fiber-IsValid : (f : ℕ) (s : Scheduler) → IsValid s → IsValid (dequeue_fiber f s)
unfolding dequeue_fiber
dequeue_fiber-IsValid f s v = elim (Option-cases (s.queue_of f)) [
  | inl off ↦ rw (off, dequeue_fiber) v
  | inr (q, there) ↦ rw (there, dequeue_fiber) (unlink-IsValid f q s v there)
]

dequeue_fiber-queue_of : (f : ℕ) (s : Scheduler) → (dequeue_fiber f s).queue_of f ≡ none
unfolding unlink dequeue_fiber
dequeue_fiber-queue_of f s = elim (Option-cases (s.queue_of f)) [
  | inl off ↦ rw (off, dequeue_fiber) off
  | inr (q, there) ↦ rw (there, dequeue_fiber) (ground arith)
]

-- Moving a fiber from any queue to another keeps every fiber on one queue.
pub move_fiber-IsValid :
    (q : Queue) (f : ℕ) (s : Scheduler) → IsValid s → IsValid (move_fiber q f s)
unfolding move_fiber
move_fiber-IsValid q f s v =
    queue_fiber-IsValid f q (dequeue_fiber f s) (dequeue_fiber-IsValid f s v)
      (dequeue_fiber-queue_of f s)

IsValid-if : (b : Bool) (s s' : Scheduler) → IsValid s → IsValid s' → IsValid (if b then s' else s)
IsValid-if true s s' v v' = v'
IsValid-if false s s' v v' = v

pub wake_sleepers-IsValid :
    (now : ℕ → ℕ) (fs : List ℕ) (s : Scheduler) → IsValid s → IsValid (wake_sleepers now fs s)
unfolding wake_sleepers
wake_sleepers-IsValid now [] s v = v
wake_sleepers-IsValid now (f ∷ fs) s v =
    wake_sleepers-IsValid now fs _
      (IsValid-if (leb (s.context f) (now f)) s _ v (move_fiber-IsValid run_queue f s v))

pub wake_waiters-IsValid :
    (e : Event) (complete : Bool) (fs : List ℕ) (s : Scheduler)
    → IsValid s
    → IsValid (wake_waiters e complete fs s)
unfolding wake_waiters
wake_waiters-IsValid e complete [] s v = v
wake_waiters-IsValid e complete (f ∷ fs) s v =
    wake_waiters-IsValid e (complete || notify_one e (s.context f)) fs _
      (IsValid-if _ s _ v (move_fiber-IsValid run_queue f s v))

-- What `getFiberContext` gives is on no queue, if a new fiber is on none.
pub context_from-IsValid :
    (pool : List ℕ) (fresh : Option ℕ) (s : Scheduler)
    → IsValid s
    → ((g : ℕ) → fresh ≡ some g → s.queue_of g ≡ none)
    → IsValid (context_from pool fresh s).0
      × ((g : ℕ)
          → (context_from pool fresh s).1 ≡ some g
          → (context_from pool fresh s).0.queue_of g ≡ none)
unfolding context_from
context_from-IsValid (f ∷ fs) fresh s v new = (
  dequeue_fiber-IsValid f s v,
  λ g e.
      let same : f ≡ g = cc in
      subst (λ x. (dequeue_fiber f s).queue_of x ≡ none) same (dequeue_fiber-queue_of f s),
)
context_from-IsValid [] none s v new = (v, λ g e. cc)
context_from-IsValid [] (some f) s v new = (v, new)

abbrev pub keep_if : (ℕ → Bool) → List ℕ → List ℕ
keep_if p [] = []
keep_if p (x ∷ xs) = if p x then x ∷ keep_if p xs else keep_if p xs

remove_first-middle :
    (f : ℕ) (xs ys : List ℕ) → count f (xs ++ f ∷ ys) ≤ 1 → remove_first f (xs ++ f ∷ ys) ≡ xs ++ ys
remove_first-middle f [] ys h = ground arith
remove_first-middle f (x ∷ xs) ys h = elim (Bool-cases (x == f)) [
  | inl same ↦ ground (arith, count-append f xs (f ∷ ys))
  | inr other ↦ rw other (ap (λ zs. x ∷ zs) (remove_first-middle f xs ys (ground arith)))
]

dequeue_fiber-queues :
    (f : ℕ) (p r : Queue) (s : Scheduler)
    → s.queue_of f ≡ some p
    → (dequeue_fiber f s).queues r
      ≡ (if index r == index p then remove_first f (s.queues r) else s.queues r)
unfolding dequeue_fiber unlink
dequeue_fiber-queues f p r s there = rw (there, dequeue_fiber) refl

-- A fiber of another queue that is moved to the run queue leaves the rest of its queue in order.
module _ (s : Scheduler) (v : IsValid s) (q : Queue) (other : index run_queue ≢ index q) (f : ℕ)
    (xs ys : List ℕ) (at : s.queues q ≡ xs ++ f ∷ ys) where
  on_it : on q (s.queue_of f) ≡ true
  on_it = ground (arith, v f q, at, ap (count f) at, count-append f xs (f ∷ ys))

  at_most_once : count f (xs ++ f ∷ ys) ≤ 1
  at_most_once = ground (arith, v f q, ap (count f) at)

  -- The queue that `f` names, which is `q`.
  named : (p : Queue) × (s.queue_of f ≡ some p) × (index p ≡ index q)
  named = elim (Option-cases (s.queue_of f)) [
    | inl off ↦ let no : on q (s.queue_of f) ≡ false = ap (on q) off in cc (on_it, no)
    | inr (p, there) ↦
        let yes : (index q == index p) ≡ true = sym (ap (on q) there) ∙ on_it in
        (p, there, ground arith)
  ]

  pub move-leaves : (move_fiber run_queue f s).queues q ≡ xs ++ ys
  unfolding move_fiber queue_fiber
  move-leaves =
      let (p, there, same) = named in
      let rest = dequeue_fiber-queues f p q s there in
      ground (arith, rest, at, ap (remove_first f) at, remove_first-middle f xs ys at_most_once)

  pub move-joins : (move_fiber run_queue f s).queues run_queue ≡ s.queues run_queue ++ f ∷ []
  unfolding move_fiber queue_fiber
  move-joins =
      let (p, there, same) = named in
      let rest = dequeue_fiber-queues f p run_queue s there in
      ap (λ r. r ++ f ∷ []) (ground (arith, rest))

pub move_fiber-context :
    (q : Queue) (f : ℕ) (s : Scheduler) → (move_fiber q f s).context ≡ s.context
unfolding move_fiber queue_fiber dequeue_fiber unlink
move_fiber-context q f s = elim (Option-cases (s.queue_of f)) [
  | inl off ↦ rw (off, dequeue_fiber) refl
  | inr (p, there) ↦ rw (there, dequeue_fiber) refl
]
