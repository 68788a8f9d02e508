-- ===== src/MessageBus/Queue.antt =====
-- The event queue of the bus: its bound, and the order of the events.
use microbit_dal.Prelude.{
  ℕ, zero, suc, ◌≤◌, ◌<◌, ◌≡◌, refl, sym, ap, subst, ◌∙◌, ◌⊎◌, inl, inr, Bool, true, false, Option,
  some, List, [], ◌∷◌, ◌++◌, append-nil, append_assoc, arith, leb, if◌then◌else◌, Bool-cases,
  Option-cases, length,
}
use microbit_dal.Listener.{Event, Listener, max_queue_depth}
use microbit_dal.MessageBus.{
  MessageBus, process, insert_after, enqueue_event, dequeue_event, queue_event, send_all, all_sent,
}

-- `queueLength` counts the queue, which holds at most MESSAGE_BUS_LISTENER_MAX_QUEUE_DEPTH events.
pub record IsValid (bus : MessageBus) : Type 0 where
  pub counted : bus.queue_length ≡ length bus.evt_queue
  pub bounded : bus.queue_length ≤ max_queue_depth

length-insert_after :
    (k : ℕ) (e : Event) (q : List Event) → length (insert_after k e q) ≡ suc (length q)
length-insert_after zero e q = refl
length-insert_after (suc k) e [] = refl
length-insert_after (suc k) e (x ∷ q) = ap suc (length-insert_after k e q)

insert_after-append :
    (e : Event) (q xs : List Event) → insert_after (length q) e (q ++ xs) ≡ q ++ e ∷ xs
insert_after-append e [] xs = refl
insert_after-append e (x ∷ q) xs = ap (◌∷◌ x) (insert_after-append e q xs)

enqueue_event-IsValid :
    (k : ℕ) (e : Event) (bus : MessageBus) → IsValid bus → IsValid (enqueue_event k e bus)
unfolding enqueue_event
enqueue_event-IsValid k e bus v = ground (arith, length-insert_after k e bus.evt_queue)

-- What an operation may do to the queue: add events behind those that are there.
pub record Grows (bus bus' : MessageBus) : Type 0 where
  pub valid : IsValid bus'
  pub same_listeners : bus'.listeners ≡ bus.listeners
  pub later : List Event
  pub behind : bus'.evt_queue ≡ bus.evt_queue ++ later

Grows-trans : (a b c : MessageBus) → Grows a b → Grows b c → Grows a c
Grows-trans a b c g h = record {
  valid = h.valid;
  same_listeners = h.same_listeners ∙ g.same_listeners;
  later = g.later ++ h.later;
  behind = h.behind ∙ ap (λ q. q ++ h.later) g.behind ∙ append_assoc a.evt_queue g.later h.later;
}

send_all-Grows :
    (send : Event → MessageBus → Option MessageBus)
    → ((e : Event) (bus bus' : MessageBus) → IsValid bus → send e bus ≡ some bus' → Grows bus bus')
    → (es : List Event) (bus bus' : MessageBus) → IsValid bus
    → send_all send es bus ≡ some bus'
    → Grows bus bus'
send_all-Grows send grows [] bus bus' v h =
    let same : bus ≡ bus' = cc in
    subst (Grows bus) same (record {
      valid = v;
      same_listeners = refl;
      later = [];
      behind = sym (append-nil bus.evt_queue);
    })
send_all-Grows send grows (e ∷ es) bus bus' v h = elim (Option-cases (send e bus)) [
  | inl out ↦ ground arith
  | inr (mid, eq) ↦
      let first = grows e bus mid v eq in
      Grows-trans bus mid bus' first
        (send_all-Grows send grows es mid bus' first.valid (ground arith))
]

-- Nested events stand behind the event that they come from: it is put where the queue ended
-- when it was sent.
enqueue_event-Grows :
    (e : Event) (bus mid : MessageBus)
    → Grows bus mid
    → Grows bus (enqueue_event (length bus.evt_queue) e mid)
unfolding enqueue_event
enqueue_event-Grows e bus mid g = elim (Bool-cases (leb max_queue_depth mid.queue_length)) [
  | inl taken ↦ rw (taken, enqueue_event) g
  | inr room ↦
      rw (room, enqueue_event)
        (record {
          valid =
              ground (arith, g.valid, length-insert_after (length bus.evt_queue) e mid.evt_queue);
          same_listeners = g.same_listeners;
          later = e ∷ g.later;
          behind =
              ap (insert_after (length bus.evt_queue) e) g.behind
              ∙ insert_after-append e bus.evt_queue g.later;
        })
]

abbrev pub AllBelow : (Event → ℕ) → ℕ → List Event → Type 0
AllBelow rank n [] = Unit {0}
AllBelow rank n (e ∷ es) = (rank e < n) × AllBelow rank n es

AllBelow-append :
    (rank : Event → ℕ) (n : ℕ) (xs ys : List Event)
    → AllBelow rank n xs
    → AllBelow rank n ys
    → AllBelow rank n (xs ++ ys)
AllBelow-append rank n [] ys h k = k
AllBelow-append rank n (x ∷ xs) ys h k = (h.0, AllBelow-append rank n xs ys h.1 k)

AllBelow-mono :
    (rank : Event → ℕ) {m n : ℕ} (xs : List Event) → m ≤ n → AllBelow rank m xs → AllBelow rank n xs
AllBelow-mono rank [] le h = tt
AllBelow-mono rank (x ∷ xs) le h = (omega arith, AllBelow-mono rank xs le h.1)

send_all_total :
    (rank : Event → ℕ) (send : Event → MessageBus → Option MessageBus) (n : ℕ)
    → ((e : Event) (b : MessageBus) → rank e < n → (b' : MessageBus) × (send e b ≡ some b'))
    → (es : List Event) (bus : MessageBus) → AllBelow rank n es
    → (bus' : MessageBus) × (send_all send es bus ≡ some bus')
send_all_total rank send n total [] bus h = (bus, refl)
send_all_total rank send n total (e ∷ es) bus h =
    let (mid, eq) = total e bus h.0 in
    let (bus', rest) = send_all_total rank send n total es mid h.1 in (bus', ground arith)

module _ (running : Bool) (sends : Listener → Event → List Event) where
  -- The events that the urgent listeners of `e` send.
  abbrev pub answers : Event → MessageBus → List Event
  answers e bus = all_sent running sends e (process running e true bus.listeners).1

  -- A send keeps the queue's count and bound, and every event that was queued keeps its place.
  queue_event-Grows :
      (depth : ℕ) (e : Event) (bus bus' : MessageBus)
      → IsValid bus
      → queue_event running sends depth e bus ≡ some bus'
      → Grows bus bus'
  unfolding queue_event
  queue_event-Grows zero e bus bus' v h = cc
  queue_event-Grows (suc depth) e bus bus' v h =
      elim (Option-cases
        (send_all (λ e' b. queue_event running sends depth e' b) (answers e bus) bus)) [
          | inl out ↦ ground arith
          | inr (mid, eq) ↦
              let grown =
                send_all-Grows (λ e' b. queue_event running sends depth e' b)
                  (queue_event-Grows depth) (answers e bus) bus mid v eq in
              elim (Bool-cases (process running e true bus.listeners).0) [
                | inl complete ↦ subst (Grows bus) {x = mid} (ground arith) grown
                | inr more ↦
                    subst (Grows bus) {x = enqueue_event (length bus.evt_queue) e mid}
                      (ground arith) (enqueue_event-Grows e bus mid grown)
              ]
        ]

  -- An event that an urgent pass has not dealt with is queued right behind the events that were
  -- there when it was sent, ahead of all that its urgent listeners sent in answer; it is lost only
  -- if the queue is full.
  pub queue_event_in_order :
      (depth : ℕ) (e : Event) (bus bus' : MessageBus)
      → IsValid bus
      → queue_event running sends depth e bus ≡ some bus'
      → (process running e true bus.listeners).0 ≡ false
      → ((later : List Event) × (bus'.evt_queue ≡ bus.evt_queue ++ e ∷ later))
        ⊎ (bus'.queue_length ≡ max_queue_depth)
  unfolding queue_event enqueue_event
  queue_event_in_order zero e bus bus' v h more = cc
  queue_event_in_order (suc depth) e bus bus' v h more =
      elim (Option-cases
        (send_all (λ e' b. queue_event running sends depth e' b) (answers e bus) bus)) [
          | inl out ↦ ground arith
          | inr (mid, eq) ↦
              let grown =
                send_all-Grows (λ e' b. queue_event running sends depth e' b)
                  (queue_event-Grows depth) (answers e bus) bus mid v eq in
              elim (Bool-cases (leb max_queue_depth mid.queue_length)) [
                | inl taken ↦ inr (ground (arith, grown.valid))
                | inr room ↦
                    let put =
                      ap (insert_after (length bus.evt_queue) e) grown.behind
                      ∙ insert_after-append e bus.evt_queue grown.later in
                    let same : bus'.evt_queue
                        ≡ insert_after (length bus.evt_queue) e mid.evt_queue =
                      ground arith in
                    inl (grown.later, same ∙ put)
              ]
        ]

  module _ (rank : Event → ℕ)
      (falls : (l : Listener) (e : Event) → AllBelow rank (rank e) (sends l e)) where
    all_sent-AllBelow :
        (e : Event) (ls : List Listener) → AllBelow rank (rank e) (all_sent running sends e ls)
    all_sent-AllBelow e [] = tt
    all_sent-AllBelow e (l ∷ ls) =
        AllBelow-append rank (rank e) (sends l e) _ (falls l e) (all_sent-AllBelow e ls)

    -- Urgent listeners that answer an event only with events of a lower rank cannot keep the bus
    -- busy for ever: a send ends, nested no deeper than the rank of its event.
    queue_event_total :
        (depth : ℕ) (e : Event) (bus : MessageBus)
        → rank e < depth
        → (bus' : MessageBus) × (queue_event running sends depth e bus ≡ some bus')
    unfolding queue_event
    queue_event_total zero e bus h = absurd (omega arith)
    queue_event_total (suc depth) e bus h =
        let (mid, eq) =
          send_all_total rank (λ e' b. queue_event running sends depth e' b) depth
            (queue_event_total depth) (answers e bus) bus
            (AllBelow-mono rank (answers e bus) (omega arith)
              (all_sent-AllBelow e (process running e true bus.listeners).1)) in
        (
          if (process running e true bus.listeners).0
              then mid
              else enqueue_event (length bus.evt_queue) e mid,
          rw (eq, queue_event) refl,
        )

  -- The next event to process is the one that was queued first, and the count goes down with it.
  pub dequeue_event-IsValid : (bus : MessageBus) → IsValid bus → IsValid (dequeue_event bus).0
  unfolding dequeue_event
  dequeue_event-IsValid bus v = ground arith
