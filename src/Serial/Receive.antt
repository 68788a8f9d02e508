-- ===== src/Serial/Receive.antt =====
-- What is read from the port: the bytes that arrived, in their order.
use microbit_dal.Prelude.{
  length-append, drop, take, ℕ, zero, suc, ◌+◌, ◌≤◌, ◌<◌, ◌≡◌, refl, sym, ap, subst, ◌∙◌, ◌⊎◌, inl,
  inr, Bool, true, false, not, Option, none, some, List, [], ◌∷◌, ◌++◌, arith, if◌then◌else◌,
  Bool-cases, length, ◌-◌, append-nil, append_assoc,
}
use microbit_dal.RingBuffer.{Ring, push, is_empty, buffered_size}
use microbit_dal.RingBuffer.Contents.{
  IsValid, contents, push_full, push_room, push_lem, pop_lem, contents-nil, contents-cons, pop-size,
  length-contents,
}
use microbit_dal.Serial.{
  receive_all, close_rx, ok, async_round, read_opened, count, sync_spinwait, read_before,
  read_buffer, Serial, SerialEvent, rx_full, data_received, match_head, received, delim_events,
  is_readable, spin_readable, get_char_spin, taking, take_char, get_char_async, read_async,
  read_with, read, SerialMode, no_resources, in_use, open_rx, initialise_rx,
}

-- What the receive interrupt does with a byte: it is behind those in the buffer, or the buffer is
-- full, the byte is lost, and an event says so.
abbrev pub Receives : ℕ → Serial → Serial × List SerialEvent → Type 0
Receives c s (s', events) =
    ((buffered_size s.rx + 1 < s.rx.size)
      × (contents s'.rx ≡ contents s.rx ++ c ∷ [])
      × (s'.rx.size ≡ s.rx.size)
      × IsValid s'.rx
      × (s'.rx_buff_init ≡ true))
    ⊎ ((buffered_size s.rx + 1 ≡ s.rx.size)
        × (s' ≡ s)
        × (events ≡ delim_events c s.delimeters ++ rx_full ∷ []))

match_head-rx : (m : Option ℕ) (s : Serial) → (match_head m s).0.rx ≡ s.rx
unfolding match_head
match_head-rx none s = refl
match_head-rx (some m) s = ground arith

match_head-init : (m : Option ℕ) (s : Serial) → (match_head m s).0.rx_buff_init ≡ s.rx_buff_init
unfolding match_head
match_head-init none s = refl
match_head-init (some m) s = ground arith

received-Receives :
    (c : ℕ) (m : Option Ring) (s : Serial)
    → IsValid s.rx
    → s.rx_buff_init ≡ true
    → push c s.rx ≡ m
    → Receives c s (received c m s)
unfolding received
received-Receives c none s v on e = inr ((push_full c s.rx v).0 e, refl, refl)
received-Receives c (some r) s v on e =
    let (valid, same, behind) = push_lem c s.rx r v e in
    let ring = match_head-rx s.rx_head_match (record s { rx = r }) in
    inl (
      push_room c s.rx r v e,
      ap contents ring ∙ behind,
      ap (λ q. q.size) ring ∙ same,
      subst IsValid (sym ring) valid,
      match_head-init s.rx_head_match (record s { rx = r }) ∙ on,
    )

-- The receive interrupt appends its byte to the buffer's contents, or drops it and raises an event
-- exactly when the buffer is full.
pub data_received-Receives :
    (c : ℕ) (s : Serial) → IsValid s.rx → s.rx_buff_init ≡ true → Receives c s (data_received c s)
unfolding data_received
data_received-Receives c s v on =
    let step : received c (push c s.rx) s ≡ data_received c s =
      ap (λ b. if not b then (s, []) else received c (push c s.rx) s) (sym on) in
    subst (Receives c s) step (received-Receives c (push c s.rx) s v on refl)

-- A port that can receive: its buffer is in place and has room for a byte.
pub record Ready (s : Serial) : Type 0 where
  pub valid : IsValid s.rx
  pub on : s.rx_buff_init ≡ true
  pub room : 2 ≤ s.rx.size

readable-empty : (s : Serial) (b : Bool) → is_readable s ≡ b → is_empty s.rx ≡ not b
unfolding is_readable
readable-empty s b h = ground arith

-- The bytes of the bursts, in their order.
abbrev pub arriving : List (List ℕ) → List ℕ
arriving [] = []
arriving (b ∷ bs) = b ++ arriving bs

-- Each burst fits in a buffer of this size that holds `k` bytes at first, if a byte is read after
-- each burst that leaves one there.
abbrev pub Fits : ℕ → ℕ → List (List ℕ) → Type 0
Fits size k [] = Unit
Fits size k (b ∷ bs) = (k + length b < size) × Fits size (k + length b - 1) bs

receive_all_lem :
    (bytes : List ℕ) (s : Serial)
    → Ready s
    → length (contents s.rx) + length bytes < s.rx.size
    → let s' = (receive_all bytes s).0 in
      Ready s' × (contents s'.rx ≡ contents s.rx ++ bytes) × (s'.rx.size ≡ s.rx.size)
unfolding receive_all
receive_all_lem [] s ready fits = (ready, sym (append-nil (contents s.rx)), refl)
receive_all_lem (c ∷ cs) s ready fits =
    let counted = length-contents s.rx in
    let room = ready.room in
    elim (data_received-Receives c s ready.valid ready.on) [
      | inl (free, behind, same, valid, on) ↦
          let s₁ = (data_received c s).0 in
          let ready₁ : Ready s₁ = record {
            valid = valid;
            on = on;
            room = omega (arith, same, room);
          } in
          let more : length (contents s₁.rx) ≡ length (contents s.rx) + 1 =
            ap (length {A = ℕ}) behind ∙ length-append (contents s.rx) (c ∷ []) in
          let (ready', rest, size) =
            receive_all_lem cs s₁ ready₁ (omega (arith, more, same, fits)) in
          (
            ready',
            rest ∙ ap (λ l. l ++ cs) behind ∙ append_assoc (contents s.rx) (c ∷ []) cs,
            size ∙ same,
          )
      | inr (full, same, events) ↦ absurd (omega (arith, full, counted, fits))
    ]

-- What a wait for a byte leaves: the same bytes in the same order, one of them in the buffer, and
-- bursts that still fit once that byte is read.
abbrev Waited : List (List ℕ) → Serial → Serial → List (List ℕ) → Type 0
Waited incoming s s' left =
    Ready s'
    × (is_readable s' ≡ true)
    × (contents s'.rx ++ arriving left ≡ contents s.rx ++ arriving incoming)
    × (s'.rx.size ≡ s.rx.size)
    × Fits s.rx.size (length (contents s'.rx) - 1) left

spin_readable_lem :
    (incoming : List (List ℕ)) (s : Serial)
    → Ready s
    → Fits s.rx.size (length (contents s.rx)) incoming
    → 0 < length (contents s.rx ++ arriving incoming)
    → (s' : Serial) × (left : List (List ℕ)) × (spin_readable incoming s ≡ some (s', left))
      × Waited incoming s s' left
unfolding spin_readable
spin_readable_lem [] s ready fits some_bytes = elim (Bool-cases (is_readable s)) [
  | inl now ↦ (s, [], rw now refl, (ready, now, refl, refl, tt))
  | inr empty ↦
      let none_yet = contents-nil s.rx ready.valid (readable-empty s false empty) in
      absurd (omega (arith, some_bytes, ap (λ l. length {A = ℕ} (l ++ [])) none_yet))
]
spin_readable_lem (b ∷ bs) s ready (fits, later_fit) some_bytes =
    let s₁ = (receive_all b s).0 in
    let (ready₁, behind, size) = receive_all_lem b s ready fits in
    let held : length (contents s₁.rx) ≡ length (contents s.rx) + length b =
      ap (length {A = ℕ}) behind ∙ length-append (contents s.rx) b in
    let all : contents s₁.rx ++ arriving bs ≡ contents s.rx ++ (b ++ arriving bs) =
      ap (λ l. l ++ arriving bs) behind ∙ append_assoc (contents s.rx) b (arriving bs) in
    elim (Bool-cases (is_readable s₁)) [
      | inl now ↦ (
        s₁,
        bs,
        rw now refl,
        (ready₁, now, all, size, subst (λ k. Fits s.rx.size (k - 1) bs) (sym held) later_fit),
      )
      | inr empty ↦
          let none_yet = contents-nil s₁.rx ready₁.valid (readable-empty s₁ false empty) in
          let zero_held : length (contents s₁.rx) ≡ 0 = ap (length {A = ℕ}) none_yet in
          let same_count : length (contents s.rx) + length b - 1 ≡ length (contents s₁.rx) =
            omega (arith, held, zero_held) in
          let fit₁ : Fits s₁.rx.size (length (contents s₁.rx)) bs =
            subst (λ n. Fits n (length (contents s₁.rx)) bs) (sym size)
              (subst (λ k. Fits s.rx.size k bs) same_count later_fit) in
          let more : 0 < length (contents s₁.rx ++ arriving bs) =
            omega (arith, some_bytes, ap (length {A = ℕ}) all) in
          let (s', left, ends, (fine, now, same, size', fit')) =
            spin_readable_lem bs s₁ ready₁ fit₁ more in
          (
            s',
            left,
            rw empty ends,
            (
              fine,
              now,
              same ∙ all,
              size' ∙ size,
              subst (λ n. Fits n (length (contents s'.rx) - 1) left) size fit',
            ),
          )
    ]

take_char_lem :
    (s : Serial) (x : ℕ) (xs : List ℕ)
    → Ready s
    → contents s.rx ≡ x ∷ xs
    → Ready (take_char s).0 × ((take_char s).1 ≡ x) × (contents (take_char s).0.rx ≡ xs)
unfolding take_char
take_char_lem s x xs ready h =
    let (valid, first, rest) = pop_lem s.rx x xs ready.valid h in
    let room = ready.room in
    (
      record { valid = valid; on = ready.on; room = omega (arith, pop-size s.rx, room) },
      first,
      rest,
    )

take_char-size : (s : Serial) → (take_char s).0.rx.size ≡ s.rx.size
unfolding take_char
take_char-size s = pop-size s.rx

get_char_spin_lem :
    (incoming : List (List ℕ)) (s : Serial)
    → Ready s
    → Fits s.rx.size (length (contents s.rx)) incoming
    → 0 < length (contents s.rx ++ arriving incoming)
    → (s' : Serial) × (left : List (List ℕ)) × (x : ℕ) × (get_char_spin incoming s
        ≡ some (s', left, x))
      × Ready s'
      × (x ∷ (contents s'.rx ++ arriving left) ≡ contents s.rx ++ arriving incoming)
      × Fits s'.rx.size (length (contents s'.rx)) left
unfolding get_char_spin
get_char_spin_lem incoming s ready fits some_bytes =
    let (s₁, left, ends, (ready₁, now, same, size, fit)) =
      spin_readable_lem incoming s ready fits some_bytes in
    let (x, xs, first) = contents-cons s₁.rx ready₁.valid (readable-empty s₁ true now) in
    let (ready', head, tail) = take_char_lem s₁ x xs ready₁ first in
    let one_less : length (contents s₁.rx) - 1 ≡ length (contents (take_char s₁).0.rx) =
      omega (arith, ap (length {A = ℕ}) first, ap (length {A = ℕ}) tail) in
    (
      (take_char s₁).0,
      left,
      x,
      ap taking ends ∙ ap (λ c. some ((take_char s₁).0, left, c)) head,
      ready',
      ap (λ l. x ∷ (l ++ arriving left)) tail ∙ sym (ap (λ l. l ++ arriving left) first) ∙ same,
      subst (λ n. Fits n (length (contents (take_char s₁).0.rx)) left)
          (sym (take_char-size s₁ ∙ size)) (subst (λ k. Fits s.rx.size k left) one_less fit),
    )

-- A read of `n` bytes that waits for them: it ends once they have arrived, gives the oldest `n` in
-- their order, and leaves all the others.
read_spin_lem :
    (n : ℕ) (incoming : List (List ℕ)) (s : Serial)
    → Ready s
    → Fits s.rx.size (length (contents s.rx)) incoming
    → n ≤ length (contents s.rx ++ arriving incoming)
    → (s' : Serial) × (left : List (List ℕ)) × (cs : List ℕ) × (read_with get_char_spin n incoming s
        ≡ some (s', left, cs))
      × (length cs ≡ n)
      × (cs ++ (contents s'.rx ++ arriving left) ≡ contents s.rx ++ arriving incoming)
unfolding read_with
read_spin_lem zero incoming s ready fits enough = (s, incoming, [], refl, refl, refl)
read_spin_lem (suc n) incoming s ready fits enough =
    let (s₁, left, x, got, ready₁, first, fit) =
      get_char_spin_lem incoming s ready fits (omega arith) in
    let more : n ≤ length (contents s₁.rx ++ arriving left) =
      omega (arith, enough, ap (length {A = ℕ}) first) in
    let (s', left', cs, ends, counted, order) = read_spin_lem n left s₁ ready₁ fit more in
    (
      s',
      left',
      x ∷ cs,
      rw (got, read_with) (ap (read_before x) ends),
      ap suc counted,
      ap (λ l. x ∷ l) order ∙ first,
    )

open_rx-on :
    (memory : Bool) (s : Serial)
    → s.rx_buff_init ≡ true
    → open_rx memory s ≡ (record s { rx_in_use = true }, ok)
unfolding open_rx
open_rx-on memory s on =
    ap
      (λ b.
        if b
        then (record s { rx_in_use = true }, ok)
        else initialise_rx memory (record s { rx_in_use = true }))
      on

open_rx-off :
    (memory : Bool) (s : Serial)
    → s.rx_buff_init ≡ false
    → open_rx memory s ≡ initialise_rx memory (record s { rx_in_use = true })
unfolding open_rx
open_rx-off memory s off =
    ap
      (λ b.
        if b
        then (record s { rx_in_use = true }, ok)
        else initialise_rx memory (record s { rx_in_use = true }))
      off

read-free :
    (memory : Bool) (mode : SerialMode) (n : ℕ) (incoming : List (List ℕ)) (s : Serial)
    → s.rx_in_use ≡ false
    → read memory mode n incoming s ≡ read_opened mode n incoming (open_rx memory s)
unfolding read
read-free memory mode n incoming s free =
    ap
      (λ b.
        if b
        then some (s, incoming, [], in_use)
        else read_opened mode n incoming (open_rx memory s))
      free

-- Reading with SYNC_SPINWAIT from a free port with a buffer, while at least the bytes wanted are
-- there or arrive, in bursts that fit in the buffer when they come: it ends, gives the oldest `n` bytes in their order, leaves all the others, and
-- frees the port.
pub read-in_order :
    (memory : Bool) (n : ℕ) (incoming : List (List ℕ)) (s : Serial)
    → Ready s
    → s.rx_in_use ≡ false
    → Fits s.rx.size (length (contents s.rx)) incoming
    → n ≤ length (contents s.rx ++ arriving incoming)
    → (s' : Serial) × (left : List (List ℕ)) × (cs : List ℕ) × (read memory sync_spinwait n incoming
          s
        ≡ some (s', left, cs, count n))
      × (length cs ≡ n)
      × (cs ++ (contents s'.rx ++ arriving left) ≡ contents s.rx ++ arriving incoming)
      × (s'.rx_in_use ≡ false)
unfolding read_opened read_buffer
read-in_order memory n incoming s ready free fits enough =
    let locked : Serial = record s { rx_in_use = true } in
    let ready' : Ready locked = record { valid = ready.valid; on = ready.on; room = ready.room } in
    let (s', left, cs, ends, counted, order) = read_spin_lem n incoming locked ready' fits enough in
    (
      record s' { rx_in_use = false },
      left,
      cs,
      read-free memory sync_spinwait n incoming s free
          ∙ ap (read_opened sync_spinwait n incoming) (open_rx-on memory s ready.on)
          ∙ ap close_rx ends
          ∙ ap (λ k. some (record s' { rx_in_use = false }, left, cs, count k)) counted,
      counted,
      order,
      refl,
    )

get_char_async-eq :
    (s : Serial) (b : Bool)
    → is_readable s ≡ b
    → get_char_async s ≡ (if b then ((take_char s).0, some (take_char s).1) else (s, none))
unfolding get_char_async
get_char_async-eq s b h =
    ap (λ b. if b then ((take_char s).0, some (take_char s).1) else (s, none)) h

-- What a reader that does not wait gets of `n` bytes, and what it leaves in the buffer.
abbrev pub Drains : ℕ → List ℕ → Serial × List ℕ → Type 0
Drains n bytes (s, cs) = (cs ≡ take n bytes) × (contents s.rx ≡ drop (suc n) bytes)

read_round :
    (n : ℕ) (s : Serial) (got : Serial × Option ℕ)
    → get_char_async s ≡ got
    → read_async (suc n) s ≡ async_round got.1 got.0 (read_async n got.0)
unfolding read_async
read_round n s got e = ap (λ g. async_round g.1 g.0 (read_async n g.0)) e

-- Reading with ASYNC gives the oldest `n` bytes that are there. When there are more, the next one
-- is lost: the loop takes it from the buffer before it finds that there is no room for it.
read_async-Drains : (n : ℕ) (s : Serial) → Ready s → Drains n (contents s.rx) (read_async n s)
unfolding read_async
read_async-Drains zero s ready = elim (Bool-cases (is_readable s)) [
  | inr empty ↦
      let none_there = contents-nil s.rx ready.valid (readable-empty s false empty) in
      (
        refl,
        ap (λ g. contents g.0.rx) (get_char_async-eq s false empty)
            ∙ none_there
            ∙ sym (ap (drop 1) none_there),
      )
  | inl more ↦
      let (x, xs, first) = contents-cons s.rx ready.valid (readable-empty s true more) in
      let (ready', head, tail) = take_char_lem s x xs ready first in
      (
        refl,
        ap (λ g. contents g.0.rx) (get_char_async-eq s true more) ∙ tail ∙ sym (ap (drop 1) first),
      )
]
read_async-Drains (suc n) s ready = elim (Bool-cases (is_readable s)) [
  | inr empty ↦
      let none_there = contents-nil s.rx ready.valid (readable-empty s false empty) in
      subst (Drains (suc n) (contents s.rx))
        (sym (read_round n s (s, none) (get_char_async-eq s false empty)))
        (sym (ap (take (suc n)) none_there), none_there ∙ sym (ap (drop (suc (suc n))) none_there))
  | inl more ↦
      let (x, xs, first) = contents-cons s.rx ready.valid (readable-empty s true more) in
      let (ready', head, tail) = take_char_lem s x xs ready first in
      let (got, left) = read_async-Drains n (take_char s).0 ready' in
      let taken =
        read_round n s ((take_char s).0, some (take_char s).1) (get_char_async-eq s true more) in
      subst (Drains (suc n) (contents s.rx)) (sym taken) (
        ap (λ c. c ∷ (read_async n (take_char s).0).1) head
            ∙ ap (λ l. x ∷ l) (got ∙ ap (take n) tail)
            ∙ sym (ap (take (suc n)) first),
        left ∙ ap (drop (suc n)) tail ∙ sym (ap (drop (suc (suc n))) first),
      )
]

-- A read for which there is no memory leaves the port locked: every later one is refused.
read_locked_out :
    (mode mode' : SerialMode) (n k : ℕ) (incoming incoming' : List (List ℕ)) (memory : Bool)
    (s : Serial)
    → s.rx_in_use ≡ false
    → s.rx_buff_init ≡ false
    → (s' : Serial) × (read false mode n incoming s ≡ some (s', incoming, [], no_resources))
      × (read memory mode' k incoming' s' ≡ some (s', incoming', [], in_use))
unfolding read read_opened initialise_rx
read_locked_out mode mode' n k incoming incoming' memory s free none_yet = (
  record s { rx_in_use = true; rx_buff_init = false },
  read-free false mode n incoming s free
      ∙ ap (read_opened mode n incoming) (open_rx-off false s none_yet),
  refl,
)
