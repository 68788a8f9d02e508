-- ===== src/Serial/Port/Transmit.antt =====
-- What is sent through the port: every byte, in the order in which it was given.
use microbit_dal.Prelude.{
  if-cases, take-append-drop, length-drop, drop, take, min, ℕ, zero, suc, ◌+◌, ◌-◌, ◌≤◌, ◌<◌, ◌≡◌,
  refl, sym, ap, subst, ◌∙◌, ◌⊎◌, inl, inr, Bool, true, false, not, ◌||◌, Option, none, some, List,
  [], ◌∷◌, ◌++◌, append-nil, append_assoc, arith, leb, ◌==◌, if◌then◌else◌, leb→le, Bool-cases,
  Option-cases, length,
}
use microbit_dal.RingBuffer.{Ring, push, pop, is_empty, buffered_size}
use microbit_dal.RingBuffer.Contents.{
  buffered_size-lt, IsValid, contents, push_full, push_lem, pop_lem, contents-nil, pop-size,
  length-contents,
}
use microbit_dal.Serial.{
  read, Serial, SerialEvent, tx_empty, SerialMode, sync_spinwait, count, ok, in_use,
  invalid_parameter, data_written, copy_to_tx, set_tx_interrupt, initialise_tx,
}
use microbit_dal.Serial.Receive
use microbit_dal.Serial.Receive.{Fits, arriving, read-in_order}
use microbit_dal.Serial.Port.{
  after_char, then_sent, interrupt, spin_sent, wait_sent, send_rounds, sent_before, round_over,
  open_tx, close_tx, send_opened, send,
}

-- A port that can send: its buffer is in place and has room for a byte.
pub record Ready (s : Serial) : Type 0 where
  pub valid : IsValid s.tx
  pub on : s.tx_buff_init ≡ true
  pub room : 2 ≤ s.tx.size

pop-empty : (r : Ring) → ((pop r).0.tail == r.head) ≡ true → is_empty (pop r).0 ≡ true
unfolding pop is_empty
pop-empty r t = t

interrupt_attached : (s : Serial) → s.tx_attached ≡ true → interrupt s ≡ data_written s
unfolding interrupt
interrupt_attached s e = ap (λ b. if b then data_written s else (s, none, [])) e

-- What a transmit interrupt does with the oldest byte `x` of a buffer, before the bytes `xs`.
-- The interrupt stays attached while there are bytes.
abbrev Sends : ℕ → List ℕ → ℕ → Serial × Option ℕ × List SerialEvent → Type 0
Sends x xs size (s, c, events) =
    Ready s
    × (c ≡ some x)
    × (contents s.tx ≡ xs)
    × (s.tx.size ≡ size)
    × ((xs ≡ []) ⊎ (s.tx_attached ≡ true))

some_bytes : (r : Ring) (x : ℕ) (xs : List ℕ) → IsValid r → contents r ≡ x ∷ xs → is_empty r ≡ false
some_bytes r x xs v h = elim (Bool-cases (is_empty r)) [
  | inl empty ↦ cc (sym (contents-nil r v empty) ∙ h)
  | inr full ↦ full
]

data_written-Sends :
    (x : ℕ) (xs : List ℕ) (s : Serial)
    → Ready s
    → s.tx_attached ≡ true
    → contents s.tx ≡ x ∷ xs
    → Sends x xs s.tx.size (data_written s)
unfolding data_written
data_written-Sends x xs s ready attached h =
    let (valid, first, rest) = pop_lem s.tx x xs ready.valid h in
    let size = pop-size s.tx in
    let room : 2 ≤ (pop s.tx).0.size = subst (λ k. 2 ≤ k) (sym size) ready.room in
    let nonempty : is_empty s.tx ≡ false = some_bytes s.tx x xs ready.valid h in
    let waits : (is_empty s.tx || not s.tx_buff_init) ≡ false =
      ap (λ b. b || not s.tx_buff_init) nonempty ∙ ap not ready.on in
    let last : Serial × Option ℕ × List SerialEvent =
      (record s { tx = (pop s.tx).0; tx_attached = false }, some (pop s.tx).1, tx_empty ∷ []) in
    let more : Serial × Option ℕ × List SerialEvent =
      (record s { tx = (pop s.tx).0 }, some (pop s.tx).1, []) in
    subst
      (λ b.
        Sends x xs s.tx.size
          (if b then (s, none, []) else if (pop s.tx).0.tail == s.tx.head then last else more))
      (sym waits)
      (if-cases (Sends x xs s.tx.size) ((pop s.tx).0.tail == s.tx.head) last more
        (λ t.
          let none_left : xs ≡ [] = sym rest ∙ contents-nil (pop s.tx).0 valid (pop-empty s.tx t) in
          (
            record { valid = valid; on = ready.on; room = room },
            ap some first,
            rest,
            size,
            inl none_left,
          ))
        (λ f. (
          record { valid = valid; on = ready.on; room = room },
          ap some first,
          rest,
          size,
          inr attached,
        )))

empty_size : (r : Ring) → contents r ≡ [] → buffered_size r ≡ 0
empty_size r h = sym (length-contents r) ∙ ap (length {A = ℕ}) h

-- What the wait for an empty buffer leaves, of a buffer with the bytes `xs`.
abbrev SentAll : List ℕ → ℕ → Option (Serial × List ℕ) → Type 0
SentAll xs size r =
    (s' : Serial) × (r ≡ some (s', xs)) × Ready s' × (contents s'.tx ≡ []) × (s'.tx.size ≡ size)

-- With an interrupt that is attached and fires for each byte, the wait ends when all are sent.
spin_sent-SentAll :
    (xs : List ℕ) (n : ℕ) (s : Serial)
    → Ready s
    → contents s.tx ≡ xs
    → (xs ≡ []) ⊎ (s.tx_attached ≡ true)
    → length xs ≤ n
    → SentAll xs s.tx.size (spin_sent n s)
unfolding spin_sent
spin_sent-SentAll [] zero s ready h a le =
    let e : (buffered_size s.tx == 0) ≡ true = ground (arith, empty_size s.tx h) in
    (s, rw e refl, ready, h, refl)
spin_sent-SentAll [] (suc n) s ready h a le =
    let e : (buffered_size s.tx == 0) ≡ true = ground (arith, empty_size s.tx h) in
    (s, rw e refl, ready, h, refl)
spin_sent-SentAll (x ∷ xs) zero s ready h a le = absurd (omega (arith, le))
spin_sent-SentAll (x ∷ xs) (suc n) s ready h (inl none_left) le = cc
spin_sent-SentAll (x ∷ xs) (suc n) s ready h (inr attached) le =
    let some_left : (buffered_size s.tx == 0) ≡ false =
      let size : buffered_size s.tx ≡ suc (length xs) =
        sym (length-contents s.tx) ∙ ap (length {A = ℕ}) h in
      ground (arith, size) in
    let (ready', first, rest, size, still) = data_written-Sends x xs s ready attached h in
    let (s', ends, done, empty, same) =
      spin_sent-SentAll xs n (data_written s).0 ready' rest still (omega (arith, le)) in
    (
      s',
      ap (λ b. if b then some (s, []) else then_sent (interrupt s).1 (spin_sent n (interrupt s).0))
            some_left
          ∙ ap (λ (r : Serial × Option ℕ × List SerialEvent). then_sent r.1 (spin_sent n r.0))
              (interrupt_attached s attached)
          ∙ ap (then_sent (data_written s).1) ends
          ∙ ap (λ c. some (s', after_char c xs)) first,
      done,
      empty,
      same ∙ size,
    )

-- What `setTxInterrupt` copies: the first `k` bytes, and some if it can.
abbrev Copies : List ℕ → Ring → Ring × ℕ → Type 0
Copies xs r (r', k) =
    IsValid r'
    × (r'.size ≡ r.size)
    × (k ≤ length xs)
    × (contents r' ≡ contents r ++ take k xs)
    × ((1 ≤ k) ⊎ ((length xs ≡ 0) ⊎ (buffered_size r + 1 ≡ r.size)))

copy_to_tx-Copies : (xs : List ℕ) (r : Ring) → IsValid r → Copies xs r (copy_to_tx xs r)
unfolding copy_to_tx
copy_to_tx-Copies [] r v = (v, refl, omega arith, sym (append-nil (contents r)), inr (inl refl))
copy_to_tx-Copies (c ∷ cs) r v = elim (Option-cases (push c r)) [
  | inl full ↦
      let stays : copy_to_tx (c ∷ cs) r ≡ (r, 0) = rw (full, copy_to_tx) refl in
      subst (Copies (c ∷ cs) r) (sym stays)
        (v, refl, omega arith, sym (append-nil (contents r)), inr (inr ((push_full c r v).0 full)))
  | inr (r', fits) ↦
      let rest = copy_to_tx cs r' in
      let goes : copy_to_tx (c ∷ cs) r ≡ (rest.0, rest.1 + 1) = rw (fits, copy_to_tx) refl in
      let (v', same, behind) = push_lem c r r' v fits in
      let (v'', same', few, out, some_copied) = copy_to_tx-Copies cs r' v' in
      let one_more : rest.1 + 1 ≡ suc rest.1 = omega arith in
      let next : take (rest.1 + 1) (c ∷ cs) ≡ c ∷ take rest.1 cs =
        ap (λ k. take k (c ∷ cs)) one_more in
      subst (Copies (c ∷ cs) r) (sym goes) (
        v'',
        same' ∙ same,
        omega (arith, few),
        out
            ∙ ap (λ l. l ++ take rest.1 cs) behind
            ∙ append_assoc (contents r) (c ∷ []) (take rest.1 cs)
            ∙ ap (λ l. contents r ++ l) (sym next),
        inl (omega arith),
      )
]

take_all : (k : ℕ) (xs : List ℕ) → length xs ≤ k → take k xs ≡ xs
take_all zero [] h = refl
take_all zero (x ∷ xs) h = absurd (omega arith)
take_all (suc k) [] h = refl
take_all (suc k) (x ∷ xs) h = ap (λ l. x ∷ l) (take_all k xs (omega arith))

-- Sending with SYNC_SPINWAIT: with rounds enough it ends, and what goes out on the wire is what was
-- in the buffer and then all that was given.
send_rounds_lem :
    (rounds : ℕ) (fired : ℕ → ℕ) (buffer : List ℕ) (s : Serial)
    → Ready s
    → ((k : ℕ) → s.tx.size ≤ fired k)
    → length buffer + min 1 (buffered_size s.tx) < rounds
    → (s' : Serial) × (send_rounds rounds fired sync_spinwait buffer s
        ≡ some (s', contents s.tx ++ buffer, length buffer))
      × (contents s'.tx ≡ [])
unfolding send_rounds set_tx_interrupt wait_sent
send_rounds_lem zero fired buffer s ready fires enough = absurd (omega arith)
send_rounds_lem (suc rounds) fired buffer s ready fires enough =
    let copied = copy_to_tx buffer s.tx in
    let (valid, same, few, put, progress) = copy_to_tx-Copies buffer s.tx ready.valid in
    let loaded : Serial = record s { tx = copied.0; tx_attached = true } in
    let room : 2 ≤ copied.0.size = subst (λ k. 2 ≤ k) (sym same) ready.room in
    let ready₁ : Ready loaded = record { valid = valid; on = ready.on; room = room } in
    let short : length (contents loaded.tx) ≤ fired rounds =
      omega
        (arith, length-contents loaded.tx, buffered_size-lt loaded.tx valid, same, fires rounds) in
    let (sent, ends_now, ready₂, empty, kept) =
      spin_sent-SentAll (contents loaded.tx) (fired rounds) loaded ready₁ refl (inr refl) short in
    let out = contents loaded.tx in
    let wire : out ≡ contents s.tx ++ take copied.1 buffer = put in
    let none_left = empty_size sent.tx empty in
    let fires' : (k : ℕ) → sent.tx.size ≤ fired k =
      λ k. subst (λ n. n ≤ fired k) (sym (kept ∙ same)) (fires k) in
    let over =
      ap
        (round_over (leb (length buffer) copied.1) copied.1
          (send_rounds rounds fired sync_spinwait (drop copied.1 buffer)))
        ends_now in
    elim (Bool-cases (leb (length buffer) copied.1)) [
      | inl all ↦
          let many = leb→le (length buffer) copied.1 all in
          (
            sent,
            over
                ∙ rw all (
                    ap (λ l. some (sent, l, copied.1))
                      (wire ∙ ap (λ l. contents s.tx ++ l) (take_all copied.1 buffer many))
                    ∙ ap (λ n. some (sent, contents s.tx ++ buffer, n)) (omega arith)),
            empty,
          )
      | inr part ↦
          let rest = drop copied.1 buffer in
          let left : length rest ≡ length buffer - copied.1 = length-drop copied.1 buffer in
          let fewer : length rest + min 1 (buffered_size sent.tx) < rounds = ground arith in
          let (s', ends, done) = send_rounds_lem rounds fired rest sent ready₂ fires' fewer in
          (
            s',
            over
                ∙ rw part (
                    ap (sent_before out copied.1) ends
                    ∙ ap (λ l. some (s', out ++ (l ++ rest), copied.1 + length rest)) empty
                    ∙ ap (λ l. some (s', l ++ rest, copied.1 + length rest)) wire
                    ∙ ap (λ l. some (s', l, copied.1 + length rest))
                        (append_assoc (contents s.tx) (take copied.1 buffer) rest
                          ∙ ap (λ l. contents s.tx ++ l) (take-append-drop copied.1 buffer))
                    ∙ ap (λ n. some (s', contents s.tx ++ buffer, n)) (omega arith)),
            done,
          )
    ]

send-free :
    (memory : Bool) (rounds : ℕ) (fired : ℕ → ℕ) (mode : SerialMode) (buffer : List ℕ) (s : Serial)
    → s.tx_in_use ≡ false
    → (length buffer == 0) ≡ false
    → s.tx_buff_init ≡ true
    → send memory rounds fired mode buffer s
      ≡ close_tx (send_rounds rounds fired mode buffer (record s { tx_in_use = true }))
unfolding send send_opened open_tx
send-free memory rounds fired mode buffer s free given on =
    let locked : Serial = record s { tx_in_use = true } in
    let rest = send_opened rounds fired mode buffer (open_tx memory s) in
    ap
      (λ b.
        if b
        then some (s, [], in_use)
        else if length buffer == 0
        then some (s, [], invalid_parameter)
        else rest)
      free
    ∙ ap (λ b. if b then some (s, [], invalid_parameter) else rest) given
    ∙ ap
        (λ b.
          send_opened rounds fired mode buffer
            (if b then (locked, ok) else initialise_tx memory locked))
        on

-- Sending with SYNC_SPINWAIT through a free port with a buffer ends, in at most two rounds more
-- than there are bytes, if in each round at least as many transmit interrupts can fire as the buffer
-- has places. What goes out on the wire is what was in the buffer and then every byte
-- given, in order; the buffer is empty afterwards, and the port is free.
pub send-in_order :
    (memory : Bool) (rounds : ℕ) (fired : ℕ → ℕ) (buffer : List ℕ) (s : Serial)
    → Ready s
    → s.tx_in_use ≡ false
    → ((k : ℕ) → s.tx.size ≤ fired k)
    → 0 < length buffer
    → length buffer + 1 < rounds
    → (s' : Serial) × (send memory rounds fired sync_spinwait buffer s
        ≡ some (s', contents s.tx ++ buffer, count (length buffer)))
      × (contents s'.tx ≡ [])
      × (s'.tx_in_use ≡ false)
send-in_order memory rounds fired buffer s ready free fires given enough =
    let locked : Serial = record s { tx_in_use = true } in
    let ready' : Ready locked = record { valid = ready.valid; on = ready.on; room = ready.room } in
    let (s', ends, empty) = send_rounds_lem rounds fired buffer locked ready' fires (omega arith) in
    (
      record s' { tx_in_use = false },
      send-free memory rounds fired sync_spinwait buffer s free (ground arith) ready.on
          ∙ ap close_tx ends,
      empty,
      refl,
    )

-- A list as long as the whole is the whole.
append_whole :
    (cs rest xs : List ℕ) → cs ++ rest ≡ xs → length cs ≡ length xs → (cs ≡ xs) × (rest ≡ [])
append_whole [] rest [] e n = (refl, e)
append_whole [] rest (x ∷ xs) e n = absurd (omega arith)
append_whole (c ∷ cs) rest [] e n = cc
append_whole (c ∷ cs) rest (x ∷ xs) e n =
    let tails : cs ++ rest ≡ xs = cc in
    let heads : c ≡ x = cc in
    let (same, none_left) = append_whole cs rest xs tails (omega arith) in (cc, none_left)

-- One port sends to another, both with SYNC_SPINWAIT and with empty buffers, and in each round of the
-- sender as many transmit interrupts can come as its buffer has places. What went out reaches the
-- reader in bursts, cut in any way in which they fit in its buffer when they come. The reader gets
-- exactly the bytes that were sent, and nothing is left.
pub read-send :
    (memory : Bool) (rounds : ℕ) (fired : ℕ → ℕ) (buffer : List ℕ) (incoming : List (List ℕ))
    (s r : Serial)
    → Ready s
    → Receive.Ready r
    → s.tx_in_use ≡ false
    → r.rx_in_use ≡ false
    → contents s.tx ≡ []
    → contents r.rx ≡ []
    → ((k : ℕ) → s.tx.size ≤ fired k)
    → 0 < length buffer
    → length buffer + 1 < rounds
    → arriving incoming ≡ buffer
    → Fits r.rx.size 0 incoming
    → (s' r' : Serial) × (left : List (List ℕ)) × (send memory rounds fired sync_spinwait buffer s
        ≡ some (s', buffer, count (length buffer)))
      × (read memory sync_spinwait (length buffer) incoming r
          ≡ some (r', left, buffer, count (length buffer)))
      × (contents r'.rx ++ arriving left ≡ [])
read-send memory rounds fired buffer incoming s r ready ready_r free free_r empty empty_r fires
      given enough whole fits =
    let (s', ends, done, open_s) =
      send-in_order memory rounds fired buffer s ready free fires given enough in
    let sent : send memory rounds fired sync_spinwait buffer s
        ≡ some (s', buffer, count (length buffer)) =
      ends ∙ ap (λ l. some (s', l ++ buffer, count (length buffer))) empty in
    let there : contents r.rx ++ arriving incoming ≡ buffer =
      ap (λ l. l ++ arriving incoming) empty_r ∙ whole in
    let fits_r : Fits r.rx.size (length (contents r.rx)) incoming =
      subst (λ l. Fits r.rx.size (length {A = ℕ} l) incoming) (sym empty_r) fits in
    let (r', left, cs, got, counted, order, open_r) =
      read-in_order memory (length buffer) incoming r ready_r free_r fits_r
        (omega (arith, ap (length {A = ℕ}) there)) in
    let (same, none_left) =
      append_whole cs (contents r'.rx ++ arriving left) buffer (order ∙ there) counted in
    (s', r', left, sent, got ∙ ap (λ l. some (r', left, l, count (length buffer))) same, none_left)
