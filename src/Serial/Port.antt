-- ===== src/Serial/Port.antt =====
-- source/drivers/MicroBitSerial.cpp: sending, reading up to a delimiter, and the port's settings.
pub mod Transmit
pub mod Delimiter
use microbit_dal.Prelude.{
  drop, ℕ, zero, suc, ◌+◌, ◌-◌, ◌*◌, ◌/◌, ◌%◌, ◌^◌, ◌≤◌, ◌<◌, ◌≡◌, refl, sym, ap, subst, ◌∙◌, ◌≢◌,
  ◌↔◌, ◌⊎◌, inl, inr, Bool, true, false, not, ◌&&◌, ◌||◌, Option, none, some, List, [], ◌∷◌, ◌++◌,
  map, append-nil, append_assoc, arith, ltb, leb, ◌==◌, if◌then◌else◌, ltb→lt, lt→ltb, leb→le,
  ==_iff, Bool-cases, Option-cases, length,
}
use microbit_dal.Prelude.Bytes.{Bytes}
use microbit_dal.RingBuffer.{Ring, push, pop, is_empty, buffered_size, reset}
use microbit_dal.Serial.{
  Serial, SerialMode, async, sync_spinwait, sync_sleep, Status, count, ok, in_use,
  invalid_parameter, no_resources, data_written, data_received, set_tx_interrupt, initialise_tx,
  initialise_rx, buffer_size, SerialEvent,
}

abbrev pub after_char : Option ℕ → List ℕ → List ℕ
after_char none out = out
after_char (some c) out = c ∷ out

-- The transmit interrupt, which fires only while it is attached.
pub interrupt : Serial → Serial × Option ℕ × List SerialEvent
unfolding data_written
interrupt s = if s.tx_attached then data_written s else (s, none, [])

-- `n` transmit interrupts, and what they send.
pub interrupts : ℕ → Serial → Serial × List ℕ
unfolding interrupt
interrupts zero s = (s, [])
interrupts (suc n) s =
    let (s', c, events) = interrupt s in let rest = interrupts n s' in (rest.0, after_char c rest.1)

abbrev pub then_sent : Option ℕ → Option (Serial × List ℕ) → Option (Serial × List ℕ)
then_sent c none = none
then_sent c (some (s, out)) = some (s, after_char c out)

-- `while(txBufferedSize() > 0);` while `n` interrupts come, and what they send. `none`: the buffer is
-- not empty by then.
pub spin_sent : ℕ → Serial → Option (Serial × List ℕ)
unfolding interrupt
spin_sent zero s = if buffered_size s.tx == 0 then some (s, []) else none
spin_sent (suc n) s =
    let (s', c, events) = interrupt s in
    let later = then_sent c (spin_sent n s') in
    if buffered_size s.tx == 0 then some (s, []) else later

-- `send(mode)`: SYNC_SPINWAIT waits until the buffer is empty, SYNC_SLEEP sleeps; `fired` interrupts
-- come meanwhile.
pub wait_sent : SerialMode → ℕ → Serial → Option (Serial × List ℕ)
unfolding interrupts spin_sent
wait_sent async fired s = some (s, [])
wait_sent sync_spinwait fired s = spin_sent fired s
wait_sent sync_sleep fired s = some (interrupts fired s)

-- `mode == ASYNC || bytesWritten >= bufferLen`
abbrev pub is_complete : SerialMode → ℕ → ℕ → Bool
is_complete async len n = true
is_complete _ len n = leb len n

-- What a round sends comes before what the later rounds send.
abbrev pub sent_before : List ℕ → ℕ → Option (Serial × List ℕ × ℕ) → Option (Serial × List ℕ × ℕ)
sent_before out n none = none
sent_before out n (some (s, out', m)) = some (s, out ++ out', n + m)

-- The end of a round that has copied `n` bytes: the later rounds are `next`.
abbrev pub round_over :
    Bool
    → ℕ
    → (Serial → Option (Serial × List ℕ × ℕ))
    → Option (Serial × List ℕ)
    → Option (Serial × List ℕ × ℕ)
round_over complete n next none = none
round_over complete n next (some (s, out)) =
    if complete then some (s, out, n) else sent_before out n (next s)

-- The loop of `send(buffer, bufferLen, mode)`, with what goes out on the wire, and the number of
-- bytes written. `fired` counts the interrupts in each round; `none`: the rounds do not end, or one
-- of them does not.
pub send_rounds : ℕ → (ℕ → ℕ) → SerialMode → List ℕ → Serial → Option (Serial × List ℕ × ℕ)
unfolding wait_sent
send_rounds zero fired mode buffer s = none
send_rounds (suc rounds) fired mode buffer s =
    let (copied, n, waits) = set_tx_interrupt buffer mode s in
    let next = send_rounds rounds fired mode (drop n buffer) in
    round_over (is_complete mode (length buffer) n) n next (wait_sent mode (fired rounds) copied)

-- `lockTx`, and `initialiseTx` if there is no buffer yet.
pub open_tx : Bool → Serial → Serial × Status
open_tx memory s =
    let locked = record s { tx_in_use = true } in
    if s.tx_buff_init then (locked, ok) else initialise_tx memory locked

abbrev pub close_tx : Option (Serial × List ℕ × ℕ) → Option (Serial × List ℕ × Status)
close_tx none = none
close_tx (some (s, out, n)) = some (record s { tx_in_use = false }, out, count n)

-- `send` behind the opening of the buffer.
pub send_opened :
    ℕ → (ℕ → ℕ) → SerialMode → List ℕ → Serial × Status → Option (Serial × List ℕ × Status)
unfolding send_rounds
send_opened rounds fired mode buffer (s, ok) = close_tx (send_rounds rounds fired mode buffer s)
send_opened rounds fired mode buffer (s, other) = some (s, [], other)

-- `send(buffer, bufferLen, mode)`.
pub send : Bool → ℕ → (ℕ → ℕ) → SerialMode → List ℕ → Serial → Option (Serial × List ℕ × Status)
unfolding open_tx send_opened
send memory rounds fired mode buffer s =
    if s.tx_in_use
    then some (s, [], in_use)
    else if length buffer == 0
    then some (s, [], invalid_parameter)
    else send_opened rounds fired mode buffer (open_tx memory s)

-- `sendChar` behind the opening of the buffer.
pub send_char_opened : ℕ → SerialMode → ℕ → Serial × Status → Option (Serial × List ℕ × Status)
unfolding wait_sent
send_char_opened fired mode c (s, ok) =
    let (copied, n, waits) = set_tx_interrupt (c ∷ []) mode s in
    elim (wait_sent mode fired copied) [
      | none ↦ none
      | some (sent, out) ↦ some (record sent { tx_in_use = false }, out, count n)
    ]
send_char_opened fired mode c (s, other) = some (s, [], other)

pub send_char : Bool → ℕ → SerialMode → ℕ → Serial → Option (Serial × List ℕ × Status)
unfolding open_tx send_char_opened
send_char memory fired mode c s =
    if s.tx_in_use then some (s, [], in_use) else send_char_opened fired mode c (open_tx memory s)

abbrev pub member : ℕ → List ℕ → Bool
member c [] = false
member c (d ∷ ds) = d == c || member c ds

-- The first loop of `readUntil`: from the tail towards the head, over `n` bytes; where it found a
-- delimiter (`foundIndex`, `none` for -1), and where it stopped.
pub find_delimiter : ℕ → List ℕ → Ring → ℕ → ℕ × Option ℕ
find_delimiter zero delims r local_tail = (local_tail, none)
find_delimiter (suc n) delims r local_tail =
    let next = (local_tail + 1) % r.size in
    let later = find_delimiter n delims r next in
    if member (r.buff local_tail) delims then (next, some local_tail) else later

-- `circularCopy`, over `n` bytes.
pub circular_copy : ℕ → Bytes → ℕ → ℕ → List ℕ
circular_copy zero buff size tail = []
circular_copy (suc n) buff size tail = buff tail ∷ circular_copy n buff size ((tail + 1) % size)

-- The end of `readUntil`, when a delimiter is found at `found`: the text before it. `circularCopy`
-- runs from the tail to `found`, which is `local_size` bytes on.
pub take_until : ℕ → Serial → Serial × List ℕ
unfolding circular_copy
take_until found s =
    let local_size =
      if ltb found s.rx.tail then (s.rx.size - s.rx.tail) + found else found - s.rx.tail in
    (
      record s { rx = record (s.rx) { tail = (s.rx.tail + local_size + 1) % s.rx.size } },
      circular_copy local_size s.rx.buff s.rx.size s.rx.tail,
    )

-- `readUntil` behind its loop, by `foundIndex`.
pub until_found : Option ℕ → Serial → Serial × List ℕ
unfolding take_until
until_found none s = (record s { rx_in_use = false }, [])
until_found (some found) s = take_until found (record s { rx_in_use = false })

-- `readUntil(delimeters, ASYNC)` with a receive buffer in place.
pub read_until : List ℕ → Serial → Serial × List ℕ
unfolding find_delimiter until_found
read_until delims s =
    if s.rx_in_use
    then (s, [])
    else until_found (find_delimiter (buffered_size s.rx) delims s.rx s.rx.tail).1 s

pub set_rx_buffer_size : Bool → ℕ → Serial → Serial × Status
set_rx_buffer_size memory size s =
    if s.rx_in_use
    then (s, in_use)
    else initialise_rx memory (record s { rx = record (s.rx) { size = buffer_size size } })

pub set_tx_buffer_size : Bool → ℕ → Serial → Serial × Status
set_tx_buffer_size memory size s =
    if s.tx_in_use
    then (s, in_use)
    else initialise_tx memory (record s { tx = record (s.tx) { size = buffer_size size } })

pub clear_rx_buffer : Serial → Serial × Status
clear_rx_buffer s =
    if s.rx_in_use then (s, in_use) else (record s { rx = record (s.rx) { tail = s.rx.head } }, ok)

pub clear_tx_buffer : Serial → Serial × Status
clear_tx_buffer s =
    if s.tx_in_use then (s, in_use) else (record s { tx = record (s.tx) { tail = s.tx.head } }, ok)

-- `redirect`: the transmit interrupt is attached again if there is something to send.
pub redirect : Serial → Serial × Status
redirect s =
    if s.tx_in_use || s.rx_in_use
    then (s, in_use)
    else (record s { tx_attached = if ltb 0 (buffered_size s.tx) then true else s.tx_attached }, ok)
