-- ===== src/Serial.antt =====
-- source/drivers/MicroBitSerial.cpp: the buffered serial port. What the port does while the code
-- waits is given: the bytes that arrive, and the transmit interrupts that fire.
pub mod Port
pub mod Receive
mod Tests
use microbit_dal.Prelude.{
  ℕ, zero, suc, ◌+◌, ◌-◌, ◌*◌, ◌/◌, ◌%◌, ◌^◌, ◌≤◌, ◌<◌, ◌≡◌, refl, sym, ap, subst, ◌∙◌, ◌≢◌, ◌↔◌,
  ◌⊎◌, inl, inr, Bool, true, false, not, ◌&&◌, ◌||◌, Option, none, some, List, [], ◌∷◌, ◌++◌, map,
  append-nil, append_assoc, arith, ltb, leb, ◌==◌, if◌then◌else◌, ltb→lt, lt→ltb, leb→le, ==_iff,
  Bool-cases, Option-cases, length,
}
use microbit_dal.Prelude.Int.{ℤ, pos, negsuc}
use microbit_dal.RingBuffer.{Ring, push, pop, is_empty, buffered_size, reset}

-- `MicroBitSerialMode`
pub data SerialMode : Type 0 where
  async sync_spinwait sync_sleep : SerialMode

-- The events of the port: MICROBIT_SERIAL_EVT_*.
pub data SerialEvent : Type 0 where
  delim_match head_match rx_full tx_empty : SerialEvent

-- The error codes, and the results that are numbers.
pub data Status : Type 0 where
  count : ℕ → Status
  ok in_use invalid_parameter no_resources no_data : Status

-- `status` by its bits. `rx_head_match` is `none` for -1; `delimeters` is its characters.
pub record Serial : Type 0 where
  pub rx : Ring
  pub tx : Ring
  pub rx_head_match : Option ℕ
  pub delimeters : List ℕ
  pub rx_in_use : Bool
  pub tx_in_use : Bool
  pub rx_buff_init : Bool
  pub tx_buff_init : Bool
  pub tx_attached : Bool
  pub baudrate : ℕ

abbrev pub default_baud_rate : ℕ
default_baud_rate = 115200

-- The sizes are `uint8_t`.
abbrev pub buffer_size : ℕ → ℕ
buffer_size size = (size + 1) % 2 ^ 8

pub new_serial : ℕ → ℕ → Serial
new_serial rx_size tx_size = record {
  rx = record { buff = λ i. 0; size = buffer_size rx_size; head = 0; tail = 0 };
  tx = record { buff = λ i. 0; size = buffer_size tx_size; head = 0; tail = 0 };
  rx_head_match = none;
  delimeters = [];
  rx_in_use = false;
  tx_in_use = false;
  rx_buff_init = false;
  tx_buff_init = false;
  tx_attached = false;
  baudrate = default_baud_rate;
}

-- The loop over the delimiters: an event for each that is the character.
pub delim_events : ℕ → List ℕ → List SerialEvent
delim_events c [] = []
delim_events c (d ∷ ds) = if d == c then delim_match ∷ delim_events c ds else delim_events c ds

-- The test for `rxBuffHeadMatch`, when a character is in the buffer.
pub match_head : Option ℕ → Serial → Serial × List SerialEvent
match_head none s = (s, [])
match_head (some m) s =
    if s.rx.head == m then (record s { rx_head_match = none }, head_match ∷ []) else (s, [])

-- The receive interrupt behind `getc`, by whether the character found room.
pub received : ℕ → Option Ring → Serial → Serial × List SerialEvent
unfolding match_head delim_events
received c none s = (s, delim_events c s.delimeters ++ rx_full ∷ [])
received c (some r) s =
    let matched = match_head s.rx_head_match (record s { rx = r }) in
    (matched.0, delim_events c s.delimeters ++ matched.1)

-- The receive interrupt, with the character that `getc` gives.
pub data_received : ℕ → Serial → Serial × List SerialEvent
unfolding received
data_received c s = if not s.rx_buff_init then (s, []) else received c (push c s.rx) s

-- The transmit interrupt: the character that `putc` sends, if any, and the event.
pub data_written : Serial → Serial × Option ℕ × List SerialEvent
data_written s =
    if is_empty s.tx || not s.tx_buff_init
    then (s, none, [])
    else let sent = pop s.tx in
      if sent.0.tail == s.tx.head
      then (record s { tx = sent.0; tx_attached = false }, some sent.1, tx_empty ∷ [])
      else (record s { tx = sent.0 }, some sent.1, [])

-- The loop of `setTxInterrupt`: the buffer, and how many bytes were copied.
pub copy_to_tx : List ℕ → Ring → Ring × ℕ
copy_to_tx [] r = (r, 0)
copy_to_tx (c ∷ cs) r = elim (push c r) [
  | none ↦ (r, 0)
  | some r' ↦ let rest = copy_to_tx cs r' in (rest.0, rest.1 + 1)
]

-- The second result: whether the fiber is put to wait for `tx_empty`.
pub set_tx_interrupt : List ℕ → SerialMode → Serial → Serial × ℕ × Bool
unfolding copy_to_tx
set_tx_interrupt string mode s =
    let copied = copy_to_tx string s.tx in
    (
      record s { tx = copied.0; tx_attached = true },
      copied.1,
      elim mode [ sync_spinwait ↦ false | _ ↦ true ],
    )

-- `memory`: whether `malloc` gives the buffer.
pub initialise_rx : Bool → Serial → Serial × Status
initialise_rx memory s =
    if memory
    then (record s { rx = reset s.rx; rx_buff_init = true }, ok)
    else (record s { rx_buff_init = false }, no_resources)

pub initialise_tx : Bool → Serial → Serial × Status
initialise_tx memory s =
    if memory
    then (record s { tx = reset s.tx; tx_buff_init = true }, ok)
    else (record s { tx_buff_init = false }, no_resources)

pub is_readable : Serial → Bool
is_readable s = not (is_empty s.rx)

-- `txBuffHead != (txBuffTail - 1)`, in `int`: at tail 0 nothing equals it.
pub is_writeable : Serial → Bool
is_writeable s = if s.tx.tail == 0 then true else not (s.tx.head == s.tx.tail - 1)

-- The receive interrupts of a burst of bytes.
pub receive_all : List ℕ → Serial → Serial × List SerialEvent
unfolding data_received
receive_all [] s = (s, [])
receive_all (c ∷ cs) s =
    let (s', events) = data_received c s in
    let (s'', later) = receive_all cs s' in (s'', events ++ later)

-- The next burst arrives.
pub next_burst : List (List ℕ) → Serial → Serial × List (List ℕ)
unfolding receive_all
next_burst [] s = (s, [])
next_burst (b ∷ bs) s = ((receive_all b s).0, bs)

-- `while(!isReadable());`: before each test the next burst arrives, which may be empty, and the
-- second result is the bursts that are left. `none`: it waits for ever.
pub spin_readable : List (List ℕ) → Serial → Option (Serial × List (List ℕ))
unfolding receive_all is_readable
spin_readable [] s = if is_readable s then some (s, []) else none
spin_readable (b ∷ bs) s =
    let s' = (receive_all b s).0 in
    let later = spin_readable bs s' in if is_readable s' then some (s', bs) else later

abbrev pub has_match : List SerialEvent → Bool
has_match [] = false
has_match (head_match ∷ es) = true
has_match (_ ∷ es) = has_match es

-- The wait for MICROBIT_SERIAL_EVT_HEAD_MATCH while the bursts arrive.
pub wait_head_match : List (List ℕ) → Serial → Option (Serial × List (List ℕ))
unfolding receive_all
wait_head_match [] s = none
wait_head_match (b ∷ bs) s =
    let (s', events) = receive_all b s in
    let later = wait_head_match bs s' in if has_match events then some (s', bs) else later

-- `eventAfter` up to its wait.
pub set_head_match : ℕ → Serial → Serial
set_head_match len s = record s { rx_head_match = some ((s.rx.head + len) % s.rx.size) }

-- `eventAfter` in mode SYNC_SLEEP.
pub event_after : ℕ → List (List ℕ) → Serial → Option (Serial × List (List ℕ))
unfolding set_head_match wait_head_match
event_after len incoming s = wait_head_match incoming (set_head_match len s)

-- The last lines of `getChar`.
pub take_char : Serial → Serial × ℕ
take_char s = let taken = pop s.rx in (record s { rx = taken.0 }, taken.1)

abbrev pub taking : Option (Serial × List (List ℕ)) → Option (Serial × List (List ℕ) × ℕ)
taking none = none
taking (some (s, incoming)) = some ((take_char s).0, incoming, (take_char s).1)

-- `getChar` in the modes that wait.
pub get_char_spin : List (List ℕ) → Serial → Option (Serial × List (List ℕ) × ℕ)
unfolding spin_readable take_char
get_char_spin incoming s = taking (spin_readable incoming s)

pub get_char_sleep : List (List ℕ) → Serial → Option (Serial × List (List ℕ) × ℕ)
unfolding event_after take_char is_readable next_burst
get_char_sleep incoming s =
    let (s', left) = next_burst incoming s in
    taking (if is_readable s' then some (s', left) else event_after 1 left s')

-- `getChar(ASYNC)`; `none` is MICROBIT_NO_DATA.
pub get_char_async : Serial → Serial × Option ℕ
unfolding take_char is_readable
get_char_async s = if is_readable s then ((take_char s).0, some (take_char s).1) else (s, none)

-- A round of the loop that got `c`, with what the rounds after it get.
abbrev pub async_round : Option ℕ → Serial → Serial × List ℕ → Serial × List ℕ
async_round none s rest = (s, [])
async_round (some c) s rest = (rest.0, c ∷ rest.1)

-- The loop of `read(buffer, n, ASYNC)`: `getChar` is called before the room is tested.
pub read_async : ℕ → Serial → Serial × List ℕ
unfolding get_char_async
read_async zero s = ((get_char_async s).0, [])
read_async (suc n) s =
    let (s', c) = get_char_async s in let rest = read_async n s' in async_round c s' rest

abbrev pub read_before :
    ℕ → Option (Serial × List (List ℕ) × List ℕ) → Option (Serial × List (List ℕ) × List ℕ)
read_before c none = none
read_before c (some (s, left, cs)) = some (s, left, c ∷ cs)

-- The loops of the modes that wait, over the `getChar` of the mode.
pub read_with :
    (List (List ℕ) → Serial → Option (Serial × List (List ℕ) × ℕ))
    → ℕ
    → List (List ℕ)
    → Serial
    → Option (Serial × List (List ℕ) × List ℕ)
read_with get zero incoming s = some (s, incoming, [])
read_with get (suc n) incoming s = elim (get incoming s) [
  | none ↦ none
  | some (s', left, c) ↦ read_before c (read_with get n left s')
]

-- The part of `read(buffer, n, mode)` between the lock and the unlock.
pub read_buffer : SerialMode → ℕ → List (List ℕ) → Serial → Option (Serial × List (List ℕ) × List ℕ)
unfolding read_async read_with get_char_spin get_char_sleep event_after next_burst
read_buffer async n incoming s = let (s', cs) = read_async n s in some (s', incoming, cs)
read_buffer sync_spinwait n incoming s = read_with get_char_spin n incoming s
read_buffer sync_sleep n incoming s =
    let (s', left) = next_burst incoming s in
    elim (if ltb (buffered_size s'.rx) n
      then event_after (n - buffered_size s'.rx) left s'
      else some (s', left)) [
        | none ↦ none
        | some (s'', left') ↦ read_with get_char_sleep n left' s''
      ]

-- `lockRx`, and `initialiseRx` if there is no buffer yet.
pub open_rx : Bool → Serial → Serial × Status
unfolding initialise_rx
open_rx memory s =
    let locked = record s { rx_in_use = true } in
    if s.rx_buff_init then (locked, ok) else initialise_rx memory locked

abbrev pub close_rx :
    Option (Serial × List (List ℕ) × List ℕ) → Option (Serial × List (List ℕ) × List ℕ × Status)
close_rx none = none
close_rx (some (s, left, cs)) = some (record s { rx_in_use = false }, left, cs, count (length cs))

-- `read` behind the opening of the buffer.
pub read_opened :
    SerialMode
    → ℕ
    → List (List ℕ)
    → Serial × Status
    → Option (Serial × List (List ℕ) × List ℕ × Status)
unfolding read_buffer
read_opened mode n incoming (s, ok) = close_rx (read_buffer mode n incoming s)
read_opened mode n incoming (s, other) = some (s, incoming, [], other)

-- `read(buffer, n, mode)`: the bytes that were read, and the result.
pub read :
    Bool
    → SerialMode
    → ℕ
    → List (List ℕ)
    → Serial
    → Option (Serial × List (List ℕ) × List ℕ × Status)
unfolding open_rx read_opened
read memory mode n incoming s =
    if s.rx_in_use
    then some (s, incoming, [], in_use)
    else read_opened mode n incoming (open_rx memory s)
