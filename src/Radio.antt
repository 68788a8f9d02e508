-- ===== src/Radio.antt =====
-- source/drivers/MicroBitRadio.cpp, MicroBitRadioDatagram.cpp and MicroBitRadioEvent.cpp: frames that
-- the hardware receives are queued by the interrupt handler, and handed to the two protocols when the
-- processor is idle. The registers of the radio hardware are not modelled; whether BLE is running,
-- whether there is memory for a new buffer and what arrives are arguments.
pub mod Order
pub mod Link
pub mod Invariant
mod Tests
use microbit_dal.Prelude.{
  ℕ, zero, suc, ◌+◌, ◌-◌, ◌*◌, ◌/◌, ◌%◌, ◌≤◌, ◌<◌, ◌≡◌, Bool, true, false, not, ◌&&◌, ◌||◌, Option,
  none, some, List, [], ◌∷◌, ◌++◌, ltb, leb, ◌==◌, if◌then◌else◌, length, take, drop, min, ◌^◌,
  refl, sym, ap, subst, ◌∙◌, ◌≢◌, ◌↔◌, ◌⊎◌, inl, inr, map, append-nil, append_assoc, arith, ltb→lt,
  lt→ltb, leb→le, ==_iff, Bool-cases, Option-cases,
}

abbrev pub max_packet_size : ℕ
max_packet_size = 32

abbrev pub header_size : ℕ
header_size = 4

abbrev pub maximum_rx_buffers : ℕ
maximum_rx_buffers = 4

-- `FrameBuffer`, with the bytes of the payload that are in use.
pub record FrameBuffer : Type 0 where
  pub length_field : ℕ
  pub version : ℕ
  pub group : ℕ
  pub protocol : ℕ
  pub payload : List ℕ
  pub rssi : ℕ

-- `MicroBitEvent`
pub record Event : Type 0 where
  pub source : ℕ
  pub value : ℕ
  pub timestamp : ℕ

-- `MicroBitRadio`, with the queue of its datagram service and the flag of its event service.
pub record Radio : Type 0 where
  pub group : ℕ
  pub queue_depth : ℕ
  pub rssi : ℕ
  pub rx_queue : List FrameBuffer
  pub rx_buf : Option FrameBuffer
  pub initialised : Bool
  pub datagrams : List FrameBuffer
  pub suppress_forwarding : Bool

pub data Status : Type 0 where
  ok invalid_parameter no_resources not_supported : Status

-- What a part of the radio does to the rest of the system: it makes an event, it fires an event that
-- came over the air, it sends a frame.
pub data Effect : Type 0 where
  made : ℕ → ℕ → Effect
  fired : Event → Effect
  sent : FrameBuffer → Effect

abbrev pub new_radio : Radio
new_radio = record {
  group = 0;
  queue_depth = 0;
  rssi = 0;
  rx_queue = [];
  rx_buf = none;
  initialised = false;
  datagrams = [];
  suppress_forwarding = false;
}

abbrev pub blank_frame : FrameBuffer
blank_frame = record {
  length_field = 0;
  version = 0;
  group = 0;
  protocol = 0;
  payload = [];
  rssi = 0;
}

-- `getRSSI` as it is stored in a byte: MICROBIT_NOT_SUPPORTED is -1002.
pub rssi_byte : Radio → ℕ
rssi_byte r = if r.initialised then r.rssi else 22

pub set_rssi : ℕ → Radio → Radio × Status
set_rssi sample r =
    if r.initialised then (record r { rssi = sample }, Status.ok) else (r, Status.not_supported)

-- `queueRxBuf` of a buffer; `memory` says whether a new one can be allocated.
pub queue_frame : Bool → Radio → FrameBuffer → Radio × Status
unfolding rssi_byte
queue_frame memory r f =
    if leb maximum_rx_buffers r.queue_depth
    then (r, Status.no_resources)
    else let marked = record f { rssi = rssi_byte r } in
      if memory
      then (
        record r {
          rx_queue = r.rx_queue ++ (marked ∷ []);
          queue_depth = (r.queue_depth + 1) % 256;
          rx_buf = some blank_frame;
        },
        Status.ok,
      )
      else (record r { rx_buf = some marked }, Status.no_resources)

pub queue_rx_buf : Bool → Radio → Radio × Status
unfolding queue_frame
queue_rx_buf memory r = elim r.rx_buf [
  | none ↦ (r, Status.invalid_parameter)
  | some f ↦ queue_frame memory r f
]

-- `RADIO_IRQHandler` at the end of a packet, which the hardware has put in the receive buffer.
pub irq_handler : Bool → ℕ → Bool → Radio → Radio
unfolding set_rssi queue_rx_buf
irq_handler crc_ok sample memory r =
    if crc_ok then (queue_rx_buf memory (set_rssi sample r).0).0 else (set_rssi 0 r).0

-- The hardware receives a frame.
pub arrive : FrameBuffer → Bool → ℕ → Bool → Radio → Radio
unfolding irq_handler
arrive f crc_ok sample memory r = irq_handler crc_ok sample memory (record r { rx_buf = some f })

-- `recv`, by the queue.
abbrev pub recv_queue : List FrameBuffer → Radio → Radio × Option FrameBuffer
recv_queue [] r = (r, none)
recv_queue (f ∷ fs) r =
    (record r { rx_queue = fs; queue_depth = (r.queue_depth + 255) % 256 }, some f)

-- `recv`; `delete` or the queueing of what it returns is in its callers.
pub recv : Radio → Radio × Option FrameBuffer
recv r = recv_queue r.rx_queue r

-- The queue of `MicroBitRadioDatagram::packetReceived`: its loop counts every packet but the last.
pub room : List FrameBuffer → Bool
room [] = true
room (f ∷ fs) = ltb (length fs) maximum_rx_buffers

-- The `n` bytes of a number, the lowest first, and the number of such bytes.
abbrev pub le_bytes : ℕ → ℕ → List ℕ
le_bytes zero n = []
le_bytes (suc k) n = n % 256 ∷ le_bytes k (n / 256)

abbrev pub of_bytes : ℕ → List ℕ → ℕ
of_bytes zero bs = 0
of_bytes (suc k) [] = 0
of_bytes (suc k) (b ∷ bs) = b + 256 * of_bytes k bs

-- The memory of an event: the 64-bit field is aligned, and `padding` is what stands before it.
abbrev pub event_bytes : List ℕ → Event → List ℕ
event_bytes padding e =
    le_bytes 2 e.source ++ (le_bytes 2 e.value ++ (take 4 padding ++ le_bytes 8 e.timestamp))

abbrev pub event_of : List ℕ → Event
event_of bs = record {
  source = of_bytes 2 bs;
  value = of_bytes 2 (drop 2 bs);
  timestamp = of_bytes 8 (drop 8 bs);
}

-- `MicroBitRadio::send`
pub send : Bool → FrameBuffer → Status × List Effect
send ble f =
    if ble
    then (Status.not_supported, [])
    else if ltb (max_packet_size + header_size - 1) f.length_field
    then (Status.invalid_parameter, [])
    else (Status.ok, Effect.sent f ∷ [])

-- The frame that a protocol builds of its payload.
abbrev pub frame_of : ℕ → List ℕ → FrameBuffer
frame_of protocol payload = record {
  length_field = (length payload + header_size - 1) % 256;
  version = 1;
  group = 0;
  protocol = protocol;
  payload = payload;
  rssi = 0;
}

-- `MicroBitRadioDatagram::send`
pub send_datagram : Bool → List ℕ → Status × List Effect
unfolding send
send_datagram ble payload =
    if ltb (max_packet_size + header_size - 1) (length payload)
    then (Status.invalid_parameter, [])
    else send ble (frame_of 1 payload)

-- `MicroBitRadioEvent::eventReceived`
pub event_received : Bool → List ℕ → Event → Radio → List Effect
unfolding send
event_received ble padding e r =
    if r.suppress_forwarding then [] else (send ble (frame_of 2 (event_bytes padding e))).1

-- `MicroBitRadioEvent::packetReceived` of the frame that `recv` took. The event bus calls
-- `eventReceived` at once for an event that is registered.
pub event_packet_received :
    (Event → Bool) → Bool → List ℕ → FrameBuffer → Radio → Radio × List Effect
unfolding event_received
event_packet_received registered ble padding f r =
    let e = event_of f.payload in
    let during = record r { suppress_forwarding = true } in
    (
      record during { suppress_forwarding = false },
      Effect.fired e ∷ (if registered e then event_received ble padding e during else []),
    )

-- An event that the radio makes at the time `stamp`. The event bus calls `eventReceived` at once if
-- the event is registered, and nothing suppresses that.
abbrev pub own_event : ℕ → ℕ → ℕ → Event
own_event stamp source value = record { source = source; value = value; timestamp = stamp }

pub make_event : (Event → Bool) → Bool → List ℕ → ℕ → ℕ → ℕ → Radio → List Effect
unfolding event_received
make_event registered ble padding stamp source value r =
    let e = own_event stamp source value in
    Effect.made source value ∷ (if registered e then event_received ble padding e r else [])

-- `MicroBitRadioDatagram::packetReceived` of the frame that `recv` took.
pub datagram_received :
    (Event → Bool) → Bool → List ℕ → ℕ → FrameBuffer → Radio → Radio × List Effect
unfolding room make_event
datagram_received registered ble padding stamp f r =
    let stored = record r { datagrams = r.datagrams ++ (f ∷ []) } in
    if room r.datagrams
    then (stored, make_event registered ble padding stamp 29 1 stored)
    else (r, [])

-- One round of the loop of `idleTick` at the time `stamp`, for the frame `f` at the head of the
-- queue of `r`; `taken` is the radio behind the `recv` of `f`. For an unknown protocol the event is
-- made while the frame is still queued.
pub handle : (Event → Bool) → Bool → List ℕ → ℕ → FrameBuffer → Radio → Radio → Radio × List Effect
unfolding datagram_received event_packet_received make_event
handle registered ble padding stamp f r taken =
    if f.protocol == 1
    then datagram_received registered ble padding stamp f taken
    else if f.protocol == 2
    then event_packet_received registered ble padding f taken
    else let effects = make_event registered ble padding stamp 30 f.protocol r in (taken, effects)

-- The body of the loop of `idleTick` for the radio `r`, and what `recv` makes of it.
pub handle_taken :
    (Event → Bool) → Bool → List ℕ → ℕ → Option FrameBuffer → Radio → Radio → Radio × List Effect
unfolding handle
handle_taken registered ble padding stamp none r taken = (taken, [])
handle_taken registered ble padding stamp (some f) r taken =
    handle registered ble padding stamp f r taken

pub idle_round : (Event → Bool) → Bool → List ℕ → ℕ → Radio → Radio × List Effect
unfolding recv handle_taken
idle_round registered ble padding stamp r =
    let (taken, f) = recv r in handle_taken registered ble padding stamp f r taken

-- `idleTick`, of at most `fuel` rounds; `clock n` is the time of the round before the last `n`.
pub idle_tick : ℕ → (Event → Bool) → Bool → List ℕ → (ℕ → ℕ) → Radio → Radio × List Effect
unfolding idle_round
idle_tick zero registered ble padding clock r = (r, [])
idle_tick (suc fuel) registered ble padding clock r =
    let (r', effects) = idle_round registered ble padding (clock fuel) r in
    let (r'', later) = idle_tick fuel registered ble padding clock r' in (r'', effects ++ later)

-- What `recv` of a datagram returns; a length field below 3 makes the size of its copy negative.
pub data Received : Type 0 where
  invalid : Received
  overrun : Received
  bytes : List ℕ → Received

-- `MicroBitRadioDatagram::recv` into a buffer of `n` bytes.
pub recv_datagram : ℕ → Radio → Radio × Received
recv_datagram n r = elim r.datagrams [
  | [] ↦ (r, Received.invalid)
  | f ∷ fs ↦ (
    record r { datagrams = fs },
    if ltb f.length_field (header_size - 1)
        then Received.overrun
        else Received.bytes (take (min n (f.length_field - (header_size - 1))) f.payload),
  )
]

-- `MicroBitRadioDatagram::recv` into a PacketBuffer.
pub recv_packet : Radio → Radio × Option FrameBuffer
recv_packet r = elim r.datagrams [ [] ↦ (r, none) | f ∷ fs ↦ (record r { datagrams = fs }, some f) ]

-- `setFrequencyBand`: the channel that the hardware is set to.
pub set_frequency_band : Bool → ℕ → Status × Option ℕ
set_frequency_band ble band =
    if ble
    then (Status.not_supported, none)
    else if ltb 100 band
    then (Status.invalid_parameter, none)
    else (Status.ok, some band)

pub set_group : Bool → ℕ → Radio → Radio × Status
set_group ble group r =
    if ble then (r, Status.not_supported) else (record r { group = group }, Status.ok)

-- `enable` and `disable`, without the set-up of the hardware.
pub enable : Bool → Bool → Radio → Radio × Status
enable ble memory r =
    if r.initialised
    then (r, Status.ok)
    else if ble
    then (r, Status.not_supported)
    else elim r.rx_buf [
      | some f ↦ (record r { initialised = true }, Status.ok)
      | none ↦
          if memory
          then (record r { rx_buf = some blank_frame; initialised = true }, Status.ok)
          else (r, Status.no_resources)
    ]

pub disable : Bool → Radio → Radio × Status
disable ble r =
    if ble
    then (r, Status.not_supported)
    else if not r.initialised
    then (r, Status.ok)
    else (record r { initialised = false }, Status.ok)
