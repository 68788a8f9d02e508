-- ===== src/Radio/Link.antt =====
-- What one radio sends, another one that receives it delivers; and what `idleTick` leaves.
use microbit_dal.Prelude.{
  ℕ, zero, suc, ◌+◌, ◌-◌, ◌*◌, ◌/◌, ◌%◌, ◌≤◌, ◌<◌, ◌≡◌, refl, sym, ap, ◌∙◌, Bool, true, false, List,
  [], ◌∷◌, ◌++◌, ltb, if◌then◌else◌, length, take, drop, min, arith, append-nil, length-append,
  length-take, if-both, ◌⊎◌, some,
}
use microbit_dal.Radio.{
  blank_frame, make_event, own_event, Status, FrameBuffer, Event, Radio, Effect, arrive,
  irq_handler, set_rssi, queue_rx_buf, queue_frame, rssi_byte, recv, room, datagram_received,
  event_received, event_packet_received, handle, idle_round, handle_taken, recv_queue, idle_tick,
  recv_datagram, Received, send, send_datagram, le_bytes, of_bytes, event_bytes, event_of, frame_of,
}
use microbit_dal.Radio.Order.{datagrams_of}

abbrev pub sends : List Effect → List FrameBuffer
sends [] = []
sends (Effect.sent f ∷ es) = f ∷ sends es
sends (Effect.made i v ∷ es) = sends es
sends (Effect.fired e ∷ es) = sends es

module _ {ℓ} {A : Type ℓ} where
  take-short : (n : ℕ) (xs : List A) → length xs ≤ n → take n xs ≡ xs
  take-short zero [] h = refl
  take-short zero (x ∷ xs) h = absurd (omega arith)
  take-short (suc n) [] h = refl
  take-short (suc n) (x ∷ xs) h = ap (λ ys. x ∷ ys) (take-short n xs (omega arith))

-- Each of the frames is that of an event which the radio makes itself, DATAGRAM or DATA_READY.
abbrev pub AllOwn : List ℕ → List FrameBuffer → Type 0
AllOwn padding [] = zero ≡ zero
AllOwn padding (f ∷ fs) =
    ((stamp source value : ℕ) × (((source ≡ 29) ⊎ (source ≡ 30))
        × (f ≡ frame_of 2 (event_bytes padding (own_event stamp source value)))))
    × AllOwn padding fs

-- What the handling of a frame leaves: the queue, the datagrams that fit, and no frame sent but those
-- of the radio's own events.
abbrev Handled : List ℕ → FrameBuffer → Radio → Radio × List Effect → Type 0
Handled padding f r (r', effects) =
    (r'.rx_queue ≡ r.rx_queue)
    × (r'.datagrams ≡ take 5 (r.datagrams ++ datagrams_of (f ∷ [])))
    × AllOwn padding (sends effects)

pub room-true : (fs : List FrameBuffer) → room fs ≡ true → length fs ≤ 4
unfolding room
room-true [] e = omega arith
room-true (f ∷ fs) e = ground arith

-- What `idleTick` leaves.
abbrev pub Emptied : List ℕ → List FrameBuffer → Radio → Radio × List Effect → Type 0
Emptied padding q r (r', effects) =
    (r'.rx_queue ≡ [])
    × (r'.datagrams ≡ take 5 (r.datagrams ++ datagrams_of q))
    × AllOwn padding (sends effects)

module _ (registered : Event → Bool) (ble : Bool) (padding : List ℕ) where
  -- `idleTick` of a radio whose queue is `q`.
  abbrev after : ℕ → (ℕ → ℕ) → List FrameBuffer → Radio → Radio × List Effect
  after fuel clock q r =
      let (r1, taken) = recv_queue q r in
      let (r2, effects) = handle_taken registered ble padding (clock fuel) taken r r1 in
      let (r3, later) = idle_tick fuel registered ble padding clock r2 in (r3, effects ++ later)

-- Numbers below 256 to the power of `k`.
abbrev pub bound : ℕ → ℕ
bound zero = 1
bound (suc k) = 256 * bound k

of_bytes-le_bytes : (k n : ℕ) (rest : List ℕ) → n < bound k → of_bytes k (le_bytes k n ++ rest) ≡ n
of_bytes-le_bytes zero n rest h = omega arith
of_bytes-le_bytes (suc k) n rest h =
    let later = of_bytes-le_bytes k (n / 256) rest (omega arith) in omega arith

-- The events that fit their fields.
abbrev pub Fits : Event → Type 0
Fits e = (e.source < bound 2) × (e.value < bound 2) × (e.timestamp < bound 8)

drop-append {ℓ} : {A : Type ℓ} (n : ℕ) (xs ys : List A) → length xs ≡ n → drop n (xs ++ ys) ≡ ys
drop-append zero [] ys h = refl
drop-append zero (x ∷ xs) ys h = absurd (omega arith)
drop-append (suc n) [] ys h = absurd (omega arith)
drop-append (suc n) (x ∷ xs) ys h = drop-append n xs ys (omega arith)

event_of-event_bytes :
    (padding : List ℕ) (e : Event)
    → length padding ≡ 4
    → Fits e
    → event_of (event_bytes padding e) ≡ e
event_of-event_bytes padding e h (s, v, t) =
    let stamp = le_bytes 8 e.timestamp in
    let rest = take 4 padding ++ stamp in
    let four : length (take 4 padding) ≡ 4 = (let cut = length-take 4 padding in omega arith) in
    let source = of_bytes-le_bytes 2 e.source (le_bytes 2 e.value ++ rest) s in
    let value = of_bytes-le_bytes 2 e.value rest v in
    let timestamp : of_bytes 8 (drop 4 rest) ≡ e.timestamp =
      ap (of_bytes 8) (drop-append 4 (take 4 padding) stamp four ∙ sym (append-nil stamp))
      ∙ of_bytes-le_bytes 8 e.timestamp [] t in
    λ i. record { source = source i; value = value i; timestamp = timestamp i }

-- A radio that is on, with nothing queued.
abbrev pub listening : Radio → Radio
listening r = record r {
  initialised = true;
  queue_depth = 0;
  rx_queue = [];
  datagrams = [];
  suppress_forwarding = false;
}

-- The effects and the next datagram of a radio that a frame has reached.
abbrev pub delivered :
    (Event → Bool) → List ℕ → ℕ → ℕ → ℕ → FrameBuffer → Radio → List Effect × Received
delivered registered padding stamp n sample f r =
    let (r', effects) =
      idle_tick 1 registered false padding (λ k. stamp) (arrive f true sample true r) in
    (effects, (recv_datagram n r').1)

send_small :
    (f : FrameBuffer) → f.length_field ≤ 35 → send false f ≡ (Status.ok, Effect.sent f ∷ [])
unfolding send
send_small f h =
    let small : ltb 35 f.length_field ≡ false = ground arith in
    ap (λ b. if b then (Status.invalid_parameter, []) else (Status.ok, Effect.sent f ∷ [])) small

-- What making an event does while BLE is off and nothing suppresses forwarding.
abbrev pub announced : (Event → Bool) → List ℕ → Event → List Effect
announced registered padding e =
    Effect.made e.source e.value
    ∷ (if registered e then Effect.sent (frame_of 2 (event_bytes padding e)) ∷ [] else [])

make_event-announced :
    (registered : Event → Bool) (padding : List ℕ) (stamp source value : ℕ) (r : Radio)
    → r.suppress_forwarding ≡ false
    → make_event registered false padding stamp source value r
      ≡ announced registered padding (own_event stamp source value)
unfolding make_event event_received
make_event-announced registered padding stamp source value r quiet =
    let e = own_event stamp source value in
    let f = frame_of 2 (event_bytes padding e) in
    let go : Bool → List Effect → List Effect =
      λ b es. Effect.made source value ∷ (if registered e then (if b then [] else es) else []) in
    let small : f.length_field ≤ 35 =
      (let cut = length-take 4 padding in
        let all = length-append (take 4 padding) (le_bytes 8 e.timestamp) in omega arith) in
    ap (λ b. go b (send false f).1) quiet ∙ ap (λ x. go false (x.1)) (send_small f small)

-- The frame `frame_of` makes, with its length as `l`.
abbrev sized : ℕ → ℕ → List ℕ → FrameBuffer
sized protocol l payload = record {
  length_field = l;
  version = 1;
  group = 0;
  protocol = protocol;
  payload = payload;
  rssi = 0;
}

deliver_datagram :
    (registered : Event → Bool) (padding : List ℕ) (stamp l : ℕ) (bs : List ℕ) (n sample : ℕ)
    (r : Radio)
    → 3 ≤ l
    → delivered registered padding stamp n sample (sized 1 l bs) (listening r) ≡ (
      announced registered padding (own_event stamp 29 1),
      Received.bytes (take (min n (l - 3)) bs),
    )
unfolding arrive irq_handler set_rssi queue_rx_buf queue_frame rssi_byte idle_tick idle_round recv
    handle_taken handle datagram_received room recv_datagram
deliver_datagram registered padding stamp l bs n sample r le =
    let long : ltb l 3 ≡ false = ground arith in
    let stored = record (listening r) {
      rssi = sample;
      rx_buf = some blank_frame;
      datagrams = record (sized 1 l bs) { rssi = sample } ∷ [];
    } in
    ap
      (λ b. (
        make_event registered false padding stamp 29 1 stored ++ [],
        if b then Received.overrun else Received.bytes (take (min n (l - 3)) bs),
      ))
      long
    ∙ ap (λ es. (es, Received.bytes (take (min n (l - 3)) bs)))
        (append-nil (make_event registered false padding stamp 29 1 stored)
          ∙ make_event-announced registered padding stamp 29 1 stored refl)

deliver_event :
    (registered : Event → Bool) (padding : List ℕ) (stamp l : ℕ) (bs : List ℕ) (n sample : ℕ)
    (r : Radio)
    → delivered registered padding stamp n sample (sized 2 l bs) (listening r)
      ≡ (Effect.fired (event_of bs) ∷ [], Received.invalid)
unfolding arrive irq_handler set_rssi queue_rx_buf queue_frame rssi_byte idle_tick idle_round recv
    handle_taken handle datagram_received room recv_datagram event_packet_received event_received
deliver_event registered padding stamp l bs n sample r =
    let e = Effect.fired (event_of bs) in
    let got : List Effect → List Effect × Received = λ es. (e ∷ (es ++ []), Received.invalid) in
    if-both (λ es. got es ≡ (e ∷ [], Received.invalid)) (registered (event_of bs)) refl refl

-- At most 29 bytes, sent as a datagram while BLE is off, go out as one frame. A radio that is on and
-- has nothing queued, and that receives this frame, makes the datagram event on the next idle round,
-- sends nothing on it but the frame of that event if it is registered, and `recv` into a buffer that is large enough gives the bytes that were sent.
pub recv-send :
    (registered : Event → Bool) (padding bytes : List ℕ) (stamp n sample : ℕ) (r : Radio)
    → length bytes ≤ 29
    → length bytes ≤ n
    → (send_datagram false bytes ≡ (Status.ok, Effect.sent (frame_of 1 bytes) ∷ []))
      × (delivered registered padding stamp n sample (frame_of 1 bytes) (listening r)
          ≡ (announced registered padding (own_event stamp 29 1), Received.bytes bytes))
unfolding send_datagram
recv-send registered padding bytes stamp n sample r h le =
    let field : (length bytes + 4 - 1) % 256 ≡ length bytes + 3 = omega arith in
    let fits : ltb 35 (length bytes) ≡ false = ground arith in
    let size : min n ((length bytes + 4 - 1) % 256 - 3) ≡ length bytes = omega arith in
    (
      ap (λ b. if b then (Status.invalid_parameter, []) else send false (frame_of 1 bytes)) fits
          ∙ send_small (frame_of 1 bytes) (omega arith),
      deliver_datagram registered padding stamp ((length bytes + 4 - 1) % 256) bytes n sample r
            (omega arith)
          ∙ ap
              (λ k. (
                announced registered padding (own_event stamp 29 1),
                Received.bytes (take k bytes),
              ))
              size
          ∙ ap (λ bs. (announced registered padding (own_event stamp 29 1), Received.bytes bs))
              (take-short (length bytes) bytes (omega arith)),
    )

-- An event whose fields fit their widths, received by a radio that forwards, goes out as one frame
-- while BLE is off. A radio that is on and has nothing queued, and that receives this frame, fires
-- the same event on the next idle round and sends no frame, whether or not it is registered.
pub fired-event_received :
    (registered : Event → Bool) (padding padding' : List ℕ) (e : Event) (stamp n sample : ℕ)
    (s r : Radio)
    → length padding ≡ 4
    → Fits e
    → let f = frame_of 2 (event_bytes padding e) in
      (event_received false padding e (listening s) ≡ Effect.sent f ∷ [])
      × (delivered registered padding' stamp n sample f (listening r)
          ≡ (Effect.fired e ∷ [], Received.invalid))
unfolding event_received
fired-event_received registered padding padding' e stamp n sample s r h fits =
    let payload = event_bytes padding e in
    let f = frame_of 2 payload in
    let size : f.length_field ≤ 35 =
      (let cut = length-take 4 padding in
        let all = length-append (take 4 padding) (le_bytes 8 e.timestamp) in omega arith) in
    (
      ap (λ x. x.1) (send_small f size),
      deliver_event registered padding' stamp f.length_field payload n sample r
          ∙ ap (λ d. (Effect.fired d ∷ [], Received.invalid))
              (event_of-event_bytes padding e h fits),
    )
