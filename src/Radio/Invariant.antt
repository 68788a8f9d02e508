-- ===== src/Radio/Invariant.antt =====
-- The bounds of the two queues of the radio, which hold behind every step.
use microbit_dal.Prelude.{
  if-cases, ℕ, suc, ◌+◌, ◌%◌, ◌≤◌, ◌≡◌, refl, ap, Bool, true, false, Option, none, some, List, [],
  ◌∷◌, ◌++◌, leb, ◌==◌, if◌then◌else◌, length, arith, length-append, if-both,
}
use microbit_dal.Radio.{
  make_event, Status, FrameBuffer, Event, Radio, Effect, maximum_rx_buffers, blank_frame, arrive,
  irq_handler, set_rssi, queue_rx_buf, queue_frame, recv, room, datagram_received,
  event_packet_received, handle, idle_round, handle_taken, recv_queue, recv_packet,
}
use microbit_dal.Radio.Order.{Step, step, run}
use microbit_dal.Radio.Link.{room-true}

abbrev pub IsValid : Radio → Type 0
IsValid r =
    (r.queue_depth ≡ length r.rx_queue)
    × (length r.rx_queue ≤ maximum_rx_buffers)
    × (length r.datagrams ≤ 5)

set_rssi-IsValid : (n : ℕ) (r : Radio) → IsValid r → IsValid (set_rssi n r).0
unfolding set_rssi
set_rssi-IsValid n r v = if-both (λ (x : Radio × Status). IsValid (x.0)) r.initialised v v

queue_frame-IsValid :
    (memory : Bool) (r : Radio) (f : FrameBuffer) → IsValid r → IsValid (queue_frame memory r f).0
unfolding queue_frame
queue_frame-IsValid memory r f (d, q, n) =
    let P : Radio × Status → Type 0 = λ x. IsValid (x.0) in
    let marked = record f { rssi = if r.initialised then r.rssi else 22 } in
    let more = length-append r.rx_queue (marked ∷ []) in
    let queued = record r {
      rx_queue = r.rx_queue ++ (marked ∷ []);
      queue_depth = (r.queue_depth + 1) % 256;
      rx_buf = some blank_frame;
    } in
    let refused : Radio × Status = (r, Status.no_resources) in
    let kept : Radio × Status = (record r { rx_buf = some marked }, Status.no_resources) in
    if-cases P (leb maximum_rx_buffers r.queue_depth) refused
      (if memory then (queued, Status.ok) else kept) (λ t. (d, q, n))
      (λ t. if-both P memory (ground arith, ground arith, n) (d, q, n))

buf_case :
    (o : Option FrameBuffer) (memory : Bool) (r : Radio)
    → IsValid r
    → let x : Radio × Status = elim o [
      | none ↦ (r, Status.invalid_parameter)
      | some f ↦ queue_frame memory r f
    ] in
      IsValid (x.0)
buf_case none memory r v = v
buf_case (some f) memory r v = queue_frame-IsValid memory r f v

store_case :
    (f : FrameBuffer) (r : Radio) (es : List Effect)
    → IsValid r
    → let stored : Radio = record r { datagrams = r.datagrams ++ (f ∷ []) } in
      let x : Radio × List Effect = if room r.datagrams then (stored, es) else (r, []) in
      IsValid (x.0)
store_case f r es (d, q, n) =
    let P : Radio × List Effect → Type 0 = λ x. IsValid (x.0) in
    let more = length-append r.datagrams (f ∷ []) in
    if-cases P (room r.datagrams) (record r { datagrams = r.datagrams ++ (f ∷ []) }, es) (r, [])
      (λ t. let few = room-true r.datagrams t in (d, q, omega arith)) (λ t. (d, q, n))

take_case :
    (ds : List FrameBuffer) (r : Radio)
    → IsValid r
    → length ds ≤ 5
    → let x : Radio × Option FrameBuffer = elim ds [
      | [] ↦ (r, none)
      | f ∷ fs ↦ (record r { datagrams = fs }, some f)
    ] in
      IsValid (x.0)
take_case [] r v h = v
take_case (f ∷ fs) r (d, q, n) h = (d, q, omega arith)

module _ (registered : Event → Bool) (ble : Bool) (padding : List ℕ) where
  handle-IsValid :
      (stamp : ℕ) (f : FrameBuffer) (whole r : Radio)
      → IsValid r
      → IsValid (handle registered ble padding stamp f whole r).0
  unfolding handle datagram_received event_packet_received
  handle-IsValid stamp f whole r v =
      let stored = record r { datagrams = r.datagrams ++ (f ∷ []) } in
      let es = make_event registered ble padding stamp 29 1 stored in
      let P : Radio × List Effect → Type 0 = λ x. IsValid (x.0) in
      if-both P (f.protocol == 1) (store_case f r es v) (if-both P (f.protocol == 2) v v)

  round-IsValid :
      (stamp : ℕ) (queue : List FrameBuffer) (r : Radio)
      → IsValid r
      → r.rx_queue ≡ queue
      → let (r', taken) = recv_queue queue r in
        IsValid (handle_taken registered ble padding stamp taken r r').0
  unfolding handle_taken
  round-IsValid stamp [] r v e = v
  round-IsValid stamp (f ∷ fs) r (d, q, n) e =
      let size : length r.rx_queue ≡ suc (length fs) = ap length e in
      handle-IsValid stamp f r
        (record r { rx_queue = fs; queue_depth = (r.queue_depth + 255) % 256 })
        (omega arith, omega arith, n)

  step-IsValid : (s : Step) (r : Radio) → IsValid r → IsValid (step registered ble padding s r).0
  unfolding arrive irq_handler queue_rx_buf idle_round recv recv_packet
  step-IsValid (Step.frame f true sample memory) r v =
      let r' = (set_rssi sample (record r { rx_buf = some f })).0 in
      buf_case r'.rx_buf memory r' (set_rssi-IsValid sample (record r { rx_buf = some f }) v)
  step-IsValid (Step.frame f false sample memory) r v =
      set_rssi-IsValid 0 (record r { rx_buf = some f }) v
  step-IsValid (Step.idle stamp) r v = round-IsValid stamp r.rx_queue r v refl
  step-IsValid Step.take_one r v = let (d, q, n) = v in take_case r.datagrams r v n

  -- Every run keeps the count of the queued frames right, the queued frames at most four, and the
  -- waiting datagrams at most five.
  pub radio_run-IsValid :
      (ss : List Step) (r : Radio) → IsValid r → IsValid (run registered ble padding ss r).0
  radio_run-IsValid [] r v = v
  radio_run-IsValid (s ∷ ss) r v =
      radio_run-IsValid ss (step registered ble padding s r).0 (step-IsValid s r v)
