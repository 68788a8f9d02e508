-- ===== src/Radio/Tests.antt =====
-- Runs of the radio, and the theorems at concrete frames.
use microbit_dal.Prelude.{◌≡◌, refl, List, [], ◌∷◌, arith, ℕ, Bool, true, false, ◌++◌}
use microbit_dal.Radio.{
  own_event, Radio, Event, Status, Effect, Received, new_radio, frame_of, send_datagram,
  event_received, event_bytes,
}
use microbit_dal.Radio.Order.{
  Step, Sublist, run, pending, datagrams_of, arrived, datagrams_in_order,
}
use microbit_dal.Radio.Link.{announced, delivered, listening, recv-send, fired-event_received}
use microbit_dal.Radio.Invariant.{IsValid, radio_run-IsValid}

abbrev on : Radio
on = record new_radio { initialised = true }

abbrev none_registered : Event → Bool
none_registered e = false

abbrev all_registered : Event → Bool
all_registered e = true

abbrev hello : List ℕ
hello = 104 ∷ 105 ∷ []

abbrev zeros : List ℕ
zeros = 0 ∷ 0 ∷ 0 ∷ 0 ∷ []

abbrev traffic : List Step
traffic =
    Step.frame (frame_of 1 hello) true 40 true
    ∷ Step.frame (frame_of 1 (7 ∷ [])) false 41 true
    ∷ Step.frame (frame_of 9 (8 ∷ [])) true 42 true
    ∷ Step.idle 50
    ∷ Step.take_one
    ∷ []

abbrev queued : Radio
queued = record on { rx_queue = frame_of 1 hello ∷ frame_of 2 zeros ∷ []; queue_depth = 2 }

abbrev press : Event
press = record { source = 1; value = 3; timestamp = 70000 }

datagrams_in_order_example :
    let x = run none_registered false zeros traffic on in
    Sublist (x.1 ++ pending (x.0)) (pending on ++ datagrams_of (arrived traffic))
datagrams_in_order_example = datagrams_in_order none_registered false zeros traffic on refl

recv-send_example :
    (send_datagram false hello ≡ (Status.ok, Effect.sent (frame_of 1 hello) ∷ []))
    × (delivered all_registered zeros 90 10 40 (frame_of 1 hello) (listening new_radio)
        ≡ (announced all_registered zeros (own_event 90 29 1), Received.bytes hello))
recv-send_example =
    recv-send all_registered zeros hello 90 10 40 new_radio (omega arith) (omega arith)

fired-event_received_example :
    (event_received false zeros press (listening new_radio)
      ≡ Effect.sent (frame_of 2 (event_bytes zeros press)) ∷ [])
    × (delivered all_registered zeros 90 10 40
          (frame_of 2 (event_bytes zeros press))
          (listening new_radio)
        ≡ (Effect.fired press ∷ [], Received.invalid))
fired-event_received_example =
    fired-event_received all_registered zeros zeros press 90 10 40 new_radio new_radio refl
      (omega arith, omega arith, omega arith)

radio_run-IsValid_example : IsValid (run none_registered false zeros traffic on).0
radio_run-IsValid_example =
    radio_run-IsValid none_registered false zeros traffic on (refl, omega arith, omega arith)
