-- ===== src/Serial/Tests.antt =====
-- A serial port at work, and the theorems about it at concrete states.
use microbit_dal.Prelude.{◌+◌, ◌≡◌, refl, true, false, some, [], ◌∷◌, arith, ℕ, List, ◌++◌}
use microbit_dal.RingBuffer.{Ring, buffered_size}
use microbit_dal.RingBuffer.Contents.{IsValid, contents}
use microbit_dal.Serial.{read, Serial, sync_spinwait, count, new_serial, buffer_size}
use microbit_dal.Serial.Receive
use microbit_dal.Serial.Receive.{arriving, Receives, Drains}
use microbit_dal.Serial.Port.{send}
use microbit_dal.Serial.Port.Transmit.{send-in_order, read-send}

-- Four slots of use: 13, 14, 10 are in the buffer, and it wraps.
abbrev wrapped : Ring
wrapped = record { buff = λ i. i + 10; size = 5; head = 1; tail = 3 }

abbrev empty_ring : Ring
empty_ring = record { buff = λ i. 0; size = 5; head = 2; tail = 2 }

abbrev port : Serial
port = record (new_serial 4 4) {
  rx = wrapped;
  tx = wrapped;
  rx_buff_init = true;
  tx_buff_init = true;
}

abbrev idle_port : Serial
idle_port = record (new_serial 4 4) {
  rx = empty_ring;
  tx = empty_ring;
  rx_buff_init = true;
  tx_buff_init = true;
}

-- Three bytes at once, none for a while, then two.
abbrev bursts : List (List ℕ)
bursts = (1 ∷ 2 ∷ 3 ∷ []) ∷ [] ∷ (4 ∷ 5 ∷ []) ∷ []

wrapped-IsValid : IsValid wrapped
wrapped-IsValid = record { head_in = omega arith; tail_in = omega arith }

empty_ring-IsValid : IsValid empty_ring
empty_ring-IsValid = record { head_in = omega arith; tail_in = omega arith }

port-Ready : Receive.Ready port
port-Ready = record { valid = wrapped-IsValid; on = refl; room = omega arith }

send-in_order_example :
    (s' : Serial) × (send true 4 (λ k. 5) sync_spinwait (1 ∷ 2 ∷ []) port
      ≡ some (s', 13 ∷ 14 ∷ 10 ∷ 1 ∷ 2 ∷ [], count 2))
    × (contents s'.tx ≡ [])
    × (s'.tx_in_use ≡ false)
unfolding buffered_size new_serial
send-in_order_example =
    send-in_order true 4 (λ k. 5) (1 ∷ 2 ∷ []) port
      (record { valid = wrapped-IsValid; on = refl; room = omega arith }) refl (λ k. omega arith)
      (omega arith) (omega arith)

read-send_example :
    (s' r' : Serial) × (left : List (List ℕ)) × (send true 8
        (λ k. 5)
        sync_spinwait
        (1 ∷ 2 ∷ 3 ∷ 4 ∷ 5 ∷ [])
        idle_port
      ≡ some (s', 1 ∷ 2 ∷ 3 ∷ 4 ∷ 5 ∷ [], count 5))
    × (read true sync_spinwait 5 bursts idle_port
        ≡ some (r', left, 1 ∷ 2 ∷ 3 ∷ 4 ∷ 5 ∷ [], count 5))
    × (contents r'.rx ++ arriving left ≡ [])
unfolding buffered_size new_serial
read-send_example =
    read-send true 8 (λ k. 5) (1 ∷ 2 ∷ 3 ∷ 4 ∷ 5 ∷ []) bursts idle_port idle_port
      (record { valid = empty_ring-IsValid; on = refl; room = omega arith })
      (record { valid = empty_ring-IsValid; on = refl; room = omega arith }) refl refl refl refl
      (λ k. omega arith) (omega arith) (omega arith) refl
      (omega arith, (omega arith, (omega arith, tt)))

-- A buffer of 255 bytes gets the size 0.
size_wraps : buffer_size 255 ≡ 0
size_wraps = refl
