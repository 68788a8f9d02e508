-- ===== src/PacketBuffer/Tests.antt =====
-- The theorem on packets at a concrete heap.
use microbit_dal.Prelude.{
  ℕ, ◌≡◌, refl, inl, inr, none, some, [], ◌∷◌, arith, ◌==◌, if◌then◌else◌, Bool-cases,
}
use microbit_dal.RefCounted.{State, Object}
use microbit_dal.RefCounted.Counts.{Counted, count}
use microbit_dal.PacketBuffer.{Packet, ok, set_byte}
use microbit_dal.PacketBuffer.Sharing.{Written, set_byte-Written}

abbrev packet : Object Packet
packet = record { ref_count = 5; payload = record { rssi = 0; length = 2; payload = λ k. 9 } }

-- One packet at 3, with two handles.
abbrev packet_heap : State Packet
packet_heap = record { memory = λ p. if p == 3 then some packet else none; handles = 3 ∷ 3 ∷ [] }

packet_heap-IsValid : (p : ℕ) → Counted (packet_heap.memory p) (count p packet_heap.handles)
packet_heap-IsValid p = elim (Bool-cases (p == 3)) [
  | inl here ↦ rw here (inr (omega arith, refl))
  | inr other ↦ rw other refl
]

set_byte-Written_example :
    (s' : State Packet) × (set_byte 0 1 77 packet_heap ≡ some (s', ok))
    × Written 3 1 77 packet_heap s'
set_byte-Written_example =
    set_byte-Written 0 3 1 77 packet packet_heap packet_heap-IsValid refl refl (omega arith)
