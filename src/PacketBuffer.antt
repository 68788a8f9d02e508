-- ===== src/PacketBuffer.antt =====
-- source/types/PacketBuffer.cpp: a packet is a handle on a counted object, whose payload can be
-- written. Positions are not negative.
pub mod Sharing
mod Tests
use microbit_dal.Prelude.{
  get_elem?, ℕ, zero, suc, ◌+◌, ◌-◌, ◌*◌, ◌/◌, ◌%◌, ◌^◌, ◌≤◌, ◌<◌, ◌≡◌, refl, sym, ap, subst, ◌∙◌,
  ◌≢◌, ◌↔◌, ◌⊎◌, inl, inr, Bool, true, false, not, ◌&&◌, ◌||◌, Option, none, some, List, [], ◌∷◌,
  ◌++◌, map, append-nil, append_assoc, arith, ltb, leb, ◌==◌, if◌then◌else◌, ltb→lt, lt→ltb, leb→le,
  ==_iff, Bool-cases, Option-cases, length,
}
use microbit_dal.Prelude.Int.{is_zero, ℤ, pos_part}
use microbit_dal.Prelude.Bytes.{Bytes, put}
use microbit_dal.RefCounted.{State, Object, construct, store, ◌>>=◌}

-- `PacketData`; the bytes from `length` on are not the packet's.
pub record Packet : Type 0 where
  pub rssi : ℕ
  pub length : ℕ
  pub payload : Bytes

pub data Status : Type 0 where
  ok invalid_parameter : Status

-- What `init` copies into the memory that holds `fresh`.
abbrev pub filled : ℕ → Bytes → Option Bytes → Bytes
filled n fresh none k = fresh k
filled n fresh (some b) k = if ltb k n then b k else fresh k

-- `init`, at the address `p` that `malloc` returns; `fresh` is what the memory holds there.
pub init : ℕ → Bytes → Option Bytes → ℤ → ℕ → State Packet → State Packet
init p fresh source n rssi s =
    let size = pos_part n in
    let bytes = filled (pos_part n) fresh source in
    construct p (record { rssi = rssi % 2 ^ 16; length = size % 2 ^ 8; payload = bytes }) s

-- `setByte`
pub set_byte : ℕ → ℕ → ℕ → State Packet → Option (State Packet × Status)
set_byte i position v s = do
  a ← get_elem? s.handles i
  o ← s.memory a
  let written = record o.payload { payload = put o.payload.payload position (v % 2 ^ 8) }
  let m = store a (some (record o { payload = written })) s.memory
  some (
      if ltb position o.payload.length
      then (record s { memory = m }, ok)
      else (s, invalid_parameter))

-- `getByte`; `none` inside is MICROBIT_INVALID_PARAMETER.
pub get_byte : ℕ → ℕ → State Packet → Option (Option ℕ)
get_byte i position s = do
  a ← get_elem? s.handles i
  o ← s.memory a
  some (if ltb position o.payload.length then some (o.payload.payload position) else none)

-- `getRSSI` and `setRSSI`
pub get_rssi : ℕ → State Packet → Option ℕ
get_rssi i s = do a ← get_elem? s.handles i; o ← s.memory a; some o.payload.rssi

pub set_rssi : ℕ → ℕ → State Packet → Option (State Packet)
set_rssi i v s = do
  a ← get_elem? s.handles i
  o ← s.memory a
  let marked = record o.payload { rssi = v % 2 ^ 8 }
  some (record s { memory = store a (some (record o { payload = marked })) s.memory })

-- `operator ==`, with the `memcmp` of the C library
pub equals : (Bytes → Bytes → ℕ → ℤ) → ℕ → ℕ → State Packet → Option Bool
equals memcmp i j s = do
  a ← get_elem? s.handles i
  b ← get_elem? s.handles j
  o ← s.memory a
  u ← s.memory b
  let same = memcmp o.payload.payload u.payload.payload o.payload.length
  some (a == b || (o.payload.length == u.payload.length && is_zero same))
