-- ===== src/RingBuffer.antt =====
-- The circular buffers of source/drivers/MicroBitSerial.cpp: an array with a head, where bytes come
-- in, and a tail, where they go out. One slot stays empty, so that a full buffer has head and tail
-- apart.
pub mod Contents
use microbit_dal.Prelude.{
  ℕ, zero, suc, ◌+◌, ◌-◌, ◌%◌, Bool, not, Option, none, some, ltb, ◌==◌, if◌then◌else◌, ◌*◌, ◌/◌,
  ◌^◌, ◌≤◌, ◌<◌, ◌≡◌, refl, sym, ap, subst, ◌∙◌, ◌≢◌, ◌↔◌, ◌⊎◌, inl, inr, true, false, ◌&&◌, ◌||◌,
  List, [], ◌∷◌, ◌++◌, map, append-nil, append_assoc, arith, leb, ltb→lt, lt→ltb, leb→le, ==_iff,
  Bool-cases, Option-cases, length,
}
use microbit_dal.Prelude.Bytes.{Bytes, put}

-- `rxBuff`, `rxBuffSize`, `rxBuffHead`, `rxBuffTail`, and the same of `tx`.
pub record Ring : Type 0 where
  pub buff : Bytes
  pub size : ℕ
  pub head : ℕ
  pub tail : ℕ

-- A byte comes in; `none`: the buffer is full.
unfoldable pub push : ℕ → Ring → Option Ring
push c r =
    let new_head = (r.head + 1) % r.size in
    if new_head == r.tail
    then none
    else some (record r { buff = put r.buff r.head c; head = new_head })

-- The byte at the tail goes out.
unfoldable pub pop : Ring → Ring × ℕ
pop r = (record r { tail = (r.tail + 1) % r.size }, r.buff r.tail)

unfoldable pub is_empty : Ring → Bool
is_empty r = r.tail == r.head

unfoldable pub buffered_size : Ring → ℕ
buffered_size r = if ltb r.head r.tail then (r.size - r.tail) + r.head else r.head - r.tail

unfoldable pub reset : Ring → Ring
reset r = record r { head = 0; tail = 0 }
