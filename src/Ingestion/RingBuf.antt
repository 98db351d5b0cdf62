-- ===== src/Ingestion/RingBuf.antt =====
-- internal/ingestion/ringbuf.go: a ring of events between a producer and a consumer. The two
-- counters are words of 64 bits that only grow, and wrap.
pub mod Fifo
pub mod Steps
pub mod Size
use Prim.Native.Nat.{bit_and}
use bbdb.Base.{
  ℕ, zero, suc, ◌+◌, ◌-◌, ◌*◌, ◌%◌, ◌^◌, Bool, true, false, List, [], ◌∷◌, Option, none, some, ltb,
  ◌==◌, if◌then◌else◌, length, get_or, set, replicate,
}
use bbdb.Base.Int.{ℤ, pos, negsuc, ltb_ℤ, of_u64}
use bbdb.Block.Event.{Event, zero_event}

pub record RingBuf : Type 0 where
  pub buf : List Event
  pub mask : ℕ
  pub head : ℕ
  pub tail : ℕ

-- `for p < n { p <<= 1 }` on an int of 64 bits.
unfoldable pub double_until : ℕ → ℕ → ℤ → Option ℕ
double_until zero p n = none
double_until (suc fuel) p n =
    let rest = double_until fuel ((p * 2) % 2 ^ 64) n in if ltb_ℤ (of_u64 p) n then rest else some p

unfoldable pub next_pow2 : ℤ → Option ℕ
unfolding double_until
next_pow2 n = if ltb_ℤ (pos 1) n then double_until 65 1 n else some 1

unfoldable pub new_ring_buf : ℤ → Option RingBuf
unfolding next_pow2
new_ring_buf capacity = elim (next_pow2 capacity) [
  | none ↦ none
  | some size ↦
      some (record { buf = replicate size zero_event; mask = size - 1; head = 0; tail = 0 })
]

-- `uint64` subtraction and the successor of a counter.
abbrev pub sub_u64 : ℕ → ℕ → ℕ
sub_u64 a b = (a + (2 ^ 64 - b)) % 2 ^ 64

abbrev pub next : ℕ → ℕ
next a = (a + 1) % 2 ^ 64

-- One turn of the loop in `Push`, with the answer that the context gives if the ring is full.
pub data Turn : Type 0 where
  pushed : RingBuf → Turn
  stopped : Turn
  again : Turn

unfoldable pub push_turn : RingBuf → Event → Bool → Turn
push_turn rb e done =
    if ltb (sub_u64 rb.head rb.tail) (length rb.buf)
    then pushed (record rb { buf = set rb.buf (bit_and rb.head rb.mask) e; head = next rb.head })
    else (if done then stopped else again)

unfoldable pub pop : RingBuf → Option (Event × RingBuf)
pop rb =
    if rb.tail == rb.head
    then none
    else some
        (get_or rb.buf (bit_and rb.tail rb.mask) zero_event, record rb { tail = next rb.tail })

-- `DrainAll`, with fuel for its loop: `none` where the loop would go on.
unfoldable pub drain_all : ℕ → RingBuf → Option (List Event × RingBuf)
unfolding pop
drain_all zero rb = none
drain_all (suc fuel) rb = elim (pop rb) [
  | none ↦ some ([], rb)
  | some (e, rb') ↦ elim (drain_all fuel rb') [
    | none ↦ none
    | some (es, rb'') ↦ some (e ∷ es, rb'')
  ]
]

-- `int(head - tail)`
abbrev pub len : RingBuf → ℤ
unfolding of_u64
len rb = of_u64 (sub_u64 rb.head rb.tail)
