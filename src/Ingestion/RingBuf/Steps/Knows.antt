-- ===== src/Ingestion/RingBuf/Steps/Knows.antt =====
-- What the producer and the consumer of a ring know, and what a write, a new head and a new tail do to it.
use Prim.Native.Nat.{bit_and}
use bbdb.Base.{
  ℕ, suc, ◌+◌, ◌%◌, ◌^◌, ◌≤◌, ◌<◌, ◌≡◌, refl, sym, ap, ◌∙◌, [], ◌∷◌, ◌++◌, arith, get_or, set,
  length-set, get_or-set_self, get_or-set_ne,
}
use bbdb.Block.Event.{Event, zero_event}
use bbdb.Ingestion.RingBuf.{RingBuf, sub_u64, next}
use bbdb.Ingestion.RingBuf.Fifo.{
  IsRing, contents, items, items-snoc, items-set, slot-ne, slot_lt, pow_bound,
}
use bbdb.Ingestion.RingBuf.Steps.{
  Producer, turning, storing, stored, full, Consumer, calling, reading, holding, System,
}

abbrev pub used_of : RingBuf → ℕ
used_of rb = sub_u64 rb.head rb.tail

-- What the producer knows: the head is its own, and the tail that it has seen may have moved on.
abbrev pub ProducerKnows : ℕ → RingBuf → Producer → Type 0
ProducerKnows k rb Producer.away = Unit {0}
ProducerKnows k rb (turning e) = Unit {0}
ProducerKnows k rb (Producer.with_head e h) = h ≡ rb.head
ProducerKnows k rb (Producer.with_tail e h t) =
    (h ≡ rb.head) × (used_of rb ≤ sub_u64 h t) × (sub_u64 h t ≤ 2 ^ k)
ProducerKnows k rb (storing e h) = (h ≡ rb.head) × (used_of rb < 2 ^ k)
ProducerKnows k rb (stored e h) =
    (h ≡ rb.head) × (used_of rb < 2 ^ k) × (get_or rb.buf (bit_and rb.head rb.mask) zero_event ≡ e)
ProducerKnows k rb (full e) = Unit {0}

-- What the consumer knows: the tail is its own, and the head that it has seen may have moved on.
abbrev pub ConsumerKnows : RingBuf → Consumer → Type 0
ConsumerKnows rb Consumer.away = Unit {0}
ConsumerKnows rb calling = Unit {0}
ConsumerKnows rb (Consumer.with_head h) = (h < 2 ^ 64) × (sub_u64 h rb.tail ≤ used_of rb)
ConsumerKnows rb (Consumer.with_tail h t) =
    (t ≡ rb.tail) × (h < 2 ^ 64) × (sub_u64 h rb.tail ≤ used_of rb)
ConsumerKnows rb (reading t) = (t ≡ rb.tail) × (0 < used_of rb)
ConsumerKnows rb (holding e t) =
    (t ≡ rb.tail) × (0 < used_of rb) × (e ≡ get_or rb.buf (bit_and rb.tail rb.mask) zero_event)

-- The events that the ring had at first and those accepted since are, in this order, those returned and
-- those that the ring holds.
pub record IsFifo (k : ℕ) (start : RingBuf) (s : System) : Type 0 where
  pub ring : IsRing k s.ring
  pub producer : ProducerKnows k s.ring s.producer
  pub consumer : ConsumerKnows s.ring s.consumer
  pub history : contents start ++ s.accepted ≡ s.returned ++ contents s.ring

-- The producer writes a slot that is not in use.
module _ (k : ℕ) (rb : RingBuf) (v : IsRing k rb) (e : Event) (room : used_of rb < 2 ^ k) where
  abbrev pub written : RingBuf
  written = record rb { buf = set rb.buf (bit_and rb.head rb.mask) e }

  pub written-IsRing : IsRing k written
  written-IsRing = record {
    bits = v.bits;
    size = length-set rb.buf (bit_and rb.head rb.mask) e ∙ v.size;
    mask = v.mask;
    head = v.head;
    tail = v.tail;
    used = v.used;
  }

  ahead : rb.head ≡ (rb.tail + used_of rb) % 2 ^ 64
  ahead = omega (arith, v.head, v.tail)

  pub contents-written : contents written ≡ contents rb
  contents-written = rw v.mask (
      items-set k v.bits rb.buf e rb.head (used_of rb) (used_of rb) rb.tail (omega arith) room
        ahead)

  pub written-slot : get_or written.buf (bit_and rb.head rb.mask) zero_event ≡ e
  written-slot =
      get_or-set_self rb.buf (bit_and rb.head rb.mask) e zero_event
        (rw (v.mask, v.size) (slot_lt k v.bits rb.head))

  pub written-ConsumerKnows : (c : Consumer) → ConsumerKnows rb c → ConsumerKnows written c
  written-ConsumerKnows Consumer.away h = h
  written-ConsumerKnows calling h = h
  written-ConsumerKnows (Consumer.with_head x) h = h
  written-ConsumerKnows (Consumer.with_tail x t) h = h
  written-ConsumerKnows (reading t) h = h
  written-ConsumerKnows (holding x t) (same, some_used, held) = (
    same,
    some_used,
    held
        ∙ sym (
            get_or-set_ne rb.buf e zero_event
              (rw v.mask (slot-ne k v.bits rb.tail (used_of rb) rb.head some_used room ahead))),
  )

-- The producer moves the head over the slot that it has written.
module _ (k : ℕ) (rb : RingBuf) (v : IsRing k rb) (e : Event) (room : used_of rb < 2 ^ k)
    (slot : get_or rb.buf (bit_and rb.head rb.mask) zero_event ≡ e) where
  abbrev pub grown : RingBuf
  grown = record rb { head = next rb.head }

  pub used_of-grown : used_of grown ≡ suc (used_of rb)
  used_of-grown = omega (arith, v.head, v.tail, pow_bound k v.bits)

  pub grown-IsRing : IsRing k grown
  grown-IsRing = record {
    bits = v.bits;
    size = v.size;
    mask = v.mask;
    head = omega arith;
    tail = v.tail;
    used = omega (arith, used_of-grown);
  }

  pub contents-grown : contents grown ≡ contents rb ++ e ∷ []
  contents-grown =
      ap (λ n. items rb.buf rb.mask n rb.tail) used_of-grown
      ∙ items-snoc rb.buf rb.mask (used_of rb) rb.tail v.tail
      ∙ rw (at_head, slot) refl
    where
      at_head : (rb.tail + used_of rb) % 2 ^ 64 ≡ rb.head
      at_head = omega (arith, v.head, v.tail)

  pub grown-ConsumerKnows : (c : Consumer) → ConsumerKnows rb c → ConsumerKnows grown c
  grown-ConsumerKnows Consumer.away h = h
  grown-ConsumerKnows calling h = h
  grown-ConsumerKnows (Consumer.with_head x) h = (h.0, omega (arith, used_of-grown, h.1))
  grown-ConsumerKnows (Consumer.with_tail x t) h = (h.0, h.1, omega (arith, used_of-grown, h.2))
  grown-ConsumerKnows (reading t) h = (h.0, omega (arith, used_of-grown))
  grown-ConsumerKnows (holding x t) h = (h.0, omega (arith, used_of-grown), h.2)

-- The consumer moves the tail over the slot that it has read.
module _ (k : ℕ) (rb : RingBuf) (v : IsRing k rb) (some_used : 0 < used_of rb) where
  abbrev pub shrunk : RingBuf
  shrunk = record rb { tail = next rb.tail }

  pub used_of-shrunk : used_of rb ≡ suc (used_of shrunk)
  used_of-shrunk = omega (arith, v.head, v.tail)

  pub shrunk-IsRing : IsRing k shrunk
  shrunk-IsRing = record {
    bits = v.bits;
    size = v.size;
    mask = v.mask;
    head = v.head;
    tail = omega arith;
    used = omega (arith, used_of-shrunk, v.used);
  }

  pub contents-shrunk :
      contents rb ≡ get_or rb.buf (bit_and rb.tail rb.mask) zero_event ∷ contents shrunk
  contents-shrunk = ap (λ n. items rb.buf rb.mask n rb.tail) used_of-shrunk

  pub shrunk-ProducerKnows : (p : Producer) → ProducerKnows k rb p → ProducerKnows k shrunk p
  shrunk-ProducerKnows Producer.away h = h
  shrunk-ProducerKnows (turning x) h = h
  shrunk-ProducerKnows (Producer.with_head x y) h = h
  shrunk-ProducerKnows (Producer.with_tail x y t) h = (h.0, omega (arith, used_of-shrunk, h.1), h.2)
  shrunk-ProducerKnows (storing x y) h = (h.0, omega (arith, used_of-shrunk, h.1))
  shrunk-ProducerKnows (stored x y) h = (h.0, omega (arith, used_of-shrunk, h.1), h.2)
  shrunk-ProducerKnows (full x) h = h
