-- ===== src/Ingestion/RingBuf/Steps.antt =====
-- internal/ingestion/ringbuf.go: `Push` and `Pop` of two goroutines, an access to the shared memory at a
-- time. The loads and stores of the counters are sequentially consistent, and order the accesses to the
-- slots.
pub mod Knows
pub mod Invariant
pub mod Runs
mod Tests
use Prim.Native.Nat.{bit_and}
use bbdb.Base.{ℕ, ◌≡◌, ◌≤◌, ◌<◌, List, [], ◌∷◌, ◌++◌, length, get_or, set, ltb, true, false, ◌==◌}
use bbdb.Block.Event.{Event, zero_event}
use bbdb.Ingestion.RingBuf.{RingBuf, sub_u64, next}

-- Where the producer stands in `Push`, with the local variables that are live there.
pub data Producer : Type 0 where
  away : Producer  -- outside of `Push`
  turning : Event → Producer  -- head of the loop
  with_head : Event → ℕ → Producer
  with_tail : Event → ℕ → ℕ → Producer  -- before the test
  storing : Event → ℕ → Producer  -- the test was true
  stored : Event → ℕ → Producer  -- before the store of the head
  full : Event → Producer  -- before the look at the context

-- Where the consumer stands in `Pop`.
pub data Consumer : Type 0 where
  away : Consumer
  calling : Consumer
  with_head : ℕ → Consumer
  with_tail : ℕ → ℕ → Consumer  -- before the test
  reading : ℕ → Consumer  -- the test was false
  holding : Event → ℕ → Consumer  -- before the store of the tail

-- The ring and the two goroutines, with the events that `Push` has accepted and that `Pop` has returned.
pub record System : Type 0 where
  pub ring : RingBuf
  pub producer : Producer
  pub consumer : Consumer
  pub accepted : List Event
  pub returned : List Event

-- One access of one of the two.
pub data Step (s : System) : System → Type 0 where
  call_push : (e : Event) → s.producer ≡ Producer.away → Step s (record s { producer = turning e })
  load_head :
      (e : Event)
      → s.producer ≡ turning e
      → Step s (record s { producer = Producer.with_head e s.ring.head })
  load_tail :
      (e : Event) (h : ℕ)
      → s.producer ≡ Producer.with_head e h
      → Step s (record s { producer = Producer.with_tail e h s.ring.tail })
  has_room :
      (e : Event) (h t : ℕ)
      → s.producer ≡ Producer.with_tail e h t
      → ltb (sub_u64 h t) (length s.ring.buf) ≡ true
      → Step s (record s { producer = storing e h })
  found_full :
      (e : Event) (h t : ℕ)
      → s.producer ≡ Producer.with_tail e h t
      → ltb (sub_u64 h t) (length s.ring.buf) ≡ false
      → Step s (record s { producer = full e })
  store_slot :
      (e : Event) (h : ℕ)
      → s.producer ≡ storing e h
      → Step s (record s {
        producer = stored e h;
        ring = record s.ring { buf = set s.ring.buf (bit_and h s.ring.mask) e };
      })
  store_head :
      (e : Event) (h : ℕ)
      → s.producer ≡ stored e h
      → Step s (record s {
        producer = Producer.away;
        ring = record s.ring { head = next h };
        accepted = s.accepted ++ e ∷ [];
      })
  again : (e : Event) → s.producer ≡ full e → Step s (record s { producer = turning e })
  stop : (e : Event) → s.producer ≡ full e → Step s (record s { producer = Producer.away })
  call_pop : s.consumer ≡ Consumer.away → Step s (record s { consumer = calling })
  pop_head : s.consumer ≡ calling → Step s (record s { consumer = Consumer.with_head s.ring.head })
  pop_tail :
      (h : ℕ)
      → s.consumer ≡ Consumer.with_head h
      → Step s (record s { consumer = Consumer.with_tail h s.ring.tail })
  pop_nothing :
      (h t : ℕ)
      → s.consumer ≡ Consumer.with_tail h t
      → t == h ≡ true
      → Step s (record s { consumer = Consumer.away })
  pop_something :
      (h t : ℕ)
      → s.consumer ≡ Consumer.with_tail h t
      → t == h ≡ false
      → Step s (record s { consumer = reading t })
  read_slot :
      (t : ℕ)
      → s.consumer ≡ reading t
      → Step s
          (record s { consumer = holding (get_or s.ring.buf (bit_and t s.ring.mask) zero_event) t })
  store_tail :
      (e : Event) (t : ℕ)
      → s.consumer ≡ holding e t
      → Step s (record s {
        consumer = Consumer.away;
        ring = record s.ring { tail = next t };
        returned = s.returned ++ e ∷ [];
      })

-- A ring that nobody uses yet.
abbrev pub at_rest : RingBuf → System
at_rest ring = record {
  ring = ring;
  producer = Producer.away;
  consumer = Consumer.away;
  accepted = [];
  returned = [];
}

pub data Steps (s : System) : System → Type 0 where
  here : Steps s s
  more : {t u : System} → Steps s t → Step t u → Steps s u
