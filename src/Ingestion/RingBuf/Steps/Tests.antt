-- ===== src/Ingestion/RingBuf/Steps/Tests.antt =====
-- A push and a pop whose steps alternate, over a ring whose counters are about to wrap.
use bbdb.Base.{ℕ, ◌-◌, ◌^◌, refl, [], ◌∷◌, arith}
use bbdb.Base.Int.{pos}
use bbdb.Block.Event.{Event}
use bbdb.Ingestion.RingBuf.{RingBuf}
use bbdb.Ingestion.RingBuf.Fifo.{IsRing}
use bbdb.Ingestion.RingBuf.Steps.{
  Producer, Consumer, System, Steps, at_rest, here, more, call_push, load_head, load_tail, has_room,
  store_slot, call_pop, pop_head, pop_tail, pop_something, read_slot, store_tail,
}
use bbdb.Ingestion.RingBuf.Steps.Knows.{IsFifo}
use bbdb.Ingestion.RingBuf.Steps.Invariant.{Steps-IsFifo}

abbrev event : ℕ → Event
event k = record { key_hash = k; timestamp = pos 1; payload = [] }

-- Three of four slots in use; the counter of the next write is 1.
abbrev wrapped : RingBuf
wrapped = record {
  buf = event 30 ∷ event 40 ∷ event 10 ∷ event 20 ∷ [];
  mask = 3;
  head = 1;
  tail = 2 ^ 64 - 2;
}

wrapped-IsRing : IsRing 2 wrapped
wrapped-IsRing = omega arith

-- The pop returns while the slot of the push is written and its head is not stored yet.
abbrev between : System
between = record {
  ring = record {
    buf = event 30 ∷ event 50 ∷ event 10 ∷ event 20 ∷ [];
    mask = 3;
    head = 1;
    tail = 2 ^ 64 - 1;
  };
  producer = Producer.stored (event 50) 1;
  consumer = Consumer.away;
  accepted = [];
  returned = event 10 ∷ [];
}

between-Steps : Steps (at_rest wrapped) between
between-Steps =
    more
      (more
        (more
          (more
            (more
              (more
                (more
                  (more
                    (more (more (more here (call_pop refl)) (call_push (event 50) refl))
                      (pop_head refl))
                    (load_head (event 50) refl))
                  (load_tail (event 50) 1 refl))
                (pop_tail 1 refl))
              (has_room (event 50) 1 (2 ^ 64 - 2) refl refl))
            (pop_something 1 (2 ^ 64 - 2) refl refl))
          (store_slot (event 50) 1 refl))
        (read_slot (2 ^ 64 - 2) refl))
      (store_tail (event 10) (2 ^ 64 - 2) refl)

Steps-IsFifo_example : IsFifo 2 wrapped between
Steps-IsFifo_example = Steps-IsFifo 2 wrapped wrapped-IsRing between-Steps
