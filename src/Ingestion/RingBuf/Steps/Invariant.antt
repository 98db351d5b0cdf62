-- ===== src/Ingestion/RingBuf/Steps/Invariant.antt =====
-- What holds of a ring that a producer and a consumer use at the same time.
use Prim.Native.Nat.{bit_and}
use bbdb.Base.{
  ℕ, refl, sym, ap, ◌∙◌, subst, [], ◌∷◌, ◌++◌, arith, get_or, set, append_assoc, append-nil,
}
use bbdb.Block.Event.{zero_event}
use bbdb.Ingestion.RingBuf.{RingBuf, next}
use bbdb.Ingestion.RingBuf.Fifo.{IsRing, contents}
use bbdb.Ingestion.RingBuf.Steps.{
  Producer, stored, Consumer, System, Step, Steps, at_rest, here, more, call_push, load_head,
  load_tail, has_room, found_full, store_slot, store_head, again, stop, call_pop, pop_head,
  pop_tail, pop_nothing, pop_something, read_slot, store_tail,
}
use bbdb.Ingestion.RingBuf.Steps.Knows.{
  ProducerKnows, ConsumerKnows, IsFifo, written-IsRing, contents-written, written-slot,
  written-ConsumerKnows, grown-IsRing, contents-grown, grown-ConsumerKnows, shrunk, shrunk-IsRing,
  contents-shrunk, shrunk-ProducerKnows,
}

module _ (k : ℕ) (start : RingBuf) where
  -- A step keeps all of this.
  pub Step-IsFifo : {s t : System} → Step s t → IsFifo k start s → IsFifo k start t
  Step-IsFifo (call_push e at) v = record {
    ring = v.ring;
    producer = tt;
    consumer = v.consumer;
    history = v.history;
  }
  Step-IsFifo (load_head e at) v = record {
    ring = v.ring;
    producer = refl;
    consumer = v.consumer;
    history = v.history;
  }
  Step-IsFifo {s} (load_tail e h at) v =
      let known = subst (ProducerKnows k s.ring) at v.producer in
      record {
        ring = v.ring;
        producer = (known, omega (arith, known), omega (arith, known, v.ring.used));
        consumer = v.consumer;
        history = v.history;
      }
  Step-IsFifo {s} (has_room e h t at test) v =
      let (same, seen, most) = subst (ProducerKnows k s.ring) at v.producer in
      record {
        ring = v.ring;
        producer = (same, ground (arith, test, seen, v.ring.size));
        consumer = v.consumer;
        history = v.history;
      }
  Step-IsFifo (found_full e h t at test) v = record {
    ring = v.ring;
    producer = tt;
    consumer = v.consumer;
    history = v.history;
  }
  Step-IsFifo {s} (store_slot e h at) v =
      let (same, room) = subst (ProducerKnows k s.ring) at v.producer in
      subst
        (λ (x : ℕ). IsFifo k start (record s {
          producer = stored e x;
          ring = record s.ring { buf = set s.ring.buf (bit_and x s.ring.mask) e };
        }))
        (sym same)
        (record {
          ring = written-IsRing k s.ring v.ring e room;
          producer = (refl, room, written-slot k s.ring v.ring e room);
          consumer = written-ConsumerKnows k s.ring v.ring e room s.consumer v.consumer;
          history =
              v.history ∙ ap (λ l. s.returned ++ l) (sym (contents-written k s.ring v.ring e room));
        })
  Step-IsFifo {s} (store_head e h at) v =
      let (same, room, slot) = subst (ProducerKnows k s.ring) at v.producer in
      subst
        (λ (x : ℕ). IsFifo k start (record s {
          producer = Producer.away;
          ring = record s.ring { head = next x };
          accepted = s.accepted ++ e ∷ [];
        }))
        (sym same)
        (record {
          ring = grown-IsRing k s.ring v.ring e room slot;
          producer = tt;
          consumer = grown-ConsumerKnows k s.ring v.ring e room slot s.consumer v.consumer;
          history =
              sym (append_assoc (contents start) s.accepted (e ∷ []))
              ∙ ap (λ l. l ++ e ∷ []) v.history
              ∙ append_assoc s.returned (contents s.ring) (e ∷ [])
              ∙ ap (λ l. s.returned ++ l) (sym (contents-grown k s.ring v.ring e room slot));
        })
  Step-IsFifo (again e at) v = record {
    ring = v.ring;
    producer = tt;
    consumer = v.consumer;
    history = v.history;
  }
  Step-IsFifo (stop e at) v = record {
    ring = v.ring;
    producer = tt;
    consumer = v.consumer;
    history = v.history;
  }
  Step-IsFifo (call_pop at) v = record {
    ring = v.ring;
    producer = v.producer;
    consumer = tt;
    history = v.history;
  }
  Step-IsFifo (pop_head at) v = record {
    ring = v.ring;
    producer = v.producer;
    consumer = (v.ring.head, omega arith);
    history = v.history;
  }
  Step-IsFifo {s} (pop_tail h at) v =
      let (small, seen) = subst (ConsumerKnows s.ring) at v.consumer in
      record {
        ring = v.ring;
        producer = v.producer;
        consumer = (refl, small, seen);
        history = v.history;
      }
  Step-IsFifo (pop_nothing h t at test) v = record {
    ring = v.ring;
    producer = v.producer;
    consumer = tt;
    history = v.history;
  }
  Step-IsFifo {s} (pop_something h t at test) v =
      let (same, small, seen) = subst (ConsumerKnows s.ring) at v.consumer in
      record {
        ring = v.ring;
        producer = v.producer;
        consumer = (same, ground (arith, test, same, small, seen, v.ring.tail));
        history = v.history;
      }
  Step-IsFifo {s} (read_slot t at) v =
      let (same, some_used) = subst (ConsumerKnows s.ring) at v.consumer in
      record {
        ring = v.ring;
        producer = v.producer;
        consumer =
            (same, some_used, ap (λ x. get_or s.ring.buf (bit_and x s.ring.mask) zero_event) same);
        history = v.history;
      }
  Step-IsFifo {s} (store_tail e t at) v =
      let (same, some_used, held) = subst (ConsumerKnows s.ring) at v.consumer in
      subst
        (λ (x : ℕ). IsFifo k start (record s {
          consumer = Consumer.away;
          ring = record s.ring { tail = next x };
          returned = s.returned ++ e ∷ [];
        }))
        (sym same)
        (record {
          ring = shrunk-IsRing k s.ring v.ring some_used;
          producer = shrunk-ProducerKnows k s.ring v.ring some_used s.producer v.producer;
          consumer = tt;
          history =
              v.history
              ∙ ap (λ l. s.returned ++ l)
                  (contents-shrunk k s.ring v.ring some_used
                    ∙ ap (λ x. x ∷ contents (shrunk k s.ring v.ring some_used)) (sym held))
              ∙ sym
                  (append_assoc s.returned (e ∷ []) (contents (shrunk k s.ring v.ring some_used)));
        })

  -- Whatever the order of the steps of one producer and one consumer: the ring stays well-formed, and the
  -- events that it had at first and those that were accepted since are those returned followed by those
  -- that it holds, in the same order. So no event is lost, returned twice or overtaken.
  pub Steps-IsFifo : {s : System} → IsRing k start → Steps (at_rest start) s → IsFifo k start s
  Steps-IsFifo v here = record {
    ring = v;
    producer = tt;
    consumer = tt;
    history = append-nil (contents start);
  }
  Steps-IsFifo v (more r st) = Step-IsFifo st (Steps-IsFifo v r)
