-- ===== src/Ingestion/RingBuf/Steps/Runs.antt =====
-- The operations of a goroutine that is not interrupted, as runs of its steps.
use Prim.Native.Nat.{bit_and}
use bbdb.Base.{
  ◌≡◌, refl, subst, List, [], ◌∷◌, ◌++◌, arith, length, get_or, true, false, ltb, ◌==◌, Bool,
  Bool-cases, inl, inr, some, if◌then◌else◌,
}
use bbdb.Block.Event.{Event, zero_event}
use bbdb.Ingestion.RingBuf.{RingBuf, Turn, sub_u64, next, pushed, stopped, push_turn, pop}
use bbdb.Ingestion.RingBuf.Steps.{
  Producer, Consumer, System, Steps, here, more, call_push, load_head, load_tail, has_room,
  found_full, store_slot, store_head, stop, call_pop, pop_head, pop_tail, pop_something, read_slot,
  store_tail,
}

module _ (ring : RingBuf) (consumer : Consumer) (acc ret : List Event) where
  -- A system with its producer outside of `Push`.
  abbrev idle_producer : RingBuf → List Event → System
  idle_producer rb es = record {
    ring = rb;
    producer = Producer.away;
    consumer = consumer;
    accepted = es;
    returned = ret;
  }

  -- Up to the test.
  to_test :
      (e : Event)
      → Steps
          (idle_producer ring acc)
          (record (idle_producer ring acc) { producer = Producer.with_tail e ring.head ring.tail })
  to_test e =
      more (more (more here (call_push e refl)) (load_head e refl)) (load_tail e ring.head refl)

  -- A turn of `Push` that stores its event, or stops, without a step of the consumer.
  pub push_turn-Steps :
      (e : Event) (done : Bool) (ring' : RingBuf)
      → push_turn ring e done ≡ pushed ring'
      → Steps (idle_producer ring acc) (idle_producer ring' (acc ++ e ∷ []))
  unfolding push_turn
  push_turn-Steps e done ring' run =
      elim (Bool-cases (ltb (sub_u64 ring.head ring.tail) (length ring.buf))) [
        | inl t ↦
            subst (λ r. Steps (idle_producer ring acc) (idle_producer r (acc ++ e ∷ [])))
              (ground (arith, t, run))
              (more
                (more (more (to_test e) (has_room e ring.head ring.tail refl t))
                  (store_slot e ring.head refl))
                (store_head e ring.head refl))
        | inr f ↦ absurd (not_pushed done (rw f at run))
      ]
    where
      not_pushed : (done : Bool) → (if done then stopped else Turn.again) ≡ pushed ring' → ⊥
      not_pushed true q = ground (arith, q)
      not_pushed false q = ground (arith, q)

  -- A turn that stops has found the ring full, and the context done.
  pub push_turn-stopped :
      (e : Event) (done : Bool)
      → push_turn ring e done ≡ stopped
      → Steps (idle_producer ring acc) (idle_producer ring acc)
  unfolding push_turn
  push_turn-stopped e done run =
      elim (Bool-cases (ltb (sub_u64 ring.head ring.tail) (length ring.buf))) [
        | inl t ↦ absurd (ground (arith, t, run))
        | inr f ↦ more (more (to_test e) (found_full e ring.head ring.tail refl f)) (stop e refl)
      ]

module _ (ring : RingBuf) (producer : Producer) (acc ret : List Event) where
  -- A system with its consumer outside of `Pop`.
  abbrev idle_consumer : RingBuf → List Event → System
  idle_consumer rb es = record {
    ring = rb;
    producer = producer;
    consumer = Consumer.away;
    accepted = acc;
    returned = es;
  }

  -- A `Pop` without a step of the producer.
  pub pop-Steps :
      (e : Event) (ring' : RingBuf)
      → pop ring ≡ some (e, ring')
      → Steps (idle_consumer ring ret) (idle_consumer ring' (ret ++ e ∷ []))
  unfolding pop
  pop-Steps e ring' run = elim (Bool-cases (ring.tail == ring.head)) [
    | inl t ↦ absurd (ground (arith, t, run))
    | inr f ↦
        let oldest : Event = get_or ring.buf (bit_and ring.tail ring.mask) zero_event in
        let taken : ◌≡◌ {A = Event × RingBuf} (oldest, record ring { tail = next ring.tail })
            (e, ring') =
          ground (arith, f, run) in
        subst (λ r. Steps (idle_consumer ring ret) (idle_consumer r.1 (ret ++ r.0 ∷ []))) taken
          (more
            (more
              (more
                (more (more (more here (call_pop refl)) (pop_head refl)) (pop_tail ring.head refl))
                (pop_something ring.head ring.tail refl f))
              (read_slot ring.tail refl))
            (store_tail oldest ring.tail refl))
  ]
