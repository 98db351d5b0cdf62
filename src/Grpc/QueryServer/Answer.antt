-- ===== src/Grpc/QueryServer/Answer.antt =====
-- The messages of a query.
use bbdb.Base.{
  is_empty, ℕ, suc, ◌<◌, ◌≡◌, refl, ap, ◌∙◌, ◌⊎◌, inl, inr, List, [], ◌∷◌, true, false, none, some,
  Result, ok, err, Error, arith, ◌==◌, if◌then◌else◌, length, empty_partition_key, empty_range,
}
use bbdb.Base.Int.{ltb_ℤ}
use bbdb.Base.Bytes.{Bytes}
use bbdb.Base.State.{after}
use bbdb.Block.Event.{Event}
use bbdb.Grpc.QueryServer.Batches.{all_sent, IsAnswer, Open, with_sent, send_batches_lem}
use bbdb.Grpc.QueryServer.{
  ProtoRequest, QueryResponse, Stream, send, block_events_to_proto, terminal_error, send_batches,
  type_filter, send_events, answer, query,
}
use bbdb.Query.Engine.{QueryRequest}

module _ (engine : QueryRequest → Result (List Event)) where
  -- The request that the engine gets.
  abbrev engine_request : ProtoRequest → QueryRequest
  engine_request req = record {
    partition_key = req.partition_key;
    event_type = type_filter req.event_type;
    from = req.from_ns;
    to = req.to_ns;
  }

  query-ok :
      (req : ProtoRequest) (events : List Event) (st : Stream)
      → is_empty req.partition_key ≡ false
      → ltb_ℤ req.from_ns req.to_ns ≡ true
      → engine (engine_request req) ≡ ok events
      → query engine req st ≡ send_events engine events req.partition_key st
  unfolding query answer
  query-ok req events st k r e = rw (k, r, e) refl

  -- Behind a loop that sent something, nothing follows.
  finish :
      (n : ℕ) (r : QueryResponse) (run : Result (Unit {0}) × Stream) (st : Stream)
      → 0 < n
      → run ≡ (ok tt, st)
      → after (λ u st. if n == 0 then send r st else (ok tt, st)) run ≡ (ok tt, st)
  finish n r run st pos p =
      ap (after (λ u st. if n == 0 then send r st else (ok tt, st))) p ∙ ground (arith, pos)

  send_events_lem :
      (events : List Event) (key : Bytes) (st : Stream)
      → Open st
      → (msgs : List QueryResponse) × (send_events engine events key st
          ≡ (ok tt, with_sent st msgs))
        × (all_sent msgs ≡ block_events_to_proto events key)
        × IsAnswer (length events) msgs
  unfolding send_events block_events_to_proto send_batches
  send_events_lem [] key st o = (
    record { events = []; total = 0; is_last = true; error = none } ∷ [],
    ground (arith, o (length st.sent)),
    refl,
    (refl, refl, refl, omega arith),
  )
  send_events_lem (x ∷ xs) key st o =
      let (msgs, p, q, a) =
        send_batches_lem (length (x ∷ xs)) (block_events_to_proto (x ∷ xs) key)
          (suc (length (block_events_to_proto (x ∷ xs) key))) 0 st o (omega arith) (omega arith) in
      (
        msgs,
        finish (length (block_events_to_proto (x ∷ xs) key)) _ _ (with_sent st msgs) (omega arith)
            p,
        q,
        a,
      )

  -- A query that the engine answers, over a stream that takes every message, sends messages whose
  -- events are those of the engine in their order, under the key of the request: full batches of
  -- 256, and one last message that says so and carries the number of all events.
  pub query_lem :
      (req : ProtoRequest) (events : List Event) (st : Stream)
      → is_empty req.partition_key ≡ false
      → ltb_ℤ req.from_ns req.to_ns ≡ true
      → engine (engine_request req) ≡ ok events
      → Open st
      → (msgs : List QueryResponse) × (query engine req st ≡ (ok tt, with_sent st msgs))
        × (all_sent msgs ≡ block_events_to_proto events req.partition_key)
        × IsAnswer (length events) msgs
  query_lem req events st k r e o =
      let (msgs, p, q, a) = send_events_lem events req.partition_key st o in
      (msgs, query-ok req events st k r e ∙ p, q, a)

  -- A query without a key, one whose range of time is empty, and one that the engine fails, each
  -- get one message, over a stream that takes it: a last one, without events, with the error.
  pub query-err :
      (req : ProtoRequest) (x : Error) (st : Stream)
      → Open st
      → ((is_empty req.partition_key ≡ true) × (x ≡ empty_partition_key))
        ⊎ ((is_empty req.partition_key ≡ false)
            × (ltb_ℤ req.from_ns req.to_ns ≡ false)
            × (x ≡ empty_range))
        ⊎ ((is_empty req.partition_key ≡ false)
            × (ltb_ℤ req.from_ns req.to_ns ≡ true)
            × (engine (engine_request req) ≡ err x))
      → query engine req st ≡ (
        ok tt,
        with_sent st (record { events = []; total = 0; is_last = true; error = some x } ∷ []),
      )
  unfolding query answer terminal_error
  query-err req x st o (inl (k, e)) = rw (k, e) (rw (o (length st.sent)) refl)
  query-err req x st o (inr (inl (k, r, e))) = rw (k, r, e) (rw (o (length st.sent)) refl)
  query-err req x st o (inr (inr (k, r, e))) = rw (k, r, e) (rw (o (length st.sent)) refl)
