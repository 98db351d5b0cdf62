-- ===== src/Grpc/QueryServer.antt =====
-- internal/grpc/query_server.go: a query answered in batches. The engine behind it is the
-- interface query.Reader, a parameter.
pub mod Batches
pub mod Answer
use bbdb.Base.{
  is_empty, ℕ, zero, suc, ◌+◌, ◌-◌, ◌%◌, ◌≡◌, List, [], ◌∷◌, ◌++◌, map, Bool, true, false, Option,
  none, some, Result, ok, err, Error, panic, io, empty_partition_key, empty_range, ltb, leb, ◌==◌,
  not, if◌then◌else◌, length, take, drop,
}
use bbdb.Base.Int.{ℤ, ltb_ℤ}
use bbdb.Base.Bytes.{Bytes}
use bbdb.Base.State.{St, ◌>>◌}
use bbdb.Block.Event.{Event}
use bbdb.Query.Engine.{QueryRequest}

pub record ProtoEvent : Type 0 where
  pub partition_key : Bytes
  pub event_type : ℕ
  pub timestamp_ns : ℤ
  pub payload : Bytes

-- The request of the service.
pub record ProtoRequest : Type 0 where
  pub partition_key : Bytes
  pub event_type : ℕ
  pub from_ns : ℤ
  pub to_ns : ℤ

pub record QueryResponse : Type 0 where
  pub events : List ProtoEvent
  pub total : ℕ
  pub is_last : Bool
  pub error : Option Error

-- A stream: what was sent, and which sends fail, by the number of those before.
pub record Stream : Type 0 where
  pub sent : List QueryResponse
  pub refuses : ℕ → Bool

abbrev pub send : QueryResponse → St Stream (Unit {0})
send r st =
    if st.refuses (length st.sent)
    then (err (io 14), st)
    else (ok tt, record st { sent = st.sent ++ r ∷ [] })

abbrev pub query_batch_size : ℕ
query_batch_size = 256

-- internal/grpc/convert.go
unfoldable pub block_events_to_proto : List Event → Bytes → List ProtoEvent
block_events_to_proto events partition_key =
    map
      (λ e. record {
        partition_key = partition_key;
        event_type = 0;
        timestamp_ns = e.timestamp;
        payload = e.payload;
      })
      events

unfoldable pub terminal_error : ℕ → Error → QueryResponse
terminal_error total message = record {
  events = [];
  total = total;
  is_last = true;
  error = some message;
}

module _ (total : ℕ) (proto_events : List ProtoEvent) where
  abbrev pub end_of : ℕ → ℕ
  end_of start =
      let end = start + query_batch_size in
      if ltb (length proto_events) end then length proto_events else end

  abbrev pub batch_from : ℕ → QueryResponse
  batch_from start =
      let is_last = end_of start == length proto_events in
      record {
        events = take (end_of start - start) (drop start proto_events);
        total = if is_last then total else 0;
        is_last = is_last;
        error = none;
      }

  -- The loop, with fuel.
  unfoldable pub send_batches : ℕ → ℕ → St Stream (Unit {0})
  send_batches zero start st = (err panic, st)
  send_batches (suc fuel) start st =
      let rest = send_batches fuel (start + query_batch_size) in
      if ltb start (length proto_events) then (send (batch_from start) >> rest) st else (ok tt, st)

-- 0 stands for all types; another number is cut to 8 bits.
abbrev pub type_filter : ℕ → Option ℕ
type_filter v = if v == 0 then none else some (v % 256)

module _ (engine : QueryRequest → Result (List Event)) where
  unfoldable pub send_events : List Event → Bytes → St Stream (Unit {0})
  unfolding send_batches block_events_to_proto
  send_events events key st =
      let proto_events = block_events_to_proto events key in
      (send_batches (length events) proto_events (suc (length proto_events)) 0 >> (λ st.
          if length proto_events == 0
          then send (record { events = []; total = 0; is_last = true; error = none }) st
          else (ok tt, st)))
        st

  unfoldable pub answer : Bytes → Result (List Event) → St Stream (Unit {0})
  unfolding send_events terminal_error
  answer key (err e) = send (terminal_error 0 e)
  answer key (ok events) = send_events events key

  unfoldable pub query : ProtoRequest → St Stream (Unit {0})
  unfolding answer terminal_error
  query req =
      if is_empty req.partition_key
      then send (terminal_error 0 empty_partition_key)
      else if not (ltb_ℤ req.from_ns req.to_ns)
      then send (terminal_error 0 empty_range)
      else answer req.partition_key (
          engine (record {
            partition_key = req.partition_key;
            event_type = type_filter req.event_type;
            from = req.from_ns;
            to = req.to_ns;
          }))
