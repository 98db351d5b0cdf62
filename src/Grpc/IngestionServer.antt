-- ===== src/Grpc/IngestionServer.antt =====
-- internal/grpc/ingestion_server.go: a batch of events, and internal/grpc/convert.go: what is stored of them.
-- The writers of the shards are a state of any type with an operation that finds or creates the writer of
-- a shard and writes to it.
pub mod Shards
pub mod Written
pub mod Batch
pub mod Started
pub mod HandedOver
pub mod Stopped
pub mod Queried
mod Tests
use mathlib.Core.List.{Perm}
use bbdb.Base.{
  ℕ, zero, suc, ◌%◌, ◌^◌, ◌≡◌, List, [], ◌∷◌, ◌++◌, Bool, Option, none, some, Result, ok, err,
  Error, io, ltb, ◌==◌, if◌then◌else◌, length,
}
use bbdb.Base.Int.{ℤ, pos, negsuc}
use bbdb.Base.Bytes.{Bytes}
use bbdb.Base.State.{St, ◌>>◌, pure}
use bbdb.Block.Event.{Event}
use bbdb.Block.Routing.{Xxhash, shard_for, key_hash_for}
use bbdb.Grpc.QueryServer.{ProtoEvent}

-- The UUIDs that are generated, of 16 bytes, and the instants that the clock shows, in turn.
pub record Sources : Type 0 where
  pub uuid : ℕ → Bytes
  pub now : ℕ → ℤ
  pub length-uuid : (n : ℕ) → length (uuid n) ≡ 16

-- How many of each were drawn.
pub record Draws : Type 0 where
  pub uuids : ℕ
  pub times : ℕ

pub record WriteRequest : Type 0 where
  pub batch_id : Bytes
  pub events : List ProtoEvent

pub data Message : Type 0 where
  event_type_too_large : ℕ → Message
  write_failed : Error → Message

pub record WriteError : Type 0 where
  pub code : ℕ
  pub message : Message

-- `accepted` is a uint32.
pub record WriteResponse : Type 0 where
  pub batch_id : Bytes
  pub accepted : ℕ
  pub partition_keys : List Bytes
  pub error : Option WriteError

-- The map from shards to their events.
abbrev pub Groups : Type 0
Groups = List (ℕ × List Event)

-- The order in which a loop goes over a map.
pub record MapOrder : Type 0 where
  pub iterate : Groups → Groups
  pub iterate-perm : (gs : Groups) → Perm (iterate gs) gs

module _ (s : Sources) where
  unfoldable pub resolve_partition_key : Bytes → Draws → Bytes × Draws
  resolve_partition_key [] d = (s.uuid d.uuids, record d { uuids = suc d.uuids })
  resolve_partition_key (b ∷ bs) d = (b ∷ bs, d)

  unfoldable pub resolve_timestamp : ℤ → Draws → ℤ × Draws
  resolve_timestamp (pos zero) d = (s.now d.times, record d { times = suc d.times })
  resolve_timestamp (pos (suc n)) d = (pos (suc n), d)
  resolve_timestamp (negsuc n) d = (negsuc n, d)

  unfoldable pub proto_events_to_block :
      Xxhash → List ProtoEvent → Draws → (List Event × List Bytes) × Draws
  unfolding resolve_partition_key resolve_timestamp
  proto_events_to_block x [] d = (([], []), d)
  proto_events_to_block x (e ∷ es) d =
      let (key, d₁) = resolve_partition_key e.partition_key d in
      let (ts, d₂) = resolve_timestamp e.timestamp_ns d₁ in
      let ((blocks, keys), d₃) = proto_events_to_block x es d₂ in
      let block : Event = record {
        key_hash = key_hash_for x key;
        timestamp = ts;
        payload = e.payload;
      } in
      ((block ∷ blocks, key ∷ keys), d₃)

-- The first event type that does not fit a byte.
unfoldable pub first_too_large : List ProtoEvent → Option ℕ
first_too_large [] = none
first_too_large (e ∷ es) =
    let rest = first_too_large es in if ltb 255 e.event_type then some e.event_type else rest

-- `shardEvents[shard] = append(shardEvents[shard], e)`
unfoldable pub append_to : ℕ → Event → Groups → Groups
append_to shard e [] = (shard, e ∷ []) ∷ []
append_to shard e ((t, es) ∷ gs) =
    let rest = append_to shard e gs in if t == shard then (t, es ++ e ∷ []) ∷ gs else (t, es) ∷ rest

-- The loop that groups. There are as many stored events and keys as there are messages.
unfoldable pub group_events : Xxhash → List ProtoEvent → List Event → List Bytes → Groups → Groups
unfolding append_to
group_events x (p ∷ ps) (e ∷ es) (k ∷ ks) gs =
    group_events x ps es ks (append_to (shard_for x k (p.event_type % 2 ^ 8)) e gs)
group_events x ps es ks gs = gs

-- The answer to the writes.
unfoldable pub answer_write : WriteRequest → List Bytes → Result (Unit {0}) → WriteResponse
answer_write req keys (ok u) = record {
  batch_id = req.batch_id;
  accepted = length req.events % 2 ^ 32;
  partition_keys = keys;
  error = none;
}
answer_write req keys (err e) = record {
  batch_id = req.batch_id;
  accepted = 0;
  partition_keys = keys;
  error = some (record { code = 2; message = write_failed e });
}

unfoldable pub refuse_type : WriteRequest → List Bytes → ℕ → WriteResponse
refuse_type req keys t = record {
  batch_id = req.batch_id;
  accepted = 0;
  partition_keys = keys;
  error = some (record { code = 1; message = event_type_too_large t });
}

-- The writers of the shards: `getOrCreateWriter` and `Write` on what it returns, and the events that the
-- writer of a shard holds. A write that succeeds adds its events to those of its shard.
pub record Writers (W : Type 0) : Type 1 where
  pub write_shard : ℕ → List Event → St W (Unit {0})
  pub held : W → ℕ → List Event
  pub IsValid : W → Type 0
  pub write_shard-IsValid :
      (s : ℕ) (es : List Event) (w : W) → IsValid w → IsValid (write_shard s es w).1
  pub write_shard-ok :
      (s : ℕ) (es : List Event) (w w' : W)
      → IsValid w
      → write_shard s es w ≡ (ok tt, w')
      → (t : ℕ) → held w' t ≡ held w t ++ (if s == t then es else [])

module _ {W : Type 0} (writers : Writers W) where
  -- The loop over the groups.
  unfoldable pub write_groups : Groups → St W (Unit {0})
  write_groups [] = pure tt
  write_groups ((shard, es) ∷ gs) = writers.write_shard shard es >> write_groups gs

  unfoldable pub handle_batch :
      Sources → Xxhash → MapOrder → WriteRequest → Draws × W → WriteResponse × (Draws × W)
  unfolding proto_events_to_block first_too_large group_events write_groups answer_write refuse_type
  handle_batch s x order req (d, w) =
      let ((blocks, keys), d') = proto_events_to_block s x req.events d in
      let (r, w') = write_groups (order.iterate (group_events x req.events blocks keys [])) w in
      elim (first_too_large req.events) [
        | some t ↦ (refuse_type req keys t, (d', w))
        | none ↦ (answer_write req keys r, (d', w'))
      ]

  -- `Write`: the loop over what the stream receives, each time a request or an error, until its end. `sent` is
  -- what was answered, and a send may be refused.
  unfoldable pub write_stream :
      Sources
      → Xxhash
      → MapOrder
      → (ℕ → Bool)
      → List (Result WriteRequest)
      → List WriteResponse
      → Draws × W
      → (Result (Unit {0}) × List WriteResponse) × (Draws × W)
  unfolding handle_batch
  write_stream s x order refuses [] sent st = ((ok tt, sent), st)
  write_stream s x order refuses (err e ∷ incoming) sent st = ((err e, sent), st)
  write_stream s x order refuses (ok req ∷ incoming) sent st =
      let (answer, st') = handle_batch s x order req st in
      let rest = write_stream s x order refuses incoming (sent ++ answer ∷ []) st' in
      if refuses (length sent) then ((err (io 14), sent), st') else rest
