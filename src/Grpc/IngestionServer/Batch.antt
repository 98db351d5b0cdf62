-- ===== src/Grpc/IngestionServer/Batch.antt =====
-- What becomes of a batch.
use bbdb.Base.{ℕ, ◌%◌, ◌^◌, ◌<◌, ◌≤◌, ◌≡◌, List, [], ◌++◌, ◌⊎◌, All, none, some, length, Error}
use bbdb.Base.Bytes.{Bytes}
use bbdb.Block.Event.{Event}
use bbdb.Block.Routing.{Xxhash}
use bbdb.Grpc.IngestionServer.{
  Sources, Draws, WriteRequest, event_type_too_large, write_failed, Groups, MapOrder, Writers,
  WriteResponse, proto_events_to_block, group_events,
}
use bbdb.Grpc.IngestionServer.Written.{HasFailed}
use bbdb.Grpc.IngestionServer.Shards.{events_for}

module _ {W : Type 0} (writers : Writers W) where
  open writers use {held, IsValid}

  module _ (s : Sources) (x : Xxhash) (order : MapOrder) (req : WriteRequest) (d : Draws) (w : W)
      (v : IsValid w) where
    abbrev stored : List Event × List Bytes
    stored = (proto_events_to_block s x req.events d).0

    abbrev stored_draws : Draws
    stored_draws = (proto_events_to_block s x req.events d).1

    abbrev groups : Groups
    groups = order.iterate (group_events x req.events stored.0 stored.1 [])

    -- What is promised of an answer and the state behind it.
    pub record IsHandled (answer : WriteResponse) (w' : W) : Type 0 where
      pub batch_id : answer.batch_id ≡ req.batch_id
      pub keys : length answer.partition_keys ≡ length req.events
      pub valid : IsValid w'
      pub outcome :
          ((t : ℕ) × (255 < t)
            × (answer.error ≡ some (record { code = 1; message = event_type_too_large t }))
            × (answer.accepted ≡ 0)
            × (w' ≡ w))
          ⊎ (All (λ e. e.event_type ≤ 255) req.events
              × (((answer.error ≡ none)
                    × (answer.accepted ≡ length req.events % 2 ^ 32)
                    × ((t : ℕ)
                        → held w' t ≡ held w t ++ events_for x t req.events stored.0 stored.1))
                  ⊎ ((e : Error) × (answer.error
                        ≡ some (record { code = 2; message = write_failed e }))
                      × (answer.accepted ≡ 0)
                      × HasFailed writers groups w e w')))
