-- ===== src/Grpc/Tests.antt =====
-- Queries over a stream.
use bbdb.Base.{◌≡◌, refl, List, [], ◌∷◌, false, ok, replicate, Result}
use bbdb.Base.Int.{pos}
use bbdb.Block.Event.{Event}
use bbdb.Grpc.QueryServer.{ProtoRequest, QueryResponse, Stream, block_events_to_proto, query}
use bbdb.Query.Engine.{QueryRequest}
use bbdb.Grpc.QueryServer.Batches.{all_sent, IsAnswer, with_sent}
use bbdb.Grpc.QueryServer.Answer.{query_lem}

abbrev found : List Event
found = replicate 300 (record { key_hash = 7; timestamp = pos 15; payload = 1 ∷ [] })

abbrev engine : QueryRequest → Result (List Event)
engine r = ok found

abbrev request : ProtoRequest
request = record { partition_key = 65 ∷ []; event_type = 0; from_ns = pos 10; to_ns = pos 20 }

abbrev stream : Stream
stream = record { sent = []; refuses = λ k. false }

query_lem_example :
    (msgs : List QueryResponse) × (query engine request stream ≡ (ok tt, with_sent stream msgs))
    × (all_sent msgs ≡ block_events_to_proto found (65 ∷ []))
    × IsAnswer 300 msgs
query_lem_example = query_lem engine request found stream refl refl refl (λ k. refl)
