-- ===== src/Grpc/IngestionServer/Tests.antt =====
-- A batch at concrete messages.
use mathlib.Core.List.Perm
use mathlib.Core.List.{Mem}
use bbdb.Base.{
  ℕ, ◌^◌, ◌*◌, ◌≡◌, ◌==◌, refl, subst, [], ◌∷◌, true, false, none, some, ok, arith, Bool-cases, inl,
  inr, some-injective,
}
use bbdb.Base.Int.{ℤ, pos, of_u64}
use bbdb.Base.Bytes.{Bytes}
use bbdb.Kv.Memory.{memory, Table, empty_table}
use bbdb.Node.{Node}
use bbdb.Block.Stored.{stored}
use bbdb.Block.Memtable.Insertion.{insertion}
use bbdb.Block.Bloom.Exact.{exact}
use bbdb.Block.Routing.{shard_for, key_hash_for}
use bbdb.Block.Routing.FirstByte.{by_first_byte}
use bbdb.Block.Memtable.{len}
use bbdb.Block.Memtable.Rows.{IsMemtable, new_memtable-IsMemtable}
use bbdb.Ingestion.RingBuf.Fifo.{contents}
use bbdb.Ingestion.Writer.{WriterConfig, ShardWriter, new_shard_writer, hour_boundary}
use bbdb.Ingestion.Writer.Write.{write}
use bbdb.Ingestion.RingBuf.{new_ring_buf, push_turn, next_pow2}
use bbdb.Grpc.QueryServer.{ProtoEvent}
use bbdb.Grpc.IngestionServer.{Sources, Draws, WriteRequest, MapOrder, Writers, handle_batch}
use bbdb.Grpc.IngestionServer.Started.{
  WriterMap, started, IsRings, write_shard, write_shard-IsRings, get_or_create_writer,
}
use bbdb.Grpc.Server.{context_done, all_close, IsRun, grpc_run, grpc_run_lem}
use bbdb.Grpc.IngestionServer.Stopped.{stop_all, stop_all_lem, IsSound, Stops}

-- Every UUID is sixteen ones, and the clock advances by one.
abbrev sources : Sources
sources = record {
  uuid = λ n. 1 ∷ 1 ∷ 1 ∷ 1 ∷ 1 ∷ 1 ∷ 1 ∷ 1 ∷ 1 ∷ 1 ∷ 1 ∷ 1 ∷ 1 ∷ 1 ∷ 1 ∷ 1 ∷ [];
  now = λ n. pos n;
  length-uuid = λ n. refl;
}

abbrev as_it_stands : MapOrder
as_it_stands = record { iterate = λ gs. gs; iterate-perm = λ gs. Perm.refl gs }

abbrev config : WriterConfig exact.Rate
config = record {
  batch_interval = pos (2 * 10 ^ 6);
  ring_buf_size = pos 2;
  store = none;
  tmp_dir = [];
  retention = pos 0;
  max_block_bytes = pos 0;
  bloom_fpr = true;
  idx_chunk_size = pos 0;
}

abbrev empty_node : Node Table
empty_node = record { db = empty_table; fs = record { content = λ p. none; fault = λ c p. false } }

abbrev server : Writers (WriterMap Table)
server = started memory stored exact insertion config empty_node (pos 0) refl

abbrev no_writers : WriterMap Table
no_writers shard = none

no_writers-IsRings : IsRings memory stored exact insertion config empty_node (pos 0) no_writers
no_writers-IsRings t w h = absurd (ground (arith, h))

abbrev message : Bytes → ℕ → ℤ → ProtoEvent
message key event_type at_ns = record {
  partition_key = key;
  event_type = event_type;
  timestamp_ns = at_ns;
  payload = 5 ∷ [];
}

-- Two events of one shard, and one without a key and a time of another.
abbrev batch : WriteRequest
batch = record {
  batch_id = 9 ∷ [];
  events =
      message (7 ∷ []) 10 (pos 3) ∷ message [] 10 (pos 0) ∷ message (7 ∷ 1 ∷ []) 10 (pos 2) ∷ [];
}

abbrev undrawn : Draws
undrawn = record { uuids = 0; times = 0 }

-- The rings have two places: all three events are accepted.
batch_ran :
    (handle_batch server sources by_first_byte as_it_stands batch (undrawn, no_writers)).0.accepted
    ≡ 3
unfolding handle_batch write shard_for key_hash_for new_shard_writer new_ring_buf push_turn
    write_shard get_or_create_writer next_pow2 hour_boundary of_u64
batch_ran = refl

-- A server that seals to the directory `t`, and one event in the ring of the writer of shard 3.
abbrev sealing : WriterConfig exact.Rate
sealing = record config { store = some (record { root = 116 ∷ []; tier = 0 }) }

abbrev written : WriterMap Table
unfolding write_shard
written =
    (write_shard memory stored exact insertion sealing empty_node (pos 0) 3
      (record { key_hash = 1; timestamp = pos 5; payload = 8 ∷ [] } ∷ []) no_writers).1

written-IsRings : IsRings memory stored exact insertion sealing empty_node (pos 0) written
unfolding written write_shard
written-IsRings =
    write_shard-IsRings memory stored exact insertion sealing empty_node (pos 0) refl 3
      (record { key_hash = 1; timestamp = pos 5; payload = 8 ∷ [] } ∷ []) no_writers
      no_writers-IsRings

written-IsSound : IsSound memory stored exact insertion sealing (pos 9) written
unfolding written write_shard write get_or_create_writer new_shard_writer push_turn new_ring_buf
    next_pow2 hour_boundary of_u64
written-IsSound t w h = (written-IsRings t w h, fresh)
  where
    fresh : IsMemtable w.memtable
    fresh = elim (Bool-cases (3 == t)) [
      | inl f ↦
          subst (λ x. IsMemtable x.memtable) (some-injective _ w (rw f at h))
            new_memtable-IsMemtable
      | inr f ↦ absurd (ground (arith, f, h))
    ]

stop_all_lem_example :
    (node' : Node Table) × (m' : WriterMap Table) × (stop_all memory stored exact insertion sealing
        (pos 9)
        (3 ∷ 4 ∷ [])
        empty_node
        written
      ≡ some (node', m'))
    × Stops memory stored exact insertion sealing
        (pos 9)
        (record { root = 116 ∷ []; tier = 0 })
        (3 ∷ 4 ∷ [])
        empty_node
        written
        node'
        m'
    × ((t : ℕ) (w' : ShardWriter Table)
        → Mem t (3 ∷ 4 ∷ [])
        → m' t ≡ some w'
        → (contents w'.ring ≡ []) × (len w'.memtable ≡ 0))
    × ((t : ℕ) → written t ≡ none → m' t ≡ none)
stop_all_lem_example =
    stop_all_lem memory stored exact insertion sealing (pos 9)
      (record { root = 116 ∷ []; tier = 0 }) refl (3 ∷ 4 ∷ []) empty_node written written-IsSound

grpc_run_lem_example :
    IsRun memory stored exact insertion sealing
      (pos 9)
      (record { root = 116 ∷ []; tier = 0 })
      (ok tt)
      context_done
      all_close
      (3 ∷ [])
      empty_node
      written
      (grpc_run memory stored exact insertion sealing
        (pos 9)
        (ok tt)
        context_done
        all_close
        (3 ∷ [])
        empty_node
        written)
grpc_run_lem_example =
    grpc_run_lem memory stored exact insertion sealing (pos 9)
      (record { root = 116 ∷ []; tier = 0 }) refl (ok tt) context_done all_close (3 ∷ []) empty_node
      written written-IsSound
