-- ===== src/Grpc/IngestionServer/Queried/Tests.antt =====
-- A writer that is stopped, and a query behind it, at concrete values.
use mathlib.Core.List.{Mem, mem-cons_self, mem-cons_of_mem}
use bbdb.Base.{
  ◌++◌, ◌≡◌, ◌+◌, ◌*◌, ◌⊎◌, refl, subst, [], ◌∷◌, true, false, none, some, ok, err, Error, List,
  arith, inr, ℕ, Option, sym, length,
}
use bbdb.Base.Int.{pos}
use bbdb.Base.Bytes.{Bytes, eq_bytes, put_be}
use bbdb.Kv.Memory.{memory, Table, empty_table}
use bbdb.Meta.Idx.{put_idx_batch}
use bbdb.Meta.Keys.{BlockId, block_key, block_id_from_shard_and_hour}
use bbdb.Calendar.{Instant, civil_of}
use bbdb.Calendar.Digits.{decimal, hexadecimal}
use bbdb.Meta.Blocks.{IsBlockMeta}
use bbdb.Block.Bloom.{serialize}
use bbdb.Block.Bloom.Exact.{exact}
use bbdb.Index.BloomCache.{new_bloom_cache, BloomCache}
use bbdb.Tier.Local.{LocalStore, put, bloom_path}
use bbdb.Block.Crc.{crc32_lt}
use bbdb.Block.Footer.{encode_footer}
use bbdb.Block.Header.{IsBlockHeader, encode_header}
use bbdb.Block.Columns.{
  put_u64s, put_payloads, compress_uint64_column, compress_int64_column, compress_bytes_column,
}
use bbdb.Block.Body.{write_block_body, body_footer, body_bytes}
use bbdb.Query.Engine.{QueryRequest}
use bbdb.Node.{Node}
use bbdb.Block.Stored.{stored, unwrap}
use bbdb.Block.Event.{Event}
use bbdb.Block.Memtable.{Memtable, rows, unique_key_hashes, sort}
use bbdb.Block.Memtable.Insertion.{insertion, insertion_sort}
use bbdb.Block.Routing.FirstByte.{by_first_byte}
use bbdb.Block.Routing.{key_hash_for, block_id_for_shard}
use bbdb.Block.Sealer.{SealRequest, seal, header_of, meta_of}
use bbdb.Block.Sealer.Sealed.{sorted, name}
use bbdb.Meta.Batches.{seal_batch}
use bbdb.Query.Merger.Listed.{listed}
use bbdb.Query.Engine.Plan.{query}
use bbdb.Index.BloomCache.Transparent.{IsFresh}
use bbdb.Index.BloomCache.Bounded.{new_bloom_cache-IsGood}
use bbdb.Query.BlockReader.Sealed.{IsSealable, block_file, matches}
use bbdb.Meta.Idx.Lookup.{KeysAreBytes}
use bbdb.Block.Memtable.{append, new_memtable}
use bbdb.Block.Memtable.Rows.{new_memtable-IsMemtable}
use bbdb.Ingestion.RingBuf.{RingBuf}
use bbdb.Ingestion.RingBuf.Fifo.{IsRing, contents}
use bbdb.Ingestion.Writer.{WriterConfig, ShardWriter, append_events, request_of, take_in}
use bbdb.Grpc.IngestionServer.HandedOver.{stop_writer}
use bbdb.Grpc.IngestionServer.Queried.{last, taken, query-stop_writer}

-- The 11th of June 2026, 14:30 UTC.
abbrev half_past_two : Instant
half_past_two = pos 1_781_188_200_000_000_000

abbrev second : ℕ → Instant
second n = pos (1_781_188_200_000_000_000 + n * 1_000_000_000)

abbrev unwanted : Event
unwanted = record { key_hash = 9; timestamp = second 1; payload = 1 ∷ [] }

abbrev wanted : Event
wanted = record { key_hash = 7; timestamp = second 2; payload = 2 ∷ 3 ∷ [] }

abbrev hot : LocalStore
hot = record { root = b'h' ∷ []; tier = 0 }

abbrev config : WriterConfig exact.Rate
config = record {
  batch_interval = pos 2_000_000;
  ring_buf_size = pos 2;
  store = some hot;
  tmp_dir = b't' ∷ [];
  retention = pos 0;
  max_block_bytes = pos 0;
  bloom_fpr = true;
  idx_chunk_size = pos 1;
}

abbrev empty_node : Node Table
empty_node = record { db = empty_table; fs = record { content = λ p. none; fault = λ c p. false } }

abbrev full : RingBuf
full = record { buf = unwanted ∷ wanted ∷ []; mask = 1; head = 2; tail = 0 }

full-IsRing : IsRing 1 full
full-IsRing = omega arith

abbrev writer : ShardWriter Table
writer = record {
  node = empty_node;
  ring = full;
  memtable = new_memtable;
  opened_at = half_past_two;
}

abbrev request : SealRequest exact.Rate
request = record {
  store = hot;
  tmp_dir = b't' ∷ [];
  shard = 0x0a07;
  event_type = 10;
  opened_at = half_past_two;
  sealed_at = second 3;
  memtable = record {
    key_hashes = 9 ∷ 7 ∷ [];
    timestamps = second 1 ∷ second 2 ∷ [];
    payloads = (1 ∷ []) ∷ (2 ∷ 3 ∷ []) ∷ [];
    approx_bytes = 35;
  };
  retention = pos 0;
  bloom_fpr = true;
  idx_chunk_size = pos 1;
}

abbrev asked : SealRequest exact.Rate
asked = last memory stored exact insertion 0x0a07 config hot refl (second 3) empty_node writer

abbrev drained : ShardWriter Table
drained = taken memory stored exact insertion 0x0a07 config hot refl (second 3) empty_node writer

asked_same : asked ≡ request
unfolding request_of take_in append_events append new_memtable
asked_same = refl

abbrev here : BlockId
here = block_id_for_shard 0x0a07 half_past_two

abbrev sealed_node : Node Table
sealed_node = (seal memory stored exact insertion asked drained.node).1

seal_ran : (seal memory stored exact insertion asked drained.node).0 ≡ ok here
unfolding seal write_block_body serialize put bloom_path unique_key_hashes sort insertion_sort
    seal_batch put_idx_batch eq_bytes block_id_for_shard block_id_from_shard_and_hour hexadecimal
    decimal civil_of take_in request_of append new_memtable append_events
seal_ran = refl

abbrev in_order : Memtable
in_order = record {
  key_hashes = 7 ∷ 9 ∷ [];
  timestamps = second 2 ∷ second 1 ∷ [];
  payloads = (2 ∷ 3 ∷ []) ∷ (1 ∷ []) ∷ [];
  approx_bytes = 35;
}

sorted_same : sorted memory stored exact insertion request ≡ in_order
unfolding sort insertion_sort
sorted_same = refl

in_order-IsSealable : IsSealable stored in_order
unfolding compress_uint64_column compress_int64_column compress_bytes_column put_u64s put_payloads
    put_be unwrap
in_order-IsSealable = omega arith

-- What the three conditions say of a request and its sorted memtable.
record Fits (r : SealRequest exact.Rate) (mt : Memtable) : Type 0 where
  sealable : IsSealable stored mt
  head : IsBlockHeader (header_of r mt)
  meta :
      IsBlockMeta
        (meta_of r (body_footer stored mt) (length (block_file stored (header_of r mt) mt)))

in_order-Fits : Fits request in_order
unfolding body_footer compress_uint64_column compress_int64_column compress_bytes_column put_u64s
    put_payloads put_be unwrap encode_header encode_footer
in_order-Fits = record {
  sealable = in_order-IsSealable;
  head = omega arith;
  meta = omega (arith, crc32_lt (body_bytes stored in_order));
}

asked-Fits : Fits asked (sorted memory stored exact insertion asked)
asked-Fits =
    subst (λ r. Fits r (sorted memory stored exact insertion r)) (sym asked_same)
      (subst (Fits request) (sym sorted_same) in_order-Fits)

abbrev cache : BloomCache Bytes
cache = new_bloom_cache hot (pos 0)

cache-IsFresh : IsFresh exact sealed_node.fs hot cache
cache-IsFresh = record {
  good = new_bloom_cache-IsGood hot (pos 0);
  here = unfold new_bloom_cache in refl;
  loaded = λ id e h. unfold new_bloom_cache in absurd (ground (arith, h));
}

empty-KeysAreBytes : KeysAreBytes memory empty_node.db
unfolding empty_table
empty-KeysAreBytes q v h = absurd (ground (arith, h))

abbrev tiers : ℕ → Option LocalStore
tiers t = some hot

abbrev question : QueryRequest
question = record {
  partition_key = 7 ∷ 7 ∷ [];
  event_type = some 10;
  from = half_past_two;
  to = second 3;
}

matched :
    matches (key_hash_for by_first_byte question.partition_key) question.from question.to wanted
    ≡ true
unfolding key_hash_for
matched = refl

held : Mem wanted (rows new_memtable ++ contents full)
unfolding rows new_memtable
held = mem-cons_of_mem _ mem-cons_self

query-stop_writer_example :
    (w' : ShardWriter Table) × (stop_writer memory stored exact insertion config
        (second 3)
        0x0a07
        empty_node
        writer
      ≡ some w')
    × (((failure : Error) × ((query memory exact stored listed by_first_byte w'.node.db w'.node.fs
              tiers question cache).0
            ≡ err failure))
        ⊎ ((all : List Event) × ((query memory exact stored listed by_first_byte w'.node.db
                w'.node.fs tiers question cache).0
              ≡ ok (some all))
            × Mem wanted all))
query-stop_writer_example =
    query-stop_writer memory stored exact insertion 0x0a07 config hot refl (second 3) empty_node
      writer listed by_first_byte 1 wanted here question tiers cache
      (memory.content sealed_node.db (block_key (name memory stored exact insertion asked)))
      full-IsRing new_memtable-IsMemtable held seal_ran asked-Fits.sealable asked-Fits.head
      asked-Fits.meta (omega arith) empty-KeysAreBytes matched (inr refl) (omega arith)
      (omega arith) refl cache-IsFresh refl
