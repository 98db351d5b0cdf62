-- ===== src/Query/Engine/Plan/Tests.antt =====
-- A seal and a query behind it at concrete values.
use mathlib.Core.List.{Mem, mem-cons_self, mem-cons_of_mem}
use bbdb.Base.{
  ◌≡◌, ◌+◌, ◌*◌, ◌⊎◌, refl, ap, subst, [], ◌∷◌, true, false, none, some, ok, err, Error, List,
  arith, inr, ℕ, Option, sym, length,
}
use bbdb.Base.Int.{pos, ◌+ℤ◌, to_u64, of_u64}
use bbdb.Base.Bytes.{Bytes, ltb_bytes, get_be, eq_bytes, put_be}
use bbdb.Kv.Memory.{run_all, memory, Table, empty_table, scan_range}
use bbdb.Index.Sparse
use bbdb.Index.Sparse.{in_hours, parse_block_hour}
use bbdb.Meta.Idx.{idx_lookup_blocks, block_ids, put_idx_batch}
use bbdb.Meta.Keys.{
  idx_key_prefix, idx_key_upper, parse_idx_key, BlockId, idx_key, block_key, expiry_key, wal_key,
  wal_key_start, wal_key_end, block_id_from_shard_and_hour,
}
use bbdb.Calendar.{date, Instant, civil_of}
use bbdb.Calendar.Digits.{atoi, decimal, hexadecimal}
use bbdb.Meta.Blocks.{get_block_meta, decode_block_meta, encode_block_meta, IsBlockMeta}
use bbdb.Query.BlockReader.{read_block, match_from, read_matches, pick_events}
use bbdb.Block.Bloom.{deserialize_bloom, test_hash, build_bloom_from_memtable, serialize}
use bbdb.Block.Bloom.Exact.{holds, exact}
use bbdb.Index.BloomCache.{load_from_disk, test, new_bloom_cache, BloomCache}
use bbdb.Tier.Local.{block_path, LocalStore, put, bloom_path}
use bbdb.Block.Crc.{crc32, crc32_lt}
use bbdb.Block.Footer.{decode_footer, encode_footer}
use bbdb.Block.Header.{decode_header, IsBlockHeader, encode_header}
use bbdb.Files.{read_at}
use bbdb.Block.Columns.{
  decompress_uint64_column, decompress_int64_column, decompress_bytes_column, get_u64s,
  get_payloads, put_u64s, put_payloads, compress_uint64_column, compress_int64_column,
  compress_bytes_column,
}
use bbdb.Query.Merger.{merge_events}
use bbdb.Block.Body.{read_filter_columns, write_block_body, body_footer, body_bytes}
use bbdb.Query.Engine.{merge_results, QueryRequest}
use bbdb.Node.{Node}
use bbdb.Block.Stored.{stored, unwrap}
use bbdb.Block.Event.{Event}
use bbdb.Block.Memtable.{Memtable, rows, unique_key_hashes, sort}
use bbdb.Block.Memtable.Insertion.{insertion, insertion_sort}
use bbdb.Block.Routing.FirstByte.{by_first_byte}
use bbdb.Block.Routing.{key_hash_for, block_id_for_shard}
use bbdb.Block.Sealer.{SealRequest, seal, expiry_hour, header_of, meta_of}
use bbdb.Meta.Batches.{seal_batch}
use bbdb.Query.Merger.Listed.{listed}
use bbdb.Query.Engine.Plan.{query}
use bbdb.Index.BloomCache.Transparent.{IsFresh}
use bbdb.Index.BloomCache.Bounded.{new_bloom_cache-IsGood}
use bbdb.Query.BlockReader.Sealed.{IsSealable, block_file, matches}
use bbdb.Meta.Idx.Lookup.{KeysAreBytes}
use bbdb.Query.Engine.Plan.Found.{query-seal}

-- The 11th of June 2026, 14:30 UTC.
abbrev half_past_two : Instant
half_past_two = pos 1_781_188_200_000_000_000

abbrev second : ℕ → Instant
second n = pos (1_781_188_200_000_000_000 + n * 1_000_000_000)

abbrev unsorted : Memtable
unsorted = record {
  key_hashes = 9 ∷ 7 ∷ [];
  timestamps = second 1 ∷ second 2 ∷ [];
  payloads = (1 ∷ []) ∷ (2 ∷ 3 ∷ []) ∷ [];
  approx_bytes = 35;
}

abbrev request : SealRequest exact.Rate
request = record {
  store = record { root = b'h' ∷ []; tier = 0 };
  tmp_dir = b't' ∷ [];
  shard = 0x0a07;
  event_type = 10;
  opened_at = half_past_two;
  sealed_at = second 3;
  memtable = unsorted;
  retention = pos 0;
  bloom_fpr = true;
  idx_chunk_size = pos 1;
}

abbrev empty_node : Node Table
empty_node = record { db = empty_table; fs = record { content = λ p. none; fault = λ c p. false } }

abbrev sealed_node : Node Table
unfolding seal
sealed_node = (seal memory stored exact insertion request empty_node).1

seal_ran :
    (seal memory stored exact insertion request empty_node).0
    ≡ ok (block_id_for_shard 0x0a07 half_past_two)
unfolding seal write_block_body serialize put bloom_path unique_key_hashes sort insertion_sort
    seal_batch put_idx_batch eq_bytes block_id_for_shard block_id_from_shard_and_hour hexadecimal
    decimal civil_of
seal_ran = refl

abbrev tiers : ℕ → Option LocalStore
tiers t = some request.store

abbrev question : QueryRequest
question = record {
  partition_key = 7 ∷ 7 ∷ [];
  event_type = some 10;
  from = half_past_two;
  to = second 3;
}

abbrev wanted : Event
wanted = record { key_hash = 7; timestamp = second 2; payload = 2 ∷ 3 ∷ [] }

abbrev in_order : Memtable
in_order = record {
  key_hashes = 7 ∷ 9 ∷ [];
  timestamps = second 2 ∷ second 1 ∷ [];
  payloads = (2 ∷ 3 ∷ []) ∷ (1 ∷ []) ∷ [];
  approx_bytes = 35;
}

sorted_same : sort insertion unsorted ≡ in_order
unfolding sort insertion_sort
sorted_same = refl

in_order-IsSealable : IsSealable stored in_order
unfolding compress_uint64_column compress_int64_column compress_bytes_column put_u64s put_payloads
    put_be unwrap
in_order-IsSealable = omega arith

sealable : IsSealable stored (sort insertion unsorted)
sealable = subst (IsSealable stored) (sym sorted_same) in_order-IsSealable

head_fits : IsBlockHeader (header_of request (sort insertion unsorted))
unfolding sort insertion_sort
head_fits = omega arith

meta_fits : IsBlockMeta (
    meta_of request
      (body_footer stored in_order)
      (length (block_file stored (header_of request in_order) in_order)))
unfolding body_footer compress_uint64_column compress_int64_column compress_bytes_column put_u64s
    put_payloads put_be unwrap encode_header encode_footer
meta_fits = omega (arith, crc32_lt (body_bytes stored in_order))

row_there : Mem wanted (rows unsorted)
unfolding rows
row_there = mem-cons_of_mem _ mem-cons_self

matched :
    matches (key_hash_for by_first_byte question.partition_key) question.from question.to wanted
    ≡ true
unfolding key_hash_for
matched = refl

abbrev cache : BloomCache Bytes
cache = new_bloom_cache request.store (pos 0)

cache-IsFresh : IsFresh exact sealed_node.fs request.store cache
cache-IsFresh = record {
  good = new_bloom_cache-IsGood request.store (pos 0);
  here = unfold new_bloom_cache in refl;
  loaded = λ id e h. unfold new_bloom_cache in absurd (ground (arith, h));
}

empty-KeysAreBytes : KeysAreBytes memory empty_node.db
unfolding empty_table
empty-KeysAreBytes q v h = absurd (ground (arith, h))

sorted_meta_fits : IsBlockMeta (
    meta_of request (body_footer stored (sort insertion unsorted)) (
      length (
        block_file stored (header_of request (sort insertion unsorted)) (sort insertion unsorted))))
sorted_meta_fits =
    subst
      (λ m. IsBlockMeta (
        meta_of request (body_footer stored m)
          (length (block_file stored (header_of request m) m))))
      (sym sorted_same) meta_fits

abbrev here : BlockId
here = block_id_for_shard 0x0a07 half_past_two

-- That query has exactly the event that was asked for.
query_ran :
    (query memory exact stored listed by_first_byte sealed_node.db sealed_node.fs tiers question
      cache).0
    ≡ ok (some (wanted ∷ []))
unfolding query seal Sparse.lookup idx_lookup_blocks block_ids parse_idx_key scan_range run_all
    empty_table idx_key idx_key_prefix idx_key_upper block_key expiry_key wal_key wal_key_start
    wal_key_end put_be get_be eq_bytes ltb_bytes in_hours parse_block_hour date atoi ◌+ℤ◌
    write_block_body block_id_for_shard block_id_from_shard_and_hour hexadecimal decimal civil_of
    serialize put bloom_path unique_key_hashes sort insertion_sort seal_batch put_idx_batch
    expiry_hour key_hash_for get_block_meta decode_block_meta encode_block_meta read_block
    body_footer compress_uint64_column compress_int64_column compress_bytes_column put_u64s
    put_payloads unwrap encode_header encode_footer deserialize_bloom test_hash holds
    new_bloom_cache load_from_disk sealed_node block_path crc32 to_u64 of_u64 decode_footer
    decode_header read_at decompress_uint64_column decompress_int64_column decompress_bytes_column
    get_u64s get_payloads match_from read_matches read_filter_columns merge_results
    build_bloom_from_memtable test merge_events pick_events
query_ran = refl

query-seal_example :
    ((failure : Error) × ((query memory exact stored listed by_first_byte sealed_node.db
          sealed_node.fs tiers question cache).0
        ≡ err failure))
    ⊎ ((all : List Event) × ((query memory exact stored listed by_first_byte sealed_node.db
            sealed_node.fs tiers question cache).0
          ≡ ok (some all))
        × Mem wanted all)
unfolding seal
query-seal_example =
    query-seal memory stored exact insertion listed by_first_byte request empty_node sealed_node
      here wanted (ap (λ r. (r, sealed_node)) seal_ran) (omega arith) sealable head_fits
      sorted_meta_fits row_there (omega arith) (omega arith) empty-KeysAreBytes question tiers cache
      (memory.content sealed_node.db (block_key here)) matched (inr refl) (omega arith)
      (omega arith) refl cache-IsFresh refl
