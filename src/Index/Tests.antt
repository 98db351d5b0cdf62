-- ===== src/Index/Tests.antt =====
-- The sparse index and the bloom cache at concrete values.
use mathlib.Core.List.{Mem}
use bbdb.Base.{ℕ, ◌%◌, ◌≡◌, ◌≢◌, ◌↔◌, refl, List, [], ◌∷◌, true, false, some, none, ok, arith}
use bbdb.Base.Int.{pos, pos_part, neg_part, ◌+ℤ◌, ◌≤ℤ◌, ◌<ℤ◌}
use bbdb.Base.Bytes.{Bytes, eq_bytes, put_be, get_be, ltb_bytes}
use bbdb.Kv.Memory.{keys-AreBytes, memory, Table, empty_table, run_all, scan_range}
use bbdb.Files.{Fs}
use bbdb.Calendar.{Instant, hour_nanos, civil_of, date}
use bbdb.Block.Routing.{block_id_for_shard}
use bbdb.Block.Bloom.Exact.{exact, holds}
use bbdb.Meta.Keys.{
  BlockId, idx_key, idx_key_prefix, idx_key_upper, parse_idx_key, block_id_from_shard_and_hour,
}
use bbdb.Meta.Idx.{idx_lookup_blocks, block_ids, put_idx_batch}
use bbdb.Calendar.Digits.{decimal, hexadecimal, atoi}
use bbdb.Tier.Local.{bloom_path, LocalStore}
use bbdb.Block.Bloom.{deserialize_bloom, test_hash}
use bbdb.Index.Sparse
use bbdb.Index.Sparse.{add_block, parse_block_hour, in_hours}
use bbdb.Index.Sparse.Found.{lookup_lem}
use bbdb.Index.Sparse.Unique.{block_id_for_shard_injective}
use bbdb.Index.BloomCache.{BloomCache, new_bloom_cache, evict_oldest, load_from_disk, test, evict}
use bbdb.Index.BloomCache.Bounded.{IsGood, test-IsGood, new_bloom_cache-IsGood}
use bbdb.Index.BloomCache.Transparent.{
  Request, test_key, evict_block, answers, file_answers, answers_lem,
}

-- The 11th of June 2026, 14:30 UTC.
abbrev half_past_two : Instant
half_past_two = pos 1_781_188_200_000_000_000

abbrev named : BlockId
named = block_id_for_shard 0x0a07 half_past_two

abbrev indexed : Table
unfolding add_block
indexed = (add_block memory 10 77 named empty_table).1

lookup_lem_example : Mem named (named ∷ []) ↔ (memory.content indexed (idx_key 10 77 named) ≢ none)
unfolding Sparse.lookup idx_lookup_blocks block_ids parse_idx_key run_all scan_range empty_table
    idx_key idx_key_prefix idx_key_upper put_be get_be eq_bytes ltb_bytes block_id_for_shard
    block_id_from_shard_and_hour hexadecimal decimal civil_of in_hours parse_block_hour date atoi
    put_idx_batch ◌+ℤ◌ indexed
lookup_lem_example =
    lookup_lem memory indexed 10 77 0x0a07 (pos 1_781_186_400_000_000_000)
      (pos 1_781_190_000_000_000_000) half_past_two (named ∷ []) (omega arith) (omega arith)
      (keys-AreBytes indexed.entries (omega arith)) (omega arith) (omega arith) (omega arith) refl

abbrev a_shard : ℕ
a_shard = 0x0a07

-- Ten minutes later.
abbrev later : Instant
later = pos 1_781_188_800_000_000_000

block_id_for_shard_injective_example :
    (a_shard ≡ a_shard)
    × (h : Instant) × (parse_block_hour named ≡ ok h)
    × (pos_part h % hour_nanos ≡ 0)
    × (neg_part h % hour_nanos ≡ 0)
    × (h ≤ℤ half_past_two)
    × (half_past_two <ℤ h +ℤ pos hour_nanos)
    × (h ≤ℤ later)
    × (later <ℤ h +ℤ pos hour_nanos)
unfolding block_id_for_shard block_id_from_shard_and_hour hexadecimal decimal civil_of
block_id_for_shard_injective_example =
    block_id_for_shard_injective a_shard a_shard half_past_two later (omega arith) (omega arith)
      (omega arith) (omega arith) refl

abbrev store : LocalStore
store = record { root = b'h' ∷ []; tier = 0 }

abbrev a_block : BlockId
a_block = b'0' ∷ b'7' ∷ b':' ∷ b'T' ∷ []

abbrev b_block : BlockId
b_block = b'0' ∷ b'7' ∷ b':' ∷ b'U' ∷ []

-- Each filter is a file of eight bytes, and the cap is for twelve.
abbrev disk : Fs
disk = record { content = λ p. some (0 ∷ 0 ∷ 0 ∷ 0 ∷ 0 ∷ 0 ∷ 0 ∷ 7 ∷ []); fault = λ c p. false }

abbrev one_loaded : BloomCache Bytes
unfolding test
one_loaded = (test exact disk a_block 7 (new_bloom_cache store (pos 12))).1

one_loaded-IsGood : IsGood one_loaded
unfolding one_loaded test
one_loaded-IsGood =
    (test-IsGood exact disk a_block 7 (new_bloom_cache store (pos 12))
      (new_bloom_cache-IsGood store (pos 12))).0

test-IsGood_example :
    IsGood (test exact disk b_block 7 one_loaded).1 × IsGood (evict b_block one_loaded)
test-IsGood_example = test-IsGood exact disk b_block 7 one_loaded one_loaded-IsGood

-- The first filter gave way to the second.
room_was_made : (test exact disk b_block 7 one_loaded).1.used_mem ≡ pos 8
unfolding test new_bloom_cache eq_bytes deserialize_bloom ◌+ℤ◌ bloom_path evict_oldest one_loaded
room_was_made = refl

abbrev calls : List Request
calls =
    test_key a_block 7
    ∷ test_key b_block 7
    ∷ test_key a_block 8
    ∷ evict_block a_block
    ∷ test_key a_block 7
    ∷ []

answers_lem_example :
    answers exact disk calls (new_bloom_cache store (pos 12))
    ≡ ok true ∷ ok true ∷ ok false ∷ ok true ∷ []
unfolding file_answers load_from_disk deserialize_bloom test_hash bloom_path holds
answers_lem_example = answers_lem exact disk store (pos 12) calls
