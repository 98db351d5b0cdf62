-- ===== src/Meta/Tests.antt =====
-- The storage engine's keys and batches at concrete values, over the engine in memory.
use mathlib.Core.List.{Mem}
use bbdb.Base.{
  ◌≡◌, refl, List, [], ◌∷◌, ◌++◌, true, false, some, ok, arith, All, Bool-cases, inl, inr, subst,
}
use bbdb.Base.Int.{pos}
use bbdb.Base.Bytes.{Bytes, IsByte, put_be, get_be, eq_bytes, eq_bytes→eq, ltb_bytes}
use bbdb.Kv.Sorted.{in_range, lookup, Entries}
use bbdb.Kv.Memory.{memory, Table, empty_table, run_all, scan_range}
use bbdb.Meta.Keys.{
  BlockId, wal_key, wal_key_start, wal_key_end, parse_wal_key, idx_key, expiry_key,
  parse_expiry_key, block_key, wal_seq_key, expiry_key_upper_bound, prefix_expiry, idx_key_prefix,
  idx_key_upper,
}
use bbdb.Meta.Keys.RoundTrip.{parse-wal_key, parse-expiry_key}
use bbdb.Meta.Keys.Order.{in_range-expiry_key, in_range-idx_key}
use bbdb.Meta.Blocks.{BlockMeta, encode_block_meta, decode_block_meta, put_block_meta}
use bbdb.Meta.Blocks.RoundTrip.{decode-encode_block_meta}
use bbdb.Meta.Wal.{wal_append, wal_scan}
use bbdb.Meta.Wal.Append.{LogState, wal_append_lem}
use bbdb.Meta.Expiry.{expired_entries, scan_expired_entries, put_expiry_key}
use bbdb.Meta.Expiry.Scan.{scan_expired_entries_lem, entry}
use bbdb.Meta.Idx.{put_idx_batch}
use bbdb.Meta.Batches.{seal_batch, delete_block_and_expiry}
use bbdb.Meta.Batches.Effects.{seal_batch_lem, last_shard_log}

abbrev a_block : BlockId
a_block = b'0' ∷ b'7' ∷ b':' ∷ b'T' ∷ []

parse-wal_key_example : parse_wal_key (wal_key 0x0a07 300) ≡ ok (0x0a07, 300)
parse-wal_key_example = parse-wal_key 0x0a07 300 (omega arith) (omega arith)

parse-expiry_key_example : parse_expiry_key (expiry_key 500_000 a_block) ≡ ok (500_000, a_block)
parse-expiry_key_example = parse-expiry_key 500_000 a_block (omega arith)

in_range-expiry_key_example :
    in_range prefix_expiry (expiry_key_upper_bound 9) (expiry_key 9 a_block) ≡ true
in_range-expiry_key_example = in_range-expiry_key 9 9 a_block (omega arith) (omega arith)

in_range-idx_key_example :
    in_range (idx_key_prefix 3 5) (idx_key_upper 3 5) (idx_key 3 6 a_block) ≡ false
in_range-idx_key_example = in_range-idx_key 3 5 3 6 a_block (omega arith) (omega arith)

abbrev a_meta : BlockMeta
a_meta = record {
  shard_id = 7;
  opened_at = pos 3_600;
  sealed_at = pos 7_200;
  tier = 0;
  size = 4096;
  checksum = 12345;
}

decode-encode_block_meta_example : decode_block_meta (encode_block_meta a_meta) ≡ ok a_meta
decode-encode_block_meta_example = (decode-encode_block_meta a_meta (omega arith)).0

with_block_meta : Table
unfolding put_block_meta
with_block_meta = (put_block_meta memory a_block a_meta empty_table).1

fresh_log : LogState memory empty_table 7 0
unfolding empty_table
fresh_log = record { counter = refl; below = λ k v i e. absurd (ground (arith, e)) }

abbrev an_event : Bytes
an_event = b'e' ∷ []

with_event : Table
unfolding wal_append
with_event = (wal_append memory 7 an_event empty_table).1

wal_append_lem_example :
    (◌≡◌ {A = List Bytes} (an_event ∷ []) ([] ++ an_event ∷ [])) × LogState memory with_event 7 1
unfolding with_event wal_scan empty_table run_all scan_range wal_key_start wal_key_end wal_key
    wal_seq_key put_be eq_bytes ltb_bytes
wal_append_lem_example =
    wal_append_lem memory empty_table with_event 7 0 an_event [] (an_event ∷ []) (omega arith)
      (omega arith) fresh_log refl refl refl

with_block : Table
unfolding seal_batch
with_block = (seal_batch memory 7 a_block a_meta 500_000 with_event).1

seal_batch_lem_example :
    memory.content with_block (block_key a_block) ≡ some (encode_block_meta a_meta)
unfolding with_block with_event wal_scan empty_table run_all scan_range wal_key_start wal_key_end
    wal_key wal_seq_key block_key expiry_key put_be eq_bytes ltb_bytes
seal_batch_lem_example =
    (seal_batch_lem memory with_event with_block 7 500_000 a_block a_meta refl 9 [] [] [] refl refl
      refl (omega arith) (omega arith) (omega arith)).0

last_shard_log_example :
    memory.content (seal_batch memory 65535 a_block a_meta 500_000 with_event).1 (wal_key 65535 0)
    ≡ memory.content with_event (wal_key 65535 0)
unfolding with_block with_event wal_scan empty_table run_all scan_range wal_key_start wal_key_end
    wal_key wal_seq_key block_key expiry_key put_be eq_bytes ltb_bytes seal_batch wal_append
last_shard_log_example =
    (last_shard_log memory with_event _ 500_000 0 a_block a_meta [] refl refl).1

without_block : Table
unfolding delete_block_and_expiry
without_block = (delete_block_and_expiry memory 500_000 a_block with_block).1

indexed : Table
unfolding put_idx_batch
indexed = (put_idx_batch memory 10 (5 ∷ 6 ∷ []) a_block empty_table).1

-- The keys of a table are bytes if those of its entries are.
keys_are_bytes :
    (es : Entries)
    → All (λ e. All IsByte e.0) es
    → (q v : Bytes) → lookup q es ≡ some v
    → All IsByte q
keys_are_bytes [] h q v e = absurd (ground (arith, e))
keys_are_bytes ((k, w) ∷ es) h q v e = elim (Bool-cases (eq_bytes k q)) [
  | inl t ↦ subst (All IsByte) (eq_bytes→eq k q t) h.0
  | inr f ↦ keys_are_bytes es h.1 q v (rw f at e)
]

expiring : Table
unfolding put_expiry_key
expiring = (put_expiry_key memory 500_000 a_block empty_table).1

scan_expired_entries_lem_example : Mem (entry 500_000 a_block) (entry 500_000 a_block ∷ [])
unfolding expiring scan_expired_entries expired_entries parse_expiry_key run_all scan_range
    empty_table expiry_key expiry_key_upper_bound put_be get_be eq_bytes ltb_bytes
scan_expired_entries_lem_example =
    (scan_expired_entries_lem memory expiring 500_001 500_000 a_block (entry 500_000 a_block ∷ [])
        (omega arith) (keys_are_bytes expiring.entries (omega arith)) refl).0
      (omega arith) (λ e. ground (arith, e))
