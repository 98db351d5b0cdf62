-- ===== src/Block/Sealer/Tests.antt =====
-- Seals at concrete memtables.
use bbdb.Base.{◌≡◌, refl, ap, [], ◌∷◌, true, false, none, ok, err, Bool}
use bbdb.Base.Int.{pos}
use bbdb.Base.Bytes.{eq_bytes}
use bbdb.Kv.Memory.{memory, Table, empty_table}
use bbdb.Node.{Node}
use bbdb.Files.{Call, rename_to, refused}
use bbdb.Calendar.{Instant, civil_of}
use bbdb.Block.Stored.{stored}
use bbdb.Block.Memtable.{Memtable, unique_key_hashes, sort}
use bbdb.Block.Memtable.Insertion.{insertion, insertion_sort}
use bbdb.Block.Bloom.{serialize}
use bbdb.Calendar.Digits.{decimal, hexadecimal}
use bbdb.Tier.Local.{put, bloom_path}
use bbdb.Block.Body.{write_block_body}
use bbdb.Meta.Batches.{seal_batch}
use bbdb.Meta.Idx.{put_idx_batch}
use bbdb.Block.Bloom.Exact.{exact}
use bbdb.Block.Routing.{block_id_for_shard}
use bbdb.Block.Sealer.{SealRequest, seal, expiry_hour}
use bbdb.Block.Sealer.Sealed.{IsSealed, seal_lem}
use bbdb.Block.Sealer.Failed.{SameButBlock, seal-err}
use bbdb.Meta.Keys.{BlockId, block_id_from_shard_and_hour}

abbrev unsorted : Memtable
unsorted = record {
  key_hashes = 9 ∷ 7 ∷ 7 ∷ [];
  timestamps = pos 1 ∷ pos 12 ∷ pos 3 ∷ [];
  payloads = (1 ∷ []) ∷ (2 ∷ 3 ∷ []) ∷ [] ∷ [];
  approx_bytes = 51;
}

-- The 11th of June 2026, 14:30 UTC.
abbrev half_past_two : Instant
half_past_two = pos 1_781_188_200_000_000_000

-- Two index entries a batch would need two batches for three keys.
abbrev request : SealRequest exact.Rate
request = record {
  store = record { root = b'h' ∷ []; tier = 0 };
  tmp_dir = b't' ∷ [];
  shard = 0x0a07;
  event_type = 10;
  opened_at = half_past_two;
  sealed_at = half_past_two;
  memtable = unsorted;
  retention = pos 0;
  bloom_fpr = true;
  idx_chunk_size = pos 1;
}

abbrev named : BlockId
named =
    b'0' ∷ b'a' ∷ b'0' ∷ b'7' ∷ b':' ∷ b'2' ∷ b'0' ∷ b'2' ∷ b'6' ∷ b'-' ∷ b'0' ∷ b'6' ∷ b'-' ∷ b'1'
    ∷ b'1' ∷ b'T' ∷ b'1' ∷ b'4' ∷ []

block_name : block_id_for_shard 0x0a07 half_past_two ≡ named
unfolding block_id_for_shard block_id_from_shard_and_hour hexadecimal decimal civil_of
block_name = refl

five_years : expiry_hour half_past_two (pos 0) ≡ 538_574
unfolding expiry_hour
five_years = refl

abbrev empty_node : Node Table
empty_node = record { db = empty_table; fs = record { content = λ p. none; fault = λ c p. false } }

abbrev sealed_node : Node Table
unfolding seal
sealed_node = (seal memory stored exact insertion request empty_node).1

seal_ran :
    (seal memory stored exact insertion request empty_node).0
    ≡ ok (block_id_for_shard 0x0a07 half_past_two)
unfolding seal write_block_body serialize put bloom_path unique_key_hashes sort insertion_sort
    seal_batch put_idx_batch eq_bytes block_id_for_shard block_id_from_shard_and_hour hexadecimal
    decimal civil_of
seal_ran = refl

seal_lem_example :
    IsSealed memory stored exact insertion request empty_table sealed_node
      (block_id_for_shard 0x0a07 half_past_two)
unfolding seal
seal_lem_example =
    seal_lem memory stored exact insertion request empty_node sealed_node
      (block_id_for_shard 0x0a07 half_past_two) (ap (λ r. (r, sealed_node)) seal_ran)

abbrev is_rename : Call → Bool
is_rename rename_to = true
is_rename c = false

-- The last step on the files is refused.
abbrev stuck_node : Node Table
stuck_node = record {
  db = empty_table;
  fs = record { content = λ p. none; fault = λ c p. is_rename c };
}

seal_failed : (seal memory stored exact insertion request stuck_node).0 ≡ err refused
unfolding seal write_block_body serialize put bloom_path unique_key_hashes sort insertion_sort
    eq_bytes block_id_for_shard block_id_from_shard_and_hour hexadecimal decimal civil_of
seal_failed = refl

seal-err_example :
    SameButBlock memory stored exact insertion request stuck_node
      (seal memory stored exact insertion request stuck_node).1
seal-err_example = seal-err memory stored exact insertion request stuck_node refused seal_failed
