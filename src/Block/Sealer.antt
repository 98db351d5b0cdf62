-- ===== src/Block/Sealer.antt =====
-- internal/block/sealer.go: a memtable becomes a block file, a bloom file and the metadata of a block.
-- The store is the local one. The caller drops the memtable, which is sorted in place.
pub mod Typed
pub mod Files
pub mod Written
pub mod Chunks
pub mod Paths
pub mod Failed
mod Tests
pub mod Sealed
use bbdb.Base.{
  ℕ, zero, suc, ◌+◌, ◌-◌, ◌*◌, ◌/◌, ◌%◌, ◌^◌, ◌≡◌, List, [], ◌∷◌, ◌++◌, Bool, Option, none, some,
  ◌==◌, ltb, if◌then◌else◌, length, take, drop, Result, ok, err,
}
use bbdb.Base.Int.{ℤ, pos, negsuc, to_u64}
use bbdb.Base.Bytes.{Bytes}
use bbdb.Base.State.{St, ◌>>=◌, ◌>>◌, ◌or_else◌, pure, lift}
use bbdb.Kv.{Pebble}
use bbdb.Node.{Node, on_db, on_fs}
use bbdb.Files.{Fs, FilePath, mkdir_all, create_file, write_file, sync_file, stat_file, remove_file}
use bbdb.Calendar.{Instant}
use bbdb.Block.Columns.{Zstd}
use bbdb.Block.Header.{BlockHeader}
use bbdb.Block.Footer.{BlockFooter, encode_footer}
use bbdb.Block.Body.{write_block_body}
use bbdb.Block.Memtable.{Memtable, SortSlice, sort, len, unique_key_hashes}
use bbdb.Block.Bloom.{BloomLib, build_bloom_from_memtable, serialize}
use bbdb.Block.Routing.{block_id_for_shard}
use bbdb.Meta.Keys.{BlockId}
use bbdb.Meta.Blocks.{BlockMeta, tier_hot}
use bbdb.Meta.Idx.{put_idx_batch}
use bbdb.Meta.Batches.{seal_batch}
use bbdb.Tier.Local.{LocalStore, join_onto, bloom_path, put}

abbrev pub default_idx_chunk_size : ℕ
default_idx_chunk_size = 100_000

-- Five years.
abbrev pub default_retention_hours : ℕ
default_retention_hours = 5 * 365 * 24

-- `retention` is in nanoseconds.
pub record SealRequest (Rate : Type 0) : Type 0 where
  pub store : LocalStore
  pub tmp_dir : FilePath
  pub shard : ℕ
  pub event_type : ℕ
  pub opened_at : Instant
  pub sealed_at : Instant
  pub memtable : Memtable
  pub retention : ℤ
  pub bloom_fpr : Rate
  pub idx_chunk_size : ℤ

-- What is before the last slash.
unfoldable pub before_slash : FilePath → Option FilePath
before_slash [] = none
before_slash (b ∷ bs) = elim (before_slash bs) [
  | some p ↦ some (b ∷ p)
  | none ↦ if b == b'/' then some [] else none
]

-- `filepath.Dir`, of a clean path.
unfoldable pub dir_of : FilePath → FilePath
unfolding before_slash
dir_of p = elim (before_slash p) [ none ↦ b'.' ∷ [] | some [] ↦ b'/' ∷ [] | some (b ∷ d) ↦ b ∷ d ]

abbrev pub tmp_ext : Bytes
tmp_ext = b'.' ∷ b'b' ∷ b'l' ∷ b'o' ∷ b'c' ∷ b'k' ∷ b'.' ∷ b't' ∷ b'm' ∷ b'p' ∷ []

unfoldable pub tmp_path : FilePath → BlockId → FilePath
unfolding join_onto
tmp_path tmp_dir id = join_onto [] (tmp_dir ∷ (id ++ tmp_ext) ∷ [])

-- `time.Unix(0, openedAt).UTC().Unix() / 3600` as a uint64: whole seconds down, whole hours towards 0.
unfoldable pub open_hour : Instant → ℕ
open_hour (pos n) = n / 10 ^ 9 / 3600
open_hour (negsuc n) = (2 ^ 64 - (n / 10 ^ 9 + 1) / 3600) % 2 ^ 64

-- Whole hours towards 0, as a uint64. `Hours()` is a float64, which holds an hour and its part where the hour is
-- small. Go leaves the conversion of a negative float64 to the platform: it wraps, as on amd64.
unfoldable pub whole_hours : ℤ → ℕ
whole_hours (pos n) = n / (3600 * 10 ^ 9)
whole_hours (negsuc n) = (2 ^ 64 - (n + 1) / (3600 * 10 ^ 9)) % 2 ^ 64

unfoldable pub retention_hours : ℤ → ℕ
unfolding whole_hours
retention_hours retention =
    let hours = whole_hours retention in if hours == 0 then default_retention_hours else hours

-- The sum is a uint64.
unfoldable pub expiry_hour : Instant → ℤ → ℕ
unfolding open_hour retention_hours
expiry_hour opened_at retention = (open_hour opened_at + retention_hours retention) % 2 ^ 64

unfoldable pub chunk_size : ℤ → ℕ
chunk_size (pos zero) = default_idx_chunk_size
chunk_size (pos (suc n)) = suc n
chunk_size (negsuc n) = default_idx_chunk_size

-- Two removals behind an error, whatever becomes of the first.
abbrev pub remove_both : FilePath → FilePath → St Fs (Unit {0})
remove_both p q fs = remove_file q ((remove_file p fs).1)

module _ (z : Zstd) where
  -- Step 1 and 2 of `Seal`, behind the creation of the file: the footer, and the size of the file.
  unfoldable pub fill_tmp : FilePath → BlockHeader → Memtable → St Fs (BlockFooter × ℕ)
  fill_tmp tmp hdr mt = write_block_body z tmp hdr mt >>= λ footer.
      write_file tmp (encode_footer footer)
      >> sync_file tmp
      >> (stat_file tmp >>= λ size. pure (footer, size))

  unfoldable pub write_tmp : FilePath → FilePath → BlockHeader → Memtable → St Fs (BlockFooter × ℕ)
  unfolding fill_tmp
  write_tmp tmp_dir tmp hdr mt =
      mkdir_all tmp_dir >> create_file tmp >> (fill_tmp tmp hdr mt or_else remove_file tmp)

module _ (B : BloomLib) where
  -- Step 3.
  unfoldable pub write_bloom : FilePath → FilePath → Memtable → B.Rate → St Fs (Unit {0})
  unfolding dir_of
  write_bloom tmp path mt fpr =
      (lift (serialize B (build_bloom_from_memtable B mt fpr)) or_else remove_file tmp) >>= λ bytes.
      ((mkdir_all (dir_of path) >> create_file path) or_else remove_file tmp)
      >> ((write_file path bytes >> sync_file path) or_else remove_both path tmp)

-- The header of the block: its number of rows is that of the memtable.
abbrev pub header_of : {Rate : Type 0} → SealRequest Rate → Memtable → BlockHeader
header_of req mt = record {
  shard_id = req.shard;
  event_type = req.event_type;
  opened_at = req.opened_at;
  sealed_at = req.sealed_at;
  row_count = len mt;
}

-- The metadata of the block: a hot one.
abbrev pub meta_of : {Rate : Type 0} → SealRequest Rate → BlockFooter → ℕ → BlockMeta
meta_of req footer size = record {
  shard_id = req.shard;
  opened_at = req.opened_at;
  sealed_at = req.sealed_at;
  tier = tier_hot;
  size = size;
  checksum = footer.body_checksum;
}

module _ (P : Pebble) where
  open P use {Db}

  -- Step 5: the loop over `start`, one batch a turn. As many turns as there are hashes are enough.
  unfoldable pub put_idx_chunks : ℕ → ℕ → ℕ → List ℕ → BlockId → ℕ → St Db (Unit {0})
  put_idx_chunks zero event_type chunk hashes id start = pure tt
  put_idx_chunks (suc fuel) event_type chunk hashes id start =
      let end = if ltb (length hashes) (start + chunk) then length hashes else start + chunk in
      let next = put_idx_chunks fuel event_type chunk hashes id (start + chunk) in
      if ltb start (length hashes)
      then put_idx_batch P event_type (take (end - start) (drop start hashes)) id >> next
      else pure tt

  module _ (z : Zstd) (B : BloomLib) (S : SortSlice) where
    -- Step 4 to 6, behind the two files.
    unfoldable pub record_block :
        SealRequest B.Rate → BlockId → FilePath → Memtable → BlockFooter × ℕ → St (Node Db) BlockId
    unfolding put_idx_chunks chunk_size expiry_hour
    record_block req id tmp mt (footer, size) =
        let path = bloom_path req.store id in
        let hashes = unique_key_hashes mt in
        let bm = meta_of req footer size in
        on_fs (put req.store id tmp or_else remove_both path tmp)
        >> on_db (
            put_idx_chunks (length hashes) req.event_type (chunk_size req.idx_chunk_size) hashes id
              0)
        >> on_db (seal_batch P req.shard id bm (expiry_hour req.opened_at req.retention))
        >> pure id

    unfoldable pub seal : SealRequest B.Rate → St (Node Db) BlockId
    unfolding write_tmp write_bloom record_block tmp_path
    seal req =
        let mt = sort S req.memtable in
        let id = block_id_for_shard req.shard req.opened_at in
        let tmp = tmp_path req.tmp_dir id in
        on_fs (write_tmp z req.tmp_dir tmp (header_of req mt) mt) >>= λ written.
        on_fs (write_bloom B tmp (bloom_path req.store id) mt req.bloom_fpr)
        >> record_block req id tmp mt written
