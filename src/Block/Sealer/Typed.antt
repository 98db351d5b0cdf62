-- ===== src/Block/Sealer/Typed.antt =====
-- The bytes of the keys that a seal writes.
use bbdb.Base.{
  ℕ, zero, suc, ◌-◌, ◌+◌, ◌<◌, List, take, drop, length, ltb, if◌then◌else◌, arith, Bool-cases, inl,
  inr,
}
use bbdb.Base.State.{St, ◌>>=◌, ◌>>◌, ◌or_else◌, pure}
use bbdb.Base.State.Keeps.{Keeps, Keeps-bind}
use bbdb.Kv.{Pebble}
use bbdb.Node.{Node, on_db, on_fs}
use bbdb.Files.{Fs, FilePath}
use bbdb.Calendar.{Instant, civil_of}
use bbdb.Calendar.Digits.{decimal, decimal-IsByte}
use bbdb.Block.Columns.{Zstd}
use bbdb.Block.Memtable.{Memtable, SortSlice, sort, unique_key_hashes}
use bbdb.Block.Bloom.{BloomLib}
use bbdb.Block.Footer.{BlockFooter}
use bbdb.Block.Routing.{hour_text, block_id_for_shard}
use bbdb.Block.Sealer.{
  SealRequest, put_idx_chunks, record_block, seal, write_tmp, write_bloom, remove_both, header_of,
  meta_of, tmp_path, chunk_size, expiry_hour,
}
use bbdb.Meta.Keys.{BlockId}
use bbdb.Meta.Keys.Typed.{AreBytes, append-AreBytes, block_id_from_shard_and_hour-AreBytes}
use bbdb.Meta.Idx.{put_idx_batch}
use bbdb.Meta.Idx.Lookup.{KeysAreBytes}
use bbdb.Meta.Batches.{seal_batch}
use bbdb.Meta.Typed.{
  StayBytes, KeepsTyped, typed_bind, put_idx_batch-KeepsTyped, seal_batch-KeepsTyped,
}
use bbdb.Tier.Local.{put, bloom_path}

pub block_id_for_shard-AreBytes : (shard : ℕ) (t : Instant) → AreBytes (block_id_for_shard shard t)
unfolding block_id_for_shard hour_text
block_id_for_shard-AreBytes shard t =
    let c = civil_of t in
    block_id_from_shard_and_hour-AreBytes shard (hour_text c) (
      append-AreBytes (decimal 4 c.year) _ (decimal-IsByte 4 c.year) (
        omega arith,
        append-AreBytes (decimal 2 c.month) _ (decimal-IsByte 2 c.month) (
          omega arith,
          append-AreBytes (decimal 2 c.day) _ (decimal-IsByte 2 c.day)
              (omega arith, decimal-IsByte 2 c.hour),
        ),
      ))

module _ (P : Pebble) where
  open P use {Db}

  put_idx_chunks-KeepsTyped :
      (fuel event_type chunk : ℕ) (hashes : List ℕ) (id : BlockId) (start : ℕ)
      → event_type < 256
      → AreBytes id
      → KeepsTyped P (put_idx_chunks P fuel event_type chunk hashes id start)
  unfolding put_idx_chunks
  put_idx_chunks-KeepsTyped zero event_type chunk hashes id start small b db = λ t. t
  put_idx_chunks-KeepsTyped (suc fuel) event_type chunk hashes id start small b db =
      elim (Bool-cases (ltb start (length hashes))) [
        | inr f ↦ rw f (λ t. t)
        | inl l ↦ rw l (
            typed_bind P (put_idx_batch P event_type (turn hashes) id)
              (λ u. put_idx_chunks P fuel event_type chunk hashes id (start + chunk))
              (put_idx_batch-KeepsTyped P event_type (turn hashes) id small b)
              (λ u.
                put_idx_chunks-KeepsTyped fuel event_type chunk hashes id (start + chunk) small b)
              db)
      ]
    where
      turn : List ℕ → List ℕ
      turn hs =
          take ((if ltb (length hs) (start + chunk) then length hs else start + chunk) - start)
            (drop start hs)

  -- The same, of a step on the node.
  abbrev NodeTyped : Node Db → Node Db → Type 0
  NodeTyped n n' = StayBytes P n.db n'.db

  on_fs-NodeTyped : {A : Type 0} (m : St Fs A) → Keeps NodeTyped (on_fs m)
  on_fs-NodeTyped m n t = t

  on_db-NodeTyped : {A : Type 0} (m : St Db A) → KeepsTyped P m → Keeps NodeTyped (on_db m)
  on_db-NodeTyped m k n t = k n.db t

  node_bind :
      {A C : Type 0} (m : St (Node Db) A) (f : A → St (Node Db) C)
      → Keeps NodeTyped m
      → ((a : A) → Keeps NodeTyped (f a))
      → Keeps NodeTyped (m >>= f)
  node_bind m f k l = Keeps-bind NodeTyped (λ s t. t) (λ s t u a b x. b (a x)) m f k l

  module _ (z : Zstd) (B : BloomLib) (S : SortSlice) (req : SealRequest B.Rate)
      (small : req.event_type < 256) where
    record_block-NodeTyped :
        (id : BlockId) (tmp : FilePath) (mt : Memtable) (w : BlockFooter × ℕ)
        → AreBytes id
        → Keeps NodeTyped (record_block P z B S req id tmp mt w)
    unfolding record_block
    record_block-NodeTyped id tmp mt w b =
        node_bind (placed >> on_db chunks >> on_db batch) (λ u. pure id)
          (node_bind (placed >> on_db chunks) (λ u. on_db batch)
            (node_bind placed (λ u. on_db chunks)
              (on_fs-NodeTyped
                (put req.store id tmp or_else remove_both (bloom_path req.store id) tmp))
              (λ u. on_db-NodeTyped chunks (
                put_idx_chunks-KeepsTyped (length hashes) req.event_type
                  (chunk_size req.idx_chunk_size) hashes id 0 small b)))
            (λ u. on_db-NodeTyped batch (
              seal_batch-KeepsTyped P req.shard id (meta_of req w.0 w.1)
                (expiry_hour req.opened_at req.retention) b)))
          (λ u n t. t)
      where
        hashes : List ℕ
        hashes = unique_key_hashes mt

        placed : St (Node Db) (Unit {0})
        placed = on_fs (put req.store id tmp or_else remove_both (bloom_path req.store id) tmp)

        chunks : St Db (Unit {0})
        chunks =
            put_idx_chunks P (length hashes) req.event_type (chunk_size req.idx_chunk_size) hashes
              id 0

        batch : St Db (Unit {0})
        batch =
            seal_batch P req.shard id (meta_of req w.0 w.1)
              (expiry_hour req.opened_at req.retention)

    pub seal-KeysAreBytes :
        (n : Node Db) → KeysAreBytes P n.db → KeysAreBytes P (seal P z B S req n).1.db
    unfolding seal
    seal-KeysAreBytes n =
        node_bind (on_fs (write_tmp z req.tmp_dir tmp (header_of req mt) mt))
          (λ w.
            on_fs (write_bloom B tmp (bloom_path req.store id) mt req.bloom_fpr)
            >> record_block P z B S req id tmp mt w)
          (on_fs-NodeTyped (write_tmp z req.tmp_dir tmp (header_of req mt) mt))
          (λ w.
            node_bind (on_fs (write_bloom B tmp (bloom_path req.store id) mt req.bloom_fpr))
              (λ u. record_block P z B S req id tmp mt w)
              (on_fs-NodeTyped (write_bloom B tmp (bloom_path req.store id) mt req.bloom_fpr))
              (λ u.
                record_block-NodeTyped id tmp mt w
                  (block_id_for_shard-AreBytes req.shard req.opened_at)))
          n
      where
        mt : Memtable
        mt = sort S req.memtable

        id : BlockId
        id = block_id_for_shard req.shard req.opened_at

        tmp : FilePath
        tmp = tmp_path req.tmp_dir id
