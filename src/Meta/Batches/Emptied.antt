-- ===== src/Meta/Batches/Emptied.antt =====
-- The batch of a seal on the log of its shard and on the counters.
use bbdb.Base.{ℕ, ◌≡◌, ap, true, false, none, arith, Bool-cases, inl, inr, ok}
use bbdb.Base.Bytes.{Bytes, eq_bytes, eq_bytes→eq}
use bbdb.Kv.{Pebble}
use bbdb.Meta.Keys.{BlockId, block_key, expiry_key, idx_key, wal_seq_key}
use bbdb.Meta.Wal.Append.{wal_range, wal_range-seq_key}
use bbdb.Meta.Blocks.{BlockMeta}
use bbdb.Meta.Batches.{seal_batch}
use bbdb.Meta.Batches.Effects.{seal_batch-content, wal_range-block_key, wal_range-expiry_key}

expiry_key-ne-seq_key :
    (s h : ℕ) (id : BlockId) → eq_bytes (expiry_key h id) (wal_seq_key s) ≡ false
unfolding expiry_key wal_seq_key eq_bytes
expiry_key-ne-seq_key s h id = ground arith

block_key-ne-seq_key : (s : ℕ) (id : BlockId) → eq_bytes (block_key id) (wal_seq_key s) ≡ false
unfolding block_key wal_seq_key eq_bytes
block_key-ne-seq_key s id = ground arith

pub seq_key-ne-idx_key :
    (s et h : ℕ) (id : BlockId) → eq_bytes (wal_seq_key s) (idx_key et h id) ≡ false
unfolding idx_key wal_seq_key eq_bytes
seq_key-ne-idx_key s et h id = ground arith

module _ (P : Pebble) where
  open P use {Db, content}

  module _ (db db' : Db) (shard hour : ℕ) (id : BlockId) (bm : BlockMeta)
      (run : seal_batch P shard id bm hour db ≡ (ok tt, db')) where
    -- The log is empty.
    pub seal_batch-wal_range : (q : Bytes) → wal_range shard q ≡ true → content db' q ≡ none
    seal_batch-wal_range q i = elim (Bool-cases (eq_bytes (expiry_key hour id) q)) [
      | inl t ↦ absurd (
          ground (
            arith,
            i,
            ap (wal_range shard) (eq_bytes→eq (expiry_key hour id) q t),
            wal_range-expiry_key shard hour id,
          ))
      | inr f ↦ elim (Bool-cases (eq_bytes (block_key id) q)) [
        | inl t ↦ absurd (
            ground (
              arith,
              i,
              ap (wal_range shard) (eq_bytes→eq (block_key id) q t),
              wal_range-block_key shard id,
            ))
        | inr g ↦ ground (arith, i, f, g, seal_batch-content P db db' shard hour id bm run q)
      ]
    ]

    -- No counter changes.
    pub seal_batch-seq_key : (s : ℕ) → content db' (wal_seq_key s) ≡ content db (wal_seq_key s)
    seal_batch-seq_key s = ground (
      arith,
      expiry_key-ne-seq_key s hour id,
      block_key-ne-seq_key s id,
      wal_range-seq_key shard s,
      seal_batch-content P db db' shard hour id bm run (wal_seq_key s),
    )
