-- ===== src/Block/Sealer/Failed.antt =====
-- What a seal that fails leaves as it was.
use bbdb.Base.{ℕ, ◌≡◌, refl, ap, ◌∙◌, false, err, Error, arith, inl, inr, Result-cases, length}
use bbdb.Base.Bytes.{eq_bytes}
use bbdb.Base.State.{St, ◌>>◌, ◌or_else◌}
use bbdb.Base.State.Keeps.{
  Keeps, KeepsOnErr, Keeps-then, Keeps-or_else, KeepsOnErr-bind, KeepsOnErr-pure,
}
use bbdb.Kv.{Pebble}
use bbdb.Node.{Node, on_db, on_fs}
use bbdb.Files.{Fs, FilePath}
use bbdb.Block.Columns.{Zstd}
use bbdb.Block.Footer.{BlockFooter}
use bbdb.Block.Memtable.{Memtable, SortSlice, sort, unique_key_hashes}
use bbdb.Block.Bloom.{BloomLib}
use bbdb.Block.Routing.{block_id_for_shard}
use bbdb.Meta.Keys.{BlockId}
use bbdb.Meta.Engine.{committed}
use bbdb.Meta.Blocks.{BlockMeta}
use bbdb.Meta.Batches.{seal_batch, seal_mutations}
use bbdb.Tier.Local.{block_path, bloom_path, put}
use bbdb.Tier.Local.Effects.{put_lem}
use bbdb.Block.Sealer.{
  SealRequest, tmp_path, header_of, meta_of, write_tmp, write_bloom, remove_both, put_idx_chunks,
  chunk_size, expiry_hour, record_block, seal,
}
use bbdb.Block.Sealer.Files.{write_tmp-Confined, write_bloom-Confined, remove_both-Confined}
use bbdb.Block.Sealer.Chunks.{SameElse, put_idx_chunks-SameElse}

module _ (P : Pebble) (z : Zstd) (B : BloomLib) (S : SortSlice) (req : SealRequest B.Rate) where
  open P use {Db, content, commit}

  abbrev name : BlockId
  name = block_id_for_shard req.shard req.opened_at

  abbrev tmp : FilePath
  tmp = tmp_path req.tmp_dir name

  abbrev path : FilePath
  path = bloom_path req.store name

  -- The three files of the block apart, the file systems agree.
  abbrev FilesElse : Fs → Fs → Type 0
  FilesElse fs fs' =
      (q : FilePath)
      → eq_bytes tmp q ≡ false
      → eq_bytes path q ≡ false
      → eq_bytes (block_path req.store name) q ≡ false
      → fs'.content q ≡ fs.content q

  -- The index entries and the three files of the block apart, two nodes agree.
  abbrev pub SameButBlock : Node Db → Node Db → Type 0
  SameButBlock n n' = SameElse P req.event_type name n.db n'.db × FilesElse n.fs n'.fs

  R_refl : (n : Node Db) → SameButBlock n n
  R_refl n = (λ q h. refl, λ q a b c. refl)

  R_trans : (n m o : Node Db) → SameButBlock n m → SameButBlock m o → SameButBlock n o
  R_trans n m o v w = (λ q h. w.0 q h ∙ v.0 q h, λ q a b c. w.1 q a b c ∙ v.1 q a b c)

  on_fs-Keeps : {A : Type 0} (m : St Fs A) → Keeps FilesElse m → Keeps SameButBlock (on_fs m)
  on_fs-Keeps m k n = (λ q h. refl, k n.fs)

  on_db-Keeps :
      {A : Type 0} (m : St Db A)
      → Keeps (SameElse P req.event_type name) m
      → Keeps SameButBlock (on_db m)
  on_db-Keeps m k n = (k n.db, λ q a b c. refl)

  put-Keeps : Keeps FilesElse (put req.store name tmp)
  put-Keeps fs = elim (put_lem req.store name tmp fs) [
    | inr (e, failed) ↦ λ q a b c. ap (λ x. x.1.content q) failed
    | inl (b, fs₁, done, source, shape) ↦
        λ q u v w. ap (λ x. x.1.content q) done ∙ ap (λ x. x.content q) shape ∙ ground (arith, u, w)
  ]

  moved-Keeps : Keeps FilesElse (put req.store name tmp or_else remove_both path tmp)
  moved-Keeps =
      Keeps-or_else FilesElse (λ fs q a b c. refl) (λ f g h v w q a b c. w q a b c ∙ v q a b c)
        (put req.store name tmp) (remove_both path tmp) put-Keeps
        (λ fs q a b c. remove_both-Confined tmp path fs q a b)

  seal_batch-KeepsOnErr :
      (bm : BlockMeta) (hour : ℕ)
      → KeepsOnErr SameButBlock (on_db (seal_batch P req.shard name bm hour))
  unfolding seal_batch
  seal_batch-KeepsOnErr bm hour n e h =
      elim (Result-cases (commit n.db (seal_mutations req.shard name bm hour))) [
        | inl (db', ran) ↦ absurd (ground (arith, ran, h))
        | inr (x, ran) ↦
            (λ q other. ap (λ r. content (committed P n.db r).1 q) ran, λ q a b c. refl)
      ]

  record_block-KeepsOnErr :
      (mt : Memtable) (w : BlockFooter × ℕ)
      → KeepsOnErr SameButBlock (record_block P z B S req name tmp mt w)
  unfolding record_block
  record_block-KeepsOnErr mt (foot, size) =
      let bm : BlockMeta = meta_of req foot size in
      let hour : ℕ = expiry_hour req.opened_at req.retention in
      let hashes = unique_key_hashes mt in
      let chunks =
        put_idx_chunks P (length hashes) req.event_type (chunk_size req.idx_chunk_size) hashes name
          0 in
      let moved = on_fs (put req.store name tmp or_else remove_both path tmp) in
      KeepsOnErr-pure SameButBlock R_refl R_trans
        ((moved >> on_db chunks) >> on_db (seal_batch P req.shard name bm hour)) name
        (KeepsOnErr-bind SameButBlock R_refl R_trans (moved >> on_db chunks)
          (λ u. on_db (seal_batch P req.shard name bm hour))
          (Keeps-then SameButBlock R_refl R_trans moved (on_db chunks)
            (on_fs-Keeps (put req.store name tmp or_else remove_both path tmp) moved-Keeps)
            (on_db-Keeps chunks (
              put_idx_chunks-SameElse P req.event_type name (length hashes)
                (chunk_size req.idx_chunk_size) hashes 0)))
          (λ u. seal_batch-KeepsOnErr bm hour))

  -- A seal that fails, at whatever step, has changed nothing in the database but index entries of its
  -- own block: the log of the shard, the metadata and the expiry keys are as they were. It has changed
  -- no file but the temporary one and the two of its block.
  pub seal-err :
      (n : Node Db) (e : Error)
      → (seal P z B S req n).0 ≡ err e
      → SameButBlock n (seal P z B S req n).1
  unfolding seal
  seal-err n e h =
      let mt : Memtable = sort S req.memtable in
      let head = on_fs (write_tmp z req.tmp_dir tmp (header_of req mt) mt) in
      let bloom = on_fs (write_bloom B tmp path mt req.bloom_fpr) in
      KeepsOnErr-bind SameButBlock R_refl R_trans head
        (λ w. bloom >> record_block P z B S req name tmp mt w)
        (on_fs-Keeps (write_tmp z req.tmp_dir tmp (header_of req mt) mt)
          (λ fs q a b c. write_tmp-Confined tmp path z req.tmp_dir (header_of req mt) mt fs q a b))
        (λ w.
          KeepsOnErr-bind SameButBlock R_refl R_trans bloom
            (λ u. record_block P z B S req name tmp mt w)
            (on_fs-Keeps (write_bloom B tmp path mt req.bloom_fpr)
              (λ fs q a b c. write_bloom-Confined tmp path B mt req.bloom_fpr fs q a b))
            (λ u. record_block-KeepsOnErr mt w))
        n e h
