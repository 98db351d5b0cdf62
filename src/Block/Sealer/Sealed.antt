-- ===== src/Block/Sealer/Sealed.antt =====
-- What a seal leaves behind.
use bbdb.Base.{
  ℕ, zero, suc, ◌^◌, ==_refl, ◌<◌, ◌≡◌, ◌≢◌, sym, ap, subst, ◌∙◌, List, [], true, false, none, some,
  Result, ok, err, arith, if◌then◌else◌, inl, inr, length,
}
use bbdb.Base.Int.{ℤ, pos, negsuc}
use bbdb.Base.Bytes.{Bytes, ltb_bytes, eq_bytes, eq_bytes_refl}
use bbdb.Base.State.{◌>>◌, ◌or_else◌, pure, after-eq-ok}
use bbdb.Kv.{Pebble}
use bbdb.Node.{Node, on_db, on_fs, on_db-ok, on_fs-ok}
use bbdb.Block.Footer.{BlockFooter}
use bbdb.Block.Sealer.Paths.{tmp-ne-bloom, bloom-ne-tmp, block-ne-tmp}
use bbdb.Files.{Fs, FilePath}
use bbdb.Block.Columns.{Zstd}
use bbdb.Block.Body.{body_footer}
use bbdb.Block.Memtable.{Memtable, SortSlice, sort, contains, unique_key_hashes}
use bbdb.Block.Bloom.{BloomLib, build_bloom_from_memtable, serialize}
use bbdb.Block.Bloom.Sound.{contains-distinct}
use bbdb.Block.Routing.{block_id_for_shard}
use bbdb.Query.BlockReader.Sealed.{block_file}
use bbdb.Meta.Keys.{BlockId, block_key, expiry_key, idx_key, wal_key, wal_key_start, wal_seq_key}
use bbdb.Meta.Keys.Order.{in_range-wal_key}
use bbdb.Meta.Batches.Emptied.{seal_batch-wal_range, seal_batch-seq_key, seq_key-ne-idx_key}
use bbdb.Meta.Wal.Append.{wal_range}
use bbdb.Meta.Blocks.{BlockMeta, encode_block_meta}
use bbdb.Meta.Batches.{seal_batch}
use bbdb.Meta.Batches.Effects.{seal_batch-content, expiry_key-ne-block_key}
use bbdb.Tier.Local.{block_path, bloom_path, put}
use bbdb.Tier.Local.Effects.{put_lem, or_else-ok, block_path-ne-bloom_path}
use bbdb.Block.Sealer.{
  SealRequest, tmp_path, header_of, meta_of, write_tmp, write_bloom, remove_both, put_idx_chunks,
  chunk_size, expiry_hour, record_block, seal,
}
use bbdb.Block.Sealer.Written.{write_tmp-ok, write_bloom-ok}
use bbdb.Block.Sealer.Chunks.{put_idx_chunks-SameElse, put_idx_chunks_lem}

chunk_size_pos : (n : ℤ) → 0 < chunk_size n
unfolding chunk_size
chunk_size_pos (pos zero) = omega arith
chunk_size_pos (pos (suc n)) = omega arith
chunk_size_pos (negsuc n) = omega arith

abbrev result_or : {A : Type 0} → A → Result A → A
result_or d (ok a) = a
result_or d (err e) = d

module _ (P : Pebble) (z : Zstd) (B : BloomLib) (S : SortSlice) (req : SealRequest B.Rate) where
  open P use {Db, content}

  -- The sorted memtable, the ID of its block, and the bytes of its file.
  abbrev pub sorted : Memtable
  sorted = sort S req.memtable

  abbrev pub name : BlockId
  name = block_id_for_shard req.shard req.opened_at

  abbrev pub bytes : Bytes
  bytes = block_file z (header_of req sorted) sorted

  abbrev hour : ℕ
  hour = expiry_hour req.opened_at req.retention

  -- What a seal that succeeded has left.
  pub record IsSealed (db : Db) (n' : Node Db) (id : BlockId) : Type 0 where
    pub named : id ≡ name
    pub block : n'.fs.content (block_path req.store name) ≡ some bytes
    pub bloom :
        (filter : Bytes) × (serialize B (build_bloom_from_memtable B sorted req.bloom_fpr)
          ≡ ok filter)
        × (n'.fs.content (bloom_path req.store name) ≡ some filter)
    pub tmp : n'.fs.content (tmp_path req.tmp_dir name) ≡ none
    pub metadata :
        content n'.db (block_key name)
        ≡ some (encode_block_meta (meta_of req (body_footer z sorted) (length bytes)))
    pub expiry : content n'.db (expiry_key hour name) ≡ some []
    pub index :
        (h : ℕ)
        → contains h sorted.key_hashes ≡ true
        → content n'.db (idx_key req.event_type h name) ≢ none
    pub log : (q : Bytes) → wal_range req.shard q ≡ true → content n'.db q ≡ none
    pub emptied :
        (seq : ℕ)
        → suc req.shard < 2 ^ 16
        → seq < 2 ^ 64
        → content n'.db (wal_key req.shard seq) ≡ none
    pub counter : content n'.db (wal_seq_key req.shard) ≡ content db (wal_seq_key req.shard)

  put-placed :
      (fs fs' : Fs)
      → put req.store name (tmp_path req.tmp_dir name) fs ≡ (ok tt, fs')
      → fs.content (tmp_path req.tmp_dir name) ≡ some bytes
      → (fs'.content (block_path req.store name) ≡ some bytes)
        × (fs'.content (tmp_path req.tmp_dir name) ≡ none)
        × ((q : FilePath)
            → eq_bytes (tmp_path req.tmp_dir name) q ≡ false
            → eq_bytes (block_path req.store name) q ≡ false
            → fs'.content q ≡ fs.content q)
  put-placed fs fs' run here = elim (put_lem req.store name (tmp_path req.tmp_dir name) fs) [
    | inr (e, failed) ↦ absurd (ground (arith, failed, run))
    | inl (b, fs₁, done, source, shape) ↦
        let same : fs' ≡ fs₁ = ap (λ x. x.1) (sym run ∙ done) in
        let at = λ (q : FilePath). ap (λ x. x.content q) (same ∙ shape) in
        (
          at (block_path req.store name)
              ∙ ground (arith, eq_bytes_refl (block_path req.store name), here, source),
          at (tmp_path req.tmp_dir name)
              ∙ ground (
                arith,
                block-ne-tmp req.tmp_dir req.store name,
                eq_bytes_refl (tmp_path req.tmp_dir name),
              ),
          λ q h k. at q ∙ ground (arith, h, k),
        )
  ]

  -- An index key is none of the keys that the batch of the seal writes or removes.
  idx_kept :
      (h : ℕ) (v : Bytes) (db : Db)
      → (if eq_bytes (expiry_key hour name) (idx_key req.event_type h name)
          then some []
          else if eq_bytes (block_key name) (idx_key req.event_type h name)
          then some v
          else if wal_range req.shard (idx_key req.event_type h name)
          then none
          else content db (idx_key req.event_type h name))
        ≡ content db (idx_key req.event_type h name)
  unfolding expiry_key block_key idx_key eq_bytes wal_key_start wal_key ltb_bytes
  idx_kept h v db = ground arith

  record_block-ok :
      (foot : BlockFooter) (size : ℕ) (n n' : Node Db) (id : BlockId)
      → foot ≡ body_footer z sorted
      → size ≡ length bytes
      → n.fs.content (tmp_path req.tmp_dir name) ≡ some bytes
      → (filter : Bytes) × (serialize B (build_bloom_from_memtable B sorted req.bloom_fpr)
          ≡ ok filter)
        × (n.fs.content (bloom_path req.store name) ≡ some filter)
      → record_block P z B S req name (tmp_path req.tmp_dir name) sorted (foot, size) n
        ≡ (ok id, n')
      → IsSealed n.db n' id
  unfolding record_block
  record_block-ok foot size n n' id f s here bloom run =
      let tmp : FilePath = tmp_path req.tmp_dir name in
      let path : FilePath = bloom_path req.store name in
      let bm : BlockMeta = meta_of req foot size in
      let hashes : List ℕ = unique_key_hashes sorted in
      let chunks =
        put_idx_chunks P (length hashes) req.event_type (chunk_size req.idx_chunk_size) hashes name
          0 in
      let (_, n₃, r₃, k₃) =
        after-eq-ok (λ u. pure name)
          ((on_fs (put req.store name tmp or_else remove_both path tmp)
              >> on_db chunks
              >> on_db (seal_batch P req.shard name bm hour))
            n)
          id n' run in
      let (_, n₂, r₂, k₂) =
        after-eq-ok (λ u. on_db (seal_batch P req.shard name bm hour))
          ((on_fs (put req.store name tmp or_else remove_both path tmp) >> on_db chunks) n) tt n₃
          r₃ in
      let (_, n₁, r₁, k₁) =
        after-eq-ok (λ u. on_db chunks)
          (on_fs (put req.store name tmp or_else remove_both path tmp) n) tt n₂ r₂ in
      let (moved, same_db) =
        on_fs-ok n n₁ tt (put req.store name tmp or_else remove_both path tmp) r₁ in
      let (indexed, same₁) = on_db-ok n₁ n₂ tt chunks k₁ in
      let (sealed, same₂) = on_db-ok n₂ n₃ tt (seal_batch P req.shard name bm hour) k₂ in
      let files : n'.fs ≡ n₁.fs = ap (λ x. x.1.fs) (sym k₃) ∙ same₂ ∙ same₁ in
      let base : n'.db ≡ n₃.db = ap (λ x. x.1.db) (sym k₃) in
      let placed =
        put-placed n.fs n₁.fs
          (or_else-ok (remove_both path tmp) (put req.store name tmp n.fs) tt n₁.fs moved) here in
      let held = λ (q : Bytes).
        ap (λ d. content d q) base
        ∙ seal_batch-content P n₂.db n₃.db req.shard hour name bm sealed q in
      record {
        named = ap (λ x. result_or [] x.0) (sym k₃);
        block = ap (λ x. x.content (block_path req.store name)) files ∙ placed.0;
        bloom = (
          bloom.0,
          bloom.1,
          ap (λ x. x.content path) files
              ∙ placed.2 path (tmp-ne-bloom req.tmp_dir req.store name)
                  (block_path-ne-bloom_path req.store name)
              ∙ bloom.2,
        );
        tmp = ap (λ x. x.content tmp) files ∙ placed.1;
        metadata =
            held (block_key name)
            ∙ ground (
              arith,
              expiry_key-ne-block_key name name hour,
              eq_bytes_refl (block_key name),
              f,
              s,
            );
        expiry = held (expiry_key hour name) ∙ ground (arith, eq_bytes_refl (expiry_key hour name));
        index = λ h m missing.
            put_idx_chunks_lem P req.event_type name (length hashes) (chunk_size req.idx_chunk_size)
              hashes 0 h n₁.db n₂.db (chunk_size_pos req.idx_chunk_size) (omega arith) indexed
              (unfold unique_key_hashes in contains-distinct h [] sorted.key_hashes m)
              (sym (held (idx_key req.event_type h name) ∙ idx_kept h (encode_block_meta bm) n₂.db)
                ∙ missing);
        log = λ q i.
            ap (λ d. content d q) base
            ∙ seal_batch-wal_range P n₂.db n₃.db req.shard hour name bm sealed q i;
        emptied = λ seq below h.
            ap (λ d. content d (wal_key req.shard seq)) base
            ∙ seal_batch-wal_range P n₂.db n₃.db req.shard hour name bm sealed
                (wal_key req.shard seq)
                (ground (
                  arith,
                  in_range-wal_key req.shard req.shard seq below (omega arith) h,
                  ==_refl req.shard,
                ));
        counter =
            ap (λ d. content d (wal_seq_key req.shard)) base
            ∙ seal_batch-seq_key P n₂.db n₃.db req.shard hour name bm sealed req.shard
            ∙ ap (λ x. content x.1 (wal_seq_key req.shard)) (sym indexed)
            ∙ put_idx_chunks-SameElse P req.event_type name (length hashes)
                (chunk_size req.idx_chunk_size) hashes 0 n₁.db (wal_seq_key req.shard)
                (λ k e. no_idx k (ap (eq_bytes (wal_seq_key req.shard)) (sym e)))
            ∙ ap (λ d. content d (wal_seq_key req.shard)) same_db;
      }
    where
      no_idx :
          (k : ℕ)
          → eq_bytes (wal_seq_key req.shard) (idx_key req.event_type k name)
            ≡ eq_bytes (wal_seq_key req.shard) (wal_seq_key req.shard)
          → ⊥
      no_idx k e = absurd (
          ground (
            arith,
            e,
            seq_key-ne-idx_key req.shard req.event_type k name,
            eq_bytes_refl (wal_seq_key req.shard),
          ))

  -- A seal that succeeds has written the block file of the sorted memtable under the path of the
  -- block, and the serialized filter of its keys under that of the filter; the temporary file is gone.
  -- The database holds the metadata of the block, with the checksum of the body and the size of the
  -- file, its expiry key, and an index entry for the key hash of every event, whatever the size of the
  -- chunks. The log of a shard below 65535 is empty, under every sequence number, and the counter of the
  -- shard is as it was. Of shard 65535 the range of the log holds no key, and nothing is said of its entries.
  pub seal_lem :
      (n n' : Node Db) (id : BlockId) → seal P z B S req n ≡ (ok id, n') → IsSealed n.db n' id
  unfolding seal
  seal_lem n n' id run =
      let tmp : FilePath = tmp_path req.tmp_dir name in
      let path : FilePath = bloom_path req.store name in
      let head = on_fs (write_tmp z req.tmp_dir tmp (header_of req sorted) sorted) in
      let bloom = on_fs (write_bloom B tmp path sorted req.bloom_fpr) in
      let ((foot, size), n₁, r₁, k₁) =
        after-eq-ok (λ w. bloom >> record_block P z B S req name tmp sorted w) (head n) id n' run in
      let (_, n₂, r₂, k₂) =
        after-eq-ok (λ u. record_block P z B S req name tmp sorted (foot, size)) (bloom n₁) id n'
          k₁ in
      let (wrote, db₁) =
        on_fs-ok n n₁ (foot, size) (write_tmp z req.tmp_dir tmp (header_of req sorted) sorted) r₁ in
      let (filtered, db₂) = on_fs-ok n₁ n₂ tt (write_bloom B tmp path sorted req.bloom_fpr) r₂ in
      let (f, s, whole) =
        write_tmp-ok tmp z req.tmp_dir (header_of req sorted) sorted foot size n.fs n₁.fs wrote in
      let (filter, made, there, same) =
        write_bloom-ok path B tmp sorted req.bloom_fpr n₁.fs n₂.fs filtered in
      subst (λ db. IsSealed db n' id) (db₂ ∙ db₁)
        (record_block-ok foot size n₂ n' id f s
          (same (bloom-ne-tmp req.tmp_dir req.store name) ∙ whole) (filter, made, there) k₂)
