-- ===== src/Block/Sealer/Files.antt =====
-- The files that a seal writes.
use bbdb.Base.{◌≡◌, refl, ◌∙◌, inl, inr, false, Result, arith, Bool-cases, Option-cases}
use bbdb.Base.Bytes.{Bytes, eq_bytes}
use bbdb.Base.State.{St, ◌>>=◌, ◌>>◌, ◌or_else◌, lift}
use bbdb.Base.State.Keeps.{Keeps, Keeps-bind, Keeps-then, Keeps-or_else}
use bbdb.Files.{
  Fs, FilePath, Call, mkdir_all, create_file, write_file, sync_file, stat_file, remove_file,
}
use bbdb.Block.Columns.{Zstd}
use bbdb.Block.Header.{BlockHeader, encode_header}
use bbdb.Block.Footer.{encode_footer}
use bbdb.Block.Body.{body_bytes, write_block_body}
use bbdb.Block.Memtable.{Memtable}
use bbdb.Block.Bloom.{BloomLib, build_bloom_from_memtable, serialize}
use bbdb.Block.Sealer.{fill_tmp, write_tmp, write_bloom, remove_both, dir_of}

-- Nothing but the files `p` and `r` has changed.
abbrev pub OnlyAt : FilePath → FilePath → Fs → Fs → Type 0
OnlyAt p r fs fs' =
    (q : FilePath) → eq_bytes p q ≡ false → eq_bytes r q ≡ false → fs'.content q ≡ fs.content q

module _ (p r : FilePath) where
  abbrev pub Confined : {A : Type 0} → St Fs A → Type 0
  Confined m = Keeps (OnlyAt p r) m

  confined_refl : (fs : Fs) → OnlyAt p r fs fs
  confined_refl fs q h k = refl

  confined_trans : (f g h : Fs) → OnlyAt p r f g → OnlyAt p r g h → OnlyAt p r f h
  confined_trans f g h a b q i j = b q i j ∙ a q i j

  both : {A B : Type 0} (m : St Fs A) (c : St Fs B) → Confined m → Confined c → Confined (m >> c)
  both m c k l = Keeps-then (OnlyAt p r) confined_refl confined_trans m c k l

  pub cleaned :
      {A B : Type 0} (m : St Fs A) (c : St Fs B) → Confined m → Confined c → Confined (m or_else c)
  cleaned m c k l = Keeps-or_else (OnlyAt p r) confined_refl confined_trans m c k l

  bound :
      {A B : Type 0} (m : St Fs A) (f : A → St Fs B)
      → Confined m
      → ((a : A) → Confined (f a))
      → Confined (m >>= f)
  bound m f k l = Keeps-bind (OnlyAt p r) confined_refl confined_trans m f k l

  -- One of the two files.
  module _ (f : FilePath)
      (one : (q : FilePath)
        → eq_bytes p q ≡ false
        → eq_bytes r q ≡ false
        → eq_bytes f q ≡ false) where
    remove-Confined : Confined (remove_file f)
    remove-Confined fs q h k = elim (Bool-cases (fs.fault Call.remove_it f)) [
      | inl t ↦ ground (arith, t)
      | inr g ↦ elim (Option-cases (fs.content f)) [
        | inl n ↦ ground (arith, g, n)
        | inr (b, e) ↦ ground (arith, g, e, one q h k)
      ]
    ]

    create-Confined : Confined (create_file f)
    create-Confined fs q h k = ground (arith, one q h k)

    write-Confined : (b : Bytes) → Confined (write_file f b)
    write-Confined b fs q h k = ground (arith, one q h k)

    sync-Confined : Confined (sync_file f)
    sync-Confined fs q h k = refl

    stat-Confined : Confined (stat_file f)
    stat-Confined fs q h k = refl

  mkdir-Confined : (d : FilePath) → Confined (mkdir_all d)
  mkdir-Confined d fs q h k = refl

  first : (q : FilePath) → eq_bytes p q ≡ false → eq_bytes r q ≡ false → eq_bytes p q ≡ false
  first q h k = h

  second : (q : FilePath) → eq_bytes p q ≡ false → eq_bytes r q ≡ false → eq_bytes r q ≡ false
  second q h k = k

  pub remove_both-Confined : Confined (remove_both r p)
  remove_both-Confined fs =
      confined_trans fs (remove_file r fs).1 (remove_both r p fs).1 (remove-Confined r second fs)
        (remove-Confined p first (remove_file r fs).1)

  fill_tmp-Confined :
      (z : Zstd) (hdr : BlockHeader) (mt : Memtable) → Confined (fill_tmp z p hdr mt)
  unfolding fill_tmp write_block_body
  fill_tmp-Confined z hdr mt =
      bound (write_block_body z p hdr mt) _
        (both (write_file p (encode_header hdr)) _ (write-Confined p first (encode_header hdr)) (
          both (write_file p (body_bytes z mt)) _ (write-Confined p first (body_bytes z mt))
            (λ s q h k. refl)))
        (λ footer.
          both (write_file p (encode_footer footer) >> sync_file p) _
            (both (write_file p (encode_footer footer)) (sync_file p)
              (write-Confined p first (encode_footer footer)) (sync-Confined p first))
            (bound (stat_file p) _ (stat-Confined p first) (λ n s q h k. refl)))

  pub write_tmp-Confined :
      (z : Zstd) (dir : FilePath) (hdr : BlockHeader) (mt : Memtable)
      → Confined (write_tmp z dir p hdr mt)
  unfolding write_tmp
  write_tmp-Confined z dir hdr mt =
      both (mkdir_all dir >> create_file p) (fill_tmp z p hdr mt or_else remove_file p)
        (both (mkdir_all dir) (create_file p) (mkdir-Confined dir) (create-Confined p first))
        (cleaned (fill_tmp z p hdr mt) (remove_file p) (fill_tmp-Confined z hdr mt)
          (remove-Confined p first))

  pub write_bloom-Confined :
      (B : BloomLib) (mt : Memtable) (fpr : B.Rate) → Confined (write_bloom B p r mt fpr)
  unfolding write_bloom
  write_bloom-Confined B mt fpr =
      let raw : Result Bytes = serialize B (build_bloom_from_memtable B mt fpr) in
      bound (lift raw or_else remove_file p) _
        (cleaned (lift raw) (remove_file p) (λ s q h k. refl) (remove-Confined p first))
        (λ bytes.
          both ((mkdir_all (dir_of r) >> create_file r) or_else remove_file p) _
            (cleaned (mkdir_all (dir_of r) >> create_file r) (remove_file p)
              (both (mkdir_all (dir_of r)) (create_file r) (mkdir-Confined (dir_of r))
                (create-Confined r second))
              (remove-Confined p first))
            (cleaned (write_file r bytes >> sync_file r) (remove_both r p)
              (both (write_file r bytes) (sync_file r) (write-Confined r second bytes)
                (sync-Confined r second))
              remove_both-Confined))
