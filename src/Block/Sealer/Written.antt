-- ===== src/Block/Sealer/Written.antt =====
-- The content of the files that a seal writes.
use bbdb.Base.{
  ℕ, ◌≡◌, sym, ap, ◌∙◌, inl, inr, [], ◌++◌, false, some, Result, ok, arith, Bool-cases, length,
  append_assoc,
}
use bbdb.Base.Bytes.{Bytes, eq_bytes, eq_bytes_refl}
use bbdb.Base.State.{◌>>=◌, ◌>>◌, ◌or_else◌, pure, lift, after-eq-ok}
use bbdb.Files.{
  Fs, FilePath, Call, mkdir_all, create_file, write_file, sync_file, stat_file, remove_file,
}
use bbdb.Block.Columns.{Zstd}
use bbdb.Block.Header.{BlockHeader, encode_header}
use bbdb.Block.Footer.{BlockFooter, encode_footer}
use bbdb.Block.Body.{body_bytes, body_footer, write_block_body}
use bbdb.Block.Memtable.{Memtable}
use bbdb.Block.Bloom.{BloomLib, build_bloom_from_memtable, serialize}
use bbdb.Query.BlockReader.Sealed.{block_file}
use bbdb.Tier.Local.Effects.{or_else-ok}
use bbdb.Block.Sealer.{fill_tmp, write_tmp, write_bloom, remove_both, dir_of}

module _ (p : FilePath) where
  create-ok : (fs fs' : Fs) → create_file p fs ≡ (ok tt, fs') → fs'.content p ≡ some []
  create-ok fs fs' run = elim (Bool-cases (fs.fault Call.create p)) [
    | inl t ↦ absurd (ground (arith, t, run))
    | inr f ↦ ground (arith, f, ap (λ x. x.1.content p) run, eq_bytes_refl p)
  ]

  write-ok :
      (a b : Bytes) (fs fs' : Fs)
      → fs.content p ≡ some a
      → write_file p b fs ≡ (ok tt, fs')
      → fs'.content p ≡ some (a ++ b)
  write-ok a b fs fs' here run = elim (Bool-cases (fs.fault Call.write_to p)) [
    | inl t ↦ absurd (ground (arith, t, run))
    | inr f ↦ ground (arith, f, here, ap (λ x. x.1.content p) run, eq_bytes_refl p)
  ]

  create-other :
      (q : FilePath) (fs : Fs)
      → eq_bytes p q ≡ false
      → (create_file p fs).1.content q ≡ fs.content q
  create-other q fs h = ground (arith, h)

  write-other :
      (b : Bytes) (q : FilePath) (fs : Fs)
      → eq_bytes p q ≡ false
      → (write_file p b fs).1.content q ≡ fs.content q
  write-other b q fs h = ground (arith, h)

  sync-ok : (fs fs' : Fs) → sync_file p fs ≡ (ok tt, fs') → fs'.content p ≡ fs.content p
  sync-ok fs fs' run = ap (λ x. x.1.content p) (sym run)

  stat-ok :
      (b : Bytes) (n : ℕ) (fs fs' : Fs)
      → fs.content p ≡ some b
      → stat_file p fs ≡ (ok n, fs')
      → (n ≡ length b) × (fs'.content p ≡ some b)
  stat-ok b n fs fs' here run = elim (Bool-cases (fs.fault Call.stat p)) [
    | inl t ↦ absurd (ground (arith, t, run))
    | inr f ↦ (ground (arith, f, here, run), ap (λ x. x.1.content p) (sym run) ∙ here)
  ]

  write_block_body-ok :
      (z : Zstd) (hdr : BlockHeader) (mt : Memtable) (foot : BlockFooter) (fs fs' : Fs)
      → fs.content p ≡ some []
      → write_block_body z p hdr mt fs ≡ (ok foot, fs')
      → (foot ≡ body_footer z mt) × (fs'.content p ≡ some (encode_header hdr ++ body_bytes z mt))
  unfolding write_block_body
  write_block_body-ok z hdr mt foot fs fs' empty run =
      let (_, f₁, r₁, k₁) = after-eq-ok _ (write_file p (encode_header hdr) fs) foot fs' run in
      let (_, f₂, r₂, k₂) = after-eq-ok _ (write_file p (body_bytes z mt) f₁) foot fs' k₁ in
      let h₁ = write-ok [] (encode_header hdr) fs f₁ empty r₁ in
      let h₂ = write-ok (encode_header hdr) (body_bytes z mt) f₁ f₂ h₁ r₂ in
      (ground (arith, k₂), ap (λ x. x.1.content p) (sym k₂) ∙ h₂)

  -- A block file that was written is whole, and its size is that of the file.
  fill_tmp-ok :
      (z : Zstd) (hdr : BlockHeader) (mt : Memtable) (foot : BlockFooter) (size : ℕ) (fs fs' : Fs)
      → fs.content p ≡ some []
      → fill_tmp z p hdr mt fs ≡ (ok (foot, size), fs')
      → (foot ≡ body_footer z mt)
        × (size ≡ length (block_file z hdr mt))
        × (fs'.content p ≡ some (block_file z hdr mt))
  unfolding fill_tmp
  fill_tmp-ok z hdr mt foot size fs fs' empty run =
      let (g, f₁, r₁, k₁) = after-eq-ok _ (write_block_body z p hdr mt fs) (foot, size) fs' run in
      let (same, h₁) = write_block_body-ok z hdr mt g fs f₁ empty r₁ in
      let (_, f₂, r₂, k₂) =
        after-eq-ok (λ u. stat_file p >>= λ n. pure (g, n))
          ((write_file p (encode_footer g) >> sync_file p) f₁) (foot, size) fs' k₁ in
      let (_, f₃, r₃, k₃) =
        after-eq-ok (λ u. sync_file p) (write_file p (encode_footer g) f₁) tt f₂ r₂ in
      let (n, f₄, r₄, k₄) = after-eq-ok (λ n. pure (g, n)) (stat_file p f₂) (foot, size) fs' k₂ in
      let h₃ = write-ok (encode_header hdr ++ body_bytes z mt) (encode_footer g) f₁ f₃ h₁ r₃ in
      let whole : (encode_header hdr ++ body_bytes z mt) ++ encode_footer g ≡ block_file z hdr mt =
        append_assoc (encode_header hdr) (body_bytes z mt) (encode_footer g)
        ∙ ap (λ x. encode_header hdr ++ (body_bytes z mt ++ encode_footer x)) same in
      let h₂ : f₂.content p ≡ some (block_file z hdr mt) = sync-ok f₃ f₂ k₃ ∙ h₃ ∙ ap some whole in
      let (sized, h₄) = stat-ok (block_file z hdr mt) n f₂ f₄ h₂ r₄ in
      (ground (arith, k₄, same), ground (arith, k₄, sized), ap (λ x. x.1.content p) (sym k₄) ∙ h₄)

  pub write_tmp-ok :
      (z : Zstd) (dir : FilePath) (hdr : BlockHeader) (mt : Memtable) (foot : BlockFooter)
      (size : ℕ) (fs fs' : Fs)
      → write_tmp z dir p hdr mt fs ≡ (ok (foot, size), fs')
      → (foot ≡ body_footer z mt)
        × (size ≡ length (block_file z hdr mt))
        × (fs'.content p ≡ some (block_file z hdr mt))
  unfolding write_tmp
  write_tmp-ok z dir hdr mt foot size fs fs' run =
      let (_, f₁, r₁, k₁) =
        after-eq-ok (λ u. fill_tmp z p hdr mt or_else remove_file p)
          ((mkdir_all dir >> create_file p) fs) (foot, size) fs' run in
      let (_, f₂, r₂, k₂) = after-eq-ok (λ u. create_file p) (mkdir_all dir fs) tt f₁ r₁ in
      fill_tmp-ok z hdr mt foot size f₁ fs' (create-ok f₂ f₁ k₂)
        (or_else-ok (remove_file p) (fill_tmp z p hdr mt f₁) (foot, size) fs' k₁)

  -- A bloom file that was written holds the filter of the memtable.
  pub write_bloom-ok :
      (B : BloomLib) (tmp : FilePath) (mt : Memtable) (fpr : B.Rate) (fs fs' : Fs)
      → write_bloom B tmp p mt fpr fs ≡ (ok tt, fs')
      → (bytes : Bytes) × (serialize B (build_bloom_from_memtable B mt fpr) ≡ ok bytes)
        × (fs'.content p ≡ some bytes)
        × (eq_bytes p tmp ≡ false → fs'.content tmp ≡ fs.content tmp)
  unfolding write_bloom
  write_bloom-ok B tmp mt fpr fs fs' run =
      let raw : Result Bytes = serialize B (build_bloom_from_memtable B mt fpr) in
      let (bytes, f₁, r₁, k₁) =
        after-eq-ok
          (λ bytes.
            ((mkdir_all (dir_of p) >> create_file p) or_else remove_file tmp)
            >> ((write_file p bytes >> sync_file p) or_else remove_both p tmp))
          ((lift raw or_else remove_file tmp) fs) tt fs' run in
      let made = or_else-ok (remove_file tmp) (lift raw fs) bytes f₁ r₁ in
      let (_, f₂, r₂, k₂) =
        after-eq-ok (λ u. (write_file p bytes >> sync_file p) or_else remove_both p tmp)
          (((mkdir_all (dir_of p) >> create_file p) or_else remove_file tmp) f₁) tt fs' k₁ in
      let r₂' =
        or_else-ok (remove_file tmp) ((mkdir_all (dir_of p) >> create_file p) f₁) tt f₂ r₂ in
      let (_, f₃, r₃, k₃) = after-eq-ok (λ u. create_file p) (mkdir_all (dir_of p) f₁) tt f₂ r₂' in
      let k₂' = or_else-ok (remove_both p tmp) ((write_file p bytes >> sync_file p) f₂) tt fs' k₂ in
      let (_, f₄, r₄, k₄) = after-eq-ok (λ u. sync_file p) (write_file p bytes f₂) tt fs' k₂' in
      (
        bytes,
        ap (λ x. x.0) made,
        sync-ok f₄ fs' k₄ ∙ write-ok [] bytes f₂ f₄ (create-ok f₃ f₂ k₃) r₄,
        λ ne.
            ap (λ x. x.1.content tmp) (sym k₄)
            ∙ ap (λ x. x.1.content tmp) (sym r₄)
            ∙ write-other bytes tmp f₂ ne
            ∙ ap (λ x. x.1.content tmp) (sym k₃)
            ∙ create-other tmp f₃ ne
            ∙ ap (λ x. x.1.content tmp) (sym r₃)
            ∙ ap (λ x. x.1.content tmp) (sym made),
      )
