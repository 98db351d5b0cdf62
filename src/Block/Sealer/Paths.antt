-- ===== src/Block/Sealer/Paths.antt =====
-- The three files of a seal are different files.
use bbdb.Base.{ℕ, ◌≡◌, ◌≢◌, refl, ap, ◌∙◌, [], ◌∷◌, ◌++◌, false, Bool-cases, inl, inr, arith}
use bbdb.Base.Bytes.{Bytes, eq_bytes, eq_bytes→eq}
use bbdb.Files.{FilePath}
use bbdb.Meta.Keys.{BlockId}
use bbdb.Tier.Local.{LocalStore, join_onto, block_path, bloom_path, shard_dir, split_block_id}
use bbdb.Block.Sealer.{tmp_path}

-- The last byte of a path, and 0 of none.
last_of : Bytes → ℕ
last_of [] = 0
last_of (b ∷ []) = b
last_of (b ∷ c ∷ bs) = last_of (c ∷ bs)

last_of-append : (xs : Bytes) (b : ℕ) (bs : Bytes) → last_of (xs ++ b ∷ bs) ≡ last_of (b ∷ bs)
unfolding last_of
last_of-append [] b bs = refl
last_of-append (x ∷ []) b bs = refl
last_of-append (x ∷ y ∷ xs) b bs = last_of-append (y ∷ xs) b bs

ne_of_last : (p q : Bytes) → last_of p ≢ last_of q → eq_bytes p q ≡ false
ne_of_last p q ne = elim (Bool-cases (eq_bytes p q)) [
  | inr f ↦ f
  | inl t ↦ absurd (ne (ap last_of (eq_bytes→eq p q t)))
]

-- A path ends with its last part.
last_of-join :
    (acc p : Bytes) (b : ℕ) (bs : Bytes)
    → last_of (join_onto acc ((p ++ b ∷ bs) ∷ [])) ≡ last_of (b ∷ bs)
unfolding join_onto
last_of-join [] [] b bs = refl
last_of-join [] (h ∷ p) b bs = last_of-append (h ∷ p) b bs
last_of-join (a ∷ acc) [] b bs =
    last_of-append (a ∷ acc) 47 (b ∷ bs) ∙ last_of-append (47 ∷ []) b bs
last_of-join (a ∷ acc) (h ∷ p) b bs =
    last_of-append (a ∷ acc) 47 ((h ∷ p) ++ b ∷ bs) ∙ last_of-append (47 ∷ h ∷ p) b bs

last_of-tmp_path : (dir : FilePath) (id : BlockId) → last_of (tmp_path dir id) ≡ b'p'
unfolding tmp_path join_onto last_of
last_of-tmp_path [] id = last_of-join [] id _ _
last_of-tmp_path (d ∷ dir) id = last_of-join (d ∷ dir) id _ _

last_of-block_path : (s : LocalStore) (id : BlockId) → last_of (block_path s id) ≡ b'k'
unfolding block_path last_of
last_of-block_path s id = last_of-join (shard_dir s (split_block_id id).0) (split_block_id id).1 _ _

last_of-bloom_path : (s : LocalStore) (id : BlockId) → last_of (bloom_path s id) ≡ b'm'
unfolding bloom_path last_of
last_of-bloom_path s id = last_of-join (shard_dir s (split_block_id id).0) (split_block_id id).1 _ _

module _ (d : FilePath) (s : LocalStore) (id : BlockId) where
  pub tmp-ne-block : eq_bytes (tmp_path d id) (block_path s id) ≡ false
  tmp-ne-block =
      ne_of_last (tmp_path d id) (block_path s id)
        (λ e. absurd (ground (arith, e, last_of-tmp_path d id, last_of-block_path s id)))

  pub tmp-ne-bloom : eq_bytes (tmp_path d id) (bloom_path s id) ≡ false
  tmp-ne-bloom =
      ne_of_last (tmp_path d id) (bloom_path s id)
        (λ e. absurd (ground (arith, e, last_of-tmp_path d id, last_of-bloom_path s id)))

  pub bloom-ne-tmp : eq_bytes (bloom_path s id) (tmp_path d id) ≡ false
  bloom-ne-tmp =
      ne_of_last (bloom_path s id) (tmp_path d id)
        (λ e. absurd (ground (arith, e, last_of-tmp_path d id, last_of-bloom_path s id)))

  pub block-ne-tmp : eq_bytes (block_path s id) (tmp_path d id) ≡ false
  block-ne-tmp =
      ne_of_last (block_path s id) (tmp_path d id)
        (λ e. absurd (ground (arith, e, last_of-tmp_path d id, last_of-block_path s id)))
