-- ===== src/Tier/Local/Migration.antt =====
-- A block on its way from one store to another.
use bbdb.Base.{◌≡◌, refl, sym, ap, ◌∙◌, [], false, none, some, ok, arith, Bool-cases, inl, inr}
use bbdb.Base.Bytes.{Bytes, eq_bytes, eq_bytes_refl}
use bbdb.Base.State.{after-eq-ok, ◌or_else◌}
use bbdb.Files.{Fs, FilePath, Call, update, create_file, remove_file}
use bbdb.Meta.Keys.{BlockId}
use bbdb.Tier.Local.{LocalStore, block_path, bloom_path, put, delete, copy_file, migrate}
use bbdb.Tier.Local.Effects.{delete_lem, put_lem, or_else-ok, copy_file-ok}

create_file-ok :
    (p : FilePath) (fs fs' : Fs)
    → create_file p fs ≡ (ok tt, fs')
    → fs' ≡ record fs { content = update fs.content p (some []) }
create_file-ok p fs fs' h = elim (Bool-cases (fs.fault Call.create p)) [
  | inl t ↦ absurd (ground (arith, t, h))
  | inr f ↦ ground (arith, f, h)
]

put-ok :
    (s : LocalStore) (id : BlockId) (src : FilePath) (fs fs' : Fs)
    → put s id src fs ≡ (ok tt, fs')
    → (q : FilePath)
    → fs'.content q ≡ update (update fs.content src none) (block_path s id) (fs.content src) q
put-ok s id src fs fs' h q = elim (put_lem s id src fs) [
  | inl (b, fs'', run, e, same) ↦
      let g : fs'' ≡ fs' = ground (arith, run, h) in
      ap (λ x. x.content q) (sym g ∙ same)
      ∙ ap (λ c. update (update fs.content src none) (block_path s id) c q) (sym e)
  | inr (e, run) ↦ absurd (ground (arith, run, h))
]

-- What a migration that succeeds leaves under a path `q`: the block under its path in the new
-- store, nothing under the paths of the block and of its bloom filter in the old one, nothing
-- under the name of the temporary file, and every other file as it was. So the bloom filter of
-- the block is not moved with it.
pub migrate_lem :
    (s : LocalStore) (tmp : FilePath) (id : BlockId) (dst : LocalStore) (fs fs' : Fs)
    → eq_bytes tmp (block_path s id) ≡ false
    → migrate s tmp id dst fs ≡ (ok tt, fs')
    → (b : Bytes) × (fs.content (block_path s id) ≡ some b)
      × ((q : FilePath)
          → fs'.content q
            ≡ update
                (update
                  (update (update fs.content tmp none) (block_path dst id) (some b))
                  (block_path s id)
                  none)
                (bloom_path s id)
                none
                q)
unfolding migrate
migrate_lem s tmp id dst fs fs' ne h =
    let (u₃, fs₃, h₃, h₄) = after-eq-ok (λ u. delete s id) _ tt fs' h in
    let (u₂, fs₂, h₂, p₃) = after-eq-ok (λ u. put dst id tmp or_else remove_file tmp) _ tt fs₃ h₃ in
    let (u₁, fs₁, h₁, p₂) =
      after-eq-ok (λ u. copy_file (block_path s id) tmp or_else remove_file tmp) _ tt fs₂ h₂ in
    let made = create_file-ok tmp fs fs₁ h₁ in
    let (b, e, copied) =
      copy_file-ok (block_path s id) tmp fs₁ fs₂
        (or_else-ok (remove_file tmp) (copy_file (block_path s id) tmp fs₁) tt fs₂ p₂) in
    let moved =
      put-ok dst id tmp fs₂ fs₃ (or_else-ok (remove_file tmp) (put dst id tmp fs₂) tt fs₃ p₃) in
    let here : fs₁.content (block_path s id) ≡ fs.content (block_path s id) =
      ap (λ x. x.content (block_path s id)) made ∙ rw ne refl in
    (
      b,
      sym here ∙ e,
      λ q.
          let blank : fs₁.content q ≡ update fs.content tmp (some []) q =
            ap (λ x. x.content q) made in
          let full : fs₂.content tmp ≡ some b = copied tmp ∙ rw (eq_bytes_refl tmp) refl in
          delete_lem s id fs₃ fs' h₄ q ∙ ground (arith, moved q, copied q, blank, full),
    )
