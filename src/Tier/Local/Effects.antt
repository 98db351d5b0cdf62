-- ===== src/Tier/Local/Effects.antt =====
-- What the operations of a store leave behind.
use bbdb.Base.{
  ◌≡◌, refl, sym, ap, ◌∙◌, [], ◌∷◌, ◌++◌, Bool, true, false, Option, none, some, Result, ok, err,
  Error, not_exist, arith, if◌then◌else◌, Bool-cases, Option-cases, ◌⊎◌, inl, inr,
}
use bbdb.Base.Bytes.{Bytes, eq_bytes, eq_bytes_refl, eq_bytes→eq, eq_bytes-append}
use bbdb.Base.State.{St, clean_up, after, after-eq-ok}
use bbdb.Files.{Fs, FilePath, Call, update, refused}
use bbdb.Meta.Keys.{BlockId}
use bbdb.Tier.Local.{
  LocalStore, join_onto, block_ext, bloom_ext, split_block_id, shard_dir, block_path, bloom_path,
  put, remove_if_there, delete, copy_file, exists,
}

ext_ne : (hour : Bytes) → eq_bytes (hour ++ block_ext) (hour ++ bloom_ext) ≡ false
unfolding eq_bytes
ext_ne hour = eq_bytes-append hour block_ext bloom_ext

joined-ne :
    (acc hour : Bytes)
    → eq_bytes (join_onto acc ((hour ++ block_ext) ∷ [])) (join_onto acc ((hour ++ bloom_ext) ∷ []))
      ≡ false
unfolding join_onto eq_bytes
joined-ne [] [] = refl
joined-ne [] (h ∷ hour) = ext_ne (h ∷ hour)
joined-ne (a ∷ acc) [] = eq_bytes-append (a ∷ acc) (47 ∷ block_ext) (47 ∷ bloom_ext)
joined-ne (a ∷ acc) (h ∷ hour) =
    eq_bytes-append (a ∷ acc) (47 ∷ (h ∷ hour) ++ block_ext) (47 ∷ (h ∷ hour) ++ bloom_ext)
    ∙ ext_ne (h ∷ hour)

-- The two files of a block are different files.
pub block_path-ne-bloom_path :
    (s : LocalStore) (id : BlockId) → eq_bytes (block_path s id) (bloom_path s id) ≡ false
unfolding block_path bloom_path
block_path-ne-bloom_path s id = joined-ne (shard_dir s (split_block_id id).0) (split_block_id id).1

update-none : (f : FilePath → Option Bytes) (p q : FilePath) → f p ≡ none → update f p none q ≡ f q
update-none f p q h = elim (Bool-cases (eq_bytes p q)) [
  | inl t ↦ rw t (sym h ∙ ap f (eq_bytes→eq p q t))
  | inr e ↦ rw e refl
]

-- Removal of a file that may be missing: where it succeeds, the file is gone. Where it fails,
-- nothing has changed.
remove_if_there-ok :
    (p : FilePath) (fs fs' : Fs)
    → remove_if_there p fs ≡ (ok tt, fs')
    → (q : FilePath) → fs'.content q ≡ update fs.content p none q
remove_if_there-ok p fs fs' h q = elim (Bool-cases (fs.fault Call.remove_it p)) [
  | inl t ↦ absurd (ground (arith, t, h))
  | inr f ↦ elim (Option-cases (fs.content p)) [
    | inl n ↦
        let same : fs ≡ fs' = ground (arith, f, n, h) in
        ap (λ x. x.content q) (sym same) ∙ sym (update-none fs.content p q n)
    | inr (b, e) ↦
        let same : record fs { content = update fs.content p none } ≡ fs' =
          ground (arith, f, e, h) in
        ap (λ x. x.content q) (sym same)
  ]
]

remove_if_there-none :
    (p q : FilePath) (fs : Fs) → fs.content q ≡ none → (remove_if_there p fs).1.content q ≡ none
remove_if_there-none p q fs h = elim (Bool-cases (fs.fault Call.remove_it p)) [
  | inl t ↦ ground (arith, t, h)
  | inr f ↦ elim (Option-cases (fs.content p)) [
    | inl n ↦ ground (arith, f, n, h)
    | inr (b, e) ↦ ground (arith, f, e, h)
  ]
]

-- A deletion makes no file, whatever comes of it.
pub delete-none :
    (s : LocalStore) (id : BlockId) (q : FilePath) (fs : Fs)
    → fs.content q ≡ none
    → (delete s id fs).1.content q ≡ none
unfolding delete
delete-none s id q fs h =
    go (remove_if_there (block_path s id) fs) (remove_if_there-none (block_path s id) q fs h)
  where
    go :
        (r : Result (Unit {0}) × Fs)
        → r.1.content q ≡ none
        → (after (λ u. remove_if_there (bloom_path s id)) r).1.content q ≡ none
    go (ok u, fs) h = remove_if_there-none (bloom_path s id) q fs h
    go (err e, fs) h = h

-- A block that was deleted has neither file, and every other file is as it was.
pub delete_lem :
    (s : LocalStore) (id : BlockId) (fs fs' : Fs)
    → delete s id fs ≡ (ok tt, fs')
    → (q : FilePath)
    → fs'.content q ≡ update (update fs.content (block_path s id) none) (bloom_path s id) none q
unfolding delete
delete_lem s id fs fs' h q =
    let (tt, mid, a, b) =
      after-eq-ok (λ u. remove_if_there (bloom_path s id)) (remove_if_there (block_path s id) fs) tt
        fs' h in
    remove_if_there-ok (bloom_path s id) mid fs' b q
    ∙ ap (λ c. if eq_bytes (bloom_path s id) q then none else c)
        (remove_if_there-ok (block_path s id) fs mid a q)

-- A file that is put into the store has its content under the path of the block, in place of
-- what was there, and is gone from its old path; no other file changes. A put that fails changes
-- nothing.
pub put_lem :
    (s : LocalStore) (id : BlockId) (src : FilePath) (fs : Fs)
    → ((b : Bytes) × (fs' : Fs) × (put s id src fs ≡ (ok tt, fs'))
        × (fs.content src ≡ some b)
        × (fs' ≡ record fs {
          content = update (update fs.content src none) (block_path s id) (some b);
        }))
      ⊎ ((e : Error) × (put s id src fs ≡ (err e, fs)))
unfolding put
put_lem s id src fs =
    elim (Bool-cases (fs.fault Call.make_dir (shard_dir s (split_block_id id).0))) [
      | inl t ↦ inr (refused, ground (arith, t))
      | inr f ↦ elim (Bool-cases (fs.fault Call.rename_to (block_path s id))) [
        | inl t ↦ inr (refused, ground (arith, f, t))
        | inr g ↦ elim (Option-cases (fs.content src)) [
          | inl n ↦ inr (not_exist, ground (arith, f, g, n))
          | inr (b, e) ↦ inl (b, _, ground (arith, f, g, e), e, refl)
        ]
      ]
    ]

pub or_else-ok :
    {A B : Type 0} (c : St Fs B) (r : Result A × Fs) (a : A) (fs' : Fs)
    → clean_up c r ≡ (ok a, fs')
    → r ≡ (ok a, fs')
or_else-ok c (ok x, fs) a fs' h = h
or_else-ok c (err e, fs) a fs' h = absurd (ground (arith, h))

-- A copy that succeeds writes the content of the source.
pub copy_file-ok :
    (src dst : FilePath) (fs fs' : Fs)
    → copy_file src dst fs ≡ (ok tt, fs')
    → (b : Bytes) × (fs.content src ≡ some b)
      × ((q : FilePath) → fs'.content q ≡ update fs.content dst (some b) q)
unfolding copy_file
copy_file-ok src dst fs fs' h = elim (Bool-cases (fs.fault Call.open_it src)) [
  | inl t ↦ absurd (ground (arith, t, h))
  | inr f ↦ elim (Option-cases (fs.content src)) [
    | inl n ↦ absurd (ground (arith, f, n, h))
    | inr (b, e) ↦
        let here : eq_bytes dst dst ≡ true = eq_bytes_refl dst in
        let (g, k, same) = written b f e here in
        (b, e, λ q. ap (λ x. x.content q) (sym same) ∙ ground (arith, here))
  ]
]
  where
    written :
        (b : Bytes)
        → fs.fault Call.open_it src ≡ false
        → fs.content src ≡ some b
        → eq_bytes dst dst ≡ true
        → (fs.fault Call.create dst ≡ false)
          × (fs.fault Call.write_to dst ≡ false)
          × (record fs { content = update (update fs.content dst (some [])) dst (some b) } ≡ fs')
    written b f e here = elim (Bool-cases (fs.fault Call.create dst)) [
      | inl t ↦ absurd (ground (arith, f, e, t, h))
      | inr g ↦ elim (Bool-cases (fs.fault Call.write_to dst)) [
        | inl t ↦ absurd (ground (arith, f, e, g, t, h))
        | inr k ↦ elim (Bool-cases (fs.fault Call.sync dst)) [
          | inl t ↦ absurd (ground (arith, f, e, g, k, t, here, h))
          | inr l ↦ (g, k, ground (arith, f, e, g, k, l, here, h))
        ]
      ]
    ]

abbrev pub is_some : Option Bytes → Bool
is_some none = false
is_some (some b) = true

-- A store answers whether the file of a block is there, or that it cannot tell, and changes
-- nothing.
pub exists_lem :
    (s : LocalStore) (id : BlockId) (fs : Fs)
    → exists s id fs ≡ (
      if fs.fault Call.stat (block_path s id)
          then err refused
          else ok (is_some (fs.content (block_path s id))),
      fs,
    )
unfolding exists
exists_lem s id fs = elim (Bool-cases (fs.fault Call.stat (block_path s id))) [
  | inl t ↦ ground (arith, t)
  | inr f ↦ elim (Option-cases (fs.content (block_path s id))) [
    | inl n ↦ ground (arith, f, n)
    | inr (b, e) ↦ ground (arith, f, e)
  ]
]
