-- ===== src/Block/Sealer/Chunks.antt =====
-- The index entries that a seal writes, batch by batch.
use mathlib.Core.List.{Mem, mem-cons_self, mem-cons_of_mem}
use bbdb.Base.{
  ℕ, zero, suc, ◌+◌, ◌-◌, ◌≤◌, ◌<◌, ◌≡◌, ◌≢◌, ◌⊎◌, refl, sym, ap, ◌∙◌, subst, List, [], ◌∷◌, true,
  false, none, ltb, ◌==◌, if◌then◌else◌, arith, inl, inr, Bool-cases, length, map, take, drop, ok,
  Result-cases,
}
use bbdb.Base.Bytes.{Bytes}
use bbdb.Base.State.{after-eq-ok}
use bbdb.Base.State.Keeps.{Keeps, Keeps-then}
use bbdb.Kv.{Pebble, set_key}
use bbdb.Block.Memtable.{contains}
use bbdb.Meta.Engine.{committed}
use bbdb.Meta.Keys.{BlockId, idx_key}
use bbdb.Meta.Idx.{put_idx_batch}
use bbdb.Meta.Idx.Lookup.{put_idx_batch_lem}
use bbdb.Block.Sealer.{put_idx_chunks}

contains-Mem : (h : ℕ) (xs : List ℕ) → contains h xs ≡ true → Mem h xs
unfolding contains
contains-Mem h [] e = absurd (ground (arith, e))
contains-Mem h (x ∷ xs) e = elim (Bool-cases (x == h)) [
  | inl t ↦ subst (λ y. Mem h (y ∷ xs)) (sym (ground (arith, t))) mem-cons_self
  | inr f ↦ mem-cons_of_mem x (contains-Mem h xs (ground (arith, e, f)))
]

contains-split :
    (h n : ℕ) (xs : List ℕ)
    → contains h xs ≡ true
    → (contains h (take n xs) ≡ true) ⊎ (contains h (drop n xs) ≡ true)
unfolding contains
contains-split h zero xs e = inr e
contains-split h (suc n) [] e = inl e
contains-split h (suc n) (x ∷ xs) e = elim (Bool-cases (x == h)) [
  | inl t ↦ inl (ground (arith, t))
  | inr f ↦ elim (contains-split h n xs (ground (arith, e, f))) [
    | inl i ↦ inl (ground (arith, f, i))
    | inr i ↦ inr i
  ]
]

drop-drop : (m n : ℕ) (xs : List ℕ) → drop n (drop m xs) ≡ drop (m + n) xs
drop-drop zero n xs = ap (λ k. drop k xs) (omega arith)
drop-drop (suc m) n [] = drop_nil n ∙ sym (drop_nil (suc m + n))
  where
    drop_nil : (k : ℕ) → drop {A = ℕ} k [] ≡ []
    drop_nil zero = refl
    drop_nil (suc k) = refl
drop-drop (suc m) n (x ∷ xs) =
    let next : suc (m + n) ≡ suc m + n = omega arith in
    drop-drop m n xs ∙ ap (λ k. drop k (x ∷ xs)) next

drop-all : (n : ℕ) (xs : List ℕ) → length xs ≤ n → drop n xs ≡ []
drop-all zero [] h = refl
drop-all (suc n) [] h = refl
drop-all zero (x ∷ xs) h = absurd (omega arith)
drop-all (suc n) (x ∷ xs) h = drop-all n xs (omega arith)

contains-nil : (h : ℕ) (xs : List ℕ) → xs ≡ [] → contains h xs ≡ true → ⊥
unfolding contains
contains-nil h [] e m = absurd (ground (arith, m))
contains-nil h (x ∷ xs) e m = absurd (ground (arith, e))

module _ (P : Pebble) (event_type : ℕ) (id : BlockId) where
  open P use {Db, content, commit}

  -- Nothing but index entries of this event type and block has changed.
  abbrev pub SameElse : Db → Db → Type 0
  SameElse db db' =
      (q : Bytes) → ((k : ℕ) → q ≢ idx_key event_type k id) → content db' q ≡ content db q

  pub SameElse-refl : (db : Db) → SameElse db db
  SameElse-refl db q h = refl

  pub SameElse-trans : (a b c : Db) → SameElse a b → SameElse b c → SameElse a c
  SameElse-trans a b c f g q h = g q h ∙ f q h

  put_idx_batch-SameElse : (hs : List ℕ) → Keeps SameElse (put_idx_batch P event_type hs id)
  unfolding put_idx_batch
  put_idx_batch-SameElse hs db =
      elim (Result-cases (commit db (map (λ h. set_key (idx_key event_type h id) []) hs))) [
        | inr (x, e) ↦ λ q other. ap (λ r. content (committed P db r).1 q) e
        | inl (db', e) ↦ λ q other.
            ap (λ r. content (committed P db r).1 q) e
            ∙ (put_idx_batch_lem P db db' event_type 0 hs id id (ap (committed P db) e)).2 q other
      ]

  pub put_idx_chunks-SameElse :
      (fuel chunk : ℕ) (hashes : List ℕ) (start : ℕ)
      → Keeps SameElse (put_idx_chunks P fuel event_type chunk hashes id start)
  unfolding put_idx_chunks
  put_idx_chunks-SameElse zero chunk hashes start db = λ q other. refl
  put_idx_chunks-SameElse (suc fuel) chunk hashes start db =
      elim (Bool-cases (ltb start (length hashes))) [
        | inr f ↦ λ q other. ground (arith, f)
        | inl t ↦
            let end : ℕ =
              if ltb (length hashes) (start + chunk) then length hashes else start + chunk in
            rw t (
              Keeps-then SameElse SameElse-refl SameElse-trans
                (put_idx_batch P event_type (take (end - start) (drop start hashes)) id)
                (put_idx_chunks P fuel event_type chunk hashes id (start + chunk))
                (put_idx_batch-SameElse (take (end - start) (drop start hashes)))
                (put_idx_chunks-SameElse fuel chunk hashes (start + chunk)) db)
      ]

  -- An entry that is there stays there.
  put_idx_chunks-keeps :
      (fuel chunk : ℕ) (hashes : List ℕ) (start h : ℕ) (db db' : Db)
      → put_idx_chunks P fuel event_type chunk hashes id start db ≡ (ok tt, db')
      → content db (idx_key event_type h id) ≢ none
      → content db' (idx_key event_type h id) ≢ none
  unfolding put_idx_chunks
  put_idx_chunks-keeps zero chunk hashes start h db db' run there =
      subst (λ x. content x (idx_key event_type h id) ≢ none) (ap (λ x. x.1) run) there
  put_idx_chunks-keeps (suc fuel) chunk hashes start h db db' run there =
      elim (Bool-cases (ltb start (length hashes))) [
        | inr f ↦
            subst (λ x. content x (idx_key event_type h id) ≢ none) (ap (λ x. x.1) (rw f at run))
              there
        | inl t ↦
            let end : ℕ =
              if ltb (length hashes) (start + chunk) then length hashes else start + chunk in
            let hs = take (end - start) (drop start hashes) in
            let (_, mid, a, b) =
              after-eq-ok (λ u. put_idx_chunks P fuel event_type chunk hashes id (start + chunk))
                (put_idx_batch P event_type hs id db) tt db' (rw t at run) in
            put_idx_chunks-keeps fuel chunk hashes (start + chunk) h mid db' b
              ((put_idx_batch_lem P db mid event_type h hs id id a).1 there)
      ]

  -- With as many turns as there are hashes left, every one of them gets its entry.
  pub put_idx_chunks_lem :
      (fuel chunk : ℕ) (hashes : List ℕ) (start h : ℕ) (db db' : Db)
      → 0 < chunk
      → length hashes ≤ start + fuel
      → put_idx_chunks P fuel event_type chunk hashes id start db ≡ (ok tt, db')
      → contains h (drop start hashes) ≡ true
      → content db' (idx_key event_type h id) ≢ none
  unfolding put_idx_chunks
  put_idx_chunks_lem zero chunk hashes start h db db' pos_chunk enough run m =
      absurd (contains-nil h (drop start hashes) (drop-all start hashes (omega arith)) m)
  put_idx_chunks_lem (suc fuel) chunk hashes start h db db' pos_chunk enough run m =
      elim (Bool-cases (ltb start (length hashes))) [
        | inr f ↦
            absurd
              (contains-nil h (drop start hashes) (drop-all start hashes (ground (arith, f))) m)
        | inl t ↦
            let end : ℕ =
              if ltb (length hashes) (start + chunk) then length hashes else start + chunk in
            let hs = take (end - start) (drop start hashes) in
            let (_, mid, a, b) =
              after-eq-ok (λ u. put_idx_chunks P fuel event_type chunk hashes id (start + chunk))
                (put_idx_batch P event_type hs id db) tt db' (rw t at run) in
            elim (contains-split h (end - start) (drop start hashes) m) [
              | inl i ↦
                  put_idx_chunks-keeps fuel chunk hashes (start + chunk) h mid db' b
                    ((put_idx_batch_lem P db mid event_type h hs id id a).0 (contains-Mem h hs i))
              | inr i ↦
                  put_idx_chunks_lem fuel chunk hashes (start + chunk) h mid db' pos_chunk
                    (omega arith) b (later (Bool-cases (ltb (length hashes) (start + chunk))) t i)
            ]
      ]
    where
      later :
          (ltb (length hashes) (start + chunk) ≡ true)
            ⊎ (ltb (length hashes) (start + chunk) ≡ false)
          → ltb start (length hashes) ≡ true
          → contains h (
              drop
                ((if ltb (length hashes) (start + chunk) then length hashes else start + chunk)
                  - start)
                (drop start hashes))
            ≡ true
          → contains h (drop (start + chunk) hashes) ≡ true
      later (inl u) t i =
          absurd (
            contains-nil h _ (drop-drop start _ hashes ∙ drop-all _ hashes (ground (arith, u, t)))
              i)
      later (inr u) t i =
          ap (contains h)
            (sym (drop-drop start _ hashes ∙ ap (λ k. drop k hashes) (ground (arith, u))))
          ∙ i
