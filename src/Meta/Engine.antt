-- ===== src/Meta/Engine.antt =====
-- Calls of the storage engine as steps of a state: a call that fails leaves the database as it was.
use bbdb.Base.{
  ◌≡◌, sym, ◌∙◌, inl, inr, List, [], ◌∷◌, Result, ok, err, Result-cases, arith, subst, ap,
}
use bbdb.Base.Bytes.{Bytes}
use bbdb.Base.State.{St}
use bbdb.Kv.{Pebble, Mutation, set_key, delete_key, apply_all}

module _ (P : Pebble) where
  open P use {Db, content, get, scan, commit}

  abbrev pub committed : Db → Result Db → Result (Unit {0}) × Db
  committed db (ok db') = (ok tt, db')
  committed db (err e) = (err e, db)

  -- `batch.Commit`
  abbrev pub commit_batch : List Mutation → St Db (Unit {0})
  commit_batch ms db = committed db (commit db ms)

  -- `db.p.Set`
  abbrev pub set_one : Bytes → Bytes → St Db (Unit {0})
  set_one k v = commit_batch (set_key k v ∷ [])

  -- `db.p.Delete`
  abbrev pub delete_one : Bytes → St Db (Unit {0})
  delete_one k = commit_batch (delete_key k ∷ [])

  pub commit_batch-ok :
      (db db' : Db) (ms : List Mutation)
      → commit_batch ms db ≡ (ok tt, db')
      → (q : Bytes) → content db' q ≡ apply_all ms (content db) q
  commit_batch-ok db db' ms run q = elim (Result-cases (commit db ms)) [
    | inl (db₁, e) ↦
        let same : db₁ ≡ db' = ap (λ x. x.1) (sym (ap (committed db) e) ∙ run) in
        subst (λ x. content x q ≡ apply_all ms (content db) q) same (P.commit_lem db ms db₁ e q)
    | inr (x, e) ↦
        let clash : (err x, db) ≡ (ok tt, db') = sym (ap (committed db) e) ∙ run in
        absurd (ground (arith, clash))
  ]
