-- ===== src/Ttl/Expire.antt =====
-- The batch that removes the metadata of a block, by its outcomes.
use bbdb.Base.{
  ◌≡◌, ap, ◌∙◌, ◌⊎◌, inl, inr, none, ok, err, Error, arith, if◌then◌else◌, Result-cases, ℕ,
}
use bbdb.Base.Bytes.{eq_bytes}
use bbdb.Kv.{Pebble}
use bbdb.Meta.Engine.{commit_batch-ok, committed}
use bbdb.Meta.Keys.{BlockId, block_key}
use bbdb.Meta.Blocks.RoundTrip.{block_key-eq}
use bbdb.Meta.Batches.{delete_block_and_expiry, expire_mutations}
use bbdb.Meta.Batches.Effects.{expiry_key-ne-block_key}

module _ (P : Pebble) where
  open P use {Db, content, get, commit}

  -- The batch is applied, or the database is as it was.
  pub delete_block_and_expiry-cases :
      (hour : ℕ) (id : BlockId) (db : Db)
      → ((db' : Db) × (delete_block_and_expiry P hour id db ≡ (ok tt, db'))
          × ((j : BlockId)
              → content db' (block_key j)
                ≡ (if eq_bytes id j then none else content db (block_key j))))
        ⊎ ((e : Error) × (delete_block_and_expiry P hour id db ≡ (err e, db)))
  unfolding delete_block_and_expiry
  delete_block_and_expiry-cases hour id db =
      elim (Result-cases (commit db (expire_mutations hour id))) [
        | inl (db', e) ↦
            let run : delete_block_and_expiry P hour id db ≡ (ok tt, db') = ap (committed P db) e in
            inl (
              db',
              run,
              λ j.
                  commit_batch-ok P db db' _ run (block_key j)
                  ∙ ground (arith, expiry_key-ne-block_key j id hour, block_key-eq id j),
            )
        | inr (x, e) ↦ inr (x, ap (committed P db) e)
      ]
