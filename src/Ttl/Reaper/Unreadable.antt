-- ===== src/Ttl/Reaper/Unreadable.antt =====
-- Metadata that the reaper cannot read.
use bbdb.Base.{ℕ, ◌≡◌, Bool, Option, none, ok, err, Error, arith}
use bbdb.Kv.{Pebble}
use bbdb.Meta.Keys.{block_key, expiry_key}
use bbdb.Meta.Blocks.{get_block_meta}
use bbdb.Meta.Batches.{delete_block_and_expiry}
use bbdb.Meta.Batches.Effects.{delete_block_and_expiry_lem}
use bbdb.Meta.Expiry.{ExpiredEntry}
use bbdb.Tier.Local.{LocalStore}
use bbdb.Node.{Node}
use bbdb.Ttl.{go_on}
use bbdb.Ttl.Reaper.{reap_entry}

module _ (P : Pebble) (tiers : ℕ → Option LocalStore) where
  open P use {Db, content}

  -- If the metadata of an expired block cannot be read, for whatever reason, and the batch that
  -- deletes it is applied, then the reaper goes on without an error, the metadata and the expiry
  -- key are gone, and no file was touched.
  pub reap_entry-err :
      (done : Bool) (entry : ExpiredEntry) (n : Node Db) (e : Error) (db' : Db)
      → get_block_meta P n.db entry.id ≡ err e
      → delete_block_and_expiry P entry.hour entry.id n.db ≡ (ok tt, db')
      → (reap_entry P tiers done entry n ≡ (ok go_on, record n { db = db' }))
        × (content db' (block_key entry.id) ≡ none)
        × (content db' (expiry_key entry.hour entry.id) ≡ none)
  unfolding reap_entry
  reap_entry-err done entry n e db' h run =
      let (gone, no_key, rest) = delete_block_and_expiry_lem P n.db db' entry.hour entry.id run in
      (ground (arith, h, run), gone, no_key)
