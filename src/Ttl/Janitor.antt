-- ===== src/Ttl/Janitor.antt =====
-- internal/ttl/janitor.go: the worker that removes metadata whose block file is missing.
pub mod Safety
use bbdb.Base.{
  ℕ, suc, ◌*◌, List, [], ◌∷◌, Bool, true, false, Option, none, some, Result, ok, err, if◌then◌else◌,
}
use bbdb.Base.Int.{ℤ, pos, leb_ℤ}
use bbdb.Base.State.{St, pure, after, ◌>>=◌, ◌>>◌}
use bbdb.Kv.{Pebble}
use bbdb.Meta.Blocks.{get_block_meta}
use bbdb.Meta.Batches.{delete_block_and_expiry}
use bbdb.Meta.Expiry.{ExpiredEntry, scan_expired_entries}
use bbdb.Tier.Local.{LocalStore, exists}
use bbdb.Node.{Node, on_db, on_fs}
use bbdb.Ttl.{Cycle, each_turn}

abbrev pub default_interval : ℤ
default_interval = pos (3600 * 1000000000)

unfoldable pub new_janitor : ℤ → ℤ
new_janitor interval = if leb_ℤ interval (pos 0) then default_interval else interval

module _ (P : Pebble) (tiers : ℕ → Option LocalStore) where
  open P use {Db}

  abbrev pub unless_there : St (Node Db) (Unit {0}) → Bool → St (Node Db) (Unit {0})
  unless_there clean true = pure tt
  unless_there clean false = clean

  unfoldable pub sweep_entry : ExpiredEntry → St (Node Db) (Unit {0})
  sweep_entry entry n = elim (get_block_meta P n.db entry.id) [
    | err e ↦ (ok tt, (on_db (delete_block_and_expiry P entry.hour entry.id) n).1)
    | ok bm ↦ elim (tiers bm.tier) [
      | none ↦ (ok tt, n)
      | some store ↦
          (on_fs (exists store entry.id)
              >>= unless_there (on_db (delete_block_and_expiry P entry.hour entry.id)))
            n
    ]
  ]

  -- The loop from the `i`th entry on, with the answers of the context before each.
  unfoldable pub sweep : (ℕ → Bool) → ℕ → List ExpiredEntry → St (Node Db) (Unit {0})
  unfolding sweep_entry
  sweep done i [] n = (ok tt, n)
  sweep done i (entry ∷ es) n =
      let rest = sweep done (suc i) es in
      if done i then (ok tt, n) else after (λ u. rest) (sweep_entry entry n)

  unfoldable pub janitor_run_once : (ℕ → Bool) → ℕ → St (Node Db) (Unit {0})
  unfolding sweep
  janitor_run_once done now_hour n = elim (scan_expired_entries P n.db now_hour) [
    | err e ↦ (err e, n)
    | ok entries ↦ sweep done 0 entries n
  ]

  -- `Run`: a cycle at once, and one for each tick.
  unfoldable pub janitor_run : Cycle (Node Db) → List (Cycle (Node Db)) → Node Db → Node Db
  unfolding each_turn janitor_run_once
  janitor_run first ticks n = each_turn janitor_run_once (first ∷ ticks) n
