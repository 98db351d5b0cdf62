-- ===== src/Ttl/Reaper.antt =====
-- internal/ttl/reaper.go: the worker that deletes expired blocks, file first, metadata second.
pub mod Safety
pub mod Unreadable
use bbdb.Base.{
  ℕ, suc, ◌+◌, ◌*◌, List, [], ◌∷◌, Bool, true, false, Option, none, some, Result, ok, err,
  if◌then◌else◌,
}
use bbdb.Base.Int.{ℤ, pos, leb_ℤ}
use bbdb.Base.State.{St, pure, after, ◌>>◌}
use bbdb.Kv.{Pebble}
use bbdb.Meta.Blocks.{get_block_meta}
use bbdb.Meta.Batches.{delete_block_and_expiry}
use bbdb.Meta.Expiry.{ExpiredEntry, scan_expired_entries}
use bbdb.Tier.Local.{LocalStore, delete}
use bbdb.Node.{Node, on_db, on_fs}
use bbdb.Ttl.{Cycle, each_turn, Next, go_on, stop_here}

-- Durations are in nanoseconds.
pub record ReaperConfig : Type 0 where
  pub interval : ℤ
  pub max_deletes_per_sec : ℤ

abbrev pub default_reaper_config : ReaperConfig
default_reaper_config = record {
  interval = pos (10 * 60 * 1000000000);
  max_deletes_per_sec = pos 100;
}

unfoldable pub new_reaper : ReaperConfig → ReaperConfig
new_reaper cfg = record {
  interval = if leb_ℤ cfg.interval (pos 0) then default_reaper_config.interval else cfg.interval;
  max_deletes_per_sec =
      if leb_ℤ cfg.max_deletes_per_sec (pos 0)
      then default_reaper_config.max_deletes_per_sec
      else cfg.max_deletes_per_sec;
}

module _ (P : Pebble) (tiers : ℕ → Option LocalStore) where
  open P use {Db}

  -- One entry. `done` is the answer of the context in the wait behind a deletion.
  unfoldable pub reap_entry : Bool → ExpiredEntry → St (Node Db) Next
  reap_entry done entry n = elim (get_block_meta P n.db entry.id) [
    | err e ↦ (ok go_on, (on_db (delete_block_and_expiry P entry.hour entry.id) n).1)
    | ok bm ↦ elim (tiers bm.tier) [
      | none ↦ (ok go_on, n)
      | some store ↦
          (on_fs (delete store entry.id)
              >> on_db (delete_block_and_expiry P entry.hour entry.id)
              >> pure (if done then stop_here else go_on))
            n
    ]
  ]

  abbrev pub continue : St (Node Db) (Unit {0}) → Next → St (Node Db) (Unit {0})
  continue rest go_on = rest
  continue rest stop_here = pure tt

  -- The loop from the `i`th entry on. `done` gives the answers of the context, two for an entry.
  unfoldable pub reap : (ℕ → Bool) → ℕ → List ExpiredEntry → St (Node Db) (Unit {0})
  unfolding reap_entry
  reap done i [] n = (ok tt, n)
  reap done i (entry ∷ es) n =
      let rest = reap done (suc i) es in
      if done (2 * i)
      then (ok tt, n)
      else after (continue rest) (reap_entry (done (2 * i + 1)) entry n)

  unfoldable pub reaper_run_once : (ℕ → Bool) → ℕ → St (Node Db) (Unit {0})
  unfolding reap
  reaper_run_once done now_hour n = elim (scan_expired_entries P n.db now_hour) [
    | err e ↦ (err e, n)
    | ok expired ↦ reap done 0 expired n
  ]

  -- `Run`: a cycle at once, and one for each tick.
  unfoldable pub reaper_run : Cycle (Node Db) → List (Cycle (Node Db)) → Node Db → Node Db
  unfolding each_turn reaper_run_once
  reaper_run first ticks n = each_turn reaper_run_once (first ∷ ticks) n
