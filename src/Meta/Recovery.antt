-- ===== src/Meta/Recovery.antt =====
-- internal/meta/recovery.go: the shards whose write-ahead log is not empty at start.
pub mod Found
mod Tests
use bbdb.Base.{
  ℕ, List, [], ◌∷◌, ◌++◌, Bool, true, false, ◌==◌, if◌then◌else◌, Result, ok, err, ◌>>=◌,
}
use bbdb.Base.Bytes.{Bytes}
use bbdb.Kv.{Pebble}
use bbdb.Kv.Sorted.{Entries}
use bbdb.Meta.Keys.{prefix_wal, parse_wal_key}
use bbdb.Meta.Wal.{wal_scan}

-- The prefix with its last byte raised by one.
abbrev pub wal_upper : Bytes
wal_upper = b'w' ∷ b'a' ∷ b'l' ∷ 1 ∷ []

unfoldable pub contains : ℕ → List ℕ → Bool
contains x [] = false
contains x (y ∷ ys) = if y == x then true else contains x ys

-- The keys of the `seen` map, in the order of the scan. Go ranges over a map in any order.
unfoldable pub seen_shards : Entries → List ℕ → List ℕ
unfolding contains
seen_shards [] seen = seen
seen_shards ((k, v) ∷ es) seen = seen_shards es (elim (parse_wal_key k) [
  | ok (shard, seq) ↦ (if contains shard seen then seen else seen ++ shard ∷ [])
  | err e ↦ seen
])

-- A shard whose log cannot be read, or is empty, is passed over.
abbrev pub any_event : Result (List Bytes) → Bool
any_event (ok []) = false
any_event (ok (e ∷ es)) = true
any_event (err e) = false

module _ (P : Pebble) where
  open P use {Db, scan}

  abbrev pub is_orphan : Db → ℕ → Bool
  is_orphan db shard = any_event (wal_scan P db shard)

  abbrev pub keep_orphans : Db → List ℕ → List ℕ
  keep_orphans db [] = []
  keep_orphans db (s ∷ ss) =
      let rest = keep_orphans db ss in if is_orphan db s then s ∷ rest else rest

  unfoldable pub find_orphaned_wal_shards : Db → Result (List ℕ)
  unfolding seen_shards wal_scan
  find_orphaned_wal_shards db = do
    es ← scan db prefix_wal wal_upper
    ok (keep_orphans db (seen_shards es []))
