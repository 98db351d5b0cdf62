-- ===== src/Meta/Migrations.antt =====
-- internal/meta/migration.go: the state of tier migrations, for crash recovery.
pub mod Scan
mod Tests
use bbdb.Base.{
  ℕ, List, [], ◌∷◌, Bool, none, some, leb, ◌==◌, if◌then◌else◌, length, get_or, Result, ok, err,
  migration_meta_too_short, not_found, guard, ◌>>=◌, ◌>>◌,
}
use bbdb.Base.Bytes.{Bytes}
use bbdb.Base.State.{St}
use bbdb.Kv.{Pebble}
use bbdb.Kv.Sorted.{Entries}
use bbdb.Meta.Engine.{set_one, delete_one}
use bbdb.Meta.Keys.{BlockId, migration_key, parse_migration_key, prefix_migr}

pub record MigrationMeta : Type 0 where
  pub dst_tier : ℕ
  pub in_progress : Bool

abbrev pub encode_migration_meta : MigrationMeta → Bytes
encode_migration_meta m = m.dst_tier ∷ (if m.in_progress then 1 else 0) ∷ []

abbrev pub decode_migration_meta : Bytes → Result MigrationMeta
decode_migration_meta val = do
  guard (leb 2 (length val)) migration_meta_too_short
  ok (record { dst_tier = get_or val 0 0; in_progress = get_or val 1 0 == 1 })

-- The keys of a scan that parse; the others are passed over.
unfoldable pub migration_ids : Entries → List BlockId
migration_ids [] = []
migration_ids ((k, v) ∷ es) = elim (parse_migration_key k) [
  | ok id ↦ id ∷ migration_ids es
  | err e ↦ migration_ids es
]

-- The prefix with its last byte raised by one.
abbrev pub migr_upper : Bytes
migr_upper = b'm' ∷ b'g' ∷ b'r' ∷ 1 ∷ []

module _ (P : Pebble) where
  open P use {Db, get, scan}

  unfoldable pub put_migration_meta : BlockId → MigrationMeta → St Db (Unit {0})
  put_migration_meta id m = set_one P (migration_key id) (encode_migration_meta m)

  unfoldable pub get_migration_meta : Db → BlockId → Result MigrationMeta
  get_migration_meta db id = elim (get db (migration_key id)) [
    | err e ↦ err e
    | ok none ↦ err not_found
    | ok (some val) ↦ decode_migration_meta val
  ]

  unfoldable pub delete_migration_meta : BlockId → St Db (Unit {0})
  delete_migration_meta id = delete_one P (migration_key id)

  unfoldable pub scan_in_progress_migrations : Db → Result (List BlockId)
  unfolding migration_ids
  scan_in_progress_migrations db = do es ← scan db prefix_migr migr_upper; ok (migration_ids es)
