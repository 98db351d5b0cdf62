-- ===== src/Meta/Migrations/Tests.antt =====
-- A migration at concrete values, over the engine in memory.
use mathlib.Core.List.{Mem}
use bbdb.Base.{◌≡◌, ◌≢◌, refl, [], ◌∷◌, true, none, arith}
use bbdb.Base.Bytes.{eq_bytes, ltb_bytes}
use bbdb.Kv.Memory.{memory, Table, empty_table, run_all, scan_range}
use bbdb.Meta.Keys.{BlockId, migration_key, parse_migration_key}
use bbdb.Meta.Migrations.{
  MigrationMeta, migration_ids, put_migration_meta, delete_migration_meta, get_migration_meta,
  scan_in_progress_migrations,
}
use bbdb.Meta.Migrations.Scan.{scan-delete_migration_meta}

abbrev moved : BlockId
moved = b'0' ∷ b'7' ∷ []

abbrev to_warm : MigrationMeta
to_warm = record { dst_tier = 1; in_progress = true }

recorded : Table
unfolding put_migration_meta
recorded = (put_migration_meta memory moved to_warm empty_table).1

removed : Table
unfolding delete_migration_meta
removed = (delete_migration_meta memory moved recorded).1

scan-delete_migration_meta_example :
    (to_warm ≡ to_warm)
    × Mem moved (moved ∷ [])
    × ¬ Mem moved []
    × ((j : BlockId)
        → j ≢ []
        → j ≢ moved
        → (memory.content empty_table (migration_key j) ≢ none → Mem j [])
          × (Mem j [] → memory.content empty_table (migration_key j) ≢ none))
unfolding recorded removed put_migration_meta delete_migration_meta get_migration_meta
    scan_in_progress_migrations migration_ids migration_key parse_migration_key empty_table run_all
    scan_range eq_bytes ltb_bytes
scan-delete_migration_meta_example =
    scan-delete_migration_meta memory empty_table recorded removed moved to_warm to_warm
      (moved ∷ []) [] (λ e. absurd (ground (arith, e))) refl refl refl refl refl
