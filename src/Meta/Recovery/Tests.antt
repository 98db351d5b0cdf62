-- ===== src/Meta/Recovery/Tests.antt =====
-- A recovery at a log of one event.
use mathlib.Core.List.{Mem}
use bbdb.Base.{◌≢◌, ◌↔◌, refl, [], ◌∷◌, ℕ, err, Error, arith}
use bbdb.Base.Bytes.{put_be, get_be, eq_bytes, ltb_bytes}
use bbdb.Kv.Memory.{memory, Table, empty_table, run_all, scan_range}
use bbdb.Meta.Keys.{wal_key, wal_key_start, wal_key_end, wal_seq_key, parse_wal_key}
use bbdb.Meta.Wal.{wal_append, wal_scan}
use bbdb.Meta.Recovery.{find_orphaned_wal_shards}
use bbdb.Meta.Recovery.Found.{find_orphaned_wal_shards_lem}

abbrev with_event : Table
unfolding wal_append
with_event = (wal_append memory 7 (b'e' ∷ []) empty_table).1

find_orphaned_wal_shards_lem_example :
    Mem {A = ℕ} 7 (7 ∷ []) ↔ ((e : Error) → wal_scan memory with_event 7 ≢ err e)
unfolding find_orphaned_wal_shards with_event wal_append empty_table run_all scan_range wal_key
    wal_seq_key put_be get_be eq_bytes ltb_bytes parse_wal_key wal_scan wal_key_start wal_key_end
find_orphaned_wal_shards_lem_example =
    find_orphaned_wal_shards_lem memory with_event 7 0 (b'e' ∷ []) (7 ∷ []) (omega arith)
      (omega arith) refl refl
