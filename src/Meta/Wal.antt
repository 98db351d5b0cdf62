-- ===== src/Meta/Wal.antt =====
-- internal/meta/wal.go: the write-ahead log of each shard, and its sequence counter.
pub mod Append
pub mod Log
use bbdb.Base.{
  ℕ, suc, ◌+◌, ◌%◌, ◌^◌, ◌≤◌, ◌<◌, ◌≡◌, List, [], ◌∷◌, ◌++◌, Bool, true, false, Option, none, some,
  ltb, if◌then◌else◌, length, take, Result, ok, err, Error, panic,
}
use bbdb.Base.Bytes.{Bytes, put_be, get_be, uint_at}
use bbdb.Base.State.{St, ◌>>=◌, ◌>>◌, pure, fail}
use bbdb.Kv.{Pebble, delete_range}
use bbdb.Kv.Sorted.{Entries}
use bbdb.Meta.Engine.{set_one, commit_batch}
use bbdb.Meta.Keys.{wal_key, wal_key_start, wal_key_end, wal_seq_key}

abbrev pub values : Entries → List Bytes
values [] = []
values ((k, v) ∷ es) = v ∷ values es

-- The number after the one that is stored. Reading 8 bytes of a shorter slice panics.
abbrev pub seq_after : Bytes → Result ℕ
seq_after val = if ltb (length val) 8 then err panic else ok ((uint_at 8 0 val + 1) % 2 ^ 64)

-- 0 if there is no counter yet.
abbrev pub next_from : Option Bytes → Result ℕ
next_from none = ok 0
next_from (some val) = seq_after val

module _ (P : Pebble) where
  open P use {Db, get, scan}

  abbrev pub next_of : Db → ℕ → Result ℕ
  next_of db shard = elim (get db (wal_seq_key shard)) [ err e ↦ err e | ok o ↦ next_from o ]

  unfoldable pub wal_next_seq : ℕ → St Db ℕ
  wal_next_seq shard = do
    next ← λ db. (next_of db shard, db)
    set_one P (wal_seq_key shard) (put_be 8 next)
    pure next

  unfoldable pub wal_append : ℕ → Bytes → St Db (Unit {0})
  unfolding wal_next_seq
  wal_append shard event = do seq ← wal_next_seq shard; set_one P (wal_key shard seq) event

  unfoldable pub wal_scan : Db → ℕ → Result (List Bytes)
  wal_scan db shard = elim (scan db (wal_key_start shard) (wal_key_end shard)) [
    | err e ↦ err e
    | ok es ↦ ok (values es)
  ]

  unfoldable pub wal_truncate : ℕ → St Db (Unit {0})
  wal_truncate shard = commit_batch P (delete_range (wal_key_start shard) (wal_key_end shard) ∷ [])
