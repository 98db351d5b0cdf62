-- ===== src/Ingestion/Writer.antt =====
-- internal/ingestion/writer.go: the writer of a shard drains its ring into the log and the memtable,
-- and seals the memtable. Logging of the process is left out; `time.Now()` is an argument.
pub mod Logged
pub mod Taken
pub mod Write
mod Tests
use bbdb.Base.{
  ℕ, zero, suc, ◌+◌, ◌*◌, ◌/◌, ◌%◌, ◌^◌, List, [], ◌∷◌, Bool, true, false, not, ◌&&◌, ◌||◌, Option,
  none, some, ◌==◌, if◌then◌else◌, length, Result, ok, err, Error,
}
use bbdb.Base.Int.{ℤ, pos, negsuc, leb_ℤ}
use bbdb.Kv.{Pebble}
use bbdb.Node.{Node}
use bbdb.Files.{FilePath}
use bbdb.Calendar.{Instant, Civil, civil_of, hours_of, instant_of}
use bbdb.Block.Event.{Event}
use bbdb.Block.Columns.{Zstd}
use bbdb.Block.Memtable.{Memtable, SortSlice, new_memtable, append, len}
use bbdb.Block.Bloom.{BloomLib}
use bbdb.Block.Sealer.{SealRequest, seal}
use bbdb.Meta.Wal.{wal_append}
use bbdb.Tier.Local.{LocalStore}
use bbdb.Ingestion.RingBuf.{RingBuf, new_ring_buf, drain_all}
use bbdb.Ingestion.Json.{marshal}

-- 256 MiB.
abbrev pub default_max_block_bytes : ℕ
default_max_block_bytes = 256 * 2 ^ 20

-- Durations are in nanoseconds. Without a store there is no automatic seal.
pub record WriterConfig (Rate : Type 0) : Type 0 where
  pub batch_interval : ℤ
  pub ring_buf_size : ℤ
  pub store : Option LocalStore
  pub tmp_dir : FilePath
  pub retention : ℤ
  pub max_block_bytes : ℤ
  pub bloom_fpr : Rate
  pub idx_chunk_size : ℤ

-- `zero_rate` is the zero value of the rate.
unfoldable pub default_writer_config : {Rate : Type 0} → Rate → WriterConfig Rate
default_writer_config zero_rate = record {
  batch_interval = pos (2 * 10 ^ 6);
  ring_buf_size = pos (2 ^ 14);
  store = none;
  tmp_dir = [];
  retention = pos 0;
  max_block_bytes = pos 0;
  bloom_fpr = zero_rate;
  idx_chunk_size = pos 0;
}

-- The threshold that the writer works with.
unfoldable pub max_block_bytes_of : ℤ → ℤ
max_block_bytes_of (pos zero) = pos default_max_block_bytes
max_block_bytes_of (pos (suc n)) = pos (suc n)
max_block_bytes_of (negsuc n) = pos default_max_block_bytes

-- A writer, with the node that it writes to. Its configuration and its shard do not change.
pub record ShardWriter (Db : Type 0) : Type 0 where
  pub node : Node Db
  pub ring : RingBuf
  pub memtable : Memtable
  pub opened_at : Instant

-- The start of the UTC hour.
unfoldable pub hour_boundary : Instant → Instant
hour_boundary t = instant_of (hours_of t) (pos 0)

unfoldable pub new_shard_writer :
    {Db Rate : Type 0} → Node Db → WriterConfig Rate → Instant → Option (ShardWriter Db)
unfolding hour_boundary
new_shard_writer node cfg now = elim (new_ring_buf cfg.ring_buf_size) [
  | none ↦ none
  | some ring ↦
      some (record {
        node = node;
        ring = ring;
        memtable = new_memtable;
        opened_at = hour_boundary now;
      })
]

abbrev pub same_hour : Civil → Civil → Bool
same_hour a b = a.hour == b.hour && (a.day == b.day && (a.month == b.month && a.year == b.year))

unfoldable pub hour_changed : Instant → Instant → Bool
hour_changed now opened_at = not (same_hour (civil_of now) (civil_of opened_at))

-- What comes to the goroutine of a writer: a tick of its timer, or the end, each at an instant.
pub data Signal : Type 0 where
  tick stop : Instant → Signal

module _ (P : Pebble) (z : Zstd) (B : BloomLib) (S : SortSlice) (shard : ℕ)
    (cfg : WriterConfig B.Rate) where
  open P use {Db}

  -- The loop over the drained events. An append to the log that fails is only reported.
  unfoldable pub append_events : List Event → Db → Memtable → Db × Memtable
  append_events [] db mt = (db, mt)
  append_events (e ∷ es) db mt =
      append_events es (wal_append P shard (marshal e) db).1 (append mt e)

  unfoldable pub request_of : LocalStore → ShardWriter Db → Instant → SealRequest B.Rate
  request_of store w sealed_at = record {
    store = store;
    tmp_dir = cfg.tmp_dir;
    shard = shard;
    event_type = shard / 2 ^ 8 % 2 ^ 8;
    opened_at = w.opened_at;
    sealed_at = sealed_at;
    memtable = w.memtable;
    retention = cfg.retention;
    bloom_fpr = cfg.bloom_fpr;
    idx_chunk_size = cfg.idx_chunk_size;
  }

  -- An error of the seal is only reported: the memtable is new in any case.
  unfoldable pub seal_current : LocalStore → Instant → ShardWriter Db → ShardWriter Db
  unfolding request_of hour_boundary
  seal_current store sealed_at w = record w {
    node = (seal P z B S (request_of store w sealed_at) w.node).1;
    memtable = new_memtable;
    opened_at = hour_boundary sealed_at;
  }

  -- Whether there is something to seal, and a reason to.
  unfoldable pub seal_due : Bool → Instant → ShardWriter Db → Bool
  unfolding hour_changed max_block_bytes_of
  seal_due force now w =
      not (len w.memtable == 0)
      && (force
          || (hour_changed now w.opened_at
              || leb_ℤ (max_block_bytes_of cfg.max_block_bytes) (pos w.memtable.approx_bytes)))

  unfoldable pub maybe_seal : Option LocalStore → Bool → Instant → ShardWriter Db → ShardWriter Db
  unfolding seal_current seal_due
  maybe_seal none force now w = w
  maybe_seal (some store) force now w = if seal_due force now w then seal_current store now w else w

  -- What was drained goes into the log and the memtable.
  unfoldable pub take_in : List Event → RingBuf → ShardWriter Db → ShardWriter Db
  unfolding append_events
  take_in events ring w =
      let (db, mt) = append_events events w.node.db w.memtable in
      record w { node = record { db = db; fs = w.node.fs }; ring = ring; memtable = mt }

  unfoldable pub flush_drained :
      Bool → Instant → ShardWriter Db → Option (List Event × RingBuf) → Option (ShardWriter Db)
  unfolding take_in maybe_seal
  flush_drained force now w none = none
  flush_drained force now w (some (events, ring)) =
      some (maybe_seal cfg.store force now (take_in events ring w))

  -- A ring holds at most as many events as it has places: one turn more drains it.
  unfoldable pub flush_and_maybe_seal : Bool → Instant → ShardWriter Db → Option (ShardWriter Db)
  unfolding flush_drained
  flush_and_maybe_seal force now w =
      flush_drained force now w (drain_all (suc (length w.ring.buf)) w.ring)

  -- The loop of the goroutine, over the signals in the order in which it receives them.
  unfoldable pub run : List Signal → ShardWriter Db → Option (ShardWriter Db)
  unfolding flush_and_maybe_seal
  run [] w = some w
  run (stop now ∷ signals) w = flush_and_maybe_seal true now w
  run (tick now ∷ signals) w = elim (flush_and_maybe_seal false now w) [
    | none ↦ none
    | some w' ↦ run signals w'
  ]
