-- ===== src/Ingestion/Writer/Write.antt =====
-- internal/ingestion/writer.go: `ShardWriter.Write`, with the goroutine of the writer between the turns
-- of `Push`. A turn, and the handling of a tick, is one step.
pub mod Progress
use bbdb.Base.{List, [], ◌∷◌, Bool, true, false, Option, none, some}
use bbdb.Kv.{Pebble}
use bbdb.Calendar.{Instant}
use bbdb.Block.Event.{Event}
use bbdb.Block.Columns.{Zstd}
use bbdb.Block.Memtable.{SortSlice}
use bbdb.Block.Bloom.{BloomLib}
use bbdb.Ingestion.RingBuf.{Turn, push_turn, pushed, stopped, again}
use bbdb.Ingestion.Writer.{WriterConfig, ShardWriter, flush_and_maybe_seal}
use bbdb.Base.{ℕ}

-- What happens between two turns on a full ring: nothing, the goroutine handles a tick, or the context
-- is done.
pub data Wait : Type 0 where
  nothing : Wait
  ticked : Instant → Wait
  done : Wait

abbrev pub is_done : Wait → Bool
is_done nothing = false
is_done (ticked now) = false
is_done done = true

-- What comes of the events: they are in the ring, with the waits that are left; the error of the
-- context; or the loop still goes round.
pub data Pushing (Db : Type 0) : Type 0 where
  accepted : List Wait → ShardWriter Db → Pushing Db
  refused : ShardWriter Db → Pushing Db
  waiting : Pushing Db

module _ {Db : Type 0} where
  unfoldable pub settle : List Wait → ShardWriter Db → Turn → Pushing Db → Pushing Db
  settle ws w (pushed ring) rest = accepted ws (record w { ring = ring })
  settle ws w stopped rest = refused w
  settle ws w again rest = rest

  unfoldable pub if_flushed : (ShardWriter Db → Pushing Db) → Option (ShardWriter Db) → Pushing Db
  if_flushed next none = waiting
  if_flushed next (some w) = next w

module _ (P : Pebble) (z : Zstd) (B : BloomLib) (S : SortSlice) (shard : ℕ)
    (cfg : WriterConfig B.Rate) where
  open P use {Db}

  unfoldable pub between : Wait → ShardWriter Db → (ShardWriter Db → Pushing Db) → Pushing Db
  unfolding if_flushed
  between nothing w next = next w
  between (ticked now) w next = if_flushed next (flush_and_maybe_seal P z B S shard cfg false now w)
  between done w next = refused w

  -- `Push`, which looks at the context in every turn on a full ring.
  unfoldable pub push : Event → List Wait → ShardWriter Db → Pushing Db
  unfolding settle between
  push e [] w = settle [] w (push_turn w.ring e false) waiting
  push e (x ∷ ws) w =
      let rest = between x w (push e ws) in settle (x ∷ ws) w (push_turn w.ring e (is_done x)) rest

  unfoldable pub write : List Event → List Wait → ShardWriter Db → Pushing Db
  unfolding push
  write [] ws w = accepted ws w
  write (e ∷ es) ws w = elim (push e ws w) [
    | accepted ws' w' ↦ write es ws' w'
    | refused w' ↦ refused w'
    | waiting ↦ waiting
  ]
