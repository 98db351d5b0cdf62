-- ===== src/Server.antt =====
-- internal/server/server.go: `New` opens the database and the tier stores and wires the components, and
-- internal/meta/db.go: `Open` and `Close`. Logging is left out.
pub mod Opened
pub mod Lifecycle
mod Tests
use bbdb.Base.{
  ℕ, suc, ◌*◌, ◌-◌, ◌^◌, ◌==◌, ◌≡◌, refl, Option, none, some, Result, ok, err, Error, if◌then◌else◌,
}
use bbdb.Base.Int.{ℤ, pos, leb_ℤ}
use bbdb.Base.Bytes.{Bytes}
use bbdb.Base.State.{St, pure, ◌>>=◌, ◌>>◌, ◌or_else◌}
use bbdb.Files.{Fs, FilePath, mkdir_all}
use bbdb.Block.Bloom.{BloomLib}
use bbdb.Meta.Blocks.{tier_hot, tier_warm, tier_cold}
use bbdb.Tier.Local.{LocalStore, new_local_store}
use bbdb.Index.BloomCache.{BloomCache, new_bloom_cache}
use bbdb.Ttl.Reaper.{ReaperConfig, new_reaper}
use bbdb.Ttl.Janitor.{new_janitor}
use bbdb.Ingestion.Writer.{WriterConfig}
use bbdb.Config.{Config}

-- `pebble.Open` and the method `Close`, on the files of the host.
pub record PebbleFiles (Db : Type 0) : Type 0 where
  pub open_dir : FilePath → St Fs Db
  pub close : Db → St Fs (Unit {0})

-- The files, and how many databases are open.
pub record Host : Type 0 where
  pub fs : Fs
  pub opened : ℕ

abbrev pub on_files : {A : Type 0} → St Fs A → St Host A
on_files m h = let (r, fs) = m h.fs in (r, record h { fs = fs })

-- 30 seconds.
abbrev pub default_shutdown_timeout : ℤ
default_shutdown_timeout = pos (30 * 10 ^ 9)

unfoldable pub shutdown_timeout_of : ℤ → ℤ
shutdown_timeout_of timeout = if leb_ℤ timeout (pos 0) then default_shutdown_timeout else timeout

-- The map from tiers to their stores.
abbrev pub tiers_of : LocalStore → LocalStore → LocalStore → ℕ → Option LocalStore
tiers_of hot warm cold t =
    if t == tier_hot
    then some hot
    else if t == tier_warm
    then some warm
    else if t == tier_cold
    then some cold
    else none

-- The engine is what its query takes: the database, the cache and the stores. `max_parallel` is its limit.
pub record Server (Db Filter Rate : Type 0) : Type 0 where
  pub db : Db
  pub bloom : BloomCache Filter
  pub max_parallel : ℤ
  pub reaper : ReaperConfig
  pub janitor : ℤ
  pub tiers : ℕ → Option LocalStore
  pub writer_cfg : WriterConfig Rate
  pub listen_addr : Bytes
  pub shutdown_timeout : ℤ

module _ {Db : Type 0} (files : PebbleFiles Db) where
  abbrev counted : Result Db × Fs → Host → Result Db × Host
  counted (ok db, fs) h = (ok db, record { fs = fs; opened = suc h.opened })
  counted (err e, fs) h = (err e, record h { fs = fs })

  unfoldable pub open_db : FilePath → St Host Db
  open_db dir h = counted (files.open_dir dir h.fs) h

  -- The database is closed whatever `Close` answers.
  unfoldable pub close_db : Db → St Host (Unit {0})
  close_db db h =
      let (r, fs) = files.close db h.fs in (r, record { fs = fs; opened = h.opened - 1 })

  -- A store that cannot be made closes the database.
  unfoldable pub store_or_close : Db → FilePath → ℕ → St Host LocalStore
  unfolding close_db
  store_or_close db root tier = on_files (new_local_store root tier) or_else close_db db

  module _ (B : BloomLib) where
    open B use {Filter, Rate}

    -- What is wired once all is open. The writers take durations that are not negative.
    unfoldable pub wire :
        Config Rate → Db → LocalStore → LocalStore → LocalStore → Server Db Filter Rate
    unfolding shutdown_timeout_of
    wire cfg db hot warm cold = record {
      db = db;
      bloom = new_bloom_cache hot cfg.query.bloom_cache_bytes;
      max_parallel = cfg.query.max_parallel;
      reaper = new_reaper (record {
        interval = cfg.ttl.reaper_interval;
        max_deletes_per_sec = cfg.ttl.reaper_max_deletes_per_sec;
      });
      janitor = new_janitor cfg.ttl.janitor_interval;
      tiers = tiers_of hot warm cold;
      writer_cfg = record {
        batch_interval = cfg.ingestion.batch_interval;
        ring_buf_size = cfg.ingestion.ring_buf_size;
        store = some hot;
        tmp_dir = cfg.data_dirs.tmp_dir;
        retention = cfg.ttl.retention_period;
        max_block_bytes = cfg.ingestion.max_block_bytes;
        bloom_fpr = cfg.block.bloom_fpr;
        idx_chunk_size = cfg.block.idx_chunk_size;
      };
      listen_addr = cfg.grpc.listen_addr;
      shutdown_timeout = shutdown_timeout_of cfg.ttl.shutdown_timeout;
    }

    -- From the open database on.
    unfoldable pub open_stores : Config Rate → Db → St Host (Server Db Filter Rate)
    unfolding store_or_close wire
    open_stores cfg db = store_or_close db cfg.tiers.hot.root tier_hot >>= λ hot.
        store_or_close db cfg.tiers.warm.root tier_warm >>= λ warm.
        store_or_close db cfg.tiers.cold.root tier_cold >>= λ cold. pure (wire cfg db hot warm cold)

    unfoldable pub new_server : Config Rate → St Host (Server Db Filter Rate)
    unfolding open_db open_stores
    new_server cfg =
        on_files (mkdir_all cfg.data_dirs.pebble_dir)
        >> on_files (mkdir_all cfg.data_dirs.tmp_dir)
        >> (open_db cfg.data_dirs.pebble_dir >>= open_stores cfg)
