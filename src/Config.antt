-- ===== src/Config.antt =====
-- internal/config/config.go: the configuration of a node. Durations are in nanoseconds.
pub mod Load
pub mod Defaults
pub mod Listing
mod Tests
use bbdb.Base.{Bool}
use bbdb.Base.Int.{ℤ}
use bbdb.Base.Bytes.{Bytes}
use bbdb.Files.{FilePath}

pub record DataConfig : Type 0 where
  pub pebble_dir : FilePath
  pub tmp_dir : FilePath

pub record TierDirConfig : Type 0 where
  pub root : FilePath

pub record TiersConfig : Type 0 where
  pub hot : TierDirConfig
  pub warm : TierDirConfig
  pub cold : TierDirConfig

pub record IngestionConfig : Type 0 where
  pub batch_interval : ℤ
  pub ring_buf_size : ℤ
  pub max_block_bytes : ℤ

pub record BlockConfig (Rate : Type 0) : Type 0 where
  pub bloom_fpr : Rate
  pub idx_chunk_size : ℤ

pub record QueryConfig : Type 0 where
  pub max_parallel : ℤ
  pub bloom_cache_bytes : ℤ

pub record TtlConfig : Type 0 where
  pub retention_period : ℤ
  pub reaper_interval : ℤ
  pub reaper_max_deletes_per_sec : ℤ
  pub janitor_interval : ℤ
  pub shutdown_timeout : ℤ

pub record GrpcConfig : Type 0 where
  pub listen_addr : Bytes

pub record LogFileConfig : Type 0 where
  pub path : FilePath
  pub max_size_mb : ℤ
  pub max_backups : ℤ
  pub max_age_days : ℤ
  pub compress : Bool

pub record LogConfig : Type 0 where
  pub level : Bytes
  pub format : Bytes
  pub file : LogFileConfig

pub record Config (Rate : Type 0) : Type 0 where
  pub data_dirs : DataConfig
  pub tiers : TiersConfig
  pub ingestion : IngestionConfig
  pub block : BlockConfig Rate
  pub query : QueryConfig
  pub ttl : TtlConfig
  pub grpc : GrpcConfig
  pub log : LogConfig
