-- ===== src/Config/Load.antt =====
-- internal/config/config.go: `Load`, over the library viper as a parameter.
use Prim.Native.Char.{code}
use Prim.Native.String.{String}
use bbdb.Base.{
  ◌≡◌, List, [], ◌∷◌, Bool, false, Option, none, some, Result, ok, if◌then◌else◌, ◌>>=◌,
}
use bbdb.Base.Int.{ℤ, pos}
use bbdb.Base.Bytes.{Bytes, eq_bytes}
use bbdb.Files.{FilePath}
use bbdb.Config.{Config}

-- The bytes of an ASCII text.
abbrev pub codes : String → Bytes
codes String.[] = []
codes (String.◌∷◌ c s) = code c ∷ codes s

-- The value of a key, in a type that its field can take. Durations are numbers of nanoseconds.
pub data Value (Rate : Type 0) : Type 0 where
  text : Bytes → Value Rate
  number : ℤ → Value Rate
  rate : Rate → Value Rate
  flag : Bool → Value Rate

-- The first of two values that is there.
abbrev pub first_of : {A : Type 0} → Option A → Option A → Option A
first_of (some a) o = some a
first_of none o = o

-- What a viper looks a key up in: the environment, once it was bound; the file that was named and then read;
-- and the defaults.
pub record Seen (Rate : Type 0) : Type 0 where
  pub env : Bytes → Option (Value Rate)
  pub named : FilePath
  pub file : Bytes → Option (Value Rate)
  pub fallback : Bytes → Option (Value Rate)

abbrev pub nothing_seen : {Rate : Type 0} → Seen Rate
nothing_seen = record { env = λ k. none; named = []; file = λ k. none; fallback = λ k. none }

-- The library viper. `env_value` is what the environment of the process says of a key, under a prefix and the
-- pairs of a replacer, and `file_value` what a file says of it. The environment has precedence over the file,
-- and the file over the defaults. The weak conversions are those of the decoder, for a value whose type is not
-- that of the field.
pub record Viper (Rate : Type 0) : Type 1 where
  pub V : Type 0
  pub one_percent : Rate
  pub env_value : Bytes → List Bytes → Bytes → Option (Value Rate)
  pub file_value : FilePath → Bytes → Option (Value Rate)
  pub weak_text : Value Rate → Result Bytes
  pub weak_number : Value Rate → Result ℤ
  pub weak_duration : Value Rate → Result ℤ
  pub weak_rate : Value Rate → Result Rate
  pub weak_flag : Value Rate → Result Bool
  pub new : V
  pub set_default : Bytes → Value Rate → V → V
  pub automatic_env : Bytes → List Bytes → V → V
  pub set_config_file : FilePath → V → V
  pub read_in_config : V → Result V
  pub get : V → Bytes → Option (Value Rate)
  pub seen : V → Seen Rate
  pub get_lem :
      (v : V) (k : Bytes)
      → get v k ≡ first_of (first_of ((seen v).env k) ((seen v).file k)) ((seen v).fallback k)
  pub seen-new : seen new ≡ nothing_seen
  pub seen-set_default :
      (j : Bytes) (x : Value Rate) (v : V)
      → seen (set_default j x v)
        ≡ record (seen v) { fallback = λ k. if eq_bytes j k then some x else (seen v).fallback k }
  pub seen-automatic_env :
      (p : Bytes) (r : List Bytes) (v : V)
      → seen (automatic_env p r v) ≡ record (seen v) { env = env_value p r }
  pub seen-set_config_file :
      (p : FilePath) (v : V) → seen (set_config_file p v) ≡ record (seen v) { named = p }
  pub seen-read_in_config :
      (v v' : V)
      → read_in_config v ≡ ok v'
      → seen v' ≡ record (seen v) { file = file_value (seen v).named }

module _ {Rate : Type 0} (viper : Viper Rate) where
  open viper use {weak_text, weak_number, weak_duration, weak_rate, weak_flag}

  -- A field of the type of a text, a number, a duration, a rate or a flag. A key that is not there leaves the
  -- field as it is in an empty record; a value of another type goes through the conversion to that of the
  -- field.
  abbrev pub text_of : Option (Value Rate) → Result Bytes
  text_of none = ok []
  text_of (some (text s)) = ok s
  text_of (some v) = weak_text v

  abbrev pub number_of : Option (Value Rate) → Result ℤ
  number_of none = ok (pos 0)
  number_of (some (number n)) = ok n
  number_of (some v) = weak_number v

  abbrev pub duration_of : Option (Value Rate) → Result ℤ
  duration_of none = ok (pos 0)
  duration_of (some (number n)) = ok n
  duration_of (some v) = weak_duration v

  abbrev pub rate_of : Rate → Option (Value Rate) → Result Rate
  rate_of zero_rate none = ok zero_rate
  rate_of zero_rate (some (rate r)) = ok r
  rate_of zero_rate (some v) = weak_rate v

  abbrev pub flag_of : Option (Value Rate) → Result Bool
  flag_of none = ok false
  flag_of (some (flag b)) = ok b
  flag_of (some v) = weak_flag v

  -- `Unmarshal`: the tags of the fields are the parts of the keys.
  unfoldable pub unmarshal : Rate → (Bytes → Option (Value Rate)) → Result (Config Rate)
  unmarshal zero_rate get = do
    pebble_dir ← text_of (get (codes "data.pebble_dir"))
    tmp_dir ← text_of (get (codes "data.tmp_dir"))
    hot ← text_of (get (codes "tiers.hot.root"))
    warm ← text_of (get (codes "tiers.warm.root"))
    cold ← text_of (get (codes "tiers.cold.root"))
    batch_interval ← duration_of (get (codes "ingestion.batch_interval"))
    ring_buf_size ← number_of (get (codes "ingestion.ring_buf_size"))
    max_block_bytes ← number_of (get (codes "ingestion.max_block_bytes"))
    bloom_fpr ← rate_of zero_rate (get (codes "block.bloom_fpr"))
    idx_chunk_size ← number_of (get (codes "block.idx_chunk_size"))
    max_parallel ← number_of (get (codes "query.max_parallel"))
    bloom_cache_bytes ← number_of (get (codes "query.bloom_cache_bytes"))
    retention_period ← duration_of (get (codes "ttl.retention_period"))
    reaper_interval ← duration_of (get (codes "ttl.reaper_interval"))
    max_deletes ← number_of (get (codes "ttl.reaper_max_deletes_per_sec"))
    janitor_interval ← duration_of (get (codes "ttl.janitor_interval"))
    shutdown_timeout ← duration_of (get (codes "ttl.shutdown_timeout"))
    listen_addr ← text_of (get (codes "grpc.listen_addr"))
    level ← text_of (get (codes "log.level"))
    format ← text_of (get (codes "log.format"))
    path ← text_of (get (codes "log.file.path"))
    max_size_mb ← number_of (get (codes "log.file.max_size_mb"))
    max_backups ← number_of (get (codes "log.file.max_backups"))
    max_age_days ← number_of (get (codes "log.file.max_age_days"))
    compress ← flag_of (get (codes "log.file.compress"))
    ok (record {
      data_dirs = record { pebble_dir = pebble_dir; tmp_dir = tmp_dir };
      tiers = record {
        hot = record { root = hot };
        warm = record { root = warm };
        cold = record { root = cold };
      };
      ingestion = record {
        batch_interval = batch_interval;
        ring_buf_size = ring_buf_size;
        max_block_bytes = max_block_bytes;
      };
      block = record { bloom_fpr = bloom_fpr; idx_chunk_size = idx_chunk_size };
      query = record { max_parallel = max_parallel; bloom_cache_bytes = bloom_cache_bytes };
      ttl = record {
        retention_period = retention_period;
        reaper_interval = reaper_interval;
        reaper_max_deletes_per_sec = max_deletes;
        janitor_interval = janitor_interval;
        shutdown_timeout = shutdown_timeout;
      };
      grpc = record { listen_addr = listen_addr };
      log = record {
        level = level;
        format = format;
        file = record {
          path = path;
          max_size_mb = max_size_mb;
          max_backups = max_backups;
          max_age_days = max_age_days;
          compress = compress;
        };
      };
    })
