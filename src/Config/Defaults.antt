-- ===== src/Config/Defaults.antt =====
-- internal/config/config.go: the defaults that `Load` sets, and what becomes of them.
use bbdb.Base.{
  ◌*◌, ◌^◌, ◌≡◌, refl, sym, ap, ◌∙◌, subst, fun_ext, List, [], ◌∷◌, Bool, true, false, Option, none,
  some, Result, ok, err, Error, if◌then◌else◌, is_empty, inl, inr, Result-cases, ok-injective,
  arith, ◌>>=◌,
}
use bbdb.Base.Int.{pos}
use bbdb.Base.Bytes.{Bytes, eq_bytes}
use bbdb.Files.{FilePath}
use bbdb.Config.{Config}
use bbdb.Config.Load.{codes, Value, text, number, rate, flag, first_of, Seen, Viper, unmarshal}

module _ {Rate : Type 0} (viper : Viper Rate) where
  open viper use {
    V, one_percent, new, set_default, automatic_env, set_config_file, read_in_config, get, seen,
    env_value, file_value,
  }

  -- The calls of `SetDefault`, in their order.
  unfoldable pub default_settings : List (Bytes × Value Rate)
  default_settings =
      (codes "data.pebble_dir", text (codes "/data/pebble"))
      ∷ (codes "data.tmp_dir", text (codes "/data/tmp"))
      ∷ (codes "tiers.hot.root", text (codes "/data/tiers/hot"))
      ∷ (codes "tiers.warm.root", text (codes "/data/tiers/warm"))
      ∷ (codes "tiers.cold.root", text (codes "/data/tiers/cold"))
      ∷ (codes "ingestion.batch_interval", number (pos (2 * 10 ^ 6)))
      ∷ (codes "ingestion.ring_buf_size", number (pos 16384))
      ∷ (codes "ingestion.max_block_bytes", number (pos (256 * 2 ^ 20)))
      ∷ (codes "block.bloom_fpr", rate one_percent)
      ∷ (codes "block.idx_chunk_size", number (pos 100_000))
      ∷ (codes "query.max_parallel", number (pos 8))
      ∷ (codes "query.bloom_cache_bytes", number (pos (64 * 1024 * 1024)))
      ∷ (codes "ttl.retention_period", number (pos (5 * 365 * 24 * 3600 * 10 ^ 9)))
      ∷ (codes "ttl.reaper_interval", number (pos (10 * 60 * 10 ^ 9)))
      ∷ (codes "ttl.reaper_max_deletes_per_sec", number (pos 100))
      ∷ (codes "ttl.janitor_interval", number (pos (3600 * 10 ^ 9)))
      ∷ (codes "ttl.shutdown_timeout", number (pos (30 * 10 ^ 9)))
      ∷ (codes "grpc.listen_addr", text (codes ":7070"))
      ∷ (codes "log.level", text (codes "info"))
      ∷ (codes "log.format", text (codes "json"))
      ∷ (codes "log.file.path", text [])
      ∷ (codes "log.file.max_size_mb", number (pos 100))
      ∷ (codes "log.file.max_backups", number (pos 5))
      ∷ (codes "log.file.max_age_days", number (pos 30))
      ∷ (codes "log.file.compress", flag true)
      ∷ []

  unfoldable pub set_defaults : List (Bytes × Value Rate) → V → V
  set_defaults [] v = v
  set_defaults ((k, x) ∷ s) v = set_defaults s (set_default k x v)

  -- Before a file is read. The replacer puts `__` for a dot and a dot for `__`.
  unfoldable pub prepared : V
  unfolding set_defaults
  prepared =
      automatic_env (codes "BBDB") (codes "." ∷ codes "__" ∷ codes "__" ∷ codes "." ∷ [])
        (set_defaults default_settings new)

  unfoldable pub read_config : FilePath → Result V
  unfolding prepared
  read_config cfg_file =
      if is_empty cfg_file then ok prepared else read_in_config (set_config_file cfg_file prepared)

  -- `zero_rate` is the zero value of the rate.
  unfoldable pub load : Rate → FilePath → Result (Config Rate)
  unfolding read_config unmarshal
  load zero_rate cfg_file = read_config cfg_file >>= λ v. unmarshal viper zero_rate (get v)

  -- The last value that a list gives a key.
  abbrev pub listed : List (Bytes × Value Rate) → Bytes → Option (Value Rate)
  listed [] k = none
  listed ((j, x) ∷ s) k = first_of (listed s k) (if eq_bytes j k then some x else none)

  first_of_if :
      (b : Bool) (x : Value Rate) (o p : Option (Value Rate))
      → first_of o (if b then some x else p) ≡ first_of (first_of o (if b then some x else none)) p
  first_of_if b x o p = ground arith

  seen-set_defaults :
      (s : List (Bytes × Value Rate)) (v : V)
      → seen (set_defaults s v)
        ≡ record (seen v) { fallback = λ k. first_of (listed s k) ((seen v).fallback k) }
  unfolding set_defaults
  seen-set_defaults [] v = refl
  seen-set_defaults ((j, x) ∷ s) v =
      seen-set_defaults s (set_default j x v)
      ∙ ap (λ (u : Seen Rate). record u { fallback = λ k. first_of (listed s k) (u.fallback k) })
          (viper.seen-set_default j x v)
      ∙ ap (λ (f : Bytes → Option (Value Rate)). record (seen v) { fallback = f })
          (fun_ext (λ k. first_of_if (eq_bytes j k) x (listed s k) ((seen v).fallback k)))

  first_of-none : (o : Option (Value Rate)) → first_of o none ≡ o
  first_of-none none = refl
  first_of-none (some x) = refl

  -- What the environment says under the prefix and the replacer of `Load`.
  abbrev pub environment : Bytes → Option (Value Rate)
  environment = env_value (codes "BBDB") (codes "." ∷ codes "__" ∷ codes "__" ∷ codes "." ∷ [])

  -- What the file says, if one is named.
  abbrev pub in_file : FilePath → Bytes → Option (Value Rate)
  in_file [] k = none
  in_file (b ∷ bs) k = file_value (b ∷ bs) k

  seen-prepared : seen prepared ≡ record {
    env = environment;
    named = [];
    file = λ k. none;
    fallback = listed default_settings;
  }
  unfolding prepared
  seen-prepared =
      viper.seen-automatic_env _ _ (set_defaults default_settings new)
      ∙ ap (λ (u : Seen Rate). record u { env = environment })
          (seen-set_defaults default_settings new
            ∙ ap
                (λ (u : Seen Rate). record u {
                  fallback = λ k. first_of (listed default_settings k) (u.fallback k);
                })
                viper.seen-new
            ∙ ap
                (λ (f : Bytes → Option (Value Rate)). record {
                  env = λ k. none;
                  named = [];
                  file = λ k. none;
                  fallback = f;
                })
                (fun_ext (λ k. first_of-none (listed default_settings k))))

  seen-named :
      (cfg_file : FilePath)
      → seen (set_config_file cfg_file prepared) ≡ record {
        env = environment;
        named = cfg_file;
        file = λ k. none;
        fallback = listed default_settings;
      }
  seen-named cfg_file =
      viper.seen-set_config_file cfg_file prepared
      ∙ ap (λ (u : Seen Rate). record u { named = cfg_file }) seen-prepared

  -- What is looked up in behind the read of the file.
  seen-read_config :
      (cfg_file : FilePath) (v : V)
      → read_config cfg_file ≡ ok v
      → seen v ≡ record {
        env = environment;
        named = cfg_file;
        file = in_file cfg_file;
        fallback = listed default_settings;
      }
  unfolding read_config
  seen-read_config [] v run = ap seen (sym (ok-injective prepared v run)) ∙ seen-prepared
  seen-read_config (b ∷ bs) v run =
      viper.seen-read_in_config (set_config_file (b ∷ bs) prepared) v run
      ∙ ap (λ (u : Seen Rate). record u { file = file_value u.named }) (seen-named (b ∷ bs))

  -- How `Load` ends.
  pub data IsLoaded (zero_rate : Rate) (cfg_file : FilePath) : Result (Config Rate) → Type 0 where
    unreadable :
        (v : V) (e : Error)
        → is_empty cfg_file ≡ false
        → (seen v).named ≡ cfg_file
        → read_in_config v ≡ err e
        → IsLoaded zero_rate cfg_file (err e)
    settled :
        (v : V)
        → read_config cfg_file ≡ ok v
        → IsLoaded zero_rate cfg_file (
            unmarshal viper zero_rate (λ k.
              first_of (first_of (environment k) (in_file cfg_file k)) (listed default_settings k)))

  read_config-unreadable :
      (zero_rate : Rate) (cfg_file : FilePath) (e : Error)
      → read_config cfg_file ≡ err e
      → IsLoaded zero_rate cfg_file (err e)
  unfolding read_config
  read_config-unreadable zero_rate [] e run = absurd (ground (arith, run))
  read_config-unreadable zero_rate (b ∷ bs) e run =
      unreadable (set_config_file (b ∷ bs) prepared) e refl
        (ap (λ (u : Seen Rate). u.named) (seen-named (b ∷ bs))) run

  -- When a file is named and cannot be read, `Load` returns that error and no configuration. Otherwise each
  -- field is decoded from what the environment says of its key under the prefix BBDB with `__` for a dot, or
  -- else from what the named file says of it, if one is named, or else from the default listed for it: no
  -- default is lost, or takes the place of a value that is given.
  pub load_lem :
      (zero_rate : Rate) (cfg_file : FilePath)
      → IsLoaded zero_rate cfg_file (load zero_rate cfg_file)
  unfolding load
  load_lem zero_rate cfg_file = elim (Result-cases (read_config cfg_file)) [
    | inr (e, h) ↦ rw (h, load) (read_config-unreadable zero_rate cfg_file e h)
    | inl (v, h) ↦
        subst (IsLoaded zero_rate cfg_file)
          (sym (
            ap (λ r. r >>= λ w. unmarshal viper zero_rate (get w)) h
            ∙ ap (unmarshal viper zero_rate) (
                fun_ext (λ k.
                  viper.get_lem v k
                  ∙ ap (λ (u : Seen Rate). first_of (first_of (u.env k) (u.file k)) (u.fallback k))
                      (seen-read_config cfg_file v h)))))
          (settled v h)
  ]

  -- What the documentation of the defaults promises.
  abbrev pub default_config : Config Rate
  default_config = record {
    data_dirs = record { pebble_dir = codes "/data/pebble"; tmp_dir = codes "/data/tmp" };
    tiers = record {
      hot = record { root = codes "/data/tiers/hot" };
      warm = record { root = codes "/data/tiers/warm" };
      cold = record { root = codes "/data/tiers/cold" };
    };
    ingestion = record {
      batch_interval = pos 2_000_000;
      ring_buf_size = pos 16_384;
      max_block_bytes = pos 268_435_456;
    };
    block = record { bloom_fpr = one_percent; idx_chunk_size = pos 100_000 };
    query = record { max_parallel = pos 8; bloom_cache_bytes = pos 67_108_864 };
    ttl = record {
      retention_period = pos 157_680_000_000_000_000;
      reaper_interval = pos 600_000_000_000;
      reaper_max_deletes_per_sec = pos 100;
      janitor_interval = pos 3_600_000_000_000;
      shutdown_timeout = pos 30_000_000_000;
    };
    grpc = record { listen_addr = codes ":7070" };
    log = record {
      level = codes "info";
      format = codes "json";
      file = record {
        path = [];
        max_size_mb = pos 100;
        max_backups = pos 5;
        max_age_days = pos 30;
        compress = true;
      };
    };
  }

  unmarshal-default_settings :
      (zero_rate : Rate) → unmarshal viper zero_rate (listed default_settings) ≡ ok default_config
  unfolding unmarshal default_settings eq_bytes
  unmarshal-default_settings zero_rate = refl

  -- What the environment or else the file says of a key.
  abbrev pub given : V → Bytes → Option (Value Rate)
  given v k = first_of ((seen v).env k) ((seen v).file k)

  -- Where the environment and the file say nothing, every field has the default that was set for it.
  pub load-default_config :
      (zero_rate : Rate) (cfg_file : FilePath) (v : V)
      → read_config cfg_file ≡ ok v
      → ((k : Bytes) → given v k ≡ none)
      → load zero_rate cfg_file ≡ ok default_config
  unfolding load
  load-default_config zero_rate cfg_file v h nothing =
      ap (λ r. r >>= λ w. unmarshal viper zero_rate (get w)) h
      ∙ ap (unmarshal viper zero_rate) (
          fun_ext (λ k.
            viper.get_lem v k
            ∙ ap (λ o. first_of o ((seen v).fallback k)) (nothing k)
            ∙ ap (λ (u : Seen Rate). u.fallback k) (seen-read_config cfg_file v h)))
      ∙ unmarshal-default_settings zero_rate
