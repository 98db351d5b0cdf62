-- ===== src/Server/Opened.antt =====
-- What `New` leaves open.
use bbdb.Base.{
  ap, Error, ℕ, suc, [], ◌∷◌, ◌≡◌, refl, some, Result, ok, err, if◌then◌else◌, false, arith,
  Bool-cases, inl, inr,
}
use bbdb.Base.Int.{ℤ, pos, leb_ℤ}
use bbdb.Base.State.{St, after, pure, ◌>>=◌, ◌>>◌}
use bbdb.Files.{Fs, Call, FilePath, mkdir_all}
use bbdb.Block.Bloom.{BloomLib}
use bbdb.Meta.Blocks.{tier_hot, tier_warm, tier_cold}
use bbdb.Tier.Local.{LocalStore, new_local_store, join_onto, blocks_dir}
use bbdb.Index.BloomCache.{new_bloom_cache}
use bbdb.Ttl.Reaper.{new_reaper, default_reaper_config}
use bbdb.Ttl.Janitor.{new_janitor, default_interval}
use bbdb.Config.{Config}
use bbdb.Server.{
  PebbleFiles, Host, counted, Server, on_files, shutdown_timeout_of, default_shutdown_timeout,
  open_db, close_db, wire, store_or_close, open_stores, new_server,
}

-- How many databases are open behind a step that succeeds, and what it makes; and how many behind one that
-- fails.
abbrev Leaves : {A : Type 0} → ℕ → ℕ → (A → Type 0) → Result A × Host → Type 0
Leaves good bad Makes (ok a, h) = (h.opened ≡ good) × Makes a
Leaves good bad Makes (err e, h) = h.opened ≡ bad

after-Leaves :
    {A B : Type 0} (before good bad : ℕ) (Made : A → Type 0) (Makes : B → Type 0)
    (p : Result A × Host) (next : A → St Host B)
    → Leaves before bad Made p
    → ((a : A) (h : Host) → h.opened ≡ before → Made a → Leaves good bad Makes (next a h))
    → Leaves good bad Makes (after next p)
after-Leaves before good bad Made Makes (ok a, h) next (n, made) rest = rest a h n made
after-Leaves before good bad Made Makes (err e, h) next n rest = n

-- A positive value stays, and another one becomes a default that is positive.
positive :
    (z d : ℤ) → leb_ℤ d (pos 0) ≡ false → leb_ℤ (if leb_ℤ z (pos 0) then d else z) (pos 0) ≡ false
positive z d p = elim (Bool-cases (leb_ℤ z (pos 0))) [ inl t ↦ rw t p | inr f ↦ rw f f ]

-- The store of a tier under a root.
abbrev pub store_at : FilePath → ℕ → LocalStore
store_at root t = record { root = root; tier = t }

on_files-mkdir_all :
    (p : FilePath) (n : ℕ) (h : Host)
    → h.opened ≡ n
    → Leaves n n (λ u. Unit {0}) (on_files (mkdir_all p) h)
on_files-mkdir_all p n h same = elim (Bool-cases (h.fs.fault Call.make_dir p)) [
  | inl t ↦ rw t same
  | inr f ↦ rw f (same, tt)
]

module _ {Db : Type 0} (files : PebbleFiles Db) where
  open_db_lem :
      (dir : FilePath) (n : ℕ) (h : Host)
      → h.opened ≡ n
      → Leaves (suc n) n (λ db. Unit {0}) (open_db files dir h)
  unfolding open_db
  open_db_lem dir n h same = counted-Leaves (files.open_dir dir h.fs)
    where
      counted-Leaves : (p : Result Db × Fs) → Leaves (suc n) n (λ db. Unit {0}) (counted files p h)
      counted-Leaves (ok db, fs) = (ap suc same, tt)
      counted-Leaves (err e, fs) = same

  store_or_close_lem :
      (db : Db) (root : FilePath) (t n : ℕ) (h : Host)
      → h.opened ≡ suc n
      → Leaves (suc n) n (λ s. s ≡ store_at root t) (store_or_close files db root t h)
  unfolding store_or_close close_db new_local_store
  store_or_close_lem db root t n h one =
      elim (Bool-cases (h.fs.fault Call.make_dir (join_onto [] (root ∷ blocks_dir ∷ [])))) [
        | inl f ↦ rw f (omega (arith, one))
        | inr f ↦ rw f (one, refl)
      ]

  module _ (B : BloomLib) where
    open B use {Filter, Rate}

    -- What the parts of a server agree on.
    pub record IsWired (cfg : Config Rate) (s : Server Db Filter Rate) : Type 0 where
      pub hot : s.tiers tier_hot ≡ some (store_at cfg.tiers.hot.root tier_hot)
      pub warm : s.tiers tier_warm ≡ some (store_at cfg.tiers.warm.root tier_warm)
      pub cold : s.tiers tier_cold ≡ some (store_at cfg.tiers.cold.root tier_cold)
      pub writers : s.writer_cfg.store ≡ s.tiers tier_hot
      pub blooms : some s.bloom.store ≡ s.tiers tier_hot
      pub shutdown_timeout : leb_ℤ s.shutdown_timeout (pos 0) ≡ false
      pub reaper_interval : leb_ℤ s.reaper.interval (pos 0) ≡ false
      pub max_deletes : leb_ℤ s.reaper.max_deletes_per_sec (pos 0) ≡ false
      pub janitor_interval : leb_ℤ s.janitor (pos 0) ≡ false
      pub batch_interval : s.writer_cfg.batch_interval ≡ cfg.ingestion.batch_interval
      pub retention : s.writer_cfg.retention ≡ cfg.ttl.retention_period

    wire-IsWired :
        (cfg : Config Rate) (db : Db) (hot warm cold : LocalStore)
        → hot ≡ store_at cfg.tiers.hot.root tier_hot
        → warm ≡ store_at cfg.tiers.warm.root tier_warm
        → cold ≡ store_at cfg.tiers.cold.root tier_cold
        → IsWired cfg (wire files B cfg db hot warm cold)
    unfolding wire shutdown_timeout_of new_reaper new_janitor new_bloom_cache
    wire-IsWired cfg db hot warm cold h w c = record {
      hot = ap some h;
      warm = ap some w;
      cold = ap some c;
      writers = refl;
      blooms = refl;
      shutdown_timeout = positive cfg.ttl.shutdown_timeout default_shutdown_timeout refl;
      reaper_interval = positive cfg.ttl.reaper_interval default_reaper_config.interval refl;
      max_deletes =
          positive cfg.ttl.reaper_max_deletes_per_sec default_reaper_config.max_deletes_per_sec
            refl;
      janitor_interval = positive cfg.ttl.janitor_interval default_interval refl;
      batch_interval = refl;
      retention = refl;
    }

    -- What `New` leaves behind, where `n` databases were open.
    pub data IsOpened (cfg : Config Rate) (n : ℕ)
        : Result (Server Db Filter Rate) × Host → Type 0 where
      started :
          (s : Server Db Filter Rate) (h : Host)
          → h.opened ≡ suc n
          → IsWired cfg s
          → IsOpened cfg n (ok s, h)
      failed : (e : Error) (h : Host) → h.opened ≡ n → IsOpened cfg n (err e, h)

    opened_of :
        (cfg : Config Rate) (n : ℕ) (p : Result (Server Db Filter Rate) × Host)
        → Leaves (suc n) n (IsWired cfg) p
        → IsOpened cfg n p
    opened_of cfg n (ok s, h) (e, w) = started s h e w
    opened_of cfg n (err e, h) n' = failed e h n'

    open_stores-Leaves :
        (cfg : Config Rate) (db : Db) (n : ℕ) (h : Host)
        → h.opened ≡ suc n
        → Leaves (suc n) n (IsWired cfg) (open_stores files B cfg db h)
    unfolding open_stores
    open_stores-Leaves cfg db n h one =
        after-Leaves (suc n) (suc n) n (λ s. s ≡ store_at cfg.tiers.hot.root tier_hot) (IsWired cfg)
          (store_or_close files db cfg.tiers.hot.root tier_hot h) with_hot
          (store_or_close_lem db cfg.tiers.hot.root tier_hot n h one)
          (λ hot h₁ one₁ is_hot.
            after-Leaves (suc n) (suc n) n (λ s. s ≡ store_at cfg.tiers.warm.root tier_warm)
              (IsWired cfg) (store_or_close files db cfg.tiers.warm.root tier_warm h₁)
              (with_warm hot) (store_or_close_lem db cfg.tiers.warm.root tier_warm n h₁ one₁)
              (λ warm h₂ one₂ is_warm.
                after-Leaves (suc n) (suc n) n (λ s. s ≡ store_at cfg.tiers.cold.root tier_cold)
                  (IsWired cfg) (store_or_close files db cfg.tiers.cold.root tier_cold h₂)
                  (with_cold hot warm)
                  (store_or_close_lem db cfg.tiers.cold.root tier_cold n h₂ one₂)
                  (λ cold h₃ one₃ is_cold.
                    (one₃, wire-IsWired cfg db hot warm cold is_hot is_warm is_cold))))
      where
        with_cold : LocalStore → LocalStore → LocalStore → St Host (Server Db Filter Rate)
        with_cold hot warm cold = pure (wire files B cfg db hot warm cold)

        with_warm : LocalStore → LocalStore → St Host (Server Db Filter Rate)
        with_warm hot warm =
            store_or_close files db cfg.tiers.cold.root tier_cold >>= with_cold hot warm

        with_hot : LocalStore → St Host (Server Db Filter Rate)
        with_hot hot = store_or_close files db cfg.tiers.warm.root tier_warm >>= with_warm hot

    -- `New` opens one database and hands it over with all parts wired: each tier has the store under its
    -- own root, the writers seal to the hot store, the bloom cache reads from it, and the timeout of the
    -- shutdown, the intervals of the reaper and of the janitor and the limit of deletions are positive; the interval of the
    -- batches and the retention are those of the configuration, whatever their sign. When it returns an error, whichever step it came from, no database that
    -- it opened is left open.
    pub new_server_lem :
        (cfg : Config Rate) (h : Host) → IsOpened cfg h.opened (new_server files B cfg h)
    unfolding new_server
    new_server_lem cfg h = opened_of cfg n (new_server files B cfg h) (
        after-Leaves n (suc n) n (λ u. Unit {0}) (IsWired cfg) ((dir₁ >> dir₂) h) (λ u. opening)
          (after-Leaves n n n (λ u. Unit {0}) (λ u. Unit {0}) (dir₁ h) (λ u. dir₂)
            (on_files-mkdir_all cfg.data_dirs.pebble_dir n h refl)
            (λ u h₁ same _. on_files-mkdir_all cfg.data_dirs.tmp_dir n h₁ same))
          (λ u h₂ same _.
            after-Leaves (suc n) (suc n) n (λ db. Unit {0}) (IsWired cfg)
              (open_db files cfg.data_dirs.pebble_dir h₂) (open_stores files B cfg)
              (open_db_lem cfg.data_dirs.pebble_dir n h₂ same)
              (λ db h₃ one _. open_stores-Leaves cfg db n h₃ one)))
      where
        n : ℕ
        n = h.opened

        dir₁ : St Host (Unit {0})
        dir₁ = on_files (mkdir_all cfg.data_dirs.pebble_dir)

        dir₂ : St Host (Unit {0})
        dir₂ = on_files (mkdir_all cfg.data_dirs.tmp_dir)

        opening : St Host (Server Db Filter Rate)
        opening = open_db files cfg.data_dirs.pebble_dir >>= open_stores files B cfg
