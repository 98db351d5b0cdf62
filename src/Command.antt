-- ===== src/Command.antt =====
-- cmd/bbdb/main.go: the command `start`. The libraries cobra and os/signal are left out: the context is done
-- when a signal has come.
mod Tests
use bbdb.Base.{
  suc, ◌≡◌, refl, List, Option, none, some, Result, ok, err, Error, Result-cases, inl, inr, arith,
}
use bbdb.Files.{FilePath}
use bbdb.Block.Bloom.{BloomLib}
use bbdb.Config.{Config}
use bbdb.Config.Load.{Viper}
use bbdb.Config.Defaults.{load}
use bbdb.Logger.{Zap, Core, init}
use bbdb.Server.{PebbleFiles, Host, Server, new_server, close_db}
use bbdb.Server.Opened.{IsOpened, started, failed, new_server_lem}

-- The errors of the command, with the step that they come from.
pub data StartError : Type 0 where
  load_config : Error → StartError
  init_logger : Error → StartError
  init_server : Error → StartError

module _ {Db : Type 0} (files : PebbleFiles Db) (B : BloomLib) (zap : Zap)
    (viper : Viper B.Rate) where
  open B use {Filter, Rate}

  -- `Run` has no error to return. It ends by a close of the database.
  unfoldable pub run_server : Result (Server Db Filter Rate) × Host → Option StartError × Host
  unfolding close_db
  run_server (err e, h) = (some (init_server e), h)
  run_server (ok s, h) = (none, (close_db files s.db h).1)

  unfoldable pub start_with : Config Rate → Host → Option StartError × Host
  unfolding run_server
  start_with cfg h = elim (init zap cfg.log) [
    | err e ↦ (some (init_logger e), h)
    | ok cores ↦ run_server (new_server files B cfg h)
  ]

  unfoldable pub start : Rate → FilePath → Host → Option StartError × Host
  unfolding start_with
  start zero_rate cfg_file h = elim (load viper zero_rate cfg_file) [
    | err e ↦ (some (load_config e), h)
    | ok cfg ↦ start_with cfg h
  ]

  -- How the command ends on a host.
  pub data IsStarted (zero_rate : Rate) (cfg_file : FilePath) (h : Host)
      : Option StartError × Host → Type 0 where
    unread :
        (e : Error)
        → load viper zero_rate cfg_file ≡ err e
        → IsStarted zero_rate cfg_file h (some (load_config e), h)
    unlogged :
        (cfg : Config Rate) (e : Error)
        → load viper zero_rate cfg_file ≡ ok cfg
        → init zap cfg.log ≡ err e
        → IsStarted zero_rate cfg_file h (some (init_logger e), h)
    unserved :
        (cfg : Config Rate) (cores : List (Core zap)) (e : Error) (h' : Host)
        → load viper zero_rate cfg_file ≡ ok cfg
        → init zap cfg.log ≡ ok cores
        → new_server files B cfg h ≡ (err e, h')
        → h'.opened ≡ h.opened
        → IsStarted zero_rate cfg_file h (some (init_server e), h')
    ended :
        (cfg : Config Rate) (cores : List (Core zap)) (s : Server Db Filter Rate) (g h' : Host)
        → load viper zero_rate cfg_file ≡ ok cfg
        → init zap cfg.log ≡ ok cores
        → new_server files B cfg h ≡ (ok s, g)
        → g.opened ≡ suc h.opened
        → h' ≡ (close_db files s.db g).1
        → h'.opened ≡ h.opened
        → IsStarted zero_rate cfg_file h (none, h')

  run_server-IsStarted :
      (zero_rate : Rate) (cfg_file : FilePath) (h : Host) (cfg : Config Rate)
      (cores : List (Core zap))
      → load viper zero_rate cfg_file ≡ ok cfg
      → init zap cfg.log ≡ ok cores
      → (p : Result (Server Db Filter Rate) × Host) → new_server files B cfg h ≡ p
      → IsOpened files B cfg h.opened p
      → IsStarted zero_rate cfg_file h (run_server p)
  unfolding run_server close_db
  run_server-IsStarted zero_rate cfg_file h cfg cores l i p e (started s g one wired) =
      ended cfg cores s g _ l i e one refl (omega (arith, one))
  run_server-IsStarted zero_rate cfg_file h cfg cores l i p e (failed x g none_open) =
      unserved cfg cores x g l i e none_open

  -- The command fails with the first of the three steps that fails, the load of the configuration, the set-up
  -- of the logger from it and the construction of the server, where the steps before it succeeded; or all
  -- three succeed, and it ends without an error behind a close of the database. The steps before the server
  -- touch nothing, and on every way out as many databases are open as before.
  pub start_lem :
      (zero_rate : Rate) (cfg_file : FilePath) (h : Host)
      → IsStarted zero_rate cfg_file h (start zero_rate cfg_file h)
  unfolding start start_with
  start_lem zero_rate cfg_file h = elim (Result-cases (load viper zero_rate cfg_file)) [
    | inr (e, l) ↦ rw (l, start) (unread e l)
    | inl (cfg, l) ↦ elim (Result-cases (init zap cfg.log)) [
      | inr (e, i) ↦ rw (l, i, start, start_with) (unlogged cfg e l i)
      | inl (cores, i) ↦
          rw (l, i, start, start_with)
            (run_server-IsStarted zero_rate cfg_file h cfg cores l i (new_server files B cfg h) refl
              (new_server_lem files B cfg h))
    ]
  ]
