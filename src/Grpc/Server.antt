-- ===== src/Grpc/Server.antt =====
-- internal/grpc/server.go: `Run`. The listener, what ends the `select`, and whether the streams that are open
-- at the end close, are inputs: `GracefulStop` of the library returns once they have.
use bbdb.Base.{ℕ, ◌≡◌, refl, sym, ap, subst, List, Option, none, some, Result, ok, err, Error}
use bbdb.Kv.{Pebble}
use bbdb.Node.{Node}
use bbdb.Calendar.{Instant}
use bbdb.Block.Columns.{Zstd}
use bbdb.Block.Memtable.{SortSlice}
use bbdb.Block.Bloom.{BloomLib}
use bbdb.Tier.Local.{LocalStore}
use bbdb.Ingestion.Writer.{WriterConfig}
use bbdb.Grpc.IngestionServer.Started.{WriterMap}
use bbdb.Grpc.IngestionServer.Stopped.{stop_all, stop_all_lem, IsSound, Stops}

-- What the `select` returns for: the context, or the error of `Serve`.
pub data Woken : Type 0 where
  context_done : Woken
  serve_ended : Result (Unit {0}) → Woken

-- What becomes of the streams that are open when `GracefulStop` is called.
pub data Streams : Type 0 where
  all_close : Streams
  one_stays : Streams

-- `Run` returns, or waits in `GracefulStop` for ever.
pub data RunEnd : Type 0 where
  returned : Result (Unit {0}) → RunEnd
  waiting_for_streams : RunEnd

-- `GracefulStop`, and the return behind it.
unfoldable pub graceful_stop : Streams → RunEnd
graceful_stop all_close = returned (ok tt)
graceful_stop one_stays = waiting_for_streams

module _ (P : Pebble) (z : Zstd) (B : BloomLib) (S : SortSlice) (cfg : WriterConfig B.Rate)
    (now : Instant) where
  open P use {Db}

  -- From the stop of the writers on.
  abbrev pub behind_stop :
      Streams → Option (Node Db × WriterMap Db) → Option (RunEnd × Node Db × WriterMap Db)
  behind_stop streams none = none
  behind_stop streams (some (node, m)) = some (graceful_stop streams, node, m)

  -- `shards` are those of the writers that `Stop` finds.
  unfoldable pub grpc_run :
      Result (Unit {0})
      → Woken
      → Streams
      → List ℕ
      → Node Db
      → WriterMap Db
      → Option (RunEnd × Node Db × WriterMap Db)
  grpc_run (err e) woken streams shards node m = some (returned (err e), node, m)
  grpc_run (ok u) context_done streams shards node m =
      behind_stop streams (stop_all P z B S cfg now shards node m)
  grpc_run (ok u) (serve_ended r) streams shards node m = some (returned r, node, m)

  -- How `Run` ends, and the node and the writers that it leaves.
  pub data IsRun (store : LocalStore) (listened : Result (Unit {0})) (woken : Woken)
      (streams : Streams) (shards : List ℕ) (node : Node Db) (m : WriterMap Db)
      : Option (RunEnd × Node Db × WriterMap Db) → Type 0 where
    stopped :
        (node' : Node Db) (m' : WriterMap Db)
        → listened ≡ ok tt
        → woken ≡ context_done
        → streams ≡ all_close
        → Stops P z B S cfg now store shards node m node' m'
        → IsRun store listened woken streams shards node m (some (returned (ok tt), node', m'))
    kept_waiting :
        (node' : Node Db) (m' : WriterMap Db)
        → listened ≡ ok tt
        → woken ≡ context_done
        → streams ≡ one_stays
        → Stops P z B S cfg now store shards node m node' m'
        → IsRun store listened woken streams shards node m (some (waiting_for_streams, node', m'))
    unheard :
        (e : Error)
        → listened ≡ err e
        → IsRun store listened woken streams shards node m (some (returned (err e), node, m))
    unserved :
        (r : Result (Unit {0}))
        → listened ≡ ok tt
        → woken ≡ serve_ended r
        → IsRun store listened woken streams shards node m (some (returned r, node, m))

  behind_stop-IsRun :
      (store : LocalStore) (streams : Streams) (shards : List ℕ) (node node' : Node Db)
      (m m' : WriterMap Db)
      → Stops P z B S cfg now store shards node m node' m'
      → IsRun store
          (ok tt)
          context_done
          streams
          shards
          node
          m
          (some (graceful_stop streams, node', m'))
  unfolding graceful_stop
  behind_stop-IsRun store all_close shards node node' m m' stops =
      stopped node' m' refl refl refl stops
  behind_stop-IsRun store one_stays shards node node' m m' stops =
      kept_waiting node' m' refl refl refl stops

  -- With a tier store and well-formed writers: when the context is done while `Run` serves, each writer that
  -- `Stop` finds has handed over what it held, to a seal on the node that the writer before it left, before
  -- `GracefulStop` is called. `Run` then returns without an error if all streams close, and if one stays open it
  -- does not return, with the writers stopped all the same. When it cannot listen, or `Serve` ends first, it
  -- returns that answer, and the writers and the node are left as they were.
  pub grpc_run_lem :
      (store : LocalStore)
      → cfg.store ≡ some store
      → (listened : Result (Unit {0})) (woken : Woken) (streams : Streams) (shards : List ℕ)
        (node : Node Db) (m : WriterMap Db)
      → IsSound P z B S cfg now m
      → IsRun store listened woken streams shards node m
          (grpc_run listened woken streams shards node m)
  unfolding grpc_run
  grpc_run_lem store stores (err e) woken streams shards node m v = unheard e refl
  grpc_run_lem store stores (ok tt) (serve_ended r) streams shards node m v = unserved r refl refl
  grpc_run_lem store stores (ok tt) context_done streams shards node m v =
      let (node', m', ran, stops, empty, absent) =
        stop_all_lem P z B S cfg now store stores shards node m v in
      subst (IsRun store (ok tt) context_done streams shards node m)
        (sym (ap (behind_stop streams) ran))
        (behind_stop-IsRun store streams shards node node' m m' stops)
