-- ===== src/Server/Tests.antt =====
-- A server on a file system in memory, and its shutdown.
use bbdb.Base.{ℕ, ◌==◌, ◌≡◌, refl, List, [], ◌∷◌, Bool, true, false, none, ok}
use bbdb.Base.Int.{pos}
use bbdb.Files.{Call}
use bbdb.Block.Bloom.Exact.{exact}
use bbdb.Kv.Memory.{Table, empty_table}
use bbdb.Config.{Config}
use bbdb.Server.{PebbleFiles, Host, new_server}
use bbdb.Server.Opened.{IsOpened, new_server_lem}
use bbdb.Server.Lifecycle.{
  finished, returned, Process, Steps, launched, cancel, grpc_returns, see_cancel, time_out,
  call_hook, close, here, more,
}
use bbdb.Server.Lifecycle.Shutdown.{IsOrderly, Steps-IsOrderly}
use bbdb.Server.Lifecycle.Returns.{run_returns}

abbrev in_memory : PebbleFiles Table
in_memory = record { open_dir = λ dir fs. (ok empty_table, fs); close = λ db fs. (ok tt, fs) }

-- The directories are one letter each.
abbrev config : Config Bool
config = record {
  data_dirs = record { pebble_dir = 112 ∷ []; tmp_dir = 116 ∷ [] };
  tiers = record {
    hot = record { root = 104 ∷ [] };
    warm = record { root = 119 ∷ [] };
    cold = record { root = 99 ∷ [] };
  };
  ingestion = record {
    batch_interval = pos 2000000;
    ring_buf_size = pos 16;
    max_block_bytes = pos 0;
  };
  block = record { bloom_fpr = true; idx_chunk_size = pos 0 };
  query = record { max_parallel = pos 8; bloom_cache_bytes = pos 1000 };
  ttl = record {
    retention_period = pos 0;
    reaper_interval = pos 0;
    reaper_max_deletes_per_sec = pos 5;
    janitor_interval = pos 0;
    shutdown_timeout = pos 0;
  };
  grpc = record { listen_addr = 58 ∷ [] };
  log = record {
    level = [];
    format = [];
    file = record {
      path = [];
      max_size_mb = pos 0;
      max_backups = pos 0;
      max_age_days = pos 0;
      compress = false;
    };
  };
}

-- The system refuses directories under the root `c`.
is_cold : Call → List ℕ → Bool
is_cold c [] = false
is_cold c (b ∷ bs) = b == 99

abbrev host : Host
host = record { fs = record { content = λ p. none; fault = is_cold }; opened = 0 }

new_server_lem_example : IsOpened in_memory exact config 0 (new_server in_memory exact config host)
new_server_lem_example = new_server_lem in_memory exact config host

-- gRPC gives up, then the process is told to stop, and the two other workers hang.
abbrev hung : Process
hung = record launched {
  cancelled = true;
  grpc = finished;
  timed_out = true;
  main = returned;
  hooks = 1;
  closes = 1;
}

hung-Steps : Steps true launched hung
hung-Steps =
    more
      (more
        (more (more (more (more here grpc_returns) cancel) (see_cancel refl refl)) (time_out refl))
        (call_hook refl refl))
      (close refl)

Steps-IsOrderly_example : IsOrderly true hung
Steps-IsOrderly_example = Steps-IsOrderly hung-Steps

abbrev told : Process
told = record launched { cancelled = true }

run_returns_example :
    (q : Process) × Steps true told q
    × (q.main ≡ returned)
    × (q.janitor ≡ told.janitor)
    × (q.reaper ≡ told.reaper)
    × (q.grpc ≡ told.grpc)
run_returns_example = run_returns true told refl
