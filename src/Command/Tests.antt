-- ===== src/Command/Tests.antt =====
-- The command on a host in memory.
use bbdb.Base.{ℕ, List, [], ◌∷◌, Bool, true, false, none, ok}
use bbdb.Base.Bytes.{Bytes}
use bbdb.Files.{Call}
use bbdb.Block.Bloom.Exact.{exact}
use bbdb.Kv.Memory.{Table, empty_table}
use bbdb.Config.Listing.{listing}
use bbdb.Logger.{Zap}
use bbdb.Server.{PebbleFiles, Host}
use bbdb.Command.{start, IsStarted, start_lem}

abbrev in_memory : PebbleFiles Table
in_memory = record { open_dir = λ dir fs. (ok empty_table, fs); close = λ db fs. (ok tt, fs) }

-- Every level is known.
abbrev lenient : Zap
lenient = record {
  Level = Bytes;
  Defaults = Bool;
  Time = Bool;
  unmarshal_text = λ s. ok s;
  development = record {
    defaults = false;
    time_key = [];
    message_key = [];
    level_key = [];
    encode_time = false;
  };
  production = record {
    defaults = true;
    time_key = [];
    message_key = [];
    level_key = [];
    encode_time = false;
  };
  iso8601 = true;
}

-- No directory can be made below a root of one letter.
short : Call → List ℕ → Bool
short c [] = true
short c (b ∷ []) = true
short c (b ∷ d ∷ bs) = false

abbrev host : Host
host = record { fs = record { content = λ p. none; fault = short }; opened = 2 }

start_lem_example :
    IsStarted in_memory exact lenient listing false
      (b'f' ∷ [])
      host
      (start in_memory exact lenient listing false (b'f' ∷ []) host)
start_lem_example = start_lem in_memory exact lenient listing false (b'f' ∷ []) host
