-- ===== src/Server/Lifecycle.antt =====
-- internal/server/server.go: `Run` and `Shutdown` as a relation between the states of the process, one step
-- for what one goroutine does. The workers are internal/ttl/janitor.go and internal/ttl/reaper.go, whose
-- `Run` returns only when the context is done, and internal/grpc/server.go, whose `Run` may also return
-- because it cannot listen or serve.
pub mod Shutdown
pub mod Returns
use bbdb.Base.{ℕ, suc, ◌≡◌, Bool, true, false}

pub data Worker : Type 0 where
  running finished : Worker

-- Where `Run` stands.
pub data Main : Type 0 where
  serving : Main  -- before `<-ctx.Done()`
  waiting : Main  -- in the `select`
  stopping : Main  -- before the hook of `Shutdown`
  closing : Main  -- before the database is closed
  returned : Main

-- `hooks` and `closes` count the calls of the hook and of `db.Close`.
pub record Process : Type 0 where
  pub janitor : Worker
  pub reaper : Worker
  pub grpc : Worker
  pub cancelled : Bool
  pub timed_out : Bool
  pub main : Main
  pub hooks : ℕ
  pub closes : ℕ

-- `has_hook` is whether a hook is registered.
pub data Step (has_hook : Bool) (p : Process) : Process → Type 0 where
  cancel : Step has_hook p (record p { cancelled = true })
  janitor_returns : p.cancelled ≡ true → Step has_hook p (record p { janitor = finished })
  reaper_returns : p.cancelled ≡ true → Step has_hook p (record p { reaper = finished })
  grpc_returns : Step has_hook p (record p { grpc = finished })
  see_cancel : p.main ≡ serving → p.cancelled ≡ true → Step has_hook p (record p { main = waiting })
  wait_done :
      p.main ≡ waiting
      → p.janitor ≡ finished
      → p.reaper ≡ finished
      → p.grpc ≡ finished
      → Step has_hook p (record p { main = stopping })
  time_out : p.main ≡ waiting → Step has_hook p (record p { main = stopping; timed_out = true })
  call_hook :
      p.main ≡ stopping
      → has_hook ≡ true
      → Step has_hook p (record p { main = closing; hooks = suc p.hooks })
  no_hook : p.main ≡ stopping → has_hook ≡ false → Step has_hook p (record p { main = closing })
  close : p.main ≡ closing → Step has_hook p (record p { main = returned; closes = suc p.closes })

-- `Run` has started the three goroutines.
abbrev pub launched : Process
launched = record {
  janitor = running;
  reaper = running;
  grpc = running;
  cancelled = false;
  timed_out = false;
  main = serving;
  hooks = 0;
  closes = 0;
}

pub data Steps (has_hook : Bool) (p : Process) : Process → Type 0 where
  here : Steps has_hook p p
  more : {q r : Process} → Steps has_hook p q → Step has_hook q r → Steps has_hook p r
