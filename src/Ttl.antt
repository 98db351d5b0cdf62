-- ===== src/Ttl.antt =====
-- internal/ttl: the removal of blocks that have expired. The two workers see the database and the
-- file system.
pub mod Reaper
pub mod Janitor
mod Expire
mod Tests
use bbdb.Base.{ℕ, List, [], ◌∷◌, Bool}
use bbdb.Base.State.{St}

-- Whether the loop over the entries goes on, or the cycle returns without an error.
pub data Next : Type 0 where
  go_on stop_here : Next

-- One cycle of the loop of a worker: what the others did before it, the answers of the context, and the
-- hour that the clock shows.
pub record Cycle (S : Type 0) : Type 0 where
  pub meanwhile : S → S
  pub done : ℕ → Bool
  pub now_hour : ℕ

-- The cycles of a worker, until the context is done. The error of a cycle is only logged.
unfoldable pub each_turn :
    {S : Type 0} → ((ℕ → Bool) → ℕ → St S (Unit {0})) → List (Cycle S) → S → S
each_turn run_once [] s = s
each_turn run_once (t ∷ ts) s = each_turn run_once ts (run_once t.done t.now_hour (t.meanwhile s)).1
