-- ===== src/Server/Lifecycle/Shutdown.antt =====
-- What a shutdown guarantees.
use bbdb.Base.{suc, ◌≡◌, refl, ap, ◌∙◌, subst, Bool, true, ◌⊎◌, inl, inr, if◌then◌else◌}
use bbdb.Server.Lifecycle.{
  finished, Main, serving, waiting, stopping, closing, returned, Process, Step, Steps, launched,
  cancel, janitor_returns, reaper_returns, grpc_returns, see_cancel, wait_done, time_out, call_hook,
  no_hook, close, here, more,
}

-- The shutdown has begun because of a cancel, behind the return of all workers or the timeout.
pub record IsOver (p : Process) : Type 0 where
  pub cancelled : p.cancelled ≡ true
  pub workers :
      ((p.janitor ≡ finished) × (p.reaper ≡ finished) × (p.grpc ≡ finished)) ⊎ (p.timed_out ≡ true)

-- What holds at each place of `Run`.
abbrev pub AtMain : Bool → Process → Main → Type 0
AtMain has_hook p serving = (p.closes ≡ 0) × (p.hooks ≡ 0)
AtMain has_hook p waiting = (p.closes ≡ 0) × (p.hooks ≡ 0) × (p.cancelled ≡ true)
AtMain has_hook p stopping = (p.closes ≡ 0) × (p.hooks ≡ 0) × IsOver p
AtMain has_hook p closing = (p.closes ≡ 0) × (p.hooks ≡ (if has_hook then 1 else 0)) × IsOver p
AtMain has_hook p returned = (p.closes ≡ 1) × (p.hooks ≡ (if has_hook then 1 else 0)) × IsOver p

pub record IsOrderly (has_hook : Bool) (p : Process) : Type 0 where
  pub at_main : AtMain has_hook p p.main

-- A step of another goroutine leaves what `Run` relies on.
module _ (has_hook : Bool) (p q : Process) (c : q.closes ≡ p.closes) (h : q.hooks ≡ p.hooks)
    (k : p.cancelled ≡ true → q.cancelled ≡ true) (o : IsOver p → IsOver q) where
  kept-AtMain : (m : Main) → AtMain has_hook p m → AtMain has_hook q m
  kept-AtMain serving (unclosed, unhooked) = (c ∙ unclosed, h ∙ unhooked)
  kept-AtMain waiting (unclosed, unhooked, y) = (c ∙ unclosed, h ∙ unhooked, k y)
  kept-AtMain stopping (unclosed, unhooked, y) = (c ∙ unclosed, h ∙ unhooked, o y)
  kept-AtMain closing (unclosed, hooked, y) = (c ∙ unclosed, h ∙ hooked, o y)
  kept-AtMain returned (one, hooked, y) = (c ∙ one, h ∙ hooked, o y)

module _ {has_hook : Bool} {p : Process} where
  Step-AtMain :
      {q : Process} → Step has_hook p q → AtMain has_hook p p.main → AtMain has_hook q q.main
  Step-AtMain cancel v =
      kept-AtMain has_hook p (record p { cancelled = true }) refl refl (λ y. refl)
        (λ y. record { cancelled = refl; workers = y.workers }) p.main v
  Step-AtMain (janitor_returns y) v =
      kept-AtMain has_hook p (record p { janitor = finished }) refl refl (λ z. z)
        (λ z. record {
          cancelled = z.cancelled;
          workers = elim z.workers [ inl (j, r, g) ↦ inl (refl, r, g) | inr t ↦ inr t ];
        })
        p.main v
  Step-AtMain (reaper_returns y) v =
      kept-AtMain has_hook p (record p { reaper = finished }) refl refl (λ z. z)
        (λ z. record {
          cancelled = z.cancelled;
          workers = elim z.workers [ inl (j, r, g) ↦ inl (j, refl, g) | inr t ↦ inr t ];
        })
        p.main v
  Step-AtMain grpc_returns v =
      kept-AtMain has_hook p (record p { grpc = finished }) refl refl (λ z. z)
        (λ z. record {
          cancelled = z.cancelled;
          workers = elim z.workers [ inl (j, r, g) ↦ inl (j, r, refl) | inr t ↦ inr t ];
        })
        p.main v
  Step-AtMain (see_cancel m y) v =
      let (unclosed, unhooked) = subst (AtMain has_hook p) m v in (unclosed, unhooked, y)
  Step-AtMain (wait_done m j r g) v =
      let (unclosed, unhooked, y) = subst (AtMain has_hook p) m v in
      (unclosed, unhooked, record { cancelled = y; workers = inl (j, r, g) })
  Step-AtMain (time_out m) v =
      let (unclosed, unhooked, y) = subst (AtMain has_hook p) m v in
      (unclosed, unhooked, record { cancelled = y; workers = inr refl })
  Step-AtMain (call_hook m there) v =
      let (unclosed, unhooked, y) = subst (AtMain has_hook p) m v in
      (unclosed, rw (there, unhooked) refl, record { cancelled = y.cancelled; workers = y.workers })
  Step-AtMain (no_hook m absent) v =
      let (unclosed, unhooked, y) = subst (AtMain has_hook p) m v in
      (unclosed, rw absent unhooked, record { cancelled = y.cancelled; workers = y.workers })
  Step-AtMain (close m) v =
      let (unclosed, hooked, y) = subst (AtMain has_hook p) m v in
      (ap suc unclosed, hooked, record { cancelled = y.cancelled; workers = y.workers })

-- In every state that the process reaches: until `Run` returns, the database is open, and behind its return
-- the database has been closed once, after the hook, if there is one, was called once. The shutdown
-- begins only behind a cancel, and only when all three workers have returned or the timeout has passed.
pub Steps-IsOrderly :
    {has_hook : Bool} {p : Process} → Steps has_hook launched p → IsOrderly has_hook p
Steps-IsOrderly here = record { at_main = (refl, refl) }
Steps-IsOrderly (more r st) = record { at_main = Step-AtMain st (Steps-IsOrderly r).at_main }
