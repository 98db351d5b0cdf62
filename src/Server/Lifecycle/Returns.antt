-- ===== src/Server/Lifecycle/Returns.antt =====
-- From the end of the context to the return of `Run`.
use bbdb.Base.{suc, ◌≡◌, refl, ap, ◌∙◌, Bool, true, Bool-cases, inl, inr}
use bbdb.Server.Lifecycle.{
  Worker, Main, serving, waiting, stopping, closing, returned, Process, Step, Steps, see_cancel,
  time_out, call_hook, no_hook, close, here, more,
}

-- What only a cancel and the workers change.
abbrev others_of : Process → Bool × Worker × Worker × Worker
others_of p = (p.cancelled, p.janitor, p.reaper, p.grpc)

-- A state that is reached without a step of a worker.
record IsReached (has_hook : Bool) (p : Process) (m : Main) (q : Process) : Type 0 where
  steps : Steps has_hook p q
  main : q.main ≡ m
  others : others_of q ≡ others_of p

module _ (has_hook : Bool) (p : Process) (y : p.cancelled ≡ true) where
  further :
      (m m' : Main) (q q' : Process)
      → IsReached has_hook p m q
      → Step has_hook q q'
      → q'.main ≡ m'
      → others_of q' ≡ others_of q
      → IsReached has_hook p m' q'
  further m m' q q' r st e same = record {
    steps = more r.steps st;
    main = e;
    others = same ∙ r.others;
  }

  closed :
      (q : Process)
      → IsReached has_hook p closing q
      → (q : Process) × IsReached has_hook p returned q
  closed q r =
      let q' : Process = record q { main = returned; closes = suc q.closes } in
      (q', further closing returned q q' r (close r.main) refl refl)

  stopped :
      (q : Process)
      → IsReached has_hook p stopping q
      → (q : Process) × IsReached has_hook p returned q
  stopped q r = elim (Bool-cases has_hook) [
    | inl there ↦
        let q' : Process = record q { main = closing; hooks = suc q.hooks } in
        closed q' (further stopping closing q q' r (call_hook r.main there) refl refl)
    | inr absent ↦
        let q' : Process = record q { main = closing } in
        closed q' (further stopping closing q q' r (no_hook r.main absent) refl refl)
  ]

  waited :
      (q : Process)
      → IsReached has_hook p waiting q
      → (q : Process) × IsReached has_hook p returned q
  waited q r =
      let q' : Process = record q { main = stopping; timed_out = true } in
      stopped q' (further waiting stopping q q' r (time_out r.main) refl refl)

  served :
      (q : Process)
      → IsReached has_hook p serving q
      → (q : Process) × IsReached has_hook p returned q
  served q r =
      let q' : Process = record q { main = waiting } in
      waited q'
        (further serving waiting q q' r (see_cancel r.main (ap (λ o. o.0) r.others ∙ y)) refl refl)

  at_place : (m : Main) → p.main ≡ m → IsReached has_hook p m p
  at_place m e = record { steps = here; main = e; others = refl }

  returns_from : (m : Main) → p.main ≡ m → (q : Process) × IsReached has_hook p returned q
  returns_from serving e = served p (at_place serving e)
  returns_from waiting e = waited p (at_place waiting e)
  returns_from stopping e = stopped p (at_place stopping e)
  returns_from closing e = closed p (at_place closing e)
  returns_from returned e = (p, at_place returned e)

  -- Once the context is done, `Run` can return from any state without a step of a worker, so also when
  -- none of them ever returns: the workers of the state where it has returned are those of the state before.
  pub run_returns :
      (q : Process) × Steps has_hook p q
      × (q.main ≡ returned)
      × (q.janitor ≡ p.janitor)
      × (q.reaper ≡ p.reaper)
      × (q.grpc ≡ p.grpc)
  run_returns =
      let (q, r) = returns_from p.main refl in
      (q, r.steps, r.main, ap (λ o. o.1) r.others, ap (λ o. o.2) r.others, ap (λ o. o.3) r.others)
