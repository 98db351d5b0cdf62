-- ===== src/Query/Engine/Plan/Candidates.antt =====
-- The candidates of a query.
use mathlib.Core.List.{Mem, mem-append}
use mathlib.Core.Logic.Or
use bbdb.Base.{
  ℕ, zero, suc, ◌+◌, ◌≤◌, ◌<◌, ◌==◌, ◌≡◌, sym, ap, ◌∙◌, subst, List, ◌++◌, none, some, arith, ok,
  inl, inr, ◌⊎◌, Bool-cases, ok-injective, >>=-eq-ok, ◌>>=◌, ==_iff,
}
use bbdb.Base.Int.{ℤ}
use bbdb.Kv.{Pebble}
use bbdb.Meta.Keys.{BlockId}
use bbdb.Index.Sparse.{lookup}
use bbdb.Query.Engine.{QueryRequest}
use bbdb.Query.Engine.Plan.{lookup_types, candidates}

module _ (P : Pebble) where
  open P use {Db}

  lookup_types-Mem :
      (db : Db) (kh : ℕ) (from to : ℤ) (name : BlockId) (et count first : ℕ) (ids : List BlockId)
      → first ≤ et
      → et < first + count
      → ((found : List BlockId) → lookup P db et kh from to ≡ ok found → Mem name found)
      → lookup_types P db kh from to count first ≡ ok ids
      → Mem name ids
  unfolding lookup_types
  lookup_types-Mem db kh from to name et zero first ids a b listed run = absurd (omega arith)
  lookup_types-Mem db kh from to name et (suc count) first ids a b listed run =
      let (here, p, q) =
        >>=-eq-ok (lookup P db first kh from to)
          (λ ids. lookup_types P db kh from to count (first + 1) >>= λ more. ok (ids ++ more))
          run in
      let (more, r, s) =
        >>=-eq-ok (lookup_types P db kh from to count (first + 1)) (λ more. ok (here ++ more)) q in
      subst (Mem name) (ok-injective _ _ s) (
        (mem-append {s = here} {t = more}).1 (elim (Bool-cases (first == et)) [
          | inl t ↦
              Or.inl
                (listed here (ap (λ x. lookup P db x kh from to) (sym ((==_iff first et).0 t)) ∙ p))
          | inr f ↦ Or.inr (
              lookup_types-Mem db kh from to name et count (first + 1) more (ground arith)
                (ground arith) listed r)
        ]))

  -- What a lookup of an event type finds is a candidate of a query for that type, or for all types.
  pub candidates-Mem :
      (db : Db) (kh et : ℕ) (req : QueryRequest) (name : BlockId) (ids : List BlockId)
      → et < 256
      → (req.event_type ≡ none) ⊎ (req.event_type ≡ some et)
      → ((found : List BlockId) → lookup P db et kh req.from req.to ≡ ok found → Mem name found)
      → candidates P db kh req req.event_type ≡ ok ids
      → Mem name ids
  unfolding candidates
  candidates-Mem db kh et req name ids small (inl n) listed run =
      lookup_types-Mem db kh req.from req.to name et 256 0 ids (omega arith) (omega arith) listed
        (ap (candidates P db kh req) (sym n) ∙ run)
  candidates-Mem db kh et req name ids small (inr s) listed run =
      listed ids (ap (candidates P db kh req) (sym s) ∙ run)
