-- ===== src/Query/Engine/Plan/Tasks.antt =====
-- The tasks that a query plans.
use mathlib.Core.List.{Mem, mem-cons, mem-cons_self, mem-cons_of_mem, not-mem-nil, Mem-prop}
use mathlib.Core.Logic.Or
use bbdb.Base.{
  ℕ, ◌≡◌, sym, ap, ◌∙◌, subst, List, [], ◌∷◌, Bool, true, Option, some, arith, Result, ok, err, inl,
  inr, Bool-cases, not_found, ok-injective, Option-cases, if◌then◌else◌,
}
use bbdb.Base.State.{after-eq-ok}
use bbdb.Kv.{Pebble}
use bbdb.Files.{Fs}
use bbdb.Block.Bloom.{BloomLib}
use bbdb.Meta.Keys.{BlockId}
use bbdb.Meta.Blocks.{BlockMeta, get_block_meta}
use bbdb.Tier.Local.{LocalStore}
use bbdb.Index.BloomCache.{BloomCache, test, load_from_disk}
use bbdb.Index.BloomCache.Transparent.{answer_of, IsFresh, test-IsFresh}
use bbdb.Query.Engine.Plan.{BlockTask, add_task, with_meta, plan}

add_task-ok :
    {C : Type 0} (t : BlockTask) (r : Result (List BlockTask) × C) (tasks : List BlockTask) (c : C)
    → add_task t r ≡ (ok tasks, c)
    → (ts : List BlockTask) × (r ≡ (ok ts, c)) × (tasks ≡ t ∷ ts)
add_task-ok t (ok ts, c') tasks c run =
    (ts, ap (λ x. (ok ts, x.1)) run, sym (ok-injective _ _ (ap (λ x. x.0) run)))
add_task-ok t (err e, c') tasks c run = absurd (ground (arith, run))

-- Planning goes on behind a block, if it succeeds, and keeps what it plans there.
with_meta-rest :
    {C : Type 0} (tiers : ℕ → Option LocalStore) (id : BlockId) (c c' : C)
    (rest : Result (List BlockTask) × C) (m : Result BlockMeta) (tasks : List BlockTask)
    → with_meta tiers id c rest m ≡ (ok tasks, c')
    → (ts : List BlockTask) × (rest ≡ (ok ts, c')) × ((t : BlockTask) → Mem t ts → Mem t tasks)
unfolding with_meta
with_meta-rest tiers id c c' rest (err not_found) tasks run = (tasks, run, λ t m. m)
with_meta-rest tiers id c c' rest (err e) tasks run = absurd (ground (arith, run))
with_meta-rest tiers id c c' rest (ok m) tasks run = elim (Option-cases (tiers m.tier)) [
  | inl n ↦ (tasks, rw (n, with_meta) at run, λ t m. m)
  | inr (store, h) ↦
      let (ts, p, q) =
        add_task-ok (record { id = id; store = store }) rest tasks c' (rw (h, with_meta) at run) in
      (ts, p, λ t m. rw q (mem-cons_of_mem _ m))
]

-- A block whose metadata names a tier with a store is the first of the tasks.
with_meta-first :
    {C : Type 0} (tiers : ℕ → Option LocalStore) (id : BlockId) (m : BlockMeta) (place : LocalStore)
    (c c' : C) (rest : Result (List BlockTask) × C) (tasks : List BlockTask)
    → tiers m.tier ≡ some place
    → (r : Result BlockMeta) → with_meta tiers id c rest r ≡ (ok tasks, c')
    → r ≡ ok m
    → Mem (record { id = id; store = place }) tasks
unfolding with_meta
with_meta-first tiers id m place c c' rest tasks here r run got =
    let run₁ : add_task (record { id = id; store = place }) rest ≡ (ok tasks, c') =
      rw (got, with_meta, here) at run in
    let (ts, p, q) = add_task-ok (record { id = id; store = place }) rest tasks c' run₁ in
    rw q mem-cons_self

module _ (P : Pebble) (B : BloomLib) (fs : Fs) (store : LocalStore) where
  open P use {Db}
  open B use {Filter}

  -- A candidate whose filter does not deny the key, and whose metadata names a tier with a store, is a
  -- task.
  pub plan-Mem :
      (db : Db) (tiers : ℕ → Option LocalStore) (key_hash : ℕ) (name : BlockId) (m : BlockMeta)
      (place : LocalStore) (ids : List BlockId) (c c' : BloomCache Filter) (tasks : List BlockTask)
      → ((b : Bool) → answer_of B fs key_hash (load_from_disk B store fs name) ≡ ok b → b ≡ true)
      → get_block_meta P db name ≡ ok m
      → tiers m.tier ≡ some place
      → IsFresh B fs store c
      → plan P B db fs tiers key_hash ids c ≡ (ok tasks, c')
      → Mem name ids
      → Mem (record { id = name; store = place }) tasks
  unfolding plan
  plan-Mem db tiers kh name m place [] c c' tasks filter got here fresh run listed =
      absurd (not-mem-nil listed)
  plan-Mem db tiers kh name m place (id ∷ ids) c c' tasks filter got here fresh run listed =
      let (present, c₁, r, k) =
        after-eq-ok
          (λ b c'.
            let rest = plan P B db fs tiers kh ids c' in
            if b then with_meta tiers id c' rest (get_block_meta P db id) else rest)
          (test B fs id kh c) tasks c' run in
      let (same, kept) = test-IsFresh B fs store id kh c fresh in
      let fresh₁ : IsFresh B fs store c₁ = subst (λ x. IsFresh B fs store x.1) r kept in
      elim (Bool-cases present) [
        | inr f ↦
            Or.elim (Mem-prop) (mem-cons.0 listed)
              (λ e. absurd (
                ground (
                  arith,
                  f,
                  filter present (
                      ap (λ n. answer_of B fs kh (load_from_disk B store fs n)) e
                      ∙ sym same
                      ∙ ap (λ x. x.0) r),
                )))
              (plan-Mem db tiers kh name m place ids c₁ c' tasks filter got here fresh₁ (rw f at k))
        | inl t ↦
            let run₁ : with_meta tiers id c₁ (plan P B db fs tiers kh ids c₁)
                  (get_block_meta P db id)
                ≡ (ok tasks, c') =
              rw t at k in
            Or.elim (Mem-prop) (mem-cons.0 listed)
              (λ e.
                with_meta-first tiers name m place c₁ c' (plan P B db fs tiers kh ids c₁) tasks here
                  (get_block_meta P db name)
                  (subst
                    (λ n.
                      with_meta tiers n c₁ (plan P B db fs tiers kh ids c₁) (get_block_meta P db n)
                      ≡ (ok tasks, c'))
                    (sym e) run₁)
                  got)
              (λ listed'.
                let (ts, p, q) =
                  with_meta-rest tiers id c₁ c' (plan P B db fs tiers kh ids c₁)
                    (get_block_meta P db id) tasks run₁ in
                q _
                  (plan-Mem db tiers kh name m place ids c₁ c' ts filter got here fresh₁ p listed'))
      ]
