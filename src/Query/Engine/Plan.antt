-- ===== src/Query/Engine/Plan.antt =====
-- internal/query/query.go: `Engine.Query`. The parallel reads of the blocks are a list of results in the
-- order of the tasks, which is what the code waits for; how many run at a time does not show in it.
pub mod Tasks
pub mod Reads
pub mod Candidates
pub mod Found
mod Tests
use bbdb.Base.{
  is_empty, ℕ, zero, suc, ◌+◌, ◌≡◌, List, [], ◌∷◌, ◌++◌, map, Bool, true, false, not, Option, none,
  some, if◌then◌else◌, Result, ok, err, Error, not_found, empty_partition_key, empty_range, ◌>>=◌,
}
use bbdb.Base.Int.{ℤ, ltb_ℤ}
use bbdb.Base.Bytes.{Bytes}
use bbdb.Base.State.{St, after}
use bbdb.Kv.{Pebble}
use bbdb.Files.{Fs}
use bbdb.Block.Event.{Event}
use bbdb.Block.Columns.{Zstd}
use bbdb.Block.Bloom.{BloomLib}
use bbdb.Block.Routing.{Xxhash, key_hash_for}
use bbdb.Meta.Keys.{BlockId}
use bbdb.Meta.Blocks.{BlockMeta, get_block_meta}
use bbdb.Tier.Local.{LocalStore, block_path}
use bbdb.Index.Sparse.{lookup}
use bbdb.Index.BloomCache.{BloomCache, test}
use bbdb.Query.BlockReader.{read_block}
use bbdb.Query.Merger.{Heap, HeapItem, item_less}
use bbdb.Query.Engine.{QueryRequest, merge_results}

-- A block to read, and the store that has it.
pub record BlockTask : Type 0 where
  pub id : BlockId
  pub store : LocalStore

module _ (P : Pebble) where
  open P use {Db}

  -- The loop over `count` event types from `et` on.
  unfoldable pub lookup_types : Db → ℕ → ℤ → ℤ → ℕ → ℕ → Result (List BlockId)
  lookup_types db key_hash from to zero et = ok []
  lookup_types db key_hash from to (suc count) et =
      let rest = lookup_types db key_hash from to count (et + 1) in
      lookup P db et key_hash from to >>= λ ids. rest >>= λ more. ok (ids ++ more)

  -- The candidates: those of one event type, or of all 256.
  unfoldable pub candidates : Db → ℕ → QueryRequest → Option ℕ → Result (List BlockId)
  unfolding lookup_types
  candidates db key_hash req (some et) = lookup P db et key_hash req.from req.to
  candidates db key_hash req none = lookup_types db key_hash req.from req.to 256 0

-- One more task in front of those that are planned.
abbrev pub add_task :
    {C : Type 0} → BlockTask → Result (List BlockTask) × C → Result (List BlockTask) × C
add_task t (ok ts, c) = (ok (t ∷ ts), c)
add_task t (err e, c) = (err e, c)

-- What the metadata of a block makes of the plan for the blocks behind it: a block without metadata, or
-- on a tier without a store, is passed over; another error ends the loop.
unfoldable pub with_meta :
    {C : Type 0}
    → (ℕ → Option LocalStore)
    → BlockId
    → C
    → Result (List BlockTask) × C
    → Result BlockMeta
    → Result (List BlockTask) × C
with_meta tiers id c rest (err not_found) = rest
with_meta tiers id c rest (err e) = (err e, c)
with_meta tiers id c rest (ok m) = elim (tiers m.tier) [
  | none ↦ rest
  | some store ↦ add_task (record { id = id; store = store }) rest
]

module _ (P : Pebble) (B : BloomLib) where
  open P use {Db}
  open B use {Filter}

  -- The loop over the candidates.
  unfoldable pub plan :
      Db → Fs → (ℕ → Option LocalStore) → ℕ → List BlockId → St (BloomCache Filter) (List BlockTask)
  unfolding with_meta
  plan db fs tiers key_hash [] c = (ok [], c)
  plan db fs tiers key_hash (id ∷ ids) c =
      after
        (λ present c'.
          let rest = plan db fs tiers key_hash ids c' in
          if present then with_meta tiers id c' rest (get_block_meta P db id) else rest)
        (test B fs id key_hash c)

  module _ (z : Zstd) (heap : Heap HeapItem item_less) where
    unfoldable pub read_tasks : Fs → ℕ → ℤ → ℤ → List BlockTask → List (Result (List Event))
    read_tasks fs key_hash from to tasks =
        map (λ t. read_block z fs (block_path t.store t.id) key_hash from to) tasks

    -- From the tasks on. Without a task there is no event.
    unfoldable pub run_tasks : Fs → ℕ → ℤ → ℤ → List BlockTask → Result (Option (List Event))
    unfolding read_tasks
    run_tasks fs key_hash from to [] = ok (some [])
    run_tasks fs key_hash from to (t ∷ ts) =
        merge_results heap (read_tasks fs key_hash from to (t ∷ ts))

    -- From the candidates on.
    unfoldable pub run_candidates :
        Db
        → Fs
        → (ℕ → Option LocalStore)
        → ℕ
        → ℤ
        → ℤ
        → List BlockId
        → St (BloomCache Filter) (Option (List Event))
    unfolding plan run_tasks
    run_candidates db fs tiers key_hash from to [] c = (ok (some []), c)
    run_candidates db fs tiers key_hash from to (id ∷ ids) c =
        after (λ tasks c'. (run_tasks fs key_hash from to tasks, c'))
          (plan db fs tiers key_hash (id ∷ ids) c)

    unfoldable pub query :
        Xxhash
        → Db
        → Fs
        → (ℕ → Option LocalStore)
        → QueryRequest
        → St (BloomCache Filter) (Option (List Event))
    unfolding candidates run_candidates
    query x db fs tiers req c =
        let key_hash = key_hash_for x req.partition_key in
        if is_empty req.partition_key
        then (err empty_partition_key, c)
        else if not (ltb_ℤ req.from req.to)
        then (err empty_range, c)
        else after (λ ids c'. run_candidates db fs tiers key_hash req.from req.to ids c')
            (candidates P db key_hash req req.event_type, c)
