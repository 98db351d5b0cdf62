-- ===== src/Query/Engine/Plan/Found.antt =====
-- A query behind a seal.
use mathlib.Core.List.{Mem, not-mem-nil}
use mathlib.Core.List.Perm
use bbdb.Base.{
  is_empty, ℕ, ◌^◌, ◌<◌, ◌≡◌, sym, ap, ◌∙◌, subst, List, [], ◌∷◌, Bool, true, Option, none, some,
  arith, ok, err, inl, inr, ◌⊎◌, Bool-cases, Result-cases, Error, length, ==_iff,
}
use bbdb.Base.Int.{ℤ, ◌≤ℤ◌, ◌<ℤ◌, IsI64, ltb_ℤ}
use bbdb.Base.Bytes.{Bytes}
use bbdb.Base.State.{after, after-eq-ok}
use bbdb.Files.{Fs}
use bbdb.Block.Event.{Event}
use bbdb.Block.Columns.{Zstd}
use bbdb.Block.Bloom.{BloomLib}
use bbdb.Block.Header.{IsBlockHeader}
use bbdb.Block.Memtable.{Memtable, rows, contains, SortSlice}
use bbdb.Meta.Keys.{BlockId, block_key}
use bbdb.Tier.Local.{LocalStore, block_path}
use bbdb.Index.BloomCache.{load_from_disk, BloomCache}
use bbdb.Index.BloomCache.Transparent.{answer_of, IsFresh}
use bbdb.Query.BlockReader.{read_block}
use bbdb.Query.BlockReader.Sealed.{IsSealable, matches}
use bbdb.Kv.{Pebble}
use bbdb.Node.{Node}
use bbdb.Block.Memtable.Rows.{IsMemtable, sort_lem}
use bbdb.Block.Body.{body_footer}
use bbdb.Block.Routing.{Xxhash, key_hash_for}
use bbdb.Block.Sealer.{SealRequest, header_of, meta_of, seal}
use bbdb.Block.Sealer.Typed.{seal-KeysAreBytes}
use bbdb.Block.Sealer.Sealed.{IsSealed, seal_lem, sorted, name, bytes}
use bbdb.Query.Engine.Plan.{
  BlockTask, plan, read_tasks, run_tasks, run_candidates, candidates, query,
}
use bbdb.Meta.Blocks.{BlockMeta, IsBlockMeta, get_block_meta}
use bbdb.Meta.Blocks.RoundTrip.{decode-encode_block_meta}
use bbdb.Meta.Idx.Lookup.{KeysAreBytes}
use bbdb.Index.Sparse.{lookup}
use bbdb.Index.Sparse.Found.{lookup_lem}
use bbdb.Query.Merger.{Heap, HeapItem, item_less}
use bbdb.Query.Engine.{QueryRequest}
use bbdb.Query.Engine.Plan.Tasks.{plan-Mem}
use bbdb.Query.Engine.Plan.Candidates.{candidates-Mem}
use bbdb.Query.Engine.Plan.Reads.{rows-contains, filter_lem, read_lem, merge_results-Mem}

key_hash_lt : (x : Xxhash) (key : Bytes) → key_hash_for x key < 2 ^ 64
unfolding key_hash_for
key_hash_lt x key = x.sum64_lt key

module _ (P : Pebble) (B : BloomLib) (z : Zstd) (heap : Heap HeapItem item_less) (fs : Fs)
    (key_hash : ℕ) (from to : ℤ) where
  open P use {Db}
  open B use {Filter}

  -- An event that the read of a task returns is in the answer.
  run_tasks-Mem :
      (t : BlockTask) (e : Event) (tasks : List BlockTask) (out : Option (List Event))
      → ((es : List Event)
          → read_block z fs (block_path t.store t.id) key_hash from to ≡ ok es
          → Mem e es)
      → Mem t tasks
      → run_tasks P B z heap fs key_hash from to tasks ≡ ok out
      → (all : List Event) × (out ≡ some all) × Mem e all
  unfolding run_tasks read_tasks
  run_tasks-Mem t e [] out read m run = absurd (not-mem-nil m)
  run_tasks-Mem t e (u ∷ us) out read m run =
      merge_results-Mem heap (λ t. read_block z fs (block_path t.store t.id) key_hash from to) t e
        (u ∷ us) out run read m

  module _ (store : LocalStore) where
    run_candidates-Mem :
        (db : Db) (tiers : ℕ → Option LocalStore) (id : BlockId) (m : BlockMeta) (e : Event)
        (ids : List BlockId) (c c' : BloomCache Filter) (out : Option (List Event))
        → ((b : Bool) → answer_of B fs key_hash (load_from_disk B store fs id) ≡ ok b → b ≡ true)
        → get_block_meta P db id ≡ ok m
        → tiers m.tier ≡ some store
        → IsFresh B fs store c
        → ((es : List Event)
            → read_block z fs (block_path store id) key_hash from to ≡ ok es
            → Mem e es)
        → Mem id ids
        → run_candidates P B z heap db fs tiers key_hash from to ids c ≡ (ok out, c')
        → (all : List Event) × (out ≡ some all) × Mem e all
    unfolding run_candidates
    run_candidates-Mem db tiers id m e [] c c' out filter got here fresh read listed run =
        absurd (not-mem-nil listed)
    run_candidates-Mem db tiers id m e (j ∷ ids) c c' out filter got here fresh read listed run =
        let (tasks, c₁, r, k) =
          after-eq-ok (λ tasks c'. (run_tasks P B z heap fs key_hash from to tasks, c'))
            (plan P B db fs tiers key_hash (j ∷ ids) c) out c' run in
        run_tasks-Mem (record { id = id; store = store }) e tasks out read
          (plan-Mem P B fs store db tiers key_hash id m store (j ∷ ids) c c₁ tasks filter got here
            fresh r listed)
          (ap (λ x. x.0) k)

module _ (P : Pebble) (z : Zstd) (B : BloomLib) (S : SortSlice) (heap : Heap HeapItem item_less)
    (x : Xxhash) (sreq : SealRequest B.Rate) where
  open P use {Db, content, get}
  open B use {Filter}

  abbrev mt : Memtable
  mt = sorted P z B S sreq

  abbrev here : BlockId
  here = name P z B S sreq

  abbrev meta_here : BlockMeta
  meta_here = meta_of sreq (body_footer z mt) (length (bytes P z B S sreq))

  metadata_read :
      (db : Db) (n' : Node Db) (id : BlockId) (o : Option Bytes)
      → IsSealed P z B S sreq db n' id
      → IsBlockMeta meta_here
      → get n'.db (block_key here) ≡ ok o
      → get_block_meta P n'.db here ≡ ok meta_here
  unfolding get_block_meta
  metadata_read db n' id o s v read = ground (
    arith,
    read,
    P.get_lem n'.db (block_key here) o read,
    s.metadata,
    (decode-encode_block_meta meta_here v).0,
  )

  module _ (n n' : Node Db) (id : BlockId) (e : Event) (sealed : seal P z B S sreq n ≡ (ok id, n'))
      (aligned : IsMemtable sreq.memtable) (fits : IsSealable z mt)
      (head : IsBlockHeader (header_of sreq mt)) (record_fits : IsBlockMeta meta_here)
      (row : Mem e (rows sreq.memtable)) where
    abbrev left : IsSealed P z B S sreq n.db n' id
    left = seal_lem P z B S sreq n n' id sealed

    abbrev sorted_row : Mem e (rows mt)
    sorted_row = (Perm.mem_iff (sort_lem S sreq.memtable aligned).0).1 row

    indexed : (key_hash : ℕ) → e.key_hash ≡ key_hash → contains key_hash mt.key_hashes ≡ true
    indexed key_hash same =
        ap (λ k. contains k mt.key_hashes) (sym same)
        ∙ rows-contains mt e (sort_lem S sreq.memtable aligned).2 sorted_row

    module _ (small : sreq.event_type < 256) (instant : IsI64 sreq.opened_at)
        (before : KeysAreBytes P n.db) where
      keys : KeysAreBytes P n'.db
      keys =
          subst (λ r. KeysAreBytes P r.1.db) sealed (seal-KeysAreBytes P z B S sreq small n before)

      listed :
          (key_hash : ℕ) (from to : ℤ) (ids : List BlockId)
          → key_hash < 2 ^ 64
          → e.key_hash ≡ key_hash
          → from ≤ℤ sreq.opened_at
          → sreq.opened_at <ℤ to
          → lookup P n'.db sreq.event_type key_hash from to ≡ ok ids
          → Mem here ids
      listed key_hash from to ids bound same lower upper run =
          (lookup_lem P n'.db sreq.event_type key_hash sreq.shard from to sreq.opened_at ids
              (omega (arith, small)) bound keys instant lower upper run).1
            (left.index key_hash (indexed key_hash same))

      answered :
          (req : QueryRequest) (tiers : ℕ → Option LocalStore) (c c' : BloomCache Filter)
          (o : Option Bytes) (out : Option (List Event))
          → matches (key_hash_for x req.partition_key) req.from req.to e ≡ true
          → (req.event_type ≡ none) ⊎ (req.event_type ≡ some sreq.event_type)
          → req.from ≤ℤ sreq.opened_at
          → sreq.opened_at <ℤ req.to
          → tiers 0 ≡ some sreq.store
          → IsFresh B n'.fs sreq.store c
          → get n'.db (block_key here) ≡ ok o
          → query P B z heap x n'.db n'.fs tiers req c ≡ (ok out, c')
          → (all : List Event) × (out ≡ some all) × Mem e all
      unfolding query
      answered req tiers c c' o out wanted type lower upper tier fresh read run =
          elim (Bool-cases (is_empty req.partition_key)) [
            | inl t ↦ absurd (ground (arith, t, run))
            | inr f ↦ elim (Bool-cases (ltb_ℤ req.from req.to)) [
              | inr g ↦ absurd (ground (arith, f, g, run))
              | inl g ↦
                  let kh : ℕ = key_hash_for x req.partition_key in
                  let run₁ : after
                        (λ ids c'.
                          run_candidates P B z heap n'.db n'.fs tiers kh req.from req.to ids c')
                        (candidates P n'.db kh req req.event_type, c)
                      ≡ (ok out, c') =
                    rw (f, g) at run in
                  let (ids, c₁, r, k) =
                    after-eq-ok
                      (λ ids c'.
                        run_candidates P B z heap n'.db n'.fs tiers kh req.from req.to ids c')
                      (candidates P n'.db kh req req.event_type, c) out c' run₁ in
                  let same : e.key_hash ≡ kh = ground (arith, wanted, ==_iff e.key_hash kh) in
                  let (filter, made, stored) = left.bloom in
                  run_candidates-Mem P B z heap n'.fs kh req.from req.to sreq.store n'.db tiers here
                    meta_here e ids c₁ c' out
                    (λ b.
                      filter_lem B n'.fs sreq.store here mt sreq.bloom_fpr filter kh b stored made
                        (indexed kh same))
                    (metadata_read n.db n' id o left record_fits read) tier
                    (subst (IsFresh B n'.fs sreq.store) (ap (λ x. x.1) r) fresh)
                    (λ es.
                      read_lem z n'.fs (block_path sreq.store here) (header_of sreq mt) mt kh
                        req.from req.to e es fits head left.block sorted_row wanted)
                    (candidates-Mem P n'.db kh sreq.event_type req here ids small type
                      (λ found.
                        listed kh req.from req.to found (key_hash_lt x req.partition_key) same lower
                          upper)
                      (ap (λ x. x.0) r))
                    k
            ]
          ]

      -- Behind a seal, a query for the key of an event of its memtable, over a range that holds the
      -- timestamp of the event and the instant that the block was opened at, for the event type of the
      -- block or for all types, ends in an error or has the event in its answer. The values of the memtable,
      -- of its header and of its metadata fit their Go types and the keys of the database were bytes. The
      -- store of the seal is that of the hot tier, the bloom cache holds what its files hold, and the engine
      -- answers the read of the metadata.
      pub query-seal :
          (req : QueryRequest) (tiers : ℕ → Option LocalStore) (c : BloomCache Filter)
          (o : Option Bytes)
          → matches (key_hash_for x req.partition_key) req.from req.to e ≡ true
          → (req.event_type ≡ none) ⊎ (req.event_type ≡ some sreq.event_type)
          → req.from ≤ℤ sreq.opened_at
          → sreq.opened_at <ℤ req.to
          → tiers 0 ≡ some sreq.store
          → IsFresh B n'.fs sreq.store c
          → get n'.db (block_key here) ≡ ok o
          → ((failure : Error) × ((query P B z heap x n'.db n'.fs tiers req c).0 ≡ err failure))
            ⊎ ((all : List Event) × ((query P B z heap x n'.db n'.fs tiers req c).0 ≡ ok (some all))
                × Mem e all)
      query-seal req tiers c o wanted type lower upper tier fresh read =
          elim (Result-cases (query P B z heap x n'.db n'.fs tiers req c).0) [
            | inr failed ↦ inl failed
            | inl (out, done) ↦
                let (all, same, m) =
                  answered req tiers c (query P B z heap x n'.db n'.fs tiers req c).1 o out wanted
                    type lower upper tier fresh read
                    (ap (λ r. (r, (query P B z heap x n'.db n'.fs tiers req c).1)) done) in
                inr (all, done ∙ ap ok same, m)
          ]
