-- ===== src/Grpc/IngestionServer/Queried.antt =====
-- internal/grpc/ingestion_server.go and internal/query/query.go: what a query finds behind the stop of a writer.
mod Tests
use mathlib.Core.List.{Mem}
use bbdb.Base.{
  ℕ, ◌/◌, ◌%◌, ◌^◌, ◌==◌, ◌≡◌, refl, sym, ap, ◌∙◌, subst, List, [], ◌∷◌, ◌++◌, Option, none, some,
  arith, ok, err, Error, true, false, ◌⊎◌, length,
}
use bbdb.Base.Int.{ℤ, ◌≤ℤ◌, ◌<ℤ◌, IsI64}
use bbdb.Base.Bytes.{Bytes}
use bbdb.Kv.{Pebble}
use bbdb.Node.{Node}
use bbdb.Calendar.{Instant}
use bbdb.Block.Event.{Event}
use bbdb.Block.Columns.{Zstd}
use bbdb.Block.Header.{IsBlockHeader}
use bbdb.Block.Memtable.{Memtable, SortSlice, rows, append, len}
use bbdb.Block.Memtable.Rows.{IsMemtable}
use bbdb.Block.Bloom.{BloomLib}
use bbdb.Block.Body.{body_footer}
use bbdb.Block.Routing.{Xxhash, key_hash_for}
use bbdb.Block.Sealer.{SealRequest, header_of, meta_of, seal}
use bbdb.Block.Sealer.Sealed.{sorted, name, bytes}
use bbdb.Meta.Blocks.{IsBlockMeta}
use bbdb.Meta.Keys.{BlockId, block_key}
use bbdb.Meta.Idx.Lookup.{KeysAreBytes}
use bbdb.Meta.Wal.{wal_append}
use bbdb.Meta.Typed.{wal_append-KeepsTyped}
use bbdb.Tier.Local.{LocalStore}
use bbdb.Index.BloomCache.{BloomCache}
use bbdb.Index.BloomCache.Transparent.{IsFresh}
use bbdb.Query.BlockReader.Sealed.{IsSealable, matches}
use bbdb.Query.Merger.{Heap, HeapItem, item_less}
use bbdb.Query.Engine.{QueryRequest}
use bbdb.Query.Engine.Plan.{query}
use bbdb.Query.Engine.Plan.Found.{query-seal}
use bbdb.Ingestion.Json.{marshal}
use bbdb.Ingestion.RingBuf.Fifo.{IsRing, contents}
use bbdb.Ingestion.Writer.{
  WriterConfig, ShardWriter, append_events, request_of, seal_current, seal_due, maybe_seal, take_in,
  run,
}
use bbdb.Ingestion.Writer.Taken.{append_events-rows, rows-len}
use bbdb.Ingestion.Writer.Write.Progress.{flush-IsRing}
use bbdb.Grpc.IngestionServer.HandedOver.{stop_writer}

module _ (P : Pebble) (z : Zstd) (B : BloomLib) (S : SortSlice) (shard : ℕ)
    (cfg : WriterConfig B.Rate) where
  open P use {Db, get}
  open B use {Filter, Rate}

  append_events-KeysAreBytes :
      (es : List Event) (db : Db) (mt : Memtable)
      → KeysAreBytes P db
      → KeysAreBytes P (append_events P z B S shard cfg es db mt).0
  unfolding append_events
  append_events-KeysAreBytes [] db mt t = t
  append_events-KeysAreBytes (e ∷ es) db mt t =
      append_events-KeysAreBytes es (wal_append P shard (marshal e) db).1 (append mt e)
        (wal_append-KeepsTyped P shard (marshal e) db t)

  module _ (store : LocalStore) (stores : cfg.store ≡ some store) (now : Instant) (node : Node Db)
      (w : ShardWriter Db) where
    -- The writer with what its ring held, and the request of the last seal.
    abbrev pub taken : ShardWriter Db
    taken = take_in P z B S shard cfg (contents w.ring) w.ring (record w { node = node })

    abbrev pub last : SealRequest Rate
    last = request_of P z B S shard cfg store taken now

    maybe_seal-node :
        (u : ShardWriter Db)
        → len u.memtable == 0 ≡ false
        → (maybe_seal P z B S shard cfg (some store) true now u).node
          ≡ (seal P z B S (request_of P z B S shard cfg store u now) u.node).1
    unfolding maybe_seal seal_due seal_current
    maybe_seal-node u f = rw f refl

    stop_writer-sealed :
        (k : ℕ) (e : Event)
        → IsRing k w.ring
        → Mem e (rows taken.memtable)
        → (w' : ShardWriter Db) × (stop_writer P z B S cfg now shard node w ≡ some w')
          × (w'.node ≡ (seal P z B S last taken.node).1)
    unfolding stop_writer run take_in request_of
    stop_writer-sealed k e v m =
        let (ring, empty, v', ran) =
          flush-IsRing P z B S shard cfg k true now (record w { node = node }) v in
        let there : ShardWriter Db =
          take_in P z B S shard cfg (contents w.ring) ring (record w { node = node }) in
        (
          maybe_seal P z B S shard cfg (some store) true now there,
          ran ∙ ap (λ o. some (maybe_seal P z B S shard cfg o true now there)) stores,
          maybe_seal-node there (rows-len there.memtable e m),
        )

    -- Let the writer of a shard stop, with a tier store and a last seal that succeeds. An event that its ring or
    -- its memtable held is then found: a query for the key of the event, over a range that holds its
    -- timestamp and the instant that the block was opened at, for its type or for all types, ends in
    -- an error or has the event in its answer. The ring and the memtable are well-formed, the values that are
    -- sealed fit their Go types and the keys of the database were bytes; the store is that of the hot tier, the
    -- bloom cache holds what its files hold, and the engine answers the read of the metadata.
    pub query-stop_writer :
        (heap : Heap HeapItem item_less) (x : Xxhash) (k : ℕ) (e : Event) (id : BlockId)
        (req : QueryRequest) (tiers : ℕ → Option LocalStore) (c : BloomCache Filter)
        (o : Option Bytes)
        → IsRing k w.ring
        → IsMemtable w.memtable
        → Mem e (rows w.memtable ++ contents w.ring)
        → (seal P z B S last taken.node).0 ≡ ok id
        → IsSealable z (sorted P z B S last)
        → IsBlockHeader (header_of last (sorted P z B S last))
        → IsBlockMeta
            (meta_of last (body_footer z (sorted P z B S last)) (length (bytes P z B S last)))
        → IsI64 w.opened_at
        → KeysAreBytes P node.db
        → matches (key_hash_for x req.partition_key) req.from req.to e ≡ true
        → (req.event_type ≡ none) ⊎ (req.event_type ≡ some (shard / 2 ^ 8 % 2 ^ 8))
        → req.from ≤ℤ w.opened_at
        → w.opened_at <ℤ req.to
        → tiers 0 ≡ some store
        → IsFresh B (seal P z B S last taken.node).1.fs store c
        → get (seal P z B S last taken.node).1.db (block_key (name P z B S last)) ≡ ok o
        → (w' : ShardWriter Db) × (stop_writer P z B S cfg now shard node w ≡ some w')
          × (((failure : Error) × ((query P B z heap x w'.node.db w'.node.fs tiers req c).0
                  ≡ err failure))
              ⊎ ((all : List Event) × ((query P B z heap x w'.node.db w'.node.fs tiers req c).0
                    ≡ ok (some all))
                  × Mem e all))
    unfolding request_of take_in
    query-stop_writer heap x k e id req tiers c o v aligned held sealed fits head record_fits
          instant keys wanted type lower upper tier fresh read =
        let (aligned', all) =
          append_events-rows P z B S shard cfg (contents w.ring) node.db w.memtable aligned in
        let row : Mem e (rows taken.memtable) = subst (Mem e) (sym all) held in
        let (w', ran, same) = stop_writer-sealed k e v row in
        let found =
          query-seal P z B S heap x last taken.node (seal P z B S last taken.node).1 id e
            (ap (λ r. (r, (seal P z B S last taken.node).1)) sealed) aligned' fits head record_fits
            row (omega arith) instant
            (append_events-KeysAreBytes (contents w.ring) node.db w.memtable keys) req tiers c o
            wanted type lower upper tier fresh read in
        (
          w',
          ran,
          subst
              (λ (n : Node Db).
                ((failure : Error) × ((query P B z heap x n.db n.fs tiers req c).0 ≡ err failure))
                ⊎ ((all : List Event) × ((query P B z heap x n.db n.fs tiers req c).0
                      ≡ ok (some all))
                    × Mem e all))
              (sym same) found,
        )
