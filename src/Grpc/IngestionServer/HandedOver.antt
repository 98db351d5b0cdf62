-- ===== src/Grpc/IngestionServer/HandedOver.antt =====
-- internal/grpc/ingestion_server.go: the stop of one writer, and what it hands over.
use bbdb.Base.{
  ℕ, ◌==◌, ◌≡◌, ◌≢◌, refl, sym, ap, ◌∙◌, subst, List, [], ◌∷◌, ◌++◌, ◌⊎◌, Option, some, arith, true,
  Bool-cases, inl, inr, ==_iff,
}
use bbdb.Kv.{Pebble}
use bbdb.Node.{Node}
use bbdb.Calendar.{Instant}
use bbdb.Block.Event.{Event}
use bbdb.Block.Columns.{Zstd}
use bbdb.Block.Memtable.{Memtable, SortSlice, len, rows, new_memtable}
use bbdb.Block.Memtable.Rows.{IsMemtable, new_memtable-IsMemtable}
use bbdb.Block.Bloom.{BloomLib}
use bbdb.Tier.Local.{LocalStore}
use bbdb.Block.Sealer.{seal}
use bbdb.Ingestion.RingBuf.{RingBuf}
use bbdb.Ingestion.RingBuf.Fifo.{IsRing, contents}
use bbdb.Ingestion.Writer.{
  WriterConfig, ShardWriter, stop, run, maybe_seal, seal_due, seal_current, take_in, append_events,
  request_of,
}
use bbdb.Ingestion.Writer.Taken.{append_events-rows, rows-empty, rows-ne_empty}
use bbdb.Ingestion.Writer.Write.Progress.{flush-IsRing, maybe_seal-ring}

append-empty : (xs ys : List Event) → xs ++ ys ≡ [] → ys ≡ []
append-empty [] ys h = h
append-empty (x ∷ xs) ys h = absurd (ground (arith, h))

module _ (P : Pebble) (z : Zstd) (B : BloomLib) (S : SortSlice) (cfg : WriterConfig B.Rate)
    (now : Instant) where
  open P use {Db}

  -- The stop of one writer, on the node that the others share.
  unfoldable pub stop_writer : ℕ → Node Db → ShardWriter Db → Option (ShardWriter Db)
  stop_writer shard node w = run P z B S shard cfg (stop now ∷ []) (record w { node = node })

  -- Nothing is left in the ring, nor in the memtable.
  abbrev pub IsEmptied : ShardWriter Db → Type 0
  IsEmptied w = (contents w.ring ≡ []) × (len w.memtable ≡ 0)

  abbrev pub IsSoundWriter : ShardWriter Db → Type 0
  IsSoundWriter w = ((k : ℕ) × IsRing k w.ring) × IsMemtable w.memtable

  -- A writer that has stopped on a node, with its store. The seal is called once, with all that the memtable and
  -- the ring held, on the node with the events of the ring in its log; of a writer that held nothing the node
  -- is left alone.
  pub record IsHandedOver (store : LocalStore) (shard : ℕ) (node : Node Db) (w w' : ShardWriter Db)
      : Type 0 where
    pub empty : IsEmptied w'
    pub sealed :
        ((rows w.memtable ++ contents w.ring ≡ []) × (w'.node ≡ node))
        ⊎ ((rows w.memtable ++ contents w.ring ≢ [])
            × (db : Db) × (mt : Memtable) × IsMemtable mt
            × (rows mt ≡ rows w.memtable ++ contents w.ring)
            × (db ≡ (append_events P z B S shard cfg (contents w.ring) node.db w.memtable).0)
            × (w'.node
                ≡ (seal P z B S
                    (request_of P z B S shard cfg store (record w { memtable = mt }) now)
                    (record { db = db; fs = node.fs })).1))

  module _ (store : LocalStore) (stores : cfg.store ≡ some store) where
    -- The forced seal of what was taken in.
    maybe_seal-IsHandedOver :
        (shard : ℕ) (node : Node Db) (w : ShardWriter Db) (ring : RingBuf)
        → IsMemtable w.memtable
        → contents ring ≡ []
        → IsMemtable
            (maybe_seal P z B S shard cfg (some store) true now (
              take_in P z B S shard cfg (contents w.ring) ring (record w { node = node }))).memtable
          × IsHandedOver store shard node w (
              maybe_seal P z B S shard cfg
                (some store)
                true
                now
                (take_in P z B S shard cfg (contents w.ring) ring (record w { node = node })))
    unfolding maybe_seal seal_due seal_current take_in request_of append_events
    maybe_seal-IsHandedOver shard node w ring aligned drained =
        let mt : Memtable =
          (append_events P z B S shard cfg (contents w.ring) node.db w.memtable).1 in
        let (aligned', all) =
          append_events-rows P z B S shard cfg (contents w.ring) node.db w.memtable aligned in
        elim (Bool-cases (len mt == 0)) [
          | inl t ↦
              let none_held : rows w.memtable ++ contents w.ring ≡ [] =
                sym all ∙ rows-empty mt ((==_iff (len mt) 0).0 t) in
              rw t (
                aligned',
                record {
                  empty = (drained, (==_iff (len mt) 0).0 t);
                  sealed = inl (none_held, same_node none_held);
                },
              )
          | inr f ↦ rw f (
            new_memtable-IsMemtable,
            record {
              empty = (drained, (unfold new_memtable in refl));
              sealed = inr (
                λ none_held. rows-ne_empty mt f (all ∙ none_held),
                _,
                mt,
                aligned',
                all,
                refl,
                refl,
              );
            },
          )
        ]
      where
        same_node :
            rows w.memtable ++ contents w.ring ≡ []
            → record {
              db = (append_events P z B S shard cfg (contents w.ring) node.db w.memtable).0;
              fs = node.fs;
            }
              ≡ node
        same_node none_held =
            ap
              (λ es. record {
                db = (append_events P z B S shard cfg es node.db w.memtable).0;
                fs = node.fs;
              })
              (append-empty (rows w.memtable) (contents w.ring) none_held)

    -- A writer stops, well-formed as before.
    pub stop_writer_lem :
        (shard : ℕ) (node : Node Db) (w : ShardWriter Db)
        → IsSoundWriter w
        → (w' : ShardWriter Db) × (stop_writer shard node w ≡ some w')
          × IsSoundWriter w'
          × IsHandedOver store shard node w w'
    unfolding stop_writer run
    stop_writer_lem shard node w ((k, v), aligned) =
        let (ring, empty, v', ran) =
          flush-IsRing P z B S shard cfg k true now (record w { node = node }) v in
        let taken : ShardWriter Db =
          take_in P z B S shard cfg (contents w.ring) ring (record w { node = node }) in
        let same : (maybe_seal P z B S shard cfg (some store) true now taken).ring ≡ ring =
          maybe_seal-ring P z B S shard cfg (some store) true now taken
          ∙ (unfold take_in in refl) in
        let (aligned', handed) = maybe_seal-IsHandedOver shard node w ring aligned empty in
        (
          maybe_seal P z B S shard cfg (some store) true now taken,
          ran ∙ ap (λ o. some (maybe_seal P z B S shard cfg o true now taken)) stores,
          ((k, subst (IsRing k) (sym same) v'), aligned'),
          handed,
        )
