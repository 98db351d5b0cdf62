-- ===== src/Grpc/IngestionServer/Stopped.antt =====
-- internal/grpc/ingestion_server.go: `Stop`. The writers stop at the same time, each in a goroutine of its own;
-- here one after the other, in any order, which a list of shards gives.
use mathlib.Core.List.{Mem, mem-cons, not-mem-nil}
use mathlib.Core.Logic.Or
use bbdb.Base.{
  ℕ, ◌==◌, ◌≡◌, refl, sym, ap, ◌∙◌, subst, List, [], ◌∷◌, Option, none, some, arith, Bool-cases,
  Option-cases, inl, inr, some-injective, ==_iff, ==_refl,
}
use bbdb.Kv.{Pebble}
use bbdb.Node.{Node}
use bbdb.Calendar.{Instant}
use bbdb.Block.Columns.{Zstd}
use bbdb.Block.Memtable.{SortSlice, len}
use bbdb.Block.Bloom.{BloomLib}
use bbdb.Tier.Local.{LocalStore}
use bbdb.Ingestion.RingBuf.Fifo.{contents}
use bbdb.Ingestion.Writer.{WriterConfig, ShardWriter}
use bbdb.Grpc.IngestionServer.Started.{WriterMap, set_writer}
use bbdb.Grpc.IngestionServer.HandedOver.{
  stop_writer, IsEmptied, IsSoundWriter, IsHandedOver, stop_writer_lem,
}

module _ (P : Pebble) (z : Zstd) (B : BloomLib) (S : SortSlice) (cfg : WriterConfig B.Rate)
    (now : Instant) where
  open P use {Db}

  unfoldable pub stop_all : List ℕ → Node Db → WriterMap Db → Option (Node Db × WriterMap Db)
  unfolding stop_writer
  stop_all [] node m = some (node, m)
  stop_all (shard ∷ shards) node m = elim (m shard) [
    | none ↦ stop_all shards node m
    | some w ↦ elim (stop_writer P z B S cfg now shard node w) [
      | none ↦ none
      | some w' ↦ stop_all shards w'.node (set_writer m shard w')
    ]
  ]

  abbrev pub IsSound : WriterMap Db → Type 0
  IsSound m = (t : ℕ) (w : ShardWriter Db) → m t ≡ some w → IsSoundWriter P z B S cfg now w

  set_writer-IsSound :
      (m : WriterMap Db) (shard : ℕ) (w : ShardWriter Db)
      → IsSound m
      → IsSoundWriter P z B S cfg now w
      → IsSound (set_writer m shard w)
  set_writer-IsSound m shard w v r t u h = elim (Bool-cases (shard == t)) [
    | inl f ↦ subst (IsSoundWriter P z B S cfg now) (some-injective w u (rw f at h)) r
    | inr f ↦ v t u (rw f at h)
  ]

  -- The stops of the writers of a list of shards, one behind the other, each on the node that the one before
  -- it left. A shard without a writer is passed over.
  pub data Stops (store : LocalStore)
      : List ℕ → Node Db → WriterMap Db → Node Db → WriterMap Db → Type 0 where
    all_done : (node : Node Db) (m : WriterMap Db) → Stops store [] node m node m
    no_writer :
        (shard : ℕ) (shards : List ℕ) (node node' : Node Db) (m m' : WriterMap Db)
        → m shard ≡ none
        → Stops store shards node m node' m'
        → Stops store (shard ∷ shards) node m node' m'
    handed_over :
        (shard : ℕ) (shards : List ℕ) (node node' : Node Db) (m m' : WriterMap Db)
        (w w' : ShardWriter Db)
        → m shard ≡ some w
        → IsHandedOver P z B S cfg now store shard node w w'
        → Stops store shards w'.node (set_writer m shard w') node' m'
        → Stops store (shard ∷ shards) node m node' m'

  module _ (store : LocalStore) (stores : cfg.store ≡ some store) where
    -- What a stop makes of the writers.
    record IsStopped (shards : List ℕ) (node node' : Node Db) (m m' : WriterMap Db) : Type 0 where
      stops : Stops store shards node m node' m'
      sound : IsSound m'
      absent : (t : ℕ) → m t ≡ none → m' t ≡ none
      still :
          (t : ℕ) (w w' : ShardWriter Db)
          → m t ≡ some w
          → IsEmptied P z B S cfg now w
          → m' t ≡ some w'
          → IsEmptied P z B S cfg now w'
      emptied :
          (t : ℕ) (w' : ShardWriter Db)
          → Mem t shards
          → m' t ≡ some w'
          → IsEmptied P z B S cfg now w'

    -- The stop of one writer, then that of the others.
    IsStopped-cons :
        (shard : ℕ) (shards : List ℕ) (node node' : Node Db) (m m' : WriterMap Db)
        (w w₁ : ShardWriter Db)
        → m shard ≡ some w
        → IsHandedOver P z B S cfg now store shard node w w₁
        → IsStopped shards w₁.node node' (set_writer m shard w₁) m'
        → IsStopped (shard ∷ shards) node node' m m'
    IsStopped-cons shard shards node node' m m' w w₁ there handed r = record {
      stops = handed_over shard shards node node' m m' w w₁ there handed r.stops;
      sound = r.sound;
      absent = λ t n. elim (Bool-cases (shard == t)) [
        | inl same ↦ absurd (ground (arith, sym there ∙ ap m ((==_iff shard t).0 same) ∙ n))
        | inr f ↦ r.absent t (rw f n)
      ];
      still = λ t v w' a e b. elim (Bool-cases (shard == t)) [
        | inl same ↦ r.still t w₁ w' (rw same refl) handed.empty b
        | inr f ↦ r.still t v w' (rw f a) e b
      ];
      emptied = λ t w' listed b.
          Or.elim (hlevel) (mem-cons.0 listed)
            (λ same. r.still t w₁ w' (rw (same, ==_refl shard) refl) handed.empty b)
            (λ later. r.emptied t w' later b);
    }

    stop_all-IsStopped :
        (shards : List ℕ) (node : Node Db) (m : WriterMap Db)
        → IsSound m
        → (node' : Node Db) × (m' : WriterMap Db) × (stop_all shards node m ≡ some (node', m'))
          × IsStopped shards node node' m m'
    unfolding stop_all
    stop_all-IsStopped [] node m v = (
      node,
      m,
      refl,
      record {
        stops = all_done node m;
        sound = v;
        absent = λ t n. n;
        still =
            λ t w w' a e b. subst (IsEmptied P z B S cfg now) (some-injective w w' (sym a ∙ b)) e;
        emptied = λ t w' listed b. absurd (not-mem-nil listed);
      },
    )
    stop_all-IsStopped (shard ∷ shards) node m v = elim (Option-cases (m shard)) [
      | inl n ↦
          let (node', m', ran, r) = stop_all-IsStopped shards node m v in
          (
            node',
            m',
            rw (stop_all, n) ran,
            record {
              stops = no_writer shard shards node node' m m' n r.stops;
              sound = r.sound;
              absent = r.absent;
              still = r.still;
              emptied = λ t w' listed b.
                  Or.elim (hlevel) (mem-cons.0 listed)
                    (λ same. absurd (ground (arith, r.absent t (ap m same ∙ n), b)))
                    (λ later. r.emptied t w' later b);
            },
          )
      | inr (w, h) ↦
          let (w₁, stopped, sound₁, handed) =
            stop_writer_lem P z B S cfg now store stores shard node w (v shard w h) in
          let m₁ : WriterMap Db = set_writer m shard w₁ in
          let (node', m', ran, r) =
            stop_all-IsStopped shards w₁.node m₁ (set_writer-IsSound m shard w₁ v sound₁) in
          (
            node',
            m',
            rw (stop_all, h, stopped) ran,
            IsStopped-cons shard shards node node' m m' w w₁ h handed r,
          )
    ]

    -- With a tier store and writers that are well-formed, `Stop` returns. Each writer that it finds has called
    -- the seal once, with exactly the rows that its memtable and then its ring held, on the node that the writer
    -- before it left, behind an append of the events of its ring to the log; one that held nothing leaves the
    -- node alone. The rings and the memtables are then empty, whether the appends and the seals succeeded or
    -- not. Writers that the map lacks stay absent.
    pub stop_all_lem :
        (shards : List ℕ) (node : Node Db) (m : WriterMap Db)
        → IsSound m
        → (node' : Node Db) × (m' : WriterMap Db) × (stop_all shards node m ≡ some (node', m'))
          × Stops store shards node m node' m'
          × ((t : ℕ) (w' : ShardWriter Db)
              → Mem t shards
              → m' t ≡ some w'
              → (contents w'.ring ≡ []) × (len w'.memtable ≡ 0))
          × ((t : ℕ) → m t ≡ none → m' t ≡ none)
    stop_all_lem shards node m v =
        let (node', m', ran, r) = stop_all-IsStopped shards node m v in
        (node', m', ran, r.stops, λ t w' listed here. r.emptied t w' listed here, r.absent)
