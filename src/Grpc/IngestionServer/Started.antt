-- ===== src/Grpc/IngestionServer/Started.antt =====
-- internal/grpc/ingestion_server.go: `getOrCreateWriter`, and the writers of a server as the writers of a
-- batch. The goroutines of the writers do nothing while a batch is written, and the context is done when a
-- ring is full.
use bbdb.Base.{
  ℕ, ◌==◌, ◌^◌, ◌≡◌, refl, sym, ap, ◌∙◌, subst, List, [], ◌∷◌, ◌++◌, Option, none, some, arith,
  true, false, ok, err, Result, cancelled, panic, if◌then◌else◌, append_assoc, append-nil,
  Bool-cases, Option-cases, inl, inr, some-injective, ==_iff,
}
use bbdb.Base.Int.{pos, leb_ℤ}
use bbdb.Base.State.{St}
use bbdb.Kv.{Pebble}
use bbdb.Node.{Node}
use bbdb.Calendar.{Instant}
use bbdb.Block.Event.{Event}
use bbdb.Block.Columns.{Zstd}
use bbdb.Block.Memtable.{SortSlice}
use bbdb.Block.Bloom.{BloomLib}
use bbdb.Ingestion.RingBuf.{Turn}
use bbdb.Ingestion.RingBuf.Fifo.{IsRing, contents, push_turn_lem}
use bbdb.Ingestion.RingBuf.Size.{new_ring_buf_lem}
use bbdb.Ingestion.Writer.{WriterConfig, ShardWriter, new_shard_writer, hour_boundary}
use bbdb.Block.Memtable.{new_memtable}
use bbdb.Ingestion.Writer.Write.{
  done, Pushing, accepted, refused, waiting, push, write, settle, between,
}
use bbdb.Grpc.IngestionServer.{Writers}

-- `writers`, and `s.writers[shard] = w`.
abbrev pub WriterMap : Type 0 → Type 0
WriterMap Db = ℕ → Option (ShardWriter Db)

abbrev pub set_writer : {Db : Type 0} → WriterMap Db → ℕ → ShardWriter Db → WriterMap Db
set_writer m shard w t = if shard == t then some w else m t

module _ (P : Pebble) (z : Zstd) (B : BloomLib) (S : SortSlice) (cfg : WriterConfig B.Rate)
    (node : Node P.Db) (now : Instant) where
  open P use {Db}

  -- The writer of a shard, and the map with it.
  unfoldable pub get_or_create_writer : ℕ → WriterMap Db → Option (ShardWriter Db × WriterMap Db)
  get_or_create_writer shard m = elim (m shard) [
    | some w ↦ some (w, m)
    | none ↦ elim (new_shard_writer node cfg now) [
      | none ↦ none
      | some w ↦ some (w, set_writer m shard w)
    ]
  ]

  abbrev pub kept : ℕ → WriterMap Db → Pushing Db → Result (Unit {0}) × WriterMap Db
  kept shard m (accepted ws w) = (ok tt, set_writer m shard w)
  kept shard m (refused w) = (err cancelled, set_writer m shard w)
  kept shard m waiting = (err cancelled, m)

  abbrev pub write_to :
      ℕ
      → List Event
      → Option (ShardWriter Db × WriterMap Db)
      → WriterMap Db
      → Result (Unit {0}) × WriterMap Db
  write_to shard es none m = (err panic, m)
  write_to shard es (some (w, m')) m = kept shard m' (write P z B S shard cfg es (done ∷ []) w)

  unfoldable pub write_shard : ℕ → List Event → St (WriterMap Db) (Unit {0})
  unfolding get_or_create_writer
  write_shard shard es m = write_to shard es (get_or_create_writer shard m) m

  -- The events in the ring of a writer, if there is one.
  abbrev pub ring_of : Option (ShardWriter Db) → List Event
  ring_of none = []
  ring_of (some w) = contents w.ring

  abbrev pub IsRings : WriterMap Db → Type 0
  IsRings m = (t : ℕ) (w : ShardWriter Db) → m t ≡ some w → (k : ℕ) × IsRing k w.ring

  -- What becomes of a ring that the events are pushed into.
  abbrev Pushed : ℕ → List Event → List Event → Pushing Db → Type 0
  Pushed k before es (accepted ws w) = IsRing k w.ring × (contents w.ring ≡ before ++ es)
  Pushed k before es (refused w) = IsRing k w.ring
  Pushed k before es waiting = Unit {0}

  -- That, behind a turn of `Push`.
  abbrev AtTurn : ℕ → ℕ → Event → List Event → ShardWriter Db → Turn → Type 0
  unfolding settle
  AtTurn shard k e es w turn =
      Pushed k (contents w.ring) (e ∷ es)
        (elim (settle (done ∷ []) w turn (refused w)) as (λ x. Pushing Db) [
          | accepted ws' w' ↦ write P z B S shard cfg es ws' w'
          | refused w' ↦ refused w'
          | waiting ↦ waiting
        ])

  write-Pushed :
      (shard k : ℕ) (es : List Event) (w : ShardWriter Db)
      → IsRing k w.ring
      → Pushed k (contents w.ring) es (write P z B S shard cfg es (done ∷ []) w)
  unfolding write push settle between AtTurn
  write-Pushed shard k [] w v = (v, sym (append-nil (contents w.ring)))
  write-Pushed shard k (e ∷ es) w v = elim (push_turn_lem k w.ring v e true) [
    | inr (full, ran) ↦ subst (AtTurn shard k e es w) (sym ran) v
    | inl (room, ring, ran, v', held) ↦ subst (AtTurn shard k e es w) (sym ran) (
        behind (write P z B S shard cfg es (done ∷ []) (record w { ring = ring })) (contents w.ring)
          (contents ring) held (write-Pushed shard k es (record w { ring = ring }) v'))
  ]
    where
      behind :
          (p : Pushing Db) (before now : List Event)
          → now ≡ before ++ e ∷ []
          → Pushed k now es p
          → Pushed k before (e ∷ es) p
      behind (accepted ws w') before now here (v, all) =
          (v, all ∙ ap (λ l. l ++ es) here ∙ append_assoc before (e ∷ []) es)
      behind (refused w') before now here v = v
      behind waiting before now here v = tt

  pub set_writer-IsRings :
      (m : WriterMap Db) (shard : ℕ) (w : ShardWriter Db)
      → IsRings m
      → (k : ℕ) × IsRing k w.ring
      → IsRings (set_writer m shard w)
  set_writer-IsRings m shard w v (k, r) t u h = elim (Bool-cases (shard == t)) [
    | inl f ↦ (k, subst (λ x. IsRing k x.ring) (some-injective w u (rw f at h)) r)
    | inr f ↦ v t u (rw f at h)
  ]

  -- What `getOrCreateWriter` promises.
  abbrev Created : ℕ → WriterMap Db → Option (ShardWriter Db × WriterMap Db) → Type 0
  Created shard m none = Unit {0}
  Created shard m (some (w, m')) =
      ((k : ℕ) × IsRing k w.ring)
      × (contents w.ring ≡ ring_of (m shard))
      × ((t : ℕ) → shard == t ≡ false → m' t ≡ m t)
      × IsRings m'

  module _ (fits : leb_ℤ cfg.ring_buf_size (pos (2 ^ 62)) ≡ true) where
    get_or_create_writer-Created :
        (shard : ℕ) (m : WriterMap Db) → IsRings m → Created shard m (get_or_create_writer shard m)
    unfolding get_or_create_writer new_shard_writer
    get_or_create_writer-Created shard m v = elim (Option-cases (m shard)) [
      | inr (w, h) ↦
          let there : get_or_create_writer shard m ≡ some (w, m) =
            rw (get_or_create_writer, h) refl in
          subst (Created shard m) (sym there) (v shard w h, sym (ap ring_of h), λ t f. refl, v)
      | inl n ↦
          let (k, ring, made, r, empty, _, _) = new_ring_buf_lem cfg.ring_buf_size fits in
          let w : ShardWriter Db = record {
            node = node;
            ring = ring;
            memtable = new_memtable;
            opened_at = hour_boundary now;
          } in
          let started : new_shard_writer node cfg now ≡ some w = rw (made, new_shard_writer) refl in
          let there : get_or_create_writer shard m ≡ some (w, set_writer m shard w) =
            rw (get_or_create_writer, n, started) refl in
          subst (Created shard m) (sym there) (
            (k, r),
            empty ∙ sym (ap ring_of n),
            λ t f. rw f refl,
            set_writer-IsRings m shard w v (k, r),
          )
    ]

    kept-IsRings :
        (shard k : ℕ) (before es : List Event) (m : WriterMap Db) (p : Pushing Db)
        → IsRings m
        → Pushed k before es p
        → IsRings (kept shard m p).1
    kept-IsRings shard k before es m (accepted ws w) v (r, all) =
        set_writer-IsRings m shard w v (k, r)
    kept-IsRings shard k before es m (refused w) v r = set_writer-IsRings m shard w v (k, r)
    kept-IsRings shard k before es m waiting v r = v

    pub write_shard-IsRings :
        (shard : ℕ) (es : List Event) (m : WriterMap Db)
        → IsRings m
        → IsRings (write_shard shard es m).1
    unfolding write_shard
    write_shard-IsRings shard es m v =
        written (get_or_create_writer shard m) (get_or_create_writer-Created shard m v)
      where
        written :
            (o : Option (ShardWriter Db × WriterMap Db))
            → Created shard m o
            → IsRings (write_to shard es o m).1
        written none c = v
        written (some (w, m')) ((k, r), same, others, v') =
            kept-IsRings shard k (contents w.ring) es m' (write P z B S shard cfg es (done ∷ []) w)
              v' (write-Pushed shard k es w r)

    kept-held :
        (shard k : ℕ) (before es : List Event) (m m' m'' : WriterMap Db) (p : Pushing Db)
        → before ≡ ring_of (m shard)
        → ((t : ℕ) → shard == t ≡ false → m' t ≡ m t)
        → Pushed k before es p
        → kept shard m' p ≡ (ok tt, m'')
        → (t : ℕ) → ring_of (m'' t) ≡ ring_of (m t) ++ (if shard == t then es else [])
    kept-held shard k before es m m' m'' (refused w) same others r run t =
        absurd (ground (arith, run))
    kept-held shard k before es m m' m'' waiting same others r run t = absurd (ground (arith, run))
    kept-held shard k before es m m' m'' (accepted ws w) same others (r, all) run t =
        ap (λ x. ring_of (x.1 t)) (sym run) ∙ elim (Bool-cases (shard == t)) [
          | inl f ↦
              rw f (all ∙ ap (λ l. l ++ es) (same ∙ ap (λ u. ring_of (m u)) ((==_iff shard t).0 f)))
          | inr f ↦ rw f (ap ring_of (others t f) ∙ sym (append-nil (ring_of (m t))))
        ]

    pub write_shard-held :
        (shard : ℕ) (es : List Event) (m m'' : WriterMap Db)
        → IsRings m
        → write_shard shard es m ≡ (ok tt, m'')
        → (t : ℕ) → ring_of (m'' t) ≡ ring_of (m t) ++ (if shard == t then es else [])
    unfolding write_shard
    write_shard-held shard es m m'' v run =
        written (get_or_create_writer shard m) (get_or_create_writer-Created shard m v) run
      where
        written :
            (o : Option (ShardWriter Db × WriterMap Db))
            → Created shard m o
            → write_to shard es o m ≡ (ok tt, m'')
            → (t : ℕ) → ring_of (m'' t) ≡ ring_of (m t) ++ (if shard == t then es else [])
        written none c run = absurd (ground (arith, run))
        written (some (w, m')) ((k, r), same, others, v') run =
            kept-held shard k (contents w.ring) es m m' m''
              (write P z B S shard cfg es (done ∷ []) w) same others (write-Pushed shard k es w r)
              run

    -- The writers of a server.
    abbrev pub started : Writers (WriterMap Db)
    started = record {
      write_shard = write_shard;
      held = λ m t. ring_of (m t);
      IsValid = IsRings;
      write_shard-IsValid = write_shard-IsRings;
      write_shard-ok = write_shard-held;
    }
