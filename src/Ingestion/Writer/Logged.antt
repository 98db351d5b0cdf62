-- ===== src/Ingestion/Writer/Logged.antt =====
-- The log of a shard against its memtable.
use bbdb.Base.{
  ℕ, suc, ◌+◌, ◌^◌, ◌<◌, ◌≡◌, refl, sym, ap, subst, ◌∙◌, List, [], ◌∷◌, ◌++◌, map, append-nil,
  append_assoc, Bool, true, ◌⊎◌, Option, none, some, ok, arith, length, Bool-cases, inl, inr,
}
use bbdb.Kv.{Pebble}
use bbdb.Calendar.{Instant}
use bbdb.Block.Event.{Event}
use bbdb.Block.Columns.{Zstd}
use bbdb.Block.Memtable.{Memtable, SortSlice, new_memtable, append, rows}
use bbdb.Block.Memtable.Rows.{IsMemtable, rows-append, new_memtable-IsMemtable}
use bbdb.Block.Bloom.{BloomLib}
use bbdb.Block.Sealer.{seal}
use bbdb.Block.Sealer.Sealed.{IsSealed, seal_lem}
use bbdb.Meta.Keys.{BlockId}
use bbdb.Meta.Wal.{wal_append}
use bbdb.Meta.Wal.Append.{LogState}
use bbdb.Meta.Wal.Log.{LogIs, append-LogIs, emptied-LogIs}
use bbdb.Tier.Local.{LocalStore}
use bbdb.Ingestion.RingBuf.{RingBuf, sub_u64}
use bbdb.Ingestion.RingBuf.Fifo.{IsRing, contents, drain_all_lem, length-items}
use bbdb.Ingestion.Json.{marshal}
use bbdb.Ingestion.Writer.{
  WriterConfig, ShardWriter, append_events, request_of, seal_current, seal_due, maybe_seal, take_in,
  flush_drained, flush_and_maybe_seal,
}

map-snoc :
    (xs : List Event) (e : Event) → map marshal (xs ++ e ∷ []) ≡ map marshal xs ++ marshal e ∷ []
map-snoc [] e = refl
map-snoc (x ∷ xs) e = ap (λ l. marshal x ∷ l) (map-snoc xs e)

module _ (P : Pebble) (z : Zstd) (B : BloomLib) (S : SortSlice) (shard : ℕ)
    (cfg : WriterConfig B.Rate) (not_last : suc shard < 2 ^ 16) where
  open P use {Db}

  -- The log holds the events of the memtable, in their order, and the counter stands at `n`.
  pub record IsLogged (n : ℕ) (db : Db) (mt : Memtable) : Type 0 where
    pub memtable : IsMemtable mt
    pub counter : LogState P db shard n
    pub log : LogIs P db shard (map marshal (rows mt))

  -- Every append of a list of events succeeds.
  abbrev pub AppendsOk : List Event → Db → Type 0
  AppendsOk [] db = Unit
  AppendsOk (e ∷ es) db =
      ((wal_append P shard (marshal e) db).0 ≡ ok tt)
      × AppendsOk es (wal_append P shard (marshal e) db).1

  append_events_lem :
      (es : List Event) (n : ℕ) (db : Db) (mt : Memtable)
      → n + length es < 2 ^ 64
      → AppendsOk es db
      → IsLogged n db mt
      → let (db', mt') = append_events P z B S shard cfg es db mt in
        IsLogged (n + length es) db' mt' × (rows mt' ≡ rows mt ++ es)
  unfolding append_events
  append_events_lem [] n db mt small fine v =
      let same : n ≡ n + 0 = omega arith in
      (subst (λ m. IsLogged m db mt) same v, sym (append-nil (rows mt)))
  append_events_lem (e ∷ es) n db mt small fine v =
      let db₁ : Db = (wal_append P shard (marshal e) db).1 in
      let (rest, aligned) = rows-append mt e v.memtable in
      let run : wal_append P shard (marshal e) db ≡ (ok tt, db₁) = ap (λ r. (r, db₁)) fine.0 in
      let (log, counter) =
        append-LogIs P db db₁ shard n (marshal e) (map marshal (rows mt)) not_last (omega arith)
          v.counter v.log run in
      let next : suc n + length es ≡ n + suc (length es) = omega arith in
      let grown : map marshal (rows mt) ++ marshal e ∷ [] ≡ map marshal (rows (append mt e)) =
        sym (ap (map marshal) rest ∙ map-snoc (rows mt) e) in
      let (w, all) = append_events_lem es (suc n) db₁ (append mt e) (omega arith) fine.1 (record {
        memtable = aligned;
        counter = counter;
        log = subst (LogIs P db₁ shard) grown log;
      }) in
      (
        subst
            (λ m.
              IsLogged m (append_events P z B S shard cfg es db₁ (append mt e)).0
                (append_events P z B S shard cfg es db₁ (append mt e)).1)
            next w,
        all ∙ ap (λ l. l ++ es) rest ∙ append_assoc (rows mt) (e ∷ []) es,
      )

  -- The seal that is due, if there is one, succeeds.
  abbrev pub SealOk : Bool → Instant → ShardWriter Db → Type 0
  SealOk force now w =
      (store : LocalStore)
      → cfg.store ≡ some store
      → seal_due P z B S shard cfg force now w ≡ true
      → (id : BlockId) × ((seal P z B S (request_of P z B S shard cfg store w now) w.node).0
          ≡ ok id)

  -- What came of a memtable: it is as it was, or it is sealed and there is a new one.
  abbrev pub Outcome : Instant → ShardWriter Db → ShardWriter Db → Type 0
  Outcome now w w' =
      (w'.memtable ≡ w.memtable)
      ⊎ ((store : LocalStore) × (id : BlockId) × (cfg.store ≡ some store)
          × (w'.memtable ≡ new_memtable)
          × IsSealed P z B S (request_of P z B S shard cfg store w now) w.node.db w'.node id)

  seal_current_lem :
      (store : LocalStore) (now : Instant) (n : ℕ) (w : ShardWriter Db) (id : BlockId)
      → (seal P z B S (request_of P z B S shard cfg store w now) w.node).0 ≡ ok id
      → IsLogged n w.node.db w.memtable
      → let w' = seal_current P z B S shard cfg store now w in
        IsLogged n w'.node.db w'.memtable
        × IsSealed P z B S (request_of P z B S shard cfg store w now) w.node.db w'.node id
  unfolding seal_current
  seal_current_lem store now n w id ran v =
      let req = request_of P z B S shard cfg store w now in
      let after = (seal P z B S req w.node).1 in
      let sealed = seal_lem P z B S req w.node after id (ap (λ r. (r, after)) ran) in
      let (log, counter) =
        emptied-LogIs P w.node.db after.db shard n v.counter (unfold request_of in sealed.log)
          (unfold request_of in sealed.counter) in
      (
        record {
          memtable = new_memtable-IsMemtable;
          counter = counter;
          log = unfold new_memtable rows in log;
        },
        sealed,
      )

  maybe_seal_lem :
      (o : Option LocalStore) (force : Bool) (now : Instant) (n : ℕ) (w : ShardWriter Db)
      → cfg.store ≡ o
      → SealOk force now w
      → IsLogged n w.node.db w.memtable
      → let w' = maybe_seal P z B S shard cfg o force now w in
        IsLogged n w'.node.db w'.memtable × Outcome now w w' × (w'.ring ≡ w.ring)
  unfolding maybe_seal
  maybe_seal_lem none force now n w set fine v = (v, inl refl, refl)
  maybe_seal_lem (some store) force now n w set fine v =
      elim (Bool-cases (seal_due P z B S shard cfg force now w)) [
        | inr f ↦ rw f (v, inl refl, refl)
        | inl t ↦
            let (id, ran) = fine store set t in
            let (x, sealed) = seal_current_lem store now n w id ran v in
            rw t (
              x,
              inr (store, id, set, unfold seal_current in refl, sealed),
              unfold seal_current in refl,
            )
      ]

  -- The writer behind the drained ring, before it looks for a reason to seal.
  unfoldable pub drained : ShardWriter Db → RingBuf → ShardWriter Db
  drained w ring = take_in P z B S shard cfg (contents w.ring) ring w

  -- A flush drains the ring. Where every append to the log succeeds, and the seal if one is due, the log
  -- of the shard holds the events of the memtable in their order afterwards as before: those it held
  -- followed by those of the ring; or these together are sealed, with all that a seal leaves, and both
  -- are empty. For every shard but 65535, and while the counter is in its range.
  pub flush_and_maybe_seal_lem :
      (k n : ℕ) (force : Bool) (now : Instant) (w : ShardWriter Db)
      → IsRing k w.ring
      → n + length (contents w.ring) < 2 ^ 64
      → IsLogged n w.node.db w.memtable
      → AppendsOk (contents w.ring) w.node.db
      → ((ring : RingBuf) → SealOk force now (drained w ring))
      → (w' : ShardWriter Db) × (ring : RingBuf) × (flush_and_maybe_seal P z B S shard cfg force now
            w
          ≡ some w')
        × IsRing k w'.ring
        × (contents w'.ring ≡ [])
        × IsLogged (n + length (contents w.ring)) w'.node.db w'.memtable
        × (rows (drained w ring).memtable ≡ rows w.memtable ++ contents w.ring)
        × Outcome now (drained w ring) w'
  unfolding flush_and_maybe_seal flush_drained drained
  flush_and_maybe_seal_lem k n force now w v small logged appends seals =
      let (ring, ran, empty, v') = drain_all_lem k (suc (length w.ring.buf)) w.ring v (
        omega (
          arith,
          length-items w.ring.buf w.ring.mask (sub_u64 w.ring.head w.ring.tail) w.ring.tail,
          v.used,
          v.size,
        )) in
      let (x, all) =
        append_events_lem (contents w.ring) n w.node.db w.memtable small appends logged in
      let (y, outcome, same) =
        maybe_seal_lem cfg.store force now (n + length (contents w.ring)) (drained w ring) refl
          (seals ring) (unfold take_in in x) in
      let kept : (drained w ring).ring ≡ ring = unfold take_in in refl in
      (
        maybe_seal P z B S shard cfg cfg.store force now (drained w ring),
        ring,
        ap (flush_drained P z B S shard cfg force now w) ran,
        subst (IsRing k) (sym (same ∙ kept)) v',
        ap contents (same ∙ kept) ∙ empty,
        y,
        unfold take_in in all,
        outcome,
      )
