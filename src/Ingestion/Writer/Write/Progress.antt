-- ===== src/Ingestion/Writer/Write/Progress.antt =====
-- A producer that waits for the writer.
use bbdb.Base.{
  ℕ, zero, suc, ◌≤◌, ◌<◌, ◌^◌, ◌≡◌, refl, sym, ap, subst, ◌∙◌, List, [], ◌∷◌, Bool, false, Option,
  none, some, All, arith, length, Bool-cases, inl, inr,
}
use native.Mathlib.Nat.{pow-suc}
use bbdb.Kv.{Pebble}
use bbdb.Calendar.{Instant}
use bbdb.Block.Event.{Event}
use bbdb.Block.Columns.{Zstd}
use bbdb.Block.Memtable.{SortSlice}
use bbdb.Block.Bloom.{BloomLib}
use bbdb.Tier.Local.{LocalStore}
use bbdb.Ingestion.RingBuf.{RingBuf, push_turn, again, sub_u64}
use bbdb.Ingestion.RingBuf.Fifo.{IsRing, contents, drain_all_lem, push_turn_lem, length-items}
use bbdb.Ingestion.Writer.{
  WriterConfig, ShardWriter, seal_current, seal_due, maybe_seal, take_in, flush_drained,
  flush_and_maybe_seal,
}
use bbdb.Ingestion.Writer.Write.{
  Wait, nothing, ticked, done, is_done, accepted, settle, if_flushed, between, push, write,
}

abbrev pub ticks : List Wait → ℕ
ticks [] = 0
ticks (nothing ∷ ws) = ticks ws
ticks (ticked now ∷ ws) = suc (ticks ws)
ticks (done ∷ ws) = ticks ws

abbrev pub NeverDone : List Wait → Type 0
NeverDone ws = All (λ x. is_done x ≡ false) ws

power_pos : (k : ℕ) → 0 < 2 ^ k
power_pos zero = omega arith
power_pos (suc k) = omega (arith, pow-suc 2 k, power_pos k)

module _ (P : Pebble) (z : Zstd) (B : BloomLib) (S : SortSlice) (shard : ℕ)
    (cfg : WriterConfig B.Rate) where
  open P use {Db}

  pub maybe_seal-ring :
      (o : Option LocalStore) (force : Bool) (now : Instant) (w : ShardWriter Db)
      → (maybe_seal P z B S shard cfg o force now w).ring ≡ w.ring
  unfolding maybe_seal seal_current
  maybe_seal-ring none force now w = refl
  maybe_seal-ring (some store) force now w =
      elim (Bool-cases (seal_due P z B S shard cfg force now w)) [
        | inl t ↦ rw t refl
        | inr f ↦ rw f refl
      ]

  -- A flush empties the ring, whatever becomes of the log and of the seal.
  pub flush-IsRing :
      (k : ℕ) (force : Bool) (now : Instant) (w : ShardWriter Db)
      → IsRing k w.ring
      → (ring : RingBuf) × (contents ring ≡ [])
        × IsRing k ring
        × (flush_and_maybe_seal P z B S shard cfg force now w
            ≡ some (
                maybe_seal P z B S shard cfg cfg.store force now
                  (take_in P z B S shard cfg (contents w.ring) ring w)))
  unfolding flush_and_maybe_seal flush_drained
  flush-IsRing k force now w v =
      let (ring, ran, empty, v') = drain_all_lem k (suc (length w.ring.buf)) w.ring v (
        omega (
          arith,
          length-items w.ring.buf w.ring.mask (sub_u64 w.ring.head w.ring.tail) w.ring.tail,
          v.used,
          v.size,
        )) in
      (ring, empty, v', ap (flush_drained P z B S shard cfg force now w) ran)

  -- With room in the ring, an event is accepted at once.
  push-room :
      (k : ℕ) (e : Event) (ws : List Wait) (w : ShardWriter Db)
      → IsRing k w.ring
      → contents w.ring ≡ []
      → (w' : ShardWriter Db) × (push P z B S shard cfg e ws w ≡ accepted ws w') × IsRing k w'.ring
  unfolding push settle
  push-room k e [] w v empty = elim (push_turn_lem k w.ring v e false) [
    | inl (room, ring, ran, v', kept) ↦ (record w { ring = ring }, rw ran refl, v')
    | inr (full, ran) ↦ absurd (omega (arith, full, ap length empty, power_pos k))
  ]
  push-room k e (x ∷ ws) w v empty = elim (push_turn_lem k w.ring v e (is_done x)) [
    | inl (room, ring, ran, v', kept) ↦ (record w { ring = ring }, rw ran refl, v')
    | inr (full, ran) ↦ absurd (omega (arith, full, ap length empty, power_pos k))
  ]

  -- The event is accepted, at the cost of at most one tick.
  abbrev IsAccepted : ℕ → Event → List Wait → ShardWriter Db → Type 0
  IsAccepted k e ws w =
      (ws' : List Wait) × (w' : ShardWriter Db) × (push P z B S shard cfg e ws w ≡ accepted ws' w')
      × IsRing k w'.ring
      × NeverDone ws'
      × (ticks ws ≤ suc (ticks ws'))

  push-IsAccepted :
      (k : ℕ) (e : Event) (ws : List Wait) (w : ShardWriter Db)
      → IsRing k w.ring
      → NeverDone ws
      → 0 < ticks ws
      → IsAccepted k e ws w
  unfolding push settle between if_flushed
  push-IsAccepted k e [] w v live some_tick = absurd (omega arith)
  push-IsAccepted k e (x ∷ ws) w v live some_tick = elim (push_turn_lem k w.ring v e (is_done x)) [
    | inl (room, ring, ran, v', kept) ↦
        (x ∷ ws, record w { ring = ring }, rw ran refl, v', live, omega arith)
    | inr (full, ran) ↦ turned x live some_tick (ran ∙ rw live.0 refl) (push-IsAccepted k e ws w v)
  ]
    where
      turned :
          (x : Wait)
          → NeverDone (x ∷ ws)
          → 0 < ticks (x ∷ ws)
          → push_turn w.ring e (is_done x) ≡ again
          → (NeverDone ws → 0 < ticks ws → IsAccepted k e ws w)
          → IsAccepted k e (x ∷ ws) w
      turned nothing live some_tick again_turn later =
          let (ws', w', ran, v', live', left) = later live.1 some_tick in
          (ws', w', rw again_turn ran, v', live', left)
      turned done live some_tick again_turn later = absurd (ground (arith, live.0))
      turned (ticked now) live some_tick again_turn later =
          let (ring, empty, v', flushed) = flush-IsRing k false now w v in
          let w₁ : ShardWriter Db =
            maybe_seal P z B S shard cfg cfg.store false now
              (take_in P z B S shard cfg (contents w.ring) ring w) in
          let kept : w₁.ring ≡ ring =
            maybe_seal-ring cfg.store false now (take_in P z B S shard cfg (contents w.ring) ring w)
            ∙ (unfold take_in in refl) in
          let (w', ran, v'') =
            push-room k e ws w₁ (subst (IsRing k) (sym kept) v') (ap contents kept ∙ empty) in
          (
            ws,
            w',
            rw again_turn (ap (if_flushed (push P z B S shard cfg e ws)) flushed ∙ ran),
            v'',
            live.1,
            omega arith,
          )

  -- A write completes: if the context is never done, and the goroutine of the writer handles as many
  -- ticks as there are events, all events are accepted, whatever becomes of the log and of the seals, and
  -- the ring stays well-formed.
  pub write-accepted :
      (k : ℕ) (es : List Event) (ws : List Wait) (w : ShardWriter Db)
      → IsRing k w.ring
      → NeverDone ws
      → length es ≤ ticks ws
      → (ws' : List Wait) × (w' : ShardWriter Db) × (write P z B S shard cfg es ws w
          ≡ accepted ws' w')
        × IsRing k w'.ring
  unfolding write
  write-accepted k [] ws w v live enough = (ws, w, refl, v)
  write-accepted k (e ∷ es) ws w v live enough =
      let (ws₁, w₁, ran, v₁, live₁, left) = push-IsAccepted k e ws w v live (omega arith) in
      let (ws', w', ran', v') = write-accepted k es ws₁ w₁ v₁ live₁ (omega (arith, left)) in
      (ws', w', rw (ran, write) ran', v')
