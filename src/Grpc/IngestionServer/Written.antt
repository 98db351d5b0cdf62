-- ===== src/Grpc/IngestionServer/Written.antt =====
-- internal/grpc/ingestion_server.go: the writes of the groups of a batch.
use bbdb.Base.{
  ℕ, ◌≡◌, refl, sym, ap, ◌∙◌, subst, List, [], ◌∷◌, ◌++◌, arith, append_assoc, append-nil,
  Bool-cases, inl, inr, ok, err, Error, Result, ◌==◌,
}
use bbdb.Base.State.{after, after-eq-ok}
use bbdb.Block.Event.{Event}
use bbdb.Grpc.IngestionServer.{Groups, Writers, write_groups}
use bbdb.Grpc.IngestionServer.Shards.{written_to}

module _ {W : Type 0} (writers : Writers W) where
  open writers use {held, IsValid}

  pub write_groups-held :
      (gs : Groups) (w w' : W) (t : ℕ)
      → IsValid w
      → write_groups writers gs w ≡ (ok tt, w')
      → held w' t ≡ held w t ++ written_to t gs
  unfolding write_groups
  write_groups-held [] w w' t v run = ap (λ p. held p.1 t) (sym run) ∙ sym (append-nil (held w t))
  write_groups-held ((s, es) ∷ gs) w w' t v run =
      let (_, w₁, r, k) =
        after-eq-ok (λ u. write_groups writers gs) (writers.write_shard s es w) tt w' run in
      let later : held w' t ≡ held w₁ t ++ written_to t gs =
        write_groups-held gs w₁ w' t
          (subst (λ r. IsValid r.1) r (writers.write_shard-IsValid s es w v)) k in
      elim (Bool-cases (s == t)) [
        | inl f ↦
            let here : held w₁ t ≡ held w t ++ es =
              rw f at (writers.write_shard-ok s es w w₁ v r t) in
            later
            ∙ ap (λ l. l ++ written_to t gs) here
            ∙ rw f (append_assoc (held w t) es (written_to t gs))
        | inr f ↦
            let here : held w₁ t ≡ held w t ++ [] =
              rw f at (writers.write_shard-ok s es w w₁ v r t) in
            later ∙ ap (λ l. l ++ written_to t gs) (here ∙ append-nil (held w t)) ∙ rw f refl
      ]

  pub write_groups-IsValid :
      (gs : Groups) (w : W) → IsValid w → IsValid (write_groups writers gs w).1
  unfolding write_groups
  write_groups-IsValid [] w v = v
  write_groups-IsValid ((s, es) ∷ gs) w v =
      written (writers.write_shard s es w) (writers.write_shard-IsValid s es w v)
        (λ w'. write_groups-IsValid gs w')
    where
      written :
          (r : Result (Unit {0}) × W)
          → IsValid r.1
          → ((w' : W) → IsValid w' → IsValid (write_groups writers gs w').1)
          → IsValid (after (λ u. write_groups writers gs) r).1
      written (ok u, w') v later = later w' v
      written (err e, w') v later = v

  -- A write in the order of the shards that ends in an error, behind writes that succeeded. Nothing is
  -- written behind it.
  pub record HasFailed (gs : Groups) (w : W) (e : Error) (w' : W) : Type 0 where
    pub before : Groups
    pub after_it : Groups
    pub shard : ℕ
    pub events : List Event
    pub reached : W
    pub parted : gs ≡ before ++ (shard, events) ∷ after_it
    pub written : write_groups writers before w ≡ (ok tt, reached)
    pub refused : writers.write_shard shard events reached ≡ (err e, w')

  pub write_groups-HasFailed :
      (gs : Groups) (w w' : W) (e : Error)
      → write_groups writers gs w ≡ (err e, w')
      → HasFailed gs w e w'
  unfolding write_groups
  write_groups-HasFailed [] w w' e run = absurd (ground (arith, ap (λ p. p.0) run))
  write_groups-HasFailed ((s, es) ∷ gs) w w' e run =
      split (writers.write_shard s es w) refl run (λ w₁. write_groups-HasFailed gs w₁ w' e)
    where
      split :
          (r : Result (Unit {0}) × W)
          → writers.write_shard s es w ≡ r
          → after (λ u. write_groups writers gs) r ≡ (err e, w')
          → ((w₁ : W) → write_groups writers gs w₁ ≡ (err e, w') → HasFailed gs w₁ e w')
          → HasFailed ((s, es) ∷ gs) w e w'
      split (err f, w₁) here stopped rest = record {
        before = [];
        after_it = gs;
        shard = s;
        events = es;
        reached = w;
        parted = refl;
        written = refl;
        refused = here ∙ stopped;
      }
      split (ok u, w₁) here later rest =
          let r : HasFailed gs w₁ e w' = rest w₁ later in
          record {
            before = (s, es) ∷ r.before;
            after_it = r.after_it;
            shard = r.shard;
            events = r.events;
            reached = r.reached;
            parted = ap (λ l. (s, es) ∷ l) r.parted;
            written = ap (after (λ v. write_groups writers r.before)) here ∙ r.written;
            refused = r.refused;
          }
