-- ===== src/Grpc/IngestionServer/Shards.antt =====
-- How a batch is divided among the shards.
use mathlib.Core.List.{
  Mem, Perm, Pairwise, Pairwise-cons, mem-cons, mem-cons_self, mem-cons_of_mem, not-mem-nil,
  Mem-prop,
}
use mathlib.Core.List.Perm
use mathlib.Core.Logic.Or
use bbdb.Base.{
  ◌≢◌, subst, ◌⊎◌, ℕ, ◌%◌, ◌^◌, ◌≡◌, refl, sym, ap, ◌∙◌, List, [], ◌∷◌, ◌++◌, ◌==◌, if◌then◌else◌,
  arith, append_assoc, append-nil, Bool-cases, inl, inr, ==_iff, ==_refl, true, false,
}
use bbdb.Base.Bytes.{Bytes}
use bbdb.Block.Event.{Event}
use bbdb.Block.Routing.{Xxhash, shard_for}
use bbdb.Grpc.QueryServer.{ProtoEvent}
use bbdb.Grpc.IngestionServer.{Groups, MapOrder, append_to, group_events}

-- All that is written to a shard, in order.
abbrev pub written_to : ℕ → Groups → List Event
written_to s [] = []
written_to s ((t, es) ∷ gs) = let rest = written_to s gs in if t == s then es ++ rest else rest

-- The events whose key and type have the shard, in the order of the batch.
abbrev pub events_for : Xxhash → ℕ → List ProtoEvent → List Event → List Bytes → List Event
events_for x s (p ∷ ps) (e ∷ es) (k ∷ ks) =
    let rest = events_for x s ps es ks in
    if shard_for x k (p.event_type % 2 ^ 8) == s then e ∷ rest else rest
events_for x s ps es ks = []

-- Different shards.
abbrev pub Apart : ℕ × List Event → ℕ × List Event → Type 0
Apart a b = a.0 ≢ b.0

append_to-Mem :
    (t u : ℕ) (e : Event) (us : List Event) (gs : Groups)
    → Mem (u, us) (append_to t e gs)
    → t ≢ u
    → Mem (u, us) gs
unfolding append_to
append_to-Mem t u e us [] m n =
    Or.elim (Mem-prop) (mem-cons.0 m) (λ q. absurd (n (sym (ap (λ x. x.0) q)))) (λ m'. m')
append_to-Mem t u e us ((v, vs) ∷ gs) m n = elim (Bool-cases (v == t)) [
  | inl f ↦
      Or.elim (Mem-prop) (mem-cons.0 (rw f at m))
        (λ q. absurd (n (sym ((==_iff v t).0 f) ∙ sym (ap (λ x. x.0) q))))
        (λ m'. mem-cons_of_mem _ m')
  | inr f ↦
      Or.elim (Mem-prop) (mem-cons.0 (rw f at m)) (λ q. rw (← q) mem-cons_self)
        (λ m'. mem-cons_of_mem _ (append_to-Mem t u e us gs m' n))
]

append_to-Apart :
    (t : ℕ) (e : Event) (gs : Groups) → Pairwise Apart gs → Pairwise Apart (append_to t e gs)
unfolding append_to
append_to-Apart t e [] a = Pairwise.cons (λ b m. absurd (not-mem-nil m)) Pairwise.nil
append_to-Apart t e ((v, vs) ∷ gs) a = elim (Bool-cases (v == t)) [
  | inl f ↦ rw f (Pairwise.cons (λ b m. (Pairwise-cons.0 a).0 b m) (Pairwise-cons.0 a).1)
  | inr f ↦ rw f (
      Pairwise.cons
        (λ b m same.
          (Pairwise-cons.0 a).0 b (append_to-Mem t b.0 e b.1 gs m (λ q. differ f (same ∙ sym q)))
            same)
        (append_to-Apart t e gs (Pairwise-cons.0 a).1))
]
  where
    differ : v == t ≡ false → v ≡ t → ⊥
    differ f q = absurd (ground (arith, f, (==_iff v t).1 q))

find :
    (s : ℕ) (gs : Groups)
    → ((es : List Event) × Mem (s, es) gs) ⊎ ((es : List Event) → Mem (s, es) gs → ⊥)
find s [] = inr (λ es m. not-mem-nil m)
find s ((t, es) ∷ gs) = elim (Bool-cases (t == s)) [
  | inl f ↦ inl (es, subst (λ u. Mem (u, es) ((t, es) ∷ gs)) ((==_iff t s).0 f) mem-cons_self)
  | inr f ↦ elim (find s gs) [
    | inl (us, m) ↦ inl (us, mem-cons_of_mem _ m)
    | inr none_here ↦ inr (λ us m.
        Or.elim (hlevel) (mem-cons.0 m)
          (λ q. absurd (ground (arith, f, ap (λ x. x.0) q, ==_refl s))) (λ m'. none_here us m'))
  ]
]

written_to-nothing :
    (s : ℕ) (gs : Groups) → ((es : List Event) → Mem (s, es) gs → ⊥) → written_to s gs ≡ []
written_to-nothing s [] n = refl
written_to-nothing s ((t, es) ∷ gs) n = elim (Bool-cases (t == s)) [
  | inl f ↦ absurd (n es (subst (λ u. Mem (u, es) ((t, es) ∷ gs)) ((==_iff t s).0 f) mem-cons_self))
  | inr f ↦ rw f (written_to-nothing s gs (λ us m. n us (mem-cons_of_mem _ m)))
]

written_to-rest :
    (s : ℕ) (es : List Event) (gs : Groups) → Pairwise Apart ((s, es) ∷ gs) → written_to s gs ≡ []
written_to-rest s es gs a = written_to-nothing s gs (λ us m. (Pairwise-cons.0 a).0 (s, us) m refl)

written_to-Mem :
    (s : ℕ) (es : List Event) (gs : Groups)
    → Pairwise Apart gs
    → Mem (s, es) gs
    → written_to s gs ≡ es
written_to-Mem s es [] a m = absurd (not-mem-nil m)
written_to-Mem s es ((t, us) ∷ gs) a m = elim (Bool-cases (t == s)) [
  | inl f ↦
      let same : t ≡ s = (==_iff t s).0 f in
      let alone : written_to s gs ≡ [] =
        written_to-rest s us gs (subst (λ v. Pairwise Apart ((v, us) ∷ gs)) same a) in
      Or.elim (hlevel) (mem-cons.0 m) (λ q. rw (f, alone) (append-nil us ∙ sym (ap (λ x. x.1) q)))
        (λ m'. absurd ((Pairwise-cons.0 a).0 (s, es) m' same))
  | inr f ↦
      Or.elim (hlevel) (mem-cons.0 m) (λ q. absurd (ground (arith, f, ap (λ x. x.0) q, ==_refl s)))
        (λ m'. rw f (written_to-Mem s es gs (Pairwise-cons.0 a).1 m'))
]

-- What is written to a shard does not depend on the order of the groups.
pub written_to-Perm :
    (s : ℕ) (gs hs : Groups) → Pairwise Apart hs → Perm gs hs → written_to s gs ≡ written_to s hs
written_to-Perm s gs hs a p =
    let a' : Pairwise Apart gs =
      Perm.pairwise {R = Apart} (λ x y. hlevel) (λ x y n q. n (sym q)) (Perm.symm p) a in
    elim (find s hs) [
      | inl (es, m) ↦
          written_to-Mem s es gs a' ((Perm.mem_iff p).1 m) ∙ sym (written_to-Mem s es hs a m)
      | inr n ↦
          written_to-nothing s gs (λ es m. n es ((Perm.mem_iff p).0 m))
          ∙ sym (written_to-nothing s hs n)
    ]

written_to-append_to :
    (s t : ℕ) (e : Event) (gs : Groups)
    → Pairwise Apart gs
    → written_to s (append_to t e gs) ≡ written_to s gs ++ (if t == s then e ∷ [] else [])
unfolding append_to
written_to-append_to s t e [] a = ground (arith)
written_to-append_to s t e ((u, es) ∷ gs) a = elim (Bool-cases (u == t)) [
  | inr f ↦ elim (Bool-cases (u == s)) [
    | inl g ↦
        rw (f, g)
          (ap (λ l. es ++ l) (written_to-append_to s t e gs (Pairwise-cons.0 a).1)
            ∙ sym (append_assoc es (written_to s gs) (if t == s then e ∷ [] else [])))
    | inr g ↦ rw (f, g) (written_to-append_to s t e gs (Pairwise-cons.0 a).1)
  ]
  | inl f ↦
      let same : u ≡ t = (==_iff u t).0 f in
      elim (Bool-cases (u == s)) [
        | inl g ↦
            let alone : written_to s gs ≡ [] =
              written_to-rest s es gs
                (subst (λ v. Pairwise Apart ((v, es) ∷ gs)) ((==_iff u s).0 g) a) in
            let back : t == s ≡ true = ap (λ v. v == s) (sym same) ∙ g in
            rw (f, g, alone, back)
              (append-nil (es ++ e ∷ []) ∙ ap (λ l. l ++ e ∷ []) (sym (append-nil es)))
        | inr g ↦
            let back : t == s ≡ false = ap (λ v. v == s) (sym same) ∙ g in
            rw (f, g, back) (sym (append-nil (written_to s gs)))
      ]
]

group_events-written :
    (x : Xxhash) (s : ℕ) (ps : List ProtoEvent) (es : List Event) (ks : List Bytes) (gs : Groups)
    → Pairwise Apart gs
    → (written_to s (group_events x ps es ks gs) ≡ written_to s gs ++ events_for x s ps es ks)
      × Pairwise Apart (group_events x ps es ks gs)
unfolding group_events
group_events-written x s (p ∷ ps) (e ∷ es) (k ∷ ks) gs a =
    let shard : ℕ = shard_for x k (p.event_type % 2 ^ 8) in
    let (written, apart) =
      group_events-written x s ps es ks (append_to shard e gs) (append_to-Apart shard e gs a) in
    (
      written ∙ elim (Bool-cases (shard == s)) [
        | inl f ↦
            let step : written_to s (append_to shard e gs) ≡ written_to s gs ++ e ∷ [] =
              rw f at (written_to-append_to s shard e gs a) in
            ap (λ l. l ++ events_for x s ps es ks) step
            ∙ rw f (append_assoc (written_to s gs) (e ∷ []) (events_for x s ps es ks))
        | inr f ↦
            let step : written_to s (append_to shard e gs) ≡ written_to s gs ++ [] =
              rw f at (written_to-append_to s shard e gs a) in
            ap (λ l. l ++ events_for x s ps es ks) (step ∙ append-nil (written_to s gs)) ∙ rw f refl
      ],
      apart,
    )
group_events-written x s ps es ks gs a = (sym (append-nil (written_to s gs)), a)

-- A loop over the groups of a batch, in any order of the map, has one group for each shard at most, and
-- writes to each shard the events that have it, in the order of the batch.
pub group_events_lem :
    (x : Xxhash) (order : MapOrder) (s : ℕ) (ps : List ProtoEvent) (es : List Event)
    (ks : List Bytes)
    → (written_to s (order.iterate (group_events x ps es ks [])) ≡ events_for x s ps es ks)
      × Pairwise Apart (order.iterate (group_events x ps es ks []))
group_events_lem x order s ps es ks =
    let (written, apart) = group_events-written x s ps es ks [] Pairwise.nil in
    let p = order.iterate-perm (group_events x ps es ks []) in
    (
      written_to-Perm s (order.iterate (group_events x ps es ks [])) (group_events x ps es ks [])
            apart p
          ∙ written,
      Perm.pairwise {R = Apart} (λ x y. hlevel) (λ x y n q. n (sym q)) (Perm.symm p) apart,
    )
