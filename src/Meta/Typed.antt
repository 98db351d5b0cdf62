-- ===== src/Meta/Typed.antt =====
-- The writes of internal/meta and the bytes of the keys.
use bbdb.Base.{
  ℕ, ◌<◌, ◌≡◌, sym, ◌∙◌, subst, List, [], ◌∷◌, map, All, some, Result, arith, Bool-cases,
  Result-cases, inl, inr,
}
use bbdb.Base.Bytes.{Bytes, put_be, eq_bytes, eq_bytes→eq}
use bbdb.Base.State.{St, ◌>>=◌, ◌>>◌, pure}
use bbdb.Base.State.Keeps.{Keeps, Keeps-bind}
use bbdb.Kv.{Pebble, View, Mutation, set_key, delete_key, delete_range, apply, apply_all}
use bbdb.Kv.Sorted.{in_range}
use bbdb.Meta.Engine.{committed, commit_batch, set_one}
use bbdb.Meta.Keys.{BlockId, idx_key, wal_key, wal_seq_key}
use bbdb.Meta.Keys.Typed.{
  AreBytes, wal_key-AreBytes, wal_seq_key-AreBytes, block_key-AreBytes, expiry_key-AreBytes,
  idx_key-AreBytes,
}
use bbdb.Meta.Blocks.{BlockMeta}
use bbdb.Meta.Idx.{put_idx_batch}
use bbdb.Meta.Idx.Lookup.{KeysAreBytes}
use bbdb.Meta.Batches.{seal_mutations, seal_batch}
use bbdb.Meta.Wal.{next_of, wal_next_seq, wal_append}

-- A mutation that sets no other key than a byte string.
abbrev SetsBytes : Mutation → Type 0
SetsBytes (set_key k v) = AreBytes k
SetsBytes (delete_key k) = Unit {0}
SetsBytes (delete_range lo hi) = Unit {0}

abbrev ViewIsTyped : View → Type 0
ViewIsTyped f = (q v : Bytes) → f q ≡ some v → AreBytes q

apply-ViewIsTyped :
    (m : Mutation) (f : View) → SetsBytes m → ViewIsTyped f → ViewIsTyped (apply m f)
apply-ViewIsTyped (set_key k x) f b t q v h = elim (Bool-cases (eq_bytes k q)) [
  | inl e ↦ subst AreBytes (eq_bytes→eq k q e) b
  | inr e ↦ t q v (rw e at h)
]
apply-ViewIsTyped (delete_key k) f b t q v h = elim (Bool-cases (eq_bytes k q)) [
  | inl e ↦ absurd (ground (arith, e, h))
  | inr e ↦ t q v (rw e at h)
]
apply-ViewIsTyped (delete_range lo hi) f b t q v h = elim (Bool-cases (in_range lo hi q)) [
  | inl e ↦ absurd (ground (arith, e, h))
  | inr e ↦ t q v (rw e at h)
]

apply_all-ViewIsTyped :
    (ms : List Mutation) (f : View)
    → All SetsBytes ms
    → ViewIsTyped f
    → ViewIsTyped (apply_all ms f)
apply_all-ViewIsTyped [] f b t = t
apply_all-ViewIsTyped (m ∷ ms) f b t =
    apply_all-ViewIsTyped ms (apply m f) b.1 (apply-ViewIsTyped m f b.0 t)

module _ (P : Pebble) where
  open P use {Db, content, commit}

  abbrev pub StayBytes : Db → Db → Type 0
  StayBytes db db' = KeysAreBytes P db → KeysAreBytes P db'

  -- Whatever comes of a step, it keeps the keys byte strings.
  abbrev pub KeepsTyped : {A : Type 0} → St Db A → Type 0
  KeepsTyped m = Keeps StayBytes m

  pub typed_bind :
      {A C : Type 0} (m : St Db A) (f : A → St Db C)
      → KeepsTyped m
      → ((a : A) → KeepsTyped (f a))
      → KeepsTyped (m >>= f)
  typed_bind m f k l = Keeps-bind StayBytes (λ s t. t) (λ s t u a b x. b (a x)) m f k l

  commit_batch-KeepsTyped : (ms : List Mutation) → All SetsBytes ms → KeepsTyped (commit_batch P ms)
  commit_batch-KeepsTyped ms b db t = elim (Result-cases (commit db ms)) [
    | inl (db', e) ↦
        subst (λ (r : Result Db). KeysAreBytes P (committed P db r).1) (sym e)
          (λ q v h.
            apply_all-ViewIsTyped ms (content db) b t q v (sym (P.commit_lem db ms db' e q) ∙ h))
    | inr (x, e) ↦ subst (λ (r : Result Db). KeysAreBytes P (committed P db r).1) (sym e) t
  ]

  pub put_idx_batch-KeepsTyped :
      (event_type : ℕ) (hashes : List ℕ) (id : BlockId)
      → event_type < 256
      → AreBytes id
      → KeepsTyped (put_idx_batch P event_type hashes id)
  unfolding put_idx_batch
  put_idx_batch-KeepsTyped event_type hashes id small b = commit_batch-KeepsTyped _ (sets hashes)
    where
      sets : (hs : List ℕ) → All SetsBytes (map (λ h. set_key (idx_key event_type h id) []) hs)
      sets [] = tt
      sets (h ∷ hs) = (idx_key-AreBytes event_type h id small b, sets hs)

  pub seal_batch-KeepsTyped :
      (shard : ℕ) (id : BlockId) (bm : BlockMeta) (hour : ℕ)
      → AreBytes id
      → KeepsTyped (seal_batch P shard id bm hour)
  unfolding seal_batch seal_mutations
  seal_batch-KeepsTyped shard id bm hour b =
      commit_batch-KeepsTyped (seal_mutations shard id bm hour)
        (tt, (block_key-AreBytes id b, (expiry_key-AreBytes hour id b, tt)))

  pub wal_append-KeepsTyped : (shard : ℕ) (event : Bytes) → KeepsTyped (wal_append P shard event)
  unfolding wal_append wal_next_seq
  wal_append-KeepsTyped shard event =
      typed_bind (wal_next_seq P shard) (λ seq. set_one P (wal_key shard seq) event)
        (typed_bind (λ db. (next_of P db shard, db))
          (λ next. set_one P (wal_seq_key shard) (put_be 8 next) >> pure next) (λ db t. t)
          (λ next.
            typed_bind (set_one P (wal_seq_key shard) (put_be 8 next)) (λ u. pure next)
              (commit_batch-KeepsTyped _ (wal_seq_key-AreBytes shard, tt)) (λ u db t. t)))
        (λ seq. commit_batch-KeepsTyped _ (wal_key-AreBytes shard seq, tt))
