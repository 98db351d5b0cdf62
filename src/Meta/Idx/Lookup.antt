-- ===== src/Meta/Idx/Lookup.antt =====
-- Which blocks a lookup in the sparse index returns, and what a batch of index entries adds.
use mathlib.Core.List.{Mem, Memᴰ, mem-cons, mem-cons_self, mem-cons_of_mem, not-mem-nil}
use mathlib.Core.Logic.Or
use mathlib.Core.Logic.{∥∥₁_elim}
use bbdb.Base.{
  ℕ, ◌^◌, ◌<◌, ◌≡◌, ◌≢◌, ◌↔◌, refl, sym, ap, ◌∙◌, subst, List, [], ◌∷◌, ◌++◌, map, true, ◌&&◌, none,
  some, ◌==◌, if◌then◌else◌, ok, arith, Bool-cases, inl, inr, Result-cases, Option-cases, All,
  ==_refl,
}
use bbdb.Base.Bytes.{Bytes, IsByte, eq_bytes, eq_bytes_refl, eq_bytes→eq, put_be-get_be, get_be-lt}
use bbdb.Kv.{Pebble, Mutation, set_key, apply_all, View}
use bbdb.Kv.Sorted.{Entries, lookup, in_range, AllKeys, AllKeys-head, AllKeys-tail}
use bbdb.Meta.Engine.{commit_batch-ok}
use bbdb.Meta.Keys.{BlockId, idx_key, idx_key_prefix, idx_key_upper, parse_idx_key}
use bbdb.Meta.Keys.RoundTrip.{parse-idx_key}
use bbdb.Meta.Keys.Order.{in_range-idx_key}
use bbdb.Meta.Idx.{block_ids, idx_lookup_blocks, put_idx_batch}

-- A key that parses is the key of what it parses to.
parse_idx_key_sound :
    (k : Bytes) (et kh : ℕ) (id : BlockId)
    → All IsByte k
    → parse_idx_key k ≡ ok (et, kh, id)
    → (k ≡ idx_key et kh id) × (kh < 2 ^ 64)
unfolding parse_idx_key idx_key eq_bytes
parse_idx_key_sound (a ∷ b ∷ c ∷ d ∷ t ∷ e ∷ f ∷ g ∷ i ∷ j ∷ l ∷ m ∷ n ∷ s ∷ rest) et kh id bs run =
    let hash = e ∷ f ∷ g ∷ i ∷ j ∷ l ∷ m ∷ n ∷ [] in
    let hash_bytes : All IsByte hash = omega (arith, bs) in
    ground (
      arith,
      run,
      put_be-get_be hash hash_bytes,
      get_be-lt hash hash_bytes,
      ap (λ (x : Bytes). x ++ s ∷ rest) (put_be-get_be hash hash_bytes),
    )
parse_idx_key_sound _ et kh id bs run = absurd (ground (arith, run))

-- One event type and key hash, in range.
module _ (et kh : ℕ) (het : et < 2 ^ 8) (hkh : kh < 2 ^ 64) where
  block_ids_complete :
      (es : Entries) (id : BlockId) (v : Bytes)
      → lookup (idx_key et kh id) es ≡ some v
      → Mem id (block_ids es)
  unfolding block_ids
  block_ids_complete [] id v e = absurd (ground (arith, e))
  block_ids_complete ((k, w) ∷ es) id v e = elim (Bool-cases (eq_bytes k (idx_key et kh id))) [
    | inl t ↦
        let parsed : parse_idx_key k ≡ ok (et, kh, id) =
          subst (λ x. parse_idx_key x ≡ ok (et, kh, id)) (sym (eq_bytes→eq k (idx_key et kh id) t))
            (parse-idx_key et kh id het hkh) in
        rw (parsed, block_ids) mem-cons_self
    | inr f ↦
        let rest = block_ids_complete es id v (rw f at e) in
        elim (Result-cases (parse_idx_key k)) [
          | inl (x, parsed) ↦ rw (parsed, block_ids) (mem-cons_of_mem x.2 rest)
          | inr (x, parsed) ↦ rw (parsed, block_ids) rest
        ]
  ]

  -- The list holds the key of this event type, key hash and block.
  Held : Entries → BlockId → Type 0
  Held es id = lookup (idx_key et kh id) es ≢ none

  Held-prop : (es : Entries) (id : BlockId) → IsProp (Held es id)
  unfolding Held
  Held-prop es id = hlevel

  Held-cons : (k w : Bytes) (es : Entries) (id : BlockId) → Held es id → Held ((k, w) ∷ es) id
  unfolding Held
  Held-cons k w es id h = elim (Bool-cases (eq_bytes k (idx_key et kh id))) [
    | inl t ↦ λ e. absurd (ground (arith, t, e))
    | inr f ↦ λ e. h (rw f at e)
  ]

  -- Keys of the range of (et, kh) only.
  InPrefix : Bytes → Type 0
  InPrefix q = All IsByte q × (in_range (idx_key_prefix et kh) (idx_key_upper et kh) q ≡ true)

  Held-head :
      (k w : Bytes) (es : Entries) (et' kh' : ℕ) (id id' : BlockId)
      → InPrefix k
      → parse_idx_key k ≡ ok (et', kh', id')
      → id ≡ id'
      → Held ((k, w) ∷ es) id
  unfolding Held InPrefix
  Held-head k w es et' kh' id id' here parsed e missing =
      let (same, fits) = parse_idx_key_sound k et' kh' id' here.0 parsed in
      let both : (et' == et && kh' == kh) ≡ true =
        sym (in_range-idx_key et kh et' kh' id' hkh fits)
        ∙ ap (in_range (idx_key_prefix et kh) (idx_key_upper et kh)) (sym same)
        ∙ here.1 in
      let et_same : et' ≡ et = ground (arith, both) in
      let kh_same : kh' ≡ kh = ground (arith, both) in
      let key : idx_key et kh id ≡ k =
        ap (idx_key et kh) e
        ∙ ap (λ x. idx_key x kh id') (sym et_same)
        ∙ ap (λ x. idx_key et' x id') (sym kh_same)
        ∙ sym same in
      absurd (ground (arith, missing, ap (λ q. lookup q ((k, w) ∷ es)) key, eq_bytes_refl k))

  block_ids_sound :
      (es : Entries) (id : BlockId) → AllKeys InPrefix es → Mem id (block_ids es) → Held es id
  unfolding block_ids
  block_ids_sound [] id bs m = absurd (not-mem-nil m)
  block_ids_sound ((k, w) ∷ es) id bs m =
      let tail = λ (m' : Mem id (block_ids es)).
        Held-cons k w es id (block_ids_sound es id (AllKeys-tail InPrefix k w es bs) m') in
      elim (Result-cases (parse_idx_key k)) [
        | inr (y, parsed) ↦ tail (rw (parsed, block_ids) at m)
        | inl (y, parsed) ↦
            let m' : Mem id (y.2 ∷ block_ids es) = rw (parsed, block_ids) at m in
            Or.elim (Held-prop ((k, w) ∷ es) id) (mem-cons.0 m')
              (Held-head k w es y.0 y.1 id y.2 (AllKeys-head InPrefix k w es bs) parsed) tail
      ]

-- The entries that a batch sets.
abbrev entries_of : ℕ → BlockId → List ℕ → List Mutation
entries_of et id hs = map (λ h. set_key (idx_key et h id) []) hs

-- An index key that is there stays there.
batch_keeps :
    (et h : ℕ) (id j : BlockId) (hs : List ℕ) (f : View)
    → f (idx_key et h j) ≢ none
    → apply_all (entries_of et id hs) f (idx_key et h j) ≢ none
batch_keeps et h id j [] f e = e
batch_keeps et h id j (x ∷ hs) f e = batch_keeps et h id j hs _ (step (idx_key et x id))
  where
    step :
        (k : Bytes) → (if eq_bytes k (idx_key et h j) then some [] else f (idx_key et h j)) ≢ none
    step k m = elim (Bool-cases (eq_bytes k (idx_key et h j))) [
      | inl t ↦ ground (arith, t, m)
      | inr g ↦ e (rw g at m)
    ]

batch_adds :
    (et h : ℕ) (id : BlockId) (hs : List ℕ) (f : View)
    → Memᴰ h hs
    → apply_all (entries_of et id hs) f (idx_key et h id) ≢ none
batch_adds et h id [] f m = elim m [ ]
batch_adds et h id (x ∷ hs) f (Memᴰ.head e) = batch_keeps et h id id hs _ added
  where
    added :
        (if eq_bytes (idx_key et x id) (idx_key et h id) then some [] else f (idx_key et h id))
        ≢ none
    added m = ground (
      arith,
      m,
      ap (λ y. eq_bytes (idx_key et y id) (idx_key et h id)) e,
      eq_bytes_refl (idx_key et h id),
    )
batch_adds et h id (x ∷ hs) f (Memᴰ.tail m) = batch_adds et h id hs _ m

-- What the batch does not set has the value it had.
batch_else :
    (et : ℕ) (id : BlockId) (hs : List ℕ) (f : View) (q : Bytes)
    → ((h : ℕ) → q ≢ idx_key et h id)
    → apply_all (entries_of et id hs) f q ≡ f q
batch_else et id [] f q other = refl
batch_else et id (x ∷ hs) f q other =
    batch_else et id hs _ q other ∙ elim (Bool-cases (eq_bytes (idx_key et x id) q)) [
      | inl t ↦ absurd (other x (sym (eq_bytes→eq (idx_key et x id) q t)))
      | inr g ↦ rw g
    ]

module _ (P : Pebble) where
  open P use {Db, content, scan}

  abbrev pub KeysAreBytes : Db → Type 0
  KeysAreBytes db = (q v : Bytes) → content db q ≡ some v → All IsByte q

  -- A lookup that succeeds returns exactly the blocks that have an index key for the event type and
  -- the key hash. The keys of the database are bytes.
  pub idx_lookup_blocks_lem :
      (db : Db) (et kh : ℕ) (id : BlockId) (ids : List BlockId)
      → et < 2 ^ 8
      → kh < 2 ^ 64
      → KeysAreBytes db
      → idx_lookup_blocks P db et kh ≡ ok ids
      → Mem id ids ↔ (content db (idx_key et kh id) ≢ none)
  unfolding idx_lookup_blocks Held InPrefix
  idx_lookup_blocks_lem db et kh id ids het hkh bytes run =
      elim (Result-cases (scan db (idx_key_prefix et kh) (idx_key_upper et kh))) [
        | inr (x, e) ↦ absurd (ground (arith, e, run))
        | inl (es, e) ↦
            let same : ids ≡ block_ids es = ground (arith, e, run) in
            (
              λ m missing.
                  block_ids_sound et kh het hkh es id
                    (λ q v l. (
                      bytes q v (ground (arith, l, P.scan_lem db _ _ es e q)),
                      ground (arith, l, P.scan_lem db _ _ es e q),
                    ))
                    (rw same at m) (scan_missing es e missing),
              λ held. elim (Option-cases (content db (idx_key et kh id))) [
                | inl missing ↦ absurd (held missing)
                | inr (v, there) ↦
                    rw same (block_ids_complete et kh het hkh es id v (scan_there es e v there))
              ],
            )
      ]
    where
      scan_missing :
          (es : Entries)
          → scan db (idx_key_prefix et kh) (idx_key_upper et kh) ≡ ok es
          → content db (idx_key et kh id) ≡ none
          → lookup (idx_key et kh id) es ≡ none
      scan_missing es e m = ground (arith, m, P.scan_lem db _ _ es e (idx_key et kh id))

      scan_there :
          (es : Entries)
          → scan db (idx_key_prefix et kh) (idx_key_upper et kh) ≡ ok es
          → (v : Bytes) → content db (idx_key et kh id) ≡ some v
          → lookup (idx_key et kh id) es ≡ some v
      scan_there es e v m = ground (
        arith,
        m,
        P.scan_lem db _ _ es e (idx_key et kh id),
        in_range-idx_key et kh et kh id hkh hkh,
        ==_refl et,
        ==_refl kh,
      )

  -- A batch that is committed makes its block an entry of every key hash in it, keeps every entry
  -- that the index had, and sets no key but its own.
  pub put_idx_batch_lem :
      (db db' : Db) (et h : ℕ) (hs : List ℕ) (id j : BlockId)
      → put_idx_batch P et hs id db ≡ (ok tt, db')
      → (Mem h hs → content db' (idx_key et h id) ≢ none)
        × (content db (idx_key et h j) ≢ none → content db' (idx_key et h j) ≢ none)
        × ((q : Bytes) → ((k : ℕ) → q ≢ idx_key et k id) → content db' q ≡ content db q)
  unfolding put_idx_batch
  put_idx_batch_lem db db' et h hs id j run =
      let after = commit_batch-ok P db db' (entries_of et id hs) run in
      (
        λ m.
            ∥∥₁_elim m (hlevel)
              (λ d e. batch_adds et h id hs (content db) d (sym (after (idx_key et h id)) ∙ e)),
        λ held e. batch_keeps et h id j hs (content db) held (sym (after (idx_key et h j)) ∙ e),
        λ q other. after q ∙ batch_else et id hs (content db) q other,
      )
