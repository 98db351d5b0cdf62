-- ===== src/Meta/Batches/Effects.antt =====
-- What the two batches leave behind.
use bbdb.Base.{
  ℕ, suc, ==_refl, ◌+◌, ◌%◌, ◌^◌, ◌<◌, ◌≡◌, ◌≢◌, refl, sym, ap, ◌∙◌, subst, List, [], true, false,
  none, some, if◌then◌else◌, ok, arith, Bool-cases, inl, inr, Result-cases,
}
use bbdb.Base.Bytes.{
  Bytes, eq_bytes, eq_bytes_refl, eq_bytes→eq, ltb_bytes, ltb_bytes_trans, ltb_bytes_total,
}
use native.Mathlib.Decide.{dec_lt}
use bbdb.Kv.{Pebble}
use bbdb.Kv.Sorted.{IsSorted-ext}
use bbdb.Meta.Engine.{commit_batch-ok}
use bbdb.Meta.Keys.{BlockId, block_key, expiry_key, wal_key, wal_key_start, wal_key_end}
use bbdb.Meta.Keys.Order.{ltb_bytes-wal_key, in_range-wal_key}
use bbdb.Meta.Wal.{wal_scan, values}
use bbdb.Meta.Wal.Append.{wal_scan-unchanged, wal_range}
use bbdb.Meta.Blocks.{BlockMeta, encode_block_meta}
use bbdb.Meta.Batches.{seal_batch, delete_block_and_expiry}

pub wal_range-block_key : (s : ℕ) (id : BlockId) → wal_range s (block_key id) ≡ false
unfolding wal_key_start wal_key block_key ltb_bytes
wal_range-block_key s id = ground arith

pub wal_range-expiry_key : (s h : ℕ) (id : BlockId) → wal_range s (expiry_key h id) ≡ false
unfolding wal_key_start wal_key expiry_key ltb_bytes
wal_range-expiry_key s h id = ground arith

block_key-ne-expiry_key :
    (id j : BlockId) (h : ℕ) → eq_bytes (block_key id) (expiry_key h j) ≡ false
unfolding block_key expiry_key eq_bytes
block_key-ne-expiry_key id j h = refl

pub expiry_key-ne-block_key :
    (id j : BlockId) (h : ℕ) → eq_bytes (expiry_key h j) (block_key id) ≡ false
unfolding block_key expiry_key eq_bytes
expiry_key-ne-block_key id j h = refl

pub expiry_key-ne-wal_key :
    (s i h : ℕ) (id : BlockId) → eq_bytes (expiry_key h id) (wal_key s i) ≡ false
unfolding wal_key expiry_key eq_bytes
expiry_key-ne-wal_key s i h id = refl

pub block_key-ne-wal_key : (s i : ℕ) (id : BlockId) → eq_bytes (block_key id) (wal_key s i) ≡ false
unfolding wal_key block_key eq_bytes
block_key-ne-wal_key s i id = refl

-- The range of the last shard ends before it starts.
pub wal_range_last : (q : Bytes) → wal_range 65535 q ≡ false
unfolding wal_key_start wal_key_end
wal_range_last q = elim (Bool-cases (ltb_bytes q (wal_key 0 0))) [
  | inr f ↦ ground (arith, f)
  | inl t ↦
      let order : ltb_bytes (wal_key 0 0) (wal_key 65535 0) ≡ true =
        ltb_bytes-wal_key 0 65535 0 0 (omega arith) (omega arith) (omega arith) (omega arith) in
      ground (arith, t, ltb_bytes_trans q (wal_key 0 0) (wal_key 65535 0) t order)
]

-- A key below the end of one log is below the start of any later log.
wal_range-lt :
    (s t : ℕ) (q : Bytes)
    → s < t
    → t < 2 ^ 16
    → ltb_bytes q (wal_key_end s) ≡ true
    → ltb_bytes q (wal_key_start t) ≡ true
unfolding wal_key_start wal_key_end
wal_range-lt s t q h ht below =
    let order =
      ltb_bytes-wal_key ((s + 1) % 2 ^ 16) t 0 0 (omega arith) ht (omega arith) (omega arith) in
    elim (ltb_bytes_total (wal_key ((s + 1) % 2 ^ 16) 0) (wal_key t 0)) [
      | inl lt ↦ ltb_bytes_trans q (wal_key ((s + 1) % 2 ^ 16) 0) (wal_key t 0) below lt
      | inr (inl e) ↦ subst (λ k. ltb_bytes q k ≡ true) e below
      | inr (inr gt) ↦ absurd (
          ground (
            arith,
            gt,
            ltb_bytes-wal_key t ((s + 1) % 2 ^ 16) 0 0 ht (omega arith) (omega arith) (omega arith),
          ))
    ]

-- The logs of two shards share no key.
wal_range-apart :
    (s t : ℕ) (q : Bytes)
    → s ≢ t
    → s < 2 ^ 16
    → t < 2 ^ 16
    → wal_range s q ≡ true
    → wal_range t q ≡ false
wal_range-apart s t q ne hs ht i = elim (dec_lt s t) [
  | yes lt ↦ ground (arith, i, wal_range-lt s t q lt ht)
  | no ge ↦ elim (Bool-cases (wal_range t q)) [
    | inr f ↦ f
    | inl both ↦ absurd (ground (arith, i, both, wal_range-lt t s q (omega arith) hs))
  ]
]

module _ (P : Pebble) where
  open P use {Db, content, scan}

  -- A scan of an emptied range reads nothing.
  wal_scan-empty :
      (db : Db) (shard : ℕ) (xs : List Bytes)
      → ((q : Bytes) → wal_range shard q ≡ true → content db q ≡ none)
      → wal_scan P db shard ≡ ok xs
      → xs ≡ []
  unfolding wal_scan
  wal_scan-empty db shard xs gone run =
      elim (Result-cases (scan db (wal_key_start shard) (wal_key_end shard))) [
        | inr (x, e) ↦ absurd (ground (arith, e, run))
        | inl (es, e) ↦
            let none_left : es ≡ [] =
              IsSorted-ext es [] (P.scan-IsSorted db _ _ es e) tt
                (λ q. P.scan_lem db _ _ es e q ∙ nothing q) in
            ground (arith, e, run, ap values none_left)
      ]
    where
      nothing : (q : Bytes) → (if wal_range shard q then content db q else none) ≡ none
      nothing q = ground (arith, gone q)

  module _ (db db' : Db) (shard hour : ℕ) (id : BlockId) (bm : BlockMeta)
      (run : seal_batch P shard id bm hour db ≡ (ok tt, db')) where
    pub seal_batch-content :
        (q : Bytes)
        → content db' q ≡ (
            if eq_bytes (expiry_key hour id) q
            then some []
            else if eq_bytes (block_key id) q
            then some (encode_block_meta bm)
            else if wal_range shard q
            then none
            else content db q)
    unfolding seal_batch
    seal_batch-content q = commit_batch-ok P db db' _ run q

    -- A seal that is committed for a shard below 65535 holds the block's metadata and its expiry key, and
    -- empties the log of the shard: no entry is left under any sequence number, and a scan of the log finds
    -- none. The log of another shard reads as before, and a key outside the log's range that is neither of the
    -- two has the value it had.
    pub seal_batch_lem :
        (other : ℕ) (xs ys zs : List Bytes)
        → wal_scan P db' shard ≡ ok xs
        → wal_scan P db other ≡ ok ys
        → wal_scan P db' other ≡ ok zs
        → other ≢ shard
        → other < 2 ^ 16
        → suc shard < 2 ^ 16
        → (content db' (block_key id) ≡ some (encode_block_meta bm))
          × (content db' (expiry_key hour id) ≡ some [])
          × ((seq : ℕ) → seq < 2 ^ 64 → content db' (wal_key shard seq) ≡ none)
          × (xs ≡ [])
          × (zs ≡ ys)
          × ((q : Bytes)
              → q ≢ block_key id
              → q ≢ expiry_key hour id
              → wal_range shard q ≡ false
              → content db' q ≡ content db q)
    seal_batch_lem other xs ys zs r₁ r₂ r₃ ne ho hs = (
      ground (
        arith,
        seal_batch-content (block_key id),
        expiry_key-ne-block_key id id hour,
        eq_bytes_refl (block_key id),
      ),
      ground (arith, seal_batch-content (expiry_key hour id), eq_bytes_refl (expiry_key hour id)),
      λ seq h.
          gone (wal_key shard seq)
            (ground (arith, in_range-wal_key shard shard seq hs (omega arith) h, ==_refl shard)),
      wal_scan-empty db' shard xs gone r₁,
      wal_scan-unchanged P db db' other ys zs kept r₂ r₃,
      rest,
    )
      where
        in_log :
            (s : ℕ) (q : Bytes) → wal_range s q ≡ true → eq_bytes (expiry_key hour id) q ≡ false
        in_log s q i = elim (Bool-cases (eq_bytes (expiry_key hour id) q)) [
          | inr f ↦ f
          | inl t ↦ absurd (
              ground (
                arith,
                i,
                ap (wal_range s) (eq_bytes→eq (expiry_key hour id) q t),
                wal_range-expiry_key s hour id,
              ))
        ]

        in_log' : (s : ℕ) (q : Bytes) → wal_range s q ≡ true → eq_bytes (block_key id) q ≡ false
        in_log' s q i = elim (Bool-cases (eq_bytes (block_key id) q)) [
          | inr f ↦ f
          | inl t ↦ absurd (
              ground (
                arith,
                i,
                ap (wal_range s) (eq_bytes→eq (block_key id) q t),
                wal_range-block_key s id,
              ))
        ]

        gone : (q : Bytes) → wal_range shard q ≡ true → content db' q ≡ none
        gone q i = ground (arith, i, in_log shard q i, in_log' shard q i, seal_batch-content q)

        kept : (q : Bytes) → wal_range other q ≡ true → content db' q ≡ content db q
        kept q i = ground (
          arith,
          in_log other q i,
          in_log' other q i,
          wal_range-apart other shard q ne ho (omega arith) i,
          seal_batch-content q,
        )

        rest :
            (q : Bytes)
            → q ≢ block_key id
            → q ≢ expiry_key hour id
            → wal_range shard q ≡ false
            → content db' q ≡ content db q
        rest q nb ne f = elim (Bool-cases (eq_bytes (expiry_key hour id) q)) [
          | inl t ↦ absurd (ne (sym (eq_bytes→eq (expiry_key hour id) q t)))
          | inr g ↦ elim (Bool-cases (eq_bytes (block_key id) q)) [
            | inl t ↦ absurd (nb (sym (eq_bytes→eq (block_key id) q t)))
            | inr k ↦ ground (arith, f, g, k, seal_batch-content q)
          ]
        ]

  -- Shard 65535 (event type 255, bucket 255) has a log that no scan reads and no seal empties: every
  -- entry is still there after its block was sealed.
  pub last_shard_log :
      (db db' : Db) (hour i : ℕ) (id : BlockId) (bm : BlockMeta) (xs : List Bytes)
      → wal_scan P db 65535 ≡ ok xs
      → seal_batch P 65535 id bm hour db ≡ (ok tt, db')
      → (xs ≡ []) × (content db' (wal_key 65535 i) ≡ content db (wal_key 65535 i))
  last_shard_log db db' hour i id bm xs r run = (
    wal_scan-empty db 65535 xs (λ q t. absurd (ground (arith, t, wal_range_last q))) r,
    ground (
      arith,
      seal_batch-content db db' 65535 hour id bm run (wal_key 65535 i),
      expiry_key-ne-wal_key 65535 i hour id,
      block_key-ne-wal_key 65535 i id,
      wal_range_last (wal_key 65535 i),
    ),
  )

  -- The batch of the TTL removes the metadata and the expiry key of its block, and nothing else.
  pub delete_block_and_expiry_lem :
      (db db' : Db) (hour : ℕ) (id : BlockId)
      → delete_block_and_expiry P hour id db ≡ (ok tt, db')
      → (content db' (block_key id) ≡ none)
        × (content db' (expiry_key hour id) ≡ none)
        × ((q : Bytes) → q ≢ block_key id → q ≢ expiry_key hour id → content db' q ≡ content db q)
  unfolding delete_block_and_expiry
  delete_block_and_expiry_lem db db' hour id run = (
    ground (arith, commit_batch-ok P db db' _ run (block_key id), eq_bytes_refl (block_key id)),
    ground (
      arith,
      commit_batch-ok P db db' _ run (expiry_key hour id),
      eq_bytes_refl (expiry_key hour id),
    ),
    λ q nb ne. elim (Bool-cases (eq_bytes (expiry_key hour id) q)) [
      | inl t ↦ absurd (ne (sym (eq_bytes→eq (expiry_key hour id) q t)))
      | inr g ↦ elim (Bool-cases (eq_bytes (block_key id) q)) [
        | inl t ↦ absurd (nb (sym (eq_bytes→eq (block_key id) q t)))
        | inr k ↦ ground (arith, g, k, commit_batch-ok P db db' _ run q)
      ]
    ],
  )
