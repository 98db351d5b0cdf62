-- ===== src/Meta/Wal/Log.antt =====
-- The log of a shard as the list of its events, whether or not it is scanned.
use bbdb.Base.{
  ℕ, suc, ◌^◌, ◌<◌, ◌≡◌, refl, sym, ap, ◌∙◌, List, [], ◌∷◌, ◌++◌, true, none, some, if◌then◌else◌,
  ok, arith,
}
use bbdb.Base.Bytes.{Bytes, ltb_bytes}
use bbdb.Kv.{Pebble}
use bbdb.Kv.Sorted.{Entries, lookup, IsSorted, IsSorted-ext, snoc-IsSorted}
use bbdb.Meta.Keys.{wal_key, wal_seq_key}
use bbdb.Meta.Wal.{values, next_from, wal_append, wal_scan}
use bbdb.Meta.Wal.Append.{
  wal_range, LogState, wal_append-Appended, wal_scan-entries, Appended-lookup, append-LogState,
  values-append,
}

module _ (P : Pebble) where
  open P use {Db, content}

  -- The entries of the log, in the order of their keys.
  pub record LogIs (db : Db) (shard : ℕ) (xs : List Bytes) : Type 0 where
    pub entries : Entries
    pub listed : xs ≡ values entries
    pub sorted : IsSorted entries
    pub held : (q : Bytes) → lookup q entries ≡ (if wal_range shard q then content db q else none)

  -- A scan that succeeds reads the log.
  pub LogIs-wal_scan :
      (db : Db) (shard : ℕ) (xs ys : List Bytes)
      → LogIs db shard xs
      → wal_scan P db shard ≡ ok ys
      → ys ≡ xs
  LogIs-wal_scan db shard xs ys log run =
      let (es, ey, s, l) = wal_scan-entries P db shard ys run in
      ey
      ∙ ap values (IsSorted-ext es log.entries s log.sorted (λ q. l q ∙ sym (log.held q)))
      ∙ sym log.listed

  -- An append that succeeds adds its event at the end.
  pub append-LogIs :
      (db db' : Db) (shard n : ℕ) (event : Bytes) (xs : List Bytes)
      → suc shard < 2 ^ 16
      → suc n < 2 ^ 64
      → LogState P db shard n
      → LogIs db shard xs
      → wal_append P shard event db ≡ (ok tt, db')
      → LogIs db' shard (xs ++ event ∷ []) × LogState P db' shard (suc n)
  append-LogIs db db' shard n event xs hs hn st log run =
      let ap' = wal_append-Appended P db db' shard n event st.counter run in
      (
        record {
          entries = log.entries ++ (wal_key shard n, event) ∷ [];
          listed =
              ap (λ l. l ++ event ∷ []) log.listed
              ∙ sym (values-append log.entries (wal_key shard n) event);
          sorted =
              snoc-IsSorted (wal_key shard n) event log.entries log.sorted
                (λ q v e. below q v (sym (log.held q) ∙ e));
          held = λ q. sym (
              Appended-lookup P db db' shard n event log.entries q hs (omega arith) st ap'
                (log.held q));
        },
        append-LogState P db db' shard n event hs hn st ap',
      )
    where
      below :
          (q v : Bytes)
          → (if wal_range shard q then content db q else none) ≡ some v
          → ltb_bytes q (wal_key shard n) ≡ true
      below q v e = ground (arith, st.below q v, e)

  -- A log without entries is empty, and its counter goes on.
  pub emptied-LogIs :
      (db db' : Db) (shard n : ℕ)
      → LogState P db shard n
      → ((q : Bytes) → wal_range shard q ≡ true → content db' q ≡ none)
      → content db' (wal_seq_key shard) ≡ content db (wal_seq_key shard)
      → LogIs db' shard [] × LogState P db' shard n
  emptied-LogIs db db' shard n st gone same = (
    record { entries = []; listed = refl; sorted = tt; held = λ q. nothing q },
    record {
      counter = ap next_from same ∙ st.counter;
      below = λ k v i e. absurd (ground (arith, e, gone k i));
    },
  )
    where
      nothing : (q : Bytes) → none ≡ (if wal_range shard q then content db' q else none)
      nothing q = ground (arith, gone q)
