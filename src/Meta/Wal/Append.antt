-- ===== src/Meta/Wal/Append.antt =====
-- What an append does to the write-ahead log of its shard, and to the others.
use bbdb.Base.{
  ℕ, suc, ◌+◌, ◌%◌, ◌^◌, ◌<◌, ◌≡◌, refl, sym, ap, ◌∙◌, subst, inl, inr, List, [], ◌∷◌, ◌++◌, Bool,
  true, false, none, some, if◌then◌else◌, ok, arith, Result-cases, Bool-cases, Option-cases,
}
use native.Mathlib.Nat.{mod-eq_of_lt}
use native.Mathlib.Numerals.{add-one}
use bbdb.Base.Bytes.{
  Bytes, put_be, ltb_bytes, eq_bytes, eq_bytes→eq, eq_bytes_refl, get_be-put_be, ltb_bytes_irrefl,
  ltb_bytes_trans,
}
use bbdb.Kv.{Pebble, set_key}
use bbdb.Kv.Sorted.{Entries, lookup, in_range, IsSorted, IsSorted-ext, lookup-append, snoc-IsSorted}
use bbdb.Meta.Keys.{wal_key, wal_key_start, wal_key_end, wal_seq_key}
use bbdb.Meta.Keys.Order.{ltb_bytes-wal_key, in_range-wal_key}
use bbdb.Meta.Wal.{values, seq_after, next_from, wal_append, wal_scan}

abbrev pub wal_range : ℕ → Bytes → Bool
wal_range shard = in_range (wal_key_start shard) (wal_key_end shard)

pub wal_range-seq_key : (s t : ℕ) → wal_range s (wal_seq_key t) ≡ false
unfolding wal_key_start wal_key wal_seq_key ltb_bytes
wal_range-seq_key s t = ground arith

wal_key-ne-seq_key : (s n t : ℕ) → eq_bytes (wal_key s n) (wal_seq_key t) ≡ false
unfolding wal_key wal_seq_key eq_bytes
wal_key-ne-seq_key s n t = refl

pub values-append : (es : Entries) (k v : Bytes) → values (es ++ (k, v) ∷ []) ≡ values es ++ v ∷ []
values-append [] k v = refl
values-append ((l, w) ∷ es) k v = ap (◌∷◌ w) (values-append es k v)

seq_after-put_be : (n : ℕ) → n < 2 ^ 64 → seq_after (put_be 8 n) ≡ ok ((n + 1) % 2 ^ 64)
unfolding put_be
seq_after-put_be n h = ground (arith, get_be-put_be 8 n h)

module _ (P : Pebble) where
  open P use {Db, content, scan, commit}

  -- The counter of the shard gives `n` next, and every key of its log is below the key of `n`.
  pub record LogState (db : Db) (shard n : ℕ) : Type 0 where
    pub counter : next_from (content db (wal_seq_key shard)) ≡ ok n
    pub below :
        (k v : Bytes)
        → wal_range shard k ≡ true
        → content db k ≡ some v
        → ltb_bytes k (wal_key shard n) ≡ true

  -- What the two writes of a successful append leave.
  abbrev pub Appended : Db → Db → ℕ → ℕ → Bytes → Type 0
  Appended db db' shard n event =
      (q : Bytes)
      → content db' q ≡ (
          if eq_bytes (wal_key shard n) q
          then some event
          else if eq_bytes (wal_seq_key shard) q
          then some (put_be 8 n)
          else content db q)

  pub wal_append-Appended :
      (db db' : Db) (shard n : ℕ) (event : Bytes)
      → next_from (content db (wal_seq_key shard)) ≡ ok n
      → wal_append P shard event db ≡ (ok tt, db')
      → Appended db db' shard n event
  unfolding wal_append
  wal_append-Appended db db' shard n event counter run q =
      elim (Result-cases (P.get db (wal_seq_key shard))) [
        | inr (x, e) ↦ absurd (ground (arith, e, run))
        | inl (o, e) ↦
            let same : o ≡ content db (wal_seq_key shard) = P.get_lem db (wal_seq_key shard) o e in
            elim (Result-cases (commit db (set_key (wal_seq_key shard) (put_be 8 n) ∷ []))) [
              | inr (x, e₁) ↦ absurd (ground (arith, e, same, counter, e₁, run))
              | inl (db₁, e₁) ↦
                  elim (Result-cases (commit db₁ (set_key (wal_key shard n) event ∷ []))) [
                    | inr (x, e₂) ↦ absurd (ground (arith, e, same, counter, e₁, e₂, run))
                    | inl (db₂, e₂) ↦ ground (
                      arith,
                      e,
                      same,
                      counter,
                      e₁,
                      e₂,
                      run,
                      P.commit_lem db _ db₁ e₁ q,
                      P.commit_lem db₁ _ db₂ e₂ q,
                    )
                  ]
            ]
      ]

  -- A scan that succeeds has entries as the engine holds them.
  pub wal_scan-entries :
      (db : Db) (shard : ℕ) (xs : List Bytes)
      → wal_scan P db shard ≡ ok xs
      → (es : Entries) × (xs ≡ values es)
        × IsSorted es
        × ((q : Bytes) → lookup q es ≡ (if wal_range shard q then content db q else none))
  unfolding wal_scan
  wal_scan-entries db shard xs run =
      elim (Result-cases (scan db (wal_key_start shard) (wal_key_end shard))) [
        | inr (x, e) ↦ absurd (ground (arith, e, run))
        | inl (es, e) ↦
            (es, ground (arith, e, run), P.scan-IsSorted db _ _ es e, P.scan_lem db _ _ es e)
      ]

  -- The log of a shard that an operation leaves alone reads as before.
  pub wal_scan-unchanged :
      (db db' : Db) (shard : ℕ) (xs ys : List Bytes)
      → ((q : Bytes) → wal_range shard q ≡ true → content db' q ≡ content db q)
      → wal_scan P db shard ≡ ok xs
      → wal_scan P db' shard ≡ ok ys
      → ys ≡ xs
  wal_scan-unchanged db db' shard xs ys same r r' =
      let (es, ex, s, l) = wal_scan-entries db shard xs r in
      let (fs, ey, t, m) = wal_scan-entries db' shard ys r' in
      ey ∙ ap values (IsSorted-ext fs es t s (λ q. m q ∙ agree q ∙ sym (l q))) ∙ sym ex
    where
      agree :
          (q : Bytes)
          → (if wal_range shard q then content db' q else none)
            ≡ (if wal_range shard q then content db q else none)
      agree q = ground (arith, same q)

  pub Appended-lookup :
      (db db' : Db) (shard n : ℕ) (event : Bytes) (es : Entries) (q : Bytes)
      → suc shard < 2 ^ 16
      → n < 2 ^ 64
      → LogState db shard n
      → Appended db db' shard n event
      → lookup q es ≡ (if wal_range shard q then content db q else none)
      → (if wal_range shard q then content db' q else none)
        ≡ lookup q (es ++ (wal_key shard n, event) ∷ [])
  Appended-lookup db db' shard n event es q hs hn st ap' l =
      elim (Bool-cases (eq_bytes (wal_key shard n) q)) [
        | inl t ↦ elim (Option-cases (content db q)) [
          | inl e ↦ ground (
            arith,
            t,
            e,
            l,
            ap' q,
            lookup-append q es ((wal_key shard n, event) ∷ []),
            ap (wal_range shard) (eq_bytes→eq (wal_key shard n) q t),
            in_range-wal_key shard shard n hs (omega arith) hn,
          )
          | inr (v, e) ↦ absurd (
              ground (
                arith,
                ap (wal_range shard) (eq_bytes→eq (wal_key shard n) q t),
                in_range-wal_key shard shard n hs (omega arith) hn,
                st.below q v,
                e,
                ap (λ k. ltb_bytes k (wal_key shard n)) (eq_bytes→eq (wal_key shard n) q t),
                ltb_bytes_irrefl (wal_key shard n),
              ))
        ]
        | inr f ↦ elim (Bool-cases (eq_bytes (wal_seq_key shard) q)) [
          | inl t ↦ ground (
            arith,
            f,
            l,
            lookup-append q es ((wal_key shard n, event) ∷ []),
            ap (wal_range shard) (eq_bytes→eq (wal_seq_key shard) q t),
            wal_range-seq_key shard shard,
          )
          | inr g ↦
              ground (arith, f, g, l, ap' q, lookup-append q es ((wal_key shard n, event) ∷ []))
        ]
      ]

  -- The counter and the log after the two writes.
  pub append-LogState :
      (db db' : Db) (shard n : ℕ) (event : Bytes)
      → suc shard < 2 ^ 16
      → suc n < 2 ^ 64
      → LogState db shard n
      → Appended db db' shard n event
      → LogState db' shard (suc n)
  append-LogState db db' shard n event hs hn st ap' = record { counter = counter'; below = below' }
    where
      counter' : next_from (content db' (wal_seq_key shard)) ≡ ok (suc n)
      counter' = ground (
        arith,
        ap' (wal_seq_key shard),
        wal_key-ne-seq_key shard n shard,
        eq_bytes_refl (wal_seq_key shard),
        seq_after-put_be n (omega arith),
        mod-eq_of_lt hn,
        add-one n,
      )

      step : ltb_bytes (wal_key shard n) (wal_key shard (suc n)) ≡ true
      step = ground (
        arith,
        ltb_bytes-wal_key shard shard n (suc n) (omega arith) (omega arith) (omega arith) hn,
      )

      below' :
          (k v : Bytes)
          → wal_range shard k ≡ true
          → content db' k ≡ some v
          → ltb_bytes k (wal_key shard (suc n)) ≡ true
      below' k v i e = elim (Bool-cases (eq_bytes (wal_key shard n) k)) [
        | inl t ↦
            subst (λ x. ltb_bytes x (wal_key shard (suc n)) ≡ true)
              (eq_bytes→eq (wal_key shard n) k t) step
        | inr f ↦ elim (Bool-cases (eq_bytes (wal_seq_key shard) k)) [
          | inl t ↦ absurd (
              ground (
                arith,
                i,
                ap (wal_range shard) (eq_bytes→eq (wal_seq_key shard) k t),
                wal_range-seq_key shard shard,
              ))
          | inr g ↦
              ltb_bytes_trans k (wal_key shard n) (wal_key shard (suc n))
                (st.below k v i (ground (arith, f, g, e, ap' k))) step
        ]
      ]

  -- An append that succeeds puts the event behind all that the shard's log held, under the next
  -- sequence number, and leaves the log ready for the one after it. For every shard but 65535.
  pub wal_append_lem :
      (db db' : Db) (shard n : ℕ) (event : Bytes) (xs ys : List Bytes)
      → suc shard < 2 ^ 16
      → suc n < 2 ^ 64
      → LogState db shard n
      → wal_append P shard event db ≡ (ok tt, db')
      → wal_scan P db shard ≡ ok xs
      → wal_scan P db' shard ≡ ok ys
      → (ys ≡ xs ++ event ∷ []) × LogState db' shard (suc n)
  wal_append_lem db db' shard n event xs ys hs hn st run r r' =
      let ap' = wal_append-Appended db db' shard n event st.counter run in
      let (es, ex, s, l) = wal_scan-entries db shard xs r in
      let (fs, ey, t, m) = wal_scan-entries db' shard ys r' in
      let es' = es ++ (wal_key shard n, event) ∷ [] in
      let sorted : IsSorted es' =
        snoc-IsSorted (wal_key shard n) event es s (λ q v e. held q v (sym (l q) ∙ e)) in
      let same : fs ≡ es' =
        IsSorted-ext fs es' t sorted
          (λ q. m q ∙ Appended-lookup db db' shard n event es q hs (omega arith) st ap' (l q)) in
      (
        ey
            ∙ ap values same
            ∙ values-append es (wal_key shard n) event
            ∙ ap (λ l. l ++ event ∷ []) (sym ex),
        append-LogState db db' shard n event hs hn st ap',
      )
    where
      held :
          (q v : Bytes)
          → (if wal_range shard q then content db q else none) ≡ some v
          → ltb_bytes q (wal_key shard n) ≡ true
      held q v e = ground (arith, st.below q v, e)
