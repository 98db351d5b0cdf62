-- ===== src/Meta/Recovery/Found.antt =====
-- The shards that a recovery finds.
use mathlib.Core.List.{Mem, mem-cons, mem-cons_self, mem-cons_of_mem, not-mem-nil}
use mathlib.Core.Logic.Or
use bbdb.Base.{
  ℕ, suc, ◌^◌, ◌≢◌, Error, ◌<◌, ◌==◌, ◌≡◌, ◌↔◌, refl, sym, ap, ◌∙◌, subst, List, [], ◌∷◌, ◌++◌,
  true, some, arith, ok, err, inl, inr, Bool-cases, Result-cases, ok-injective, >>=-eq-ok, ==_iff,
  ==_refl,
}
use bbdb.Base.Bytes.{Bytes, eq_bytes, eq_bytes→eq, ltb_bytes, put_be}
use bbdb.Kv.{Pebble}
use bbdb.Kv.Sorted.{Entries, lookup, in_range}
use bbdb.Meta.Keys.{prefix_wal, wal_key, wal_key_start, wal_key_end, parse_wal_key}
use bbdb.Meta.Keys.RoundTrip.{parse-wal_key}
use bbdb.Meta.Wal.{wal_scan, values}
use bbdb.Meta.Keys.Order.{in_range-wal_key}
use bbdb.Meta.Recovery.{
  contains, wal_upper, seen_shards, any_event, is_orphan, keep_orphans, find_orphaned_wal_shards,
}

contains-append : (x y : ℕ) (ys : List ℕ) → contains x ys ≡ true → contains x (ys ++ y ∷ []) ≡ true
unfolding contains
contains-append x y [] h = absurd (ground (arith, h))
contains-append x y (z ∷ ys) h = ground (arith, contains-append x y ys)

contains-last : (x : ℕ) (ys : List ℕ) → contains x (ys ++ x ∷ []) ≡ true
unfolding contains
contains-last x [] = rw (==_refl x) refl
contains-last x (y ∷ ys) = ground (arith, contains-last x ys)

seen_shards-contains :
    (x : ℕ) (es : Entries) (seen : List ℕ)
    → contains x seen ≡ true
    → contains x (seen_shards es seen) ≡ true
unfolding seen_shards
seen_shards-contains x [] seen h = h
seen_shards-contains x ((k, v) ∷ es) seen h = elim (Result-cases (parse_wal_key k)) [
  | inr (e, q) ↦ rw (q, seen_shards) (seen_shards-contains x es seen h)
  | inl (p, q) ↦ elim (Bool-cases (contains p.0 seen)) [
    | inl t ↦ rw (q, t, seen_shards) (seen_shards-contains x es seen h)
    | inr f ↦
        rw (q, f, seen_shards)
          (seen_shards-contains x es (seen ++ p.0 ∷ []) (contains-append x p.0 seen h))
  ]
]

-- The shard of a key that the scan lists is seen.
seen_shards-lookup :
    (k v : Bytes) (shard seq : ℕ) (es : Entries) (seen : List ℕ)
    → parse_wal_key k ≡ ok (shard, seq)
    → lookup k es ≡ some v
    → contains shard (seen_shards es seen) ≡ true
unfolding seen_shards
seen_shards-lookup k v shard seq [] seen parsed h = absurd (ground (arith, h))
seen_shards-lookup k v shard seq ((l, w) ∷ es) seen parsed h = elim (Bool-cases (eq_bytes l k)) [
  | inr f ↦ seen_shards-lookup k v shard seq es _ parsed (rw f at h)
  | inl t ↦
      let here : parse_wal_key l ≡ ok (shard, seq) =
        ap parse_wal_key (eq_bytes→eq l k t) ∙ parsed in
      elim (Bool-cases (contains shard seen)) [
        | inl c ↦ rw (here, c, seen_shards) (seen_shards-contains shard es seen c)
        | inr c ↦
            rw (here, c, seen_shards)
              (seen_shards-contains shard es (seen ++ shard ∷ []) (contains-last shard seen))
      ]
]

in_range-wal_upper : (shard seq : ℕ) → in_range prefix_wal wal_upper (wal_key shard seq) ≡ true
unfolding wal_key ltb_bytes put_be
in_range-wal_upper shard seq = ground arith

module _ (P : Pebble) where
  open P use {Db, content, scan}

  keep_orphans-Mem :
      (db : Db) (s : ℕ) (ss : List ℕ)
      → contains s ss ≡ true
      → is_orphan P db s ≡ true
      → Mem s (keep_orphans P db ss)
  unfolding contains
  keep_orphans-Mem db s [] c o = absurd (ground (arith, c))
  keep_orphans-Mem db s (t ∷ ss) c o = elim (Bool-cases (t == s)) [
    | inl f ↦
        let same : s ≡ t = sym ((==_iff t s).0 f) in
        rw (ap (is_orphan P db) (sym same) ∙ o, same) mem-cons_self
    | inr f ↦
        let later : Mem s (keep_orphans P db ss) = keep_orphans-Mem db s ss (rw f at c) o in
        elim (Bool-cases (is_orphan P db t)) [
          | inl g ↦ rw g (mem-cons_of_mem t later)
          | inr g ↦ rw g later
        ]
  ]

  keep_orphans-is_orphan :
      (db : Db) (s : ℕ) (ss : List ℕ) → Mem s (keep_orphans P db ss) → is_orphan P db s ≡ true
  keep_orphans-is_orphan db s [] m = absurd (not-mem-nil m)
  keep_orphans-is_orphan db s (t ∷ ss) m = elim (Bool-cases (is_orphan P db t)) [
    | inr g ↦ keep_orphans-is_orphan db s ss (rw g at m)
    | inl g ↦
        Or.elim (hlevel) (mem-cons.0 (rw g at m)) (λ q. ap (is_orphan P db) q ∙ g)
          (λ m'. keep_orphans-is_orphan db s ss m')
  ]

  -- A log that can be read and has an entry has an event.
  readable-is_orphan :
      (db : Db) (shard seq : ℕ) (v : Bytes) (log : List Bytes)
      → suc shard < 2 ^ 16
      → seq < 2 ^ 64
      → content db (wal_key shard seq) ≡ some v
      → wal_scan P db shard ≡ ok log
      → is_orphan P db shard ≡ true
  unfolding wal_scan
  readable-is_orphan db shard seq v log h k there run =
      elim (Result-cases (scan db (wal_key_start shard) (wal_key_end shard))) [
        | inr (e, failed) ↦ absurd (ground (arith, failed, run))
        | inl (es, listed) ↦
            let scanned : wal_scan P db shard ≡ ok (values es) = rw (wal_scan, listed) refl in
            ap any_event scanned
            ∙ holds es (
                P.scan_lem db (wal_key_start shard) (wal_key_end shard) es listed
                  (wal_key shard seq)
                ∙ rw (in_range-wal_key shard shard seq h (omega arith) k, ==_refl shard) there)
      ]
    where
      holds :
          (es : Entries)
          → lookup (wal_key shard seq) es ≡ some v
          → any_event (ok (values es)) ≡ true
      holds [] h = absurd (ground (arith, h))
      holds (e ∷ es) h = refl

  -- Let a shard below 65535 have a log entry. A recovery that succeeds finds the shard exactly if a scan of its
  -- log does not end in an error, whatever blocks there are: contrary to the comment of the source, a shard
  -- that has block metadata is found too.
  pub find_orphaned_wal_shards_lem :
      (db : Db) (shard seq : ℕ) (v : Bytes) (shards : List ℕ)
      → suc shard < 2 ^ 16
      → seq < 2 ^ 64
      → content db (wal_key shard seq) ≡ some v
      → find_orphaned_wal_shards P db ≡ ok shards
      → Mem shard shards ↔ ((e : Error) → wal_scan P db shard ≢ err e)
  unfolding find_orphaned_wal_shards
  find_orphaned_wal_shards_lem db shard seq v shards h k there run =
      let (es, listed, kept) =
        >>=-eq-ok (scan db prefix_wal wal_upper) (λ es. ok (keep_orphans P db (seen_shards es [])))
          run in
      let same : keep_orphans P db (seen_shards es []) ≡ shards = ok-injective _ _ kept in
      let found : lookup (wal_key shard seq) es ≡ some v =
        P.scan_lem db prefix_wal wal_upper es listed (wal_key shard seq)
        ∙ rw (in_range-wal_upper shard seq) there in
      (
        λ m e failed. absurd (
            ground (
              arith,
              keep_orphans-is_orphan db shard (seen_shards es []) (subst (Mem shard) (sym same) m),
              ap any_event failed,
            )),
        λ readable. elim (Result-cases (wal_scan P db shard)) [
          | inr (e, failed) ↦ absurd (readable e failed)
          | inl (log, read) ↦ subst (Mem shard) same (
              keep_orphans-Mem db shard (seen_shards es [])
                (seen_shards-lookup (wal_key shard seq) v shard seq es []
                  (parse-wal_key shard seq (omega arith) k) found)
                (readable-is_orphan db shard seq v log h k there read))
        ],
      )
