-- ===== src/Meta/Expiry/Scan.antt =====
-- Which entries a scan for expired blocks returns.
use mathlib.Core.List.{Mem, mem-cons, mem-cons_self, mem-cons_of_mem, not-mem-nil}
use mathlib.Core.Logic.Or
use bbdb.Base.{
  ℕ, suc, ◌+◌, ◌%◌, ◌^◌, ◌≤◌, ◌<◌, ◌≡◌, ◌≢◌, sym, ap, ◌∙◌, subst, List, [], ◌∷◌, ◌++◌, true, none,
  some, ok, arith, Bool-cases, inl, inr, Result-cases, Option-cases, All, leb→le,
}
use bbdb.Base.Bytes.{
  Bytes, IsByte, put_be, eq_bytes, eq_bytes_refl, eq_bytes→eq, prefix_of_between, put_be-get_be,
  get_be-lt,
}
use native.Mathlib.Bridge.{le_prop}
use bbdb.Kv.{Pebble}
use bbdb.Kv.Sorted.{Entries, lookup, in_range, AllKeys, AllKeys-head, AllKeys-tail}
use bbdb.Meta.Keys.{BlockId, prefix_expiry, expiry_key, expiry_key_upper_bound, parse_expiry_key}
use bbdb.Meta.Keys.RoundTrip.{parse-expiry_key}
use bbdb.Meta.Keys.Order.{in_range-expiry_key}
use bbdb.Meta.Expiry.{ExpiredEntry, has_prefix, expired_entries, scan_expired_entries}

-- A key that parses is the key of what it parses to.
parse_expiry_key_sound :
    (k : Bytes) (h : ℕ) (id : BlockId)
    → All IsByte k
    → parse_expiry_key k ≡ ok (h, id)
    → (k ≡ expiry_key h id) × (h < 2 ^ 64)
unfolding parse_expiry_key expiry_key eq_bytes
parse_expiry_key_sound (a ∷ b ∷ c ∷ d ∷ e ∷ f ∷ g ∷ i ∷ j ∷ l ∷ m ∷ n ∷ s ∷ rest) h id bs run =
    let hour = e ∷ f ∷ g ∷ i ∷ j ∷ l ∷ m ∷ n ∷ [] in
    let hour_bytes : All IsByte hour = omega (arith, bs) in
    ground (
      arith,
      run,
      put_be-get_be hour hour_bytes,
      get_be-lt hour hour_bytes,
      ap (λ (x : Bytes). x ++ s ∷ rest) (put_be-get_be hour hour_bytes),
    )
parse_expiry_key_sound _ h id bs run = absurd (ground (arith, run))

abbrev pub entry : ℕ → BlockId → ExpiredEntry
entry h id = record { id = id; hour = h }

expired_entries_complete :
    (es : Entries) (h : ℕ) (id : BlockId) (v : Bytes)
    → h < 2 ^ 64
    → AllKeys (λ q. has_prefix q prefix_expiry ≡ true) es
    → lookup (expiry_key h id) es ≡ some v
    → Mem (entry h id) (expired_entries es)
unfolding expired_entries
expired_entries_complete [] h id v hh p e = absurd (ground (arith, e))
expired_entries_complete ((k, w) ∷ es) h id v hh p e =
    elim (Bool-cases (eq_bytes k (expiry_key h id))) [
      | inl t ↦
          let parsed : parse_expiry_key k ≡ ok (h, id) =
            subst (λ x. parse_expiry_key x ≡ ok (h, id)) (sym (eq_bytes→eq k (expiry_key h id) t))
              (parse-expiry_key h id hh) in
          rw (head, parsed) mem-cons_self
      | inr f ↦
          let rest = expired_entries_complete es h id v hh (AllKeys-tail _ k w es p) (rw f at e) in
          elim (Result-cases (parse_expiry_key k)) [
            | inl (x, parsed) ↦ rw (head, parsed) (mem-cons_of_mem (entry x.0 x.1) rest)
            | inr (x, parsed) ↦ rw (head, parsed) rest
          ]
    ]
  where
    head : has_prefix k prefix_expiry ≡ true
    head = AllKeys-head (λ q. has_prefix q prefix_expiry ≡ true) k w es p

Held : Entries → ExpiredEntry → Type 0
Held es x = (lookup (expiry_key x.hour x.id) es ≢ none) × (x.hour < 2 ^ 64)

Held-prop : (es : Entries) (x : ExpiredEntry) → IsProp (Held es x)
unfolding Held
Held-prop es x = hlevel le_prop

Held-cons : (k w : Bytes) (es : Entries) (x : ExpiredEntry) → Held es x → Held ((k, w) ∷ es) x
unfolding Held
Held-cons k w es x h = elim (Bool-cases (eq_bytes k (expiry_key x.hour x.id))) [
  | inl t ↦ (λ e. absurd (ground (arith, t, e)), h.1)
  | inr f ↦ (λ e. h.0 (rw f at e), h.1)
]

-- The entry that a key parses to is held under that key.
Held-head :
    (k w : Bytes) (es : Entries) (h : ℕ) (id : BlockId) (x : ExpiredEntry)
    → All IsByte k
    → parse_expiry_key k ≡ ok (h, id)
    → x ≡ entry h id
    → Held ((k, w) ∷ es) x
unfolding Held
Held-head k w es h id x bs parsed e =
    let (same, fits) = parse_expiry_key_sound k h id bs parsed in
    let key : expiry_key x.hour x.id ≡ k =
      ap (λ (y : ExpiredEntry). expiry_key y.hour y.id) e ∙ sym same in
    (
      λ missing.
          absurd (ground (arith, missing, ap (λ q. lookup q ((k, w) ∷ es)) key, eq_bytes_refl k)),
      omega (arith, ap (λ (y : ExpiredEntry). y.hour) e, fits),
    )

expired_entries_sound :
    (es : Entries) (x : ExpiredEntry)
    → AllKeys (All IsByte) es
    → Mem x (expired_entries es)
    → Held es x
unfolding expired_entries
expired_entries_sound [] x bs m = absurd (not-mem-nil m)
expired_entries_sound ((k, w) ∷ es) x bs m = elim (Bool-cases (has_prefix k prefix_expiry)) [
  | inr f ↦ absurd (not-mem-nil {a = x} (rw f at m))
  | inl t ↦
      let tail = λ (m' : Mem x (expired_entries es)).
        Held-cons k w es x (expired_entries_sound es x (AllKeys-tail _ k w es bs) m') in
      elim (Result-cases (parse_expiry_key k)) [
        | inr (y, parsed) ↦ tail (rw (t, parsed) at m)
        | inl (y, parsed) ↦
            let m' : Mem x (entry y.0 y.1 ∷ expired_entries es) = rw (t, parsed) at m in
            Or.elim (Held-prop ((k, w) ∷ es) x) (mem-cons.0 m')
              (Held-head k w es y.0 y.1 x (AllKeys-head (All IsByte) k w es bs) parsed) tail
      ]
]

in_scan-has_prefix :
    (now : ℕ) (q : Bytes)
    → in_range prefix_expiry (expiry_key_upper_bound now) q ≡ true
    → has_prefix q prefix_expiry ≡ true
unfolding expiry_key_upper_bound
in_scan-has_prefix now q h =
    let bound = put_be 8 ((now + 1) % 2 ^ 64) in
    ground (arith, h, prefix_of_between prefix_expiry q bound)

module _ (P : Pebble) where
  open P use {Db, content, scan}

  -- What a scan lists lies in its range and is in the database.
  scanned :
      (db : Db) (es : Entries) (lo hi : Bytes)
      → scan db lo hi ≡ ok es
      → (q v : Bytes) → lookup q es ≡ some v
      → (in_range lo hi q ≡ true) × (content db q ≡ some v)
  scanned db es lo hi e q v l = ground (arith, P.scan_lem db lo hi es e q, l)

  -- A scan for an hour before the last of a uint64 that succeeds returns exactly the blocks that
  -- have an expiry key of that hour or an earlier one: every such key is found, and every entry
  -- returned has one. The keys of the database are bytes.
  pub scan_expired_entries_lem :
      (db : Db) (now h : ℕ) (id : BlockId) (xs : List ExpiredEntry)
      → suc now < 2 ^ 64
      → ((q v : Bytes) → content db q ≡ some v → All IsByte q)
      → scan_expired_entries P db now ≡ ok xs
      → (h ≤ now → content db (expiry_key h id) ≢ none → Mem (entry h id) xs)
        × (Mem (entry h id) xs → (h ≤ now) × (content db (expiry_key h id) ≢ none))
  unfolding scan_expired_entries Held
  scan_expired_entries_lem db now h id xs hn bytes run =
      elim (Result-cases (scan db prefix_expiry (expiry_key_upper_bound now))) [
        | inr (x, e) ↦ absurd (ground (arith, e, run))
        | inl (es, e) ↦
            let same : xs ≡ expired_entries es = ground (arith, e, run) in
            (λ le held. rw same (found es e le held), λ m. only es e (rw same at m))
      ]
    where
      found :
          (es : Entries)
          → scan db prefix_expiry (expiry_key_upper_bound now) ≡ ok es
          → h ≤ now
          → content db (expiry_key h id) ≢ none
          → Mem (entry h id) (expired_entries es)
      found es e le held = elim (Option-cases (content db (expiry_key h id))) [
        | inl missing ↦ absurd (held missing)
        | inr (v, there) ↦
            expired_entries_complete es h id v (omega arith)
              (λ q w l. in_scan-has_prefix now q (scanned db es _ _ e q w l).0)
              (P.scan_lem db _ _ es e (expiry_key h id)
                ∙ ground (arith, there, in_range-expiry_key now h id hn (omega arith)))
      ]

      only :
          (es : Entries)
          → scan db prefix_expiry (expiry_key_upper_bound now) ≡ ok es
          → Mem (entry h id) (expired_entries es)
          → (h ≤ now) × (content db (expiry_key h id) ≢ none)
      only es e m =
          let (kept, fits) =
            expired_entries_sound es (entry h id) (λ q w l. bytes q w (scanned db es _ _ e q w l).1)
              m in
          elim (Option-cases (lookup (expiry_key h id) es)) [
            | inl missing ↦ absurd (kept missing)
            | inr (v, l) ↦
                let (within, there) = scanned db es _ _ e (expiry_key h id) v l in
                (
                  leb→le h now (sym (in_range-expiry_key now h id hn fits) ∙ within),
                  λ missing. absurd (ground (arith, missing, there)),
                )
          ]
