-- ===== src/Meta/Migrations/Scan.antt =====
-- Which migrations a scan returns, and what becomes of one that is written and removed.
use mathlib.Core.List.{Mem, mem-cons, mem-cons_self, mem-cons_of_mem, not-mem-nil}
use mathlib.Core.Logic.Or
use bbdb.Base.{
  ◌≡◌, ◌≢◌, refl, sym, ap, ◌∙◌, List, [], ◌∷◌, Option, Result, true, none, some, ok, err,
  ok-injective, arith, Bool-cases, inl, inr, Result-cases, Option-cases, if◌then◌else◌,
}
use bbdb.Base.Bytes.{Bytes, eq_bytes, eq_bytes_refl, eq_bytes→eq, eq_bytes-append, ltb_bytes}
use bbdb.Kv.{Pebble}
use bbdb.Kv.Sorted.{Entries, lookup, in_range}
use bbdb.Meta.Engine.{commit_batch-ok}
use bbdb.Meta.Keys.{BlockId, prefix_migr, migration_key, parse_migration_key}
use bbdb.Meta.Keys.RoundTrip.{parse-migration_key}
use bbdb.Meta.Migrations.{
  MigrationMeta, encode_migration_meta, decode_migration_meta, migration_ids, migr_upper,
  put_migration_meta, delete_migration_meta, get_migration_meta, scan_in_progress_migrations,
}

-- A key that parses is the key of what it parses to.
parse_migration_key_sound :
    (k : Bytes) (id : BlockId) → parse_migration_key k ≡ ok id → k ≡ migration_key id
unfolding parse_migration_key migration_key eq_bytes
parse_migration_key_sound (a ∷ b ∷ c ∷ d ∷ e ∷ rest) id run = ground (arith, run)
parse_migration_key_sound _ id run = absurd (ground (arith, run))

migration_ids_complete :
    (es : Entries) (id : BlockId) (v : Bytes)
    → id ≢ []
    → lookup (migration_key id) es ≡ some v
    → Mem id (migration_ids es)
unfolding migration_ids
migration_ids_complete [] id v full e = absurd (ground (arith, e))
migration_ids_complete ((k, w) ∷ es) id v full e =
    elim (Bool-cases (eq_bytes k (migration_key id))) [
      | inl t ↦
          let parsed : parse_migration_key k ≡ ok id =
            ap parse_migration_key (eq_bytes→eq k (migration_key id) t)
            ∙ parse-migration_key id full in
          rw (parsed, migration_ids) mem-cons_self
      | inr f ↦
          let rest = migration_ids_complete es id v full (rw f at e) in
          elim (Result-cases (parse_migration_key k)) [
            | inl (x, parsed) ↦ rw (parsed, migration_ids) (mem-cons_of_mem x rest)
            | inr (x, parsed) ↦ rw (parsed, migration_ids) rest
          ]
    ]

migration_ids_sound :
    (es : Entries) (id : BlockId) → Mem id (migration_ids es) → lookup (migration_key id) es ≢ none
unfolding migration_ids
migration_ids_sound [] id m = absurd (not-mem-nil m)
migration_ids_sound ((k, w) ∷ es) id m = elim (Bool-cases (eq_bytes k (migration_key id))) [
  | inl t ↦ λ e. absurd (ground (arith, t, e))
  | inr f ↦
      let tail = λ (m' : Mem id (migration_ids es)). migration_ids_sound es id m' in
      elim (Result-cases (parse_migration_key k)) [
        | inr (y, parsed) ↦ λ e. tail (rw (parsed, migration_ids) at m) (rw f at e)
        | inl (y, parsed) ↦
            let m' : Mem id (y ∷ migration_ids es) = rw (parsed, migration_ids) at m in
            Or.elim (hlevel) (mem-cons.0 m')
              (λ same. absurd (
                ground (
                  arith,
                  f,
                  parse_migration_key_sound k y parsed ∙ ap migration_key (sym same),
                  eq_bytes_refl k,
                )))
              (λ later. λ e. tail later (rw f at e))
      ]
]

in_range-migration_key : (id : BlockId) → in_range prefix_migr migr_upper (migration_key id) ≡ true
unfolding migration_key ltb_bytes
in_range-migration_key [] = refl
in_range-migration_key (b ∷ id) = refl

migration_key-eq : (id j : BlockId) → eq_bytes (migration_key id) (migration_key j) ≡ eq_bytes id j
unfolding migration_key
migration_key-eq id j = eq_bytes-append prefix_migr id j

decode-encode_migration_meta :
    (m : MigrationMeta) → decode_migration_meta (encode_migration_meta m) ≡ ok m
decode-encode_migration_meta m = elim (Bool-cases m.in_progress) [
  | inl t ↦ ground (arith, t)
  | inr f ↦ ground (arith, f)
]

module _ (P : Pebble) where
  open P use {Db, content, get, scan}

  -- A scan that succeeds returns exactly the blocks whose migration is recorded, whatever the record says.
  scan_in_progress_migrations_lem :
      (db : Db) (id : BlockId) (xs : List BlockId)
      → id ≢ []
      → scan_in_progress_migrations P db ≡ ok xs
      → (content db (migration_key id) ≢ none → Mem id xs)
        × (Mem id xs → content db (migration_key id) ≢ none)
  unfolding scan_in_progress_migrations
  scan_in_progress_migrations_lem db id xs full run =
      elim (Result-cases (scan db prefix_migr migr_upper)) [
        | inr (x, e) ↦ absurd (ground (arith, e, run))
        | inl (es, e) ↦
            let same : xs ≡ migration_ids es = ground (arith, e, run) in
            let there : lookup (migration_key id) es ≡ content db (migration_key id) =
              P.scan_lem db prefix_migr migr_upper es e (migration_key id)
              ∙ ground (arith, in_range-migration_key id) in
            (
              λ held. elim (Option-cases (content db (migration_key id))) [
                | inl missing ↦ absurd (held missing)
                | inr (v, h) ↦ rw same (migration_ids_complete es id v full (there ∙ h))
              ],
              λ m missing. migration_ids_sound es id (rw same at m) (there ∙ missing),
            )
      ]

  -- A migration of a block with an ID is recorded and later removed, and the scans and the read in between
  -- succeed. Then the read gives what was recorded, the scan before the removal lists the block, the one
  -- behind it does not, and of the other blocks it lists exactly those that were recorded at the start.
  pub scan-delete_migration_meta :
      (db db₁ db₂ : Db) (id : BlockId) (m : MigrationMeta) (found : MigrationMeta)
      (xs ys : List BlockId)
      → id ≢ []
      → put_migration_meta P id m db ≡ (ok tt, db₁)
      → get_migration_meta P db₁ id ≡ ok found
      → scan_in_progress_migrations P db₁ ≡ ok xs
      → delete_migration_meta P id db₁ ≡ (ok tt, db₂)
      → scan_in_progress_migrations P db₂ ≡ ok ys
      → (found ≡ m)
        × Mem id xs
        × ¬ Mem id ys
        × ((j : BlockId)
            → j ≢ []
            → j ≢ id
            → (content db (migration_key j) ≢ none → Mem j ys)
              × (Mem j ys → content db (migration_key j) ≢ none))
  unfolding put_migration_meta delete_migration_meta get_migration_meta
  scan-delete_migration_meta db db₁ db₂ id m found xs ys full put read scan₁ deleted scan₂ = (
    same_read (get db₁ (migration_key id)) refl,
    (scan_in_progress_migrations_lem db₁ id xs full scan₁).0
        (λ missing. absurd (ground (arith, missing, written id, eq_bytes_refl id))),
    λ listed.
        (scan_in_progress_migrations_lem db₂ id ys full scan₂).1 listed
          (removed id ∙ ground (arith, eq_bytes_refl id)),
    λ j named other.
        let same : content db₂ (migration_key j) ≡ content db (migration_key j) = kept j other in
        let (complete, sound) = scan_in_progress_migrations_lem db₂ j ys named scan₂ in
        (λ held. complete (rw same held), λ listed. rw same at (sound listed)),
  )
    where
      written :
          (j : BlockId)
          → content db₁ (migration_key j) ≡ (
              if eq_bytes id j
              then some (encode_migration_meta m)
              else content db (migration_key j))
      written j =
          commit_batch-ok P db db₁ _ put (migration_key j) ∙ ground (arith, migration_key-eq id j)

      removed :
          (j : BlockId)
          → content db₂ (migration_key j)
            ≡ (if eq_bytes id j then none else content db₁ (migration_key j))
      removed j =
          commit_batch-ok P db₁ db₂ _ deleted (migration_key j)
          ∙ ground (arith, migration_key-eq id j)

      same_read : (r : Result (Option Bytes)) → get db₁ (migration_key id) ≡ r → found ≡ m
      same_read (err x) e = absurd (ground (arith, read, e))
      same_read (ok none) e = absurd (ground (arith, read, e))
      same_read (ok (some val)) e =
          let decoded : decode_migration_meta val ≡ ok found = ground (arith, read, e) in
          let is_val : val ≡ encode_migration_meta m =
            ground (
              arith,
              P.get_lem db₁ (migration_key id) (some val) e,
              written id,
              eq_bytes_refl id,
            ) in
          ok-injective found m
            (sym decoded ∙ ap decode_migration_meta is_val ∙ decode-encode_migration_meta m)

      kept : (j : BlockId) → j ≢ id → content db₂ (migration_key j) ≡ content db (migration_key j)
      kept j other = elim (Bool-cases (eq_bytes id j)) [
        | inl t ↦ absurd (other (sym (eq_bytes→eq id j t)))
        | inr f ↦ ground (arith, f, removed j, written j)
      ]
