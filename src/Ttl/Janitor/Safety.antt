-- ===== src/Ttl/Janitor/Safety.antt =====
-- Sweeps of internal/ttl/janitor.go and a block whose file is there.
use bbdb.Base.{
  ℕ, suc, ◌≡◌, sym, ap, ◌∙◌, subst, ◌⊎◌, inl, inr, List, [], ◌∷◌, All, Bool, Option, none, some,
  Result, ok, err, arith, if◌then◌else◌, Bool-cases, Result-cases, Option-cases,
}
use bbdb.Base.Bytes.{Bytes, eq_bytes, eq_bytes→eq}
use bbdb.Base.State.{after}
use bbdb.Files.{Call}
use bbdb.Kv.{Pebble}
use bbdb.Meta.Keys.{BlockId, block_key}
use bbdb.Meta.Blocks.{BlockMeta, get_block_meta, decode_block_meta}
use bbdb.Meta.Expiry.{ExpiredEntry, scan_expired_entries}
use bbdb.Tier.Local.{LocalStore, block_path}
use bbdb.Tier.Local.Effects.{exists_lem}
use bbdb.Node.{Node}
use bbdb.Ttl.Expire.{delete_block_and_expiry-cases}
use bbdb.Ttl.Janitor.{sweep_entry, sweep, janitor_run_once, janitor_run}
use bbdb.Ttl.{Cycle, each_turn}

module _ (P : Pebble) (tiers : ℕ → Option LocalStore) where
  open P use {Db, content, get}

  -- The files are as they were; the database is, or has seen one deletion.
  abbrev Swept : ExpiredEntry → Node Db → Node Db → Type 0
  Swept entry n n' =
      (n'.fs ≡ n.fs)
      × ((n'.db ≡ n.db)
          ⊎ ((db' : Db) × (n'.db ≡ db')
              × ((j : BlockId)
                  → content db' (block_key j)
                    ≡ (if eq_bytes entry.id j then none else content n.db (block_key j)))))

  sweep_entry-Swept :
      (entry : ExpiredEntry) (n : Node Db) → Swept entry n (sweep_entry P tiers entry n).1
  unfolding sweep_entry
  sweep_entry-Swept entry n = elim (Result-cases (get_block_meta P n.db entry.id)) [
    | inr (e, h) ↦ elim (delete_block_and_expiry-cases P entry.hour entry.id n.db) [
      | inl (db', run, eff) ↦ (ground (arith, h), inr (db', ground (arith, h, run), eff))
      | inr (x, run) ↦ (ground (arith, h), inl (ground (arith, h, run)))
    ]
    | inl (bm, h) ↦ elim (Option-cases (tiers bm.tier)) [
      | inl t ↦ (ground (arith, h, t), inl (ground (arith, h, t)))
      | inr (s, t) ↦
          let there = exists_lem s entry.id n.fs in
          elim (Bool-cases (n.fs.fault Call.stat (block_path s entry.id))) [
            | inl f ↦ (ground (arith, h, t, there, f), inl (ground (arith, h, t, there, f)))
            | inr f ↦ elim (Option-cases (n.fs.content (block_path s entry.id))) [
              | inr (b, c) ↦
                  (ground (arith, h, t, there, f, c), inl (ground (arith, h, t, there, f, c)))
              | inl c ↦ elim (delete_block_and_expiry-cases P entry.hour entry.id n.db) [
                | inl (db', run, eff) ↦ (
                  ground (arith, h, t, there, f, c, run),
                  inr (db', ground (arith, h, t, there, f, c, run), eff),
                )
                | inr (x, run) ↦ (
                  ground (arith, h, t, there, f, c, run),
                  inl (ground (arith, h, t, there, f, c, run)),
                )
              ]
            ]
          ]
    ]
  ]

  module _ (id : BlockId) (v : Bytes) (bm : BlockMeta) (store : LocalStore) (b : Bytes)
      (decoded : decode_block_meta v ≡ ok bm) (kept : tiers bm.tier ≡ some store)
      (reads : (db : Db) (k : Bytes) → get db k ≡ ok (content db k)) where
    -- The block has its metadata and its file.
    abbrev pub Present : Node Db → Type 0
    Present n =
        (content n.db (block_key id) ≡ some v) × (n.fs.content (block_path store id) ≡ some b)

    sweep_entry-Present_self :
        (hour : ℕ) (n : Node Db)
        → Present n
        → Present (sweep_entry P tiers (record { id = id; hour = hour }) n).1
    unfolding sweep_entry get_block_meta
    sweep_entry-Present_self hour n (m, c) =
        elim (Bool-cases (n.fs.fault Call.stat (block_path store id))) [
          | inl f ↦ (
            ground (arith, stored, decoded, kept, exists_lem store id n.fs, f, m),
            ground (arith, stored, decoded, kept, exists_lem store id n.fs, f, c),
          )
          | inr f ↦ (
            ground (arith, stored, decoded, kept, exists_lem store id n.fs, f, c, m),
            ground (arith, stored, decoded, kept, exists_lem store id n.fs, f, c),
          )
        ]
      where
        stored : get n.db (block_key id) ≡ ok (some v)
        stored = reads n.db (block_key id) ∙ ap ok m

    sweep_entry-Present :
        (entry : ExpiredEntry) (n : Node Db) → Present n → Present (sweep_entry P tiers entry n).1
    sweep_entry-Present entry n (m, c) = elim (Bool-cases (eq_bytes entry.id id)) [
      | inl e ↦
          subst (λ j. Present (sweep_entry P tiers (record { id = j; hour = entry.hour }) n).1)
            (sym (eq_bytes→eq entry.id id e)) (sweep_entry-Present_self entry.hour n (m, c))
      | inr ne ↦
          let (same, changed) = sweep_entry-Swept entry n in
          (
            elim changed [
              | inl e ↦ ap (λ x. content x (block_key id)) e ∙ m
              | inr (db', e, eff) ↦
                  ap (λ x. content x (block_key id)) e ∙ eff id ∙ ground (arith, ne, m)
            ],
            ap (λ x. x.content (block_path store id)) same ∙ c,
          )
    ]

    sweep-Present :
        (done : ℕ → Bool) (i : ℕ) (es : List ExpiredEntry) (n : Node Db)
        → Present n
        → Present (sweep P tiers done i es n).1
    unfolding sweep
    sweep-Present done i [] n s = s
    sweep-Present done i (entry ∷ es) n s = elim (Bool-cases (done i)) [
      | inl t ↦ rw t s
      | inr f ↦ rw f (
          go (sweep-Present done (suc i) es) (sweep_entry P tiers entry n)
            (sweep_entry-Present entry n s))
    ]
      where
        go :
            ((n : Node Db) → Present n → Present (sweep P tiers done (suc i) es n).1)
            → (r : Result (Unit {0}) × Node Db) → Present r.1
            → Present (after (λ u. sweep P tiers done (suc i) es) r).1
        go rest (err e, n) s = s
        go rest (ok u, n) s = rest n s

    janitor_run_once-Present :
        (done : ℕ → Bool) (now_hour : ℕ) (n : Node Db)
        → Present n
        → Present (janitor_run_once P tiers done now_hour n).1
    unfolding janitor_run_once
    janitor_run_once-Present done now_hour n h =
        elim (Result-cases (scan_expired_entries P n.db now_hour)) [
          | inr (e, x) ↦ rw (x, janitor_run_once) h
          | inl (es, x) ↦ rw (x, janitor_run_once) (sweep-Present done 0 es n h)
        ]

    -- Take a block whose metadata is stored, whose tier has a store and whose file is there, and
    -- an engine that answers every read. Let the other goroutines keep both between the sweeps of the
    -- janitor. Then the block still has its metadata and its file, however often the janitor has run
    -- and however its sweeps ended.
    pub janitor_run-Present :
        (first : Cycle (Node Db)) (ticks : List (Cycle (Node Db))) (n : Node Db)
        → All (λ t. (n : Node Db) → Present n → Present (t.meanwhile n)) (first ∷ ticks)
        → content n.db (block_key id) ≡ some v
        → n.fs.content (block_path store id) ≡ some b
        → Present (janitor_run P tiers first ticks n)
    unfolding janitor_run
    janitor_run-Present first ticks n others h c = turns (first ∷ ticks) n others (h, c)
      where
        turns :
            (ts : List (Cycle (Node Db))) (n : Node Db)
            → All (λ t. (n : Node Db) → Present n → Present (t.meanwhile n)) ts
            → Present n
            → Present (each_turn (janitor_run_once P tiers) ts n)
        turns [] n others s = s
        turns (t ∷ ts) n (other, others) s =
            turns ts (janitor_run_once P tiers t.done t.now_hour (t.meanwhile n)).1 others
              (janitor_run_once-Present t.done t.now_hour (t.meanwhile n) (other n s))
