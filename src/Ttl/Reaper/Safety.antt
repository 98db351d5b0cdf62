-- ===== src/Ttl/Reaper/Safety.antt =====
-- Cycles of internal/ttl/reaper.go and the files and metadata of one block.
use bbdb.Base.{
  ℕ, suc, ◌+◌, ◌*◌, ◌≡◌, refl, sym, ap, ◌∙◌, subst, ◌⊎◌, inl, inr, List, [], ◌∷◌, All, Bool, false,
  Option, none, some, Result, ok, err, arith, if◌then◌else◌, Bool-cases, Result-cases, Option-cases,
}
use bbdb.Base.Bytes.{Bytes, eq_bytes, eq_bytes_refl, eq_bytes→eq}
use bbdb.Base.State.{after}
use bbdb.Files.{FilePath}
use bbdb.Kv.{Pebble}
use bbdb.Meta.Keys.{BlockId, block_key}
use bbdb.Meta.Blocks.{BlockMeta, get_block_meta, decode_block_meta}
use bbdb.Ttl.Expire.{delete_block_and_expiry-cases}
use bbdb.Meta.Expiry.{ExpiredEntry, scan_expired_entries}
use bbdb.Tier.Local.{LocalStore, block_path, bloom_path, delete}
use bbdb.Tier.Local.Effects.{delete-none, delete_lem}
use bbdb.Node.{Node}
use bbdb.Ttl.{Cycle, each_turn, Next, go_on, stop_here}
use bbdb.Ttl.Reaper.{reap_entry, continue, reap, reaper_run_once, reaper_run}

module _ (P : Pebble) where
  open P use {Db, content, get}

  module _ (tiers : ℕ → Option LocalStore) where
    -- Where an entry leaves the node: each part is untouched, or has seen its deletion.
    abbrev Touched : ExpiredEntry → Node Db → Node Db → Type 0
    Touched entry n n' =
        ((n'.db ≡ n.db)
          ⊎ ((db' : Db) × (n'.db ≡ db')
              × ((j : BlockId)
                  → content db' (block_key j)
                    ≡ (if eq_bytes entry.id j then none else content n.db (block_key j)))))
        × ((n'.fs ≡ n.fs) ⊎ ((s : LocalStore) × (n'.fs ≡ (delete s entry.id n.fs).1)))

    reap_entry-Touched :
        (done : Bool) (entry : ExpiredEntry) (n : Node Db)
        → Touched entry n (reap_entry P tiers done entry n).1
    unfolding reap_entry
    reap_entry-Touched done entry n = elim (Result-cases (get_block_meta P n.db entry.id)) [
      | inr (e, h) ↦ elim (delete_block_and_expiry-cases P entry.hour entry.id n.db) [
        | inl (db', run, eff) ↦ (inr (db', ground (arith, h, run), eff), inl (ground (arith, h)))
        | inr (x, run) ↦ (inl (ground (arith, h, run)), inl (ground (arith, h)))
      ]
      | inl (bm, h) ↦ elim (Option-cases (tiers bm.tier)) [
        | inl t ↦ (inl (ground (arith, h, t)), inl (ground (arith, h, t)))
        | inr (s, t) ↦ elim (Result-cases (delete s entry.id n.fs).0) [
          | inr (x, d) ↦ (inl (ground (arith, h, t, d)), inr (s, ground (arith, h, t, d)))
          | inl (u, d) ↦ elim (delete_block_and_expiry-cases P entry.hour entry.id n.db) [
            | inl (db', run, eff) ↦ (
              inr (db', ground (arith, h, t, d, run), eff),
              inr (s, ground (arith, h, t, d, run)),
            )
            | inr (x, run) ↦
                (inl (ground (arith, h, t, d, run)), inr (s, ground (arith, h, t, d, run)))
          ]
        ]
      ]
    ]

    module _ (id : BlockId) (v : Bytes) (bm : BlockMeta) (store : LocalStore)
        (decoded : decode_block_meta v ≡ ok bm) (kept : tiers bm.tier ≡ some store)
        (reads : (db : Db) (k : Bytes) → get db k ≡ ok (content db k)) where
      -- The metadata is there, or neither it nor the files are.
      abbrev pub Safe : Node Db → Type 0
      Safe n =
          (content n.db (block_key id) ≡ some v)
          ⊎ ((content n.db (block_key id) ≡ none)
              × (n.fs.content (block_path store id) ≡ none)
              × (n.fs.content (bloom_path store id) ≡ none))

      gone-Touched :
          (entry : ExpiredEntry) (n n' : Node Db)
          → Touched entry n n'
          → content n.db (block_key id) ≡ none
          → content n'.db (block_key id) ≡ none
      gone-Touched entry n n' (inl e, b) h = ap (λ x. content x (block_key id)) e ∙ h
      gone-Touched entry n n' (inr (db', e, eff), b) h =
          ap (λ x. content x (block_key id)) e ∙ eff id ∙ ground (arith, h)

      file-Touched :
          (entry : ExpiredEntry) (n n' : Node Db) (q : FilePath)
          → Touched entry n n'
          → n.fs.content q ≡ none
          → n'.fs.content q ≡ none
      file-Touched entry n n' q (a, inl e) h = ap (λ x. x.content q) e ∙ h
      file-Touched entry n n' q (a, inr (s, e)) h =
          ap (λ x. x.content q) e ∙ delete-none s entry.id q n.fs h

      other-Touched :
          (entry : ExpiredEntry) (n n' : Node Db)
          → Touched entry n n'
          → eq_bytes entry.id id ≡ false
          → content n.db (block_key id) ≡ some v
          → content n'.db (block_key id) ≡ some v
      other-Touched entry n n' (inl e, b) ne h = ap (λ x. content x (block_key id)) e ∙ h
      other-Touched entry n n' (inr (db', e, eff), b) ne h =
          ap (λ x. content x (block_key id)) e ∙ eff id ∙ ground (arith, h, ne)

      -- The entry of the block itself.
      reap_entry-Safe_self :
          (done : Bool) (hour : ℕ) (n : Node Db)
          → content n.db (block_key id) ≡ some v
          → Safe (reap_entry P tiers done (record { id = id; hour = hour }) n).1
      unfolding reap_entry get_block_meta
      reap_entry-Safe_self done hour n h = elim (Result-cases (delete store id n.fs).0) [
        | inr (x, d) ↦ inl (ground (arith, stored, decoded, kept, d, h))
        | inl (u, d) ↦ elim (delete_block_and_expiry-cases P hour id n.db) [
          | inr (x, run) ↦ inl (ground (arith, stored, decoded, kept, d, run, h))
          | inl (db', run, eff) ↦
              let ran : delete store id n.fs ≡ (ok tt, (delete store id n.fs).1) =
                λ i. (d i, (delete store id n.fs).1) in
              let gone = delete_lem store id n.fs (delete store id n.fs).1 ran in
              let no_meta : content db' (block_key id) ≡ none =
                eff id ∙ rw (eq_bytes_refl id) refl in
              let no_block : (delete store id n.fs).1.content (block_path store id) ≡ none =
                gone (block_path store id) ∙ ground (arith, eq_bytes_refl (block_path store id)) in
              let no_bloom : (delete store id n.fs).1.content (bloom_path store id) ≡ none =
                gone (bloom_path store id) ∙ ground (arith, eq_bytes_refl (bloom_path store id)) in
              inr (
                ground (arith, stored, decoded, kept, d, run, no_meta),
                ground (arith, stored, decoded, kept, d, run, no_block),
                ground (arith, stored, decoded, kept, d, run, no_bloom),
              )
        ]
      ]
        where
          stored : get n.db (block_key id) ≡ ok (some v)
          stored = reads n.db (block_key id) ∙ ap ok h

      reap_entry-Safe :
          (done : Bool) (entry : ExpiredEntry) (n : Node Db)
          → Safe n
          → Safe (reap_entry P tiers done entry n).1
      reap_entry-Safe done entry n (inr (m, b, l)) =
          let t = reap_entry-Touched done entry n in
          let n' = (reap_entry P tiers done entry n).1 in
          inr (
            gone-Touched entry n n' t m,
            file-Touched entry n n' (block_path store id) t b,
            file-Touched entry n n' (bloom_path store id) t l,
          )
      reap_entry-Safe done entry n (inl m) = elim (Bool-cases (eq_bytes entry.id id)) [
        | inr ne ↦ inl (
            other-Touched entry n (reap_entry P tiers done entry n).1
              (reap_entry-Touched done entry n) ne m)
        | inl e ↦
            subst (λ j. Safe (reap_entry P tiers done (record { id = j; hour = entry.hour }) n).1)
              (sym (eq_bytes→eq entry.id id e)) (reap_entry-Safe_self done entry.hour n m)
      ]

      reap-Safe :
          (done : ℕ → Bool) (i : ℕ) (es : List ExpiredEntry) (n : Node Db)
          → Safe n
          → Safe (reap P tiers done i es n).1
      unfolding reap
      reap-Safe done i [] n s = s
      reap-Safe done i (entry ∷ es) n s = elim (Bool-cases (done (2 * i))) [
        | inl t ↦ rw t s
        | inr f ↦ rw f (
            go (reap-Safe done (suc i) es) (reap_entry P tiers (done (2 * i + 1)) entry n)
              (reap_entry-Safe (done (2 * i + 1)) entry n s))
      ]
        where
          go :
              ((n : Node Db) → Safe n → Safe (reap P tiers done (suc i) es n).1)
              → (r : Result Next × Node Db) → Safe r.1
              → Safe (after (continue P tiers (reap P tiers done (suc i) es)) r).1
          go rest (err e, n) s = s
          go rest (ok go_on, n) s = rest n s
          go rest (ok stop_here, n) s = s

      reaper_run_once-Safe :
          (done : ℕ → Bool) (now_hour : ℕ) (n : Node Db)
          → Safe n
          → Safe (reaper_run_once P tiers done now_hour n).1
      unfolding reaper_run_once
      reaper_run_once-Safe done now_hour n h =
          elim (Result-cases (scan_expired_entries P n.db now_hour)) [
            | inr (e, x) ↦ rw (x, reaper_run_once) h
            | inl (es, x) ↦ rw (x, reaper_run_once) (reap-Safe done 0 es n h)
          ]

      -- Take a block whose metadata is stored and whose tier has a store, and an engine that
      -- answers every read. Let the other goroutines, between the cycles of the reaper, keep the
      -- metadata and the files of the block, or leave them away together. Then, however often the
      -- reaper has run, and whether its cycles ended by an error, by the end of the context or by the
      -- last entry, the metadata of the block is as it was, or it is gone and so are both files.
      pub reaper_run-Safe :
          (first : Cycle (Node Db)) (ticks : List (Cycle (Node Db))) (n : Node Db)
          → All (λ t. (n : Node Db) → Safe n → Safe (t.meanwhile n)) (first ∷ ticks)
          → content n.db (block_key id) ≡ some v
          → Safe (reaper_run P tiers first ticks n)
      unfolding reaper_run
      reaper_run-Safe first ticks n others h = turns (first ∷ ticks) n others (inl h)
        where
          turns :
              (ts : List (Cycle (Node Db))) (n : Node Db)
              → All (λ t. (n : Node Db) → Safe n → Safe (t.meanwhile n)) ts
              → Safe n
              → Safe (each_turn (reaper_run_once P tiers) ts n)
          turns [] n others s = s
          turns (t ∷ ts) n (other, others) s =
              turns ts (reaper_run_once P tiers t.done t.now_hour (t.meanwhile n)).1 others
                (reaper_run_once-Safe t.done t.now_hour (t.meanwhile n) (other n s))
