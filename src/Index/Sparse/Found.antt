-- ===== src/Index/Sparse/Found.antt =====
-- What a lookup lists.
use mathlib.Core.List.{Mem, mem-cons, mem-cons_self, mem-cons_of_mem, not-mem-nil}
use mathlib.Core.Logic.Or
use bbdb.Base.{
  ℕ, ◌^◌, ◌<◌, ◌≡◌, ◌≢◌, ◌↔◌, subst, List, [], ◌∷◌, true, arith, ok, inl, inr, Bool-cases,
  Result-cases, none, ap, ◌∙◌,
}
use bbdb.Base.Int.{pos, ◌≤ℤ◌, ◌<ℤ◌, ◌+ℤ◌, IsI64}
use bbdb.Kv.{Pebble}
use bbdb.Calendar.{Instant, hour_nanos}
use bbdb.Meta.Keys.{BlockId, idx_key}
use bbdb.Meta.Idx.{idx_lookup_blocks}
use bbdb.Meta.Idx.Lookup.{KeysAreBytes, idx_lookup_blocks_lem}
use bbdb.Block.Routing.{block_id_for_shard}
use bbdb.Index.Sparse.{overlaps, parse_block_hour, in_hours, lookup}
use bbdb.Index.Sparse.Hours.{parse-block_id_for_shard}

in_hours-kept :
    (from to : Instant) (id : BlockId) (ids : List BlockId)
    → overlaps from to (parse_block_hour id) ≡ true
    → Mem id ids
    → Mem id (in_hours from to ids)
unfolding in_hours
in_hours-kept from to id [] o m = absurd (not-mem-nil m)
in_hours-kept from to id (j ∷ ids) o m =
    Or.elim (mem-prop (in_hours from to (j ∷ ids))) (mem-cons.0 m) (λ e. rw (← e, o) mem-cons_self)
      (λ m'. elim (Bool-cases (overlaps from to (parse_block_hour j))) [
        | inl t ↦ rw t (mem-cons_of_mem j (in_hours-kept from to id ids o m'))
        | inr f ↦ rw f (in_hours-kept from to id ids o m')
      ])
  where
    mem-prop : (xs : List BlockId) → IsProp (Mem id xs)
    mem-prop xs = hlevel

in_hours-Mem :
    (from to : Instant) (id : BlockId) (ids : List BlockId)
    → Mem id (in_hours from to ids)
    → Mem id ids
unfolding in_hours
in_hours-Mem from to id [] m = m
in_hours-Mem from to id (j ∷ ids) m = elim (Bool-cases (overlaps from to (parse_block_hour j))) [
  | inr f ↦ mem-cons_of_mem j (in_hours-Mem from to id ids (rw f at m))
  | inl t ↦
      Or.elim (mem-prop (j ∷ ids)) (mem-cons.0 (rw t at m)) (λ e. rw e mem-cons_self)
        (λ m'. mem-cons_of_mem j (in_hours-Mem from to id ids m'))
]
  where
    mem-prop : (xs : List BlockId) → IsProp (Mem id xs)
    mem-prop xs = hlevel

-- The hour of an instant in the range meets the range.
overlaps-hour :
    (from to t h : Instant)
    → from ≤ℤ t
    → t <ℤ to
    → h ≤ℤ t
    → t <ℤ h +ℤ pos hour_nanos
    → overlaps from to (ok h) ≡ true
unfolding overlaps ◌+ℤ◌
overlaps-hour from to t h a b c d = ground arith

module _ (P : Pebble) where
  open P use {Db, content}

  -- A lookup that succeeds over a range lists the block that was opened at an instant of the range
  -- exactly if there is an index key from the event type and the key hash to it. The keys of the
  -- database are bytes.
  pub lookup_lem :
      (db : Db) (et kh shard : ℕ) (from to t : Instant) (ids : List BlockId)
      → et < 2 ^ 8
      → kh < 2 ^ 64
      → KeysAreBytes P db
      → IsI64 t
      → from ≤ℤ t
      → t <ℤ to
      → lookup P db et kh from to ≡ ok ids
      → Mem (block_id_for_shard shard t) ids
        ↔ (content db (idx_key et kh (block_id_for_shard shard t)) ≢ none)
  unfolding lookup
  lookup_lem db et kh shard from to t ids het hkh bytes i lo hi run =
      elim (Result-cases (idx_lookup_blocks P db et kh)) [
        | inr (x, e) ↦ absurd (ground (arith, e, run))
        | inl (all, e) ↦
            let id : BlockId = block_id_for_shard shard t in
            let listed = idx_lookup_blocks_lem P db et kh id all het hkh bytes e in
            let same : in_hours from to all ≡ ids = ground (arith, e, run) in
            let (h, parsed, before, within) = parse-block_id_for_shard shard t i in
            (
              λ m. listed.0 (in_hours-Mem from to id all (rw (same) m)),
              λ k. subst (Mem id) same (
                  in_hours-kept from to id all
                    (ap (overlaps from to) parsed ∙ overlaps-hour from to t h lo hi before within)
                    (listed.1 k)),
            )
      ]
