-- ===== src/Index/Sparse.antt =====
-- internal/index/index.go: the blocks of a key, by the hour that their IDs name.
pub mod Hours
pub mod Found
pub mod Unique
use bbdb.Base.{
  ℕ, ◌≡◌, List, [], ◌∷◌, Bool, true, false, Option, none, some, ◌==◌, ◌&&◌, if◌then◌else◌, Result,
  ok, err, Error, invalid_block_id, ◌>>=◌,
}
use bbdb.Base.Int.{ℤ, pos, pos_part, ◌+ℤ◌, ltb_ℤ}
use bbdb.Base.Bytes.{Bytes}
use bbdb.Base.State.{St}
use bbdb.Kv.{Pebble}
use bbdb.Calendar.{Instant, hour_nanos, date}
use bbdb.Calendar.Digits.{atoi}
use bbdb.Meta.Keys.{BlockId}
use bbdb.Meta.Idx.{idx_lookup_blocks, put_idx_batch}

-- `strings.SplitN(s, sep, 2)`: the two parts, or none where `sep` does not occur.
unfoldable pub split_two : ℕ → Bytes → Option (Bytes × Bytes)
split_two sep [] = none
split_two sep (b ∷ bs) =
    let rest = split_two sep bs in
    if b == sep then some ([], bs) else elim rest [ none ↦ none | some (l, r) ↦ some (b ∷ l, r) ]

-- A byte at the front of the first part.
abbrev onto_first : ℕ → List Bytes → List Bytes
onto_first b [] = (b ∷ []) ∷ []
onto_first b (p ∷ ps) = (b ∷ p) ∷ ps

-- `strings.Split(s, sep)`
unfoldable pub split_all : ℕ → Bytes → List Bytes
split_all sep [] = [] ∷ []
split_all sep (b ∷ bs) =
    let rest = split_all sep bs in if b == sep then [] ∷ rest else onto_first b rest

-- The three parts of a date. No part holds a `-`, so no number is negative.
unfoldable pub date_of : List Bytes → Bytes → Result Instant
date_of (y ∷ m ∷ d ∷ []) hour =
    ok (date (pos_part (atoi y)) (pos_part (atoi m)) (pos_part (atoi d)) (atoi hour))
date_of ymd hour = err invalid_block_id

unfoldable pub parse_block_hour : BlockId → Result Instant
unfolding split_two split_all date_of
parse_block_hour id = elim (split_two b':' id) [
  | none ↦ err invalid_block_id
  | some (shard, hour_str) ↦ elim (split_two b'T' hour_str) [
    | none ↦ err invalid_block_id
    | some (ymd, hour) ↦ date_of (split_all b'-' ymd) hour
  ]
]

-- Whether the hour that was parsed meets the range; where none was, the block is passed over.
unfoldable pub overlaps : Instant → Instant → Result Instant → Bool
overlaps from to (err e) = false
overlaps from to (ok h) = ltb_ℤ h to && ltb_ℤ from (h +ℤ pos hour_nanos)

-- The loop over the IDs.
unfoldable pub in_hours : Instant → Instant → List BlockId → List BlockId
unfolding overlaps
in_hours from to [] = []
in_hours from to (id ∷ ids) =
    let rest = in_hours from to ids in
    if overlaps from to (parse_block_hour id) then id ∷ rest else rest

module _ (P : Pebble) where
  open P use {Db}

  unfoldable pub add_block : ℕ → ℕ → BlockId → St Db (Unit {0})
  add_block event_type key_hash id = put_idx_batch P event_type (key_hash ∷ []) id

  unfoldable pub lookup : Db → ℕ → ℕ → Instant → Instant → Result (List BlockId)
  unfolding in_hours
  lookup db event_type key_hash from to = do
    all ← idx_lookup_blocks P db event_type key_hash
    ok (in_hours from to all)
