-- ===== src/Index/Sparse/Unique.antt =====
-- internal/block/event.go: what a block ID tells of its block.
use bbdb.Base.{
  ℕ, ◌%◌, ◌^◌, ◌<◌, ◌≡◌, sym, ap, ◌∙◌, subst, ◌∷◌, ◌++◌, some, some-injective, arith, ok,
  ok-injective,
}
use bbdb.Base.Int.{pos, pos_part, neg_part, ◌+ℤ◌, ◌≤ℤ◌, ◌<ℤ◌, IsI64}
use bbdb.Calendar.{Instant, hour_nanos, civil_of}
use bbdb.Calendar.Digits.{hexadecimal, hexadecimal-ne_colon, hexadecimal_injective}
use bbdb.Meta.Keys.{block_id_from_shard_and_hour}
use bbdb.Block.Routing.{hour_text, block_id_for_shard}
use bbdb.Index.Sparse.{split_two, parse_block_hour}
use bbdb.Index.Sparse.Hours.{split_two-append, parse-block_id_for_shard, parsed-whole_hours}

shard-eq :
    (shard shard' : ℕ) (t t' : Instant)
    → shard < 2 ^ 16
    → shard' < 2 ^ 16
    → block_id_for_shard shard t ≡ block_id_for_shard shard' t'
    → shard ≡ shard'
unfolding block_id_for_shard block_id_from_shard_and_hour
shard-eq shard shard' t t' h h' same =
    hexadecimal_injective 4 shard shard' (omega arith) (omega arith) (
      ap (λ p. p.0)
        (some-injective _ _ (sym (parts shard t) ∙ ap (split_two b':') same ∙ parts shard' t')))
  where
    parts :
        (s : ℕ) (u : Instant)
        → split_two b':' (hexadecimal 4 s ++ b':' ∷ hour_text (civil_of u))
          ≡ some (hexadecimal 4 s, hour_text (civil_of u))
    parts s u =
        split_two-append b':' (hexadecimal 4 s) (hour_text (civil_of u)) (hexadecimal-ne_colon 4 s)

-- Two blocks have the same ID only if they are of the same shard, and their instants are in the same hour of
-- the clock: the ID is parsed to the start of an hour, whole hours before or after the epoch, and both instants
-- are in that hour. The shards are of
-- 16 bits and the instants int64 values of nanoseconds.
pub block_id_for_shard_injective :
    (shard shard' : ℕ) (t t' : Instant)
    → shard < 2 ^ 16
    → shard' < 2 ^ 16
    → IsI64 t
    → IsI64 t'
    → block_id_for_shard shard t ≡ block_id_for_shard shard' t'
    → (shard ≡ shard')
      × (h : Instant) × (parse_block_hour (block_id_for_shard shard t) ≡ ok h)
      × (pos_part h % hour_nanos ≡ 0)
      × (neg_part h % hour_nanos ≡ 0)
      × (h ≤ℤ t)
      × (t <ℤ h +ℤ pos hour_nanos)
      × (h ≤ℤ t')
      × (t' <ℤ h +ℤ pos hour_nanos)
block_id_for_shard_injective shard shard' t t' s s' i i' same =
    let (h, parsed, from, to) = parse-block_id_for_shard shard t i in
    let (h', parsed', from', to') = parse-block_id_for_shard shard' t' i' in
    let equal : h' ≡ h =
      ok-injective h' h (sym parsed' ∙ ap parse_block_hour (sym same) ∙ parsed) in
    let (from_epoch, to_epoch) = parsed-whole_hours shard t h i parsed in
    (
      shard-eq shard shard' t t' s s' same,
      h,
      parsed,
      from_epoch,
      to_epoch,
      from,
      to,
      subst (λ x. x ≤ℤ t') equal from',
      subst (λ x. t' <ℤ x +ℤ pos hour_nanos) equal to',
    )
