-- ===== src/Block/Routing.antt =====
-- internal/block/event.go: the shard and the hash of a partition key, and the ID of the block of a
-- shard and an hour. The hash xxhash is a parameter.
pub mod FirstByte
use bbdb.Base.{ℕ, ◌+◌, ◌*◌, ◌-◌, ◌%◌, ◌^◌, ◌<◌, ◌++◌, ◌∷◌}
use bbdb.Base.Int.{ℤ, pos, pos_part, neg_part, of_u64}
use bbdb.Base.Bytes.{Bytes}
use bbdb.Calendar.{Instant, Civil, civil_of, date}
use bbdb.Calendar.Digits.{decimal}
use bbdb.Meta.Keys.{BlockId, block_id_from_shard_and_hour}

pub record Xxhash : Type 0 where
  pub sum64 : Bytes → ℕ
  pub sum64_lt : (b : Bytes) → sum64 b < 2 ^ 64

-- The event type is a uint8: the two parts of the shard do not overlap.
unfoldable pub shard_for : Xxhash → Bytes → ℕ → ℕ
shard_for x partition_key event_type = event_type * 2 ^ 8 + x.sum64 partition_key % 256

unfoldable pub key_hash_for : Xxhash → Bytes → ℕ
key_hash_for x partition_key = x.sum64 partition_key

-- YYYY-MM-DDTHH. The years of an int64 of nanoseconds have four digits.
unfoldable pub hour_text : Civil → Bytes
hour_text c =
    decimal 4 c.year
    ++ b'-' ∷ (decimal 2 c.month ++ b'-' ∷ (decimal 2 c.day ++ b'T' ∷ decimal 2 c.hour))

unfoldable pub block_id_for_shard : ℕ → Instant → BlockId
unfolding hour_text
block_id_for_shard shard t = block_id_from_shard_and_hour shard (hour_text (civil_of t))

-- `t.UnixNano()`: the low 64 bits.
unfoldable pub unix_nano : Instant → ℤ
unix_nano t = of_u64 ((pos_part t % 2 ^ 64 + (2 ^ 64 - neg_part t % 2 ^ 64)) % 2 ^ 64)

unfoldable pub hour_boundary_nano : Instant → ℤ
unfolding unix_nano
hour_boundary_nano t = let c = civil_of t in unix_nano (date c.year c.month c.day (pos c.hour))
