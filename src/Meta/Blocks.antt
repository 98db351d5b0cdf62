-- ===== src/Meta/Blocks.antt =====
-- internal/meta/block.go and types.go: the metadata of a sealed block and its 31 bytes.
pub mod RoundTrip
use bbdb.Base.{
  ℕ, suc, ◌+◌, ◌^◌, ◌≤◌, ◌<◌, ◌≡◌, refl, List, [], ◌∷◌, Bool, true, false, Option, none, some, leb,
  if◌then◌else◌, length, take, drop, get_or, replicate, Result, ok, err, Error,
  block_meta_too_short, not_found, guard, ◌>>=◌, ◌>>◌,
}
use bbdb.Base.Int.{ℤ, IsI64, to_u64, of_u64}
use bbdb.Base.Bytes.{Bytes, put_be, get_be, copy_at, uint_at}
use bbdb.Base.State.{St}
use bbdb.Kv.{Pebble}
use bbdb.Meta.Engine.{set_one, delete_one}
use bbdb.Meta.Keys.{BlockId, block_key}

-- A `Tier` is a uint8; three values have names.
abbrev pub tier_hot : ℕ
tier_hot = 0

abbrev pub tier_warm : ℕ
tier_warm = 1

abbrev pub tier_cold : ℕ
tier_cold = 2

pub record BlockMeta : Type 0 where
  pub shard_id : ℕ
  pub opened_at : ℤ
  pub sealed_at : ℤ
  pub tier : ℕ
  pub size : ℕ
  pub checksum : ℕ

-- The ranges of the Go field types.
pub record IsBlockMeta (m : BlockMeta) : Type 0 where
  pub shard_id : m.shard_id < 2 ^ 16
  pub opened_at : IsI64 m.opened_at
  pub sealed_at : IsI64 m.sealed_at
  pub tier : m.tier < 2 ^ 8
  pub size : m.size < 2 ^ 64
  pub checksum : m.checksum < 2 ^ 32

abbrev pub block_meta_size : ℕ
block_meta_size = 2 + 8 + 8 + 1 + 8 + 4

unfoldable pub encode_block_meta : BlockMeta → Bytes
encode_block_meta m = copy_at 27 (put_be 4 m.checksum) (
    copy_at 19 (put_be 8 m.size) (
      copy_at 18 (m.tier ∷ []) (
        copy_at 10 (put_be 8 (to_u64 m.sealed_at)) (
          copy_at 2 (put_be 8 (to_u64 m.opened_at))
            (copy_at 0 (put_be 2 m.shard_id) (replicate block_meta_size 0))))))

unfoldable pub decode_block_meta : Bytes → Result BlockMeta
decode_block_meta buf = do
  guard (leb block_meta_size (length buf)) block_meta_too_short
  ok (record {
    shard_id = uint_at 2 0 buf;
    opened_at = of_u64 (uint_at 8 2 buf);
    sealed_at = of_u64 (uint_at 8 10 buf);
    tier = get_or buf 18 0;
    size = uint_at 8 19 buf;
    checksum = uint_at 4 27 buf;
  })

module _ (P : Pebble) where
  open P use {Db, get}

  unfoldable pub put_block_meta : BlockId → BlockMeta → St Db (Unit {0})
  put_block_meta id m = set_one P (block_key id) (encode_block_meta m)

  unfoldable pub get_block_meta : Db → BlockId → Result BlockMeta
  get_block_meta db id = elim (get db (block_key id)) [
    | err e ↦ err e
    | ok none ↦ err not_found
    | ok (some val) ↦ decode_block_meta val
  ]

  unfoldable pub delete_block_meta : BlockId → St Db (Unit {0})
  delete_block_meta id = delete_one P (block_key id)
