-- ===== src/Meta/Blocks/RoundTrip.antt =====
-- Block metadata of internal/meta/block.go, written and read.
use bbdb.Base.{◌≡◌, ◌≢◌, refl, sym, ap, Option, length, ok, arith, Bool-cases, inl, inr}
use bbdb.Base.Int.{to_u64, to_u64_lt, of_u64-to_u64}
use bbdb.Base.Bytes.{
  Bytes, put_be, get_be-put_be, eq_bytes, eq_bytes_refl, eq_bytes→eq, eq_bytes-append,
}
use bbdb.Kv.{Pebble}
use bbdb.Meta.Engine.{commit_batch-ok}
use bbdb.Meta.Keys.{BlockId, block_key, prefix_block}
use bbdb.Meta.Blocks.{
  BlockMeta, IsBlockMeta, encode_block_meta, decode_block_meta, put_block_meta, get_block_meta,
}

-- Metadata with fields in range is encoded in 31 bytes and decoded as it was.
pub decode-encode_block_meta :
    (m : BlockMeta)
    → IsBlockMeta m
    → (decode_block_meta (encode_block_meta m) ≡ ok m) × (length (encode_block_meta m) ≡ 31)
unfolding encode_block_meta decode_block_meta put_be
decode-encode_block_meta m v = (
  ground (
    arith,
    get_be-put_be 2 m.shard_id v.shard_id,
    get_be-put_be 8 (to_u64 m.opened_at) (to_u64_lt m.opened_at v.opened_at),
    get_be-put_be 8 (to_u64 m.sealed_at) (to_u64_lt m.sealed_at v.sealed_at),
    get_be-put_be 8 m.size v.size,
    get_be-put_be 4 m.checksum v.checksum,
    of_u64-to_u64 m.opened_at v.opened_at,
    of_u64-to_u64 m.sealed_at v.sealed_at,
  ),
  refl,
)

pub block_key-eq : (id j : BlockId) → eq_bytes (block_key id) (block_key j) ≡ eq_bytes id j
unfolding block_key
block_key-eq id j = eq_bytes-append prefix_block id j

module _ (P : Pebble) where
  open P use {Db, content, get}

  -- After a successful write of the metadata of `id`, a read that the engine answers gives exactly
  -- that metadata for `id`, and for any other block what the engine held before.
  pub get-put_block_meta :
      (db db' : Db) (id j : BlockId) (m : BlockMeta) (o : Option Bytes)
      → IsBlockMeta m
      → put_block_meta P id m db ≡ (ok tt, db')
      → get db' (block_key j) ≡ ok o
      → (j ≡ id → get_block_meta P db' j ≡ ok m) × (j ≢ id → o ≡ content db (block_key j))
  unfolding put_block_meta get_block_meta
  get-put_block_meta db db' id j m o v run read = (
    λ same. ground (
      arith,
      read,
      P.get_lem db' (block_key j) o read,
      commit_batch-ok P db db' _ run (block_key j),
      block_key-eq id j,
      ap (λ x. eq_bytes x j) (sym same),
      eq_bytes_refl j,
      (decode-encode_block_meta m v).0,
    ),
    λ other. elim (Bool-cases (eq_bytes id j)) [
      | inl t ↦ absurd (other (sym (eq_bytes→eq id j t)))
      | inr f ↦ ground (
        arith,
        f,
        P.get_lem db' (block_key j) o read,
        commit_batch-ok P db db' _ run (block_key j),
        block_key-eq id j,
      )
    ],
  )
