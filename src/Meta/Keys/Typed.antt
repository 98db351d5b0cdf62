-- ===== src/Meta/Keys/Typed.antt =====
-- The bytes of the keys of the metadata database.
use bbdb.Base.{ℕ, zero, suc, ◌/◌, ◌%◌, ◌<◌, [], ◌∷◌, ◌++◌, All, arith}
use bbdb.Base.Bytes.{Bytes, IsByte, put_be}
use bbdb.Calendar.Digits.{hexadecimal, hexadecimal-IsByte}
use bbdb.Meta.Keys.{
  prefix_wal, prefix_seq, prefix_block, prefix_expiry, prefix_idx, separator, BlockId, wal_key,
  wal_seq_key, block_key, idx_key, expiry_key, block_id_from_shard_and_hour,
}

abbrev pub AreBytes : Bytes → Type 0
AreBytes bs = All IsByte bs

pub append-AreBytes : (xs ys : Bytes) → AreBytes xs → AreBytes ys → AreBytes (xs ++ ys)
append-AreBytes [] ys a b = b
append-AreBytes (x ∷ xs) ys a b = (a.0, append-AreBytes xs ys a.1 b)

put_be-AreBytes : (n v : ℕ) → AreBytes (put_be n v)
unfolding put_be
put_be-AreBytes zero v = tt
put_be-AreBytes (suc n) v =
    append-AreBytes (put_be n (v / 256)) (v % 256 ∷ []) (put_be-AreBytes n (v / 256))
      (omega arith, tt)

pub wal_key-AreBytes : (shard seq : ℕ) → AreBytes (wal_key shard seq)
unfolding wal_key
wal_key-AreBytes shard seq =
    append-AreBytes prefix_wal (put_be 2 shard ++ put_be 8 seq) (omega arith) (
      append-AreBytes (put_be 2 shard) (put_be 8 seq) (put_be-AreBytes 2 shard)
        (put_be-AreBytes 8 seq))

pub wal_seq_key-AreBytes : (shard : ℕ) → AreBytes (wal_seq_key shard)
unfolding wal_seq_key
wal_seq_key-AreBytes shard =
    append-AreBytes prefix_seq (put_be 2 shard) (omega arith) (put_be-AreBytes 2 shard)

pub block_key-AreBytes : (id : BlockId) → AreBytes id → AreBytes (block_key id)
unfolding block_key
block_key-AreBytes id b = append-AreBytes prefix_block id (omega arith) b

-- An integer of eight bytes, a separator and an ID.
named-AreBytes : (n : ℕ) (id : BlockId) → AreBytes id → AreBytes (put_be 8 n ++ separator ∷ id)
named-AreBytes n id b =
    append-AreBytes (put_be 8 n) (separator ∷ id) (put_be-AreBytes 8 n) (omega arith, b)

pub expiry_key-AreBytes : (hour : ℕ) (id : BlockId) → AreBytes id → AreBytes (expiry_key hour id)
unfolding expiry_key
expiry_key-AreBytes hour id b =
    append-AreBytes prefix_expiry (put_be 8 hour ++ separator ∷ id) (omega arith)
      (named-AreBytes hour id b)

pub idx_key-AreBytes :
    (event_type key_hash : ℕ) (id : BlockId)
    → event_type < 256
    → AreBytes id
    → AreBytes (idx_key event_type key_hash id)
unfolding idx_key
idx_key-AreBytes event_type key_hash id small b =
    append-AreBytes prefix_idx (event_type ∷ (put_be 8 key_hash ++ separator ∷ id)) (omega arith)
      (small, named-AreBytes key_hash id b)

pub block_id_from_shard_and_hour-AreBytes :
    (shard : ℕ) (hour : Bytes) → AreBytes hour → AreBytes (block_id_from_shard_and_hour shard hour)
unfolding block_id_from_shard_and_hour
block_id_from_shard_and_hour-AreBytes shard hour b =
    append-AreBytes (hexadecimal 4 shard) (separator ∷ hour) (hexadecimal-IsByte 4 shard)
      (omega arith, b)
