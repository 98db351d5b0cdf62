-- ===== src/Meta/Keys.antt =====
-- internal/meta/keys.go: the keys of the storage engine, and their parsers. A block ID is its text,
-- as bytes.
pub mod Typed
pub mod RoundTrip
pub mod Order
use bbdb.Base.{
  ℕ, suc, ◌+◌, ◌%◌, ◌^◌, ◌≤◌, ◌<◌, ◌≡◌, refl, List, [], ◌∷◌, ◌++◌, arith, leb, ltb, ◌==◌, ◌&&◌,
  if◌then◌else◌, length, take, drop, get_or, Result, ok, err, Error, invalid_wal_key,
  invalid_block_key, invalid_idx_key, invalid_expiry_key, invalid_migration_key, missing_separator,
  guard, ◌>>=◌, ◌>>◌,
}
use bbdb.Calendar.Digits.{hexadecimal}
use bbdb.Base.Bytes.{Bytes, put_be, get_be, eq_bytes, uint_at}

abbrev pub prefix_wal : Bytes
prefix_wal = b'w' ∷ b'a' ∷ b'l' ∷ 0 ∷ []

abbrev pub prefix_block : Bytes
prefix_block = b'b' ∷ b'l' ∷ b'k' ∷ 0 ∷ []

abbrev pub prefix_idx : Bytes
prefix_idx = b'i' ∷ b'd' ∷ b'x' ∷ 0 ∷ []

abbrev pub prefix_expiry : Bytes
prefix_expiry = b'e' ∷ b'x' ∷ b'p' ∷ 0 ∷ []

abbrev pub prefix_seq : Bytes
prefix_seq = b's' ∷ b'e' ∷ b'q' ∷ 0 ∷ []

abbrev pub prefix_migr : Bytes
prefix_migr = b'm' ∷ b'g' ∷ b'r' ∷ 0 ∷ []

abbrev pub separator : ℕ
separator = b':'

abbrev pub BlockId : Type 0
BlockId = Bytes

unfoldable pub wal_key : ℕ → ℕ → Bytes
wal_key shard seq = prefix_wal ++ (put_be 2 shard ++ put_be 8 seq)

unfoldable pub wal_key_start : ℕ → Bytes
wal_key_start shard = wal_key shard 0

-- `shard + 1` is a uint16: it wraps.
unfoldable pub wal_key_end : ℕ → Bytes
wal_key_end shard = wal_key ((shard + 1) % 2 ^ 16) 0

unfoldable pub parse_wal_key : Bytes → Result (ℕ × ℕ)
parse_wal_key key = do
  guard (length key == 14 && eq_bytes (take 4 key) prefix_wal) invalid_wal_key
  ok (uint_at 2 4 key, uint_at 8 6 key)

unfoldable pub block_key : BlockId → Bytes
block_key id = prefix_block ++ id

unfoldable pub parse_block_key : Bytes → Result BlockId
parse_block_key key = do
  guard (ltb 4 (length key) && eq_bytes (take 4 key) prefix_block) invalid_block_key
  ok (drop 4 key)

unfoldable pub idx_key_prefix : ℕ → ℕ → Bytes
idx_key_prefix event_type key_hash =
    prefix_idx ++ event_type ∷ (put_be 8 key_hash ++ separator ∷ [])

-- The upper bound of `IdxLookupBlocks`: the prefix with its last byte, the separator, raised by one.
unfoldable pub idx_key_upper : ℕ → ℕ → Bytes
idx_key_upper event_type key_hash =
    prefix_idx ++ event_type ∷ (put_be 8 key_hash ++ (separator + 1) ∷ [])

unfoldable pub idx_key : ℕ → ℕ → BlockId → Bytes
idx_key event_type key_hash id = prefix_idx ++ event_type ∷ (put_be 8 key_hash ++ separator ∷ id)

unfoldable pub parse_idx_key : Bytes → Result (ℕ × ℕ × BlockId)
parse_idx_key key = do
  guard (leb 14 (length key) && eq_bytes (take 4 key) prefix_idx) invalid_idx_key
  guard (get_or key 13 0 == separator) missing_separator
  ok (get_or key 4 0, uint_at 8 5 key, drop 14 key)

unfoldable pub expiry_key : ℕ → BlockId → Bytes
expiry_key unix_hour id = prefix_expiry ++ (put_be 8 unix_hour ++ separator ∷ id)

-- `unixHour + 1` is a uint64: it wraps.
unfoldable pub expiry_key_upper_bound : ℕ → Bytes
expiry_key_upper_bound unix_hour = prefix_expiry ++ put_be 8 ((unix_hour + 1) % 2 ^ 64)

unfoldable pub parse_expiry_key : Bytes → Result (ℕ × BlockId)
parse_expiry_key key = do
  guard (leb 13 (length key) && eq_bytes (take 4 key) prefix_expiry) invalid_expiry_key
  guard (get_or key 12 0 == separator) missing_separator
  ok (uint_at 8 4 key, drop 13 key)

unfoldable pub wal_seq_key : ℕ → Bytes
wal_seq_key shard = prefix_seq ++ put_be 2 shard

unfoldable pub migration_key : BlockId → Bytes
migration_key id = prefix_migr ++ id

unfoldable pub parse_migration_key : Bytes → Result BlockId
parse_migration_key key = do
  guard (ltb 4 (length key) && eq_bytes (take 4 key) prefix_migr) invalid_migration_key
  ok (drop 4 key)

-- The shard in four hexadecimal digits, a colon, and the hour.
unfoldable pub block_id_from_shard_and_hour : ℕ → Bytes → BlockId
block_id_from_shard_and_hour shard hour = hexadecimal 4 shard ++ separator ∷ hour
