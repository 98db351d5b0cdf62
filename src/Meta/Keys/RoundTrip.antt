-- ===== src/Meta/Keys/RoundTrip.antt =====
-- The constructors and the parsers of internal/meta/keys.go against each other.
use bbdb.Base.{ℕ, ◌^◌, ◌<◌, ◌≡◌, ◌≢◌, refl, [], ◌∷◌, arith, ok, err, invalid_block_key}
use bbdb.Base.Bytes.{put_be, eq_bytes, get_be-put_be}
use bbdb.Meta.Keys.{
  BlockId, wal_key, parse_wal_key, block_key, parse_block_key, idx_key, parse_idx_key, expiry_key,
  parse_expiry_key, migration_key, parse_migration_key,
}

-- A WAL key gives back its shard and its sequence number.
pub parse-wal_key :
    (shard seq : ℕ)
    → shard < 2 ^ 16
    → seq < 2 ^ 64
    → parse_wal_key (wal_key shard seq) ≡ ok (shard, seq)
unfolding wal_key parse_wal_key put_be eq_bytes
parse-wal_key shard seq h k = ground (arith, get_be-put_be 2 shard h, get_be-put_be 8 seq k)

-- An index key gives back the event type, the key hash and the block ID, whatever bytes the ID has.
pub parse-idx_key :
    (event_type key_hash : ℕ) (id : BlockId)
    → event_type < 2 ^ 8
    → key_hash < 2 ^ 64
    → parse_idx_key (idx_key event_type key_hash id) ≡ ok (event_type, key_hash, id)
unfolding idx_key parse_idx_key put_be eq_bytes
parse-idx_key event_type key_hash id h k = ground (arith, get_be-put_be 8 key_hash k)

-- An expiry key gives back the hour and the block ID, whatever bytes the ID has.
pub parse-expiry_key :
    (unix_hour : ℕ) (id : BlockId)
    → unix_hour < 2 ^ 64
    → parse_expiry_key (expiry_key unix_hour id) ≡ ok (unix_hour, id)
unfolding expiry_key parse_expiry_key put_be eq_bytes
parse-expiry_key unix_hour id h = ground (arith, get_be-put_be 8 unix_hour h)

-- A block key gives back its ID; the key of the empty ID is refused.
pub parse-block_key :
    (id : BlockId)
    → (id ≢ [] → parse_block_key (block_key id) ≡ ok id)
      × (parse_block_key (block_key []) ≡ err invalid_block_key)
unfolding block_key parse_block_key eq_bytes
parse-block_key id = (λ h. ground arith, ground arith)

pub parse-migration_key : (id : BlockId) → id ≢ [] → parse_migration_key (migration_key id) ≡ ok id
unfolding migration_key parse_migration_key eq_bytes
parse-migration_key [] h = absurd (h refl)
parse-migration_key (b ∷ id) h = ground arith
