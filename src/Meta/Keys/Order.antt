-- ===== src/Meta/Keys/Order.antt =====
-- How the keys of keys.go lie in the order of the engine: which ranges hold which keys.
use bbdb.Base.{
  ℕ, suc, ◌+◌, ◌%◌, ◌^◌, ◌<◌, ◌≡◌, false, ◌&&◌, [], ◌∷◌, ◌++◌, arith, ltb, leb, ◌==◌, if◌then◌else◌,
  append-nil,
}
use bbdb.Base.Bytes.{put_be, ltb_bytes, ltb_bytes-append, ltb_bytes-put_be, ltb_bytes-nil}
use bbdb.Kv.Sorted.{in_range}
use bbdb.Meta.Keys.{
  BlockId, prefix_wal, prefix_expiry, wal_key, wal_key_start, wal_key_end, idx_key, idx_key_prefix,
  expiry_key, expiry_key_upper_bound, separator, prefix_idx, idx_key_upper,
}

-- WAL keys are ordered by shard, then by sequence number.
pub ltb_bytes-wal_key :
    (s t i j : ℕ)
    → s < 2 ^ 16
    → t < 2 ^ 16
    → i < 2 ^ 64
    → j < 2 ^ 64
    → ltb_bytes (wal_key s i) (wal_key t j) ≡ (if s == t then ltb i j else ltb s t)
unfolding wal_key
ltb_bytes-wal_key s t i j hs ht hi hj =
    rw
      (
        ltb_bytes-append prefix_wal (put_be 2 s ++ put_be 8 i) (put_be 2 t ++ put_be 8 j),
        ltb_bytes-put_be 2 s t (put_be 8 i) (put_be 8 j) hs ht,
        ← append-nil (put_be 8 i),
        ← append-nil (put_be 8 j),
        ltb_bytes-put_be 8 i j [] [] hi hj,
      )
      (unfold ltb_bytes in ground arith)

-- The range from `wal_key_start` to `wal_key_end` holds the WAL keys of its shard and no others,
-- for every shard but 65535.
pub in_range-wal_key :
    (s t i : ℕ)
    → suc s < 2 ^ 16
    → t < 2 ^ 16
    → i < 2 ^ 64
    → in_range (wal_key_start s) (wal_key_end s) (wal_key t i) ≡ (t == s)
unfolding wal_key_start wal_key_end
in_range-wal_key s t i hs ht hi = ground (
  arith,
  ltb_bytes-wal_key t s i 0 ht (omega arith) hi (omega arith),
  ltb_bytes-wal_key t ((s + 1) % 2 ^ 16) i 0 ht (omega arith) hi (omega arith),
)

-- The end of the last shard's range wraps to the key of shard 0: the range holds no WAL key at all.
pub in_range-wal_key_last :
    (t i : ℕ)
    → t < 2 ^ 16
    → i < 2 ^ 64
    → in_range (wal_key_start 65535) (wal_key_end 65535) (wal_key t i) ≡ false
unfolding wal_key_start wal_key_end
in_range-wal_key_last t i ht hi = ground (
  arith,
  ltb_bytes-wal_key t 65535 i 0 ht (omega arith) hi (omega arith),
  ltb_bytes-wal_key t 0 i 0 ht (omega arith) hi (omega arith),
)

-- The range that a scan up to an hour reads holds the expiry keys of that hour and before, whatever
-- their block IDs, for every hour but the last of a uint64.
pub in_range-expiry_key :
    (now hour : ℕ) (id : BlockId)
    → suc now < 2 ^ 64
    → hour < 2 ^ 64
    → in_range prefix_expiry (expiry_key_upper_bound now) (expiry_key hour id) ≡ leb hour now
unfolding expiry_key expiry_key_upper_bound
in_range-expiry_key now hour id hn hh =
    rw
      (
        ltb_bytes-append prefix_expiry (put_be 8 hour ++ separator ∷ id) [],
        ltb_bytes-append prefix_expiry (put_be 8 hour ++ separator ∷ id)
            (put_be 8 ((now + 1) % 2 ^ 64)),
        ltb_bytes-nil (put_be 8 hour ++ separator ∷ id),
        ← append-nil (put_be 8 ((now + 1) % 2 ^ 64)),
        ltb_bytes-put_be 8 hour ((now + 1) % 2 ^ 64) (separator ∷ id) [] hh (omega arith),
      )
      (unfold ltb_bytes in ground arith)

-- The range that a lookup reads holds the index keys of its event type and key hash and no others,
-- whatever their block IDs.
pub in_range-idx_key :
    (et kh et' kh' : ℕ) (id : BlockId)
    → kh < 2 ^ 64
    → kh' < 2 ^ 64
    → in_range (idx_key_prefix et kh) (idx_key_upper et kh) (idx_key et' kh' id)
      ≡ (et' == et && kh' == kh)
unfolding idx_key idx_key_prefix idx_key_upper
in_range-idx_key et kh et' kh' id h h' =
    rw
      (
        ltb_bytes-append prefix_idx (et' ∷ (put_be 8 kh' ++ separator ∷ id))
            (et ∷ (put_be 8 kh ++ separator ∷ [])),
        ltb_bytes-append prefix_idx (et' ∷ (put_be 8 kh' ++ separator ∷ id))
            (et ∷ (put_be 8 kh ++ (separator + 1) ∷ [])),
      )
      (unfold ltb_bytes in
        ground (
          arith,
          ltb_bytes-put_be 8 kh' kh (separator ∷ id) (separator ∷ []) h' h,
          ltb_bytes-put_be 8 kh' kh (separator ∷ id) ((separator + 1) ∷ []) h' h,
          ltb_bytes-nil id,
        ))
