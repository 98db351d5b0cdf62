-- ===== src/Block/Columns.antt =====
-- internal/block/format.go: the three compressed columns. The compressor (zstd) is a parameter.
pub mod RoundTrip
use bbdb.Base.{
  ℕ, zero, suc, ◌+◌, ◌-◌, ◌*◌, ◌/◌, ◌%◌, ◌^◌, ◌≤◌, ◌<◌, ◌≡◌, refl, ap, ◌∙◌, Bool-cases, inl, inr,
  List, [], ◌∷◌, ◌++◌, map, append_assoc, append-nil, arith, leb, ltb, ◌==◌, if◌then◌else◌, length,
  take, drop, All, take-append, drop-append, length-append, Result, ok, err, Error,
  column_not_multiple, truncated_prefix, truncated_payload, guard, ◌>>=◌, ◌>>◌, >>=-eq-ok, true,
  false, lt→ltb, le→ltb,
}
use bbdb.Base.Int.{ℤ, IsI64, to_u64, of_u64, to_u64_lt, of_u64-to_u64}
use bbdb.Base.Bytes.{Bytes, put_be, get_be, uint_at, get_be-put_be, length-put_be}

-- klauspost/compress/zstd: `EncodeAll` cannot fail, and `DecodeAll` undoes it.
pub record Zstd : Type 0 where
  pub encode_all : Bytes → Bytes
  pub decode_all : Bytes → Result Bytes
  pub decode-encode_all : (raw : Bytes) → decode_all (encode_all raw) ≡ ok raw

-- The bytes of a uint64 column before compression.
unfoldable pub put_u64s : List ℕ → Bytes
put_u64s [] = []
put_u64s (v ∷ vs) = put_be 8 v ++ put_u64s vs

-- `n` values from the front of the raw bytes.
unfoldable pub get_u64s : ℕ → Bytes → List ℕ
get_u64s zero raw = []
get_u64s (suc n) raw = uint_at 8 0 raw ∷ get_u64s n (drop 8 raw)

unfoldable pub put_payloads : List Bytes → Bytes
put_payloads [] = []
put_payloads (p ∷ ps) = put_be 4 (length p % 2 ^ 32) ++ (p ++ put_payloads ps)

-- The loop `for i := 0; i < len(raw)`, over what is left of the bytes. Each round takes 4 bytes at
-- least, so as many rounds as there are bytes are enough.
unfoldable pub get_payloads : ℕ → Bytes → Result (List Bytes)
get_payloads fuel [] = ok []
get_payloads zero (b ∷ raw) = err Error.panic
get_payloads (suc fuel) (b ∷ raw) =
    let rest = b ∷ raw in
    let n = uint_at 4 0 rest in
    let body = drop 4 rest in
    let more = (do ps ← get_payloads fuel (drop n body); ok (take n body ∷ ps)) in
    if ltb (length rest) 4
    then err truncated_prefix
    else if ltb (length body) n
    then err truncated_payload
    else more

module _ (z : Zstd) where
  open z use {encode_all, decode_all}

  unfoldable pub compress_uint64_column : List ℕ → Bytes
  compress_uint64_column vals = encode_all (put_u64s vals)

  unfoldable pub decompress_uint64_column : Bytes → Result (List ℕ)
  decompress_uint64_column column = do
    raw ← decode_all column
    guard (length raw % 8 == 0) column_not_multiple
    ok (get_u64s (length raw / 8) raw)

  unfoldable pub compress_int64_column : List ℤ → Bytes
  compress_int64_column vals = encode_all (put_u64s (map to_u64 vals))

  unfoldable pub decompress_int64_column : Bytes → Result (List ℤ)
  decompress_int64_column column = do
    raw ← decode_all column
    guard (length raw % 8 == 0) column_not_multiple
    ok (map of_u64 (get_u64s (length raw / 8) raw))

  unfoldable pub compress_bytes_column : List Bytes → Bytes
  compress_bytes_column payloads = encode_all (put_payloads payloads)

  unfoldable pub decompress_bytes_column : Bytes → Result (List Bytes)
  decompress_bytes_column column = do raw ← decode_all column; get_payloads (length raw) raw
