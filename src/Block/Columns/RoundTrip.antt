-- ===== src/Block/Columns/RoundTrip.antt =====
-- The columns of internal/block/format.go, compressed and decompressed.
use bbdb.Base.{
  ℕ, zero, suc, ◌*◌, ◌/◌, ◌%◌, ◌^◌, ◌≤◌, ◌<◌, ◌≡◌, refl, ap, List, [], ◌∷◌, map, arith, length, All,
  take-append, drop-append, length-append, ok, ap₂, sym,
}
use native.Mathlib.Nat.{mod-eq_of_lt}
use bbdb.Base.Int.{ℤ, IsI64, to_u64, of_u64, to_u64_lt, of_u64-to_u64}
use bbdb.Base.Bytes.{Bytes, put_be, get_be-put_be, length-put_be}
use bbdb.Block.Columns.{
  Zstd, put_u64s, get_u64s, put_payloads, get_payloads, compress_uint64_column,
  decompress_uint64_column, compress_int64_column, decompress_int64_column, compress_bytes_column,
  decompress_bytes_column,
}

length-put_u64s : (vs : List ℕ) → length (put_u64s vs) ≡ 8 * length vs
unfolding put_u64s
length-put_u64s [] = refl
length-put_u64s (v ∷ vs) =
    omega (arith, length-append (put_be 8 v) (put_u64s vs), length-put_be 8 v, length-put_u64s vs)

abbrev pub IsU64 : ℕ → Type 0
IsU64 v = v < 2 ^ 64

get_u64s-put_u64s : (vs : List ℕ) → All IsU64 vs → get_u64s (length vs) (put_u64s vs) ≡ vs
unfolding put_u64s get_u64s
get_u64s-put_u64s [] h = refl
get_u64s-put_u64s (v ∷ vs) h = rw (
  take-append (put_be 8 v) (put_u64s vs) 8 (sym (length-put_be 8 v)),
  drop-append (put_be 8 v) (put_u64s vs) 8 (sym (length-put_be 8 v)),
  get_be-put_be 8 v h.0,
  get_u64s-put_u64s vs h.1,
)

get_payloads-put_payloads :
    (ps : List Bytes) (fuel : ℕ)
    → All (λ p. length p < 2 ^ 32) ps
    → length (put_payloads ps) ≤ fuel
    → get_payloads fuel (put_payloads ps) ≡ ok ps
unfolding put_payloads get_payloads put_be
get_payloads-put_payloads [] fuel h k = ground arith
get_payloads-put_payloads (p ∷ ps) zero h k = absurd (omega arith)
get_payloads-put_payloads (p ∷ ps) (suc fuel) h k = ground (
  arith,
  get_be-put_be 4 (length p % 2 ^ 32) (omega arith),
  mod-eq_of_lt h.0,
  length-append p (put_payloads ps),
  take-append p (put_payloads ps) (length p) refl,
  drop-append p (put_payloads ps) (length p) refl,
  get_payloads-put_payloads ps fuel h.1 (omega (arith, length-append p (put_payloads ps))),
)

All-to_u64 : (ts : List ℤ) → All IsI64 ts → All IsU64 (map to_u64 ts)
All-to_u64 [] h = tt
All-to_u64 (t ∷ ts) h = (to_u64_lt t h.0, All-to_u64 ts h.1)

map-of_u64-to_u64 : (ts : List ℤ) → All IsI64 ts → map of_u64 (map to_u64 ts) ≡ ts
map-of_u64-to_u64 [] h = refl
map-of_u64-to_u64 (t ∷ ts) h = ap₂ ◌∷◌ (of_u64-to_u64 t h.0) (map-of_u64-to_u64 ts h.1)

module _ (z : Zstd) where
  -- Any list of 64-bit values survives the key_hash column.
  pub decompress-compress_uint64_column :
      (vals : List ℕ)
      → All IsU64 vals
      → decompress_uint64_column z (compress_uint64_column z vals) ≡ ok vals
  unfolding compress_uint64_column decompress_uint64_column
  decompress-compress_uint64_column vals h = rw (z.decode-encode_all (put_u64s vals)) (
      ground (
        arith,
        length-put_u64s vals,
        get_u64s-put_u64s vals h,
        ap (λ n. get_u64s n (put_u64s vals))
            (let e : length (put_u64s vals) / 8 ≡ length vals =
                omega (arith, length-put_u64s vals) in
              e),
      ))

  -- Any list of signed 64-bit values survives the timestamp column.
  pub decompress-compress_int64_column :
      (vals : List ℤ)
      → All IsI64 vals
      → decompress_int64_column z (compress_int64_column z vals) ≡ ok vals
  unfolding compress_int64_column decompress_int64_column
  decompress-compress_int64_column vals h = rw (z.decode-encode_all (put_u64s (map to_u64 vals))) (
      ground (
        arith,
        length-put_u64s (map to_u64 vals),
        get_u64s-put_u64s (map to_u64 vals) (All-to_u64 vals h),
        map-of_u64-to_u64 vals h,
        ap (λ n. get_u64s n (put_u64s (map to_u64 vals)))
            (let e : length (put_u64s (map to_u64 vals)) / 8 ≡ length (map to_u64 vals) =
                omega (arith, length-put_u64s (map to_u64 vals)) in
              e),
      ))

  -- Payloads shorter than 4 GiB survive the payload column.
  pub decompress-compress_bytes_column :
      (payloads : List Bytes)
      → All (λ p. length p < 2 ^ 32) payloads
      → decompress_bytes_column z (compress_bytes_column z payloads) ≡ ok payloads
  unfolding compress_bytes_column decompress_bytes_column
  decompress-compress_bytes_column payloads h =
      rw (z.decode-encode_all (put_payloads payloads))
        (get_payloads-put_payloads payloads (length (put_payloads payloads)) h (omega arith))
