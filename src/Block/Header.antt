-- ===== src/Block/Header.antt =====
-- internal/block/format.go: the fixed 64-byte header of a block file.
use bbdb.Base.{
  ℕ, ◌^◌, ◌<◌, ◌≡◌, refl, [], ◌∷◌, arith, ◌==◌, leb, length, take, replicate, Result, ok,
  header_too_short, bad_header_magic, header_checksum, guard, ◌>>◌,
}
use bbdb.Base.Int.{ℤ, IsI64, to_u64, of_u64, to_u64_lt, of_u64-to_u64}
use bbdb.Base.Bytes.{Bytes, put_be, copy_at, eq_bytes, uint_at, get_be-put_be}
use bbdb.Block.Crc.{crc32, crc32_lt}

abbrev pub header_size : ℕ
header_size = 64

abbrev pub magic_bbdb : Bytes
magic_bbdb = b'B' ∷ b'B' ∷ b'D' ∷ b'B' ∷ []

abbrev pub version : ℕ
version = 1

pub record BlockHeader : Type 0 where
  pub shard_id : ℕ
  pub event_type : ℕ
  pub opened_at : ℤ
  pub sealed_at : ℤ
  pub row_count : ℕ

-- The ranges of the Go field types.
pub record IsBlockHeader (h : BlockHeader) : Type 0 where
  pub shard_id : h.shard_id < 2 ^ 16
  pub event_type : h.event_type < 2 ^ 8
  pub opened_at : IsI64 h.opened_at
  pub sealed_at : IsI64 h.sealed_at
  pub row_count : h.row_count < 2 ^ 64

-- The first 60 bytes written, with the checksum's place still zero.
header_fields : BlockHeader → Bytes
header_fields h = copy_at 24 (put_be 8 h.row_count) (
    copy_at 16 (put_be 8 (to_u64 h.sealed_at)) (
      copy_at 8 (put_be 8 (to_u64 h.opened_at)) (
        copy_at 7 (h.event_type ∷ []) (
          copy_at 5 (put_be 2 h.shard_id)
            (copy_at 4 (version ∷ []) (copy_at 0 magic_bbdb (replicate header_size 0)))))))

unfoldable pub encode_header : BlockHeader → Bytes
unfolding header_fields
encode_header h = let buf = header_fields h in copy_at 60 (put_be 4 (crc32 (take 60 buf))) buf

unfoldable pub decode_header : Bytes → Result BlockHeader
decode_header buf = do
  guard (leb header_size (length buf)) (header_too_short (length buf))
  guard (eq_bytes (take 4 buf) magic_bbdb) bad_header_magic
  let want = crc32 (take 60 buf)
  let got = uint_at 4 60 buf
  guard (want == got) (header_checksum want got)
  ok (record {
    shard_id = uint_at 2 5 buf;
    event_type = uint_at 1 7 buf;
    opened_at = of_u64 (uint_at 8 8 buf);
    sealed_at = of_u64 (uint_at 8 16 buf);
    row_count = uint_at 8 24 buf;
  })

pub length-encode_header : (h : BlockHeader) → length (encode_header h) ≡ 64
unfolding encode_header put_be
length-encode_header h = refl

-- A header with fields in range is read back as it was written.
pub decode-encode_header :
    (h : BlockHeader) → IsBlockHeader h → decode_header (encode_header h) ≡ ok h
unfolding encode_header decode_header put_be eq_bytes
decode-encode_header h v = ground (
  arith,
  get_be-put_be 4 (crc32 (take 60 (header_fields h))) (crc32_lt (take 60 (header_fields h))),
  get_be-put_be 2 h.shard_id v.shard_id,
  get_be-put_be 1 h.event_type v.event_type,
  get_be-put_be 8 (to_u64 h.opened_at) (to_u64_lt h.opened_at v.opened_at),
  get_be-put_be 8 (to_u64 h.sealed_at) (to_u64_lt h.sealed_at v.sealed_at),
  get_be-put_be 8 h.row_count v.row_count,
  of_u64-to_u64 h.opened_at v.opened_at,
  of_u64-to_u64 h.sealed_at v.sealed_at,
)
