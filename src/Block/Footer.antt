-- ===== src/Block/Footer.antt =====
-- internal/block/format.go: the fixed 56-byte footer of a block file.
use bbdb.Base.{
  ℕ, ◌+◌, ◌-◌, ◌^◌, ◌<◌, ◌≡◌, refl, [], ◌∷◌, arith, leb, length, drop, replicate, Result, ok,
  footer_too_short, bad_footer_magic, guard, ◌>>◌,
}
use bbdb.Base.Bytes.{Bytes, put_be, copy_at, eq_bytes, uint_at, get_be-put_be}

abbrev pub footer_size : ℕ
footer_size = 56

abbrev pub magic_tbbd : Bytes
magic_tbbd = b'T' ∷ b'B' ∷ b'B' ∷ b'D' ∷ []

-- A `[3]uint64`: for the key_hash, timestamp and payload columns.
pub record Triple : Type 0 where
  pub key_hash : ℕ
  pub timestamp : ℕ
  pub payload : ℕ

pub record BlockFooter : Type 0 where
  pub col_offsets : Triple
  pub col_sizes : Triple
  pub body_checksum : ℕ

pub record IsTriple (t : Triple) : Type 0 where
  pub key_hash : t.key_hash < 2 ^ 64
  pub timestamp : t.timestamp < 2 ^ 64
  pub payload : t.payload < 2 ^ 64

-- The ranges of the Go field types.
pub record IsBlockFooter (f : BlockFooter) : Type 0 where
  pub col_offsets : IsTriple f.col_offsets
  pub col_sizes : IsTriple f.col_sizes
  pub body_checksum : f.body_checksum < 2 ^ 32

-- The loop over a `[3]uint64` from offset `off`.
abbrev put_triple : ℕ → Triple → Bytes → Bytes
put_triple off t buf =
    copy_at (off + 16) (put_be 8 t.payload)
      (copy_at (off + 8) (put_be 8 t.timestamp) (copy_at off (put_be 8 t.key_hash) buf))

abbrev get_triple : ℕ → Bytes → Triple
get_triple off buf = record {
  key_hash = uint_at 8 off buf;
  timestamp = uint_at 8 (off + 8) buf;
  payload = uint_at 8 (off + 16) buf;
}

unfoldable pub encode_footer : BlockFooter → Bytes
encode_footer f = copy_at 52 magic_tbbd (
    copy_at 48 (put_be 4 f.body_checksum)
      (put_triple 24 f.col_sizes (put_triple 0 f.col_offsets (replicate footer_size 0))))

unfoldable pub decode_footer : Bytes → Result BlockFooter
decode_footer buf = do
  guard (leb footer_size (length buf)) (footer_too_short (length buf))
  guard (eq_bytes (drop (footer_size - 4) buf) magic_tbbd) bad_footer_magic
  ok (record {
    col_offsets = get_triple 0 buf;
    col_sizes = get_triple 24 buf;
    body_checksum = uint_at 4 48 buf;
  })

pub length-encode_footer : (f : BlockFooter) → length (encode_footer f) ≡ 56
unfolding encode_footer put_be
length-encode_footer f = refl

-- A footer with fields in range is read back as it was written.
pub decode-encode_footer :
    (f : BlockFooter) → IsBlockFooter f → decode_footer (encode_footer f) ≡ ok f
unfolding encode_footer decode_footer put_be eq_bytes
decode-encode_footer f v = ground (
  arith,
  get_be-put_be 4 f.body_checksum v.body_checksum,
  get_be-put_be 8 f.col_offsets.key_hash v.col_offsets.key_hash,
  get_be-put_be 8 f.col_offsets.timestamp v.col_offsets.timestamp,
  get_be-put_be 8 f.col_offsets.payload v.col_offsets.payload,
  get_be-put_be 8 f.col_sizes.key_hash v.col_sizes.key_hash,
  get_be-put_be 8 f.col_sizes.timestamp v.col_sizes.timestamp,
  get_be-put_be 8 f.col_sizes.payload v.col_sizes.payload,
)
