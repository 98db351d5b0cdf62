-- ===== src/Block/Stored.antt =====
-- A compressor that stores its input behind one byte, as an instance of the parameter for zstd.
use bbdb.Base.{◌≡◌, refl, [], ◌∷◌, Result, ok, err, io}
use bbdb.Base.Bytes.{Bytes}
use bbdb.Block.Columns.{Zstd}

unfoldable pub unwrap : Bytes → Result Bytes
unwrap [] = err (io 1)
unwrap (b ∷ raw) = ok raw

pub unwrap_lem : (raw : Bytes) → unwrap (0 ∷ raw) ≡ ok raw
unfolding unwrap
unwrap_lem raw = refl

abbrev pub stored : Zstd
unfolding unwrap
stored = record { encode_all = λ raw. 0 ∷ raw; decode_all = unwrap; decode-encode_all = unwrap_lem }
