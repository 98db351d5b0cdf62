-- ===== src/Block/Routing/FirstByte.antt =====
-- A hash of keys by their first byte.
use bbdb.Base.{ℕ, ◌%◌, ◌^◌, ◌<◌, [], ◌∷◌, arith}
use bbdb.Base.Bytes.{Bytes}
use bbdb.Block.Routing.{Xxhash}

abbrev pub first_byte : Bytes → ℕ
first_byte [] = 0
first_byte (b ∷ bs) = b % 2 ^ 64

pub first_byte_lt : (b : Bytes) → first_byte b < 2 ^ 64
first_byte_lt [] = omega arith
first_byte_lt (b ∷ bs) = omega arith

abbrev pub by_first_byte : Xxhash
by_first_byte = record { sum64 = first_byte; sum64_lt = first_byte_lt }
