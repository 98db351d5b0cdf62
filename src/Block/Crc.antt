-- ===== src/Block/Crc.antt =====
-- `crc32.ChecksumIEEE`: the reflected CRC-32 of the IEEE polynomial, bit by bit.
use Prim.Native.Nat.{bit_xor}
use bbdb.Base.{ℕ, ◌-◌, ◌/◌, ◌%◌, ◌^◌, ◌<◌, ◌≡◌, refl, [], ◌∷◌, arith, ◌==◌, if◌then◌else◌}
use bbdb.Base.Bytes.{Bytes}

crc_bit : ℕ → ℕ
crc_bit c = if c % 2 == 1 then bit_xor (c / 2) 0xedb88320 else c / 2

crc_byte : ℕ → ℕ → ℕ
unfolding crc_bit
crc_byte c b =
    let x = bit_xor c b in
    crc_bit (crc_bit (crc_bit (crc_bit (crc_bit (crc_bit (crc_bit (crc_bit x)))))))

crc_from : ℕ → Bytes → ℕ
unfolding crc_byte
crc_from c [] = c
crc_from c (b ∷ bs) = crc_from (crc_byte c b) bs

-- The last step complements the 32 bits.
unfoldable pub crc32 : Bytes → ℕ
unfolding crc_from
crc32 bs = 2 ^ 32 - 1 - crc_from 0xffffffff bs

pub crc32_lt : (bs : Bytes) → crc32 bs < 2 ^ 32
unfolding crc32
crc32_lt bs = omega arith

-- The check value of the standard: the text 123456789.
crc32_check : crc32 (0x31 ∷ 0x32 ∷ 0x33 ∷ 0x34 ∷ 0x35 ∷ 0x36 ∷ 0x37 ∷ 0x38 ∷ 0x39 ∷ []) ≡ 0xcbf43926
unfolding crc32
crc32_check = refl
