-- ===== src/Ingestion/Json.antt =====
-- encoding/json of a block.Event, as the log of a shard holds it: the three fields under their names,
-- the payload in base64. A payload without bytes is nil, as the field of a message that leaves it out.
use bbdb.Base.{ℕ, zero, suc, ◌+◌, ◌-◌, ◌*◌, ◌/◌, ◌%◌, [], ◌∷◌, ◌++◌, ltb, ◌==◌, if◌then◌else◌}
use bbdb.Base.Int.{ℤ, pos, negsuc}
use bbdb.Base.Bytes.{Bytes}
use bbdb.Block.Event.{Event}

-- The decimal digits of a number of up to `fuel + 1` digits.
unfoldable pub digits : ℕ → ℕ → Bytes
digits zero n = (b'0' + n % 10) ∷ []
digits (suc fuel) n =
    let rest = digits fuel (n / 10) in
    if ltb n 10 then (b'0' + n) ∷ [] else rest ++ (b'0' + n % 10) ∷ []

-- A uint64 has at most 20 digits.
unfoldable pub number_text : ℤ → Bytes
unfolding digits
number_text (pos n) = digits 19 n
number_text (negsuc n) = b'-' ∷ digits 19 (suc n)

base64_char : ℕ → ℕ
base64_char d =
    if ltb d 26
    then b'A' + d
    else if ltb d 52
    then b'a' + (d - 26)
    else if ltb d 62
    then b'0' + (d - 52)
    else if d == 62
    then b'+'
    else b'/'

-- The standard encoding, padded.
unfoldable pub base64 : Bytes → Bytes
unfolding base64_char
base64 [] = []
base64 (a ∷ []) = base64_char (a / 4) ∷ base64_char (a % 4 * 16) ∷ b'=' ∷ b'=' ∷ []
base64 (a ∷ b ∷ []) =
    base64_char (a / 4) ∷ base64_char (a % 4 * 16 + b / 16) ∷ base64_char (b % 16 * 4) ∷ b'=' ∷ []
base64 (a ∷ b ∷ c ∷ rest) =
    base64_char (a / 4)
    ∷ base64_char (a % 4 * 16 + b / 16)
    ∷ base64_char (b % 16 * 4 + c / 64)
    ∷ base64_char (c % 64)
    ∷ base64 rest

unfoldable pub payload_text : Bytes → Bytes
unfolding base64
payload_text [] = b'n' ∷ b'u' ∷ b'l' ∷ b'l' ∷ []
payload_text (b ∷ bs) = b'"' ∷ (base64 (b ∷ bs) ++ b'"' ∷ [])

-- `{"KeyHash":…,"Timestamp":…,"Payload":…}`
unfoldable pub marshal : Event → Bytes
unfolding number_text payload_text
marshal e =
    (b'{' ∷ b'"' ∷ b'K' ∷ b'e' ∷ b'y' ∷ b'H' ∷ b'a' ∷ b's' ∷ b'h' ∷ b'"' ∷ b':' ∷ [])
    ++ number_text (pos e.key_hash)
    ++ (b',' ∷ b'"' ∷ b'T' ∷ b'i' ∷ b'm' ∷ b'e' ∷ b's' ∷ b't' ∷ b'a' ∷ b'm' ∷ b'p' ∷ b'"' ∷ b':'
        ∷ [])
    ++ number_text e.timestamp
    ++ (b',' ∷ b'"' ∷ b'P' ∷ b'a' ∷ b'y' ∷ b'l' ∷ b'o' ∷ b'a' ∷ b'd' ∷ b'"' ∷ b':' ∷ [])
    ++ payload_text e.payload
    ++ b'}' ∷ []
