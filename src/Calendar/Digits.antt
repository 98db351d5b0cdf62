-- ===== src/Calendar/Digits.antt =====
-- strconv and the verbs %04d, %02d and %04x of fmt.
use native.Mathlib.Nat.{pow-suc}
use bbdb.Base.{
  ℕ, zero, suc, ◌+◌, ◌-◌, ◌*◌, ◌/◌, ◌%◌, ◌^◌, ◌<◌, ◌≡◌, ◌≢◌, refl, sym, ◌∙◌, [], ◌∷◌, ◌++◌, Bool,
  true, false, arith, min, ltb, leb, ◌==◌, ◌&&◌, ◌⊎◌, inl, inr, ap, Bool-cases, if◌then◌else◌, All,
  length, length-append,
}
use bbdb.Base.Int.{ℤ, pos, sub_ℕ}
use bbdb.Base.Bytes.{Bytes, IsByte}

-- A number below 10 ^ w, in w digits.
unfoldable pub decimal : ℕ → ℕ → Bytes
decimal zero n = []
decimal (suc w) n = decimal w (n / 10) ++ (b'0' + n % 10) ∷ []

hex_digit : ℕ → ℕ
hex_digit d = if ltb d 10 then b'0' + d else b'a' + (d - 10)

-- A number below 16 ^ w, in w digits.
unfoldable pub hexadecimal : ℕ → ℕ → Bytes
unfolding hex_digit
hexadecimal zero n = []
hexadecimal (suc w) n = hexadecimal w (n / 16) ++ hex_digit (n % 16) ∷ []

abbrev is_digit : ℕ → Bool
is_digit b = leb b'0' b && leb b b'9'

unfoldable pub all_digits : Bytes → Bool
all_digits [] = true
all_digits (b ∷ bs) = if is_digit b then all_digits bs else false

unfoldable pub value_from : ℕ → Bytes → ℕ
value_from acc [] = acc
value_from acc (b ∷ bs) = value_from (acc * 10 + (b - b'0')) bs

-- The digits behind the sign: with none, or with another byte, 0.
abbrev unsigned : Bytes → ℕ
unsigned [] = 0
unsigned (b ∷ bs) = if all_digits (b ∷ bs) then value_from 0 (b ∷ bs) else 0

-- The first result of `strconv.Atoi`, whatever the second: 0 for a text that is no number, and the
-- nearest int64 for a number that is none.
unfoldable pub atoi : Bytes → ℤ
unfolding all_digits value_from
atoi [] = pos 0
atoi (b ∷ bs) =
    if b == b'-'
    then sub_ℕ 0 (min (2 ^ 63) (unsigned bs))
    else pos (min (2 ^ 63 - 1) (unsigned (if b == b'+' then bs else b ∷ bs)))

pub decimal-ne : (c w n : ℕ) → (c < b'0') ⊎ (b'9' < c) → All (λ b. b ≢ c) (decimal w n)
unfolding decimal
decimal-ne c zero n h = tt
decimal-ne c (suc w) n h = snoc (decimal w (n / 10)) (decimal-ne c w (n / 10) h)
  where
    snoc : (xs : Bytes) → All (λ b. b ≢ c) xs → All (λ b. b ≢ c) (xs ++ (b'0' + n % 10) ∷ [])
    snoc [] a = (ground (arith, h), tt)
    snoc (x ∷ xs) a = (a.0, snoc xs a.1)

pub hexadecimal-ne_colon : (w n : ℕ) → All (λ b. b ≢ b':') (hexadecimal w n)
unfolding hexadecimal hex_digit
hexadecimal-ne_colon zero n = tt
hexadecimal-ne_colon (suc w) n = snoc (hexadecimal w (n / 16)) (hexadecimal-ne_colon w (n / 16))
  where
    snoc :
        (xs : Bytes) → All (λ b. b ≢ b':') xs → All (λ b. b ≢ b':') (xs ++ hex_digit (n % 16) ∷ [])
    snoc [] a = (ground arith, tt)
    snoc (x ∷ xs) a = (a.0, snoc xs a.1)

all_digits-append :
    (xs : Bytes) (d : ℕ) → d < 10 → all_digits xs ≡ true → all_digits (xs ++ (b'0' + d) ∷ []) ≡ true
unfolding all_digits
all_digits-append [] d h a = ground arith
all_digits-append (x ∷ xs) d h a = ground (arith, a, all_digits-append xs d h)

all_digits-decimal : (w n : ℕ) → all_digits (decimal w n) ≡ true
unfolding decimal
all_digits-decimal zero n = unfold all_digits in refl
all_digits-decimal (suc w) n =
    all_digits-append (decimal w (n / 10)) (n % 10) (omega arith) (all_digits-decimal w (n / 10))

value_from-append :
    (acc : ℕ) (xs : Bytes) (b : ℕ)
    → value_from acc (xs ++ b ∷ []) ≡ value_from acc xs * 10 + (b - b'0')
unfolding value_from
value_from-append acc [] b = refl
value_from-append acc (x ∷ xs) b = value_from-append (acc * 10 + (x - b'0')) xs b

value_from-decimal : (w n : ℕ) → n < 10 ^ w → value_from 0 (decimal w n) ≡ n
unfolding decimal
value_from-decimal zero n h = unfold value_from in omega arith
value_from-decimal (suc w) n h = omega (
  arith,
  value_from-append 0 (decimal w (n / 10)) (b'0' + n % 10),
  value_from-decimal w (n / 10) (omega (arith, pow-suc 10 w)),
)

atoi-digits :
    (bs : Bytes)
    → 0 < length bs
    → all_digits bs ≡ true
    → value_from 0 bs < 2 ^ 63
    → atoi bs ≡ pos (value_from 0 bs)
unfolding atoi
atoi-digits [] p a h = absurd (omega arith)
atoi-digits (b ∷ bs) p a h = elim (Bool-cases (is_digit b)) [
  | inl t ↦ ground (arith, t, a, h)
  | inr f ↦ absurd (unfold all_digits in ground (arith, f, a))
]

length-decimal : (w n : ℕ) → length (decimal w n) ≡ w
unfolding decimal
length-decimal zero n = refl
length-decimal (suc w) n =
    omega
      (arith, length-append (decimal w (n / 10)) ((b'0' + n % 10) ∷ []), length-decimal w (n / 10))

-- A number that was printed is read back.
pub atoi-decimal : (w n : ℕ) → 0 < w → n < 10 ^ w → n < 2 ^ 63 → atoi (decimal w n) ≡ pos n
atoi-decimal w n p h k =
    atoi-digits (decimal w n) (omega (arith, length-decimal w n)) (all_digits-decimal w n)
      (omega (arith, value_from-decimal w n h))
    ∙ ap pos (value_from-decimal w n h)

-- The number that hexadecimal digits stand for.
abbrev digit_of : ℕ → ℕ
digit_of b = if ltb b b'a' then b - b'0' else b - b'a' + 10

hex_value : Bytes → ℕ → ℕ
hex_value [] acc = acc
hex_value (b ∷ bs) acc = hex_value bs (acc * 16 + digit_of b)

hex_value-append :
    (xs : Bytes) (b acc : ℕ) → hex_value (xs ++ b ∷ []) acc ≡ hex_value xs acc * 16 + digit_of b
unfolding hex_value
hex_value-append [] b acc = refl
hex_value-append (x ∷ xs) b acc = hex_value-append xs b (acc * 16 + digit_of x)

digit_of-hex_digit : (d : ℕ) → d < 16 → digit_of (hex_digit d) ≡ d
unfolding hex_digit
digit_of-hex_digit d h = ground arith

hex_value-hexadecimal : (w n : ℕ) → n < 16 ^ w → hex_value (hexadecimal w n) 0 ≡ n
unfolding hexadecimal hex_value
hex_value-hexadecimal zero n h = omega arith
hex_value-hexadecimal (suc w) n h =
    hex_value-append (hexadecimal w (n / 16)) (hex_digit (n % 16)) 0
    ∙ omega (
      arith,
      hex_value-hexadecimal w (n / 16) (omega (arith, pow-suc 16 w)),
      digit_of-hex_digit (n % 16) (omega arith),
    )

-- Numbers with the same digits are the same.
pub hexadecimal_injective :
    (w n m : ℕ) → n < 16 ^ w → m < 16 ^ w → hexadecimal w n ≡ hexadecimal w m → n ≡ m
hexadecimal_injective w n m hn hm e =
    sym (hex_value-hexadecimal w n hn) ∙ ap (λ s. hex_value s 0) e ∙ hex_value-hexadecimal w m hm

append-IsByte : (xs : Bytes) (b : ℕ) → All IsByte xs → IsByte b → All IsByte (xs ++ b ∷ [])
append-IsByte [] b a h = (h, tt)
append-IsByte (x ∷ xs) b a h = (a.0, append-IsByte xs b a.1 h)

-- Digits are bytes.
pub hexadecimal-IsByte : (w n : ℕ) → All IsByte (hexadecimal w n)
unfolding hexadecimal hex_digit
hexadecimal-IsByte zero n = tt
hexadecimal-IsByte (suc w) n =
    append-IsByte (hexadecimal w (n / 16)) (hex_digit (n % 16)) (hexadecimal-IsByte w (n / 16))
      (ground arith)

pub decimal-IsByte : (w n : ℕ) → All IsByte (decimal w n)
unfolding decimal
decimal-IsByte zero n = tt
decimal-IsByte (suc w) n =
    append-IsByte (decimal w (n / 10)) (b'0' + n % 10) (decimal-IsByte w (n / 10)) (omega arith)
