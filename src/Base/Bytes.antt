-- ===== src/Base/Bytes.antt =====
-- Byte slices as lists of numbers: big-endian integers, writes at an offset, the order of bytes.Compare.
use Prim.Native.Nat.{ℕ, zero, suc, ◌+◌, ◌*◌, ◌/◌, ◌%◌, ◌^◌, ◌<◌}
use mathlib.Core.Path.{◌≡◌, refl, sym, ap, ap₂, subst, ◌∙◌}
use mathlib.Core.Bool.{Bool, true, false}
use mathlib.Core.List.{List, [], ◌∷◌, ◌++◌, append_assoc, append-nil}
use native.Mathlib.Nat.{pow-suc}
use native.Mathlib.Omega.{arith}
use bbdb.Base.Tests.{ltb, ◌==◌, if◌then◌else◌}
use mathlib.Core.Logic.{◌⊎◌, inl, inr}
use bbdb.Base.Lists.{length, set, take, drop, length-append, All}

abbrev pub Bytes : Type 0
Bytes = List ℕ

abbrev pub IsByte : ℕ → Type 0
IsByte b = b < 256

-- `binary.BigEndian.PutUint16`, `PutUint32`, `PutUint64`: the low bytes of a number, highest first.
unfoldable pub put_be : ℕ → ℕ → Bytes
put_be zero v = []
put_be (suc n) v = put_be n (v / 256) ++ (v % 256 ∷ [])

get_be_from : ℕ → Bytes → ℕ
get_be_from acc [] = acc
get_be_from acc (b ∷ bs) = get_be_from (acc * 256 + b) bs

-- `binary.BigEndian.Uint16`, `Uint32`, `Uint64` of all bytes of the slice.
unfoldable pub get_be : Bytes → ℕ
unfolding get_be_from
get_be bs = get_be_from 0 bs

get_be_from-append :
    (acc : ℕ) (xs : Bytes) (b : ℕ) → get_be_from acc (xs ++ b ∷ []) ≡ get_be_from acc xs * 256 + b
unfolding get_be_from
get_be_from-append acc [] b = refl
get_be_from-append acc (x ∷ xs) b = get_be_from-append (acc * 256 + x) xs b

pub length-put_be : (n v : ℕ) → length (put_be n v) ≡ n
unfolding put_be
length-put_be zero v = refl
length-put_be (suc n) v =
    omega (arith, length-append (put_be n (v / 256)) (v % 256 ∷ []), length-put_be n (v / 256))

get_be_from-lt :
    (bs : Bytes) (m acc : ℕ)
    → All IsByte bs
    → acc < 256 ^ m
    → get_be_from acc bs < 256 ^ (m + length bs)
unfolding get_be_from
get_be_from-lt [] m acc h k = subst (λ n. acc < 256 ^ n) (omega arith) k
get_be_from-lt (b ∷ bs) m acc h k =
    subst (λ n. get_be_from (acc * 256 + b) bs < 256 ^ n) (omega arith)
      (get_be_from-lt bs (suc m) (acc * 256 + b) h.1 (omega (arith, pow-suc 256 m, h.0)))

-- What fits the width is read back.
pub get_be-put_be : (n v : ℕ) → v < 256 ^ n → get_be (put_be n v) ≡ v
unfolding put_be get_be
get_be-put_be zero v h = omega arith
get_be-put_be (suc n) v h = omega (
  arith,
  get_be_from-append 0 (put_be n (v / 256)) (v % 256),
  get_be-put_be n (v / 256) (omega (arith, pow-suc 256 n)),
)

-- `copy(buf[off:], src)`: bytes beyond the end of the buffer are dropped.
abbrev pub copy_at : ℕ → Bytes → Bytes → Bytes
copy_at off [] buf = buf
copy_at off (b ∷ bs) buf = copy_at (suc off) bs (set buf off b)

-- `bytes.Compare(a, b) < 0`.
unfoldable pub ltb_bytes : Bytes → Bytes → Bool
ltb_bytes [] [] = false
ltb_bytes [] (y ∷ ys) = true
ltb_bytes (x ∷ xs) [] = false
ltb_bytes (x ∷ xs) (y ∷ ys) = if x == y then ltb_bytes xs ys else ltb x y

-- `bytes.Equal(a, b)`.
unfoldable pub eq_bytes : Bytes → Bytes → Bool
eq_bytes [] [] = true
eq_bytes [] (y ∷ ys) = false
eq_bytes (x ∷ xs) [] = false
eq_bytes (x ∷ xs) (y ∷ ys) = if x == y then eq_bytes xs ys else false

pub eq_bytes→eq : (xs ys : Bytes) → eq_bytes xs ys ≡ true → xs ≡ ys
unfolding eq_bytes
eq_bytes→eq [] [] h = refl
eq_bytes→eq [] (y ∷ ys) h = cc
eq_bytes→eq (x ∷ xs) [] h = cc
eq_bytes→eq (x ∷ xs) (y ∷ ys) h = ground (arith, eq_bytes→eq xs ys)

pub eq_bytes_refl : (xs : Bytes) → eq_bytes xs xs ≡ true
unfolding eq_bytes
eq_bytes_refl [] = refl
eq_bytes_refl (x ∷ xs) = ground (arith, eq_bytes_refl xs)

pub ltb_bytes_irrefl : (xs : Bytes) → ltb_bytes xs xs ≡ false
unfolding ltb_bytes
ltb_bytes_irrefl [] = refl
ltb_bytes_irrefl (x ∷ xs) = ground (arith, ltb_bytes_irrefl xs)

pub ltb_bytes_trans :
    (xs ys zs : Bytes) → ltb_bytes xs ys ≡ true → ltb_bytes ys zs ≡ true → ltb_bytes xs zs ≡ true
unfolding ltb_bytes
ltb_bytes_trans [] [] zs h k = cc
ltb_bytes_trans [] (y ∷ ys) [] h k = cc
ltb_bytes_trans [] (y ∷ ys) (z ∷ zs) h k = refl
ltb_bytes_trans (x ∷ xs) [] zs h k = cc
ltb_bytes_trans (x ∷ xs) (y ∷ ys) [] h k = cc
ltb_bytes_trans (x ∷ xs) (y ∷ ys) (z ∷ zs) h k = ground (arith, ltb_bytes_trans xs ys zs)

-- A common prefix does not count.
pub ltb_bytes-append : (p xs ys : Bytes) → ltb_bytes (p ++ xs) (p ++ ys) ≡ ltb_bytes xs ys
unfolding ltb_bytes
ltb_bytes-append [] xs ys = refl
ltb_bytes-append (b ∷ p) xs ys = ground (arith, ltb_bytes-append p xs ys)

-- Big-endian numbers of one width are ordered as numbers, and what follows breaks a tie.
pub ltb_bytes-put_be :
    (n a b : ℕ) (s t : Bytes)
    → a < 256 ^ n
    → b < 256 ^ n
    → ltb_bytes (put_be n a ++ s) (put_be n b ++ t) ≡ (if a == b then ltb_bytes s t else ltb a b)
unfolding put_be ltb_bytes
ltb_bytes-put_be zero a b s t h k = ground arith
ltb_bytes-put_be (suc n) a b s t h k =
    rw
      (
        append_assoc (put_be n (a / 256)) (a % 256 ∷ []) s,
        append_assoc (put_be n (b / 256)) (b % 256 ∷ []) t,
      )
      (ground (
        arith,
        ltb_bytes-put_be n (a / 256) (b / 256) (a % 256 ∷ s) (b % 256 ∷ t)
            (omega (arith, pow-suc 256 n)) (omega (arith, pow-suc 256 n)),
      ))

-- The integer of `w` bytes at an offset, `binary.BigEndian.Uint64(buf[off:])` for `w = 8`.
abbrev pub uint_at : ℕ → ℕ → Bytes → ℕ
uint_at w off buf = get_be (take w (drop off buf))

pub ltb_bytes_total :
    (xs ys : Bytes) → (ltb_bytes xs ys ≡ true) ⊎ ((xs ≡ ys) ⊎ (ltb_bytes ys xs ≡ true))
unfolding ltb_bytes
ltb_bytes_total [] [] = inr (inl refl)
ltb_bytes_total [] (y ∷ ys) = inl refl
ltb_bytes_total (x ∷ xs) [] = inr (inr refl)
ltb_bytes_total (x ∷ xs) (y ∷ ys) = ground (arith, ltb_bytes_total xs ys)

pub ltb_bytes-nil : (xs : Bytes) → ltb_bytes xs [] ≡ false
unfolding ltb_bytes
ltb_bytes-nil [] = refl
ltb_bytes-nil (x ∷ xs) = refl

-- What lies between a text and an extension of it begins with that text.
pub prefix_of_between :
    (p k x : Bytes)
    → ltb_bytes k p ≡ false
    → ltb_bytes k (p ++ x) ≡ true
    → eq_bytes (take (length p) k) p ≡ true
unfolding ltb_bytes eq_bytes
prefix_of_between [] k x h g = refl
prefix_of_between (b ∷ p) [] x h g = cc
prefix_of_between (b ∷ p) (c ∷ k) x h g = ground (arith, prefix_of_between p k x)

put_be-get_be_from :
    (bs : Bytes) (m k acc : ℕ)
    → All IsByte bs
    → k ≡ m + length bs
    → put_be k (get_be_from acc bs) ≡ put_be m acc ++ bs
unfolding get_be_from
put_be-get_be_from [] m k acc h e =
    let e' : k ≡ m = omega arith in rw e' (sym (append-nil (put_be m acc)))
put_be-get_be_from (b ∷ bs) m k acc h e =
    put_be-get_be_from bs (suc m) k (acc * 256 + b) h.1 (omega arith)
    ∙ ap (λ l. l ++ bs) step
    ∙ append_assoc (put_be m acc) (b ∷ []) bs
  where
    quotient : (acc * 256 + b) / 256 ≡ acc
    quotient = omega (arith, h.0)

    rest : (acc * 256 + b) % 256 ≡ b
    rest = omega (arith, h.0)

    step : put_be (suc m) (acc * 256 + b) ≡ put_be m acc ++ b ∷ []
    step = unfold put_be in ap₂ (λ x y. put_be m x ++ y ∷ []) quotient rest

-- Bytes that are read as an integer are written back.
pub put_be-get_be : (bs : Bytes) → All IsByte bs → put_be (length bs) (get_be bs) ≡ bs
unfolding get_be put_be
put_be-get_be bs h = put_be-get_be_from bs 0 (length bs) 0 h (omega arith)

pub get_be-lt : (bs : Bytes) → All IsByte bs → get_be bs < 256 ^ length bs
unfolding get_be
get_be-lt bs h =
    subst (λ n. get_be_from 0 bs < 256 ^ n) (omega arith) (get_be_from-lt bs 0 0 h (omega arith))

pub eq_bytes-append : (p xs ys : Bytes) → eq_bytes (p ++ xs) (p ++ ys) ≡ eq_bytes xs ys
unfolding eq_bytes
eq_bytes-append [] xs ys = refl
eq_bytes-append (b ∷ p) xs ys = ground (arith, eq_bytes-append p xs ys)
