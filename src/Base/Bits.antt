-- ===== src/Base/Bits.antt =====
-- A mask of ones, and remainders by powers of two.
use Prim.Native.Nat.{
  ℕ, zero, suc, ◌+◌, ◌-◌, ◌*◌, ◌/◌, ◌%◌, ◌^◌, ◌≤◌, ◌<◌, min, bit_and, digits, bit_and-bitwise,
}
use mathlib.Core.Path.{◌≡◌, sym, ap, ◌∙◌}
use mathlib.Core.Logic.{◌≢◌, inl, inr}
use bbdb.Base.Tests.{ltb, Bool-cases, tests}
use native.Mathlib.Omega.{arith}
use native.Mathlib.Nat.{
  div-add-mod, mul_assoc, zero-mod, add-mul-mod_self_left, mod-eq_of_lt, mod-lt,
}

pub pow_positive : (k : ℕ) → 0 < 2 ^ k
pow_positive zero = omega arith
pow_positive (suc k) = omega (arith, pow_positive k)

pow_split : (j k n : ℕ) → n ≡ j + k → 2 ^ n ≡ 2 ^ j * 2 ^ k
pow_split zero k n e = grind (arith, ap (λ x. 2 ^ x) e)
pow_split (suc j) k zero e = absurd (omega arith)
pow_split (suc j) k (suc n) e = grind (arith, pow_split j k n)

-- The remainder is the one number below `m` that is off by a multiple of `m`.
mod_eq : (a m q r : ℕ) → a ≡ r + m * q → r < m → a % m ≡ r
mod_eq a m q r e h = ap (λ x. x % m) e ∙ add-mul-mod_self_left r m q ∙ mod-eq_of_lt h

-- A remainder by a power of two, taken of a word.
pub mod-word : (a k : ℕ) → k ≤ 64 → (a % 2 ^ 64) % 2 ^ k ≡ a % 2 ^ k
mod-word a k h =
    sym (add-mul-mod_self_left (a % 2 ^ 64) (2 ^ k) (2 ^ (64 - k) * (a / 2 ^ 64)))
    ∙ ap (λ x. x % 2 ^ k) whole
  where
    whole : a % 2 ^ 64 + 2 ^ k * (2 ^ (64 - k) * (a / 2 ^ 64)) ≡ a
    whole =
        ap (λ x. a % 2 ^ 64 + x)
          (sym (mul_assoc (2 ^ k) (2 ^ (64 - k)) (a / 2 ^ 64))
            ∙ ap (λ x. x * (a / 2 ^ 64)) (sym (pow_split k (64 - k) 64 (omega arith))))
        ∙ omega arith

-- Numbers less than `m` apart have different remainders.
pub mod-ne : (a d m : ℕ) → 0 < d → d < m → (a + d) % m ≢ a % m
mod-ne a d m p h e = elim (Bool-cases (ltb (a % m + d) m)) [
  | inl t ↦ grind (arith, tests, t, e, whole, mod_eq (a + d) m (a / m) (a % m + d), mod-lt a)
  | inr f ↦
      grind (arith, tests, f, e, whole, mod_eq (a + d) m (a / m + 1) (a % m + d - m), mod-lt a)
]
  where
    whole : m * (a / m) + a % m ≡ a
    whole = div-add-mod a m

mod_half : (a m : ℕ) → 0 < m → a % (2 * m) ≡ (a / 2) % m * 2 + a % 2
mod_half a m h =
    mod_eq a (2 * m) (a / 2 / m) ((a / 2) % m * 2 + a % 2) (grind (arith, div-add-mod (a / 2) m))
      (omega (arith, mod-lt (a / 2) h))

masked : (n k a : ℕ) → a ≤ n → digits (λ b. zero) min n a (2 ^ k - 1) ≡ a % 2 ^ k
masked zero k zero h = sym (zero-mod (2 ^ k))
masked (suc n) k zero h = sym (zero-mod (2 ^ k))
masked zero k (suc a) h = absurd (omega arith)
masked (suc n) zero (suc a) h = omega (arith, masked n zero (suc a / 2) (omega arith))
masked (suc n) (suc k) (suc a) h =
    let half : (2 ^ suc k - 1) / 2 ≡ 2 ^ k - 1 = omega (arith, pow_positive k) in
    let odd : (2 ^ suc k - 1) % 2 ≡ 1 = omega (arith, pow_positive k) in
    let low : min (suc a % 2) 1 ≡ suc a % 2 = omega arith in
    rw (half, odd, low, masked n k (suc a / 2) (omega arith))
      (sym (mod_half (suc a) (2 ^ k) (pow_positive k)) ∙ ap (λ x. suc a % x) (omega arith))

-- A mask of `k` ones keeps the remainder.
pub bit_and-mask : (a k : ℕ) → bit_and a (2 ^ k - 1) ≡ a % 2 ^ k
bit_and-mask a k = bit_and-bitwise a (2 ^ k - 1) ∙ masked a k a (omega arith)
