-- ===== src/Base/Int.antt =====
-- Signed integers over the native numbers, and Go's int64 among them.
use Prim.Native.Nat.{ℕ, suc, ◌+◌, ◌-◌, ◌^◌, ◌≤◌, ◌<◌}
use mathlib.Core.Path.{◌≡◌}
use mathlib.Core.Bool.{Bool}
use native.Mathlib.Omega.{arith}
use bbdb.Base.Tests.{ltb, leb, if◌then◌else◌}

-- `negsuc n` is -(n + 1).
pub data ℤ : Type 0 where
  pos : ℕ → ℤ
  negsuc : ℕ → ℤ

abbrev pub pos_part : ℤ → ℕ
pos_part (pos n) = n
pos_part (negsuc n) = 0

abbrev pub neg_part : ℤ → ℕ
neg_part (pos n) = 0
neg_part (negsuc n) = suc n

abbrev pub sub_ℕ : ℕ → ℕ → ℤ
sub_ℕ a b = if leb b a then pos (a - b) else negsuc (b - a - 1)

infixl 65 ◌+ℤ◌
infix 50 ◌≤ℤ◌ ◌<ℤ◌
unfoldable pub ◌+ℤ◌ : ℤ → ℤ → ℤ
a +ℤ b = sub_ℕ (pos_part a + pos_part b) (neg_part a + neg_part b)

abbrev pub ◌≤ℤ◌ : ℤ → ℤ → Type 0
a ≤ℤ b = pos_part a + neg_part b ≤ pos_part b + neg_part a

abbrev pub ◌<ℤ◌ : ℤ → ℤ → Type 0
a <ℤ b = pos_part a + neg_part b < pos_part b + neg_part a

abbrev pub ltb_ℤ : ℤ → ℤ → Bool
ltb_ℤ a b = ltb (pos_part a + neg_part b) (pos_part b + neg_part a)

abbrev pub leb_ℤ : ℤ → ℤ → Bool
leb_ℤ a b = leb (pos_part a + neg_part b) (pos_part b + neg_part a)

pub eq_of_parts : (a b : ℤ) → pos_part a + neg_part b ≡ pos_part b + neg_part a → a ≡ b
eq_of_parts a b h = ground arith

-- The values of a Go int64.
abbrev pub IsI64 : ℤ → Type 0
IsI64 z = (pos_part z < 2 ^ 63) × (neg_part z ≤ 2 ^ 63)

-- `uint64(z)` of an int64, and `int64(w)` of a uint64: the same 64 bits.
unfoldable pub to_u64 : ℤ → ℕ
to_u64 (pos n) = n
to_u64 (negsuc n) = 2 ^ 64 - 1 - n

unfoldable pub of_u64 : ℕ → ℤ
of_u64 w = if ltb w (2 ^ 63) then pos w else negsuc (2 ^ 64 - 1 - w)

pub to_u64_lt : (z : ℤ) → IsI64 z → to_u64 z < 2 ^ 64
unfolding to_u64
to_u64_lt (pos n) h = omega arith
to_u64_lt (negsuc n) h = omega arith

pub of_u64-to_u64 : (z : ℤ) → IsI64 z → of_u64 (to_u64 z) ≡ z
unfolding to_u64 of_u64
of_u64-to_u64 (pos n) h = ground arith
of_u64-to_u64 (negsuc n) h = ground arith

pub of_u64-IsI64 : (w : ℕ) → w < 2 ^ 64 → IsI64 (of_u64 w)
unfolding of_u64
of_u64-IsI64 w h = ground arith

pub to_u64-of_u64 : (w : ℕ) → w < 2 ^ 64 → to_u64 (of_u64 w) ≡ w
unfolding to_u64 of_u64
to_u64-of_u64 w h = ground arith
