-- ===== src/Base/Int.antt =====
-- Python's integers with the operators of the source: `-`, `<<`, `>>`, `&`, `|` and the order.
use Prim.Native.Nat.{ℕ, suc, ◌+◌, ◌-◌, ◌*◌, ◌/◌, ◌^◌, ◌≤◌, bit_and, bit_or}
use mathlib.Core.Path.{◌≡◌}
use mathlib.Core.Bool.{Bool}
use native.Mathlib.Omega.{arith}
use fbapy.Base.Tests.{ltb, leb, ◌==◌, if◌then◌else◌}

-- `negsuc n` is -(n + 1).
pub data ℤ : Type 0 where
  pos : ℕ → ℤ
  negsuc : ℕ → ℤ

abbrev pub pos_part : ℤ → ℕ
pos_part (pos n) = n
pos_part (negsuc n) = 0

abbrev pub neg_part : ℤ → ℕ
neg_part (pos n) = 0
neg_part (negsuc n) = suc n

-- a - b, as an integer.
abbrev pub sub_ℕ : ℕ → ℕ → ℤ
sub_ℕ a b = if leb b a then pos (a - b) else negsuc (b - a - 1)

infixl 65 ◌+ℤ◌ ◌-ℤ◌
infix 50 ◌≤ℤ◌ ◌<ℤ◌
unfoldable pub ◌+ℤ◌ : ℤ → ℤ → ℤ
a +ℤ b = sub_ℕ (pos_part a + pos_part b) (neg_part a + neg_part b)

unfoldable pub ◌-ℤ◌ : ℤ → ℤ → ℤ
a -ℤ b = sub_ℕ (pos_part a + neg_part b) (neg_part a + pos_part b)

abbrev pub ◌≤ℤ◌ : ℤ → ℤ → Type 0
a ≤ℤ b = pos_part a + neg_part b ≤ pos_part b + neg_part a

abbrev pub ◌<ℤ◌ : ℤ → ℤ → Type 0
a <ℤ b = suc (pos_part a + neg_part b) ≤ pos_part b + neg_part a

abbrev pub ltb_ℤ : ℤ → ℤ → Bool
ltb_ℤ a b = ltb (pos_part a + neg_part b) (pos_part b + neg_part a)

abbrev pub leb_ℤ : ℤ → ℤ → Bool
leb_ℤ a b = leb (pos_part a + neg_part b) (pos_part b + neg_part a)

abbrev pub eqb_ℤ : ℤ → ℤ → Bool
eqb_ℤ a b = pos_part a + neg_part b == pos_part b + neg_part a

-- `a << k` and `a >> k`; the right shift rounds down, also below zero
unfoldable pub shl : ℤ → ℕ → ℤ
shl (pos a) k = pos (a * 2 ^ k)
shl (negsuc n) k = negsuc (suc n * 2 ^ k - 1)

unfoldable pub shr : ℤ → ℕ → ℤ
shr (pos a) k = pos (a / 2 ^ k)
shr (negsuc n) k = negsuc (n / 2 ^ k)

-- `a | b` and `a & b` on two's complement of unbounded width: the bits of `negsuc n` are those of
-- `n`, inverted.
unfoldable pub int_or : ℤ → ℤ → ℤ
int_or (pos a) (pos b) = pos (bit_or a b)
int_or (pos a) (negsuc m) = negsuc (m - bit_and m a)
int_or (negsuc n) (pos b) = negsuc (n - bit_and n b)
int_or (negsuc n) (negsuc m) = negsuc (bit_and n m)

unfoldable pub int_and : ℤ → ℤ → ℤ
int_and (pos a) (pos b) = pos (bit_and a b)
int_and (pos a) (negsuc m) = pos (a - bit_and a m)
int_and (negsuc n) (pos b) = pos (b - bit_and b n)
int_and (negsuc n) (negsuc m) = negsuc (bit_or n m)

pub sub_ℕ_ge : (a b : ℕ) → b ≤ a → pos a -ℤ pos b ≡ pos (a - b)
unfolding ◌-ℤ◌
sub_ℕ_ge a b h = ground arith

pub pos-sub : (a b : ℕ) → pos a -ℤ pos b ≡ (if ltb a b then negsuc (b - a - 1) else pos (a - b))
unfolding ◌-ℤ◌
pos-sub a b = ground arith
