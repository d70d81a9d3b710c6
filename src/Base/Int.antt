-- ===== src/Base/Int.antt =====
-- Signed integers over the native numbers, and the signed machine widths.
use Prim.Native.Nat.{ℕ, suc, ◌+◌, ◌-◌, ◌*◌, ◌/◌, ◌%◌, ◌≤◌, ◌<◌}
use mathlib.Core.Path.{◌≡◌}
use mathlib.Core.Bool.{Bool}
use native.Mathlib.Omega.{arith}
use smart_fires_io_t.Base.Tests.{ltb, leb, ◌==◌, if◌then◌else◌}

-- `negsuc n` is -(n + 1).
pub data ℤ : Type 0 where
  pos : ℕ → ℤ
  negsuc : ℕ → ℤ

abbrev pub pos_part : ℤ → ℕ
pos_part (pos n) = n
pos_part (negsuc n) = 0

abbrev pub neg_part : ℤ → ℕ
neg_part (pos n) = 0
neg_part (negsuc n) = suc n

-- a - b, as an integer.
abbrev pub sub_ℕ : ℕ → ℕ → ℤ
sub_ℕ a b = if leb b a then pos (a - b) else negsuc (b - a - 1)

infixl 65 ◌+ℤ◌ ◌-ℤ◌
infix 50 ◌≤ℤ◌ ◌<ℤ◌
abbrev pub ◌+ℤ◌ : ℤ → ℤ → ℤ
a +ℤ b = sub_ℕ (pos_part a + pos_part b) (neg_part a + neg_part b)

abbrev pub ◌-ℤ◌ : ℤ → ℤ → ℤ
a -ℤ b = sub_ℕ (pos_part a + neg_part b) (neg_part a + pos_part b)

-- The product with a number, and C's division by a positive number, which truncates towards 0.
abbrev pub times : ℤ → ℕ → ℤ
times a k = sub_ℕ (pos_part a * k) (neg_part a * k)

abbrev pub quot : ℤ → ℕ → ℤ
quot a k = sub_ℕ (pos_part a / k) (neg_part a / k)

abbrev pub ◌≤ℤ◌ : ℤ → ℤ → Type 0
a ≤ℤ b = pos_part a + neg_part b ≤ pos_part b + neg_part a

abbrev pub ◌<ℤ◌ : ℤ → ℤ → Type 0
a <ℤ b = pos_part a + neg_part b < pos_part b + neg_part a

abbrev pub ltb_ℤ : ℤ → ℤ → Bool
ltb_ℤ a b = ltb (pos_part a + neg_part b) (pos_part b + neg_part a)

abbrev pub leb_ℤ : ℤ → ℤ → Bool
leb_ℤ a b = leb (pos_part a + neg_part b) (pos_part b + neg_part a)

abbrev pub eqb_ℤ : ℤ → ℤ → Bool
eqb_ℤ a b = (pos_part a + neg_part b) == (pos_part b + neg_part a)

-- A signed value of the width whose modulus is `2 * half`, from its bit pattern, and back.
abbrev pub from_bits : ℕ → ℕ → ℤ
from_bits half w = if ltb w half then pos w else negsuc (2 * half - w - 1)

abbrev pub to_bits : ℕ → ℤ → ℕ
to_bits half (pos n) = n % (2 * half)
to_bits half (negsuc n) = 2 * half - 1 - n % (2 * half)

-- Conversion to a narrower signed type keeps the low bits.
abbrev pub int8 : ℤ → ℤ
int8 z = from_bits 128 (to_bits 128 z)

abbrev pub int16 : ℤ → ℤ
int16 z = from_bits 32768 (to_bits 32768 z)

abbrev pub int32 : ℤ → ℤ
int32 z = from_bits 2147483648 (to_bits 2147483648 z)

-- The values of a signed type.
abbrev pub InRange : ℕ → ℤ → Type 0
InRange half z = (pos_part z < half) × (neg_part z ≤ half)

pub from_bits-to_bits_8 : (z : ℤ) → InRange 128 z → int8 z ≡ z
from_bits-to_bits_8 z h = ground arith

pub from_bits-to_bits_16 : (z : ℤ) → InRange 32768 z → int16 z ≡ z
from_bits-to_bits_16 z h = ground arith

pub from_bits-to_bits_32 : (z : ℤ) → InRange 2147483648 z → int32 z ≡ z
from_bits-to_bits_32 z h = ground arith
