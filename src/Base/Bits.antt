-- ===== src/Base/Bits.antt =====
-- The binary digits of a number, under the bitwise operations of the source.
use Prim.Native.Nat.{
  ℕ, zero, suc, ◌+◌, ◌*◌, ◌/◌, ◌%◌, ◌^◌, ◌≤◌, ◌<◌, min, max, digits, bit_and, bit_or,
  bit_and-bitwise, bit_or-bitwise,
}
use mathlib.Core.Path.{◌≡◌, refl, sym, ap, ap₂, ◌∙◌}
use mathlib.Core.Bool.{Bool, true}
use native.Mathlib.Omega.{arith}
use native.Mathlib.Nat.{div-div-eq-div-mul, pow-succ'}
use smart_fires_io_t.Base.Tests.{◌==◌, if◌then◌else◌}
use smart_fires_io_t.Base.Table.{law_below, law_below_at}

-- Any count of digits to go that is large enough gives the same.
digits_enough :
    (z : ℕ → ℕ) (f : ℕ → ℕ → ℕ) (n m a b : ℕ) → a ≤ n → a ≤ m → digits z f n a b ≡ digits z f m a b
digits_enough z f zero zero a b h k = refl
digits_enough z f zero (suc m) zero b h k = refl
digits_enough z f zero (suc m) (suc a) b h k = absurd (omega arith)
digits_enough z f (suc n) zero zero b h k = refl
digits_enough z f (suc n) zero (suc a) b h k = absurd (omega arith)
digits_enough z f (suc n) (suc m) zero b h k = refl
digits_enough z f (suc n) (suc m) (suc a) b h k =
    ap (λ d. d * 2 + f (suc a % 2) (b % 2))
      (digits_enough z f n m (suc a / 2) (b / 2) (omega arith) (omega arith))

-- The lowest digit of a disjunction, and the others.
lower : (b : ℕ) → b / 2 * 2 + max 0 (b % 2) ≡ b
lower b = omega arith

bit_or-digits : (a b : ℕ) → bit_or a b ≡ bit_or (a / 2) (b / 2) * 2 + max (a % 2) (b % 2)
bit_or-digits zero b =
    bit_or-bitwise 0 b
    ∙ sym (ap (λ d. d * 2 + max (0 % 2) (b % 2)) (bit_or-bitwise (0 / 2) (b / 2)) ∙ lower b)
bit_or-digits (suc a) b =
    bit_or-bitwise (suc a) b
    ∙ sym (
        ap (λ d. d * 2 + max (suc a % 2) (b % 2))
          (bit_or-bitwise (suc a / 2) (b / 2)
            ∙ digits_enough (λ b. b) max (suc a / 2) a (suc a / 2) (b / 2) (omega arith)
                (omega arith)))

digits_none : (n a : ℕ) → digits (λ b. zero) min n a 0 ≡ 0
digits_none zero a = refl
digits_none (suc n) zero = refl
digits_none (suc n) (suc a) = omega (arith, digits_none n (suc a / 2))

-- The mask 1 gives the lowest digit.
pub bit_and-one : (a : ℕ) → bit_and a 1 ≡ a % 2
bit_and-one zero = bit_and-bitwise 0 1
bit_and-one (suc a) = bit_and-bitwise (suc a) 1 ∙ omega (arith, digits_none a (suc a / 2))

-- The digit at a position.
abbrev pub digit : ℕ → ℕ → ℕ
digit k a = a / 2 ^ k % 2

pub digit-suc : (k a : ℕ) → digit (suc k) a ≡ digit k (a / 2)
digit-suc k a =
    ap (λ d. d % 2) (ap (λ p. a / p) (pow-succ' 2 k) ∙ sym (div-div-eq-div-mul a 2 (2 ^ k)))

pub digit-bit_or : (k a b : ℕ) → digit k (bit_or a b) ≡ max (digit k a) (digit k b)
digit-bit_or zero a b = omega (arith, bit_or-digits a b)
digit-bit_or (suc k) a b =
    let half : bit_or a b / 2 ≡ bit_or (a / 2) (b / 2) = omega (arith, bit_or-digits a b) in
    digit-suc k (bit_or a b)
    ∙ ap (digit k) half
    ∙ digit-bit_or k (a / 2) (b / 2)
    ∙ sym (ap₂ max (digit-suc k a) (digit-suc k b))

power_law : ℕ → ℕ → Bool
power_law j k = digit k (2 ^ j) == (if j == k then 1 else 0)

power_table : law_below (λ j. law_below (power_law j) 16) 16 ≡ true
unfolding law_below power_law
power_table = refl

-- A power of two has one digit.
pub digit-power : (j k : ℕ) → j < 16 → k < 16 → digit k (2 ^ j) ≡ (if j == k then 1 else 0)
unfolding power_law
digit-power j k a b = ground (
  arith,
  law_below_at (power_law j) k 16 b
      (law_below_at (λ j. law_below (power_law j) 16) j 16 a power_table),
)

pub bit_or-lt : (n a b : ℕ) → a < 2 ^ n → b < 2 ^ n → bit_or a b < 2 ^ n
bit_or-lt zero zero zero h k = omega arith
bit_or-lt zero (suc a) b h k = absurd (omega (arith, h))
bit_or-lt zero zero (suc b) h k = absurd (omega (arith, k))
bit_or-lt (suc n) a b h k = omega (
  arith,
  pow-succ' 2 n,
  bit_or-digits a b,
  bit_or-lt n (a / 2) (b / 2) (omega (arith, h, pow-succ' 2 n)) (omega (arith, k, pow-succ' 2 n)),
)
