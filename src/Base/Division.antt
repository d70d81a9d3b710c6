-- ===== src/Base/Division.antt =====
-- Division and remainder by a variable: slots of a fixed width on a time line.
use Prim.Native.Nat.{ℕ, ◌+◌, ◌-◌, ◌*◌, ◌/◌, ◌%◌, ◌≤◌, ◌<◌}
use mathlib.Core.Path.{◌≡◌}
use mathlib.Core.Logic.{◌≢◌, ◌⊎◌, inl, inr, ◌↔◌}
use native.Mathlib.Omega.{arith}

pub div_unique : (x q w : ℕ) → q * w ≤ x → x < q * w + w → x / w ≡ q
div_unique x q w lo hi = grind arith

mul-le_step : (p q w : ℕ) → p < q → p * w + w ≤ q * w
mul-le_step p q w h = grind arith

lt_or_ge : (a b : ℕ) → (a < b) ⊎ (b ≤ a)
lt_or_ge a b = omega arith

slots_ordered : (w g s t : ℕ) → s % w + g < w → g ≤ t % w → s / w < t / w → s + 2 * g < t
slots_ordered w g s t b c p = omega (arith, mul-le_step (s / w) (t / w) w p)

-- Two moments in different slots, both at least `g` away from their slots' ends, are more than
-- `2 * g` apart.
pub slots_apart :
    (w g s t : ℕ)
    → g ≤ s % w
    → s % w + g < w
    → g ≤ t % w
    → t % w + g < w
    → s / w ≢ t / w
    → (s + 2 * g < t) ⊎ (t + 2 * g < s)
slots_apart w g s t a b c d ne = elim (lt_or_ge (s / w) (t / w)) [
  | inl p ↦ inl (slots_ordered w g s t b c p)
  | inr p ↦ inr (slots_ordered w g t s d a (omega arith))
]

pub div-add_same : (s e w : ℕ) → s % w + e < w → (s + e) / w ≡ s / w
div-add_same s e w h = grind arith

pub div-add_next : (s e w : ℕ) → w ≤ s % w + e → e ≤ w → 0 < w → (s + e) / w ≡ s / w + 1
div-add_next s e w h k p = grind arith

pub mod-suc : (q n : ℕ) → 0 < n → ((q + 1) % n ≡ 0) ↔ (q % n ≡ n - 1)
mod-suc q n p = grind arith
