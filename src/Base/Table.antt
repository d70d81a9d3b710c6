-- ===== src/Base/Table.antt =====
-- Checking a law of small numbers on every value, by evaluation.
use Prim.Native.Nat.{ℕ, zero, suc, ◌<◌}
use mathlib.Core.Path.{◌≡◌}
use mathlib.Core.Bool.{Bool, true, ◌&&◌}
use native.Mathlib.Omega.{arith}

-- The law at every number below the bound, from the lowest on.
unfoldable pub law_below : (ℕ → Bool) → ℕ → Bool
law_below law zero = true
law_below law (suc bound) = law_below law bound && law bound

pub law_below_at :
    (law : ℕ → Bool) (k bound : ℕ) → k < bound → law_below law bound ≡ true → law k ≡ true
unfolding law_below
law_below_at law k zero lt checked = absurd (omega arith)
law_below_at law k (suc bound) lt checked = let earlier = law_below_at law k bound in ground arith
