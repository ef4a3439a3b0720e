-- ===== src/Prelude/Ints.antt =====
-- Signed integers over the native numbers.
use Prim.Native.Nat.{ℕ, zero, suc}
use mathlib.Core.Path.{◌≡◌, refl}
use mathlib.Core.Logic.{◌↔◌}
use mathlib.Core.Bool.{Bool, true, false, not}
use native.Mathlib.Omega.{arith}
use sovranx.Prelude.Tests.{leb}

-- `negsuc n` is - (n + 1).
pub data ℤ : Type 0 where
  pos : ℕ → ℤ
  negsuc : ℕ → ℤ

unfoldable pub le_int : ℤ → ℤ → Bool
le_int (pos a) (pos b) = leb a b
le_int (pos a) (negsuc b) = false
le_int (negsuc a) (pos b) = true
le_int (negsuc a) (negsuc b) = leb b a

unfoldable pub lt_int : ℤ → ℤ → Bool
lt_int x y = not (le_int y x)

abbrev pub IsPositive : ℤ → Type 0
IsPositive z = (k : ℕ) × (z ≡ pos (suc k))

pub le_int-IsPositive : (z : ℤ) → (le_int z (pos 0) ≡ false) ↔ IsPositive z
unfolding le_int
le_int-IsPositive (pos zero) = (λ h. absurd (ground arith), λ (k, e). ground (arith, e))
le_int-IsPositive (pos (suc n)) = (λ h. (n, refl), λ h. ground arith)
le_int-IsPositive (negsuc n) = (λ h. absurd (ground arith), λ (k, e). absurd (ground (arith, e)))

pub lt_int-IsPositive : (z : ℤ) → (lt_int z (pos 1) ≡ false) ↔ IsPositive z
unfolding lt_int le_int
lt_int-IsPositive (pos zero) = (λ h. absurd (ground arith), λ (k, e). ground (arith, e))
lt_int-IsPositive (pos (suc n)) = (λ h. (n, refl), λ h. ground arith)
lt_int-IsPositive (negsuc n) = (λ h. absurd (ground arith), λ (k, e). absurd (ground (arith, e)))

-- A positive integer is 1 or above 1.
pub lt_int-one : (z : ℤ) → IsPositive z → (lt_int (pos 1) z ≡ false) ↔ (z ≡ pos 1)
unfolding lt_int le_int
lt_int-one (pos zero) (k, e) = absurd (ground (arith, e))
lt_int-one (pos (suc n)) h = (λ h. ground arith, λ e. ground (arith, e))
lt_int-one (negsuc n) (k, e) = absurd (ground (arith, e))
