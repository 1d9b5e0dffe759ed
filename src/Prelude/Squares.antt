-- ===== src/Prelude/Squares.antt =====
-- Products of unknown numbers, for the integer square roots and the swap formulas.
use Prim.Native.Nat.{ℕ, ◌+◌, ◌-◌, ◌*◌, ◌≤◌, ◌<◌}
use mathlib.Core.Path.{◌≡◌, subst}
use mathlib.Core.Logic.{inl, inr, ◌⊎◌}
use native.Mathlib.Omega.{arith}

pub mul_mono : (a b c d : ℕ) → a ≤ b → c ≤ d → a * c ≤ b * d
mul_mono a b c d h k = grind arith

pub sq-lt_of_lt : (a b : ℕ) → a * a < b * b → a < b
sq-lt_of_lt a b h = grind arith

sq_diff : (a c : ℕ) → 4 * (a * (a + c)) ≤ (a + (a + c)) * (a + (a + c))
sq_diff a c = omega arith

le-total : (a b : ℕ) → (a ≤ b) ⊎ (b ≤ a)
le-total a b = omega arith

sq_of_diff : (a b c : ℕ) → a + c ≡ b → 4 * (a * b) ≤ (a + b) * (a + b)
sq_of_diff a b c e = subst (λ x. 4 * (a * x) ≤ (a + x) * (a + x)) e (sq_diff a c)

-- The inequality between the arithmetic and the geometric mean.
pub four_mul-le-sq : (a b : ℕ) → 4 * (a * b) ≤ (a + b) * (a + b)
four_mul-le-sq a b = elim (le-total a b) [
  | inl h ↦ sq_of_diff a b (b - a) (omega arith)
  | inr h ↦ omega (arith, sq_of_diff b a (a - b) (omega arith))
]
