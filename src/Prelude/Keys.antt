-- ===== src/Prelude/Keys.antt =====
-- Equality tests, for the keys of maps and the members of sets.
use Prim.Native.Nat.{ℕ}
use mathlib.Core.Path.{◌≡◌}
use mathlib.Core.Bool.{Bool, true, false, ◌&&◌}
use mathlib.Core.List.{List, [], ◌∷◌}
use mathlib.Core.Logic.{◌↔◌}
use native.Mathlib.Omega.{arith}
use vtt.Prelude.Tests.{◌==◌}

-- `impl Eq` and `impl Hash` of a key.
pub record Key {ℓ} (K : Type ℓ) : Type ℓ where
  pub eq_key : K → K → Bool
  pub eq_key_iff : (j k : K) → (eq_key j k ≡ true) ↔ (j ≡ k)

abbrev pub eq_key {ℓ} : {K : Type ℓ} ⦃e : Key K⦄ → K → K → Bool
eq_key ⦃e⦄ = e.eq_key

pub nat_key_iff : (j k : ℕ) → (j == k ≡ true) ↔ (j ≡ k)
nat_key_iff j k = ground arith

instance abbrev pub nat_key : Key ℕ
nat_key = record { eq_key = λ j k. j == k; eq_key_iff = nat_key_iff }

-- A pair of numbers, by both.
abbrev pair_test : ℕ × ℕ → ℕ × ℕ → Bool
pair_test (i, j) (k, l) = i == k && j == l

pub pair_key_iff : (p q : ℕ × ℕ) → (pair_test p q ≡ true) ↔ (p ≡ q)
pair_key_iff p q = ground arith

instance abbrev pub pair_key : Key (ℕ × ℕ)
pair_key = record { eq_key = pair_test; eq_key_iff = pair_key_iff }

-- Byte strings.
abbrev pub bytes_test : List ℕ → List ℕ → Bool
bytes_test [] [] = true
bytes_test [] (y ∷ ys) = false
bytes_test (x ∷ xs) [] = false
bytes_test (x ∷ xs) (y ∷ ys) = x == y && bytes_test xs ys

-- A triple of numbers.
abbrev triple_test : ℕ × ℕ × ℕ → ℕ × ℕ × ℕ → Bool
triple_test (a, b, c) (x, y, z) = a == x && b == y && c == z

pub triple_key_iff : (p q : ℕ × ℕ × ℕ) → (triple_test p q ≡ true) ↔ (p ≡ q)
triple_key_iff p q = ground arith

instance abbrev pub triple_key : Key (ℕ × ℕ × ℕ)
triple_key = record { eq_key = triple_test; eq_key_iff = triple_key_iff }
