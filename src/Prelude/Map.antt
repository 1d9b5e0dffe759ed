-- ===== src/Prelude/Map.antt =====
-- A `HashMap` or `BTreeMap` as an association list. An insertion replaces the value in its place
-- and appends a new key; the order stands for the order of iteration.
use Prim.Native.Nat.{ℕ, ◌+◌, ◌≤◌}
use mathlib.Core.Path.{◌≡◌, refl}
use mathlib.Core.Bool.{Bool, true, false}
use mathlib.Core.Option.{Option, none, some}
use mathlib.Core.List.{List, [], ◌∷◌}
use native.Mathlib.Omega.{arith}
use vtt.Prelude.Tests.{if◌then◌else◌}
use vtt.Prelude.Keys.{Key, eq_key}

abbrev pub Map {ℓ κ} : Type ℓ → Type κ → Type (ℓ ⊔ κ)
Map K V = List (K × V)

-- `unwrap_or`, on an option.
abbrev pub get_or {ℓ} : {A : Type ℓ} → Option A → A → A
get_or none d = d
get_or (some a) d = a

abbrev pub is_some {ℓ} : {A : Type ℓ} → Option A → Bool
is_some none = false
is_some (some a) = true

-- The measure of a value that may be missing.
abbrev pub weight {κ} : {V : Type κ} → (V → ℕ) → Option V → ℕ
weight f none = 0
weight f (some v) = f v

-- The sum of a measure over the values.
unfoldable pub sum_by {ℓ κ} : {K : Type ℓ} {V : Type κ} → (V → ℕ) → Map K V → ℕ
sum_by f [] = 0
sum_by f ((j, v) ∷ m) = f v + sum_by f m

module _ {ℓ κ} {K : Type ℓ} {V : Type κ} ⦃e : Key K⦄ where
  unfoldable pub get : K → Map K V → Option V
  get k [] = none
  get k ((j, v) ∷ m) = if eq_key k j then some v else get k m

  unfoldable pub insert : K → V → Map K V → Map K V
  insert k v [] = (k, v) ∷ []
  insert k v ((j, w) ∷ m) = if eq_key k j then (k, v) ∷ m else (j, w) ∷ insert k v m

  unfoldable pub remove : K → Map K V → Map K V
  remove k [] = []
  remove k ((j, v) ∷ m) = if eq_key k j then remove k m else (j, v) ∷ remove k m

  pub get-insert :
      (j k : K) (v : V) (m : Map K V)
      → get j (insert k v m) ≡ (if eq_key j k then some v else get j m)
  unfolding get insert
  get-insert j k v [] = refl
  get-insert j k v ((i, w) ∷ m) =
      ground (arith, e.eq_key_iff j k, e.eq_key_iff k i, e.eq_key_iff j i, get-insert j k v m)

  pub get-remove :
      (j k : K) (m : Map K V) → get j (remove k m) ≡ (if eq_key j k then none else get j m)
  unfolding get remove
  get-remove j k [] = ground arith
  get-remove j k ((i, w) ∷ m) =
      ground (arith, e.eq_key_iff j k, e.eq_key_iff k i, e.eq_key_iff j i, get-remove j k m)

  pub sum_by-insert :
      (f : V → ℕ) (k : K) (v : V) (m : Map K V)
      → sum_by f (insert k v m) + weight f (get k m) ≡ sum_by f m + f v
  unfolding get insert sum_by
  sum_by-insert f k v [] = omega arith
  sum_by-insert f k v ((i, w) ∷ m) = ground (arith, sum_by-insert f k v m)

  pub weight-get-le : (f : V → ℕ) (k : K) (m : Map K V) → weight f (get k m) ≤ sum_by f m
  unfolding get sum_by
  weight-get-le f k [] = omega arith
  weight-get-le f k ((i, w) ∷ m) = ground (arith, weight-get-le f k m)
