-- ===== src/Prelude/Sets.antt =====
-- A `HashSet` as a list without repetition, in the order of iteration.
use Prim.Native.Nat.{ℕ, ◌+◌, ◌≤◌}
use mathlib.Core.Path.{◌≡◌, refl}
use mathlib.Core.Bool.{Bool, true, false, ◌&&◌}
use mathlib.Core.List.{List, [], ◌∷◌, ◌++◌}
use native.Mathlib.Omega.{arith}
use vtt.Prelude.Tests.{if◌then◌else◌}
use vtt.Prelude.Lists.{length}
use vtt.Prelude.Keys.{Key, eq_key}

module _ {ℓ} {A : Type ℓ} ⦃e : Key A⦄ where
  unfoldable pub contains : A → List A → Bool
  contains a [] = false
  contains a (x ∷ xs) = if eq_key a x then true else contains a xs

  unfoldable pub set_insert : A → List A → List A
  unfolding contains
  set_insert a xs = if contains a xs then xs else xs ++ a ∷ []

  unfoldable pub set_remove : A → List A → List A
  set_remove a [] = []
  set_remove a (x ∷ xs) = if eq_key a x then set_remove a xs else x ∷ set_remove a xs

  -- No member is listed twice.
  abbrev pub IsNodup : List A → Type 0
  IsNodup [] = Unit
  IsNodup (x ∷ xs) = (contains x xs ≡ false) × IsNodup xs

  pub contains-append :
      (a b : A) (xs : List A)
      → contains a (xs ++ b ∷ []) ≡ (if eq_key a b then true else contains a xs)
  unfolding contains
  contains-append a b [] = refl
  contains-append a b (x ∷ xs) = ground (arith, contains-append a b xs)

  pub append-IsNodup :
      (a : A) (xs : List A) → IsNodup xs → contains a xs ≡ false → IsNodup (xs ++ a ∷ [])
  unfolding contains
  append-IsNodup a [] h k = (refl, tt)
  append-IsNodup a (x ∷ xs) h k =
      ground
        (arith, append-IsNodup a xs h.1, contains-append x a xs, e.eq_key_iff x a, e.eq_key_iff a x)

  pub set_insert-IsNodup : (a : A) (xs : List A) → IsNodup xs → IsNodup (set_insert a xs)
  unfolding set_insert
  set_insert-IsNodup a xs h = ground (arith, append-IsNodup a xs h)

  pub contains-set_insert :
      (a b : A) (xs : List A)
      → contains a (set_insert b xs) ≡ (if eq_key a b then true else contains a xs)
  unfolding set_insert
  contains-set_insert a b xs = ground (arith, contains-append a b xs, e.eq_key_iff a b)

module _ {ℓ} {A : Type ℓ} ⦃e : Key A⦄ where
  pub contains-set_remove :
      (a b : A) (xs : List A)
      → contains a (set_remove b xs) ≡ (if eq_key a b then false else contains a xs)
  unfolding contains set_remove
  contains-set_remove a b [] = ground arith
  contains-set_remove a b (x ∷ xs) =
      ground
        (arith, contains-set_remove a b xs, e.eq_key_iff a b, e.eq_key_iff b x, e.eq_key_iff a x)

module _ {ℓ} {A : Type ℓ} where
  -- How many members of the list pass a test.
  unfoldable pub count : (A → Bool) → List A → ℕ
  count p [] = 0
  count p (x ∷ xs) = (if p x then 1 else 0) + count p xs

  -- Two tests together pass as often as they exceed the list.
  pub count-overlap :
      (p q : A → Bool) (xs : List A)
      → count p xs + count q xs ≤ length xs + count (λ x. p x && q x) xs
  unfolding count
  count-overlap p q [] = omega arith
  count-overlap p q (x ∷ xs) = ground (arith, count-overlap p q xs)
