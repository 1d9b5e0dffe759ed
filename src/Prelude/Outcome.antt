-- ===== src/Prelude/Outcome.antt =====
-- How a fallible call can end, and calls that also change a state.
use vtt.Prelude.Tests.{if◌then◌else◌}
use mathlib.Core.Bool.{Bool, true, false}
use mathlib.Core.Path.{◌≡◌, refl}
use mathlib.Core.Logic.{◌⊎◌, inl, inr}
use mathlib.Core.Option.{Option, none, some}

-- `Result<A, E>`, or a panic of `Amount`'s `+` and `-`.
pub data Outcome (E A : Type 0) : Type 0 where
  ok : A → Outcome E A
  err : E → Outcome E A
  panic : Outcome E A

-- `?` on a call, with the rest of the body.
infixl 5 ◌>>=◌ ◌>>◌
abbrev pub ◌>>=◌ : {E A B : Type 0} → Outcome E A → (A → Outcome E B) → Outcome E B
ok result >>= next = next result
err why >>= next = err why
panic >>= next = panic

abbrev pub ◌>>◌ : {E B : Type 0} → Outcome E (Unit {0}) → Outcome E B → Outcome E B
call >> rest = call >>= λ _. rest

module _ {E : Type 0} where
  -- `if refused { return Err(why); }`
  abbrev pub reject_if : Bool → E → Outcome E (Unit {0})
  reject_if refused why = if refused then err why else ok tt

  -- `Option::ok_or`
  abbrev pub ok_or : {A : Type 0} → Option A → E → Outcome E A
  ok_or none why = err why
  ok_or (some result) why = ok result

  -- `expect`
  abbrev pub expect : {A : Type 0} → Option A → Outcome E A
  expect none = panic
  expect (some result) = ok result

  -- `Result::unwrap_or`
  abbrev pub unwrap_or : {A : Type 0} → Outcome E A → A → A
  unwrap_or (ok result) default = result
  unwrap_or (err why) default = default
  unwrap_or panic default = default

  -- A body that succeeds has passed its first call.
  pub >>=-eq-ok :
      {A B : Type 0} (call : Outcome E A) (next : A → Outcome E B) {last : B}
      → (call >>= next) ≡ ok last
      → (result : A) × (call ≡ ok result) × (next result ≡ ok last)
  >>=-eq-ok panic next h = cc
  >>=-eq-ok (err why) next h = cc
  >>=-eq-ok (ok result) next h = (result, refl, h)

  pub reject_if-eq-ok :
      {B : Type 0} (refused : Bool) (why : E) (rest : Outcome E B) {last : B}
      → (reject_if refused why >> rest) ≡ ok last
      → (refused ≡ false) × (rest ≡ ok last)
  reject_if-eq-ok false why rest h = (refl, h)
  reject_if-eq-ok true why rest h = cc

  pub ok-injective : {A : Type 0} {x y : A} → ◌≡◌ {A = Outcome E A} (ok x) (ok y) → x ≡ y
  ok-injective h = cc

  pub Outcome-cases :
      {A : Type 0} (call : Outcome E A)
      → ((result : A) × (call ≡ ok result)) ⊎ (((why : E) × (call ≡ err why)) ⊎ (call ≡ panic))
  Outcome-cases (ok result) = inl (result, refl)
  Outcome-cases (err why) = inr (inl (why, refl))
  Outcome-cases panic = inr (inr refl)
