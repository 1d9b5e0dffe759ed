-- ===== src/Prelude/Action.antt =====
-- Calls on a state that is passed as `&mut`. What was written before an error stays written.
use mathlib.Core.Bool.{Bool, true, false}
use mathlib.Core.Path.{◌≡◌, refl, ◌∙◌}
use vtt.Prelude.Outcome.{Outcome, ok, err, panic, reject_if as outcome_reject_if}

abbrev pub Action : Type 0 → Type 0 → Type 0 → Type 0
Action S E A = S → Outcome E A × S

module _ {S E : Type 0} where
  infixl 5 ◌>>=◌ ◌>>◌
  abbrev pub after : {A B : Type 0} → Outcome E A × S → (A → Action S E B) → Outcome E B × S
  after (ok a, s) f = f a s
  after (err e, s) f = (err e, s)
  after (panic, s) f = (panic, s)

  abbrev pub ◌>>=◌ : {A B : Type 0} → Action S E A → (A → Action S E B) → Action S E B
  ◌>>=◌ m f s = after (m s) f

  abbrev pub ◌>>◌ : {B : Type 0} → Action S E (Unit {0}) → Action S E B → Action S E B
  ◌>>◌ m k s = after (m s) (λ _. k)

  abbrev pub pure : {A : Type 0} → A → Action S E A
  pure a s = (ok a, s)

  -- A call that leaves the state alone.
  abbrev pub lift : {A : Type 0} → Outcome E A → Action S E A
  lift r s = (r, s)

  abbrev pub reject_if : Bool → E → Action S E (Unit {0})
  reject_if c e s = (outcome_reject_if c e, s)

  abbrev pub gets : {A : Type 0} → (S → A) → Action S E A
  gets f s = (ok (f s), s)

  abbrev pub modify : (S → S) → Action S E (Unit {0})
  modify f s = (ok tt, f s)

-- `Result::map_err`
abbrev pub map_err : {S E F A : Type 0} → Action S E A → (E → F) → Action S F A
map_err m f s =
    let (r, s') = m s in
    elim r [ ok a ↦ (ok a, s') | err e ↦ (err (f e), s') | panic ↦ (panic, s') ]

pub map_err-eq-ok :
    {S E F A : Type 0} (m : Action S E A) (f : E → F) (s : S) {a : A} {t : S}
    → map_err m f s ≡ (ok a, t)
    → m s ≡ (ok a, t)
map_err-eq-ok {S} {E} {F} {A} m f s {a} {t} h = go (m s) h
  where
    go :
        (r : Outcome E A × S)
        → ◌≡◌ {A = Outcome F A × S}
            (let (x, s') = r in
              elim x [ ok b ↦ (ok b, s') | err e ↦ (err (f e), s') | panic ↦ (panic, s') ])
            (ok a, t)
        → r ≡ (ok a, t)
    go (ok b, s') k = cc
    go (err e, s') k = cc
    go (panic, s') k = cc

module _ {S E : Type 0} where
  -- A sequence of calls that succeeds, from its first call on.
  pub after-eq-ok :
      {A B : Type 0} (r : Outcome E A × S) (f : A → Action S E B) {b : B} {s' : S}
      → after r f ≡ (ok b, s')
      → (a : A) × (t : S) × (r ≡ (ok a, t)) × (f a t ≡ (ok b, s'))
  after-eq-ok (ok a, t) f h = (a, t, refl, h)
  after-eq-ok (err e, t) f h = cc
  after-eq-ok (panic, t) f h = cc

  pub lift-eq-ok :
      {A B : Type 0} (r : Outcome E A) (s : S) (f : A → Action S E B) {b : B} {s' : S}
      → after (r, s) f ≡ (ok b, s')
      → (a : A) × (r ≡ ok a) × (f a s ≡ (ok b, s'))
  lift-eq-ok (ok a) s f h = (a, refl, h)
  lift-eq-ok (err e) s f h = cc
  lift-eq-ok panic s f h = cc

  pub reject_if-eq-ok :
      {B : Type 0} (c : Bool) (e : E) (s : S) (k : Action S E B) {b : B} {s' : S}
      → (reject_if c e >> k) s ≡ (ok b, s')
      → (c ≡ false) × (k s ≡ (ok b, s'))
  reject_if-eq-ok true e s k h = cc
  reject_if-eq-ok false e s k h = (refl, h)

  pub pure-eq-ok :
      {A : Type 0} {a b : A} {s s' : S}
      → ◌≡◌ {A = Outcome E A × S} (ok a, s) (ok b, s')
      → (a ≡ b) × (s ≡ s')
  pure-eq-ok h = (cc, cc)

-- A part of the state that a call leaves alone on every branch.
abbrev pub Keeps : {S E A T : Type 0} → (S → T) → Action S E A → Type 0
Keeps {S} part m = (s : S) → part (m s).1 ≡ part s

-- A sequence of calls leaves alone what each of them does.
pub after-Keeps :
    {S E A B T : Type 0} (part : S → T) (r : Outcome E A × S) (next : A → Action S E B) {old : T}
    → part r.1 ≡ old
    → ((a : A) → Keeps part (next a))
    → part (after r next).1 ≡ old
after-Keeps part (ok a, s) next same keeps = keeps a s ∙ same
after-Keeps part (err e, s) next same keeps = same
after-Keeps part (panic, s) next same keeps = same

pub reject_if-Keeps :
    {S E B T : Type 0} (part : S → T) (refused : Bool) (why : E) (rest : Action S E B) (s : S)
    {old : T}
    → part s ≡ old
    → part (rest s).1 ≡ old
    → part ((reject_if refused why >> rest) s).1 ≡ old
reject_if-Keeps part true why rest s same keeps = same
reject_if-Keeps part false why rest s same keeps = keeps
