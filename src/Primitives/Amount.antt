-- ===== src/Primitives/Amount.antt =====
-- crates/vtt-primitives/src/amount.rs. An `Amount` is the number of its smallest units.
use vtt.Prelude.{
  ◌+◌, ◌≡◌, arith, checked_mul, ℕ, ◌*◌, ◌/◌, ◌%◌, ◌^◌, Bool, ◌==◌, checked_add, checked_sub,
  u64_mod,
}
use vtt.Prelude.Outcome.{Outcome, expect, ok, ok_or}

abbrev pub Amount : Type 0
Amount = ℕ

-- `Amount::DECIMALS`
abbrev pub decimals : ℕ
decimals = 18

-- `Amount::from_vtt`
unfoldable pub from_vtt : ℕ → Amount
from_vtt vtt = vtt * 10 ^ decimals

-- `Amount::whole_vtt`: the division, then `as u64`.
unfoldable pub whole_vtt : Amount → ℕ
whole_vtt a = a / 10 ^ decimals % u64_mod

-- `Amount::is_zero`
abbrev pub is_zero : Amount → Bool
is_zero a = a == 0

module _ {E : Type 0} where
  -- `impl Add for Amount`
  abbrev pub add : Amount → Amount → Outcome E Amount
  add a b = expect (checked_add a b)

  -- `impl Sub for Amount`
  abbrev pub sub : Amount → Amount → Outcome E Amount
  sub a b = expect (checked_sub a b)

  -- What a difference, a checked sum and a checked product are when there is one.
  pub sub-eq-ok : (a b : Amount) {c : Amount} → sub a b ≡ ok c → c + b ≡ a
  sub-eq-ok a b {c} h = ground arith

  pub checked_add-eq-ok :
      (a b : Amount) (why : E) {c : Amount} → ok_or (checked_add a b) why ≡ ok c → c ≡ a + b
  checked_add-eq-ok a b why {c} h = ground arith

  pub checked_mul-eq-ok :
      (a b : Amount) (why : E) {c : Amount} → ok_or (checked_mul a b) why ≡ ok c → c ≡ a * b
  checked_mul-eq-ok a b why {c} h = ground arith
