-- ===== src/Dex/Math/Formulas.antt =====
-- `get_amount_out` and `calculate_fees` of crates/vtt-dex/src/math.rs.
use vtt.Prelude.{
  ℕ, ◌+◌, ◌-◌, ◌*◌, ◌/◌, ◌≤◌, ◌<◌, ◌≡◌, sym, ap, subst, ◌∙◌, arith, u128_mod, ltb, ◌==◌,
  if◌then◌else◌, ◌||◌, lt→ltb,
}
use vtt.Prelude.Squares.{mul_mono}
use native.Mathlib.Nat.{div-mul-le_self, lt-div-mul-add}
use vtt.Prelude.Outcome.{ok, err}
use vtt.Dex.Error.{DexError}
use vtt.Dex.Math.{mul_u128, div_u128, get_amount_out, calculate_fees}
use vtt.Dex.Math.Mul.{mul_u128-exact, mul_u128-fits}
use vtt.Dex.Math.Div.{div_u128-exact}

-- What a product divided by `d` amounts to: the quotient if it fits 128 bits.
pub mul_div :
    (a b d : ℕ)
    → a < u128_mod
    → b < u128_mod
    → d < u128_mod
    → div_u128 (mul_u128 a b) d
      ≡ (if ltb (a * b) (d * u128_mod) then ok (a * b / d) else err DexError.overflow)
mul_div a b d pa pb pd =
    let exact = mul_u128-exact a b pa pb in
    let fits = (mul_u128-fits a b).1 in
    rw (div_u128-exact (mul_u128 a b) d fits pd, exact)
      (ap (λ t. if t then ok (a * b / d) else err DexError.overflow) (ground arith))

quotient_fits : (a b d : ℕ) → a < u128_mod → b ≤ d → 0 < d → a * b < d * u128_mod
quotient_fits a b d pa h pd = omega (arith, mul_mono a (u128_mod - 1) b d (omega arith) h)

-- A share `b / d` of `a`, with `b` at most `d`, always fits.
pub mul_div_share :
    (a b d : ℕ)
    → a < u128_mod
    → b ≤ d
    → 0 < d
    → d < u128_mod
    → div_u128 (mul_u128 a b) d ≡ ok (a * b / d)
mul_div_share a b d pa h pos pd =
    rw (mul_div a b d pa (omega arith) pd, lt→ltb _ _ (quotient_fits a b d pa h pos))

-- The formula on all branches, for 128-bit numbers: the constant-product quotient, unless an amount
-- is 0 or the new reserve of the input token leaves 128 bits.
pub get_amount_out-eq :
    (amount_in_net reserve_in reserve_out : ℕ)
    → amount_in_net < u128_mod
    → reserve_in < u128_mod
    → reserve_out < u128_mod
    → get_amount_out amount_in_net reserve_in reserve_out ≡ (
        if amount_in_net == 0
        then err DexError.zero_amount
        else if reserve_in == 0 || reserve_out == 0
        then err DexError.zero_liquidity
        else if ltb (reserve_in + amount_in_net) u128_mod
        then ok (reserve_out * amount_in_net / (reserve_in + amount_in_net))
        else err DexError.overflow)
unfolding get_amount_out
get_amount_out-eq x rin rout px pin pout = ground (arith, mul_div_share rout x (rin + x))

pub get_amount_out-ok :
    (x rin rout : ℕ) {o : ℕ}
    → x < u128_mod
    → rin < u128_mod
    → rout < u128_mod
    → get_amount_out x rin rout ≡ ok o
    → (0 < rin) × (0 < rout) × (o ≡ rout * x / (rin + x))
get_amount_out-ok x rin rout px pin pout h =
    ground (arith, get_amount_out-eq x rin rout px pin pout)

kept_of_quotient :
    (x rin rout o : ℕ)
    → 0 < rin
    → 0 < rout
    → o * (rin + x) ≤ rout * x
    → (o < rout) × (rin * rout ≤ (rin + x) * (rout - o))
kept_of_quotient x rin rout o pin pout h =
    let below : o < rout = grind (arith, mul_mono rout o (rin + x) (rin + x)) in
    (below, kept (rout - o) (omega arith))
  where
    kept : (m : ℕ) → m + o ≡ rout → rin * rout ≤ (rin + x) * m
    kept m e = omega (arith, ap (λ (t : ℕ). t * rin) e, ap (λ (t : ℕ). t * x) e)

-- A successful quote is below the output reserve, and paying it out does not lower the product of
-- the reserves, even with no fee kept.
pub get_amount_out-keeps_product :
    (amount_in_net reserve_in reserve_out : ℕ) {amount_out : ℕ}
    → amount_in_net < u128_mod
    → reserve_in < u128_mod
    → reserve_out < u128_mod
    → get_amount_out amount_in_net reserve_in reserve_out ≡ ok amount_out
    → (amount_out < reserve_out)
      × (reserve_in * reserve_out ≤ (reserve_in + amount_in_net) * (reserve_out - amount_out))
get_amount_out-keeps_product x rin rout {amount_out} px pin pout h =
    let (pos_in, pos_out, e) = get_amount_out-ok x rin rout px pin pout h in
    kept_of_quotient x rin rout amount_out pos_in pos_out
      (rw e (div-mul-le_self (rout * x) (rin + x)))

-- `calculate_fees` splits the input: with the protocol's share within the fee and the fee at most
-- 100 percent, the three parts add up to it.
pub calculate_fees-split :
    (amount_in fee_bps protocol_fee_bps : ℕ) {net lp protocol : ℕ}
    → protocol_fee_bps ≤ fee_bps
    → fee_bps ≤ 10_000
    → calculate_fees amount_in fee_bps protocol_fee_bps ≡ ok (net, lp, protocol)
    → (net + lp + protocol ≡ amount_in)
      × (protocol ≡ amount_in * protocol_fee_bps / 10_000)
      × (lp + protocol ≡ amount_in * fee_bps / 10_000)
unfolding calculate_fees
calculate_fees-split x f p le_fee le_all h =
    let within = mul_mono p f x x le_fee (omega arith) in
    let below = mul_mono f 10_000 x x le_all (omega arith) in ground arith

computed_share :
    (a b d : ℕ) {q : ℕ}
    → (if ltb (a * b) (d * u128_mod) then ok (a * b / d) else err DexError.overflow) ≡ ok q
    → (a * b / d ≡ q) × (0 < d)
computed_share a b d h = ground arith

-- A share that has been computed is rounded down.
pub mul_div-ok :
    (a b d : ℕ) {q : ℕ}
    → a < u128_mod
    → b < u128_mod
    → d < u128_mod
    → div_u128 (mul_u128 a b) d ≡ ok q
    → (q * d ≤ a * b) × (a * b < q * d + d)
mul_div-ok a b d {q} pa pb pd h =
    let (e, pos) = computed_share a b d (sym (mul_div a b d pa pb pd) ∙ h) in
    subst (λ (t : ℕ). (t * d ≤ a * b) × (a * b < t * d + d)) e
      (div-mul-le_self (a * b) d, lt-div-mul-add pos)
