-- ===== src/Consensus/Slashing.antt =====
-- crates/vtt-consensus/src/slashing.rs: the penalties and the downtime test.
use vtt.Prelude.{
  ℕ, ◌+◌, ◌*◌, ◌/◌, ◌%◌, ◌≤◌, ◌<◌, ◌≡◌, ◌↔◌, Bool, true, false, arith, ltb, ◌==◌, if◌then◌else◌,
  wrapping_mul, u128_mod, u64_mod,
}
use vtt.Prelude.Squares.{mul_mono}
use native.Mathlib.Nat.{le-div_iff_mul-le}
use native.Mathlib.Decide.{dec_lt}
use vtt.Primitives.Amount.{Amount}

-- `calculate_double_sign_slash` and `calculate_downtime_slash`
unfoldable pub calculate_double_sign_slash : Amount → ℕ → Amount
calculate_double_sign_slash total_stake slash_bps = wrapping_mul total_stake slash_bps / 10_000

unfoldable pub calculate_downtime_slash : Amount → ℕ → Amount
calculate_downtime_slash total_stake slash_bps = wrapping_mul total_stake slash_bps / 10_000

-- `is_downtime_violation`, on `u32` counts that are widened to `u64`.
unfoldable pub is_downtime_violation : ℕ → ℕ → ℕ → Bool
is_downtime_violation missed_slots total_slots threshold_pct =
    if total_slots == 0
    then false
    else ltb threshold_pct (missed_slots * 100 % u64_mod / total_slots)

-- Where the products fit 128 bits, a penalty of at most 100 percent never exceeds the stake, and
-- 0.01 percent of it is less than one unit away from a ten-thousandth for each basis point.
pub calculate_double_sign_slash_bounds :
    (stake bps : ℕ)
    → stake * 10_000 < u128_mod
    → bps ≤ 10_000
    → let slash = calculate_double_sign_slash stake bps in
      (slash ≤ stake) × (slash * 10_000 ≤ stake * bps) × (stake * bps < (slash + 1) * 10_000)
unfolding calculate_double_sign_slash
calculate_double_sign_slash_bounds stake bps fits le =
    let share = mul_mono stake stake bps 10_000 (omega arith) le in
    (omega arith, omega arith, omega arith)

-- A validator is in violation exactly when it has missed at least one whole percent more of its
-- slots than the threshold.
pub is_downtime_violation_iff :
    (missed total pct : ℕ)
    → missed < 0x100000000
    → (is_downtime_violation missed total pct ≡ true)
      ↔ ((0 < total) × ((pct + 1) * total ≤ missed * 100))
unfolding is_downtime_violation
is_downtime_violation_iff missed total pct small = elim (dec_lt 0 total) [
  | yes pos ↦
      let quotient = le-div_iff_mul-le {k = total} {x = pct + 1} {y = missed * 100} pos in
      (λ h. (pos, quotient.0 (ground arith)), λ k. ground (arith, quotient.1 k.1))
  | no none ↦ (λ h. absurd (ground arith), λ k. absurd (omega arith))
]
