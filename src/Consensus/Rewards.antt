-- ===== src/Consensus/Rewards.antt =====
-- crates/vtt-consensus/src/rewards.rs
use vtt.Prelude.{
  ℕ, ◌+◌, ◌*◌, ◌/◌, ◌≤◌, ◌<◌, ◌≡◌, min, max, arith, ◌==◌, if◌then◌else◌, wrapping_mul, wrapping_sub,
  u128_mod,
}
use vtt.Prelude.Squares.{mul_mono}
use native.Mathlib.Nat.{le-div_iff_mul-le, div-mul-le_self}
use native.Mathlib.Decide.{dec_lt}
use vtt.Primitives.Amount.{Amount}

-- `calculate_epoch_reward`: `base_rate_bps` is 50 and a year has 8760 epochs.
unfoldable pub adjusted_rate : ℕ → ℕ
adjusted_rate staking_ratio_pct =
    if staking_ratio_pct == 0
    then 50 * 2
    else max (min (60 * 50 / staking_ratio_pct) (50 * 2)) (50 / 2)

unfoldable pub calculate_epoch_reward : Amount → ℕ → Amount
unfolding adjusted_rate
calculate_epoch_reward total_supply staking_ratio_pct =
    wrapping_mul total_supply (adjusted_rate staking_ratio_pct) / (1000 * 8760)

-- `struct BlockRewardSplit`
pub record BlockRewardSplit : Type 0 where
  pub producer : Amount
  pub treasury : Amount

-- `split_block_reward`
unfoldable pub split_block_reward : Amount → BlockRewardSplit
split_block_reward total_reward = record {
  producer = wrapping_mul total_reward 80 / 100;
  treasury = wrapping_mul total_reward 20 / 100;
}

-- `struct ProducerRewardSplit`
pub record ProducerRewardSplit : Type 0 where
  pub validator_commission : Amount
  pub staker_rewards : Amount

-- `split_producer_reward`
unfoldable pub split_producer_reward : Amount → ℕ → ProducerRewardSplit
split_producer_reward producer_reward commission_bps =
    let commission_raw = wrapping_mul producer_reward commission_bps / 10_000 in
    record {
      validator_commission = commission_raw;
      staker_rewards = wrapping_sub producer_reward commission_raw;
    }

-- `struct GasFeeSplit`
pub record GasFeeSplit : Type 0 where
  pub burned : Amount
  pub producer : Amount

-- `split_gas_fees`
unfoldable pub split_gas_fees : Amount → GasFeeSplit
split_gas_fees total_fees = record {
  burned = wrapping_mul total_fees 70 / 100;
  producer = wrapping_mul total_fees 30 / 100;
}

-- Where the products fit 128 bits, no split creates money: block rewards and gas fees are paid out
-- in full but for one smallest unit at most, and a producer's reward is divided exactly.
pub splits_conserve :
    (total commission_bps : ℕ)
    → total * 10_000 < u128_mod
    → commission_bps ≤ 10_000
    → let r = split_block_reward total in
      let g = split_gas_fees total in
      let p = split_producer_reward total commission_bps in
      (r.producer + r.treasury ≤ total)
      × (total ≤ r.producer + r.treasury + 1)
      × (g.burned + g.producer ≤ total)
      × (total ≤ g.burned + g.producer + 1)
      × (p.validator_commission + p.staker_rewards ≡ total)
unfolding split_block_reward split_gas_fees split_producer_reward
splits_conserve total c fits le =
    let share = mul_mono total total c 10_000 (omega arith) le in
    (omega arith, omega arith, omega arith, omega arith, omega arith)

quotient_antitone : (n a b : ℕ) → 0 < a → a ≤ b → n / b ≤ n / a
quotient_antitone n a b pos le =
    (le-div_iff_mul-le {k = a} {x = n / b} {y = n} pos).1
      (omega (arith, mul_mono (n / b) (n / b) a b (omega arith) le, div-mul-le_self n b))

-- The rate stays between half the base rate and twice that, at any staking ratio, and never rises
-- with the ratio.
pub adjusted_rate_bounds :
    (ratio more : ℕ)
    → ratio ≤ more
    → (25 ≤ adjusted_rate ratio)
      × (adjusted_rate ratio ≤ 100)
      × (adjusted_rate more ≤ adjusted_rate ratio)
unfolding adjusted_rate
adjusted_rate_bounds ratio more h = elim (dec_lt 0 ratio) [
  | yes pos ↦
      let lower = quotient_antitone 3000 ratio more pos h in
      (ground arith, ground arith, ground arith)
  | no none ↦ (ground arith, ground arith, ground arith)
]
