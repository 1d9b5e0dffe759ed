-- ===== src/Executor/Rewards.antt =====
-- `distribute_producer_reward` of crates/vtt-executor/src/lib.rs, with the rewards and fees that
-- `apply_block_rewards_and_governance` pays once governance is done.
pub mod Paid
use vtt.Prelude.{
  ℕ, ◌+◌, ◌-◌, ◌*◌, ◌/◌, ◌%◌, ◌^◌, List, [], ◌∷◌, Bool, ◌||◌, Option, none, some, ltb, ◌==◌,
  if◌then◌else◌, saturating_add, saturating_sub, saturating_mul, wrapping_mul, u64_mod,
}
use vtt.Primitives.Amount.{Amount, from_vtt, is_zero}
use vtt.State.Account.{StakingState, Delegation}
use vtt.State.Db.{StateDb, get_account, add_balance}
use vtt.State.Params.{record_mint_milli, record_burn_milli}
use vtt.Consensus.Validators.{ConsensusParams}
use vtt.Consensus.Rewards.{
  calculate_epoch_reward, split_block_reward, split_gas_fees, split_producer_reward,
}
use vtt.Executor.Transactions.{GasConfig}

-- `let _ = state.add_balance(..)`, where the amount is above 0.
unfoldable pub credit_reward : ℕ → Amount → StateDb → StateDb
credit_reward address amount s = if is_zero amount then s else (add_balance address amount s).1

-- A share of the stakers' pool, by stake.
abbrev pub share_of : Amount → Amount → Amount → Amount
share_of stake stakers_pool total_stake = saturating_mul stake stakers_pool / total_stake

-- The loop over the delegations.
unfoldable pub pay_delegators :
    Amount → Amount → List Delegation → Amount → StateDb → Amount × StateDb
unfolding credit_reward
pay_delegators stakers_pool total_stake [] distributed s = (distributed, s)
pay_delegators stakers_pool total_stake (d ∷ ds) distributed s =
    let share = share_of d.amount stakers_pool total_stake in
    pay_delegators stakers_pool total_stake ds
      (if is_zero share then distributed else saturating_add distributed share)
      (credit_reward d.delegator share s)

-- The stakers' pool, then the dust for the validator.
unfoldable pub pay_stakers : ℕ → StakingState → Amount → StateDb → StateDb
unfolding pay_delegators
pay_stakers validator staking stakers_pool s =
    let self_share = share_of staking.self_stake stakers_pool staking.total_stake in
    let (distributed, s') =
      pay_delegators stakers_pool staking.total_stake staking.delegations self_share
        (credit_reward validator self_share s) in
    if ltb distributed stakers_pool
    then credit_reward validator (stakers_pool - distributed) s'
    else s'

-- A validator with stake.
unfoldable pub reward_staked : ℕ → Amount → StakingState → StateDb → StateDb
unfolding pay_stakers
reward_staked validator producer_reward staking s =
    let split = split_producer_reward producer_reward staking.commission_bps in
    let s' = credit_reward validator split.validator_commission s in
    if is_zero split.staker_rewards
    then s'
    else pay_stakers validator staking split.staker_rewards s'

-- `distribute_producer_reward`
unfoldable pub distribute_producer_reward : ℕ → Amount → StateDb → StateDb
unfolding reward_staked
distribute_producer_reward validator producer_reward s = elim (get_account validator s).staking [
  | none ↦ credit_reward validator producer_reward s
  | some staking ↦
      if is_zero staking.total_stake || is_zero producer_reward
      then credit_reward validator producer_reward s
      else reward_staked validator producer_reward staking s
]

-- `milli_to_raw`
abbrev pub milli_to_raw : ℕ
milli_to_raw = 10 ^ 15

-- `INITIAL_SUPPLY_VTT`
abbrev pub initial_supply_vtt : ℕ
initial_supply_vtt = 1_000_000_000

-- `total_supply`
unfoldable pub circulating : StateDb → Amount
circulating s =
    saturating_sub
      (saturating_add (from_vtt initial_supply_vtt)
        (wrapping_mul s.total_minted_milli milli_to_raw))
      (wrapping_mul s.total_burned_milli milli_to_raw)

-- `per_block_reward`
unfoldable pub per_block_reward : Amount → ℕ → StateDb → Amount
unfolding circulating
per_block_reward total_staked epoch_length s =
    let supply = circulating s in
    let staking_ratio_pct =
      if ltb 0 supply then wrapping_mul total_staked 100 / supply % u64_mod else 0 in
    if epoch_length == 0 then 0 else calculate_epoch_reward supply staking_ratio_pct / epoch_length

-- The inflation: a part for the producer, a part for the treasury.
unfoldable pub pay_block_reward : ℕ → ℕ → Amount → StateDb → StateDb
pay_block_reward producer treasury_address reward s =
    let split = split_block_reward reward in
    let s' = distribute_producer_reward producer split.producer s in
    if is_zero reward
    then s
    else record_mint_milli (reward / milli_to_raw % u64_mod)
        (add_balance treasury_address split.treasury s').1

-- The fees: a part for the producer, the rest is burned.
unfoldable pub pay_gas_fees : ℕ → Amount → StateDb → StateDb
pay_gas_fees producer total_gas_fees s =
    let split = split_gas_fees total_gas_fees in
    if is_zero total_gas_fees
    then s
    else record_burn_milli (split.burned / milli_to_raw % u64_mod)
        (distribute_producer_reward producer split.producer s)

-- `apply_block_rewards_and_governance`, after its two steps on governance.
unfoldable pub apply_block_rewards :
    ℕ → GasConfig → ℕ → Amount → ConsensusParams → StateDb → StateDb
unfolding per_block_reward pay_block_reward pay_gas_fees
apply_block_rewards gas_used gas_config producer total_staked params s =
    let reward = per_block_reward total_staked params.epoch_length s in
    pay_gas_fees producer (wrapping_mul gas_used gas_config.min_gas_price)
      (pay_block_reward producer params.treasury_address reward s)
