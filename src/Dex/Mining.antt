-- ===== src/Dex/Mining.antt =====
-- crates/vtt-dex/src/mining.rs: rewards for the holders of a pool's shares.
pub mod Claims
pub mod Run
use vtt.Prelude.{
  ℕ, zero, suc, ◌+◌, ◌-◌, ◌*◌, ◌/◌, ◌%◌, ◌^◌, List, [], ◌∷◌, Bool, true, false, ◌||◌, ltb, leb,
  ◌==◌, if◌then◌else◌, u64_mod, wrapping_add, saturating_add, saturating_sub,
}
use vtt.Prelude.Keys.{nat_key}
use vtt.Prelude.Map.{Map, get, insert, get_or}
use vtt.Prelude.Outcome.{Outcome, unwrap_or}
use vtt.Primitives.Amount.{Amount}
use vtt.Dex.Math.{mul_u128, div_u128}

-- `PRECISION`
abbrev pub precision : ℕ
precision = 10 ^ 18

-- `struct MiningPhase`
pub record MiningPhase : Type 0 where
  pub duration_epochs : ℕ
  pub reward_per_epoch : Amount

-- `struct MiningConfig`
pub record MiningConfig : Type 0 where
  pub pool_id : ℕ
  pub total_budget : Amount
  pub source : ℕ
  pub phases : List MiningPhase

-- `struct MiningClaim`
pub record MiningClaim : Type 0 where
  pub reward_debt : ℕ
  pub unclaimed : ℕ

-- `struct MiningState`
pub record MiningState : Type 0 where
  pub config : MiningConfig
  pub start_epoch : ℕ
  pub reward_per_lp_accumulated : ℕ
  pub last_update_epoch : ℕ
  pub total_distributed : Amount
  pub claims : Map ℕ MiningClaim

-- The loop of `reward_at_epoch`, with `boundary` at the end of the earlier phases.
unfoldable pub phase_reward : ℕ → ℕ → List MiningPhase → ℕ
phase_reward elapsed boundary [] = 0
phase_reward elapsed boundary (phase ∷ phases) =
    let next = (boundary + phase.duration_epochs) % u64_mod in
    let rest = phase_reward elapsed next phases in
    if ltb elapsed next then phase.reward_per_epoch else rest

-- `reward_at_epoch`
unfoldable pub reward_at_epoch : ℕ → MiningState → ℕ
reward_at_epoch epoch m = phase_reward (saturating_sub epoch m.start_epoch) 0 m.config.phases

-- `a * b / d`, and 0 where it does not fit.
unfoldable pub share_or_zero : ℕ → ℕ → ℕ → ℕ
share_or_zero a b d = unwrap_or (div_u128 (mul_u128 a b) d) 0

-- The body of the loop of `update_to_epoch`.
unfoldable pub accumulate : ℕ → ℕ → MiningState → MiningState
unfolding share_or_zero
accumulate epoch lp_total_supply m =
    let reward = reward_at_epoch epoch m in
    if ltb 0 reward
    then record m {
      reward_per_lp_accumulated =
          saturating_add m.reward_per_lp_accumulated
            (share_or_zero reward precision lp_total_supply);
    }
    else m

-- The loop over `n` epochs from `epoch` on.
unfoldable pub accumulate_epochs : ℕ → ℕ → ℕ → MiningState → MiningState
accumulate_epochs zero epoch lp_total_supply m = m
accumulate_epochs (suc n) epoch lp_total_supply m =
    accumulate_epochs n (epoch + 1) lp_total_supply (accumulate epoch lp_total_supply m)

-- `update_to_epoch`
unfoldable pub update_to_epoch : ℕ → ℕ → MiningState → MiningState
update_to_epoch current_epoch lp_total_supply m =
    if leb current_epoch m.last_update_epoch || lp_total_supply == 0
    then record m { last_update_epoch = current_epoch }
    else record (accumulate_epochs (current_epoch - m.last_update_epoch) (m.last_update_epoch + 1)
        lp_total_supply m) { last_update_epoch = current_epoch }

-- `total_earned` of `pending_rewards`, which `claim` computes again.
unfoldable pub total_earned : ℕ → MiningState → ℕ
unfolding share_or_zero
total_earned user_lp_balance m = share_or_zero user_lp_balance m.reward_per_lp_accumulated precision

-- `pending_rewards`
unfoldable pub pending_rewards : ℕ → ℕ → MiningState → ℕ
pending_rewards user_lp_balance user m =
    let claim = get_or (get user m.claims) (record { reward_debt = 0; unclaimed = 0 }) in
    wrapping_add (saturating_sub (total_earned user_lp_balance m) claim.reward_debt) claim.unclaimed

-- `claim`
unfoldable pub claim : ℕ → ℕ → MiningState → ℕ × MiningState
claim user_lp_balance user m =
    let pending = pending_rewards user_lp_balance user m in
    (
      pending,
      record m {
        claims =
            insert user (record { reward_debt = total_earned user_lp_balance m; unclaimed = 0 })
              m.claims;
        total_distributed = saturating_add m.total_distributed pending;
      },
    )
