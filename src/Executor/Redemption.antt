-- ===== src/Executor/Redemption.antt =====
-- Redemption and revenue of tokenized assets in crates/vtt-executor/src/lib.rs.
pub mod Vault
pub mod Settled
pub mod Claims
pub mod Revenue
use vtt.Prelude.{
  ℕ, ◌-◌, ◌/◌, ◌%◌, List, [], ◌∷◌, ◌++◌, Bool, true, false, not, Option, none, some, ltb, ◌==◌,
  if◌then◌else◌, checked_add, checked_sub, checked_mul, wrapping_add, wrapping_mul,
}
use vtt.Prelude.Keys.{nat_key, pair_key}
use vtt.Prelude.Map.{insert}
use vtt.Prelude.Outcome.{Outcome, ok, err, ok_or}
use vtt.Prelude.Action.{Action, ◌>>=◌, ◌>>◌, pure, lift, reject_if, gets, modify}
use vtt.Primitives.Amount.{Amount, add, sub, is_zero}
use vtt.State.Asset.{AssetStatus, AssetRecord, OwnershipRecord, total}
use vtt.State.Db.{
  StateDb, StateError, serialization, get_ownership, put_ownership, add_balance, sub_balance,
}
use vtt.State.Params.{put_asset, ownership_for_asset}
use vtt.Executor.Transactions.{ExecutionError, Execution, on_state, or_custom}
use vtt.Executor.Stake.{overflow}
use vtt.Executor.Assets.{asset_or}

-- `status != AssetStatus::RedemptionPending`
abbrev pub is_redeemable : AssetStatus → Bool
is_redeemable AssetStatus.redemption_pending = true
is_redeemable _ = false

-- `execute_fund_redemption_pool`
unfoldable pub execute_fund_redemption_pool : ℕ → ℕ → Amount → Execution
execute_fund_redemption_pool sender asset_id amount = do
  reject_if (is_zero amount) ExecutionError.custom
  asset ← asset_or asset_id ExecutionError.asset_not_found
  reject_if (not (is_redeemable asset.status)) ExecutionError.custom
  reject_if (not (asset.issuer == sender)) ExecutionError.custom
  on_state (sub_balance sender amount)
  asset_mut ← asset_or asset_id ExecutionError.asset_not_found
  modify (λ s. record s { dirty_assets = s.dirty_assets ++ asset_id ∷ [] })
  pool ← lift (ok_or (checked_add asset_mut.redemption_pool amount) overflow)
  modify (λ s. record s {
    assets = insert asset_id (record asset_mut { redemption_pool = pool }) s.assets;
  })

-- The end of `execute_claim_redemption`: the tokens are burned, the share is credited, and the asset
-- is written.
unfoldable pub settle_claim : ℕ → ℕ → OwnershipRecord → Amount → Amount → Execution
settle_claim sender asset_id ownership holder_total share = do
  on_state (put_ownership (record ownership { available = 0; locked = 0 }))
  or_custom (add_balance sender share)
  asset_mut ← asset_or asset_id ExecutionError.asset_not_found
  supply ← lift (sub asset_mut.total_supply holder_total)
  pool ← lift (sub asset_mut.redemption_pool share)
  modify (
      put_asset asset_id (record asset_mut {
        total_supply = supply;
        redemption_pool = pool;
        status = if is_zero supply then AssetStatus.redeemed else asset_mut.status;
      }))

-- `execute_claim_redemption`
unfoldable pub execute_claim_redemption : ℕ → ℕ → Execution
unfolding settle_claim
execute_claim_redemption sender asset_id = do
  asset ← asset_or asset_id ExecutionError.asset_not_found
  reject_if (not (is_redeemable asset.status)) ExecutionError.custom
  reject_if (is_zero asset.total_supply) ExecutionError.custom
  reject_if (is_zero asset.redemption_pool) ExecutionError.custom
  ownership ← gets (get_ownership asset_id sender)
  holder_total ← lift (total ownership)
  reject_if (is_zero holder_total) ExecutionError.custom
  product ← lift (ok_or (checked_mul holder_total asset.redemption_pool) overflow)
  settle_claim sender asset_id ownership holder_total (product / asset.total_supply)

-- `execute_finalize_redemption`
unfoldable pub execute_finalize_redemption : ℕ → Execution
execute_finalize_redemption asset_id = do
  asset ← asset_or asset_id ExecutionError.custom
  reject_if (not (is_redeemable asset.status)) ExecutionError.custom
  treasury ← gets (λ s. s.treasury_address)
  modify (put_asset asset_id (record asset { status = AssetStatus.redeemed; redemption_pool = 0 }))
  (if is_zero asset.redemption_pool
      then pure tt
      else or_custom (add_balance treasury asset.redemption_pool))

-- `mul_div`, for a divisor above 0.
unfoldable pub mul_div : ℕ → ℕ → ℕ → ℕ
mul_div a b c = elim (checked_mul a b) [
  | some product ↦ product / c
  | none ↦
      let r1 = a % c in
      wrapping_add (wrapping_mul (a / c) b) (elim (checked_mul r1 b) [
        | some product ↦ product / c
        | none ↦ wrapping_add (wrapping_mul (r1 / c) b) (wrapping_mul (r1 % c) (b / c))
      ])
]

-- `holders`: those with an available balance.
unfoldable pub paid_holders : List OwnershipRecord → List (ℕ × Amount)
paid_holders [] = []
paid_holders (r ∷ rs) =
    if is_zero r.available then paid_holders rs else (r.owner, r.available) ∷ paid_holders rs

abbrev pub no_holders : List (ℕ × Amount) → Bool
no_holders [] = true
no_holders (h ∷ hs) = false

-- One turn of the loop of `execute_distribute_revenue`, with what is distributed so far.
unfoldable pub pay_holder : Amount → ℕ → Amount → Action StateDb ExecutionError Amount
pay_holder share holder distributed s =
    if is_zero share
    then (ok distributed, s)
    else (on_state (add_balance holder share) >> lift (add distributed share)) s

unfoldable pub pay_holders :
    Amount → Amount → List (ℕ × Amount) → Amount → Action StateDb ExecutionError Amount
unfolding mul_div pay_holder
pay_holders total_amount total_supply [] distributed = pure distributed
pay_holders total_amount total_supply ((holder, held) ∷ hs) distributed =
    pay_holder (mul_div held total_amount total_supply) holder distributed
    >>= pay_holders total_amount total_supply hs

-- The remainder goes back to the sender.
unfoldable pub refund : ℕ → Amount → Amount → Execution
refund sender total_amount distributed s =
    if ltb distributed total_amount
    then on_state (add_balance sender (total_amount - distributed)) s
    else (ok tt, s)

-- The part of `execute_distribute_revenue` that changes the state.
unfoldable pub distribute : ℕ → Amount → Amount → List (ℕ × Amount) → Execution
unfolding pay_holders refund
distribute sender total_amount total_supply holders = do
  on_state (sub_balance sender total_amount)
  distributed ← pay_holders total_amount total_supply holders 0
  refund sender total_amount distributed

-- `execute_distribute_revenue`
unfoldable pub execute_distribute_revenue : ℕ → ℕ → Amount → Execution
unfolding distribute paid_holders
execute_distribute_revenue sender asset_id total_amount = do
  reject_if (is_zero total_amount) ExecutionError.custom
  asset ← asset_or asset_id ExecutionError.custom
  reject_if (not (asset.issuer == sender)) ExecutionError.custom
  reject_if (is_zero asset.total_supply) ExecutionError.custom
  holders ← gets (λ s. paid_holders (ownership_for_asset asset_id s.ownership))
  reject_if (no_holders holders) ExecutionError.custom
  distribute sender total_amount asset.total_supply holders
