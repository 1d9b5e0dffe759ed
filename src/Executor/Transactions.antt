-- ===== src/Executor/Transactions.antt =====
-- The transactions of crates/vtt-primitives/src/transaction.rs and the errors of
-- crates/vtt-executor/src/lib.rs. Logs and the texts of errors are left out: the executor reads
-- neither.
use vtt.Prelude.{ℕ, ◌+◌, ◌*◌, ◌%◌, Bool, List, Option, length, u64_mod}
use vtt.Prelude.Action.{Action, map_err}
use vtt.Primitives.{Text}
use vtt.Primitives.Amount.{Amount}
use vtt.Primitives.AssetGovernance.{AssetProposalAction}
use vtt.State.Db.{StateDb, StateError}
use vtt.Consensus.Governance.{Vote}

-- `enum ExecutionError`
pub data ExecutionError : Type 0 where
  invalid_signature gas_limit_exceeded contract_not_supported : ExecutionError
  nonce_mismatch : ℕ → ℕ → ExecutionError
  insufficient_gas insufficient_balance : Amount → Amount → ExecutionError
  state : StateError → ExecutionError
  stake_below_minimum unstake_exceeds_stake : Amount → Amount → ExecutionError
  contract_too_large : ℕ → ℕ → ExecutionError
  bridge_paused asset_not_found not_issuer custom : ExecutionError

-- `enum CrossChainPayload`
pub data CrossChainPayload : Type 0 where
  vtt_transfer : Amount → CrossChainPayload
  asset_transfer : ℕ → Amount → CrossChainPayload
  contract_call : ℕ → Text → List ℕ → Amount → CrossChainPayload

-- `enum TransactionAction`, the fields of each variant in their order.
pub data TransactionAction : Type 0 where
  transfer : ℕ → Amount → TransactionAction
  deploy_contract : List ℕ → List ℕ → TransactionAction
  call_contract : ℕ → Text → List ℕ → Amount → TransactionAction
  stake unstake : ℕ → Amount → TransactionAction
  governance_vote : ℕ → Vote → TransactionAction
  create_asset_class : Text → Text → Text → Amount → ℕ → Text → Text → Text → TransactionAction
  asset_transfer : ℕ → ℕ → Amount → TransactionAction
  cross_chain_transfer : ℕ → ℕ → CrossChainPayload → TransactionAction
  create_pool : ℕ → ℕ → Amount → Amount → TransactionAction
  add_liquidity remove_liquidity : ℕ → Amount → Amount → Amount → TransactionAction
  swap : ℕ → ℕ → Amount → Amount → TransactionAction
  claim_revenue claim_mining_rewards : ℕ → TransactionAction
  distribute_revenue : ℕ → Amount → TransactionAction
  propose_asset_action : ℕ → AssetProposalAction → Text → TransactionAction
  vote_asset_proposal : ℕ → Vote → TransactionAction
  finalize_asset_proposal : ℕ → TransactionAction
  bridge_withdraw : ℕ → Amount → ℕ → ℕ → TransactionAction
  governance_propose :
      Text → Text → Option Text → Option Text → Option ℕ → Option Amount → TransactionAction
  freeze_asset unfreeze_asset : ℕ → TransactionAction
  submit_slashing_evidence : List ℕ → TransactionAction
  fund_redemption_pool : ℕ → Amount → TransactionAction
  claim_redemption : ℕ → TransactionAction
  set_kyc_approval : ℕ → Bool → TransactionAction
  bridge_deposit : ℕ → ℕ → ℕ → ℕ → Amount → TransactionAction
  set_address_jurisdiction : ℕ → Text → TransactionAction
  create_oracle_feed : ℕ → Text → Text → List ℕ → ℕ → ℕ → ℕ → TransactionAction
  submit_oracle_value : ℕ → Amount → TransactionAction

-- `struct TransactionPayload`
pub record TransactionPayload : Type 0 where
  pub chain_id : ℕ
  pub nonce : ℕ
  pub gas_price : Amount
  pub gas_limit : ℕ
  pub action : TransactionAction

-- `struct SignedTransaction`
pub record SignedTransaction : Type 0 where
  pub payload : TransactionPayload
  pub signature : ℕ
  pub public_key : ℕ

-- `struct ExecutionResult` with its `TransactionReceipt`, less the logs.
pub record ExecutionResult : Type 0 where
  pub tx_hash : ℕ
  pub success : Bool
  pub gas_used : ℕ

-- `struct GasConfig`, of crates/vtt-primitives/src/chain.rs.
pub record GasConfig : Type 0 where
  pub min_gas_price : Amount
  pub base_transfer_cost : ℕ
  pub cost_per_byte : ℕ

-- An action of a transaction.
abbrev pub Execution : Type 0
Execution = Action StateDb ExecutionError (Unit {0})

-- `?` on a result of the state database.
abbrev pub on_state : {A : Type 0} → Action StateDb StateError A → Action StateDb ExecutionError A
on_state call = map_err call ExecutionError.state

-- `map_err` to a `Custom` error.
abbrev pub or_custom : {E A : Type 0} → Action StateDb E A → Action StateDb ExecutionError A
or_custom call = map_err call (λ _. ExecutionError.custom)

-- `calculate_gas_cost`, on `u64` in a release build.
unfoldable pub calculate_gas_cost : TransactionAction → GasConfig → ℕ
calculate_gas_cost (TransactionAction.transfer to amount) config = config.base_transfer_cost
calculate_gas_cost (TransactionAction.stake validator amount) config =
    config.base_transfer_cost * 2 % u64_mod
calculate_gas_cost (TransactionAction.unstake validator amount) config =
    config.base_transfer_cost * 2 % u64_mod
calculate_gas_cost (TransactionAction.governance_vote proposal_id vote) config =
    config.base_transfer_cost
calculate_gas_cost (TransactionAction.deploy_contract code init_data) config =
    (config.base_transfer_cost + length code * config.cost_per_byte) % u64_mod
calculate_gas_cost (TransactionAction.call_contract contract method args value) config =
    (config.base_transfer_cost + length args * config.cost_per_byte) % u64_mod
calculate_gas_cost (TransactionAction.create_asset_class _ _ _ _ _ _ _ _) config =
    config.base_transfer_cost * 5 % u64_mod
calculate_gas_cost (TransactionAction.asset_transfer asset_id to amount) config =
    config.base_transfer_cost * 2 % u64_mod
calculate_gas_cost (TransactionAction.cross_chain_transfer chain to payload) config =
    config.base_transfer_cost * 3 % u64_mod
calculate_gas_cost (TransactionAction.create_pool _ _ _ _) config = 50_000
calculate_gas_cost (TransactionAction.add_liquidity _ _ _ _) config = 30_000
calculate_gas_cost (TransactionAction.remove_liquidity _ _ _ _) config = 30_000
calculate_gas_cost (TransactionAction.swap _ _ _ _) config = 25_000
calculate_gas_cost (TransactionAction.claim_revenue _) config = 10_000
calculate_gas_cost (TransactionAction.claim_mining_rewards _) config = 10_000
calculate_gas_cost (TransactionAction.distribute_revenue _ _) config = 50_000
calculate_gas_cost (TransactionAction.propose_asset_action _ _ _) config = 100_000
calculate_gas_cost (TransactionAction.vote_asset_proposal _ _) config = 30_000
calculate_gas_cost (TransactionAction.finalize_asset_proposal _) config = 100_000
calculate_gas_cost (TransactionAction.bridge_withdraw _ _ _ _) config = 50_000
calculate_gas_cost (TransactionAction.governance_propose _ _ _ _ _ _) config = 100_000
calculate_gas_cost (TransactionAction.freeze_asset _) config = 30_000
calculate_gas_cost (TransactionAction.unfreeze_asset _) config = 30_000
calculate_gas_cost (TransactionAction.submit_slashing_evidence _) config = 150_000
calculate_gas_cost (TransactionAction.bridge_deposit _ _ _ _ _) config = 80_000
calculate_gas_cost (TransactionAction.fund_redemption_pool _ _) config = 50_000
calculate_gas_cost (TransactionAction.claim_redemption _) config = 80_000
calculate_gas_cost (TransactionAction.set_kyc_approval _ _) config = 30_000
calculate_gas_cost (TransactionAction.set_address_jurisdiction _ _) config = 30_000
calculate_gas_cost (TransactionAction.create_oracle_feed _ _ _ _ _ _ _) config = 80_000
calculate_gas_cost (TransactionAction.submit_oracle_value _ _) config = 40_000
