-- ===== src/Executor/Dispatch.antt =====
-- `execute_action` of crates/vtt-executor/src/lib.rs.
use vtt.Prelude.{ℕ, ◌/◌, List, Option, ◌==◌, if◌then◌else◌}
use vtt.Prelude.Keys.{nat_key}
use vtt.Prelude.Map.{get, insert}
use vtt.Prelude.Outcome.{Outcome, ok, err, ok_or}
use vtt.Prelude.Action.{Action, ◌>>=◌, pure, lift, gets, modify}
use vtt.Prelude.Codec.{Codec}
use vtt.Primitives.{Text}
use vtt.State.Db.{StateDb, transfer}
use vtt.Dex.Pool.{Externals}
use vtt.Dex.Liquidity.{create_pool, add_liquidity, remove_liquidity}
use vtt.Dex.Swap.{execute_swap}
use vtt.Dex.Revenue.{claim_protocol_fees}
use vtt.Dex.Mining.{MiningState}
use vtt.Dex.Mining.Run.{claim_mining_rewards}
use vtt.Consensus.Validators.{ConsensusParams}
use vtt.Consensus.Engine.{Crypto}
use vtt.Executor.Transactions.{
  ExecutionError, Execution, TransactionAction, TransactionPayload, on_state, or_custom,
}
use vtt.Executor.Stake.{execute_stake, execute_unstake}
use vtt.Executor.Assets.{
  execute_asset_transfer, execute_create_asset, execute_freeze_asset, execute_unfreeze_asset,
  execute_set_kyc_approval, execute_set_address_jurisdiction,
}
use vtt.Executor.Redemption.{
  execute_fund_redemption_pool, execute_claim_redemption, execute_distribute_revenue,
}
use vtt.Executor.Proposals.{
  execute_propose_asset_action, execute_vote_asset_proposal, execute_finalize_asset_proposal,
}
use vtt.Executor.Bridge.{execute_bridge_deposit, execute_bridge_withdraw}
use vtt.Executor.Feeds.{execute_create_oracle_feed, execute_submit_oracle_value}
use vtt.Executor.Evidence.{DoubleSignEvidence, execute_submit_slashing_evidence}

-- The block that a transaction is executed in.
pub record BlockContext : Type 0 where
  pub number : ℕ
  pub timestamp : ℕ
  pub chain_id : ℕ

-- What the executor takes from others: hashes of borsh encodings, the encodings themselves, the
-- check of signatures, and the actions that are not modelled, those on contracts and on governance
-- proposals.
pub record Node : Type 0 where
  pub dex : Externals
  pub crypto : Crypto
  pub consensus : ConsensusParams
  pub mining_codec : Codec MiningState
  pub asset_id_of : ℕ → Text → Text → ℕ
  pub proposal_id_of : ℕ → ℕ → ℕ → ℕ → ℕ
  pub decode_evidence : List ℕ → Option DoubleSignEvidence
  pub payload_to_vec : TransactionPayload → Option (List ℕ)
  pub payload_bytes : TransactionPayload → List ℕ
  pub address_from_public_key : ℕ → ℕ
  pub other_action : ℕ → TransactionAction → BlockContext → ℕ → Execution

module _ (node : Node) where
  -- `block_number.checked_div(epoch_length).unwrap_or(0)`
  abbrev pub epoch_at : ℕ → StateDb → ℕ
  epoch_at block_number s = if s.epoch_length == 0 then 0 else block_number / s.epoch_length

  -- The arm of `ClaimMiningRewards`, with the mining state that is kept in the state database.
  unfoldable pub execute_claim_mining : ℕ → ℕ → ℕ → Execution
  execute_claim_mining sender pool_id block_number = do
    current_epoch ← gets (epoch_at block_number)
    stored ← gets (λ s. get pool_id s.mining_states)
    mining_data ← lift (ok_or stored ExecutionError.custom)
    mining_state ← lift (ok_or (node.mining_codec.try_from_slice mining_data) ExecutionError.custom)
    updated ← run_mining mining_state sender pool_id current_epoch
    updated_data ← lift (ok_or (node.mining_codec.to_vec updated) ExecutionError.custom)
    modify (λ s. record s { mining_states = insert pool_id updated_data s.mining_states })
    where
      run_mining : MiningState → ℕ → ℕ → ℕ → Action StateDb ExecutionError MiningState
      run_mining m sender pool_id current_epoch s =
          let (r, (s', m')) = claim_mining_rewards node.dex sender pool_id current_epoch (s, m) in
          elim r [
            | ok reward ↦ (ok m', s')
            | err why ↦ (err ExecutionError.custom, s')
            | Outcome.panic ↦ (Outcome.panic, s')
          ]

  -- `execute_action`
  unfoldable pub execute_action : ℕ → TransactionAction → BlockContext → ℕ → ℕ → Execution
  unfolding execute_claim_mining
  execute_action sender (TransactionAction.transfer to amount) block nonce gas_limit =
      on_state (transfer sender to amount)
  execute_action sender (TransactionAction.stake validator amount) block nonce gas_limit =
      execute_stake sender validator amount
  execute_action sender (TransactionAction.unstake validator amount) block nonce gas_limit =
      execute_unstake sender validator amount block.timestamp
  execute_action sender
        (TransactionAction.create_asset_class name symbol uri supply decimals class country entity)
        block nonce gas_limit =
      execute_create_asset (node.asset_id_of sender name symbol) sender name symbol uri supply
        decimals class country entity block.number
  execute_action sender (TransactionAction.asset_transfer asset_id to amount) block nonce
        gas_limit =
      execute_asset_transfer sender asset_id to amount
  execute_action sender (TransactionAction.cross_chain_transfer chain to payload) block nonce
        gas_limit =
      λ s. (err ExecutionError.custom, s)
  execute_action sender (TransactionAction.create_pool token_a token_b amount_a amount_b) block
        nonce gas_limit =
      do
        current_epoch ← gets (epoch_at block.number)
        _ ← or_custom (create_pool node.dex sender token_a token_b amount_a amount_b current_epoch)
        pure tt
  execute_action sender (TransactionAction.add_liquidity pool_id amount_a amount_b min_lp) block
        nonce gas_limit =
      do _ ← or_custom (add_liquidity node.dex sender pool_id amount_a amount_b min_lp); pure tt
  execute_action sender (TransactionAction.remove_liquidity pool_id lp_amount min_a min_b) block
        nonce gas_limit =
      do _ ← or_custom (remove_liquidity node.dex sender pool_id lp_amount min_a min_b); pure tt
  execute_action sender (TransactionAction.swap pool_id token_in amount_in min_out) block nonce
        gas_limit =
      do _ ← or_custom (execute_swap node.dex sender pool_id token_in amount_in min_out); pure tt
  execute_action sender (TransactionAction.claim_revenue pool_id) block nonce gas_limit = do
    treasury ← gets (λ s. s.treasury_address)
    _ ← or_custom (claim_protocol_fees node.dex sender pool_id treasury)
    pure tt
  execute_action sender (TransactionAction.claim_mining_rewards pool_id) block nonce gas_limit =
      execute_claim_mining sender pool_id block.number
  execute_action sender (TransactionAction.distribute_revenue asset_id total) block nonce
        gas_limit =
      execute_distribute_revenue sender asset_id total
  execute_action sender (TransactionAction.propose_asset_action asset_id action text) block nonce
        gas_limit =
      execute_propose_asset_action (node.proposal_id_of asset_id sender block.number nonce) sender
        asset_id action text block.number
  execute_action sender (TransactionAction.vote_asset_proposal id vote) block nonce gas_limit =
      execute_vote_asset_proposal sender id vote block.number
  execute_action sender (TransactionAction.finalize_asset_proposal id) block nonce gas_limit =
      execute_finalize_asset_proposal id block.number
  execute_action sender (TransactionAction.bridge_withdraw token amount chain to) block nonce
        gas_limit =
      execute_bridge_withdraw sender token amount
  execute_action sender (TransactionAction.freeze_asset asset_id) block nonce gas_limit =
      execute_freeze_asset sender asset_id
  execute_action sender (TransactionAction.unfreeze_asset asset_id) block nonce gas_limit =
      execute_unfreeze_asset sender asset_id
  execute_action sender (TransactionAction.submit_slashing_evidence raw) block nonce gas_limit =
      execute_submit_slashing_evidence node.crypto node.consensus (node.decode_evidence raw)
  execute_action sender (TransactionAction.fund_redemption_pool asset_id amount) block nonce
        gas_limit =
      execute_fund_redemption_pool sender asset_id amount
  execute_action sender (TransactionAction.claim_redemption asset_id) block nonce gas_limit =
      execute_claim_redemption sender asset_id
  execute_action sender (TransactionAction.set_kyc_approval address approved) block nonce
        gas_limit =
      execute_set_kyc_approval sender address approved
  execute_action sender (TransactionAction.bridge_deposit hash chain to token amount) block nonce
        gas_limit =
      execute_bridge_deposit sender hash chain to token amount
  execute_action sender (TransactionAction.set_address_jurisdiction address country) block nonce
        gas_limit =
      execute_set_address_jurisdiction sender address country
  execute_action sender
        (TransactionAction.create_oracle_feed id name feed_type sources quorum staleness decimals)
        block nonce gas_limit =
      execute_create_oracle_feed sender id name feed_type sources quorum staleness decimals
        block.number
  execute_action sender (TransactionAction.submit_oracle_value feed_id value) block nonce
        gas_limit =
      execute_submit_oracle_value sender feed_id value block.timestamp
  execute_action sender action block nonce gas_limit =
      node.other_action sender action block gas_limit
