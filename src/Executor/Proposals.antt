-- ===== src/Executor/Proposals.antt =====
-- The proposals of asset holders in crates/vtt-executor/src/lib.rs.
pub mod Votes
use vtt.Prelude.{
  ℕ, ◌+◌, ◌%◌, List, [], ◌∷◌, ◌++◌, Bool, true, false, not, ◌&&◌, Option, none, some, ltb,
  if◌then◌else◌, u64_mod,
}
use vtt.Prelude.Keys.{nat_key}
use vtt.Prelude.Map.{get, insert}
use vtt.Prelude.Outcome.{Outcome, ok, err, ◌>>=◌ as ◌>>?◌}
use vtt.Prelude.Action.{Action, ◌>>=◌, ◌>>◌, pure, lift, reject_if, gets, modify}
use vtt.Primitives.{Text}
use vtt.Primitives.Amount.{Amount, add, is_zero}
use vtt.Primitives.AssetGovernance.{
  AssetProposalAction, AssetProposalStatus, AssetProposal, is_active, is_voting_ended, has_voted,
  has_quorum, passes_threshold, passes_supermajority, asset_voting_period_blocks,
}
use vtt.State.Asset.{AssetStatus}
use vtt.State.Db.{StateDb, get_ownership, get_balance}
use vtt.State.Params.{put_asset, put_asset_proposal}
use vtt.Consensus.Governance.{Vote}
use vtt.Executor.Transactions.{ExecutionError, Execution}
use vtt.Executor.Assets.{asset_or}
use vtt.Executor.Redemption.{is_redeemable, execute_distribute_revenue, execute_finalize_redemption}

-- Whether a proposal to distribute revenue exceeds the balance of its proposer.
abbrev pub exceeds : AssetProposalAction → Amount → Bool
exceeds (AssetProposalAction.distribute_revenue total_amount) balance = ltb balance total_amount
exceeds _ balance = false

abbrev pub amount_of : AssetProposalAction → Amount
amount_of (AssetProposalAction.distribute_revenue total_amount) = total_amount
amount_of _ = 0

-- `matches!(action, FinalizeRedemption { .. })`
abbrev pub finalizes : AssetProposalAction → Bool
finalizes (AssetProposalAction.finalize_redemption reason) = true
finalizes _ = false

-- `execute_propose_asset_action`, with the hash of the asset, the sender, the block and the nonce in
-- `proposal_id`.
unfoldable pub execute_propose_asset_action : ℕ → ℕ → ℕ → AssetProposalAction → Text → ℕ → Execution
execute_propose_asset_action proposal_id sender asset_id action description block_number = do
  asset ← asset_or asset_id ExecutionError.custom
  ownership ← gets (get_ownership asset_id sender)
  reject_if (is_zero ownership.available) ExecutionError.custom
  balance ← gets (get_balance sender)
  reject_if (exceeds action balance)
      (ExecutionError.insufficient_balance balance (amount_of action))
  reject_if (finalizes action && not (is_redeemable asset.status)) ExecutionError.custom
  modify (
      put_asset_proposal (record {
        id = proposal_id;
        asset_id = asset_id;
        proposer = sender;
        action = action;
        description = description;
        created_at = block_number;
        voting_end = (block_number + asset_voting_period_blocks) % u64_mod;
        status = AssetProposalStatus.active;
        votes_yes = 0;
        votes_no = 0;
        votes_abstain = 0;
        voters = [];
      }))

-- `get_asset_proposal(..).ok_or(..)`
abbrev pub proposal_or : ℕ → Action StateDb ExecutionError AssetProposal
proposal_or proposal_id s = elim (get proposal_id s.asset_proposals) [
  | none ↦ (err ExecutionError.custom, s)
  | some proposal ↦ (ok proposal, s)
]

-- A write through `get_asset_proposal_mut`.
abbrev pub write_proposal : ℕ → AssetProposal → StateDb → StateDb
write_proposal proposal_id proposal s = record s {
  asset_proposals = insert proposal_id proposal s.asset_proposals;
}

-- The proposal with the vote counted.
unfoldable pub count_vote : Vote → Amount → AssetProposal → Outcome ExecutionError AssetProposal
count_vote Vote.yes power p = add p.votes_yes power >>? λ sum. ok (record p { votes_yes = sum })
count_vote Vote.no power p = add p.votes_no power >>? λ sum. ok (record p { votes_no = sum })
count_vote Vote.abstain power p =
    add p.votes_abstain power >>? λ sum. ok (record p { votes_abstain = sum })

-- `execute_vote_asset_proposal`
unfoldable pub execute_vote_asset_proposal : ℕ → ℕ → Vote → ℕ → Execution
unfolding count_vote
execute_vote_asset_proposal sender proposal_id vote current_block = do
  proposal ← proposal_or proposal_id
  reject_if (not (is_active proposal.status)) ExecutionError.custom
  reject_if (is_voting_ended current_block proposal) ExecutionError.custom
  reject_if (has_voted sender proposal) ExecutionError.custom
  ownership ← gets (get_ownership proposal.asset_id sender)
  reject_if (is_zero ownership.available) ExecutionError.custom
  counted ← lift (count_vote vote ownership.available proposal)
  modify (write_proposal proposal_id (record counted { voters = counted.voters ++ sender ∷ [] }))

-- The threshold that the action of a proposal asks for.
abbrev pub passes : AssetProposalAction → AssetProposal → Bool
passes (AssetProposalAction.change_issuer new_issuer) p = passes_supermajority p
passes (AssetProposalAction.dispose_asset reason) p = passes_supermajority p
passes (AssetProposalAction.finalize_redemption reason) p = passes_supermajority p
passes _ p = passes_threshold p

-- The action of a proposal that has passed.
unfoldable pub perform : AssetProposalAction → ℕ → ℕ → Execution
perform (AssetProposalAction.distribute_revenue total_amount) proposer asset_id =
    execute_distribute_revenue proposer asset_id total_amount
perform (AssetProposalAction.change_issuer new_issuer) proposer asset_id = do
  asset ← asset_or asset_id ExecutionError.custom
  modify (put_asset asset_id (record asset { issuer = new_issuer }))
perform (AssetProposalAction.signal text) proposer asset_id = pure tt
perform (AssetProposalAction.dispose_asset reason) proposer asset_id = do
  asset ← asset_or asset_id ExecutionError.custom
  modify (put_asset asset_id (record asset { status = AssetStatus.redemption_pending }))
perform (AssetProposalAction.finalize_redemption reason) proposer asset_id =
    execute_finalize_redemption asset_id

-- Writing the status of a proposal.
abbrev pub set_status : ℕ → AssetProposalStatus → Execution
set_status proposal_id status = do
  proposal ← proposal_or proposal_id
  modify (write_proposal proposal_id (record proposal { status = status }))

-- `execute_finalize_asset_proposal`
unfoldable pub execute_finalize_asset_proposal : ℕ → ℕ → Execution
unfolding perform
execute_finalize_asset_proposal proposal_id current_block = do
  proposal ← proposal_or proposal_id
  reject_if (not (is_active proposal.status)) ExecutionError.custom
  reject_if (not (is_voting_ended current_block proposal)) ExecutionError.custom
  asset ← asset_or proposal.asset_id ExecutionError.custom
  quorum ← lift (has_quorum asset.total_supply proposal)
  (if quorum && passes proposal.action proposal
      then (perform proposal.action proposal.proposer proposal.asset_id
          >> set_status proposal_id AssetProposalStatus.executed)
      else set_status proposal_id AssetProposalStatus.rejected)
