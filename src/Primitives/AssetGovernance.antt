-- ===== src/Primitives/AssetGovernance.antt =====
-- crates/vtt-primitives/src/asset_governance.rs: the proposals of an asset's holders.
use vtt.Prelude.{ℕ, List, Bool, true, false, leb, ◌==◌, if◌then◌else◌, wrapping_add, wrapping_mul}
use vtt.Prelude.Keys.{nat_key}
use vtt.Prelude.Sets.{contains}
use vtt.Prelude.Outcome.{Outcome, ok, ◌>>=◌}
use vtt.Primitives.{Text}
use vtt.Primitives.Amount.{Amount, add, is_zero}

-- `ASSET_VOTING_PERIOD_BLOCKS`
abbrev pub asset_voting_period_blocks : ℕ
asset_voting_period_blocks = 201_600

-- `enum AssetProposalAction`
pub data AssetProposalAction : Type 0 where
  distribute_revenue : Amount → AssetProposalAction
  change_issuer : ℕ → AssetProposalAction
  signal dispose_asset finalize_redemption : Text → AssetProposalAction

-- `enum AssetProposalStatus`
pub data AssetProposalStatus : Type 0 where
  active passed rejected executed : AssetProposalStatus

-- `struct AssetProposal`
pub record AssetProposal : Type 0 where
  pub id : ℕ
  pub asset_id : ℕ
  pub proposer : ℕ
  pub action : AssetProposalAction
  pub description : Text
  pub created_at : ℕ
  pub voting_end : ℕ
  pub status : AssetProposalStatus
  pub votes_yes : Amount
  pub votes_no : Amount
  pub votes_abstain : Amount
  pub voters : List ℕ

-- `status == AssetProposalStatus::Active`
abbrev pub is_active : AssetProposalStatus → Bool
is_active AssetProposalStatus.active = true
is_active _ = false

-- `is_voting_ended`
abbrev pub is_voting_ended : ℕ → AssetProposal → Bool
is_voting_ended current_block p = leb p.voting_end current_block

-- `has_voted`
abbrev pub has_voted : ℕ → AssetProposal → Bool
has_voted voter p = contains voter p.voters

module _ {E : Type 0} where
  -- `total_votes`
  unfoldable pub total_votes : AssetProposal → Outcome E Amount
  total_votes p = add p.votes_yes p.votes_no >>= λ sum. add sum p.votes_abstain

  -- `has_quorum`, with `ASSET_QUORUM_BPS` at 3300.
  unfoldable pub has_quorum : Amount → AssetProposal → Outcome E Bool
  unfolding total_votes
  has_quorum total_supply p =
      if is_zero total_supply
      then ok false
      else (total_votes p >>= λ cast_votes.
          ok (leb (wrapping_mul total_supply 3300) (wrapping_mul cast_votes 10_000)))

-- `passes_threshold` at `ASSET_PASS_THRESHOLD_BPS` and `passes_supermajority` at
-- `ASSET_SUPERMAJORITY_BPS`.
unfoldable pub passes_bps : ℕ → AssetProposal → Bool
passes_bps bps p =
    let yes_plus_no = wrapping_add p.votes_yes p.votes_no in
    if yes_plus_no == 0
    then false
    else leb (wrapping_mul yes_plus_no bps) (wrapping_mul p.votes_yes 10_000)

abbrev pub passes_threshold : AssetProposal → Bool
passes_threshold = passes_bps 5001

abbrev pub passes_supermajority : AssetProposal → Bool
passes_supermajority = passes_bps 6700
