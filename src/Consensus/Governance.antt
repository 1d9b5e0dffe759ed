-- ===== src/Consensus/Governance.antt =====
-- crates/vtt-consensus/src/governance.rs: proposals and how a vote or the end of voting changes
-- one.
pub mod System
pub mod Votes
pub mod Lifecycle
pub mod Reach
mod Tests
use vtt.Prelude.{
  ℕ, ◌*◌, List, Bool, true, false, ◌||◌, leb, ◌==◌, if◌then◌else◌, wrapping_add, wrapping_mul,
}
use vtt.Prelude.Keys.{nat_key}
use vtt.Prelude.Sets.{contains}
use vtt.Prelude.Outcome.{Outcome, ok, err, ◌>>=◌}
use vtt.Primitives.{Text}
use vtt.Primitives.Amount.{Amount, add, is_zero}

-- `QUORUM_BPS` and `PASS_THRESHOLD_BPS`
abbrev pub quorum_bps : ℕ
quorum_bps = 3300

abbrev pub pass_threshold_bps : ℕ
pass_threshold_bps = 5001

-- `enum ProposalAction`
pub data ProposalAction : Type 0 where
  parameter_change : Text → Text → ProposalAction
  register_chain : Text → Text → ProposalAction
  treasury_spend : ℕ → Amount → ProposalAction
  protocol_upgrade : ℕ → Text → ProposalAction
  dex_pause bridge_pause : Bool → ProposalAction

-- `enum ProposalStatus`
pub data ProposalStatus : Type 0 where
  active passed : ProposalStatus
  queued : ℕ → ProposalStatus
  rejected executed : ProposalStatus

-- `enum Vote`, of crates/vtt-primitives/src/lib.rs.
pub data Vote : Type 0 where
  yes no abstain : Vote

-- `enum GovernanceError`
pub data GovernanceError : Type 0 where
  proposal_not_found not_active voting_ended voting_not_ended : GovernanceError
  already_voted no_voting_power not_passed : GovernanceError

-- `struct Proposal`
pub record Proposal : Type 0 where
  pub id : ℕ
  pub proposer : ℕ
  pub action : ProposalAction
  pub description : Text
  pub created_at : ℕ
  pub voting_end : ℕ
  pub status : ProposalStatus
  pub votes_yes : Amount
  pub votes_no : Amount
  pub votes_abstain : Amount
  pub voters : List ℕ
  pub snapshot_block : ℕ
  pub total_staked_at_creation : Amount

-- `status == ProposalStatus::Active`
abbrev pub is_active : ProposalStatus → Bool
is_active ProposalStatus.active = true
is_active _ = false

-- The match of `mark_executed`.
abbrev pub is_executable : ProposalStatus → Bool
is_executable ProposalStatus.passed = true
is_executable (ProposalStatus.queued after) = true
is_executable _ = false

-- `is_voting_ended`
abbrev pub is_voting_ended : ℕ → Proposal → Bool
is_voting_ended current_block p = leb p.voting_end current_block

-- `has_voted`
abbrev pub has_voted : ℕ → Proposal → Bool
has_voted voter p = contains voter p.voters

-- `total_votes`
unfoldable pub total_votes : Proposal → Outcome GovernanceError Amount
total_votes p = add p.votes_yes p.votes_no >>= λ sum. add sum p.votes_abstain

-- `effective_total` of `has_quorum`.
abbrev pub effective_total : Amount → Proposal → Amount
effective_total total_staked p =
    if is_zero p.total_staked_at_creation then total_staked else p.total_staked_at_creation

-- `has_quorum`
unfoldable pub has_quorum : Amount → Proposal → Outcome GovernanceError Bool
unfolding total_votes
has_quorum total_staked p =
    let needed = wrapping_mul (effective_total total_staked p) quorum_bps in
    if is_zero (effective_total total_staked p)
    then ok false
    else (total_votes p >>= λ cast_votes. ok (leb needed (wrapping_mul cast_votes 10_000)))

-- `passes_threshold`
unfoldable pub passes_threshold : Proposal → Bool
passes_threshold p =
    let yes_plus_no = wrapping_add p.votes_yes p.votes_no in
    if yes_plus_no == 0
    then false
    else leb (wrapping_mul yes_plus_no pass_threshold_bps) (wrapping_mul p.votes_yes 10_000)

-- The tally of a vote, which panics where it leaves 128 bits.
unfoldable pub tally : Vote → Amount → Proposal → Outcome GovernanceError Proposal
tally Vote.yes power p = add p.votes_yes power >>= λ n. ok (record p { votes_yes = n })
tally Vote.no power p = add p.votes_no power >>= λ n. ok (record p { votes_no = n })
tally Vote.abstain power p = add p.votes_abstain power >>= λ n. ok (record p { votes_abstain = n })

-- The status at the end of voting.
unfoldable pub outcome_of : Amount → Proposal → Outcome GovernanceError ProposalStatus
unfolding has_quorum passes_threshold
outcome_of total_staked p = has_quorum total_staked p >>= λ quorum. ok (
    if quorum
    then (if passes_threshold p then ProposalStatus.passed else ProposalStatus.rejected)
    else ProposalStatus.rejected)
