-- ===== src/Consensus/Governance/System.antt =====
-- `GovernanceSystem` of crates/vtt-consensus/src/governance.rs.
use vtt.Prelude.{ℕ, ◌+◌, ◌%◌, [], ◌∷◌, ◌++◌, not, u64_mod, Option}
use vtt.Prelude.Keys.{nat_key}
use vtt.Prelude.Map.{Map, get, insert}
use vtt.Prelude.Outcome.{ok_or}
use vtt.Prelude.Action.{Action, ◌>>=◌, ◌>>◌, pure, lift, gets, modify, reject_if}
use vtt.Primitives.{Text}
use vtt.Primitives.Amount.{Amount, is_zero}
use vtt.Consensus.Governance.{
  ProposalAction, ProposalStatus, Vote, GovernanceError, Proposal, is_active, is_executable,
  is_voting_ended, has_voted, tally, outcome_of,
}

-- `struct GovernanceSystem`
pub record GovernanceSystem : Type 0 where
  pub proposals : Map ℕ Proposal
  pub next_id : ℕ

-- `GovernanceSystem::new`
abbrev pub empty : GovernanceSystem
empty = record { proposals = []; next_id = 0 }

abbrev pub GovernanceAction : Type 0 → Type 0
GovernanceAction A = Action GovernanceSystem GovernanceError A

-- `GovernanceSystem::get`
abbrev pub get_proposal : ℕ → GovernanceSystem → Option Proposal
get_proposal proposal_id s = get proposal_id s.proposals

-- `self.proposals.get_mut(proposal_id).ok_or(..)?`
unfoldable pub find : ℕ → GovernanceAction Proposal
find proposal_id = do
  found ← gets (get_proposal proposal_id)
  lift (ok_or found GovernanceError.proposal_not_found)

-- Writing through the reference that `get_mut` gave.
abbrev pub write : ℕ → Proposal → GovernanceSystem → GovernanceSystem
write proposal_id p s = record s { proposals = insert proposal_id p s.proposals }

module _ (hash_id : ℕ → ℕ → ℕ → ℕ) (voting_period_blocks : ℕ) where
  -- `create_proposal`, over the hash of the encoded id data and the voting period in force.
  unfoldable pub create_proposal :
      ℕ → ProposalAction → Text → ℕ → Amount → GovernanceSystem → ℕ × GovernanceSystem
  create_proposal proposer action description current_block total_staked s =
      let id = hash_id s.next_id proposer current_block in
      let p : Proposal = record {
        id = id;
        proposer = proposer;
        action = action;
        description = description;
        created_at = current_block;
        voting_end = (current_block + voting_period_blocks) % u64_mod;
        status = ProposalStatus.active;
        votes_yes = 0;
        votes_no = 0;
        votes_abstain = 0;
        voters = [];
        snapshot_block = current_block;
        total_staked_at_creation = total_staked;
      } in
      (id, record { proposals = insert id p s.proposals; next_id = (s.next_id + 1) % u64_mod })

-- `vote`
unfoldable pub vote : ℕ → ℕ → Vote → Amount → ℕ → GovernanceAction (Unit {0})
unfolding find
vote proposal_id voter choice voting_power current_block = do
  p ← find proposal_id
  reject_if (not (is_active p.status)) GovernanceError.not_active
  reject_if (is_voting_ended current_block p) GovernanceError.voting_ended
  reject_if (has_voted voter p) GovernanceError.already_voted
  reject_if (is_zero voting_power) GovernanceError.no_voting_power
  counted ← lift (tally choice voting_power p)
  modify (write proposal_id (record counted { voters = counted.voters ++ voter ∷ [] }))

-- `finalize`
unfoldable pub finalize : ℕ → Amount → ℕ → GovernanceAction ProposalStatus
unfolding find
finalize proposal_id total_staked current_block = do
  p ← find proposal_id
  reject_if (not (is_active p.status)) GovernanceError.not_active
  reject_if (not (is_voting_ended current_block p)) GovernanceError.voting_not_ended
  status ← lift (outcome_of total_staked p)
  modify (write proposal_id (record p { status = status }))
  pure status

-- `mark_executed`
unfoldable pub mark_executed : ℕ → GovernanceAction (Unit {0})
unfolding find
mark_executed proposal_id = do
  p ← find proposal_id
  reject_if (not (is_executable p.status)) GovernanceError.not_passed
  modify (write proposal_id (record p { status = ProposalStatus.executed }))
