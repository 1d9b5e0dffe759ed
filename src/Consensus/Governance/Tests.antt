-- ===== src/Consensus/Governance/Tests.antt =====
-- The theorems on crates/vtt-consensus/src/governance.rs at one proposal with one vote so far.
use vtt.Prelude.{◌≡◌, refl, List, [], ◌∷◌, ◌++◌, true, not, arith, leb, if◌then◌else◌}
use vtt.Prelude.Keys.{nat_key}
use vtt.Prelude.Map.{get, insert}
use vtt.Prelude.Sets.{contains, IsNodup}
use vtt.Prelude.Outcome.{ok, err}
use vtt.Consensus.Governance.{
  ProposalAction, ProposalStatus, Vote, GovernanceError, Proposal, is_active, tally, outcome_of,
  has_quorum, passes_threshold, total_votes,
}
use vtt.Consensus.Governance.System.{GovernanceSystem, find, write, vote, finalize, mark_executed}
use vtt.Consensus.Governance.Votes.{decision, vote_twice, finalize-eq}
use vtt.Consensus.Governance.Lifecycle.{Call, step}
use vtt.Consensus.Governance.Reach.{run, Reaches, Stands, run-Reaches, executed_was_passed}

abbrev motion : Proposal
motion = record {
  id = 1;
  proposer = 9;
  action = ProposalAction.dex_pause true;
  description = [];
  created_at = 0;
  voting_end = 100;
  status = ProposalStatus.active;
  votes_yes = 300;
  votes_no = 0;
  votes_abstain = 0;
  voters = 1 ∷ [];
  snapshot_block = 0;
  total_staked_at_creation = 1_000;
}

abbrev hall : GovernanceSystem
hall = record { proposals = (1, motion) ∷ []; next_id = 1 }

abbrev opposed : Proposal
opposed = record motion { votes_no = 200; voters = 1 ∷ 2 ∷ [] }

opposes : vote 1 2 Vote.no 200 5 hall ≡ (ok tt, write 1 opposed hall)
unfolding vote find tally get insert contains
opposes = refl

stands : Stands 1 motion hall
unfolding get
stands = refl

vote_twice_example : vote 1 2 Vote.yes 50 6 (write 1 opposed hall) ≡ (
  err (if leb 100 6 then GovernanceError.voting_ended else GovernanceError.already_voted),
  write 1 opposed hall,
)
vote_twice_example = vote_twice 1 2 Vote.no Vote.yes 200 50 5 6 hall motion stands opposes

finalize-eq_example : finalize 1 1_000 100 hall ≡ (
    if not (is_active motion.status)
    then (err GovernanceError.not_active, hall)
    else if not (leb 100 100)
    then (err GovernanceError.voting_not_ended, hall)
    else (
      ok (decision 1_000 motion),
      write 1 (record motion { status = decision 1_000 motion }) hall,
    ))
finalize-eq_example = finalize-eq 1 1_000 100 hall motion stands (omega arith) (omega arith)

-- 500 of 1,000 units have voted, 300 of them `yes`.
abbrev voted : GovernanceSystem
voted = record { proposals = (1, opposed) ∷ []; next_id = 1 }

Stands-voted : Stands 1 opposed voted
unfolding get
Stands-voted = refl

passes_at_100 :
    finalize 1 1_000 100 voted
    ≡ (ok ProposalStatus.passed, write 1 (record opposed { status = ProposalStatus.passed }) voted)
unfolding finalize find get insert outcome_of has_quorum passes_threshold total_votes
passes_at_100 = refl

abbrev life : List Call
life = Call.close 1 1_000 100 ∷ Call.execute 1 ∷ []

run-Reaches_example :
    (p' : Proposal) × Stands 1 p' (run life voted)
    × Reaches ProposalStatus.active p'.status
    × IsNodup p'.voters
unfolding contains
run-Reaches_example = run-Reaches life voted 1 opposed Stands-voted (refl, (refl, tt))

abbrev done : Proposal
done = record opposed { status = ProposalStatus.executed }

executes_in_life : Stands 1 done (run life voted)
unfolding run step finalize mark_executed find get insert outcome_of has_quorum passes_threshold
    total_votes
executes_in_life = refl

executed_was_passed_example :
    (before after : List Call) × (q : Proposal) × (life ≡ before ++ after)
    × Stands 1 q (run before voted)
    × (q.status ≡ ProposalStatus.passed)
executed_was_passed_example =
    executed_was_passed life voted 1 opposed done Stands-voted refl executes_in_life refl
