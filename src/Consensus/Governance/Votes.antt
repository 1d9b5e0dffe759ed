-- ===== src/Consensus/Governance/Votes.antt =====
-- Voting and the decision in crates/vtt-consensus/src/governance.rs.
use vtt.Prelude.{
  ℕ, ◌+◌, ◌*◌, ◌≤◌, ◌<◌, ◌≡◌, [], ◌∷◌, ◌++◌, true, false, not, ◌&&◌, some, arith, u128_mod, ltb,
  leb, if◌then◌else◌, ap, inl, inr,
}
use vtt.Prelude.Keys.{nat_key}
use vtt.Prelude.Map.{get, get-insert}
use vtt.Prelude.Sets.{contains, contains-append}
use vtt.Prelude.Outcome.{ok, err, Outcome-cases}
use vtt.Consensus.Governance.{
  ProposalStatus, Vote, GovernanceError, Proposal, is_active, effective_total, total_votes,
  has_quorum, passes_threshold, tally, outcome_of,
}
use vtt.Consensus.Governance.System.{GovernanceSystem, find, write, vote, finalize}

-- All votes on a proposal.
abbrev pub votes_of : Proposal → ℕ
votes_of p = p.votes_yes + p.votes_no + p.votes_abstain

-- The part of a vote's power that counts for `yes`, and for `no`.
abbrev pub yes_part : Vote → ℕ → ℕ
yes_part Vote.yes power = power
yes_part _ power = 0

abbrev pub no_part : Vote → ℕ → ℕ
no_part Vote.no power = power
no_part _ power = 0

-- A vote of `voter` has turned the open proposal `p` into `p'`.
pub record IsCounted (p p' : Proposal) (voter : ℕ) (choice : Vote) (power block : ℕ) : Type 0 where
  pub voting : is_active p.status ≡ true
  pub status : p'.status ≡ p.status
  pub in_time : block < p.voting_end
  pub once : contains voter p.voters ≡ false
  pub positive : 0 < power
  pub listed : p'.voters ≡ p.voters ++ voter ∷ []
  pub yes : p'.votes_yes ≡ p.votes_yes + yes_part choice power
  pub no : p'.votes_no ≡ p.votes_no + no_part choice power
  pub sum : votes_of p' ≡ votes_of p + power

tally_lem :
    (c : Vote) (power : ℕ) (p : Proposal) {q : Proposal}
    → tally c power p ≡ ok q
    → (q.votes_yes ≡ p.votes_yes + yes_part c power)
      × (q.votes_no ≡ p.votes_no + no_part c power)
      × (votes_of q ≡ votes_of p + power)
      × (q.voters ≡ p.voters)
      × (q.status ≡ p.status)
      × (q.voting_end ≡ p.voting_end)
unfolding tally
tally_lem Vote.yes power p h = ground arith
tally_lem Vote.no power p h = ground arith
tally_lem Vote.abstain power p h = ground arith

-- The stages of a vote that is accepted.
pub vote_stages :
    (id voter : ℕ) (c : Vote) (power block : ℕ) (s : GovernanceSystem) {s' : GovernanceSystem}
    (p : Proposal)
    → get id s.proposals ≡ some p
    → vote id voter c power block s ≡ (ok tt, s')
    → (q : Proposal) × (tally c power p ≡ ok q)
      × (is_active p.status ≡ true)
      × (block < p.voting_end)
      × (contains voter p.voters ≡ false)
      × (0 < power)
      × (s' ≡ write id (record q { voters = q.voters ++ voter ∷ [] }) s)
unfolding vote find
vote_stages id voter c power block s p e h = elim (Outcome-cases (tally c power p)) [
  | inl (q, f) ↦ (q, f, ground arith, ground arith, ground arith, ground arith, ground arith)
  | inr (inl (why, f)) ↦ absurd (ground arith)
  | inr (inr f) ↦ absurd (ground arith)
]

-- A vote that is accepted has found the proposal active, in time and without an earlier vote of the
-- voter; the voter is listed, and the voter's power is added to the choice and to all votes.
pub vote-IsCounted :
    (id voter : ℕ) (c : Vote) (power block : ℕ) (s : GovernanceSystem) {s' : GovernanceSystem}
    (p : Proposal)
    → get id s.proposals ≡ some p
    → vote id voter c power block s ≡ (ok tt, s')
    → (p' : Proposal) × (get id s'.proposals ≡ some p') × IsCounted p p' voter c power block
vote-IsCounted id voter c power block s {s'} p e h =
    let (q, f, voting, in_time, once, positive, last) =
      vote_stages id voter c power block s p e h in
    let (for_yes, for_no, sum, voters, status, _) = tally_lem c power p f in
    (
      record q { voters = q.voters ++ voter ∷ [] },
      ground (arith, get-insert id id (record q { voters = q.voters ++ voter ∷ [] }) s.proposals),
      record {
        voting = voting;
        status = status;
        in_time = in_time;
        once = once;
        positive = positive;
        listed = ap (λ vs. vs ++ voter ∷ []) voters;
        yes = for_yes;
        no = for_no;
        sum = sum;
      },
    )

-- After a vote that is accepted, any other vote of the same voter on the proposal is refused, and
-- changes nothing.
pub vote_twice :
    (id voter : ℕ) (c c' : Vote) (power power' block block' : ℕ) (s : GovernanceSystem)
    {s' : GovernanceSystem} (p : Proposal)
    → get id s.proposals ≡ some p
    → vote id voter c power block s ≡ (ok tt, s')
    → vote id voter c' power' block' s' ≡ (
      err (
          if leb p.voting_end block'
          then GovernanceError.voting_ended
          else GovernanceError.already_voted),
      s',
    )
unfolding vote find
vote_twice id voter c c' power power' block block' s {s'} p e h =
    let (q, f, voting, _, _, _, last) = vote_stages id voter c power block s p e h in
    let (_, _, _, _, status, ends) = tally_lem c power p f in
    let q' : Proposal = record q { voters = q.voters ++ voter ∷ [] } in
    ground (arith, get-insert id id q' s.proposals, contains-append voter voter q.voters)

-- The decision on a proposal, in plain numbers.
abbrev pub decision : ℕ → Proposal → ProposalStatus
decision total_staked p =
    let staked = effective_total total_staked p in
    if ltb 0 staked
      && leb (staked * 3300) (votes_of p * 10_000)
      && ltb 0 (p.votes_yes + p.votes_no)
      && leb ((p.votes_yes + p.votes_no) * 5001) (p.votes_yes * 10_000)
    then ProposalStatus.passed
    else ProposalStatus.rejected

-- While the products fit 128 bits, the end of voting decides an active proposal in one way or the
-- other: it passes if the votes are at least 33 percent of the stake and 50.01 percent of `yes` and
-- `no` are `yes`. Before the end nothing is decided, and a decision is not taken again.
pub finalize-eq :
    (id total_staked block : ℕ) (s : GovernanceSystem) (p : Proposal)
    → get id s.proposals ≡ some p
    → votes_of p * 10_000 < u128_mod
    → effective_total total_staked p * 3300 < u128_mod
    → finalize id total_staked block s ≡ (
        if not (is_active p.status)
        then (err GovernanceError.not_active, s)
        else if not (leb p.voting_end block)
        then (err GovernanceError.voting_not_ended, s)
        else (
          ok (decision total_staked p),
          write id (record p { status = decision total_staked p }) s,
        ))
unfolding finalize find outcome_of has_quorum passes_threshold total_votes
finalize-eq id total_staked block s p e fits fits' = ground arith

decision_majority :
    (total_staked : ℕ) (p : Proposal)
    → decision total_staked p ≡ ProposalStatus.passed
    → p.votes_no < p.votes_yes
decision_majority total_staked p h = ground arith

-- While the products fit 128 bits, a proposal that passes has more `yes` than `no`, its voting has
-- ended, and it stands as passed.
pub finalize_majority :
    (id total_staked block : ℕ) (s : GovernanceSystem) {s' : GovernanceSystem} (p : Proposal)
    → get id s.proposals ≡ some p
    → votes_of p * 10_000 < u128_mod
    → effective_total total_staked p * 3300 < u128_mod
    → finalize id total_staked block s ≡ (ok ProposalStatus.passed, s')
    → (p.votes_no < p.votes_yes)
      × (p.voting_end ≤ block)
      × (get id s'.proposals ≡ some (record p { status = ProposalStatus.passed }))
finalize_majority id total_staked block s p e fits fits' h =
    let eq = finalize-eq id total_staked block s p e fits fits' in
    let p' : Proposal = record p { status = decision total_staked p } in
    (
      ground (arith, decision_majority total_staked p),
      ground arith,
      ground (arith, get-insert id id p' s.proposals),
    )
