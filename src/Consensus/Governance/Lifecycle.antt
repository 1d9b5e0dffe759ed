-- ===== src/Consensus/Governance/Lifecycle.antt =====
-- What one call does to a proposal in crates/vtt-consensus/src/governance.rs.
use vtt.Prelude.{
  ℕ, ◌≡◌, refl, [], ◌∷◌, ◌++◌, Bool, true, false, not, some, arith, ◌&&◌, ◌⊎◌, Option-cases,
  Bool-cases, inl, inr, subst, sym,
}
use vtt.Prelude.Keys.{nat_key}
use vtt.Prelude.Map.{get}
use vtt.Prelude.Sets.{contains, IsNodup, append-IsNodup}
use vtt.Prelude.Outcome.{ok, Outcome-cases}
use vtt.Primitives.Amount.{Amount, is_zero}
use vtt.Consensus.Governance.{
  ProposalStatus, Vote, Proposal, is_active, is_executable, is_voting_ended, has_voted, tally,
  outcome_of,
}
use vtt.Consensus.Governance.System.{GovernanceSystem, find, write, vote, finalize, mark_executed}

-- The calls that can change a proposal.
pub data Call : Type 0 where
  cast : ℕ → ℕ → Vote → Amount → ℕ → Call
  close : ℕ → Amount → ℕ → Call
  execute : ℕ → Call

-- The state after a call, whether it succeeds or not.
unfoldable pub step : Call → GovernanceSystem → GovernanceSystem
step (Call.cast id voter c power block) s = (vote id voter c power block s).1
step (Call.close id total_staked block) s = (finalize id total_staked block s).1
step (Call.execute id) s = (mark_executed id s).1

-- The edges of a proposal's life.
pub data Edge : ProposalStatus → ProposalStatus → Type 0 where
  stays : (a : ProposalStatus) → Edge a a
  passes : Edge ProposalStatus.active ProposalStatus.passed
  fails : Edge ProposalStatus.active ProposalStatus.rejected
  executes : Edge ProposalStatus.passed ProposalStatus.executed
  leaves_queue : (after : ℕ) → Edge (ProposalStatus.queued after) ProposalStatus.executed

-- What a call may write over a proposal.
pub record IsAdvance (p p' : Proposal) : Type 0 where
  pub edge : Edge p.status p'.status
  pub once : IsNodup p.voters → IsNodup p'.voters

-- A call that has written `q` over the proposal `p`.
abbrev pub Writes : GovernanceSystem → GovernanceSystem → Type 0
Writes s s' =
    (id : ℕ) × (p q : Proposal) × (get id s.proposals ≡ some p)
    × IsAdvance p q
    × (s' ≡ write id q s)

active_eq : (st : ProposalStatus) → is_active st ≡ true → st ≡ ProposalStatus.active
active_eq ProposalStatus.active h = refl
active_eq ProposalStatus.passed h = cc
active_eq (ProposalStatus.queued n) h = cc
active_eq ProposalStatus.rejected h = cc
active_eq ProposalStatus.executed h = cc

tally_keeps :
    (c : Vote) (power : ℕ) (p : Proposal) {q : Proposal}
    → tally c power p ≡ ok q
    → (q.voters ≡ p.voters) × (q.status ≡ p.status)
unfolding tally
tally_keeps Vote.yes power p h = ground arith
tally_keeps Vote.no power p h = ground arith
tally_keeps Vote.abstain power p h = ground arith

vote-IsAdvance :
    (voter : ℕ) (c : Vote) (power : ℕ) (p q : Proposal)
    → tally c power p ≡ ok q
    → contains voter p.voters ≡ false
    → IsAdvance p (record q { voters = q.voters ++ voter ∷ [] })
vote-IsAdvance voter c power p q f fresh =
    let (same, status) = tally_keeps c power p f in
    record {
      edge = subst (Edge p.status) (sym status) (stays p.status);
      once = λ h.
          append-IsNodup voter q.voters (subst IsNodup (sym same) h)
            (subst (λ vs. contains voter vs ≡ false) (sym same) fresh);
    }

-- Whether a vote passes the guards.
abbrev admitted : ℕ → ℕ → ℕ → Proposal → Bool
admitted voter power block p =
    is_active p.status
    && not (is_voting_ended block p)
    && not (has_voted voter p)
    && not (is_zero power)

vote_step :
    (id voter : ℕ) (c : Vote) (power block : ℕ) (s : GovernanceSystem)
    → let s' = (vote id voter c power block s).1 in (s' ≡ s) ⊎ Writes s s'
unfolding vote find
vote_step id voter c power block s = elim (Option-cases (get id s.proposals)) [
  | inl e ↦ inl (ground arith)
  | inr (p, e) ↦ elim (Bool-cases (admitted voter power block p)) [
    | inr refused ↦ inl (ground arith)
    | inl guards ↦ elim (Outcome-cases (tally c power p)) [
      | inr (inl (why, f)) ↦ inl (ground arith)
      | inr (inr f) ↦ inl (ground arith)
      | inl (q, f) ↦ inr (
        id,
        p,
        record q { voters = q.voters ++ voter ∷ [] },
        e,
        vote-IsAdvance voter c power p q f (ground arith),
        ground arith,
      )
    ]
  ]
]

outcome-Edge :
    (total_staked : ℕ) (p : Proposal) {st : ProposalStatus}
    → is_active p.status ≡ true
    → outcome_of total_staked p ≡ ok st
    → Edge p.status st
unfolding outcome_of
outcome-Edge total_staked p {st} h f =
    let from : ProposalStatus.active ≡ p.status = sym (active_eq p.status h) in
    let ended : (st ≡ ProposalStatus.passed) ⊎ (st ≡ ProposalStatus.rejected) = ground arith in
    elim ended [
      | inl e ↦ subst (λ a. Edge a st) from (subst (Edge ProposalStatus.active) (sym e) passes)
      | inr e ↦ subst (λ a. Edge a st) from (subst (Edge ProposalStatus.active) (sym e) fails)
    ]

finalize_step :
    (id total_staked block : ℕ) (s : GovernanceSystem)
    → let s' = (finalize id total_staked block s).1 in (s' ≡ s) ⊎ Writes s s'
unfolding finalize find
finalize_step id total_staked block s = elim (Option-cases (get id s.proposals)) [
  | inl e ↦ inl (ground arith)
  | inr (p, e) ↦ elim (Bool-cases (is_active p.status && is_voting_ended block p)) [
    | inr refused ↦ inl (ground arith)
    | inl guards ↦ elim (Outcome-cases (outcome_of total_staked p)) [
      | inr (inl (why, f)) ↦ inl (ground arith)
      | inr (inr f) ↦ inl (ground arith)
      | inl (st, f) ↦ inr (
        id,
        p,
        record p { status = st },
        e,
        record { edge = outcome-Edge total_staked p (ground arith) f; once = λ h. h },
        ground arith,
      )
    ]
  ]
]

executable-Edge : (st : ProposalStatus) → is_executable st ≡ true → Edge st ProposalStatus.executed
executable-Edge ProposalStatus.active h = absurd cc
executable-Edge ProposalStatus.passed h = executes
executable-Edge (ProposalStatus.queued n) h = leaves_queue n
executable-Edge ProposalStatus.rejected h = absurd cc
executable-Edge ProposalStatus.executed h = absurd cc

mark_executed_step :
    (id : ℕ) (s : GovernanceSystem) → let s' = (mark_executed id s).1 in (s' ≡ s) ⊎ Writes s s'
unfolding mark_executed find
mark_executed_step id s = elim (Option-cases (get id s.proposals)) [
  | inl e ↦ inl (ground arith)
  | inr (p, e) ↦ elim (Bool-cases (is_executable p.status)) [
    | inr refused ↦ inl (ground arith)
    | inl guards ↦ inr (
      id,
      p,
      record p { status = ProposalStatus.executed },
      e,
      record { edge = executable-Edge p.status guards; once = λ h. h },
      ground arith,
    )
  ]
]

pub step-Writes : (c : Call) (s : GovernanceSystem) → (step c s ≡ s) ⊎ Writes s (step c s)
unfolding step
step-Writes (Call.cast id voter c power block) s = vote_step id voter c power block s
step-Writes (Call.close id total_staked block) s = finalize_step id total_staked block s
step-Writes (Call.execute id) s = mark_executed_step id s
