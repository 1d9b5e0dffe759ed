-- ===== src/Executor/Proposals/Votes.antt =====
-- Votes of asset holders in `execute_vote_asset_proposal` of crates/vtt-executor/src/lib.rs.
use vtt.Prelude.{
  ℕ, ◌+◌, ◌≡◌, ◌<◌, refl, false, sym, ap, ◌∙◌, List, [], ◌∷◌, ◌++◌, true, not, arith, some,
  Option-cases, inl, inr,
}
use vtt.Prelude.Keys.{nat_key}
use vtt.Prelude.Sets.{contains, contains-append}
use vtt.Prelude.Map.{get, get-insert}
use vtt.Prelude.Outcome.{ok, err}
use vtt.Prelude.Action.{after-eq-ok, lift-eq-ok, reject_if-eq-ok}
use vtt.Primitives.Amount.{is_zero}
use vtt.Primitives.AssetGovernance.{
  AssetProposal, AssetProposalStatus, is_active, is_voting_ended, has_voted,
}
use vtt.State.Db.{StateDb, get_ownership}
use vtt.Consensus.Governance.{Vote}
use vtt.Executor.Transactions.{ExecutionError}
use vtt.Executor.Proposals.{proposal_or, write_proposal, count_vote, execute_vote_asset_proposal}

-- All votes that a proposal has.
abbrev pub votes_cast : AssetProposal → ℕ
votes_cast p = p.votes_yes + p.votes_no + p.votes_abstain

counted_once :
    (vote : Vote) (power : ℕ) (p : AssetProposal) {p' : AssetProposal}
    → count_vote vote power p ≡ ok p'
    → (votes_cast p' ≡ votes_cast p + power) × (p'.voters ≡ p.voters)
unfolding count_vote
counted_once Vote.yes power p {p'} h = (ground arith, ground arith)
counted_once Vote.no power p {p'} h = (ground arith, ground arith)
counted_once Vote.abstain power p {p'} h = (ground arith, ground arith)

proposal_or-eq-ok :
    (id : ℕ) (s : StateDb) {p : AssetProposal} {t : StateDb}
    → proposal_or id s ≡ (ok p, t)
    → (get id s.asset_proposals ≡ some p) × (s ≡ t)
proposal_or-eq-ok id s {p} {t} h = elim (Option-cases (get id s.asset_proposals)) [
  | inl none_ ↦ absurd (ground arith)
  | inr (b, e) ↦ (ground arith, ground arith)
]

voted_refused :
    (sender id : ℕ) (vote : Vote) (block : ℕ) (p : AssetProposal) (s : StateDb)
    → get id s.asset_proposals ≡ some p
    → contains sender p.voters ≡ true
    → execute_vote_asset_proposal sender id vote block s ≡ (err ExecutionError.custom, s)
unfolding execute_vote_asset_proposal
voted_refused sender id vote block p s found voted = ground arith

active_status :
    (status : AssetProposalStatus)
    → not (is_active status) ≡ false
    → status ≡ AssetProposalStatus.active
active_status AssetProposalStatus.active h = refl
active_status AssetProposalStatus.passed h = cc
active_status AssetProposalStatus.rejected h = cc
active_status AssetProposalStatus.executed h = cc

-- A vote that succeeds is cast by a holder, who has some of the asset available, on an active proposal
-- before its end, and is the sender's first: the votes grow by exactly what the sender has available,
-- the sender is recorded, and every further vote of the same sender on the proposal fails and changes
-- nothing.
pub execute_vote_asset_proposal-once :
    (sender id : ℕ) (vote : Vote) (block : ℕ) (s : StateDb) {s' : StateDb}
    → execute_vote_asset_proposal sender id vote block s ≡ (ok tt, s')
    → (p : AssetProposal) × (p' : AssetProposal) × (get id s.asset_proposals ≡ some p)
      × (get id s'.asset_proposals ≡ some p')
      × (p.status ≡ AssetProposalStatus.active)
      × (block < p.voting_end)
      × (contains sender p.voters ≡ false)
      × (0 < (get_ownership p.asset_id sender s).available)
      × (votes_cast p' ≡ votes_cast p + (get_ownership p.asset_id sender s).available)
      × (p'.voters ≡ p.voters ++ sender ∷ [])
      × ((vote' : Vote) (block' : ℕ)
          → execute_vote_asset_proposal sender id vote' block' s' ≡ (err ExecutionError.custom, s'))
unfolding execute_vote_asset_proposal
execute_vote_asset_proposal-once sender id vote block s {s'} h =
    let (p, t, e0, h0) = after-eq-ok (proposal_or id s) _ h in
    let (found, stay) = proposal_or-eq-ok id s e0 in
    let (live, h1) = reject_if-eq-ok (not (is_active p.status)) _ t _ h0 in
    let (running, h2) = reject_if-eq-ok (is_voting_ended block p) _ t _ h1 in
    let (first, h3) = reject_if-eq-ok (has_voted sender p) _ t _ h2 in
    let power = (get_ownership p.asset_id sender t).available in
    let (some_, h4) = reject_if-eq-ok (is_zero power) _ t _ h3 in
    let (c, e5, h5) = lift-eq-ok (count_vote vote power p) t _ h4 in
    let counted = counted_once vote power p e5 in
    let p' = record c { voters = c.voters ++ sender ∷ [] } in
    let there : get id s'.asset_proposals ≡ some p' =
      ap (λ x. get id x.1.asset_proposals) (sym h5) ∙ here id p' t in
    let held = ap (λ x. (get_ownership p.asset_id sender x).available) stay in
    (
      p,
      p',
      found,
      there,
      active_status p.status live,
      ground arith,
      first,
      ground (arith, some_, held),
      omega (arith, counted.0, held),
      ap (λ x. x ++ sender ∷ []) counted.1,
      λ vote' block'. voted_refused sender id vote' block' p' s' there (listed sender c.voters),
    )
  where
    here :
        (id : ℕ) (p : AssetProposal) (t : StateDb)
        → get id (write_proposal id p t).asset_proposals ≡ some p
    here id p t = ground (arith, get-insert id id p t.asset_proposals)

    listed : (sender : ℕ) (voters : List ℕ) → contains sender (voters ++ sender ∷ []) ≡ true
    listed sender voters = ground (arith, contains-append sender sender voters)
