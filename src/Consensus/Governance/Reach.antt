-- ===== src/Consensus/Governance/Reach.antt =====
-- The life of a proposal in crates/vtt-consensus/src/governance.rs, over any sequence of calls.
use vtt.Prelude.{
  ℕ, ◌≡◌, refl, List, [], ◌∷◌, ◌++◌, Bool, true, false, some, arith, ◌==◌, ◌⊎◌, inl, inr, ap, subst,
  sym, ◌∙◌, Bool-cases,
}
use vtt.Prelude.Keys.{nat_key}
use vtt.Prelude.Map.{get, get-insert}
use vtt.Prelude.Sets.{IsNodup}
use vtt.Consensus.Governance.{ProposalStatus, Proposal}
use vtt.Consensus.Governance.System.{GovernanceSystem, write}
use vtt.Consensus.Governance.Lifecycle.{
  Call, step, Edge, stays, passes, fails, executes, leaves_queue, IsAdvance, step-Writes,
}

unfoldable pub run : List Call → GovernanceSystem → GovernanceSystem
run [] s = s
run (c ∷ cs) s = run cs (step c s)

-- A way from one status to another.
pub data Reaches : ProposalStatus → ProposalStatus → Type 0 where
  here : (a : ProposalStatus) → Reaches a a
  onward : {a b c : ProposalStatus} → Edge a b → Reaches b c → Reaches a c

-- The proposal that stands under an id.
abbrev pub Stands : ℕ → Proposal → GovernanceSystem → Type 0
Stands id p s = get id s.proposals ≡ some p

unchanged : (p : Proposal) → IsAdvance p p
unchanged p = record { edge = stays p.status; once = λ h. h }

some_eq : {p q : Proposal} → some p ≡ some q → p ≡ q
some_eq e = cc

written_at :
    (id i : ℕ) (p r q : Proposal) (s : GovernanceSystem)
    → Stands id p s
    → Stands i r s
    → IsAdvance r q
    → (p' : Proposal) × Stands id p' (write i q s) × IsAdvance p p'
written_at id i p r q s e f h = elim (Bool-cases (id == i)) [
  | inr other ↦ (p, ground (arith, get-insert id i q s.proposals), unchanged p)
  | inl same ↦
      let r_is_p : r ≡ p = ground arith in
      (q, ground (arith, get-insert id i q s.proposals), subst (λ t. IsAdvance t q) r_is_p h)
]

-- A call keeps every proposal, and advances it by at most one edge.
pub step-IsAdvance :
    (c : Call) (s : GovernanceSystem) (id : ℕ) (p : Proposal)
    → Stands id p s
    → (p' : Proposal) × Stands id p' (step c s) × IsAdvance p p'
step-IsAdvance c s id p e = elim (step-Writes c s) [
  | inl same ↦ (p, subst (Stands id p) (sym same) e, unchanged p)
  | inr (i, r, q, f, h, last) ↦
      let (p', g, k) = written_at id i p r q s e f h in (p', subst (Stands id p') (sym last) g, k)
]

-- Through any sequence of the calls of `GovernanceSystem` that vote, finalize and mark as executed,
-- accepted or refused, a proposal that lists no voter twice stays in place, lists none twice, and
-- moves only from active to passed or rejected, and from passed or queued to executed: no call queues
-- one.
pub run-Reaches :
    (calls : List Call) (s : GovernanceSystem) (id : ℕ) (p : Proposal)
    → Stands id p s
    → IsNodup p.voters
    → (p' : Proposal) × Stands id p' (run calls s) × Reaches p.status p'.status × IsNodup p'.voters
unfolding run
run-Reaches [] s id p e h = (p, e, here p.status, h)
run-Reaches (c ∷ cs) s id p e h =
    let (q, f, k) = step-IsAdvance c s id p e in
    let (p', g, way, once) = run-Reaches cs (step c s) id q f (k.once h) in
    (p', g, onward k.edge way, once)

abbrev pub is_final : ProposalStatus → Bool
is_final ProposalStatus.rejected = true
is_final ProposalStatus.executed = true
is_final _ = false

final-Edge : {a b : ProposalStatus} → Edge a b → is_final a ≡ true → b ≡ a
final-Edge (stays a) h = refl
final-Edge passes h = absurd cc
final-Edge fails h = absurd cc
final-Edge executes h = absurd cc
final-Edge (leaves_queue n) h = absurd cc

-- A proposal that is rejected or executed remains so through any sequence of calls.
pub run_final :
    (calls : List Call) (s : GovernanceSystem) (id : ℕ) (p : Proposal)
    → Stands id p s
    → is_final p.status ≡ true
    → (p' : Proposal) × Stands id p' (run calls s) × (p'.status ≡ p.status)
unfolding run
run_final [] s id p e h = (p, e, refl)
run_final (c ∷ cs) s id p e h =
    let (q, f, k) = step-IsAdvance c s id p e in
    let same = final-Edge k.edge h in
    let (p', g, last) =
      run_final cs (step c s) id q f (subst (λ a. is_final a ≡ true) (sym same) h) in
    (p', g, last ∙ same)

first-Edge :
    {a b : ProposalStatus}
    → Edge a b
    → a ≡ ProposalStatus.active
    → (b ≡ ProposalStatus.active) ⊎ ((b ≡ ProposalStatus.passed) ⊎ (b ≡ ProposalStatus.rejected))
first-Edge (stays a) h = inl h
first-Edge passes h = inr (inl refl)
first-Edge fails h = inr (inr refl)
first-Edge executes h = absurd cc
first-Edge (leaves_queue n) h = absurd cc

-- Under the calls of `GovernanceSystem`, a proposal that is active and later executed has stood as
-- `Passed` at some time in between.
pub executed_was_passed :
    (calls : List Call) (s : GovernanceSystem) (id : ℕ) (p p' : Proposal)
    → Stands id p s
    → p.status ≡ ProposalStatus.active
    → Stands id p' (run calls s)
    → p'.status ≡ ProposalStatus.executed
    → (before after : List Call) × (q : Proposal) × (calls ≡ before ++ after)
      × Stands id q (run before s)
      × (q.status ≡ ProposalStatus.passed)
unfolding run
executed_was_passed [] s id p p' e a e' x =
    let same : p ≡ p' = some_eq (sym e ∙ e') in absurd (ground arith)
executed_was_passed (c ∷ cs) s id p p' e a e' x =
    let (q, f, k) = step-IsAdvance c s id p e in
    elim (first-Edge k.edge a) [
      | inl still ↦
          let (before, after, r, parts, g, passed_) =
            executed_was_passed cs (step c s) id q p' f still e' x in
          (c ∷ before, after, r, ap (λ t. c ∷ t) parts, g, passed_)
      | inr (inl now) ↦ (c ∷ [], cs, q, refl, f, now)
      | inr (inr out) ↦
          let (r, g, last) =
            run_final cs (step c s) id q f (subst (λ b. is_final b ≡ true) (sym out) refl) in
          let same : r ≡ p' = some_eq (sym g ∙ e') in absurd (ground arith)
    ]
