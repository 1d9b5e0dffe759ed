-- ===== src/Executor/Stake/Parts.antt =====
-- Whose stake `execute_stake` and `execute_unstake` of crates/vtt-executor/src/lib.rs change.
use vtt.Prelude.{
  ℕ, ◌+◌, ◌-◌, ◌≡◌, refl, List, [], ◌∷◌, ◌++◌, arith, some, ◌==◌, if◌then◌else◌, inl, inr,
  Option-cases, Bool-cases,
}
use vtt.Prelude.Outcome.{ok, Outcome-cases}
use vtt.State.Account.{StakingState, Delegation}
use vtt.State.Db.{StateDb, get_account, get_balance}
use vtt.State.Value.{get_account-put_account}
use vtt.Executor.Stake.{
  find_delegation, set_delegation, drop_zero, delegate, add_stake, remove_stake, put_staking,
}

-- All that a delegator has delegated.
unfoldable pub delegated_by : ℕ → List Delegation → ℕ
delegated_by who [] = 0
delegated_by who (d ∷ ds) = (if d.delegator == who then d.amount else 0) + delegated_by who ds

-- What is staked with a validator for someone: its own stake, or what was delegated.
abbrev pub part_of : ℕ → ℕ → StakingState → ℕ
part_of who validator st =
    if who == validator then st.self_stake else delegated_by who st.delegations

delegated_by-append :
    (who : ℕ) (ds : List Delegation) (d : Delegation)
    → delegated_by who (ds ++ d ∷ [])
      ≡ delegated_by who ds + (if d.delegator == who then d.amount else 0)
unfolding delegated_by
delegated_by-append who [] d = omega arith
delegated_by-append who (e ∷ ds) d = omega (arith, delegated_by-append who ds d)

delegated_by-set_delegation :
    (who sender x : ℕ) (ds : List Delegation) {d : Delegation}
    → find_delegation sender ds ≡ some d
    → delegated_by who (set_delegation sender x ds) + (if who == sender then d.amount else 0)
      ≡ delegated_by who ds + (if who == sender then x else 0)
unfolding delegated_by set_delegation find_delegation
delegated_by-set_delegation who sender x [] h = cc
delegated_by-set_delegation who sender x (e ∷ ds) {d} h =
    ground (arith, delegated_by-set_delegation who sender x ds {d = d})

delegated_by-drop_zero :
    (who : ℕ) (ds : List Delegation) → delegated_by who (drop_zero ds) ≡ delegated_by who ds
unfolding delegated_by drop_zero
delegated_by-drop_zero who [] = refl
delegated_by-drop_zero who (d ∷ ds) = ground (arith, delegated_by-drop_zero who ds)

delegated_by-delegate :
    (who sender x : ℕ) (ds : List Delegation) {ds' : List Delegation}
    → delegate sender x ds ≡ ok ds'
    → delegated_by who ds' ≡ delegated_by who ds + (if who == sender then x else 0)
unfolding delegate
delegated_by-delegate who sender x ds {ds'} h = elim (Option-cases (find_delegation sender ds)) [
  | inl new ↦ ground (arith, delegated_by-append who ds (record { delegator = sender; amount = x }))
  | inr (d, e) ↦ ground (arith, delegated_by-set_delegation who sender (d.amount + x) ds {d = d})
]

-- What is added is the sender's, and what is taken; the parts of all others stay.
pub part_of-add_stake :
    (who sender validator x : ℕ) (st : StakingState) {st' : StakingState}
    → add_stake sender validator x st ≡ ok st'
    → part_of who validator st' ≡ part_of who validator st + (if who == sender then x else 0)
unfolding add_stake
part_of-add_stake who sender validator x st {st'} h =
    elim (Outcome-cases (delegate sender x st.delegations)) [
      | inl (ds, e) ↦ ground (arith, delegated_by-delegate who sender x st.delegations e)
      | inr (inl (why, e)) ↦ ground arith
      | inr (inr e) ↦ ground arith
    ]

pub part_of-remove_stake :
    (who sender validator x : ℕ) (st : StakingState) {st' : StakingState}
    → remove_stake sender validator x st ≡ ok st'
    → part_of who validator st' + (if who == sender then x else 0) ≡ part_of who validator st
unfolding remove_stake
part_of-remove_stake who sender validator x st {st'} h =
    elim (Option-cases (find_delegation sender st.delegations)) [
      | inl new ↦ ground arith
      | inr (d, e) ↦
          let ds = set_delegation sender (d.amount - x) st.delegations in
          let taken =
            delegated_by-set_delegation who sender (d.amount - x) st.delegations {d = d} e in
          let kept = delegated_by-drop_zero who ds in ground (arith, taken, kept)
    ]

-- A stake that is written leaves all balances alone.
pub get_balance-put_staking :
    (who validator : ℕ) (st : StakingState) (s : StateDb)
    → get_balance who (put_staking validator st s) ≡ get_balance who s
unfolding get_balance
get_balance-put_staking who validator st s =
    let acc = get_account validator s in
    let here = get_account-put_account who validator (record acc { staking = some st }) s in
    elim (Bool-cases (who == validator)) [
      | inl same ↦ ground (arith, here)
      | inr other ↦ ground (arith, here)
    ]
