-- ===== src/Executor/Stake/Unstake.antt =====
-- `execute_unstake` of crates/vtt-executor/src/lib.rs: what it moves, and when it ends.
use vtt.Prelude.{
  ℕ, ◌+◌, ◌-◌, ◌≡◌, ◌≤◌, ◌⊎◌, inl, inr, refl, ◌∙◌, ap, ◌%◌, arith, leb, if◌then◌else◌, u64_mod,
  Option-cases, Bool-cases, List, [], ◌∷◌, ◌++◌, ◌==◌,
}
use vtt.Prelude.Keys.{nat_key}
use vtt.Prelude.Map.{get, get_or, get-insert, sum_by}
use vtt.Prelude.Outcome.{Outcome, ok, err, Outcome-cases}
use vtt.State.Account.{StakingState, UnbondingEntry}
use vtt.State.Db.{StateDb, get_account, get_balance, put_account}
use vtt.State.Staking.{add_unbonding_entry}
use vtt.State.Params.{effective_unbonding_period_ms}
use vtt.State.Value.{unbonding_sum, total_value}
use vtt.Executor.Transactions.{ExecutionError}
use vtt.Executor.Stake.{
  find_delegation, staking_of, put_staking, remove_stake, execute_unstake,
  default_unbonding_period_secs,
}
use vtt.Executor.Stake.Ledger.{
  IsBalanced, remove_stake_parts, account_value-put_staking, staking_of-put_staking,
  put_staking_keeps, total_value-add_unbonding_entry,
}
use vtt.Executor.Stake.Parts.{part_of, part_of-remove_stake, get_balance-put_staking}

-- The state after a stake is taken away, and the entry that is made of it.
abbrev pub unstaked : ℕ → StakingState → ℕ → StateDb → StateDb
unstaked validator st amount s =
    put_staking validator (record st { total_stake = st.total_stake - amount }) s

abbrev pub entry_for : ℕ → ℕ → ℕ → StateDb → UnbondingEntry
entry_for validator amount now s = record {
  amount = amount;
  completion_time = (now + effective_unbonding_period_ms default_unbonding_period_secs s) % u64_mod;
  validator = validator;
}

abbrev pub after_unstake : ℕ → ℕ → ℕ → ℕ → StakingState → StateDb → StateDb
after_unstake sender validator amount now st s =
    let t = unstaked validator st amount s in
    add_unbonding_entry sender (entry_for validator amount now t) t

execute_unstake-eq :
    (sender validator amount now : ℕ) (s : StateDb) (st : StakingState)
    → remove_stake sender validator amount (staking_of validator s) ≡ ok st
    → execute_unstake sender validator amount now s ≡ (
        if leb amount st.total_stake
        then (ok tt, after_unstake sender validator amount now st s)
        else (Outcome.panic, s))
unfolding execute_unstake
execute_unstake-eq sender validator amount now s st removed = rw removed (ground arith)

execute_unstake-eq-err :
    (sender validator amount now : ℕ) (s : StateDb) (why : ExecutionError)
    → remove_stake sender validator amount (staking_of validator s) ≡ err why
    → execute_unstake sender validator amount now s ≡ (err why, s)
unfolding execute_unstake
execute_unstake-eq-err sender validator amount now s why refused = rw refused refl

remove_stake-cases :
    (sender validator amount : ℕ) (st : StakingState)
    → ((st' : StakingState) × (remove_stake sender validator amount st ≡ ok st'))
      ⊎ ((why : ExecutionError) × (remove_stake sender validator amount st ≡ err why))
unfolding remove_stake
remove_stake-cases sender validator amount st =
    elim (Outcome-cases (remove_stake sender validator amount st)) [
      | inl done ↦ inl done
      | inr (inl refused) ↦ inr refused
      | inr (inr e) ↦ elim (Option-cases (find_delegation sender st.delegations)) [
        | inl none_ ↦ absurd (ground arith)
        | inr (d, found) ↦ absurd (ground arith)
      ]
    ]

total_value-put_staking :
    (validator : ℕ) (st : StakingState) (s : StateDb)
    → total_value (put_staking validator st s) + (staking_of validator s).total_stake
      ≡ total_value s + st.total_stake
unfolding total_value
total_value-put_staking validator st s =
    let pending = ap (sum_by unbonding_sum) (put_staking_keeps validator st s) in
    omega (arith, account_value-put_staking validator st s, pending)

staking_of_entry :
    (validator owner : ℕ) (e : UnbondingEntry) (s : StateDb)
    → staking_of validator (add_unbonding_entry owner e s) ≡ staking_of validator s
unfolding add_unbonding_entry get_account
staking_of_entry validator owner e s = refl

balance_of_entry :
    (who owner : ℕ) (e : UnbondingEntry) (s : StateDb)
    → get_balance who (add_unbonding_entry owner e s) ≡ get_balance who s
unfolding add_unbonding_entry get_balance get_account
balance_of_entry who owner e s = refl

unstake_effect :
    (sender validator amount now : ℕ) (s : StateDb) (st : StakingState)
    → remove_stake sender validator amount (staking_of validator s) ≡ ok st
    → amount ≤ st.total_stake
    → let s' = after_unstake sender validator amount now st s in
      (total_value s' ≡ total_value s)
      × ((staking_of validator s').total_stake + amount ≡ (staking_of validator s).total_stake)
      × (IsBalanced (staking_of validator s) → IsBalanced (staking_of validator s'))
unstake_effect sender validator amount now s st removed enough =
    let st' = record st { total_stake = st.total_stake - amount } in
    let t = put_staking validator st' s in
    let e = entry_for validator amount now t in
    let parts = remove_stake_parts sender validator amount (staking_of validator s) removed in
    let entry = total_value-add_unbonding_entry sender e t in
    let total = total_value-put_staking validator st' s in
    let here = staking_of_entry validator sender e t ∙ staking_of-put_staking validator st' s in
    (
      omega (arith, parts, entry, total, enough),
      rw here (omega (arith, parts, enough)),
      λ h. rw here (omega (arith, h, parts, enough)),
    )

-- The entries that an owner waits for.
abbrev pub waiting : ℕ → StateDb → List UnbondingEntry
waiting who s = get_or (get who s.unbonding_entries) []

waiting-add_unbonding_entry :
    (who owner : ℕ) (e : UnbondingEntry) (s : StateDb)
    → waiting who (add_unbonding_entry owner e s)
      ≡ (if who == owner then waiting who s ++ e ∷ [] else waiting who s)
unfolding add_unbonding_entry
waiting-add_unbonding_entry who owner e s =
    let here = get-insert who owner (waiting owner s ++ e ∷ []) s.unbonding_entries in
    elim (Bool-cases (who == owner)) [
      | inl same ↦ ground (arith, here)
      | inr other ↦ ground (arith, here)
    ]

-- One account's side of it: the balance stays, the part of the stake and the entries change.
abbrev pub IsWaiting : ℕ → ℕ → ℕ → ℕ → ℕ → StateDb → StateDb → Type 0
IsWaiting who sender validator amount now s s' =
    (get_balance who s' ≡ get_balance who s)
    × (part_of who validator (staking_of validator s') + (if who == sender then amount else 0)
        ≡ part_of who validator (staking_of validator s))
    × (waiting who s' ≡ (
        if who == sender
        then waiting who s ++ entry_for validator amount now s ∷ []
        else waiting who s))

unstake_moves :
    (who sender validator amount now : ℕ) (s : StateDb) (st : StakingState)
    → remove_stake sender validator amount (staking_of validator s) ≡ ok st
    → IsWaiting who sender validator amount now s (after_unstake sender validator amount now st s)
unfolding put_account effective_unbonding_period_ms
unstake_moves who sender validator amount now s st removed =
    let st' = record st { total_stake = st.total_stake - amount } in
    let t = put_staking validator st' s in
    let e = entry_for validator amount now t in
    let here = staking_of_entry validator sender e t ∙ staking_of-put_staking validator st' s in
    (
      balance_of_entry who sender e t ∙ get_balance-put_staking who validator st' s,
      rw here (part_of-remove_stake who sender validator amount (staking_of validator s) removed),
      waiting-add_unbonding_entry who sender e t,
    )

-- Taking a stake away keeps the ledger: where the stake of a validator is the sum of its own stake
-- and its delegations, `execute_unstake` never panics. It fails and changes nothing, or it moves the
-- amount from the sender's part of the stake to a new unbonding entry of the sender, which names the
-- validator and is complete when the unbonding period is over. No balance changes, and nobody else's
-- part or entries; all native money is conserved, and the sum is kept.
pub execute_unstake-conserves :
    (sender validator amount now : ℕ) (s : StateDb)
    → IsBalanced (staking_of validator s)
    → ((why : ExecutionError) × (execute_unstake sender validator amount now s ≡ (err why, s)))
      ⊎ ((s' : StateDb) × (execute_unstake sender validator amount now s ≡ (ok tt, s'))
          × ((who : ℕ) → IsWaiting who sender validator amount now s s')
          × (total_value s' ≡ total_value s)
          × ((staking_of validator s').total_stake + amount ≡ (staking_of validator s).total_stake)
          × IsBalanced (staking_of validator s'))
execute_unstake-conserves sender validator amount now s balanced =
    elim (remove_stake-cases sender validator amount (staking_of validator s)) [
      | inr (why, refused) ↦
          inl (why, execute_unstake-eq-err sender validator amount now s why refused)
      | inl (st, removed) ↦
          let parts = remove_stake_parts sender validator amount (staking_of validator s) removed in
          let enough : amount ≤ st.total_stake = omega (arith, parts, balanced) in
          let effect = unstake_effect sender validator amount now s st removed enough in
          let ran = execute_unstake-eq sender validator amount now s st removed in
          inr (
            after_unstake sender validator amount now st s,
            ground (arith, ran),
            λ who. unstake_moves who sender validator amount now s st removed,
            effect.0,
            effect.1,
            effect.2 balanced,
          )
    ]
