-- ===== src/Executor/Stake/Ledger.antt =====
-- The ledger of stakes that `execute_stake` and `execute_unstake` of
-- crates/vtt-executor/src/lib.rs keep.
use vtt.Prelude.{
  ℕ, ◌+◌, ◌-◌, ◌≡◌, refl, sym, subst, ◌∙◌, ap, List, [], ◌∷◌, ◌++◌, arith, some, ◌==◌,
  if◌then◌else◌, inl, inr, Option-cases, Bool-cases, checked_add,
}
use vtt.Prelude.Keys.{nat_key}
use vtt.Prelude.Map.{get, get_or, sum_by, sum_by-insert}
use vtt.Prelude.Outcome.{ok, ok_or, Outcome-cases}
use vtt.Prelude.Action.{after-eq-ok, lift-eq-ok, map_err-eq-ok}
use vtt.State.Account.{StakingState, Delegation, UnbondingEntry}
use vtt.State.Db.{StateDb, get_account, get_balance, put_account, sub_balance}
use vtt.State.Staking.{add_unbonding_entry}
use vtt.State.Value.{
  unbonding_sum, account_value, total_value, account_value-put_account, sub_balance-account_value,
  get_account-put_account, get_balance-sub_balance,
}
use vtt.Executor.Transactions.{ExecutionError, on_state}
use vtt.Executor.Stake.{
  overflow, staking_of, put_staking, find_delegation, set_delegation, drop_zero, delegate,
  add_stake, execute_stake, remove_stake,
}
use vtt.Executor.Stake.Parts.{part_of, part_of-add_stake, get_balance-put_staking}

unfoldable pub delegated : List Delegation → ℕ
delegated [] = 0
delegated (d ∷ ds) = d.amount + delegated ds

-- The total is the validator's own stake and what is delegated to it.
abbrev pub IsBalanced : StakingState → Type 0
IsBalanced staking = staking.total_stake ≡ staking.self_stake + delegated staking.delegations

pub delegated-append :
    (ds : List Delegation) (d : Delegation) → delegated (ds ++ d ∷ []) ≡ delegated ds + d.amount
unfolding delegated
delegated-append [] d = omega arith
delegated-append (e ∷ ds) d = omega (arith, delegated-append ds d)

delegated-set_delegation :
    (who x : ℕ) (ds : List Delegation) {d : Delegation}
    → find_delegation who ds ≡ some d
    → delegated (set_delegation who x ds) + d.amount ≡ delegated ds + x
unfolding delegated set_delegation find_delegation
delegated-set_delegation who x [] h = cc
delegated-set_delegation who x (e ∷ ds) {d} h =
    ground (arith, delegated-set_delegation who x ds {d = d})

delegated-drop_zero : (ds : List Delegation) → delegated (drop_zero ds) ≡ delegated ds
unfolding delegated drop_zero
delegated-drop_zero [] = refl
delegated-drop_zero (d ∷ ds) = ground (arith, delegated-drop_zero ds)

delegated-delegate :
    (who x : ℕ) (ds : List Delegation) {ds' : List Delegation}
    → delegate who x ds ≡ ok ds'
    → delegated ds' ≡ delegated ds + x
unfolding delegate
delegated-delegate who x ds {ds'} h = elim (Option-cases (find_delegation who ds)) [
  | inl new ↦ ground (arith, delegated-append ds (record { delegator = who; amount = x }))
  | inr (d, e) ↦ ground (arith, delegated-set_delegation who (d.amount + x) ds {d = d})
]

-- What the sender adds is added to its part of the stake, what it takes is taken from it.
add_stake_parts :
    (sender validator x : ℕ) (st : StakingState) {st' : StakingState}
    → add_stake sender validator x st ≡ ok st'
    → (st'.self_stake + delegated st'.delegations ≡ st.self_stake + delegated st.delegations + x)
      × (st'.total_stake ≡ st.total_stake)
unfolding add_stake
add_stake_parts sender validator x st {st'} h =
    elim (Outcome-cases (delegate sender x st.delegations)) [
      | inl (ds, e) ↦ ground (arith, delegated-delegate sender x st.delegations e)
      | inr (inl (why, e)) ↦ ground arith
      | inr (inr e) ↦ ground arith
    ]

pub remove_stake_parts :
    (sender validator x : ℕ) (st : StakingState) {st' : StakingState}
    → remove_stake sender validator x st ≡ ok st'
    → (st'.self_stake + delegated st'.delegations + x ≡ st.self_stake + delegated st.delegations)
      × (st'.total_stake ≡ st.total_stake)
unfolding remove_stake
remove_stake_parts sender validator x st {st'} h =
    elim (Option-cases (find_delegation sender st.delegations)) [
      | inl new ↦ ground arith
      | inr (d, e) ↦
          let ds = set_delegation sender (d.amount - x) st.delegations in
          let taken = delegated-set_delegation sender (d.amount - x) st.delegations {d = d} e in
          let kept = delegated-drop_zero ds in ground (arith, taken, kept)
    ]

-- What `put_staking` does to the money that accounts hold, and to the state that it writes.
pub account_value-put_staking :
    (validator : ℕ) (st : StakingState) (s : StateDb)
    → account_value (put_staking validator st s) + (staking_of validator s).total_stake
      ≡ account_value s + st.total_stake
account_value-put_staking validator st s =
    let acc = get_account validator s in
    let change = account_value-put_account validator (record acc { staking = some st }) s in
    elim (Option-cases acc.staking) [
      | inl new ↦ ground (arith, change)
      | inr (old, e) ↦ ground (arith, change)
    ]

pub staking_of-put_staking :
    (validator : ℕ) (st : StakingState) (s : StateDb)
    → staking_of validator (put_staking validator st s) ≡ st
staking_of-put_staking validator st s =
    let acc = get_account validator s in
    ground (arith, get_account-put_account validator validator (record acc { staking = some st }) s)

-- A debit leaves all stakes alone, and what is unbonding.
sub_balance_keeps :
    (a x : ℕ) (s : StateDb) {s' : StateDb}
    → sub_balance a x s ≡ (ok tt, s')
    → ((v : ℕ) → staking_of v s' ≡ staking_of v s) × (s'.unbonding_entries ≡ s.unbonding_entries)
unfolding sub_balance put_account
sub_balance_keeps a x s {s'} h =
    let acc = get_account a s in
    (
      λ v.
          let here = get_account-put_account v a (record acc { balance = acc.balance - x }) s in
          elim (Bool-cases (v == a)) [
            | inl same ↦ ground (arith, here)
            | inr other ↦ ground (arith, here)
          ],
      ground arith,
    )

pub put_staking_keeps :
    (validator : ℕ) (st : StakingState) (s : StateDb)
    → (put_staking validator st s).unbonding_entries ≡ s.unbonding_entries
unfolding put_account
put_staking_keeps validator st s = refl

-- What a stake that succeeds has done.
execute_stake-eq-ok :
    (sender validator amount : ℕ) (s : StateDb) {s' : StateDb}
    → execute_stake sender validator amount s ≡ (ok tt, s')
    → (t : StateDb) × (st : StakingState) × (sub_balance sender amount s ≡ (ok tt, t))
      × (add_stake sender validator amount (staking_of validator t) ≡ ok st)
      × (put_staking validator (record st { total_stake = st.total_stake + amount }) t ≡ s')
unfolding execute_stake
execute_stake-eq-ok sender validator amount s {s'} h =
    let (_, t, paid, rest) = after-eq-ok (on_state (sub_balance sender amount) s) _ h in
    let debit = map_err-eq-ok (sub_balance sender amount) ExecutionError.state s paid in
    let (st, added, rest2) =
      lift-eq-ok (add_stake sender validator amount (staking_of validator t)) t _ rest in
    let (total, fits, last) =
      lift-eq-ok (ok_or (checked_add st.total_stake amount) overflow) t _ rest2 in
    let sum : total ≡ st.total_stake + amount = ground arith in
    (
      t,
      st,
      debit,
      added,
      ap (λ x. put_staking validator (record st { total_stake = x }) t) (sym sum)
          ∙ ap (λ x. x.1) last,
    )

stake_effect :
    (sender validator amount : ℕ) (s t : StateDb) (st : StakingState)
    → sub_balance sender amount s ≡ (ok tt, t)
    → add_stake sender validator amount (staking_of validator t) ≡ ok st
    → let s' = put_staking validator (record st { total_stake = st.total_stake + amount }) t in
      (total_value s' ≡ total_value s)
      × ((staking_of validator s').total_stake ≡ (staking_of validator s).total_stake + amount)
      × (IsBalanced (staking_of validator s) → IsBalanced (staking_of validator s'))
unfolding total_value
stake_effect sender validator amount s t st debit added =
    let st' = record st { total_stake = st.total_stake + amount } in
    let parts = add_stake_parts sender validator amount (staking_of validator t) added in
    let less = sub_balance-account_value sender amount s debit in
    let kept = sub_balance_keeps sender amount s debit in
    let old = kept.0 validator in
    let more = account_value-put_staking validator st' t in
    let here = staking_of-put_staking validator st' t in
    let pending : sum_by unbonding_sum (put_staking validator st' t).unbonding_entries
        ≡ sum_by unbonding_sum s.unbonding_entries =
      ap (sum_by unbonding_sum) (put_staking_keeps validator st' t ∙ kept.1) in
    let total = ap (λ x. x.total_stake) old in
    let balanced = ap (λ x. x.self_stake + delegated x.delegations) old in
    (
      omega (arith, parts, less, more, pending, total),
      rw (here) (omega (arith, parts, total)),
      λ h. rw (here) (omega (arith, h, parts, total, balanced)),
    )

-- The same for one account: what it holds and what is staked for it.
stake_moves :
    (who sender validator amount : ℕ) (s t : StateDb) (st : StakingState)
    → sub_balance sender amount s ≡ (ok tt, t)
    → add_stake sender validator amount (staking_of validator t) ≡ ok st
    → let s' = put_staking validator (record st { total_stake = st.total_stake + amount }) t in
      let moved = if who == sender then amount else 0 in
      (get_balance who s' + moved ≡ get_balance who s)
      × (part_of who validator (staking_of validator s')
          ≡ part_of who validator (staking_of validator s) + moved)
stake_moves who sender validator amount s t st debit added =
    let st' = record st { total_stake = st.total_stake + amount } in
    let same = get_balance-put_staking who validator st' t in
    let less = get_balance-sub_balance who sender amount s debit in
    let part = part_of-add_stake who sender validator amount (staking_of validator t) added in
    let old = ap (part_of who validator) ((sub_balance_keeps sender amount s debit).0 validator) in
    (
      omega (arith, same, less),
      rw (staking_of-put_staking validator st' t) (omega (arith, part, old)),
    )

-- One account's side of it: the amount leaves the sender's balance for the sender's part of the stake,
-- and everyone else keeps both.
abbrev pub IsMoved : ℕ → ℕ → ℕ → ℕ → StateDb → StateDb → Type 0
IsMoved who sender validator amount s s' =
    (get_balance who s' + (if who == sender then amount else 0) ≡ get_balance who s)
    × (part_of who validator (staking_of validator s')
        ≡ part_of who validator (staking_of validator s) + (if who == sender then amount else 0))

-- A stake that succeeds moves the amount from the sender's balance into the sender's part of the
-- validator's stake, which is the validator's own stake if the sender is the validator, and a
-- delegation otherwise. The balance and the part of everyone else stay. All native money is conserved,
-- the total stake of the validator grows by the amount, and it stays the sum of the validator's own
-- stake and its delegations if it was that.
pub execute_stake-conserves :
    (sender validator amount : ℕ) (s : StateDb) {s' : StateDb}
    → execute_stake sender validator amount s ≡ (ok tt, s')
    → ((who : ℕ) → IsMoved who sender validator amount s s')
      × (total_value s' ≡ total_value s)
      × ((staking_of validator s').total_stake ≡ (staking_of validator s).total_stake + amount)
      × (IsBalanced (staking_of validator s) → IsBalanced (staking_of validator s'))
execute_stake-conserves sender validator amount s {s'} h =
    let (t, st, debit, added, last) = execute_stake-eq-ok sender validator amount s h in
    let effect = stake_effect sender validator amount s t st debit added in
    subst
      (λ u.
        ((who : ℕ) → IsMoved who sender validator amount s u)
        × (total_value u ≡ total_value s)
        × ((staking_of validator u).total_stake ≡ (staking_of validator s).total_stake + amount)
        × (IsBalanced (staking_of validator s) → IsBalanced (staking_of validator u)))
      last
      (
        λ who. stake_moves who sender validator amount s t st debit added,
        effect.0,
        effect.1,
        effect.2,
      )

unbonding_sum-append :
    (es : List UnbondingEntry) (e : UnbondingEntry)
    → unbonding_sum (es ++ e ∷ []) ≡ unbonding_sum es + e.amount
unfolding unbonding_sum
unbonding_sum-append [] e = omega arith
unbonding_sum-append (x ∷ es) e = omega (arith, unbonding_sum-append es e)

-- A new entry adds its amount to what is unbonding, and the accounts stay.
pub total_value-add_unbonding_entry :
    (owner : ℕ) (e : UnbondingEntry) (s : StateDb)
    → total_value (add_unbonding_entry owner e s) ≡ total_value s + e.amount
unfolding total_value add_unbonding_entry account_value unbonding_sum
total_value-add_unbonding_entry owner e s =
    let old = get_or (get owner s.unbonding_entries) [] in
    let change = sum_by-insert unbonding_sum owner (old ++ e ∷ []) s.unbonding_entries in
    let grown = unbonding_sum-append old e in
    elim (Option-cases (get owner s.unbonding_entries)) [
      | inl new ↦ ground (arith, change, grown)
      | inr (es, found) ↦ ground (arith, change, grown)
    ]
