-- ===== src/Executor/Stake.antt =====
-- `execute_stake` and `execute_unstake` of crates/vtt-executor/src/lib.rs.
pub mod Parts
pub mod Ledger
pub mod Unstake
pub mod Slashed
use vtt.Prelude.{
  ℕ, ◌+◌, ◌-◌, ◌*◌, ◌%◌, List, [], ◌∷◌, ◌++◌, Bool, true, false, not, Option, none, some, ltb, ◌==◌,
  if◌then◌else◌, u64_mod, checked_add,
}
use vtt.Prelude.Map.{get_or}
use vtt.Prelude.Outcome.{Outcome, ok, err, ok_or}
use vtt.Prelude.Action.{Action, ◌>>=◌, ◌>>◌, pure, lift, reject_if, gets, modify}
use vtt.Primitives.Amount.{Amount, sub, is_zero}
use vtt.State.Account.{AccountState, StakingState, Delegation, UnbondingEntry, default_staking}
use vtt.State.Db.{StateDb, StateError, serialization, get_account, put_account, sub_balance}
use vtt.State.Staking.{add_unbonding_entry}
use vtt.State.Params.{effective_unbonding_period_ms}
use vtt.Executor.Transactions.{ExecutionError, Execution, on_state}

-- `Serialization("overflow")`
abbrev pub overflow : ExecutionError
overflow = ExecutionError.state serialization

-- The staking state of an account, or the default one.
abbrev pub staking_of : ℕ → StateDb → StakingState
staking_of validator s = get_or (get_account validator s).staking default_staking

abbrev pub put_staking : ℕ → StakingState → StateDb → StateDb
put_staking validator staking s =
    put_account validator (record (get_account validator s) { staking = some staking }) s

-- The delegation of a delegator: the first one found.
unfoldable pub find_delegation : ℕ → List Delegation → Option Delegation
find_delegation delegator [] = none
find_delegation delegator (d ∷ ds) =
    if d.delegator == delegator then some d else find_delegation delegator ds

-- The list with the amount of that delegation replaced.
unfoldable pub set_delegation : ℕ → Amount → List Delegation → List Delegation
set_delegation delegator amount [] = []
set_delegation delegator amount (d ∷ ds) =
    if d.delegator == delegator
    then record d { amount = amount } ∷ ds
    else d ∷ set_delegation delegator amount ds

-- `retain(|d| !d.amount.is_zero())`
unfoldable pub drop_zero : List Delegation → List Delegation
drop_zero [] = []
drop_zero (d ∷ ds) = if is_zero d.amount then drop_zero ds else d ∷ drop_zero ds

-- The delegations once a delegator has added to its own.
unfoldable pub delegate : ℕ → Amount → List Delegation → Outcome ExecutionError (List Delegation)
unfolding find_delegation set_delegation
delegate delegator amount ds = elim (find_delegation delegator ds) [
  | none ↦ ok (ds ++ record { delegator = delegator; amount = amount } ∷ [])
  | some d ↦ elim (checked_add d.amount amount) [
    | none ↦ err overflow
    | some sum ↦ ok (set_delegation delegator sum ds)
  ]
]

-- The staking state of a validator once the sender has added to it, before its total.
unfoldable pub add_stake : ℕ → ℕ → Amount → StakingState → Outcome ExecutionError StakingState
unfolding delegate
add_stake sender validator amount staking =
    if sender == validator
    then elim (checked_add staking.self_stake amount) [
      | none ↦ err overflow
      | some sum ↦ ok (record staking { self_stake = sum })
    ]
    else if is_zero staking.self_stake
    then err ExecutionError.custom
    else elim (delegate sender amount staking.delegations) [
      | ok ds ↦ ok (record staking { delegations = ds })
      | err why ↦ err why
      | Outcome.panic ↦ Outcome.panic
    ]

-- `execute_stake`
unfoldable pub execute_stake : ℕ → ℕ → Amount → Execution
unfolding add_stake
execute_stake sender validator amount = do
  on_state (sub_balance sender amount)
  old ← gets (staking_of validator)
  staking ← lift (add_stake sender validator amount old)
  total ← lift (ok_or (checked_add staking.total_stake amount) overflow)
  modify (put_staking validator (record staking { total_stake = total }))

-- `DEFAULT_UNBONDING_PERIOD_SECS`
abbrev pub default_unbonding_period_secs : ℕ
default_unbonding_period_secs = 21 * 24 * 3600

-- The staking state of a validator once the sender has taken from it, before its total.
unfoldable pub remove_stake : ℕ → ℕ → Amount → StakingState → Outcome ExecutionError StakingState
unfolding find_delegation set_delegation drop_zero
remove_stake sender validator amount staking =
    if sender == validator
    then (if ltb staking.self_stake amount
        then err (ExecutionError.unstake_exceeds_stake staking.self_stake amount)
        else ok (record staking { self_stake = staking.self_stake - amount }))
    else elim (find_delegation sender staking.delegations) [
      | none ↦ err (ExecutionError.unstake_exceeds_stake 0 amount)
      | some d ↦
          if ltb d.amount amount
          then err (ExecutionError.unstake_exceeds_stake d.amount amount)
          else ok (record staking {
            delegations = drop_zero (set_delegation sender (d.amount - amount) staking.delegations);
          })
    ]

-- `execute_unstake`
unfoldable pub execute_unstake : ℕ → ℕ → Amount → ℕ → Execution
unfolding remove_stake
execute_unstake sender validator amount block_timestamp = do
  old ← gets (staking_of validator)
  staking ← lift (remove_stake sender validator amount old)
  total ← lift (sub staking.total_stake amount)
  modify (put_staking validator (record staking { total_stake = total }))
  period ← gets (effective_unbonding_period_ms default_unbonding_period_secs)
  modify (
      add_unbonding_entry sender (record {
        amount = amount;
        completion_time = (block_timestamp + period) % u64_mod;
        validator = validator;
      }))
