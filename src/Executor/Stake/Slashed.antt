-- ===== src/Executor/Stake/Slashed.antt =====
-- `execute_unstake` of crates/vtt-executor/src/lib.rs after `apply_slash` of
-- crates/vtt-state/src/statedb.rs.
use vtt.Prelude.{ℕ, ◌≡◌, ◌≤◌, ◌<◌, ◌≢◌, [], ◌∷◌, arith}
use vtt.Prelude.Outcome.{Outcome}
use vtt.State.Account.{StakingState, Delegation}
use vtt.State.Db.{StateDb}
use vtt.State.Staking.{slash_staking}
use vtt.Executor.Stake.{
  staking_of, find_delegation, set_delegation, drop_zero, remove_stake, execute_unstake,
}
use vtt.Executor.Stake.Ledger.{delegated, IsBalanced}

-- Where a validator with one delegator has lost more to a slash than its own stake, the delegations
-- still stand in full while the total does not: unstaking the whole delegation panics.
pub execute_unstake_panics :
    (validator amount now : ℕ) (d : Delegation) (st : StakingState) (s : StateDb)
    → IsBalanced st
    → st.delegations ≡ d ∷ []
    → d.delegator ≢ validator
    → st.self_stake < amount
    → amount ≤ st.total_stake
    → staking_of validator s ≡ slash_staking amount st
    → execute_unstake d.delegator validator d.amount now s ≡ (Outcome.panic, s)
unfolding execute_unstake remove_stake find_delegation slash_staking delegated set_delegation
    drop_zero
execute_unstake_panics validator amount now d st s balanced only other more most slashed =
    rw slashed (rw only (ground arith))
