-- ===== src/State/Account.antt =====
-- crates/vtt-state/src/account.rs
use vtt.Prelude.{ℕ, List, [], Bool, false, Option, none}
use vtt.Primitives.{zero_hash}
use vtt.Primitives.Amount.{Amount}

-- `struct Delegation`
pub record Delegation : Type 0 where
  pub delegator : ℕ
  pub amount : Amount

-- `struct UnbondingEntry`
pub record UnbondingEntry : Type 0 where
  pub amount : Amount
  pub completion_time : ℕ
  pub validator : ℕ

-- `struct StakingState`
pub record StakingState : Type 0 where
  pub total_stake : Amount
  pub self_stake : Amount
  pub commission_bps : ℕ
  pub active : Bool
  pub delegations : List Delegation
  pub unbonding : List UnbondingEntry

-- `struct AccountState`
pub record AccountState : Type 0 where
  pub nonce : ℕ
  pub balance : Amount
  pub code_hash : Option ℕ
  pub storage_root : ℕ
  pub staking : Option StakingState

-- `impl Default for StakingState`
abbrev pub default_staking : StakingState
default_staking = record {
  total_stake = 0;
  self_stake = 0;
  commission_bps = 0;
  active = false;
  delegations = [];
  unbonding = [];
}

-- `impl Default for AccountState`
abbrev pub default_account : AccountState
default_account = record {
  nonce = 0;
  balance = 0;
  code_hash = none;
  storage_root = zero_hash;
  staking = none;
}

-- `AccountState::with_balance`
abbrev pub with_balance : Amount → AccountState
with_balance balance = record default_account { balance = balance }
