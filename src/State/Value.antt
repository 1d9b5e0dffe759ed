-- ===== src/State/Value.antt =====
-- All native money of a `StateDB` of crates/vtt-state/src/statedb.rs: balances, stakes and what is
-- unbonding.
use vtt.Prelude.{
  ℕ, ◌+◌, ◌-◌, ◌≤◌, ◌<◌, ◌≡◌, List, [], ◌∷◌, Option, none, some, arith, u128_mod, ◌==◌,
  if◌then◌else◌, Option-cases, inl, inr,
}
use vtt.Prelude.Keys.{nat_key}
use vtt.Prelude.Map.{get, sum_by, sum_by-insert, weight-get-le, get-insert}
use vtt.Prelude.Outcome.{ok}
use vtt.State.Account.{AccountState, StakingState, UnbondingEntry}
use vtt.State.Db.{StateDb, get_account, get_balance, put_account, add_balance, sub_balance}

abbrev pub staked : Option StakingState → ℕ
staked none = 0
staked (some st) = st.total_stake

-- What an account holds and what is staked with it.
abbrev pub value_of : AccountState → ℕ
value_of a = a.balance + staked a.staking

unfoldable pub unbonding_sum : List UnbondingEntry → ℕ
unbonding_sum [] = 0
unbonding_sum (e ∷ es) = e.amount + unbonding_sum es

unfoldable pub account_value : StateDb → ℕ
account_value s = sum_by value_of s.accounts

unfoldable pub total_value : StateDb → ℕ
total_value s = account_value s + sum_by unbonding_sum s.unbonding_entries

pub get_account-put_account :
    (a b : ℕ) (acc : AccountState) (s : StateDb)
    → get_account a (put_account b acc s) ≡ (if a == b then acc else get_account a s)
unfolding get_account put_account
get_account-put_account a b acc s = rw (get-insert a b acc s.accounts) (ground arith)

pub account_value-put_account :
    (a : ℕ) (acc : AccountState) (s : StateDb)
    → account_value (put_account a acc s) + value_of (get_account a s)
      ≡ account_value s + value_of acc
unfolding account_value get_account put_account
account_value-put_account a acc s =
    let change = sum_by-insert value_of a acc s.accounts in
    elim (Option-cases (get a s.accounts)) [
      | inl new ↦ ground (arith, change)
      | inr (old, e) ↦ ground (arith, change)
    ]

pub value-le-account_value : (a : ℕ) (s : StateDb) → value_of (get_account a s) ≤ account_value s
unfolding account_value get_account
value-le-account_value a s =
    let bound = weight-get-le value_of a s.accounts in
    elim (Option-cases (get a s.accounts)) [
      | inl new ↦ ground arith
      | inr (old, e) ↦ ground (arith, bound)
    ]

-- A credit that fits is added to the value of the accounts.
pub add_balance-account_value :
    (a x : ℕ) (s : StateDb)
    → account_value s + x < u128_mod
    → account_value (add_balance a x s).1 ≡ account_value s + x
unfolding add_balance
add_balance-account_value a x s fits =
    let acc = get_account a s in
    let change = account_value-put_account a (record acc { balance = acc.balance + x }) s in
    let bound = value-le-account_value a s in ground arith

-- A debit that is covered is taken from it.
pub sub_balance-account_value :
    (a x : ℕ) (s : StateDb) {s' : StateDb}
    → sub_balance a x s ≡ (ok tt, s')
    → account_value s' + x ≡ account_value s
unfolding sub_balance
sub_balance-account_value a x s {s'} h =
    let acc = get_account a s in
    let change = account_value-put_account a (record acc { balance = acc.balance - x }) s in
    ground arith

-- What a debit and a credit that succeed do to the balance of anyone.
pub get_balance-sub_balance :
    (who a x : ℕ) (s : StateDb) {s' : StateDb}
    → sub_balance a x s ≡ (ok tt, s')
    → get_balance who s' + (if who == a then x else 0) ≡ get_balance who s
unfolding sub_balance get_balance
get_balance-sub_balance who a x s {s'} h =
    let acc = get_account a s in
    ground (arith, get_account-put_account who a (record acc { balance = acc.balance - x }) s)

pub get_balance-add_balance :
    (who a x : ℕ) (s : StateDb) {s' : StateDb}
    → add_balance a x s ≡ (ok tt, s')
    → get_balance who s' ≡ get_balance who s + (if who == a then x else 0)
unfolding add_balance get_balance
get_balance-add_balance who a x s {s'} h =
    let acc = get_account a s in
    ground (arith, get_account-put_account who a (record acc { balance = acc.balance + x }) s)
