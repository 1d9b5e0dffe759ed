-- ===== src/State/Balances.antt =====
-- Balances of crates/vtt-state/src/statedb.rs: what a call does to each account, and to their sum.
use vtt.Prelude.{ℕ, ◌+◌, ◌-◌, ◌≤◌, ◌<◌, ◌≡◌, ◌≢◌, arith, u128_mod, ltb, leb, ◌==◌, if◌then◌else◌}
use vtt.Prelude.Keys.{nat_key}
use vtt.Prelude.Map.{sum_by, get-insert, sum_by-insert, weight-get-le}
use vtt.Prelude.Outcome.{ok, err}
use vtt.State.Account.{AccountState}
use vtt.State.Db.{
  StateDb, insufficient_balance, serialization, get_account, put_account, get_balance, add_balance,
  sub_balance, transfer,
}

abbrev pub balance_of : AccountState → ℕ
balance_of a = a.balance

-- The sum of all balances.
unfoldable pub total_balance : StateDb → ℕ
total_balance s = sum_by balance_of s.accounts

pub get_balance-put_account :
    (a b : ℕ) (acc : AccountState) (s : StateDb)
    → get_balance a (put_account b acc s) ≡ (if a == b then acc.balance else get_balance a s)
unfolding get_balance get_account put_account
get_balance-put_account a b acc s = ground (arith, get-insert a b acc s.accounts)

pub total_balance-put_account :
    (a : ℕ) (acc : AccountState) (s : StateDb)
    → total_balance (put_account a acc s) + get_balance a s ≡ total_balance s + acc.balance
unfolding total_balance get_balance get_account put_account
total_balance-put_account a acc s = ground (arith, sum_by-insert balance_of a acc s.accounts)

-- No account holds more than there is.
pub get_balance-le-total : (a : ℕ) (s : StateDb) → get_balance a s ≤ total_balance s
unfolding total_balance get_balance get_account
get_balance-le-total a s = ground (arith, weight-get-le balance_of a s.accounts)

-- The state after `add_balance` or `sub_balance` has set a balance.
unfoldable pub set_balance : ℕ → ℕ → StateDb → StateDb
set_balance a b s = put_account a (record (get_account a s) { balance = b }) s

pub get_balance-set_balance :
    (a c b : ℕ) (s : StateDb)
    → get_balance a (set_balance c b s) ≡ (if a == c then b else get_balance a s)
unfolding set_balance
get_balance-set_balance a c b s = get_balance-put_account a c _ s

pub total_balance-set_balance :
    (a b : ℕ) (s : StateDb)
    → total_balance (set_balance a b s) + get_balance a s ≡ total_balance s + b
unfolding set_balance
total_balance-set_balance a b s = total_balance-put_account a _ s

-- Both calls on all branches.
pub add_balance-eq :
    (a x : ℕ) (s : StateDb)
    → add_balance a x s ≡ (
        if ltb (get_balance a s + x) u128_mod
        then (ok tt, set_balance a (get_balance a s + x) s)
        else (err serialization, s))
unfolding add_balance get_balance set_balance
add_balance-eq a x s = ground arith

pub sub_balance-eq :
    (a x : ℕ) (s : StateDb)
    → sub_balance a x s ≡ (
        if leb x (get_balance a s)
        then (ok tt, set_balance a (get_balance a s - x) s)
        else (err (insufficient_balance (get_balance a s) x), s))
unfolding sub_balance get_balance set_balance
sub_balance-eq a x s = ground arith

-- The state after a transfer that goes through.
unfoldable pub moved : ℕ → ℕ → ℕ → StateDb → StateDb
moved from to x s =
    let s' = set_balance from (get_balance from s - x) s in
    set_balance to (get_balance to s' + x) s'

receiver_fits :
    (from to x : ℕ) (s : StateDb)
    → x ≤ get_balance from s
    → get_balance to (set_balance from (get_balance from s - x) s) + x ≤ total_balance s
receiver_fits from to x s h =
    let s' = set_balance from (get_balance from s - x) s in
    omega
      (arith, get_balance-le-total to s', total_balance-set_balance from (get_balance from s - x) s)

moved_total :
    (from to x : ℕ) (s : StateDb)
    → x ≤ get_balance from s
    → total_balance (moved from to x s) ≡ total_balance s
unfolding moved
moved_total from to x s h =
    let b = get_balance from s - x in
    omega (
      arith,
      total_balance-set_balance from b s,
      total_balance-set_balance to (get_balance to (set_balance from b s) + x)
          (set_balance from b s),
    )

get_balance-moved :
    (a from to x : ℕ) (s : StateDb)
    → x ≤ get_balance from s
    → get_balance a (moved from to x s) ≡ (
        if a == to
        then get_balance to s + (if from == to then 0 else x)
        else if a == from
        then get_balance from s - x
        else get_balance a s)
unfolding moved
get_balance-moved a from to x s h =
    let b = get_balance from s - x in
    ground (
      arith,
      get_balance-set_balance a to (get_balance to (set_balance from b s) + x)
          (set_balance from b s),
      get_balance-set_balance to from b s,
      get_balance-set_balance a from b s,
    )

-- While all balances together fit 128 bits, the credit of a transfer cannot fail.
pub transfer-eq :
    (from to x : ℕ) (s : StateDb)
    → total_balance s < u128_mod
    → transfer from to x s ≡ (
        if x == 0
        then (ok tt, s)
        else if leb x (get_balance from s)
        then (ok tt, moved from to x s)
        else (err (insufficient_balance (get_balance from s) x), s))
unfolding transfer moved
transfer-eq from to x s h = ground (
  arith,
  sub_balance-eq from x s,
  add_balance-eq to x (set_balance from (get_balance from s - x) s),
  receiver_fits from to x s,
)

-- While all balances together fit 128 bits, a transfer conserves their sum, also when it fails and
-- from an account to itself.
pub transfer-conserves :
    (from to x : ℕ) (s : StateDb)
    → total_balance s < u128_mod
    → total_balance (transfer from to x s).1 ≡ total_balance s
transfer-conserves from to x s h =
    ground (arith, transfer-eq from to x s h, moved_total from to x s)

-- While all balances together fit 128 bits, between two accounts an amount that is covered leaves
-- the one and reaches the other.
pub transfer_moves :
    (from to x : ℕ) (s : StateDb)
    → total_balance s < u128_mod
    → x ≤ get_balance from s
    → from ≢ to
    → let (r, s') = transfer from to x s in
      (r ≡ ok tt)
      × (get_balance from s' + x ≡ get_balance from s)
      × (get_balance to s' ≡ get_balance to s + x)
transfer_moves from to x s h enough ne = (
  ground (arith, transfer-eq from to x s h),
  ground (arith, transfer-eq from to x s h, get_balance-moved from from to x s),
  ground (arith, transfer-eq from to x s h, get_balance-moved to from to x s),
)

-- While all balances together fit 128 bits, an amount that is not covered is refused with the
-- balance and the amount, and the state is as before.
pub transfer_short :
    (from to x : ℕ) (s : StateDb)
    → total_balance s < u128_mod
    → get_balance from s < x
    → transfer from to x s ≡ (err (insufficient_balance (get_balance from s) x), s)
transfer_short from to x s h short = ground (arith, transfer-eq from to x s h)

-- While all balances together fit 128 bits, a transfer leaves the balance of any third account as
-- it was, however it ends.
pub transfer_others :
    (from to a x : ℕ) (s : StateDb)
    → total_balance s < u128_mod
    → a ≢ from
    → a ≢ to
    → get_balance a (transfer from to x s).1 ≡ get_balance a s
transfer_others from to a x s h nf nt =
    ground (arith, transfer-eq from to x s h, get_balance-moved a from to x s)
