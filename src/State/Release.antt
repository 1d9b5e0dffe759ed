-- ===== src/State/Release.antt =====
-- `process_unbonding` of crates/vtt-state/src/statedb.rs.
use vtt.Prelude.{
  ℕ, ◌+◌, ◌<◌, ◌≡◌, refl, ◌∙◌, List, [], ◌∷◌, arith, u128_mod, leb, ◌==◌, if◌then◌else◌,
}
use vtt.Prelude.Map.{Map, sum_by}
use vtt.Prelude.Outcome.{ok}
use vtt.State.Account.{UnbondingEntry}
use vtt.State.Db.{StateDb, add_balance, put_account}
use vtt.State.Staking.{
  released_of, not_matured, keep_pending, releases_of, credit_all, drop_empty, process_unbonding,
}
use vtt.State.Value.{unbonding_sum, account_value, total_value, add_balance-account_value}

-- What of the entries is due.
unfoldable pub matured : ℕ → List UnbondingEntry → ℕ
matured now [] = 0
matured now (e ∷ es) = (if leb e.completion_time now then e.amount else 0) + matured now es

released_of-eq :
    {E : Type 0} (now acc : ℕ) (es : List UnbondingEntry)
    → acc + unbonding_sum es < u128_mod
    → released_of {E = E} now acc es ≡ ok (acc + matured now es)
unfolding released_of matured unbonding_sum
released_of-eq now acc [] fits = ground arith
released_of-eq {E} now acc (e ∷ es) fits =
    ground
      (arith, released_of-eq {E = E} now acc es, released_of-eq {E = E} now (acc + e.amount) es)

matured_split :
    (now : ℕ) (es : List UnbondingEntry)
    → unbonding_sum (not_matured now es) + matured now es ≡ unbonding_sum es
unfolding not_matured matured unbonding_sum
matured_split now [] = refl
matured_split now (e ∷ es) = ground (arith, matured_split now es)

-- What is due of all entries, and to whom.
unfoldable pub matured_all : ℕ → Map ℕ (List UnbondingEntry) → ℕ
matured_all now m = sum_by (matured now) m

unfoldable pub due : ℕ → Map ℕ (List UnbondingEntry) → List (ℕ × ℕ)
due now [] = []
due now ((owner, es) ∷ m) =
    if matured now es == 0 then due now m else (owner, matured now es) ∷ due now m

unfoldable pub sum_due : List (ℕ × ℕ) → ℕ
sum_due [] = 0
sum_due ((owner, x) ∷ rs) = x + sum_due rs

sum_due-due : (now : ℕ) (m : Map ℕ (List UnbondingEntry)) → sum_due (due now m) ≡ matured_all now m
unfolding due sum_due matured_all sum_by
sum_due-due now [] = refl
sum_due-due now ((owner, es) ∷ m) = ground (arith, sum_due-due now m)

releases_of-eq :
    {E : Type 0} (now total : ℕ) (m : Map ℕ (List UnbondingEntry))
    → total + sum_by unbonding_sum m < u128_mod
    → releases_of {E = E} now total m ≡ ok (total + matured_all now m, due now m)
unfolding releases_of due matured_all sum_by
releases_of-eq now total [] fits = ground arith
releases_of-eq {E} now total ((owner, es) ∷ m) fits =
    let split = matured_split now es in
    ground (
      arith,
      released_of-eq {E = E} now 0 es,
      releases_of-eq {E = E} now total m,
      releases_of-eq {E = E} now (total + matured now es) m,
    )

keep_pending_split :
    (now : ℕ) (m : Map ℕ (List UnbondingEntry))
    → sum_by unbonding_sum (keep_pending now m) + matured_all now m ≡ sum_by unbonding_sum m
unfolding keep_pending matured_all sum_by
keep_pending_split now [] = refl
keep_pending_split now ((owner, es) ∷ m) =
    omega (arith, keep_pending_split now m, matured_split now es)

pub sum_by-drop_empty :
    (m : Map ℕ (List UnbondingEntry)) → sum_by unbonding_sum (drop_empty m) ≡ sum_by unbonding_sum m
unfolding drop_empty sum_by unbonding_sum
sum_by-drop_empty [] = refl
sum_by-drop_empty ((owner, []) ∷ m) = omega (arith, sum_by-drop_empty m)
sum_by-drop_empty ((owner, e ∷ es) ∷ m) = omega (arith, sum_by-drop_empty m)

add_balance_keeps :
    (a x : ℕ) (s : StateDb) → (add_balance a x s).1.unbonding_entries ≡ s.unbonding_entries
unfolding add_balance put_account
add_balance_keeps a x s = ground arith

credit_all_keeps :
    (rs : List (ℕ × ℕ)) (s : StateDb) → (credit_all rs s).unbonding_entries ≡ s.unbonding_entries
unfolding credit_all
credit_all_keeps [] s = refl
credit_all_keeps ((a, x) ∷ rs) s =
    credit_all_keeps rs (add_balance a x s).1 ∙ add_balance_keeps a x s

account_value-credit_all :
    (rs : List (ℕ × ℕ)) (s : StateDb)
    → account_value s + sum_due rs < u128_mod
    → account_value (credit_all rs s) ≡ account_value s + sum_due rs
unfolding credit_all sum_due
account_value-credit_all [] s fits = omega arith
account_value-credit_all ((a, x) ∷ rs) s fits =
    let here = add_balance-account_value a x s (omega arith) in
    omega (arith, here, account_value-credit_all rs (add_balance a x s).1 (omega (arith, here)))

pub account_value-unbonding :
    (s : StateDb) (m : Map ℕ (List UnbondingEntry))
    → account_value (record s { unbonding_entries = m }) ≡ account_value s
unfolding account_value
account_value-unbonding s m = refl

releases_of_all :
    {E : Type 0} (now : ℕ) (m : Map ℕ (List UnbondingEntry))
    → sum_by unbonding_sum m < u128_mod
    → releases_of {E = E} now 0 m ≡ ok (matured_all now m, due now m)
releases_of_all {E} now m fits = ground (arith, releases_of-eq {E = E} now 0 m)

-- The state after the release.
unfoldable pub released : ℕ → StateDb → StateDb
released now s =
    let s' =
      credit_all (due now s.unbonding_entries)
        (record s { unbonding_entries = keep_pending now s.unbonding_entries }) in
    record s' { unbonding_entries = drop_empty s'.unbonding_entries }

-- While all money fits 128 bits, releasing what has matured never fails: it reports exactly what is
-- due, credits it, and conserves the sum of balances, stakes and unbonding entries.
pub process_unbonding-conserves :
    {E : Type 0} (now : ℕ) (s : StateDb)
    → total_value s < u128_mod
    → (process_unbonding {E = E} now s ≡ ok (matured_all now s.unbonding_entries, released now s))
      × (total_value (released now s) ≡ total_value s)
unfolding process_unbonding total_value released account_value
process_unbonding-conserves {E} now s fits =
    let m = s.unbonding_entries in
    let start = record s { unbonding_entries = keep_pending now m } in
    let split = keep_pending_split now m in
    let dues = sum_due-due now m in
    let kept = credit_all_keeps (due now m) start in
    let same : account_value start ≡ account_value s =
      account_value-unbonding s (keep_pending now m) in
    let credited = account_value-credit_all (due now m) start (omega (arith, same, dues, split)) in
    (
      rw (releases_of_all {E = E} now m (omega arith)) refl,
      rw (sum_by-drop_empty, kept) (omega (arith, credited, same, dues, split)),
    )
