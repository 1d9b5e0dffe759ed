-- ===== src/Executor/Redemption/Vault.antt =====
-- The money of redemption pools in crates/vtt-executor/src/lib.rs: funding, claims and closing.
use vtt.Prelude.{ℕ, ◌+◌, ◌≡◌, sym, ap, inl, inr, arith, some, Option-cases}
use vtt.Prelude.Keys.{nat_key, pair_key}
use vtt.Prelude.Map.{Map, get, insert, sum_by, sum_by-insert}
use vtt.Prelude.Outcome.{ok}
use vtt.Prelude.Action.{lift-eq-ok}
use vtt.State.Asset.{AssetRecord, OwnershipRecord, total}
use vtt.State.Db.{
  StateDb, get_account, put_account, add_balance, sub_balance, put_ownership, total_or_zero,
}
use vtt.State.Params.{put_asset}
use vtt.State.Value.{account_value, account_value-put_account, sub_balance-account_value}
use vtt.Executor.Transactions.{ExecutionError}
use vtt.Executor.Assets.{asset_or}
use vtt.Executor.Redemption.{}

-- What all redemption pools hold, and all accounts besides.
unfoldable pub pooled : Map ℕ AssetRecord → ℕ
pooled m = sum_by (λ a. a.redemption_pool) m

abbrev pub vault : StateDb → ℕ
vault s = account_value s + pooled s.assets

pub pooled-insert :
    (id : ℕ) (old new : AssetRecord) (m : Map ℕ AssetRecord)
    → get id m ≡ some old
    → pooled (insert id new m) + old.redemption_pool ≡ pooled m + new.redemption_pool
unfolding pooled
pooled-insert id old new m found =
    let change = sum_by-insert (λ a. a.redemption_pool) id new m in ground (arith, change)

pub asset_or-eq-ok :
    (id : ℕ) (why : ExecutionError) (s : StateDb) {a : AssetRecord} {t : StateDb}
    → asset_or id why s ≡ (ok a, t)
    → (get id s.assets ≡ some a) × (s ≡ t)
asset_or-eq-ok id why s {a} {t} h = elim (Option-cases (get id s.assets)) [
  | inl none_ ↦ absurd (ground arith)
  | inr (b, e) ↦ (ground arith, ground arith)
]

pub add_balance-eq-ok :
    (a x : ℕ) (s : StateDb) {t : StateDb}
    → add_balance a x s ≡ (ok tt, t)
    → (account_value t ≡ account_value s + x) × (t.assets ≡ s.assets)
unfolding add_balance put_account
add_balance-eq-ok a x s {t} h =
    let acc = get_account a s in
    let change = account_value-put_account a (record acc { balance = acc.balance + x }) s in
    (ground (arith, change), ground arith)

pub sub_balance-eq-ok :
    (a x : ℕ) (s : StateDb) {t : StateDb}
    → sub_balance a x s ≡ (ok tt, t)
    → (account_value t + x ≡ account_value s) × (t.assets ≡ s.assets)
unfolding sub_balance put_account
sub_balance-eq-ok a x s {t} h =
    let acc = get_account a s in (sub_balance-account_value a x s h, ground arith)

pub put_ownership-eq-ok :
    (r : OwnershipRecord) (s : StateDb) {t : StateDb}
    → put_ownership r s ≡ (ok tt, t)
    → (t.accounts ≡ s.accounts) × (t.assets ≡ s.assets)
unfolding put_ownership
put_ownership-eq-ok r s {t} h =
    let (a, e1, h1) = lift-eq-ok (total_or_zero (get (r.asset_id, r.owner) s.ownership)) _ _ h in
    let (b, e2, h2) = lift-eq-ok (total r) _ _ h1 in
    (sym (ap (λ x. x.1.accounts) h2), sym (ap (λ x. x.1.assets) h2))

-- A pool of an asset that is written changes by what is written.
pub vault-put_asset :
    (id : ℕ) (old new : AssetRecord) (s : StateDb)
    → get id s.assets ≡ some old
    → vault (put_asset id new s) + old.redemption_pool ≡ vault s + new.redemption_pool
unfolding account_value
vault-put_asset id old new s found = omega (arith, pooled-insert id old new s.assets found)
