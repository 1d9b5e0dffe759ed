-- ===== src/Executor/Redemption/Claims.antt =====
-- Funding, claims and closing of a redemption in crates/vtt-executor/src/lib.rs conserve money.
use vtt.Prelude.{
  ℕ, ◌+◌, ◌*◌, ◌/◌, ◌≡◌, ◌<◌, refl, sym, ap, subst, ◌∙◌, not, arith, Option, some, ◌==◌,
  checked_add, checked_mul,
}
use vtt.Prelude.Keys.{nat_key}
use vtt.Prelude.Map.{get, sum_by, get-insert}
use vtt.Prelude.Outcome.{ok, ok_or}
use vtt.Prelude.Action.{after-eq-ok, lift-eq-ok, reject_if-eq-ok, map_err-eq-ok}
use vtt.Primitives.Amount.{is_zero, checked_add-eq-ok, checked_mul-eq-ok}
use vtt.State.Asset.{AssetRecord, OwnershipRecord, total}
use vtt.State.Db.{StateDb, sub_balance, get_ownership}
use vtt.State.Transfers.{IsKeyed}
use vtt.State.Assets.{get_ownership_key}
use vtt.State.Params.{put_asset}
use vtt.State.Value.{value_of, account_value}
use vtt.Executor.Transactions.{ExecutionError, on_state}
use vtt.Executor.Stake.{overflow}
use vtt.Executor.Assets.{asset_or}
use vtt.Executor.Redemption.{
  is_redeemable, settle_claim, execute_fund_redemption_pool, execute_claim_redemption,
}
use vtt.Executor.Redemption.Settled.{emptied, IsPaid, settle_claim-eq-ok, settle_claim-IsPaid}
use vtt.Executor.Redemption.Vault.{
  vault, pooled, pooled-insert, asset_or-eq-ok, add_balance-eq-ok, sub_balance-eq-ok,
  put_ownership-eq-ok, vault-put_asset,
}

-- What a claim leaves of the asset.
abbrev pub IsClaimed : ℕ → ℕ → ℕ → AssetRecord → StateDb → StateDb → Type 0
IsClaimed id held share a s s' =
    (a' : AssetRecord) × (get id s'.assets ≡ some a')
    × (vault s' ≡ vault s)
    × (a'.total_supply + held ≡ a.total_supply)
    × (a'.redemption_pool + share ≡ a.redemption_pool)

written :
    (id held share : ℕ) (a a' : AssetRecord) (s t u : StateDb)
    → get id s.assets ≡ some a
    → (t.accounts ≡ s.accounts) × (t.assets ≡ s.assets)
    → (account_value u ≡ account_value t + share) × (u.assets ≡ t.assets)
    → a'.total_supply + held ≡ a.total_supply
    → a'.redemption_pool + share ≡ a.redemption_pool
    → IsClaimed id held share a s (put_asset id a' u)
unfolding account_value
written id held share a a' s t u found same paid supply pool =
    let here : get id u.assets ≡ some a = rw (paid.1, same.1) found in
    let change = vault-put_asset id a a' u here in
    let accounts = ap (sum_by value_of) same.0 in
    let pools = ap pooled (paid.1 ∙ same.1) in
    (
      a',
      ground (arith, get-insert id id a' u.assets),
      omega (arith, change, accounts, pools, paid.0, pool),
      supply,
      pool,
    )

same_some : {A : Type 0} {a b : A} → ◌≡◌ {A = Option A} (some a) (some b) → a ≡ b
same_some h = cc

total-eq-ok :
    (r : OwnershipRecord) {n : ℕ} → total {E = ExecutionError} r ≡ ok n → n ≡ r.available + r.locked
total-eq-ok r {n} h = ground arith

settle_claim-IsClaimed :
    (sender id held share : ℕ) (r : OwnershipRecord) (a : AssetRecord) (s : StateDb) {s' : StateDb}
    → get id s.assets ≡ some a
    → settle_claim sender id r held share s ≡ (ok tt, s')
    → IsClaimed id held share a s s'
settle_claim-IsClaimed sender id held share r a s {s'} found h =
    let (t, u, b, a', burned, paid, there, supply, pool, last) =
      settle_claim-eq-ok sender id held share r s h in
    let same = put_ownership-eq-ok (emptied r) s burned in
    let more = add_balance-eq-ok sender share t paid in
    let same_asset : b ≡ a = same_some (sym there ∙ ap (get id) (more.1 ∙ same.1) ∙ found) in
    let old_supply = ap (λ x. x.total_supply) same_asset in
    let old_pool = ap (λ x. x.redemption_pool) same_asset in
    subst (IsClaimed id held share a s) last
      (written id held share a a' s t u found same more (supply ∙ old_supply) (pool ∙ old_pool))

-- What a claim has done, where the numbers that it computes are known.
claimed :
    (sender id : ℕ) (s : StateDb) (a : AssetRecord) (held product : ℕ) (r : OwnershipRecord)
    {s' : StateDb}
    → r ≡ get_ownership id sender s
    → IsKeyed s
    → get id s.assets ≡ some a
    → held ≡ r.available + r.locked
    → 0 < held
    → product ≡ held * a.redemption_pool
    → settle_claim sender id r held (product / a.total_supply) s ≡ (ok tt, s')
    → let sum = r.available + r.locked in
      let share = sum * a.redemption_pool / a.total_supply in
      (0 < sum) × ((who : ℕ) → IsPaid who sender id share r s s') × IsClaimed id sum share a s s'
claimed sender id s a held product r {s'} is keyed found sum some_ exact h =
    let key = get_ownership_key id sender s keyed in
    let share : product / a.total_supply
        ≡ (r.available + r.locked) * a.redemption_pool / a.total_supply =
      ap (λ x. x / a.total_supply) exact ∙ ap (λ x. x * a.redemption_pool / a.total_supply) sum in
    let settled : settle_claim sender id r (r.available + r.locked)
          ((r.available + r.locked) * a.redemption_pool / a.total_supply) s
        ≡ (ok tt, s') =
      rw (sym share, sym sum) h in
    (
      omega (arith, sum, some_),
      λ who.
          settle_claim-IsPaid who sender id _ _ r s (ap (λ x. x.asset_id) is ∙ key.0)
            (ap (λ x. x.owner) is ∙ key.1) settled,
      settle_claim-IsClaimed sender id _ _ r a s found settled,
    )

-- While records stand under their own keys, a claim that succeeds burns all that the caller holds of
-- the asset, available and locked, which is not 0, and pays the caller the share of the redemption
-- pool that it is of the supply, rounded down. Nobody else's balance, or holding of the asset, changes.
-- What accounts and pools hold together stays the same, the pool of the asset falls by the share and
-- its supply by what was held.
pub execute_claim_redemption-conserves :
    (sender id : ℕ) (s : StateDb) {s' : StateDb}
    → IsKeyed s
    → execute_claim_redemption sender id s ≡ (ok tt, s')
    → let r = get_ownership id sender s in
      (a : AssetRecord) × (get id s.assets ≡ some a)
      × (let held = r.available + r.locked in
          let share = held * a.redemption_pool / a.total_supply in
          (0 < held)
          × ((who : ℕ) → IsPaid who sender id share r s s')
          × IsClaimed id held share a s s')
unfolding execute_claim_redemption
execute_claim_redemption-conserves sender id s {s'} keyed h =
    let (a, s0, e0, h0) = after-eq-ok (asset_or id ExecutionError.asset_not_found s) _ h in
    let (found, stay) = asset_or-eq-ok id ExecutionError.asset_not_found s e0 in
    let (_, h1) = reject_if-eq-ok (not (is_redeemable a.status)) _ s0 _ h0 in
    let (_, h2) = reject_if-eq-ok (is_zero a.total_supply) _ s0 _ h1 in
    let (_, h3) = reject_if-eq-ok (is_zero a.redemption_pool) _ s0 _ h2 in
    let (held, e4, h4) = lift-eq-ok (total (get_ownership id sender s0)) s0 _ h3 in
    let (some_, h5) = reject_if-eq-ok (is_zero held) _ s0 _ h4 in
    let (product, e6, h6) =
      lift-eq-ok (ok_or (checked_mul held a.redemption_pool) overflow) s0 _ h5 in
    let r = get_ownership id sender s in
    let settled : settle_claim sender id r held (product / a.total_supply) s ≡ (ok tt, s') =
      ap (λ x. settle_claim sender id (get_ownership id sender x) held (product / a.total_supply) x)
        stay
      ∙ h6 in
    (
      a,
      found,
      claimed sender id s a held product r refl keyed found
          (total-eq-ok r (ap (λ x. total (get_ownership id sender x)) stay ∙ e4))
          (ground (arith, some_)) (checked_mul-eq-ok held a.redemption_pool overflow e6) settled,
    )

-- Funding moves the amount from the issuer into the pool of the asset: it conserves what accounts
-- and pools hold together.
pub execute_fund_redemption_pool-conserves :
    (sender id amount : ℕ) (s : StateDb) {s' : StateDb}
    → execute_fund_redemption_pool sender id amount s ≡ (ok tt, s')
    → vault s' ≡ vault s
unfolding execute_fund_redemption_pool account_value
execute_fund_redemption_pool-conserves sender id amount s {s'} h =
    let (_, h0) = reject_if-eq-ok (is_zero amount) _ s _ h in
    let (a, s1, e1, h1) = after-eq-ok (asset_or id ExecutionError.asset_not_found s) _ h0 in
    let (found, stay) = asset_or-eq-ok id ExecutionError.asset_not_found s e1 in
    let (_, h2) = reject_if-eq-ok (not (is_redeemable a.status)) _ s1 _ h1 in
    let (_, h3) = reject_if-eq-ok (not (a.issuer == sender)) _ s1 _ h2 in
    let (_, t, e4, h4) = after-eq-ok (on_state (sub_balance sender amount) s1) _ h3 in
    let paid =
      sub_balance-eq-ok sender amount s1 (map_err-eq-ok (sub_balance sender amount) _ s1 e4) in
    let (b, u, e5, h5) = after-eq-ok (asset_or id ExecutionError.asset_not_found t) _ h4 in
    let (there, same) = asset_or-eq-ok id ExecutionError.asset_not_found t e5 in
    let (pool, e6, h6) =
      lift-eq-ok (ok_or (checked_add b.redemption_pool amount) overflow) _ _ h5 in
    let more = checked_add-eq-ok b.redemption_pool amount overflow e6 in
    let change =
      pooled-insert id b (record b { redemption_pool = pool }) u.assets
        (ap (λ x. get id x.assets) (sym same) ∙ there) in
    let end = ap (λ x. vault x.1) h6 in
    let accounts = ap account_value same in
    let assets = ap (λ x. pooled x.assets) same in
    let start = ap vault stay in
    let pools = ap pooled paid.1 in
    omega (arith, change, end, accounts, assets, start, pools, paid.0, more)
