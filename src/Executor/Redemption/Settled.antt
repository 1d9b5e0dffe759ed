-- ===== src/Executor/Redemption/Settled.antt =====
-- The end of `execute_claim_redemption` in crates/vtt-executor/src/lib.rs: who is paid, and what is
-- burned.
use vtt.Prelude.{
  ℕ, ◌+◌, ◌≡◌, refl, sym, ap, subst, ◌∙◌, arith, some, ◌==◌, if◌then◌else◌, Bool-cases, inl, inr,
}
use vtt.Prelude.Keys.{nat_key, pair_key}
use vtt.Prelude.Map.{get, insert, get-insert}
use vtt.Prelude.Outcome.{ok}
use vtt.Prelude.Action.{after-eq-ok, lift-eq-ok, map_err-eq-ok}
use vtt.Primitives.Amount.{sub, is_zero, sub-eq-ok}
use vtt.State.Asset.{AssetRecord, AssetStatus, OwnershipRecord, total}
use vtt.State.Db.{
  StateDb, get_account, get_balance, get_ownership, put_account, add_balance, put_ownership,
  total_or_zero,
}
use vtt.State.Params.{put_asset}
use vtt.State.Value.{get_balance-add_balance}
use vtt.Executor.Transactions.{ExecutionError, on_state, or_custom}
use vtt.Executor.Assets.{asset_or}
use vtt.Executor.Redemption.{settle_claim}
use vtt.Executor.Redemption.Vault.{asset_or-eq-ok, put_ownership-eq-ok}

-- A record that holds nothing.
abbrev pub emptied : OwnershipRecord → OwnershipRecord
emptied r = record r { available = 0; locked = 0 }

-- What a settlement that succeeds has done, step by step.
pub settle_claim-eq-ok :
    (sender id held share : ℕ) (r : OwnershipRecord) (s : StateDb) {s' : StateDb}
    → settle_claim sender id r held share s ≡ (ok tt, s')
    → (t u : StateDb) × (b a' : AssetRecord) × (put_ownership (emptied r) s ≡ (ok tt, t))
      × (add_balance sender share t ≡ (ok tt, u))
      × (get id u.assets ≡ some b)
      × (a'.total_supply + held ≡ b.total_supply)
      × (a'.redemption_pool + share ≡ b.redemption_pool)
      × (put_asset id a' u ≡ s')
unfolding settle_claim
settle_claim-eq-ok sender id held share r s {s'} h =
    let (_, t, e1, h1) = after-eq-ok (on_state (put_ownership (emptied r)) s) _ h in
    let (_, u, e2, h2) = after-eq-ok (or_custom (add_balance sender share) t) _ h1 in
    let (b, v, e3, h3) = after-eq-ok (asset_or id ExecutionError.asset_not_found u) _ h2 in
    let (there, stay) = asset_or-eq-ok id ExecutionError.asset_not_found u e3 in
    let (supply, e4, h4) = lift-eq-ok (sub b.total_supply held) v _ h3 in
    let (pool, e5, h5) = lift-eq-ok (sub b.redemption_pool share) v _ h4 in
    let a' : AssetRecord = record b {
      total_supply = supply;
      redemption_pool = pool;
      status = if is_zero supply then AssetStatus.redeemed else b.status;
    } in
    (
      t,
      u,
      b,
      a',
      map_err-eq-ok (put_ownership (emptied r)) _ s e1,
      map_err-eq-ok (add_balance sender share) _ t e2,
      there,
      sub-eq-ok b.total_supply held e4,
      sub-eq-ok b.redemption_pool share e5,
      ap (put_asset id a') stay ∙ ap (λ x. x.1) h5,
    )

-- One account's side of a claim: the caller gets the share and holds nothing of the asset any more;
-- everyone else keeps what they have.
abbrev pub IsPaid : ℕ → ℕ → ℕ → ℕ → OwnershipRecord → StateDb → StateDb → Type 0
IsPaid who sender id share r s s' =
    (get_balance who s' ≡ get_balance who s + (if who == sender then share else 0))
    × (get_ownership id who s' ≡ (if who == sender then emptied r else get_ownership id who s))

ownership-put_ownership :
    (r : OwnershipRecord) (s : StateDb) {t : StateDb}
    → put_ownership r s ≡ (ok tt, t)
    → t.ownership ≡ insert (r.asset_id, r.owner) r s.ownership
unfolding put_ownership
ownership-put_ownership r s {t} h =
    let (_, _, h1) = lift-eq-ok (total_or_zero (get (r.asset_id, r.owner) s.ownership)) _ _ h in
    let (_, _, h2) = lift-eq-ok (total r) _ _ h1 in sym (ap (λ x. x.1.ownership) h2)

ownership-add_balance :
    (a x : ℕ) (s : StateDb) {t : StateDb}
    → add_balance a x s ≡ (ok tt, t)
    → t.ownership ≡ s.ownership
unfolding add_balance put_account
ownership-add_balance a x s {t} h = ground arith

balance_same :
    (who : ℕ) (s t : StateDb) → t.accounts ≡ s.accounts → get_balance who t ≡ get_balance who s
unfolding get_balance get_account
balance_same who s t h = rw h refl

ownership_written :
    (who id sender : ℕ) (r : OwnershipRecord) (s u : StateDb)
    → r.asset_id ≡ id
    → r.owner ≡ sender
    → u.ownership ≡ insert (r.asset_id, r.owner) r s.ownership
    → get_ownership id who u ≡ (if who == sender then r else get_ownership id who s)
unfolding get_ownership
ownership_written who id sender r s u asset owner h =
    let key : ℕ × ℕ = (id, who) in
    let at : ℕ × ℕ = (r.asset_id, r.owner) in
    let found : get key u.ownership ≡ get key (insert at r s.ownership) = ap (get key) h in
    let here = get-insert key at r s.ownership in
    elim (Bool-cases (who == sender)) [
      | inl same ↦ ground (arith, found, here)
      | inr other ↦ ground (arith, found, here)
    ]

pub settle_claim-IsPaid :
    (who sender id held share : ℕ) (r : OwnershipRecord) (s : StateDb) {s' : StateDb}
    → r.asset_id ≡ id
    → r.owner ≡ sender
    → settle_claim sender id r held share s ≡ (ok tt, s')
    → IsPaid who sender id share r s s'
unfolding get_balance get_ownership get_account
settle_claim-IsPaid who sender id held share r s {s'} asset owner h =
    let (t, u, b, a', burned, paid, there, supply, pool, last) =
      settle_claim-eq-ok sender id held share r s h in
    let same = put_ownership-eq-ok (emptied r) s burned in
    subst (IsPaid who sender id share r s) last (
      get_balance-add_balance who sender share t paid
          ∙ ap (λ x. x + (if who == sender then share else 0)) (balance_same who s t same.0),
      ownership_written who id sender (emptied r) s u asset owner (
          ownership-add_balance sender share t paid ∙ ownership-put_ownership (emptied r) s burned),
    )
