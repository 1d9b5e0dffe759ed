-- ===== src/State/Assets.antt =====
-- `transfer_asset` of crates/vtt-state/src/statedb.rs: a debit and a credit of one asset.
use vtt.Prelude.{
  ℕ, ◌+◌, ◌-◌, ◌≤◌, ◌<◌, ◌≡◌, ◌≢◌, inl, inr, true, ◌&&◌, arith, ap₂, ◌∙◌, u128_mod, leb, ◌==◌,
  if◌then◌else◌, Option-cases,
}
use vtt.Prelude.Keys.{nat_key, pair_key}
use vtt.Prelude.Map.{get, get-insert, weight-get-le}
use vtt.Prelude.Outcome.{ok, err}
use vtt.State.Asset.{OwnershipRecord}
use vtt.State.Db.{
  StateDb, insufficient_balance, serialization, get_ownership, put_ownership, transfer_asset,
  asset_tradeable,
}
use vtt.State.Transfers.{
  total_of, held_of, total_held, IsKeyed, stored, old_total, put_ownership-eq, stored-IsKeyed,
  total_held-stored,
}

-- What `get_ownership` finds stands under the key that was asked for.
pub get_ownership_key :
    (a o : ℕ) (s : StateDb)
    → IsKeyed s
    → ((get_ownership a o s).asset_id ≡ a) × ((get_ownership a o s).owner ≡ o)
unfolding get_ownership
get_ownership_key a o s h = elim (Option-cases (get (a, o) s.ownership)) [
  | inl new ↦ ground arith
  | inr (r, e) ↦ ground (arith, h a o r e)
]

pub old_total_at :
    (r : OwnershipRecord) (s : StateDb)
    → old_total r s ≡ total_of (get_ownership r.asset_id r.owner s)
unfolding get_ownership
old_total_at r s = ground arith

pub total_of-le-total_held :
    (a o : ℕ) (s : StateDb) → IsKeyed s → total_of (get_ownership a o s) ≤ total_held a s
unfolding get_ownership total_held
total_of-le-total_held a o s h =
    let bound = weight-get-le (held_of a) (a, o) s.ownership in
    elim (Option-cases (get (a, o) s.ownership)) [
      | inl new ↦ ground arith
      | inr (r, e) ↦ ground (arith, bound, h a o r e)
    ]

-- The available balance of an owner.
abbrev pub available : ℕ → ℕ → StateDb → ℕ
available a o s = (get_ownership a o s).available

-- The state after the available balance of an owner has been set.
unfoldable pub set_available : ℕ → ℕ → ℕ → StateDb → StateDb
set_available a o x s = stored (record (get_ownership a o s) { available = x }) s

get_ownership-stored :
    (a o : ℕ) (r : OwnershipRecord) (s : StateDb)
    → get_ownership a o (stored r s)
      ≡ (if a == r.asset_id && o == r.owner then r else get_ownership a o s)
unfolding get_ownership stored
get_ownership-stored a o r s = ground (arith, get-insert (a, o) (r.asset_id, r.owner) r s.ownership)

pub available-set_available :
    (a o a' o' x : ℕ) (s : StateDb)
    → IsKeyed s
    → available a o (set_available a' o' x s) ≡ (if a == a' && o == o' then x else available a o s)
unfolding set_available
available-set_available a o a' o' x s h =
    let r = record (get_ownership a' o' s) { available = x } in
    let found = get_ownership-stored a o r s in
    let (ea, eo) = get_ownership_key a' o' s h in ground arith

old_total-set :
    (a o x : ℕ) (s : StateDb)
    → IsKeyed s
    → old_total (record (get_ownership a o s) { available = x }) s ≡ total_of (get_ownership a o s)
old_total-set a o x s h =
    let (ea, eo) = get_ownership_key a o s h in
    old_total_at (record (get_ownership a o s) { available = x }) s
    ∙ ap₂ (λ b p. total_of (get_ownership b p s)) ea eo

pub total_held-set_available :
    (asset a o x : ℕ) (s : StateDb)
    → IsKeyed s
    → total_held asset (set_available a o x s) + (if a == asset then available a o s else 0)
      ≡ total_held asset s + (if a == asset then x else 0)
unfolding set_available
total_held-set_available asset a o x s h =
    let r = record (get_ownership a o s) { available = x } in
    let change = total_held-stored asset r s h in
    let (ea, eo) = get_ownership_key a o s h in let old = old_total-set a o x s h in ground arith

pub set_available-IsKeyed : (a o x : ℕ) (s : StateDb) → IsKeyed s → IsKeyed (set_available a o x s)
unfolding set_available
set_available-IsKeyed a o x s h = stored-IsKeyed _ s h

put_available :
    (a o x : ℕ) (s : StateDb)
    → IsKeyed s
    → total_held a s < u128_mod
    → x + (get_ownership a o s).locked < u128_mod
    → put_ownership (record (get_ownership a o s) { available = x }) s
      ≡ (ok tt, set_available a o x s)
unfolding set_available
put_available a o x s h fits small =
    put_ownership-eq (record (get_ownership a o s) { available = x }) s small
      (omega (arith, old_total-set a o x s h, total_of-le-total_held a o s h))

-- The state after an asset transfer that goes through.
unfoldable pub handed : ℕ → ℕ → ℕ → ℕ → StateDb → StateDb
handed asset from to x s =
    let s' = set_available asset from (available asset from s - x) s in
    set_available asset to (available asset to s' + x) s'

-- While all that is held of the asset fits 128 bits and each record stands under its own key, a
-- transfer never panics: nothing happens for 0, an asset that is not active or an amount that is
-- not available is refused with the state as before, and otherwise the amount is handed over.
pub transfer_asset-eq :
    (asset from to x : ℕ) (s : StateDb)
    → IsKeyed s
    → total_held asset s < u128_mod
    → transfer_asset asset from to x s ≡ (
        if x == 0
        then (ok tt, s)
        else if asset_tradeable (get asset s.assets)
        then (if leb x (available asset from s)
            then (ok tt, handed asset from to x s)
            else (err (insufficient_balance (available asset from s) x), s))
        else (err serialization, s))
unfolding transfer_asset handed
transfer_asset-eq asset from to x s h fits =
    let b = available asset from s - x in
    let s' = set_available asset from b s in
    let first = put_available asset from b s h fits in
    let h' = set_available-IsKeyed asset from b s h in
    let less = total_held-set_available asset asset from b s h in
    let second = put_available asset to (available asset to s' + x) s' h' in
    let room = total_of-le-total_held asset to s' h' in
    let held = total_of-le-total_held asset from s h in ground arith

handed_total :
    (asset' asset from to x : ℕ) (s : StateDb)
    → IsKeyed s
    → x ≤ available asset from s
    → total_held asset' (handed asset from to x s) ≡ total_held asset' s
unfolding handed
handed_total asset' asset from to x s h enough =
    let b = available asset from s - x in
    let s' = set_available asset from b s in
    let h' = set_available-IsKeyed asset from b s h in
    let first = total_held-set_available asset' asset from b s h in
    let second = total_held-set_available asset' asset to (available asset to s' + x) s' h' in
    ground arith

available-handed :
    (a o asset from to x : ℕ) (s : StateDb)
    → IsKeyed s
    → x ≤ available asset from s
    → available a o (handed asset from to x s) ≡ (
        if a == asset && o == to
        then available asset to s + (if from == to then 0 else x)
        else if a == asset && o == from
        then available asset from s - x
        else available a o s)
unfolding handed
available-handed a o asset from to x s h enough =
    let b = available asset from s - x in
    let s' = set_available asset from b s in
    let h' = set_available-IsKeyed asset from b s h in
    let outer = available-set_available a o asset to (available asset to s' + x) s' h' in
    let middle = available-set_available asset to asset from b s h in
    let inner = available-set_available a o asset from b s h in ground arith

-- While all that is held of the asset fits 128 bits and each record stands under its own key, a
-- transfer changes the total of no asset,
-- however it ends.
pub transfer_asset-conserves :
    (asset' asset from to x : ℕ) (s : StateDb)
    → IsKeyed s
    → total_held asset s < u128_mod
    → total_held asset' (transfer_asset asset from to x s).1 ≡ total_held asset' s
transfer_asset-conserves asset' asset from to x s h fits =
    ground
      (arith, transfer_asset-eq asset from to x s h fits, handed_total asset' asset from to x s h)

-- While all that is held of the asset fits 128 bits and each record stands under its own key,
-- between two owners of an active asset an amount that is available leaves the one and reaches the
-- other.
pub transfer_asset_moves :
    (asset from to x : ℕ) (s : StateDb)
    → IsKeyed s
    → total_held asset s < u128_mod
    → asset_tradeable (get asset s.assets) ≡ true
    → x ≤ available asset from s
    → from ≢ to
    → let (r, s') = transfer_asset asset from to x s in
      (r ≡ ok tt)
      × (available asset from s' + x ≡ available asset from s)
      × (available asset to s' ≡ available asset to s + x)
transfer_asset_moves asset from to x s h fits active enough ne =
    let e = transfer_asset-eq asset from to x s h fits in
    let at_from = available-handed asset from asset from to x s h enough in
    let at_to = available-handed asset to asset from to x s h enough in
    (ground arith, ground arith, ground arith)
