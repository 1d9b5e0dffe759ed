-- ===== src/State/Transfers.antt =====
-- Ownership records of crates/vtt-state/src/statedb.rs: what is held of an asset, and by how many.
use vtt.Prelude.{
  ℕ, ◌+◌, ◌<◌, ◌≡◌, inl, inr, Bool, true, false, not, ◌&&◌, some, arith, u128_mod, ◌==◌,
  if◌then◌else◌, ◌++◌, [], ◌∷◌, Option-cases,
}
use vtt.Prelude.Keys.{nat_key, pair_key}
use vtt.Prelude.Map.{Map, get, insert, sum_by, get_or, weight, get-insert, sum_by-insert}
use vtt.Prelude.Outcome.{ok}
use vtt.Primitives.Amount.{is_zero}
use vtt.State.Asset.{OwnershipRecord}
use vtt.State.Db.{StateDb, put_ownership, count_holder, update_holders, asset_holder_count}

-- What a record holds, available or locked.
abbrev pub total_of : OwnershipRecord → ℕ
total_of r = r.available + r.locked

-- What a record holds of one asset, and whether it counts as a holder of it.
abbrev pub held_of : ℕ → OwnershipRecord → ℕ
held_of asset r = if r.asset_id == asset then total_of r else 0

abbrev pub holds : ℕ → OwnershipRecord → ℕ
holds asset r = if r.asset_id == asset && not (is_zero (total_of r)) then 1 else 0

-- All that is held of one asset.
unfoldable pub total_held : ℕ → StateDb → ℕ
total_held asset s = sum_by (held_of asset) s.ownership

-- The number of records that hold some of one asset.
unfoldable pub holder_count : ℕ → StateDb → ℕ
holder_count asset s = sum_by (holds asset) s.ownership

-- Every record stands under its own key.
abbrev pub IsKeyed : StateDb → Type 0
IsKeyed s =
    (asset owner : ℕ) (r : OwnershipRecord)
    → get (asset, owner) s.ownership ≡ some r
    → (r.asset_id ≡ asset) × (r.owner ≡ owner)

abbrev pub old_total : OwnershipRecord → StateDb → ℕ
old_total r s = weight total_of (get (r.asset_id, r.owner) s.ownership)

-- The state after a record has been written.
unfoldable pub stored : OwnershipRecord → StateDb → StateDb
stored r s = record s {
  dirty_assets = s.dirty_assets ++ r.asset_id ∷ [];
  ownership = insert (r.asset_id, r.owner) r s.ownership;
  asset_holder_count =
      update_holders r.asset_id (not (is_zero (old_total r s))) (not (is_zero (total_of r)))
        s.asset_holder_count;
}

pub put_ownership-eq :
    (r : OwnershipRecord) (s : StateDb)
    → total_of r < u128_mod
    → old_total r s < u128_mod
    → put_ownership r s ≡ (ok tt, stored r s)
unfolding put_ownership stored
put_ownership-eq r s h k = ground arith

pub stored-IsKeyed : (r : OwnershipRecord) (s : StateDb) → IsKeyed s → IsKeyed (stored r s)
unfolding stored
stored-IsKeyed r s h a o r' e =
    ground (arith, get-insert (a, o) (r.asset_id, r.owner) r s.ownership, h a o r')

pub total_held-stored :
    (asset : ℕ) (r : OwnershipRecord) (s : StateDb)
    → IsKeyed s
    → total_held asset (stored r s) + (if r.asset_id == asset then old_total r s else 0)
      ≡ total_held asset s + held_of asset r
unfolding total_held stored
total_held-stored asset r s h =
    let change = sum_by-insert (held_of asset) (r.asset_id, r.owner) r s.ownership in
    elim (Option-cases (get (r.asset_id, r.owner) s.ownership)) [
      | inl new ↦ ground (arith, change)
      | inr (old, e) ↦ ground (arith, change, h r.asset_id r.owner old e)
    ]

pub holder_count-stored :
    (asset : ℕ) (r : OwnershipRecord) (s : StateDb)
    → IsKeyed s
    → holder_count asset (stored r s)
        + (if r.asset_id == asset && not (is_zero (old_total r s)) then 1 else 0)
      ≡ holder_count asset s + holds asset r
unfolding holder_count stored
holder_count-stored asset r s h =
    let change = sum_by-insert (holds asset) (r.asset_id, r.owner) r s.ownership in
    elim (Option-cases (get (r.asset_id, r.owner) s.ownership)) [
      | inl new ↦ ground (arith, change)
      | inr (old, e) ↦ ground (arith, change, h r.asset_id r.owner old e)
    ]

-- The holder index is exact: it counts the records that hold some of the asset.
abbrev pub IsExact : StateDb → Type 0
IsExact s = (asset : ℕ) → asset_holder_count asset s ≡ holder_count asset s

get_or-update_holders :
    (asset k : ℕ) (was_holder is_holder : Bool) (m : Map ℕ ℕ)
    → get_or (get asset (update_holders k was_holder is_holder m)) 0 ≡ (
        if asset == k
        then count_holder was_holder is_holder (get_or (get k m) 0)
        else get_or (get asset m) 0)
get_or-update_holders asset k false false m = ground arith
get_or-update_holders asset k false true m = rw get-insert (ground arith)
get_or-update_holders asset k true false m = rw get-insert (ground arith)
get_or-update_holders asset k true true m = ground arith

asset_holder_count-stored :
    (asset : ℕ) (r : OwnershipRecord) (s : StateDb)
    → asset_holder_count asset (stored r s) ≡ (
        if asset == r.asset_id
        then count_holder
            (not (is_zero (old_total r s)))
            (not (is_zero (total_of r)))
            (asset_holder_count r.asset_id s)
        else asset_holder_count asset s)
unfolding asset_holder_count stored
asset_holder_count-stored asset r s =
    get_or-update_holders asset r.asset_id (not (is_zero (old_total r s)))
      (not (is_zero (total_of r))) s.asset_holder_count

-- Writing a record keeps the index exact, while there are fewer than 2^32 - 1 holders.
pub stored-IsExact :
    (r : OwnershipRecord) (s : StateDb)
    → IsKeyed s
    → ((asset : ℕ) → holder_count asset s + 1 < 0x100000000)
    → IsExact s
    → IsExact (stored r s)
stored-IsExact r s k few h asset = ground (
  arith,
  few asset,
  h asset,
  h r.asset_id,
  asset_holder_count-stored asset r s,
  holder_count-stored asset r s k,
)
