-- ===== src/State/Db.antt =====
-- crates/vtt-state/src/statedb.rs: the accounts, assets, ownership records and pools of `StateDB`,
-- without a storage backend (`storage` is `None`), where every read is served by the maps.
use vtt.Prelude.{
  ℕ, ◌+◌, List, [], ◌∷◌, ◌++◌, Bool, false, not, Option, none, some, ltb, u64_mod, ◌%◌,
  if◌then◌else◌, checked_add, checked_sub, saturating_sub,
}
use vtt.Prelude.Keys.{nat_key, pair_key}
use vtt.Prelude.Sets.{set_insert, set_remove}
use vtt.Prelude.Map.{Map, get, insert, get_or, is_some}
use vtt.Prelude.Outcome.{Outcome, ok, err}
use vtt.Prelude.Action.{Action, ◌>>=◌, ◌>>◌, pure, lift, reject_if, gets, modify}
use vtt.Primitives.{Text, zero_address}
use vtt.Primitives.Amount.{Amount, is_zero}
use vtt.Primitives.AssetGovernance.{AssetProposal}
use vtt.State.Oracle.{OracleFeed}
use vtt.State.Account.{AccountState, StakingState, UnbondingEntry, default_account}
use vtt.State.Asset.{
  AssetRecord, OwnershipRecord, is_tradeable, new_ownership, total, credit, debit,
}

-- `enum StateError`, less the text of a `Serialization` error.
pub data StateError : Type 0 where
  insufficient_balance : Amount → Amount → StateError
  account_not_found : ℕ → StateError
  nonce_mismatch : ℕ → ℕ → StateError
  serialization : StateError

-- The chain parameters that the ChainMeta column of the storage keeps under their own keys, decoded.
-- Without a storage backend they are the defaults.
pub record ChainParams : Type 0 where
  pub min_gas_price : Option Amount
  pub unbonding_period_secs : Option ℕ
  pub max_holders_per_asset : ℕ
  pub jurisdiction_whitelist : List Text
  pub jurisdiction_blacklist : List Text
  pub address_jurisdiction : Map ℕ Text
  pub bridge_paused : Bool
  pub bridge_relayer : ℕ
  pub bridge_processed : List (ℕ × ℕ)
  pub bridge_processed_legacy : List ℕ

-- `struct StateDB`, the fields that the modelled operations read or write.
pub record StateDb : Type 0 where
  pub accounts : Map ℕ AccountState
  pub assets : Map ℕ AssetRecord
  pub ownership : Map (ℕ × ℕ) OwnershipRecord
  pub oracles : Map ℕ OracleFeed
  pub pools : Map ℕ (List ℕ)
  pub asset_proposals : Map ℕ AssetProposal
  pub mining_states : Map ℕ (List ℕ)
  pub unbonding_entries : Map ℕ (List UnbondingEntry)
  pub slashing_seen : List (ℕ × ℕ × ℕ)
  pub kyc_approved : List ℕ
  pub missed_slots : Map (ℕ × ℕ) ℕ
  pub stakers : List ℕ
  pub asset_holder_count : Map ℕ ℕ
  pub treasury_address : ℕ
  pub epoch_length : ℕ
  pub dex_paused : Bool
  pub total_minted_milli : ℕ
  pub total_burned_milli : ℕ
  pub dirty : List ℕ
  pub dirty_assets : List ℕ
  pub dirty_pools : List ℕ
  pub params : ChainParams

abbrev pub default_chain_params : ChainParams
default_chain_params = record {
  min_gas_price = none;
  unbonding_period_secs = none;
  max_holders_per_asset = 0;
  jurisdiction_whitelist = [];
  jurisdiction_blacklist = [];
  address_jurisdiction = [];
  bridge_paused = false;
  bridge_relayer = zero_address;
  bridge_processed = [];
  bridge_processed_legacy = [];
}

-- `StateDB::new`
abbrev pub empty_db : StateDb
empty_db = record {
  accounts = [];
  assets = [];
  ownership = [];
  oracles = [];
  pools = [];
  asset_proposals = [];
  mining_states = [];
  unbonding_entries = [];
  slashing_seen = [];
  kyc_approved = [];
  missed_slots = [];
  stakers = [];
  asset_holder_count = [];
  treasury_address = zero_address;
  epoch_length = 1200;
  dex_paused = false;
  total_minted_milli = 0;
  total_burned_milli = 0;
  dirty = [];
  dirty_assets = [];
  dirty_pools = [];
  params = default_chain_params;
}

-- `StateDB::get_account`
unfoldable pub get_account : ℕ → StateDb → AccountState
get_account address s = get_or (get address s.accounts) default_account

abbrev pub has_stake : Option StakingState → Bool
has_stake none = false
has_stake (some s) = not (is_zero s.self_stake)

-- `StateDB::put_account`
unfoldable pub put_account : ℕ → AccountState → StateDb → StateDb
put_account address state s = record s {
  dirty = s.dirty ++ address ∷ [];
  stakers =
      if has_stake state.staking
      then set_insert address s.stakers
      else set_remove address s.stakers;
  accounts = insert address state s.accounts;
}

-- `StateDB::get_balance`
unfoldable pub get_balance : ℕ → StateDb → Amount
get_balance address s = (get_account address s).balance

-- `StateDB::add_balance`
unfoldable pub add_balance : ℕ → Amount → Action StateDb StateError (Unit {0})
add_balance address amount s =
    let account = get_account address s in
    elim (checked_add account.balance amount) [
      | none ↦ (err serialization, s)
      | some b ↦ (ok tt, put_account address (record account { balance = b }) s)
    ]

-- `StateDB::sub_balance`
unfoldable pub sub_balance : ℕ → Amount → Action StateDb StateError (Unit {0})
sub_balance address amount s =
    let account = get_account address s in
    elim (checked_sub account.balance amount) [
      | none ↦ (err (insufficient_balance account.balance amount), s)
      | some b ↦ (ok tt, put_account address (record account { balance = b }) s)
    ]

-- `StateDB::transfer`
unfoldable pub transfer : ℕ → ℕ → Amount → Action StateDb StateError (Unit {0})
transfer from to amount =
    if is_zero amount then pure tt else (sub_balance from amount >> add_balance to amount)

-- `StateDB::increment_nonce`, a `u64`, with the old nonce.
unfoldable pub increment_nonce : ℕ → StateDb → ℕ × StateDb
increment_nonce address s =
    let account = get_account address s in
    (
      account.nonce,
      put_account address (record account { nonce = (account.nonce + 1) % u64_mod }) s,
    )

-- `StateDB::register_asset`
unfoldable pub register_asset : AssetRecord → Action StateDb StateError (Unit {0})
register_asset asset s = if is_some (get asset.id s.assets) then (err serialization, s) else (
  ok tt,
  record s {
    dirty_assets = s.dirty_assets ++ asset.id ∷ [];
    assets = insert asset.id asset s.assets;
  },
)

-- `StateDB::get_ownership`
unfoldable pub get_ownership : ℕ → ℕ → StateDb → OwnershipRecord
get_ownership asset_id owner s =
    get_or (get (asset_id, owner) s.ownership) (new_ownership asset_id owner)

-- The holder index after the total of one owner went from `prev` to `new`; a `u32`, saturating.
abbrev pub count_holder : Bool → Bool → ℕ → ℕ
count_holder was_holder is_holder n =
    if is_holder
    then (if was_holder then n else (if ltb (n + 1) 0x100000000 then n + 1 else 0xffffffff))
    else (if was_holder then saturating_sub n 1 else n)

-- `was_holder != is_holder`
abbrev pub differ : Bool → Bool → Bool
differ a b = if a then not b else b

abbrev pub update_holders : ℕ → Bool → Bool → Map ℕ ℕ → Map ℕ ℕ
update_holders asset_id was_holder is_holder m =
    if differ was_holder is_holder
    then insert asset_id (count_holder was_holder is_holder (get_or (get asset_id m) 0)) m
    else m

-- `prev_total` of `put_ownership`.
abbrev pub total_or_zero : Option OwnershipRecord → Outcome StateError Amount
total_or_zero none = ok 0
total_or_zero (some r) = total r

-- `StateDB::put_ownership`
unfoldable pub put_ownership : OwnershipRecord → Action StateDb StateError (Unit {0})
put_ownership record_ = do
  let key : ℕ × ℕ = (record_.asset_id, record_.owner)
  modify (λ s. record s { dirty_assets = s.dirty_assets ++ record_.asset_id ∷ [] })
  old ← gets (λ s. get key s.ownership)
  prev_total ← lift (total_or_zero old)
  new_total ← lift (total record_)
  modify (λ s. record s {
    ownership = insert key record_ s.ownership;
    asset_holder_count =
        update_holders record_.asset_id (not (is_zero prev_total)) (not (is_zero new_total))
          s.asset_holder_count;
  })

-- `StateDB::asset_holder_count`
unfoldable pub asset_holder_count : ℕ → StateDb → ℕ
asset_holder_count asset_id s = get_or (get asset_id s.asset_holder_count) 0

abbrev pub asset_tradeable : Option AssetRecord → Bool
asset_tradeable none = false
asset_tradeable (some a) = is_tradeable a

-- `StateDB::transfer_asset`
unfoldable pub transfer_asset : ℕ → ℕ → ℕ → Amount → Action StateDb StateError (Unit {0})
transfer_asset asset_id from to amount = if is_zero amount then pure tt else (do
  tradeable ← gets (λ s. asset_tradeable (get asset_id s.assets))
  reject_if (not tradeable) serialization
  held ← gets (get_ownership asset_id from)
  (from_record, enough) ← lift (debit held amount)
  reject_if (not enough) (insufficient_balance from_record.available amount)
  put_ownership from_record
  held_to ← gets (get_ownership asset_id to)
  to_record ← lift (credit held_to amount)
  put_ownership to_record)

-- `StateDB::get_pool_raw`
unfoldable pub get_pool_raw : ℕ → StateDb → Option (List ℕ)
get_pool_raw pool_id s = get pool_id s.pools

-- `StateDB::put_pool_raw`
unfoldable pub put_pool_raw : ℕ → List ℕ → StateDb → StateDb
put_pool_raw pool_id raw s = record s {
  pools = insert pool_id raw s.pools;
  dirty_pools = s.dirty_pools ++ pool_id ∷ [];
}

-- `StateDB::has_pool`
unfoldable pub has_pool : ℕ → StateDb → Bool
has_pool pool_id s = is_some (get pool_id s.pools)
