-- ===== src/State/Snapshot.antt =====
-- `snapshot` and `restore` of crates/vtt-state/src/statedb.rs, without a storage backend.
use vtt.Prelude.{ℕ, List, [], ◌∷◌, ◌++◌, Bool}
use vtt.Prelude.Map.{Map}
use vtt.Primitives.AssetGovernance.{AssetProposal}
use vtt.State.Account.{AccountState, UnbondingEntry}
use vtt.State.Asset.{AssetRecord, OwnershipRecord}
use vtt.State.Oracle.{OracleFeed}
use vtt.State.Db.{StateDb}

-- `struct StateSnapshot`
pub record StateSnapshot : Type 0 where
  pub accounts : Map ℕ AccountState
  pub assets : Map ℕ AssetRecord
  pub ownership : Map (ℕ × ℕ) OwnershipRecord
  pub oracles : Map ℕ OracleFeed
  pub pools : Map ℕ (List ℕ)
  pub asset_proposals : Map ℕ AssetProposal
  pub mining_states : Map ℕ (List ℕ)
  pub unbonding_entries : Map ℕ (List UnbondingEntry)
  pub treasury_address : ℕ
  pub epoch_length : ℕ
  pub dex_paused : Bool
  pub dirty_pools : List ℕ
  pub asset_holder_count : Map ℕ ℕ
  pub slashing_seen : List (ℕ × ℕ × ℕ)
  pub kyc_approved : List ℕ
  pub stakers : List ℕ
  pub total_minted_milli : ℕ
  pub total_burned_milli : ℕ

-- `StateDB::snapshot`
unfoldable pub snapshot : StateDb → StateSnapshot
snapshot s = record {
  accounts = s.accounts;
  assets = s.assets;
  ownership = s.ownership;
  oracles = s.oracles;
  pools = s.pools;
  asset_proposals = s.asset_proposals;
  mining_states = s.mining_states;
  unbonding_entries = s.unbonding_entries;
  treasury_address = s.treasury_address;
  epoch_length = s.epoch_length;
  dex_paused = s.dex_paused;
  dirty_pools = s.dirty_pools;
  asset_holder_count = s.asset_holder_count;
  slashing_seen = s.slashing_seen;
  kyc_approved = s.kyc_approved;
  stakers = s.stakers;
  total_minted_milli = s.total_minted_milli;
  total_burned_milli = s.total_burned_milli;
}

unfoldable pub keys : {V : Type 0} → Map ℕ V → List ℕ
keys [] = []
keys ((k, v) ∷ m) = k ∷ keys m

-- `StateDB::restore`. The missed slots and the chain parameters in the storage are not rolled back.
unfoldable pub restore : StateSnapshot → StateDb → StateDb
unfolding keys
restore snap s = record {
  accounts = snap.accounts;
  assets = snap.assets;
  ownership = snap.ownership;
  oracles = snap.oracles;
  pools = snap.pools;
  asset_proposals = snap.asset_proposals;
  mining_states = snap.mining_states;
  unbonding_entries = snap.unbonding_entries;
  slashing_seen = snap.slashing_seen;
  kyc_approved = snap.kyc_approved;
  missed_slots = s.missed_slots;
  stakers = snap.stakers;
  asset_holder_count = snap.asset_holder_count;
  treasury_address = snap.treasury_address;
  epoch_length = snap.epoch_length;
  dex_paused = snap.dex_paused;
  total_minted_milli = snap.total_minted_milli;
  total_burned_milli = snap.total_burned_milli;
  dirty = s.dirty ++ keys s.accounts ++ keys snap.accounts;
  dirty_assets = s.dirty_assets ++ keys s.assets ++ keys snap.assets;
  dirty_pools = snap.dirty_pools;
  params = s.params;
}
