-- ===== src/State/Params.antt =====
-- crates/vtt-state/src/statedb.rs: the chain parameters that the ChainMeta column keeps, the oracle
-- feeds, the proposals of asset holders and the counters of the supply.
use vtt.Prelude.{
  ℕ, ◌+◌, ◌*◌, List, [], ◌∷◌, ◌++◌, Bool, not, ◌||◌, none, some, ltb, ◌==◌, if◌then◌else◌, u64_mod,
}
use vtt.Prelude.Keys.{nat_key, pair_key}
use vtt.Prelude.Sets.{contains, set_insert}
use vtt.Prelude.Map.{Map, get, insert, remove, get_or, is_some}
use vtt.Prelude.Outcome.{ok, err}
use vtt.Prelude.Action.{Action}
use vtt.Primitives.{Text}
use vtt.Primitives.Amount.{Amount}
use vtt.Primitives.AssetGovernance.{AssetProposal}
use vtt.State.Asset.{AssetRecord, OwnershipRecord}
use vtt.State.Oracle.{OracleFeed, is_authorized, submit}
use vtt.State.Db.{StateDb, StateError, serialization}

-- `StateDB::effective_unbonding_period_ms`, a saturating `u64`.
unfoldable pub effective_unbonding_period_ms : ℕ → StateDb → ℕ
effective_unbonding_period_ms fallback_secs s =
    let ms = get_or s.params.unbonding_period_secs fallback_secs * 1_000 in
    if ltb ms u64_mod then ms else 0xffffffffffffffff

-- `StateDB::bridge_deposit_processed`: by the key of the chain and the transaction, or by the
-- older key of the transaction alone.
unfoldable pub bridge_deposit_processed : ℕ → ℕ → StateDb → Bool
bridge_deposit_processed source_chain source_tx_hash s =
    contains (source_chain, source_tx_hash) s.params.bridge_processed
    || contains source_tx_hash s.params.bridge_processed_legacy

-- `StateDB::mark_bridge_deposit_processed`
unfoldable pub mark_bridge_deposit_processed : ℕ → ℕ → StateDb → StateDb
mark_bridge_deposit_processed source_chain source_tx_hash s = record s {
  params = record s.params {
    bridge_processed = set_insert (source_chain, source_tx_hash) s.params.bridge_processed;
  };
}

-- `StateDB::set_address_jurisdiction`; an empty country clears it.
abbrev pub put_country : ℕ → Text → Map ℕ Text → Map ℕ Text
put_country address [] m = remove address m
put_country address (c ∷ country) m = insert address (c ∷ country) m

abbrev pub set_address_jurisdiction : ℕ → Text → StateDb → StateDb
set_address_jurisdiction address country s = record s {
  params = record s.params {
    address_jurisdiction = put_country address country s.params.address_jurisdiction;
  };
}

-- `StateDB::register_oracle`
unfoldable pub register_oracle : OracleFeed → Action StateDb StateError (Unit {0})
register_oracle feed s =
    if is_some (get feed.feed_id s.oracles)
    then (err serialization, s)
    else (ok tt, record s { oracles = insert feed.feed_id feed s.oracles })

-- `StateDB::submit_oracle`, with whether the quorum was reached.
unfoldable pub submit_oracle : ℕ → ℕ → Amount → ℕ → Action StateDb StateError Bool
submit_oracle feed_id source value timestamp s = elim (get feed_id s.oracles) [
  | none ↦ (err serialization, s)
  | some feed ↦
      let (reached, feed') = submit source value timestamp feed in
      if not (is_authorized source feed)
      then (err serialization, s)
      else (ok reached, record s { oracles = insert feed_id feed' s.oracles })
]

-- `StateDB::put_asset_proposal`
abbrev pub put_asset_proposal : AssetProposal → StateDb → StateDb
put_asset_proposal proposal s = record s {
  asset_proposals = insert proposal.id proposal s.asset_proposals;
}

-- `StateDB::put_asset`, and a write through `get_asset_mut`.
abbrev pub put_asset : ℕ → AssetRecord → StateDb → StateDb
put_asset asset_id asset s = record s {
  dirty_assets = s.dirty_assets ++ asset_id ∷ [];
  assets = insert asset_id asset s.assets;
}

-- `StateDB::iter_ownership_for_asset`
unfoldable pub ownership_for_asset : ℕ → Map (ℕ × ℕ) OwnershipRecord → List OwnershipRecord
ownership_for_asset asset_id [] = []
ownership_for_asset asset_id (((id, owner), r) ∷ m) =
    if id == asset_id then r ∷ ownership_for_asset asset_id m else ownership_for_asset asset_id m

-- A saturating `u64` counter, as `record_mint_milli` and `record_burn_milli` keep.
abbrev pub saturating_add_u64 : ℕ → ℕ → ℕ
saturating_add_u64 a b = if ltb (a + b) u64_mod then a + b else 0xffffffffffffffff

abbrev pub record_mint_milli : ℕ → StateDb → StateDb
record_mint_milli milli s = record s {
  total_minted_milli = saturating_add_u64 s.total_minted_milli milli;
}

abbrev pub record_burn_milli : ℕ → StateDb → StateDb
record_burn_milli milli s = record s {
  total_burned_milli = saturating_add_u64 s.total_burned_milli milli;
}
