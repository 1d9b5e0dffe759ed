-- ===== src/State/Tests.antt =====
-- The theorems on crates/vtt-state at a small database: two funded accounts, and one active asset
-- with two owners.
use vtt.Prelude.{
  ℕ, ◌/◌, ◌≤◌, ◌<◌, ◌≡◌, length, some, refl, [], ◌∷◌, true, false, none, arith, u128_mod, ◌==◌,
  if◌then◌else◌,
}
use vtt.Prelude.Keys.{nat_key, pair_key}
use vtt.Prelude.Map.{get, sum_by}
use vtt.Prelude.Outcome.{ok}
use vtt.Prelude.Sets.{contains, count, IsNodup}
use vtt.State.Oracle.{OracleFeed, OracleFeedType, submit, submitted, without_source, values_of}
use vtt.State.Oracle.Median.{below, at_most, sources_of, value_from, submit_takes_median}
use vtt.State.Staking.{process_unbonding}
use vtt.State.Value.{unbonding_sum, account_value, total_value}
use vtt.State.Release.{matured_all, released, process_unbonding-conserves}
use vtt.State.Account.{with_balance}
use vtt.State.Asset.{AssetClass, AssetStatus, TransferMode, AssetRecord, OwnershipRecord}
use vtt.State.Db.{
  empty_db, StateDb, StateError, get_account, get_balance, asset_holder_count, transfer_asset,
  get_ownership, asset_tradeable,
}
use vtt.State.Balances.{total_balance}
use vtt.State.Transfers.{total_held, holder_count, IsKeyed, IsExact}
use vtt.State.Assets.{available, transfer_asset-conserves}
use vtt.State.Holders.{transfer_asset-IsExact}

abbrev gold : AssetRecord
gold = record {
  id = 7;
  name = [];
  symbol = [];
  class = AssetClass.commodity;
  origin_chain = 0;
  issuer = 1;
  total_supply = 50;
  decimals = 0;
  status = AssetStatus.active;
  compliance_policy = none;
  valuation_oracle = none;
  documents = [];
  metadata_uri = [];
  jurisdiction = [];
  legal_entity = [];
  transfer_mode = TransferMode.peer_to_peer;
  registrar = none;
  redemption_pool = 0;
  requires_kyc = false;
  created_at = 0;
}

abbrev holding : ℕ → ℕ → ℕ → OwnershipRecord
holding owner available locked = record {
  asset_id = 7;
  owner = owner;
  available = available;
  locked = locked;
}

abbrev town : StateDb
town = record empty_db {
  accounts = (1, with_balance 100) ∷ (2, with_balance 20) ∷ [];
  assets = (7, gold) ∷ [];
  ownership = ((7, 1), holding 1 40 0) ∷ ((7, 2), holding 2 5 5) ∷ [];
  asset_holder_count = (7, 2) ∷ [];
}

town_fits : total_balance town < u128_mod
unfolding total_balance sum_by
town_fits = ground arith

town_balances : (get_balance 1 town ≡ 100) × (get_balance 2 town ≡ 20)
unfolding get_balance get_account get
town_balances = (refl, refl)

town-IsKeyed : IsKeyed town
unfolding get
town-IsKeyed a o r e = ground arith

town_held : total_held 7 town < u128_mod
unfolding total_held sum_by
town_held = ground arith

town-holder_count : (a : ℕ) → holder_count a town ≡ (if a == 7 then 2 else 0)
unfolding holder_count sum_by
town-holder_count a = ground arith

town-IsExact : IsExact town
unfolding asset_holder_count get
town-IsExact a = ground (arith, town-holder_count a)

town_available : (available 7 1 town ≡ 40) × (asset_tradeable (get 7 town.assets) ≡ true)
unfolding get_ownership get
town_available = (refl, refl)

transfer_asset-conserves_example : total_held 7 (transfer_asset 7 1 2 15 town).1 ≡ total_held 7 town
transfer_asset-conserves_example = transfer_asset-conserves 7 7 1 2 15 town town-IsKeyed town_held

transfer_asset-IsExact_example : IsExact (transfer_asset 7 1 2 40 town).1
transfer_asset-IsExact_example =
    transfer_asset-IsExact 7 1 2 40 town town-IsKeyed town_held
      (λ a. ground (arith, town-holder_count a)) town-IsExact

abbrev waiting : StateDb
waiting = record town {
  unbonding_entries =
      (
        2,
        record { amount = 9; completion_time = 50; validator = 1 }
            ∷ record { amount = 4; completion_time = 90; validator = 1 }
            ∷ [],
      )
      ∷ [];
}

waiting_fits : total_value waiting < u128_mod
unfolding total_value account_value unbonding_sum sum_by
waiting_fits = ground arith

process_unbonding-conserves_example :
    (process_unbonding {E = StateError} 60 waiting
      ≡ ok (matured_all 60 waiting.unbonding_entries, released 60 waiting))
    × (total_value (released 60 waiting) ≡ total_value waiting)
process_unbonding-conserves_example =
    process_unbonding-conserves {E = StateError} 60 waiting waiting_fits

abbrev feed : OracleFeed
feed = record {
  feed_id = 1;
  name = [];
  feed_type = OracleFeedType.market_price [];
  authorized_sources = 5 ∷ 6 ∷ 7 ∷ [];
  quorum = 3;
  max_staleness_ms = 0;
  latest_value = none;
  decimals = 2;
  updated_at = 0;
  pending_submissions =
      record { source = 5; value = 100; timestamp = 1 }
      ∷ record { source = 6; value = 900; timestamp = 2 }
      ∷ [];
  created_at = 0;
}

submit_takes_median_example :
    let ss = submitted 7 102 3 feed.pending_submissions in
    (v : ℕ) × (feed' : OracleFeed) × (submit 7 102 3 feed ≡ (true, feed'))
    × (feed'.latest_value ≡ some v)
    × (feed'.pending_submissions ≡ [])
    × IsNodup (sources_of ss)
    × ((who : ℕ)
        → value_from who ss
          ≡ (if 7 == who then some 102 else value_from who feed.pending_submissions))
    × (count (below v) (values_of ss) ≤ length ss / 2)
    × (length ss / 2 < count (at_most v) (values_of ss))
unfolding contains submitted without_source sources_of
submit_takes_median_example = submit_takes_median 7 102 3 feed refl (refl, (refl, tt)) (omega arith)
