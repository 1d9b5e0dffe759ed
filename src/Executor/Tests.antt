-- ===== src/Executor/Tests.antt =====
-- The theorems on the handlers of crates/vtt-executor/src/lib.rs at a small state: a rich account, a
-- validator with one delegator, and assets.
mod Transactions
use vtt.Prelude.{
  ℕ, ◌+◌, ◌*◌, ◌/◌, ◌≡◌, ◌≢◌, ◌≤◌, ◌<◌, ◌⊎◌, refl, List, [], ◌∷◌, ◌++◌, Bool, true, false, none,
  some, arith, u128_mod, leb, ltb, ◌==◌, if◌then◌else◌,
}
use vtt.Prelude.Keys.{nat_key, pair_key}
use vtt.Prelude.Sets.{contains, set_insert, count}
use vtt.Prelude.Map.{get, insert, sum_by}
use vtt.Prelude.Outcome.{Outcome, ok, err}
use vtt.Primitives.{Text, zero_address}
use vtt.Primitives.AssetGovernance.{AssetProposal, AssetProposalAction, AssetProposalStatus}
use vtt.State.Account.{AccountState, StakingState, Delegation, UnbondingEntry, with_balance}
use vtt.State.Asset.{AssetClass, AssetStatus, TransferMode, AssetRecord, OwnershipRecord}
use vtt.State.Db.{
  StateDb, ChainParams, empty_db, default_chain_params, get_account, put_account, add_balance,
  sub_balance, get_ownership, put_ownership,
}
use vtt.State.Params.{bridge_deposit_processed, mark_bridge_deposit_processed}
use vtt.State.Staking.{slash_staking, slash_validator, apply_slash}
use vtt.State.Transfers.{IsKeyed}
use vtt.State.Value.{unbonding_sum, account_value, total_value}
use vtt.Consensus.Governance.{Vote}
use vtt.Consensus.Validators.{default_params}
use vtt.Consensus.Engine.{Crypto, BlockHeader, is_valid_evidence, signable_bytes}
use vtt.Executor.Transactions.{ExecutionError}
use vtt.Executor.Stake.{
  staking_of, find_delegation, set_delegation, drop_zero, delegate, add_stake, execute_stake,
  execute_unstake,
}
use vtt.Executor.Stake.Ledger.{delegated, IsBalanced, IsMoved, execute_stake-conserves}
use vtt.Executor.Stake.Unstake.{IsWaiting, execute_unstake-conserves}
use vtt.Executor.Stake.Slashed.{execute_unstake_panics}
use vtt.Executor.Bridge.{credit_deposit, execute_bridge_deposit}
use vtt.Executor.Bridge.Once.{execute_bridge_deposit-once}
use vtt.Executor.Evidence.{
  DoubleSignEvidence, offender, staked_by, is_seen, execute_submit_slashing_evidence,
}
use vtt.Executor.Evidence.Once.{
  with_signatures, slashed_state, execute_submit_slashing_evidence-unsigned,
}
use vtt.Executor.Redemption.{settle_claim, execute_claim_redemption, execute_distribute_revenue}
use vtt.Executor.Redemption.Vault.{pooled, vault}
use vtt.Executor.Redemption.Settled.{IsPaid}
use vtt.Executor.Redemption.Claims.{IsClaimed, execute_claim_redemption-conserves}
use vtt.Executor.Redemption.Revenue.{holders}
use vtt.Executor.Proposals.{count_vote, execute_vote_asset_proposal}
use vtt.Executor.Proposals.Votes.{votes_cast, execute_vote_asset_proposal-once}
use vtt.Executor.Feeds.{asset_prefix, strip_prefix, execute_create_oracle_feed}
use vtt.Executor.Feeds.Types.{execute_create_oracle_feed-never_values}
use vtt.Executor.Rewards.{distribute_producer_reward}
use vtt.Executor.Rewards.Paid.{distribute_producer_reward-pays}

abbrev pledge : Delegation
pledge = record { delegator = 1; amount = 40 }

abbrev stakes : StakingState
stakes = record {
  total_stake = 100;
  self_stake = 60;
  commission_bps = 1000;
  active = true;
  delegations = pledge ∷ [];
  unbonding = [];
}

abbrev validator : AccountState
validator = record (with_balance 500) { staking = some stakes }

abbrev coin : AssetStatus → AssetRecord
coin status = record {
  id = 7;
  name = [];
  symbol = [];
  class = AssetClass.commodity;
  origin_chain = 0;
  issuer = 1;
  total_supply = 50;
  decimals = 0;
  status = status;
  compliance_policy = none;
  valuation_oracle = none;
  documents = [];
  metadata_uri = [];
  jurisdiction = [];
  legal_entity = [];
  transfer_mode = TransferMode.peer_to_peer;
  registrar = none;
  redemption_pool = 200;
  requires_kyc = false;
  created_at = 0;
}

abbrev holding : ℕ → ℕ → OwnershipRecord
holding owner available = record { asset_id = 7; owner = owner; available = available; locked = 0 }

abbrev plan : AssetProposal
plan = record {
  id = 9;
  asset_id = 7;
  proposer = 1;
  action = AssetProposalAction.signal [];
  description = [];
  created_at = 0;
  voting_end = 10;
  status = AssetProposalStatus.active;
  votes_yes = 0;
  votes_no = 0;
  votes_abstain = 0;
  voters = [];
}

abbrev village : AssetStatus → StateDb
village status = record empty_db {
  accounts = (1, with_balance 1_000) ∷ (2, validator) ∷ [];
  assets = (7, coin status) ∷ [];
  ownership = ((7, 1), holding 1 30) ∷ ((7, 2), holding 2 20) ∷ [];
  asset_holder_count = (7, 2) ∷ [];
  asset_proposals = (9, plan) ∷ [];
  params = record default_chain_params { bridge_relayer = 5 };
}

abbrev trading : StateDb
trading = village AssetStatus.active

abbrev closing : StateDb
closing = village AssetStatus.redemption_pending

abbrev after_stake : StateDb
after_stake = (execute_stake 1 2 50 trading).1

execute_stake-conserves_example :
    ((who : ℕ) → IsMoved who 1 2 50 trading after_stake)
    × (total_value after_stake ≡ total_value trading)
    × ((staking_of 2 after_stake).total_stake ≡ (staking_of 2 trading).total_stake + 50)
    × (IsBalanced (staking_of 2 trading) → IsBalanced (staking_of 2 after_stake))
unfolding execute_stake add_stake delegate find_delegation set_delegation sub_balance put_account
    get_account get insert
execute_stake-conserves_example = execute_stake-conserves 1 2 50 trading {s' = after_stake} refl

execute_unstake-conserves_example :
    ((why : ExecutionError) × (execute_unstake 1 2 15 77 trading ≡ (err why, trading)))
    ⊎ ((s' : StateDb) × (execute_unstake 1 2 15 77 trading ≡ (ok tt, s'))
        × ((who : ℕ) → IsWaiting who 1 2 15 77 trading s')
        × (total_value s' ≡ total_value trading)
        × ((staking_of 2 s').total_stake + 15 ≡ (staking_of 2 trading).total_stake)
        × IsBalanced (staking_of 2 s'))
unfolding get_account get delegated
execute_unstake-conserves_example = execute_unstake-conserves 1 2 15 77 trading refl

abbrev slashed : StateDb
slashed = (apply_slash 2 80 trading).1

execute_unstake_panics_example : execute_unstake 1 2 40 77 slashed ≡ (Outcome.panic, slashed)
unfolding get_account get delegated apply_slash slash_staking put_account slash_validator insert
execute_unstake_panics_example =
    execute_unstake_panics 2 80 77 pledge stakes slashed refl refl (ground arith) (omega arith)
      (omega arith) refl

abbrev deposited : StateDb
deposited = (execute_bridge_deposit 5 88 1 2 0 70 trading).1

execute_bridge_deposit-once_example :
    (trading.params.bridge_paused ≡ false)
    × (5 ≡ trading.params.bridge_relayer)
    × (5 ≢ zero_address)
    × ((other to' token' more : ℕ)
        → execute_bridge_deposit other 88 1 to' token' more deposited
          ≡ (err ExecutionError.custom, deposited))
unfolding execute_bridge_deposit credit_deposit bridge_deposit_processed contains add_balance
    get_account get
execute_bridge_deposit-once_example =
    execute_bridge_deposit-once 5 88 1 2 0 70 trading {s' = deposited} refl

abbrev plain : Crypto
plain = record {
  blake3_hash = λ raw. 9;
  header_to_vec = λ h. h.state_root ∷ h.signature ∷ [];
  verify = λ raw signature key. false;
}

abbrev header : ℕ → BlockHeader
header state_root = record {
  version = 1;
  chain_id = 0;
  number = 1;
  parent_hash = 3;
  transactions_root = 0;
  state_root = state_root;
  receipts_root = 0;
  validator = 2;
  epoch = 4;
  slot = 6;
  timestamp = 20;
  gas_limit = 0;
  gas_used = 0;
  cross_chain_root = none;
  signature = 0;
}

abbrev forged : DoubleSignEvidence
forged = record { header_a = header 10; header_b = header 11 }

-- Other headers for the same slot.
abbrev forged_again : DoubleSignEvidence
forged_again = record { header_a = header 20; header_b = header 21 }

execute_submit_slashing_evidence-unsigned_example :
    (execute_submit_slashing_evidence plain default_params
        (some (with_signatures 8 9 forged))
        trading
      ≡ (ok tt, slashed_state plain default_params forged trading))
    × (execute_submit_slashing_evidence plain default_params
          (some forged_again)
          (slashed_state plain default_params forged trading)
        ≡ (err ExecutionError.custom, slashed_state plain default_params forged trading))
unfolding is_valid_evidence signable_bytes contains get_account get
execute_submit_slashing_evidence-unsigned_example =
    execute_submit_slashing_evidence-unsigned plain default_params forged forged_again 8 9 trading
      refl refl (omega arith) refl refl refl

abbrev redeemed : StateDb
redeemed = (execute_claim_redemption 1 7 closing).1

closing-IsKeyed : IsKeyed closing
unfolding get
closing-IsKeyed asset owner r e = ground arith

execute_claim_redemption-conserves_example :
    let r = get_ownership 7 1 closing in
    (a : AssetRecord) × (get 7 closing.assets ≡ some a)
    × (let held = r.available + r.locked in
        let share = held * a.redemption_pool / a.total_supply in
        (0 < held)
        × ((who : ℕ) → IsPaid who 1 7 share r closing redeemed)
        × IsClaimed 7 held share a closing redeemed)
unfolding execute_claim_redemption settle_claim get_ownership put_ownership add_balance get_account
    put_account get insert
execute_claim_redemption-conserves_example =
    execute_claim_redemption-conserves 1 7 closing {s' = redeemed} closing-IsKeyed refl

abbrev paid_out : StateDb
paid_out = (execute_distribute_revenue 1 7 101 trading).1

abbrev voted : StateDb
voted = (execute_vote_asset_proposal 1 9 Vote.yes 3 trading).1

execute_vote_asset_proposal-once_example :
    (p : AssetProposal) × (p' : AssetProposal) × (get 9 trading.asset_proposals ≡ some p)
    × (get 9 voted.asset_proposals ≡ some p')
    × (p.status ≡ AssetProposalStatus.active)
    × (3 < p.voting_end)
    × (contains 1 p.voters ≡ false)
    × (0 < (get_ownership p.asset_id 1 trading).available)
    × (votes_cast p' ≡ votes_cast p + (get_ownership p.asset_id 1 trading).available)
    × (p'.voters ≡ p.voters ++ 1 ∷ [])
    × ((vote' : Vote) (block' : ℕ)
        → execute_vote_asset_proposal 1 9 vote' block' voted ≡ (err ExecutionError.custom, voted))
unfolding execute_vote_asset_proposal count_vote get_ownership contains get
execute_vote_asset_proposal-once_example =
    execute_vote_asset_proposal-once 1 9 Vote.yes 3 trading {s' = voted} refl

abbrev valuation : Text
valuation = asset_prefix ++ b'7' ∷ b'f' ∷ []

execute_create_oracle_feed-never_values_example :
    execute_create_oracle_feed 0 1 (b'n' ∷ []) valuation (3 ∷ []) 1 0 2 5 trading
    ≡ (err ExecutionError.custom, trading)
unfolding strip_prefix
execute_create_oracle_feed-never_values_example =
    execute_create_oracle_feed-never_values 0 1 (b'n' ∷ []) valuation (b'7' ∷ b'f' ∷ []) (3 ∷ []) 1
      0 2 5 trading refl

trading_fits : account_value trading < 0x1000000000000
unfolding account_value sum_by
trading_fits = ground arith

distribute_producer_reward-pays_example :
    account_value (distribute_producer_reward 2 1_001 trading) ≡ account_value trading + 1_001
unfolding get_account get delegated
distribute_producer_reward-pays_example =
    distribute_producer_reward-pays 2 1_001 stakes trading refl refl (omega arith) (omega arith)
      (omega arith) (omega (arith, trading_fits))
