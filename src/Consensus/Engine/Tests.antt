-- ===== src/Consensus/Engine/Tests.antt =====
-- The theorems on crates/vtt-consensus/src/engine.rs at two validators and two headers.
use vtt.Prelude.{
  ℕ, ◌≡◌, ◌≢◌, ◌↔◌, refl, List, [], ◌∷◌, ◌++◌, true, Option, none, some, arith, length, min, ◌==◌,
}
use vtt.Prelude.Outcome.{ok}
use vtt.State.Account.{AccountState, default_account}
use vtt.State.Db.{empty_db, StateDb}
use vtt.Consensus.Validators.{
  ConsensusParams, ValidatorInfo, ValidatorSet, default_params, slot_leader, find_validator,
  has_validator,
}
use vtt.Consensus.Engine.{
  BlockHeader, Crypto, signable_bytes, is_signed, verify_header, is_valid_evidence, key_of,
  verify_double_sign, elect_validators, candidates,
}
use vtt.Consensus.Engine.Header.{IsAccepted, verify_header_iff, verify_double_sign-ok}
use vtt.Consensus.Engine.Election.{IsRanked, IsReordered, AllEligible, elect_validators-IsRanked}

-- A hash that adds up, the fields that differ here as bytes, and a signature that is the key.
abbrev simple : Crypto
simple = record {
  blake3_hash = length;
  header_to_vec = λ h. h.number ∷ h.state_root ∷ h.signature ∷ [];
  verify = λ bytes signature pubkey. signature == pubkey;
}

abbrev genesis : BlockHeader
genesis = record {
  version = 1;
  chain_id = 0;
  number = 0;
  parent_hash = 0;
  transactions_root = 0;
  state_root = 0;
  receipts_root = 0;
  validator = 0;
  epoch = 0;
  slot = 0;
  timestamp = 10;
  gas_limit = 0;
  gas_used = 0;
  cross_chain_root = none;
  signature = 0;
}

abbrev first_block : BlockHeader
first_block = record genesis {
  number = 1;
  parent_hash = 3;
  validator = 22;
  slot = 1;
  timestamp = 20;
  signature = 5;
}

abbrev staked : ℕ → ℕ → AccountState
staked total own = record default_account {
  staking = some (record {
    total_stake = total;
    self_stake = own;
    commission_bps = 0;
    active = true;
    delegations = [];
    unbonding = [];
  });
}

abbrev info : ℕ → Option ℕ → ℕ → ValidatorInfo
info address key stake = record {
  address = address;
  public_key = key;
  total_stake = stake;
  self_stake = stake;
  commission_bps = 0;
}

abbrev pair : ValidatorSet
pair = record { epoch = 0; validators = info 11 none 9 ∷ info 22 (some 5) 7 ∷ [] }

abbrev short_params : ConsensusParams
short_params = record default_params {
  epoch_length = 10;
  active_validators = 1;
  min_self_stake = 5;
}

verify_header_iff_example :
    (verify_header simple short_params first_block genesis pair ≡ ok tt)
    ↔ IsAccepted simple short_params first_block genesis pair
verify_header_iff_example =
    verify_header_iff simple short_params first_block genesis pair (omega arith)

first_block-IsAccepted : IsAccepted simple short_params first_block genesis pair
unfolding signable_bytes slot_leader is_signed
first_block-IsAccepted = record {
  number = refl;
  linked = refl;
  later = omega arith;
  epoch = refl;
  slot = refl;
  leader = info 22 (some 5) 7;
  leads = refl;
  producer = refl;
  signed = refl;
}

-- A good header is accepted.
first_block_passes : verify_header simple short_params first_block genesis pair ≡ ok tt
first_block_passes = verify_header_iff_example.1 first_block-IsAccepted

abbrev forked : BlockHeader
forked = record first_block { state_root = 1 }

convicted : verify_double_sign simple short_params first_block forked pair ≡ ok 22
unfolding verify_double_sign is_valid_evidence has_validator find_validator key_of is_signed
convicted = refl

verify_double_sign-ok_example :
    (first_block.validator ≡ 22)
    × (forked.validator ≡ 22)
    × (first_block.epoch ≡ forked.epoch)
    × (first_block.slot ≡ forked.slot)
    × (signable_bytes simple short_params first_block ≢ signable_bytes simple short_params forked)
    × (has_validator 22 pair.validators ≡ true)
    × (let key = key_of simple short_params (find_validator 22 pair.validators) in
        (is_signed simple short_params key first_block ≡ true)
        × (is_signed simple short_params key forked ≡ true))
verify_double_sign-ok_example =
    verify_double_sign-ok simple short_params first_block forked pair convicted

abbrev electorate : StateDb
electorate = record empty_db {
  accounts = (11, staked 7 7) ∷ (22, staked 9 6) ∷ (33, staked 99 1) ∷ [];
  stakers = 11 ∷ 22 ∷ 33 ∷ [];
}

elect_validators-IsRanked_example :
    let elected = (elect_validators short_params electorate 1).validators in
    (others : List ValidatorInfo) × IsRanked (elected ++ others)
    × IsReordered (elected ++ others) (candidates short_params electorate.accounts)
    × (length elected ≡ min 1 (length (elected ++ others)))
    × AllEligible short_params elected
elect_validators-IsRanked_example = elect_validators-IsRanked short_params electorate 1
