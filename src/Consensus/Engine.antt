-- ===== src/Consensus/Engine.antt =====
-- crates/vtt-consensus/src/engine.rs, with the block header of crates/vtt-primitives/src/block.rs
-- and the double-sign evidence of crates/vtt-consensus/src/slashing.rs.
pub mod Header
pub mod Election
mod Tests
use vtt.Prelude.{
  ℕ, ◌+◌, ◌*◌, ◌/◌, ◌%◌, List, [], ◌∷◌, Bool, true, false, not, ◌&&◌, ◌||◌, Option, none, some, ltb,
  leb, ◌==◌, if◌then◌else◌, take, u64_mod,
}
use vtt.Prelude.Keys.{nat_key, bytes_test}
use vtt.Prelude.Map.{Map}
use vtt.Prelude.Outcome.{Outcome, ok, err, panic, ◌>>=◌, ◌>>◌, reject_if, ok_or}
use vtt.Primitives.Amount.{Amount}
use vtt.State.Account.{AccountState, StakingState}
use vtt.State.Db.{StateDb}
use vtt.Consensus.Validators.{
  ConsensusParams, ValidatorInfo, ValidatorSet, slot_leader, find_validator, has_validator,
}

-- `enum ConsensusError`
pub data ConsensusError : Type 0 where
  wrong_block_producer wrong_parent_hash wrong_block_number : ℕ → ℕ → ConsensusError
  invalid_timestamp : ℕ → ℕ → ConsensusError
  invalid_signature empty_validator_set invalid_evidence : ConsensusError
  validator_not_in_set : ℕ → ConsensusError

-- `struct BlockHeader`
pub record BlockHeader : Type 0 where
  pub version : ℕ
  pub chain_id : ℕ
  pub number : ℕ
  pub parent_hash : ℕ
  pub transactions_root : ℕ
  pub state_root : ℕ
  pub receipts_root : ℕ
  pub validator : ℕ
  pub epoch : ℕ
  pub slot : ℕ
  pub timestamp : ℕ
  pub gas_limit : ℕ
  pub gas_used : ℕ
  pub cross_chain_root : Option ℕ
  pub signature : ℕ

-- What the crate takes from others: BLAKE3, the borsh encoding of a header and the check of a
-- signature under a public key.
pub record Crypto : Type 0 where
  pub blake3_hash : List ℕ → ℕ
  pub header_to_vec : BlockHeader → List ℕ
  pub verify : List ℕ → ℕ → ℕ → Bool

-- A quotient or a remainder by 0 panics.
abbrev pub nonzero : {A : Type 0} → ℕ → A → Outcome ConsensusError A
nonzero divisor result = if divisor == 0 then panic else ok result

-- `epoch_for_block`
unfoldable pub epoch_for_block : ConsensusParams → ℕ → Outcome ConsensusError ℕ
epoch_for_block params block_number =
    if block_number == 0
    then ok 0
    else nonzero params.epoch_length (block_number / params.epoch_length)

-- `epoch_start_block`
unfoldable pub epoch_start_block : ConsensusParams → ℕ → ℕ
epoch_start_block params epoch = epoch * params.epoch_length % u64_mod

-- `slot_for_block`, cast to `u32`.
unfoldable pub slot_for_block : ConsensusParams → ℕ → Outcome ConsensusError ℕ
slot_for_block params block_number =
    nonzero params.epoch_length (block_number % params.epoch_length % 0x100000000)

-- `block_producer`
unfoldable pub block_producer :
    ConsensusParams → ValidatorSet → ℕ → Outcome ConsensusError ValidatorInfo
block_producer params set block_number = slot_for_block params block_number >>= λ slot.
    ok_or (slot_leader set slot) ConsensusError.empty_validator_set

-- A candidate of `elect_validators`, of an account that stakes enough itself.
unfoldable pub candidate : ConsensusParams → ℕ → Option StakingState → List ValidatorInfo
candidate params address none = []
candidate params address (some staking) =
    if ltb staking.self_stake params.min_self_stake
    then []
    else (record {
      address = address;
      public_key = none;
      total_stake = staking.total_stake;
      self_stake = staking.self_stake;
      commission_bps = staking.commission_bps;
    }
        ∷ [])

unfoldable pub candidates : ConsensusParams → Map ℕ AccountState → List ValidatorInfo
unfolding candidate
candidates params [] = []
candidates params ((address, account) ∷ accounts) =
    elim (candidate params address account.staking) [
      | [] ↦ candidates params accounts
      | v ∷ _ ↦ v ∷ candidates params accounts
    ]

-- The comparison of `elect_validators` does not put `a` after `b`.
unfoldable pub ranks_before : ValidatorInfo → ValidatorInfo → Bool
ranks_before a b =
    ltb b.total_stake a.total_stake || (a.total_stake == b.total_stake && leb a.address b.address)

-- `sort_by`, a stable sort.
unfoldable pub insert_ranked : ValidatorInfo → List ValidatorInfo → List ValidatorInfo
insert_ranked v [] = v ∷ []
insert_ranked v (w ∷ ws) = if ranks_before v w then v ∷ w ∷ ws else w ∷ insert_ranked v ws

unfoldable pub sort_ranked : List ValidatorInfo → List ValidatorInfo
sort_ranked [] = []
sort_ranked (v ∷ vs) = insert_ranked v (sort_ranked vs)

-- `elect_validators`
unfoldable pub elect_validators : ConsensusParams → StateDb → ℕ → ValidatorSet
elect_validators params state epoch = record {
  epoch = epoch;
  validators = take params.active_validators (sort_ranked (candidates params state.accounts));
}

module _ (crypto : Crypto) (params : ConsensusParams) where
  -- `BlockHeader::signable_bytes`
  unfoldable pub signable_bytes : BlockHeader → List ℕ
  signable_bytes header = crypto.header_to_vec (record header { signature = 0 })

  -- Whether the signature of a header is good, where the validator has a public key.
  unfoldable pub is_signed : Option ℕ → BlockHeader → Bool
  unfolding signable_bytes
  is_signed none header = true
  is_signed (some pubkey) header = crypto.verify (signable_bytes header) header.signature pubkey

  -- `verify_header`
  unfoldable pub verify_header :
      BlockHeader → BlockHeader → ValidatorSet → Outcome ConsensusError (Unit {0})
  verify_header header parent set = do
    let next = (parent.number + 1) % u64_mod
    reject_if (not (header.number == next)) (ConsensusError.wrong_block_number next header.number)
    let parent_hash = crypto.blake3_hash (signable_bytes parent)
    reject_if (not (header.parent_hash == parent_hash))
        (ConsensusError.wrong_parent_hash parent_hash header.parent_hash)
    reject_if (leb header.timestamp parent.timestamp)
        (ConsensusError.invalid_timestamp header.timestamp parent.timestamp)
    producer ← block_producer params set header.number
    reject_if (not (header.validator == producer.address))
        (ConsensusError.wrong_block_producer producer.address header.validator)
    expected_epoch ← epoch_for_block params header.number
    expected_slot ← slot_for_block params header.number
    reject_if (not (header.epoch == expected_epoch))
        (ConsensusError.wrong_block_number expected_epoch header.epoch)
    reject_if (not (header.slot == expected_slot))
        (ConsensusError.wrong_block_number expected_slot header.slot)
    reject_if (not (is_signed producer.public_key header)) ConsensusError.invalid_signature

  -- `DoubleSignEvidence::is_valid`
  unfoldable pub is_valid_evidence : BlockHeader → BlockHeader → Bool
  is_valid_evidence a b =
      a.validator == b.validator
      && a.epoch == b.epoch
      && a.slot == b.slot
      && not (bytes_test (signable_bytes a) (signable_bytes b))

  -- The key under which both signatures of the evidence are checked.
  unfoldable pub key_of : Option ValidatorInfo → Option ℕ
  key_of none = none
  key_of (some v) = v.public_key

  -- `verify_double_sign`
  unfoldable pub verify_double_sign :
      BlockHeader → BlockHeader → ValidatorSet → Outcome ConsensusError ℕ
  verify_double_sign a b set = do
    reject_if (not (is_valid_evidence a b)) ConsensusError.invalid_evidence
    let offender = a.validator
    reject_if (not (has_validator offender set.validators))
        (ConsensusError.validator_not_in_set offender)
    let pubkey = key_of (find_validator offender set.validators)
    reject_if (not (is_signed pubkey a)) ConsensusError.invalid_signature
    reject_if (not (is_signed pubkey b)) ConsensusError.invalid_signature
    ok offender
