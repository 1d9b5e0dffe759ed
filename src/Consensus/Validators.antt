-- ===== src/Consensus/Validators.antt =====
-- crates/vtt-consensus/src/validator.rs, and the parameters of crates/vtt-primitives/src/chain.rs.
use vtt.Prelude.{
  ℕ, ◌*◌, ◌%◌, List, [], ◌∷◌, Bool, true, false, Option, none, some, ◌==◌, if◌then◌else◌, length,
  get_elem?,
}
use vtt.Prelude.Outcome.{Outcome, ok, ◌>>=◌}
use vtt.Primitives.{zero_address}
use vtt.Primitives.Amount.{Amount, add, from_vtt}

-- `struct ConsensusParams`
pub record ConsensusParams : Type 0 where
  pub epoch_length : ℕ
  pub block_time_ms : ℕ
  pub active_validators : ℕ
  pub min_self_stake : Amount
  pub unbonding_period_secs : ℕ
  pub slash_double_sign_bps : ℕ
  pub slash_downtime_bps : ℕ
  pub downtime_threshold_pct : ℕ
  pub treasury_address : ℕ

-- `impl Default for ConsensusParams`
abbrev pub default_params : ConsensusParams
default_params = record {
  epoch_length = 1200;
  block_time_ms = 3000;
  active_validators = 21;
  min_self_stake = from_vtt 100_000;
  unbonding_period_secs = 21 * 24 * 3600;
  slash_double_sign_bps = 500;
  slash_downtime_bps = 10;
  downtime_threshold_pct = 50;
  treasury_address = zero_address;
}

-- `struct ValidatorInfo`
pub record ValidatorInfo : Type 0 where
  pub address : ℕ
  pub public_key : Option ℕ
  pub total_stake : Amount
  pub self_stake : Amount
  pub commission_bps : ℕ

-- `struct ValidatorSet`
pub record ValidatorSet : Type 0 where
  pub epoch : ℕ
  pub validators : List ValidatorInfo

-- `ValidatorSet::slot_leader`
unfoldable pub slot_leader : ValidatorSet → ℕ → Option ValidatorInfo
slot_leader set slot =
    if length set.validators == 0
    then none
    else get_elem? set.validators (slot % length set.validators)

-- `ValidatorSet::get`, the first validator at an address, and `contains`.
unfoldable pub find_validator : ℕ → List ValidatorInfo → Option ValidatorInfo
find_validator address [] = none
find_validator address (v ∷ vs) = if v.address == address then some v else find_validator address vs

unfoldable pub has_validator : ℕ → List ValidatorInfo → Bool
has_validator address [] = false
has_validator address (v ∷ vs) = if v.address == address then true else has_validator address vs

-- `ValidatorSet::total_stake`, a fold that panics where the sum leaves 128 bits.
unfoldable pub sum_stakes : {E : Type 0} → Amount → List ValidatorInfo → Outcome E Amount
sum_stakes acc [] = ok acc
sum_stakes acc (v ∷ vs) = add acc v.total_stake >>= λ sum. sum_stakes sum vs
