-- ===== src/Executor/Evidence.antt =====
-- Evidence of double signing in crates/vtt-executor/src/lib.rs.
pub mod Once
use vtt.Prelude.{ℕ, List, [], ◌∷◌, ◌++◌, Bool, not, Option, none, some, if◌then◌else◌}
use vtt.Prelude.Keys.{triple_key}
use vtt.Prelude.Sets.{contains}
use vtt.Prelude.Outcome.{ok_or}
use vtt.Prelude.Action.{◌>>=◌, ◌>>◌, lift, reject_if, gets, modify}
use vtt.Primitives.Amount.{Amount, is_zero}
use vtt.State.Account.{StakingState}
use vtt.State.Db.{StateDb, get_account}
use vtt.State.Staking.{apply_slash, slashing_evidence_seen, mark_slashing_evidence}
use vtt.Consensus.Validators.{ConsensusParams}
use vtt.Consensus.Slashing.{calculate_double_sign_slash}
use vtt.Consensus.Engine.{BlockHeader, Crypto, is_valid_evidence}
use vtt.Executor.Transactions.{ExecutionError, Execution}

-- `struct DoubleSignEvidence`
pub record DoubleSignEvidence : Type 0 where
  pub header_a : BlockHeader
  pub header_b : BlockHeader

-- `offender`
abbrev pub offender : DoubleSignEvidence → ℕ
offender evidence = evidence.header_a.validator

abbrev pub stake_of : Option StakingState → Amount
stake_of none = 0
stake_of (some staking) = staking.total_stake

-- The total stake of a validator.
abbrev pub staked_by : ℕ → StateDb → Amount
staked_by validator s = stake_of (get_account validator s).staking

-- Whether the evidence was used before.
abbrev pub is_seen : DoubleSignEvidence → StateDb → Bool
is_seen e s = slashing_evidence_seen (offender e) e.header_a.epoch e.header_a.slot s

abbrev pub mark_seen : DoubleSignEvidence → StateDb → StateDb
mark_seen e s = mark_slashing_evidence (offender e) e.header_a.epoch e.header_a.slot s

module _ (crypto : Crypto) (params : ConsensusParams) where
  -- `execute_submit_slashing_evidence`, with what the bytes decode to.
  unfoldable pub execute_submit_slashing_evidence : Option DoubleSignEvidence → Execution
  execute_submit_slashing_evidence decoded = do
    evidence ← lift (ok_or decoded ExecutionError.custom)
    reject_if (not (is_valid_evidence crypto params evidence.header_a evidence.header_b))
        ExecutionError.custom
    seen ← gets (is_seen evidence)
    reject_if seen ExecutionError.custom
    total_stake ← gets (staked_by (offender evidence))
    reject_if (is_zero total_stake) ExecutionError.custom
    modify
        (λ s. (apply_slash (offender evidence) (calculate_double_sign_slash total_stake 500) s).1)
    modify (mark_seen evidence)

  -- `process_slashing_evidence`, with the offenders and what each lost.
  unfoldable pub process_slashing_evidence :
      List DoubleSignEvidence → ℕ → StateDb → List (ℕ × Amount) × StateDb
  process_slashing_evidence [] double_sign_slash_bps s = ([], s)
  process_slashing_evidence (ev ∷ evidence) double_sign_slash_bps s =
      let total_stake = staked_by (offender ev) s in
      let slash_amount = calculate_double_sign_slash total_stake double_sign_slash_bps in
      let (actual, slashed) = apply_slash (offender ev) slash_amount s in
      let skips = not (is_valid_evidence crypto params ev.header_a ev.header_b) in
      let next =
        if skips
        then s
        else if is_seen ev s
        then s
        else if is_zero total_stake
        then s
        else if is_zero actual
        then slashed
        else mark_seen ev slashed in
      let entry =
        if skips
        then []
        else if is_seen ev s
        then []
        else if is_zero total_stake
        then []
        else if is_zero actual
        then []
        else (offender ev, actual) ∷ [] in
      let (rest, last) = process_slashing_evidence evidence double_sign_slash_bps next in
      (entry ++ rest, last)
