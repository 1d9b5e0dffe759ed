-- ===== src/Executor/Evidence/Once.antt =====
-- What `execute_submit_slashing_evidence` of crates/vtt-executor/src/lib.rs asks of its evidence.
use vtt.Prelude.{ℕ, ◌≡◌, ◌<◌, Bool-cases, inl, inr, true, false, arith, some}
use vtt.Prelude.Keys.{triple_key}
use vtt.Prelude.Sets.{contains-set_insert}
use vtt.Prelude.Outcome.{ok, err}
use vtt.State.Db.{StateDb}
use vtt.State.Staking.{apply_slash}
use vtt.Consensus.Slashing.{calculate_double_sign_slash}
use vtt.Consensus.Validators.{ConsensusParams}
use vtt.Consensus.Engine.{Crypto, is_valid_evidence, signable_bytes}
use vtt.Executor.Transactions.{ExecutionError}
use vtt.Executor.Evidence.{
  DoubleSignEvidence, offender, staked_by, is_seen, mark_seen, execute_submit_slashing_evidence,
}

-- The evidence with other signatures on its headers.
abbrev pub with_signatures : ℕ → ℕ → DoubleSignEvidence → DoubleSignEvidence
with_signatures a b e = record {
  header_a = record e.header_a { signature = a };
  header_b = record e.header_b { signature = b };
}

module _ (crypto : Crypto) (params : ConsensusParams) where
  -- The state after a slash of five percent.
  abbrev pub slashed_state : DoubleSignEvidence → StateDb → StateDb
  slashed_state e s =
      mark_seen e
        (apply_slash (offender e) (calculate_double_sign_slash (staked_by (offender e) s) 500) s).1

  is_seen-mark_seen : (e : DoubleSignEvidence) (s : StateDb) → is_seen e (mark_seen e s) ≡ true
  is_seen-mark_seen e s =
      let key : ℕ × ℕ × ℕ = (offender e, e.header_a.epoch, e.header_a.slot) in
      ground (arith, contains-set_insert key key s.slashing_seen)

  is_seen-same :
      (again e : DoubleSignEvidence) (s : StateDb)
      → offender again ≡ offender e
      → again.header_a.epoch ≡ e.header_a.epoch
      → again.header_a.slot ≡ e.header_a.slot
      → is_seen e s ≡ true
      → is_seen again s ≡ true
  is_seen-same again e s who epoch slot seen = rw (who, epoch, slot) seen

  refused :
      (e : DoubleSignEvidence) (s : StateDb)
      → is_seen e s ≡ true
      → execute_submit_slashing_evidence crypto params (some e) s ≡ (err ExecutionError.custom, s)
  unfolding execute_submit_slashing_evidence
  refused e s seen = elim (Bool-cases (is_valid_evidence crypto params e.header_a e.header_b)) [
    | inl good ↦ ground arith
    | inr bad ↦ ground arith
  ]

  -- The signatures of the two headers are never checked: any two headers of the same validator, epoch
  -- and slot with different contents, under any signatures, slash a validator with stake whose slot
  -- was not used before. All further evidence against that validator for that epoch and slot is
  -- refused and changes nothing, whatever its headers contain.
  pub execute_submit_slashing_evidence-unsigned :
      (e again : DoubleSignEvidence) (a b : ℕ) (s : StateDb)
      → is_valid_evidence crypto params e.header_a e.header_b ≡ true
      → is_seen e s ≡ false
      → 0 < staked_by (offender e) s
      → offender again ≡ offender e
      → again.header_a.epoch ≡ e.header_a.epoch
      → again.header_a.slot ≡ e.header_a.slot
      → (execute_submit_slashing_evidence crypto params (some (with_signatures a b e)) s
          ≡ (ok tt, slashed_state e s))
        × (execute_submit_slashing_evidence crypto params (some again) (slashed_state e s)
            ≡ (err ExecutionError.custom, slashed_state e s))
  unfolding execute_submit_slashing_evidence is_valid_evidence signable_bytes
  execute_submit_slashing_evidence-unsigned e again a b s valid new staked_ who epoch slot =
      let seen =
        is_seen-mark_seen e
          (apply_slash (offender e) (calculate_double_sign_slash (staked_by (offender e) s) 500)
            s).1 in
      (
        ground arith,
        refused again (slashed_state e s)
            (is_seen-same again e (slashed_state e s) who epoch slot seen),
      )
