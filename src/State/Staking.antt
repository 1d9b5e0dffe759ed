-- ===== src/State/Staking.antt =====
-- Slashing, unbonding, missed slots and evidence in crates/vtt-state/src/statedb.rs.
use vtt.Prelude.{
  ℕ, ◌+◌, ◌-◌, ◌/◌, List, [], ◌∷◌, ◌++◌, Bool, not, ◌&&◌, none, some, min, ltb, leb, ◌==◌,
  if◌then◌else◌, wrapping_add, saturating_add, saturating_sub, saturating_mul,
}
use vtt.Prelude.Keys.{nat_key, pair_key, triple_key}
use vtt.Prelude.Sets.{contains, set_insert, set_remove}
use vtt.Prelude.Map.{Map, get, insert, get_or}
use vtt.Prelude.Outcome.{Outcome, ok, ◌>>=◌}
use vtt.Primitives.{zero_address}
use vtt.Primitives.Amount.{Amount, add, is_zero}
use vtt.State.Account.{StakingState, UnbondingEntry}
use vtt.State.Db.{StateDb, get_account, put_account, add_balance}

-- `target_ok` of `apply_slash`.
abbrev pub target_ok : ℕ → UnbondingEntry → Bool
target_ok validator e = not (e.validator == zero_address) && e.validator == validator

-- `pending` of `apply_slash`, a sum that wraps around.
unfoldable pub pending_in : ℕ → List UnbondingEntry → ℕ
pending_in validator [] = 0
pending_in validator (e ∷ es) =
    if target_ok validator e
    then wrapping_add e.amount (pending_in validator es)
    else pending_in validator es

unfoldable pub pending_for : ℕ → Map ℕ (List UnbondingEntry) → ℕ
unfolding pending_in
pending_for validator [] = 0
pending_for validator ((owner, es) ∷ m) =
    wrapping_add (pending_in validator es) (pending_for validator m)

-- One entry of `apply_slash`, of its share of `slash_unbonding`.
unfoldable pub slash_entry : ℕ → ℕ → ℕ → UnbondingEntry → UnbondingEntry
slash_entry validator slash_unbonding pending e =
    let entry_slash = min (saturating_mul e.amount slash_unbonding / pending) e.amount in
    if target_ok validator e then record e { amount = e.amount - entry_slash } else e

-- The entries of one owner, less those that are zero.
unfoldable pub slash_entries : ℕ → ℕ → ℕ → List UnbondingEntry → List UnbondingEntry
unfolding slash_entry
slash_entries validator slash_unbonding pending [] = []
slash_entries validator slash_unbonding pending (e ∷ es) =
    let e' = slash_entry validator slash_unbonding pending e in
    let rest = slash_entries validator slash_unbonding pending es in
    if is_zero e'.amount then rest else e' ∷ rest

-- `unbonding_entries.retain(|_, v| !v.is_empty())`
unfoldable pub drop_empty : Map ℕ (List UnbondingEntry) → Map ℕ (List UnbondingEntry)
drop_empty [] = []
drop_empty ((owner, []) ∷ m) = drop_empty m
drop_empty ((owner, e ∷ es) ∷ m) = (owner, e ∷ es) ∷ drop_empty m

unfoldable pub slash_unbondings :
    ℕ → ℕ → ℕ → Map ℕ (List UnbondingEntry) → Map ℕ (List UnbondingEntry)
unfolding slash_entries
slash_unbondings validator slash_unbonding pending [] = []
slash_unbondings validator slash_unbonding pending ((owner, es) ∷ m) =
    (owner, slash_entries validator slash_unbonding pending es)
    ∷ slash_unbondings validator slash_unbonding pending m

-- The stake after `slash_stake` of it is slashed; both differences are at least 0.
unfoldable pub slash_staking : Amount → StakingState → StakingState
slash_staking slash_stake staking =
    let from_self =
      if ltb staking.self_stake slash_stake then staking.self_stake else slash_stake in
    record staking {
      self_stake = staking.self_stake - from_self;
      total_stake = staking.total_stake - slash_stake;
    }

-- `StateDB::apply_slash`, once the validator is known to stake.
unfoldable pub slash_validator : ℕ → Amount → StakingState → StateDb → Amount × StateDb
unfolding slash_staking slash_unbondings drop_empty pending_for
slash_validator validator amount staking s =
    let pending = pending_for validator s.unbonding_entries in
    let combined = saturating_add staking.total_stake pending in
    let requested = min amount combined in
    let slash_stake = min requested staking.total_stake in
    let slash_unbonding = saturating_sub requested slash_stake in
    let account = record (get_account validator s) {
      staking = some (slash_staking slash_stake staking);
    } in
    let s' = put_account validator account s in
    if combined == 0
    then (0, s)
    else if ltb 0 slash_unbonding && ltb 0 pending
    then (
      requested,
      record s' {
        unbonding_entries =
            drop_empty (slash_unbondings validator slash_unbonding pending s'.unbonding_entries);
      },
    )
    else (requested, s')

-- `StateDB::apply_slash`, with the amount that it reports.
unfoldable pub apply_slash : ℕ → Amount → StateDb → Amount × StateDb
apply_slash validator amount s = elim (get_account validator s).staking [
  | none ↦ (0, s)
  | some staking ↦ slash_validator validator amount staking s
]

-- `StateDB::add_unbonding_entry`
unfoldable pub add_unbonding_entry : ℕ → UnbondingEntry → StateDb → StateDb
add_unbonding_entry address entry s = record s {
  unbonding_entries =
      insert address (get_or (get address s.unbonding_entries) [] ++ entry ∷ [])
        s.unbonding_entries;
}

-- The loop over the entries of one owner in `process_unbonding`, which adds up what is released.
unfoldable pub released_of : {E : Type 0} → ℕ → Amount → List UnbondingEntry → Outcome E Amount
released_of now released [] = ok released
released_of now released (e ∷ es) =
    if leb e.completion_time now
    then (add released e.amount >>= λ sum. released_of now sum es)
    else released_of now released es

-- What it keeps.
unfoldable pub not_matured : ℕ → List UnbondingEntry → List UnbondingEntry
not_matured now [] = []
not_matured now (e ∷ es) =
    if leb e.completion_time now then not_matured now es else e ∷ not_matured now es

unfoldable pub keep_pending : ℕ → Map ℕ (List UnbondingEntry) → Map ℕ (List UnbondingEntry)
unfolding not_matured
keep_pending now [] = []
keep_pending now ((owner, es) ∷ m) = (owner, not_matured now es) ∷ keep_pending now m

-- `releases` and `total_released`.
unfoldable pub releases_of :
    {E : Type 0} → ℕ → Amount → Map ℕ (List UnbondingEntry) → Outcome E (Amount × List (ℕ × Amount))
unfolding released_of
releases_of now total [] = ok (total, [])
releases_of now total ((owner, es) ∷ m) = released_of now 0 es >>= λ released.
    if is_zero released
    then releases_of now total m
    else (add total released >>= λ sum.
        releases_of now sum m >>= λ (last, rest). ok (last, (owner, released) ∷ rest))

-- `let _ = self.add_balance(&addr, amount)` for each release.
unfoldable pub credit_all : List (ℕ × Amount) → StateDb → StateDb
credit_all [] s = s
credit_all ((owner, amount) ∷ releases) s = credit_all releases (add_balance owner amount s).1

-- The state after `process_unbonding`, and what it returns.
unfoldable pub process_unbonding : {E : Type 0} → ℕ → StateDb → Outcome E (Amount × StateDb)
unfolding releases_of credit_all keep_pending drop_empty
process_unbonding now s = releases_of now 0 s.unbonding_entries >>= λ (total, releases).
    let s' =
      credit_all releases (record s { unbonding_entries = keep_pending now s.unbonding_entries }) in
    ok (total, record s' { unbonding_entries = drop_empty s'.unbonding_entries })

-- `StateDB::slashing_evidence_seen` and `mark_slashing_evidence`
abbrev pub slashing_evidence_seen : ℕ → ℕ → ℕ → StateDb → Bool
slashing_evidence_seen offender epoch slot s = contains (offender, epoch, slot) s.slashing_seen

abbrev pub mark_slashing_evidence : ℕ → ℕ → ℕ → StateDb → StateDb
mark_slashing_evidence offender epoch slot s = record s {
  slashing_seen = set_insert (offender, epoch, slot) s.slashing_seen;
}

-- `StateDB::record_missed_slot`, a saturating `u32`.
unfoldable pub record_missed_slot : ℕ → ℕ → StateDb → StateDb
record_missed_slot epoch validator s =
    let n = get_or (get (epoch, validator) s.missed_slots) 0 in
    record s {
      missed_slots =
          insert (epoch, validator) (if ltb n 0xffffffff then n + 1 else n) s.missed_slots;
    }

-- `StateDB::take_missed_slots_for_epoch`
unfoldable pub missed_in : ℕ → Map (ℕ × ℕ) ℕ → List (ℕ × ℕ)
missed_in epoch [] = []
missed_in epoch (((e, validator), n) ∷ m) =
    if e == epoch then (validator, n) ∷ missed_in epoch m else missed_in epoch m

unfoldable pub missed_outside : ℕ → Map (ℕ × ℕ) ℕ → Map (ℕ × ℕ) ℕ
missed_outside epoch [] = []
missed_outside epoch (((e, validator), n) ∷ m) =
    if e == epoch then missed_outside epoch m else ((e, validator), n) ∷ missed_outside epoch m

unfoldable pub take_missed_slots : ℕ → StateDb → List (ℕ × ℕ) × StateDb
unfolding missed_in missed_outside
take_missed_slots epoch s = (
  missed_in epoch s.missed_slots,
  record s { missed_slots = missed_outside epoch s.missed_slots },
)

-- `StateDB::is_kyc_approved` and `set_kyc_approved`
abbrev pub is_kyc_approved : ℕ → StateDb → Bool
is_kyc_approved address s = contains address s.kyc_approved

abbrev pub set_kyc_approved : ℕ → Bool → StateDb → StateDb
set_kyc_approved address approved s = record s {
  kyc_approved =
      if approved then set_insert address s.kyc_approved else set_remove address s.kyc_approved;
}
