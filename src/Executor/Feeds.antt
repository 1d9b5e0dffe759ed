-- ===== src/Executor/Feeds.antt =====
-- Oracle feeds in crates/vtt-executor/src/lib.rs.
pub mod Types
use vtt.Prelude.{
  ℕ, zero, suc, ◌+◌, ◌-◌, ◌*◌, leb, ◌&&◌, List, [], ◌∷◌, Bool, true, false, not, ◌||◌, Option, none,
  some, ltb, ◌==◌, if◌then◌else◌, length,
}
use vtt.Prelude.Keys.{nat_key}
use vtt.Prelude.Sets.{contains}
use vtt.Prelude.Map.{get_or, is_some}
use vtt.Prelude.Outcome.{ok_or}
use vtt.Prelude.Action.{◌>>=◌, ◌>>◌, pure, lift, reject_if}
use vtt.Primitives.{Text}
use vtt.Primitives.Amount.{Amount}
use vtt.State.Oracle.{OracleFeedType, new_with_decimals}
use vtt.State.Db.{StateDb}
use vtt.State.Params.{register_oracle, submit_oracle}
use vtt.Executor.Transactions.{ExecutionError, Execution, or_custom}
use vtt.Executor.Assets.{only_treasury}

-- Whether a source is listed twice.
unfoldable pub has_duplicates : List ℕ → Bool
has_duplicates [] = false
has_duplicates (a ∷ as_) = contains a as_ || has_duplicates as_

-- `strip_prefix`
unfoldable pub strip_prefix : Text → Text → Option Text
strip_prefix [] t = some t
strip_prefix (p ∷ ps) [] = none
strip_prefix (p ∷ ps) (c ∷ t) = if p == c then strip_prefix ps t else none

-- `trim_start_matches`: the prefix is taken away as often as it is found. The fuel is the length of
-- the text, since each prefix that is used here has at least one byte.
unfoldable pub trim_matches : ℕ → Text → Text → Text
unfolding strip_prefix
trim_matches zero prefix t = t
trim_matches (suc n) prefix t = elim (strip_prefix prefix t) [
  | none ↦ t
  | some rest ↦ trim_matches n prefix rest
]

abbrev pub trim_start_matches : Text → Text → Text
trim_start_matches prefix t = trim_matches (length t) prefix t

-- A digit in base 16.
abbrev pub hex_digit : ℕ → Option ℕ
hex_digit c =
    if leb 48 c && leb c 57
    then some (c - 48)
    else if leb 97 c && leb c 102
    then some (c - 87)
    else if leb 65 c && leb c 70
    then some (c - 55)
    else none

-- `u8::from_str_radix` on two characters, of which the first may be a sign.
abbrev pub hex_byte : ℕ → ℕ → Option ℕ
hex_byte c d = elim (hex_digit d) [
  | none ↦ none
  | some low ↦
      if c == 43
      then some low
      else elim (hex_digit c) [ none ↦ none | some high ↦ some (high * 16 + low) ]
]

-- The bytes of an asset's id, as the number they stand for.
unfoldable pub hex_value : ℕ → Text → Option ℕ
hex_value value [] = some value
hex_value value (c ∷ []) = none
hex_value value (c ∷ d ∷ t) = elim (hex_byte c d) [
  | none ↦ none
  | some byte ↦ hex_value (value * 256 + byte) t
]

abbrev pub price_prefix : Text
price_prefix = b'p' ∷ b'r' ∷ b'i' ∷ b'c' ∷ b'e' ∷ b':' ∷ []

abbrev pub rate_prefix : Text
rate_prefix = b'r' ∷ b'a' ∷ b't' ∷ b'e' ∷ b':' ∷ []

abbrev pub asset_prefix : Text
asset_prefix = b'a' ∷ b's' ∷ b's' ∷ b'e' ∷ b't' ∷ b':' ∷ []

-- The id of the asset after the prefix, with or without `0x`.
unfoldable pub parse_asset : Text → Option OracleFeedType
unfolding trim_matches hex_value
parse_asset t =
    let tail = trim_start_matches asset_prefix t in
    let hex = get_or (strip_prefix (b'0' ∷ b'x' ∷ []) tail) tail in
    if not (length hex == 64)
    then none
    else elim (hex_value 0 hex) [ none ↦ none | some id ↦ some (OracleFeedType.asset_valuation id) ]

-- `parsed_type`
unfoldable pub parse_type : Text → Option OracleFeedType
unfolding parse_asset trim_matches
parse_type t =
    if is_some (strip_prefix price_prefix t)
    then some (OracleFeedType.market_price (trim_start_matches price_prefix t))
    else if is_some (strip_prefix rate_prefix t)
    then some (OracleFeedType.interest_rate (trim_start_matches rate_prefix t))
    else if is_some (strip_prefix asset_prefix t)
    then parse_asset t
    else some (OracleFeedType.custom t)

-- `execute_create_oracle_feed`
unfoldable pub execute_create_oracle_feed : ℕ → ℕ → Text → Text → List ℕ → ℕ → ℕ → ℕ → ℕ → Execution
unfolding has_duplicates parse_type
execute_create_oracle_feed sender feed_id name feed_type authorized_sources quorum max_staleness_ms
      decimals block_number =
    do
      reject_if (ltb 30 decimals) ExecutionError.custom
      only_treasury sender
      reject_if (length name == 0 || ltb 128 (length name)) ExecutionError.custom
      reject_if (length feed_type == 0 || ltb 64 (length feed_type)) ExecutionError.custom
      reject_if (length authorized_sources == 0 || ltb 32 (length authorized_sources))
          ExecutionError.custom
      reject_if (has_duplicates authorized_sources) ExecutionError.custom
      reject_if (quorum == 0 || ltb (length authorized_sources) quorum) ExecutionError.custom
      parsed_type ← lift (ok_or (parse_type feed_type) ExecutionError.custom)
      let feed =
          new_with_decimals feed_id name parsed_type authorized_sources quorum max_staleness_ms
            decimals
      or_custom (register_oracle (record feed { created_at = block_number }))

-- `execute_submit_oracle_value`
unfoldable pub execute_submit_oracle_value : ℕ → ℕ → Amount → ℕ → Execution
execute_submit_oracle_value sender feed_id value block_timestamp =
    or_custom (submit_oracle feed_id sender value block_timestamp) >>= λ reached. pure tt
