-- ===== src/Dex/Tokens.antt =====
-- The token helpers of crates/vtt-dex/src/liquidity.rs.
pub mod Frame
use vtt.Prelude.{
  ℕ, ◌+◌, ◌-◌, ◌/◌, ◌%◌, List, [], ◌∷◌, ◌++◌, Bool, false, not, none, ltb, take, if◌then◌else◌,
}
use vtt.Prelude.Outcome.{Outcome, ok}
use vtt.Prelude.Action.{Action, ◌>>=◌, ◌>>◌, lift, gets, map_err, reject_if}
use vtt.Primitives.{Text, as_bytes, zero_address}
use vtt.Primitives.Amount.{Amount}
use vtt.State.Asset.{
  AssetClass, AssetStatus, TransferMode, AssetRecord, OwnershipRecord, credit, debit,
}
use vtt.State.Db.{
  StateDb, StateError, sub_balance, add_balance, transfer_asset, register_asset, get_ownership,
  put_ownership,
}
use vtt.Dex.Error.{DexError}
use vtt.Dex.Pool.{PoolState, DexAction, Externals, is_native}

-- `transfer_token_in`: an asset goes to the zero address, native VTT leaves the sender's balance.
unfoldable pub transfer_token_in : ℕ → ℕ → Amount → DexAction (Unit {0})
transfer_token_in sender token amount =
    if is_native token
    then map_err (sub_balance sender amount) (λ _. DexError.insufficient_balance)
    else map_err (transfer_asset token sender zero_address amount)
        (λ _. DexError.insufficient_balance)

-- `transfer_token_out`
unfoldable pub transfer_token_out : ℕ → ℕ → Amount → DexAction (Unit {0})
transfer_token_out recipient token amount =
    if is_native token
    then map_err (add_balance recipient amount) (λ _. DexError.overflow)
    else map_err (transfer_asset token zero_address recipient amount)
        (λ _. DexError.insufficient_liquidity)

-- `{:02x}` of a byte.
abbrev hex_digit : ℕ → ℕ
hex_digit d = if ltb d 10 then b'0' + d else b'a' + (d - 10)

unfoldable pub hex_bytes : List ℕ → Text
hex_bytes [] = []
hex_bytes (b ∷ bs) = hex_digit (b / 16) ∷ hex_digit (b % 16) ∷ hex_bytes bs

-- `format!("LP-…")` over the first bytes of a pool's id.
unfoldable pub lp_label : List ℕ → Text
unfolding hex_bytes
lp_label bs = b'L' ∷ b'P' ∷ b'-' ∷ hex_bytes bs

-- The record that `register_lp_asset` builds.
unfoldable pub lp_asset : ℕ → ℕ → Amount → AssetRecord
lp_asset lp_token_id pool_id total_supply = record {
  id = lp_token_id;
  name = lp_label (take 4 (as_bytes 32 pool_id));
  symbol = lp_label (take 2 (as_bytes 32 pool_id));
  class = AssetClass.fund;
  origin_chain = 0;
  issuer = zero_address;
  total_supply = total_supply;
  decimals = 18;
  status = AssetStatus.active;
  compliance_policy = none;
  valuation_oracle = none;
  documents = [];
  metadata_uri = [];
  jurisdiction = [];
  legal_entity = [];
  transfer_mode = TransferMode.peer_to_peer;
  registrar = none;
  redemption_pool = 0;
  requires_kyc = false;
  created_at = 0;
}

-- `register_lp_asset`
unfoldable pub register_lp_asset : ℕ → ℕ → Amount → DexAction (Unit {0})
register_lp_asset lp_token_id pool_id total_supply =
    map_err (register_asset (lp_asset lp_token_id pool_id total_supply)) (λ _. DexError.overflow)

-- A call of the state database that has no error of its own.
abbrev raise : StateError → DexError
raise _ = DexError.overflow

-- `mint_lp_to`
unfoldable pub mint_lp_to : ℕ → ℕ → Amount → DexAction (Unit {0})
mint_lp_to lp_token_id recipient amount = do
  held ← gets (get_ownership lp_token_id recipient)
  credited ← lift (credit held amount)
  map_err (put_ownership credited) raise

-- `burn_lp_from`
unfoldable pub burn_lp_from : ℕ → ℕ → Amount → DexAction (Unit {0})
burn_lp_from lp_token_id sender amount = do
  held ← gets (get_ownership lp_token_id sender)
  (debited, enough) ← lift (debit held amount)
  reject_if (not enough) DexError.insufficient_balance
  map_err (put_ownership debited) raise
