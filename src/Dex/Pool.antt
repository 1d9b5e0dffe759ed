-- ===== src/Dex/Pool.antt =====
-- crates/vtt-dex/src/pool.rs, and the pool store of crates/vtt-dex/src/liquidity.rs.
pub mod Store
use vtt.Prelude.{ℕ, List, ◌++◌, Bool, Option, leb, ◌==◌, if◌then◌else◌}
use vtt.Prelude.Codec.{Codec}
use vtt.Prelude.Outcome.{Outcome, ok_or}
use vtt.Prelude.Action.{Action, ◌>>=◌, ◌>>◌, lift, gets, modify}
use vtt.Primitives.{as_bytes, zero_hash}
use vtt.Primitives.Amount.{Amount}
use vtt.State.Db.{StateDb, get_pool_raw, put_pool_raw}
use vtt.Dex.Error.{DexError}

-- `struct PoolState`
pub record PoolState : Type 0 where
  pub pool_id : ℕ
  pub token_a : ℕ
  pub token_b : ℕ
  pub reserve_a : Amount
  pub reserve_b : Amount
  pub lp_token_id : ℕ
  pub lp_total_supply : Amount
  pub fee_bps : ℕ
  pub protocol_fee_bps : ℕ
  pub protocol_fees_a : Amount
  pub protocol_fees_b : Amount
  pub creator : ℕ
  pub created_at_epoch : ℕ

-- `PoolState::is_native`
abbrev pub is_native : ℕ → Bool
is_native token = token == zero_hash

-- `MINIMUM_LIQUIDITY`, `DEFAULT_FEE_BPS` and `DEFAULT_PROTOCOL_FEE_BPS`
abbrev pub minimum_liquidity : ℕ
minimum_liquidity = 1000

abbrev pub default_fee_bps : ℕ
default_fee_bps = 30

abbrev pub default_protocol_fee_bps : ℕ
default_protocol_fee_bps = 5

-- What the crate takes from others: the BLAKE3 hash, and the borsh encoding of a pool.
pub record Externals : Type 0 where
  pub blake3_hash : List ℕ → ℕ
  pub pool_codec : Codec PoolState

-- An operation on the state that can fail with a `DexError`.
abbrev pub DexAction : Type 0 → Type 0
DexAction A = Action StateDb DexError A

module _ (ext : Externals) where
  -- `compute_pool_id`
  unfoldable pub compute_pool_id : ℕ → ℕ → ℕ
  compute_pool_id token_a token_b = ext.blake3_hash (
      if leb token_a token_b
      then as_bytes 32 token_a ++ as_bytes 32 token_b
      else as_bytes 32 token_b ++ as_bytes 32 token_a)

  -- `load_pool`
  unfoldable pub load_pool : ℕ → DexAction PoolState
  load_pool pool_id = do
    raw ← gets (get_pool_raw pool_id)
    found ← lift (ok_or raw (DexError.pool_not_found pool_id))
    lift (ok_or (ext.pool_codec.try_from_slice found) (DexError.pool_not_found pool_id))

  -- `save_pool`
  unfoldable pub save_pool : PoolState → DexAction (Unit {0})
  save_pool pool = do
    raw ← lift (ok_or (ext.pool_codec.to_vec pool) DexError.overflow)
    modify (put_pool_raw pool.pool_id raw)
