-- ===== src/Dex/Error.antt =====
-- crates/vtt-dex/src/error.rs
use vtt.Prelude.{ℕ}

-- `enum DexError`
pub data DexError : Type 0 where
  pool_already_exists pool_not_found : ℕ → DexError
  zero_amount zero_liquidity insufficient_balance insufficient_liquidity : DexError
  slippage_exceeded : ℕ → ℕ → DexError
  invalid_token_pair same_token overflow not_authorized : DexError
  mining_not_active nothing_to_claim dex_paused : DexError
