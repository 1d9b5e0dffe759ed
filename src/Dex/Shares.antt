-- ===== src/Dex/Shares.antt =====
-- crates/vtt-dex/src/liquidity.rs: the computations of `add_liquidity` and `remove_liquidity`.
pub mod Fair
pub mod Exit
use vtt.Prelude.{ℕ, min, ◌||◌, ltb, leb, ◌==◌, if◌then◌else◌, wrapping_add, wrapping_sub}
use vtt.Prelude.Outcome.{Outcome, ok, err, ◌>>=◌, ◌>>◌, reject_if}
use vtt.Primitives.Amount.{Amount}
use vtt.Dex.Error.{DexError}
use vtt.Dex.Math.{mul_u128, div_u128}
use vtt.Dex.Pool.{PoolState}

-- The amounts where all of `amount_b` is used.
unfoldable pub limited_by_b : PoolState → Amount → Outcome DexError (ℕ × ℕ)
limited_by_b pool amount_b = do
  optimal_a ← div_u128 (mul_u128 amount_b pool.reserve_a) pool.reserve_b
  ok (optimal_a, amount_b)

-- `(actual_a, actual_b)` of `add_liquidity`.
unfoldable pub actual_amounts : PoolState → Amount → Amount → Outcome DexError (ℕ × ℕ)
actual_amounts pool amount_a amount_b = do
  optimal_b ← div_u128 (mul_u128 amount_a pool.reserve_b) pool.reserve_a
  if leb optimal_b amount_b then ok (amount_a, optimal_b) else limited_by_b pool amount_b

-- `(actual_a, actual_b, lp_minted)` of `add_liquidity`, up to the slippage check.
unfoldable pub shares_for : PoolState → Amount → Amount → Amount → Outcome DexError (ℕ × ℕ × ℕ)
shares_for pool amount_a amount_b min_lp = do
  reject_if (pool.reserve_a == 0 || pool.reserve_b == 0) DexError.zero_liquidity
  (actual_a, actual_b) ← actual_amounts pool amount_a amount_b
  reject_if (actual_a == 0 || actual_b == 0) DexError.zero_amount
  lp_a ← div_u128 (mul_u128 actual_a pool.lp_total_supply) pool.reserve_a
  lp_b ← div_u128 (mul_u128 actual_b pool.lp_total_supply) pool.reserve_b
  reject_if (ltb (min lp_a lp_b) min_lp) (DexError.slippage_exceeded min_lp (min lp_a lp_b))
  ok (actual_a, actual_b, min lp_a lp_b)

-- The pool after `add_liquidity`.
unfoldable pub grown : ℕ → ℕ → ℕ → PoolState → PoolState
grown actual_a actual_b lp_minted pool = record pool {
  reserve_a = wrapping_add pool.reserve_a actual_a;
  reserve_b = wrapping_add pool.reserve_b actual_b;
  lp_total_supply = wrapping_add pool.lp_total_supply lp_minted;
}

-- `(amount_a, amount_b)` of `remove_liquidity`, up to the slippage checks.
unfoldable pub amounts_for : PoolState → Amount → Amount → Amount → Outcome DexError (ℕ × ℕ)
amounts_for pool lp_amount min_a min_b = do
  reject_if (lp_amount == 0) DexError.zero_amount
  amount_a ← div_u128 (mul_u128 lp_amount pool.reserve_a) pool.lp_total_supply
  amount_b ← div_u128 (mul_u128 lp_amount pool.reserve_b) pool.lp_total_supply
  reject_if (ltb amount_a min_a) (DexError.slippage_exceeded min_a amount_a)
  reject_if (ltb amount_b min_b) (DexError.slippage_exceeded min_b amount_b)
  ok (amount_a, amount_b)

-- The pool after `remove_liquidity`.
unfoldable pub shrunk : ℕ → ℕ → ℕ → PoolState → PoolState
shrunk amount_a amount_b lp_amount pool = record pool {
  reserve_a = wrapping_sub pool.reserve_a amount_a;
  reserve_b = wrapping_sub pool.reserve_b amount_b;
  lp_total_supply = wrapping_sub pool.lp_total_supply lp_amount;
}
