-- ===== src/Dex/Tests.antt =====
-- The theorems on the arithmetic and the pools of crates/vtt-dex at small pools.
mod Swaps
mod Mining
use vtt.Prelude.{
  ℕ, ◌+◌, ◌-◌, ◌*◌, ◌/◌, ◌<◌, ◌≤◌, ◌≡◌, refl, [], ◌∷◌, ◌||◌, true, false, some, none, arith,
  u128_mod, leb, ltb, ◌==◌, if◌then◌else◌, List, Option,
}
use vtt.Prelude.Outcome.{Outcome, ok, err}
use vtt.Dex.Error.{DexError}
use vtt.Dex.Math.{
  U256, value, mul_u128, div_u128, sqrt_u128, sqrt_u256, get_amount_out, calculate_fees, newton,
  quot_loop, rem_loop, reduce, exceeds,
}
use vtt.Dex.Math.Mul.{mul_u128-exact}
use vtt.Dex.Math.Div.{div_u128-exact}
use vtt.Dex.Math.Sqrt.{IsSqrt, sqrt_u128-IsSqrt}
use vtt.Dex.Math.Sqrt256.{sqrt_u256-IsSqrt, sqrt_u256-eq-zero}
use vtt.Dex.Math.Formulas.{
  mul_div, get_amount_out-eq, get_amount_out-keeps_product, calculate_fees-split,
}
use vtt.Dex.Pool.{PoolState}
use vtt.Dex.Quote.{Quote, direction, price, check_out, quote, settle}
use vtt.Dex.Quote.Stages.{HasRoom, reserve_in, reserve_out}
use vtt.Dex.Quote.Product.{fees_in, fees_out, settle_keeps_product, settle_accounts}
use vtt.Dex.Shares.{limited_by_b, actual_amounts, shares_for, grown, amounts_for, shrunk}
use vtt.Dex.Shares.Fair.{Fits, IsMinted, shares_for-fair}
use vtt.Dex.Shares.Exit.{IsFairExit, amounts_for-fair, shrunk-keeps_value, exit_after_mint}

div_u128-exact_example : div_u128 (mul_u128 7 (u128_mod - 1)) 9 ≡ (
    if ltb (mul_u128 7 (u128_mod - 1)).hi 9
    then ok (value (mul_u128 7 (u128_mod - 1)) / 9)
    else err DexError.overflow)
unfolding mul_u128
div_u128-exact_example = div_u128-exact (mul_u128 7 (u128_mod - 1)) 9 (omega arith) (omega arith)

sqrt_u256-IsSqrt_example : IsSqrt (4 * u128_mod + 9) (sqrt_u256 (record { hi = 4; lo = 9 }))
sqrt_u256-IsSqrt_example = sqrt_u256-IsSqrt (record { hi = 4; lo = 9 }) (omega arith) (omega arith)

-- The largest product of two amounts.
sqrt_u256-eq-zero_example : sqrt_u256 (record { hi = u128_mod - 2; lo = 1 }) ≡ 0
sqrt_u256-eq-zero_example =
    sqrt_u256-eq-zero (record { hi = u128_mod - 2; lo = 1 }) (omega arith) (omega arith)

-- 100 units for a reserve of 1,000 buy 181 of 2,000.
out_181 : get_amount_out 100 1_000 2_000 ≡ ok 181
out_181 =
    let out = get_amount_out-eq 100 1_000 2_000 (omega arith) (omega arith) (omega arith) in
    ground (arith, out)

fees_of_10_000 : calculate_fees 10_000 30 5 ≡ ok (9_970, 25, 5)
unfolding calculate_fees
fees_of_10_000 = refl

abbrev pub small_pool : PoolState
small_pool = record {
  pool_id = 9;
  token_a = 0;
  token_b = 7;
  reserve_a = 100_000;
  reserve_b = 200_000;
  lp_token_id = 8;
  lp_total_supply = 140_000;
  fee_bps = 30;
  protocol_fee_bps = 5;
  protocol_fees_a = 0;
  protocol_fees_b = 0;
  creator = 1;
  created_at_epoch = 0;
}

pub small_pool-HasRoom : HasRoom small_pool 10_000
small_pool-HasRoom = record {
  rates = omega arith;
  all = omega arith;
  room_a = omega arith;
  room_b = omega arith;
  fees_a = omega arith;
  fees_b = omega arith;
}

abbrev small_quote : Quote
small_quote = record {
  is_a_to_b = true;
  amount_in_net = 9_970;
  lp_fee = 25;
  protocol_fee = 5;
  amount_out = 18_132;
}

pub quoted : quote small_pool 0 10_000 18_000 ≡ ok small_quote
unfolding quote direction price check_out
quoted =
    let out = get_amount_out-eq 9_970 100_000 200_000 (omega arith) (omega arith) (omega arith) in
    ground (arith, out, fees_of_10_000)

settle_keeps_product_example :
    let p' = settle small_quote small_pool in
    (100_000 * 200_000 ≤ p'.reserve_a * p'.reserve_b)
    × (18_000 ≤ 18_132)
    × (0 < 18_132)
    × (0 < p'.reserve_a)
    × (0 < p'.reserve_b)
settle_keeps_product_example =
    settle_keeps_product small_pool 0 10_000 18_000 small_pool-HasRoom quoted

settle_accounts_example :
    let p' = settle small_quote small_pool in
    (reserve_in true p' + fees_in true p'
      ≡ reserve_in true small_pool + fees_in true small_pool + 10_000)
    × (reserve_out true p' + 18_132 ≡ reserve_out true small_pool)
    × (fees_out true p' ≡ fees_out true small_pool)
settle_accounts_example = settle_accounts small_pool 0 10_000 18_000 small_pool-HasRoom quoted

small_pool-Fits : Fits small_pool
small_pool-Fits = record { reserve_a = omega arith; reserve_b = omega arith; supply = omega arith }

minted : shares_for small_pool 1_000 3_000 1 ≡ ok (1_000, 2_000, 1_400)
unfolding shares_for actual_amounts
minted =
    let optimal = mul_div 1_000 200_000 100_000 (omega arith) (omega arith) (omega arith) in
    let lp_a = mul_div 1_000 140_000 100_000 (omega arith) (omega arith) (omega arith) in
    let lp_b = mul_div 2_000 140_000 200_000 (omega arith) (omega arith) (omega arith) in
    ground (arith, optimal, lp_a, lp_b)

shares_for-fair_example : IsMinted small_pool 1_000 3_000 1 (1_000, 2_000, 1_400)
shares_for-fair_example =
    shares_for-fair small_pool 1_000 3_000 1 small_pool-Fits (omega arith) (omega arith) minted

withdrawn : amounts_for small_pool 1_400 1 1 ≡ ok (1_000, 2_000)
unfolding amounts_for
withdrawn =
    let out_a = mul_div 1_400 100_000 140_000 (omega arith) (omega arith) (omega arith) in
    let out_b = mul_div 1_400 200_000 140_000 (omega arith) (omega arith) (omega arith) in
    ground (arith, out_a, out_b)

abbrev grown_pool : PoolState
grown_pool = record small_pool {
  reserve_a = 101_000;
  reserve_b = 202_000;
  lp_total_supply = 141_400;
}

small_pool-grown : grown 1_000 2_000 1_400 small_pool ≡ grown_pool
unfolding grown
small_pool-grown = refl

grown-Fits : Fits (grown 1_000 2_000 1_400 small_pool)
grown-Fits =
    rw small_pool-grown
      (record { reserve_a = omega arith; reserve_b = omega arith; supply = omega arith })

withdrawn_again : amounts_for (grown 1_000 2_000 1_400 small_pool) 1_400 1 1 ≡ ok (1_000, 2_000)
unfolding amounts_for
withdrawn_again =
    let out_a = mul_div 1_400 101_000 141_400 (omega arith) (omega arith) (omega arith) in
    let out_b = mul_div 1_400 202_000 141_400 (omega arith) (omega arith) (omega arith) in
    rw small_pool-grown (ground (arith, out_a, out_b))

exit_after_mint_example : (1_000 ≤ 1_000) × (2_000 ≤ 2_000)
exit_after_mint_example =
    exit_after_mint small_pool 1_000 3_000 1 1 1 small_pool-Fits grown-Fits (omega arith)
      (omega arith) (omega arith) minted withdrawn_again
