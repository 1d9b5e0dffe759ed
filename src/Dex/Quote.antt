-- ===== src/Dex/Quote.antt =====
-- crates/vtt-dex/src/swap.rs: the computations of `execute_swap`, which write nothing to the state.
pub mod Stages
pub mod Product
use vtt.Prelude.{ℕ, Bool, true, false, ltb, ◌==◌, if◌then◌else◌, wrapping_add, wrapping_sub}
use vtt.Prelude.Outcome.{Outcome, ok, err, ◌>>=◌, ◌>>◌, reject_if}
use vtt.Primitives.Amount.{Amount}
use vtt.Dex.Error.{DexError}
use vtt.Dex.Math.{calculate_fees, get_amount_out}
use vtt.Dex.Pool.{PoolState}

-- `(reserve_in, reserve_out, is_a_to_b)`
unfoldable pub direction : PoolState → ℕ → Outcome DexError (ℕ × ℕ × Bool)
direction pool token_in =
    if token_in == pool.token_a
    then ok (pool.reserve_a, pool.reserve_b, true)
    else if token_in == pool.token_b
    then ok (pool.reserve_b, pool.reserve_a, false)
    else err DexError.invalid_token_pair

-- The local variables of `execute_swap` once the output amount is known.
pub record Quote : Type 0 where
  pub is_a_to_b : Bool
  pub amount_in_net : ℕ
  pub lp_fee : ℕ
  pub protocol_fee : ℕ
  pub amount_out : ℕ

-- The two tests on the output amount.
unfoldable pub check_out : Amount → Quote → Outcome DexError Quote
check_out min_amount_out q = do
  reject_if (ltb q.amount_out min_amount_out)
      (DexError.slippage_exceeded min_amount_out q.amount_out)
  reject_if (q.amount_out == 0) DexError.zero_amount
  ok q

-- The fees and the output for a direction.
unfoldable pub price : PoolState → Amount → ℕ × ℕ × Bool → Outcome DexError Quote
price pool amount_in (reserve_in, reserve_out, is_a_to_b) = do
  (amount_in_net, lp_fee, protocol_fee) ←
      calculate_fees amount_in pool.fee_bps pool.protocol_fee_bps
  amount_out ← get_amount_out amount_in_net reserve_in reserve_out
  ok (record {
    is_a_to_b = is_a_to_b;
    amount_in_net = amount_in_net;
    lp_fee = lp_fee;
    protocol_fee = protocol_fee;
    amount_out = amount_out;
  })

-- From the checks on the loaded pool up to the output amount.
unfoldable pub quote : PoolState → ℕ → Amount → Amount → Outcome DexError Quote
quote pool token_in amount_in min_amount_out = do
  reject_if (amount_in == 0) DexError.zero_amount
  q ← price pool amount_in (← direction pool token_in)
  check_out min_amount_out q

-- The new reserves and protocol fees.
unfoldable pub settle : Quote → PoolState → PoolState
settle q pool =
    let effective_in = wrapping_add q.amount_in_net q.lp_fee in
    if q.is_a_to_b
    then record pool {
      reserve_a = wrapping_add pool.reserve_a effective_in;
      reserve_b = wrapping_sub pool.reserve_b q.amount_out;
      protocol_fees_a = wrapping_add pool.protocol_fees_a q.protocol_fee;
    }
    else record pool {
      reserve_b = wrapping_add pool.reserve_b effective_in;
      reserve_a = wrapping_sub pool.reserve_a q.amount_out;
      protocol_fees_b = wrapping_add pool.protocol_fees_b q.protocol_fee;
    }
