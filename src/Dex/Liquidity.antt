-- ===== src/Dex/Liquidity.antt =====
-- crates/vtt-dex/src/liquidity.rs: creating a pool, adding liquidity and removing it.
use vtt.Prelude.{ℕ, ◌∷◌, [], ◌++◌, ◌||◌, leb, ◌==◌, wrapping_sub}
use vtt.Prelude.Action.{◌>>=◌, ◌>>◌, pure, lift, gets, reject_if, modify}
use vtt.Prelude.Outcome.{ok_or}
use vtt.Primitives.{as_bytes}
use vtt.Primitives.Amount.{Amount}
use vtt.State.Db.{has_pool, put_pool_raw}
use vtt.Dex.Error.{DexError}
use vtt.Dex.Math.{mul_u128, sqrt_u256}
use vtt.Dex.Pool.{
  PoolState, DexAction, Externals, load_pool, save_pool, compute_pool_id, minimum_liquidity,
  default_fee_bps, default_protocol_fee_bps,
}
use vtt.Dex.Shares.{shares_for, grown, amounts_for, shrunk}
use vtt.Dex.Swap.{is_paused}
use vtt.Dex.Tokens.{
  transfer_token_in, transfer_token_out, register_lp_asset, mint_lp_to, burn_lp_from,
}

module _ (ext : Externals) where
  -- `compute_lp_token_id`
  unfoldable pub compute_lp_token_id : ℕ → ℕ
  compute_lp_token_id pool_id = ext.blake3_hash (b'l' ∷ b'p' ∷ b':' ∷ [] ++ as_bytes 32 pool_id)

  -- The pool that `create_pool` writes.
  unfoldable pub new_pool : ℕ → ℕ → ℕ → Amount → Amount → ℕ → ℕ → PoolState
  new_pool sender token_a token_b amount_a amount_b lp_minted current_epoch =
      let pool_id = compute_pool_id ext token_a token_b in
      record {
        pool_id = pool_id;
        token_a = token_a;
        token_b = token_b;
        reserve_a = amount_a;
        reserve_b = amount_b;
        lp_token_id = compute_lp_token_id pool_id;
        lp_total_supply = lp_minted;
        fee_bps = default_fee_bps;
        protocol_fee_bps = default_protocol_fee_bps;
        protocol_fees_a = 0;
        protocol_fees_b = 0;
        creator = sender;
        created_at_epoch = current_epoch;
      }

  unfoldable pub create_pool : ℕ → ℕ → ℕ → Amount → Amount → ℕ → DexAction PoolState
  create_pool sender token_a token_b amount_a amount_b current_epoch = do
    paused ← gets is_paused
    reject_if paused DexError.dex_paused
    reject_if (token_a == token_b) DexError.same_token
    reject_if (amount_a == 0 || amount_b == 0) DexError.zero_amount
    let pool_id = compute_pool_id ext token_a token_b
    exists ← gets (has_pool pool_id)
    reject_if exists (DexError.pool_already_exists pool_id)
    transfer_token_in sender token_a amount_a
    transfer_token_in sender token_b amount_b
    let lp_minted = sqrt_u256 (mul_u128 amount_a amount_b)
    reject_if (leb lp_minted minimum_liquidity) DexError.zero_liquidity
    let lp_token_id = compute_lp_token_id pool_id
    register_lp_asset lp_token_id pool_id lp_minted
    mint_lp_to lp_token_id sender (wrapping_sub lp_minted minimum_liquidity)
    let pool = new_pool sender token_a token_b amount_a amount_b lp_minted current_epoch
    raw ← lift (ok_or (ext.pool_codec.to_vec pool) DexError.overflow)
    modify (put_pool_raw pool_id raw)
    pure pool

  unfoldable pub add_liquidity : ℕ → ℕ → Amount → Amount → Amount → DexAction Amount
  add_liquidity sender pool_id amount_a amount_b min_lp = do
    paused ← gets is_paused
    reject_if paused DexError.dex_paused
    pool ← load_pool ext pool_id
    (actual_a, actual_b, lp_minted) ← lift (shares_for pool amount_a amount_b min_lp)
    transfer_token_in sender pool.token_a actual_a
    transfer_token_in sender pool.token_b actual_b
    mint_lp_to pool.lp_token_id sender lp_minted
    save_pool ext (grown actual_a actual_b lp_minted pool)
    pure lp_minted

  unfoldable pub remove_liquidity : ℕ → ℕ → Amount → Amount → Amount → DexAction (Amount × Amount)
  remove_liquidity sender pool_id lp_amount min_a min_b = do
    paused ← gets is_paused
    reject_if paused DexError.dex_paused
    pool ← load_pool ext pool_id
    (amount_a, amount_b) ← lift (amounts_for pool lp_amount min_a min_b)
    burn_lp_from pool.lp_token_id sender lp_amount
    transfer_token_out sender pool.token_a amount_a
    transfer_token_out sender pool.token_b amount_b
    save_pool ext (shrunk amount_a amount_b lp_amount pool)
    pure (amount_a, amount_b)
