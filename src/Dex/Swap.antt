-- ===== src/Dex/Swap.antt =====
-- crates/vtt-dex/src/swap.rs: `execute_swap`.
pub mod Run
pub mod Elsewhere
use vtt.Prelude.{ℕ, Bool, if◌then◌else◌}
use vtt.Prelude.Action.{◌>>=◌, ◌>>◌, pure, lift, gets, reject_if}
use vtt.Primitives.Amount.{Amount}
use vtt.State.Db.{StateDb}
use vtt.Dex.Error.{DexError}
use vtt.Dex.Pool.{PoolState, DexAction, Externals, load_pool, save_pool}
use vtt.Dex.Quote.{Quote, quote, settle}
use vtt.Dex.Tokens.{transfer_token_in, transfer_token_out}

-- `is_dex_paused`
abbrev pub is_paused : StateDb → Bool
is_paused s = s.dex_paused

module _ (ext : Externals) where
  unfoldable pub execute_swap : ℕ → ℕ → ℕ → Amount → Amount → DexAction Amount
  execute_swap sender pool_id token_in amount_in min_amount_out = do
    paused ← gets is_paused
    reject_if paused DexError.dex_paused
    pool ← load_pool ext pool_id
    q ← lift (quote pool token_in amount_in min_amount_out)
    transfer_token_in sender token_in amount_in
    transfer_token_out sender (if q.is_a_to_b then pool.token_b else pool.token_a) q.amount_out
    save_pool ext (settle q pool)
    pure q.amount_out
