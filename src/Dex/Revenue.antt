-- ===== src/Dex/Revenue.antt =====
-- crates/vtt-dex/src/revenue.rs: the treasury's claim of the protocol fees.
use vtt.Prelude.{ℕ, not, ◌&&◌, ltb, ◌==◌, if◌then◌else◌}
use vtt.Prelude.Action.{◌>>=◌, ◌>>◌, pure, reject_if}
use vtt.Primitives.Amount.{Amount}
use vtt.Dex.Error.{DexError}
use vtt.Dex.Pool.{DexAction, Externals, load_pool, save_pool}
use vtt.Dex.Tokens.{transfer_token_out}

module _ (ext : Externals) where
  unfoldable pub claim_protocol_fees : ℕ → ℕ → ℕ → DexAction (Amount × Amount)
  claim_protocol_fees sender pool_id treasury = do
    reject_if (not (sender == treasury)) DexError.not_authorized
    pool ← load_pool ext pool_id
    let fees_a = pool.protocol_fees_a
    let fees_b = pool.protocol_fees_b
    reject_if (fees_a == 0 && fees_b == 0) DexError.nothing_to_claim
    if ltb 0 fees_a then transfer_token_out treasury pool.token_a fees_a else pure tt
    if ltb 0 fees_b then transfer_token_out treasury pool.token_b fees_b else pure tt
    save_pool ext (record pool { protocol_fees_a = 0; protocol_fees_b = 0 })
    pure (fees_a, fees_b)
