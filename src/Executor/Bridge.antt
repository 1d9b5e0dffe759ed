-- ===== src/Executor/Bridge.antt =====
-- The bridge to other chains in crates/vtt-executor/src/lib.rs.
pub mod Once
use vtt.Prelude.{ℕ, Bool, not, Option, none, some, ◌==◌, if◌then◌else◌}
use vtt.Prelude.Action.{◌>>=◌, ◌>>◌, reject_if, gets, modify}
use vtt.Primitives.{zero_address, zero_hash}
use vtt.Primitives.Amount.{Amount, is_zero}
use vtt.State.Asset.{is_tradeable}
use vtt.State.Db.{StateDb, add_balance, sub_balance, transfer_asset}
use vtt.State.Params.{bridge_deposit_processed, mark_bridge_deposit_processed}
use vtt.Executor.Transactions.{ExecutionError, Execution, on_state, or_custom}
use vtt.Executor.Assets.{asset_or, credit_holder}

-- What a deposit credits.
unfoldable pub credit_deposit : ℕ → ℕ → Amount → Execution
credit_deposit recipient token amount =
    if token == zero_hash then or_custom (add_balance recipient amount) else (do
      asset ← asset_or token ExecutionError.custom
      reject_if (not (is_tradeable asset)) ExecutionError.custom
      credit_holder token recipient amount)

-- `execute_bridge_deposit`
unfoldable pub execute_bridge_deposit : ℕ → ℕ → ℕ → ℕ → ℕ → Amount → Execution
unfolding credit_deposit
execute_bridge_deposit sender source_tx_hash source_chain recipient token amount = do
  paused ← gets (λ s. s.params.bridge_paused)
  reject_if paused ExecutionError.custom
  relayer ← gets (λ s. s.params.bridge_relayer)
  reject_if (relayer == zero_address) ExecutionError.custom
  reject_if (not (sender == relayer)) ExecutionError.custom
  processed ← gets (bridge_deposit_processed source_chain source_tx_hash)
  reject_if processed ExecutionError.custom
  reject_if (is_zero amount) ExecutionError.custom
  credit_deposit recipient token amount
  modify (mark_bridge_deposit_processed source_chain source_tx_hash)

-- `execute_bridge_withdraw`: the native coin is burned, an asset goes to the zero address.
unfoldable pub execute_bridge_withdraw : ℕ → ℕ → Amount → Execution
execute_bridge_withdraw sender token amount = do
  paused ← gets (λ s. s.params.bridge_paused)
  reject_if paused ExecutionError.bridge_paused
  reject_if (is_zero amount) ExecutionError.custom
  (if token == zero_hash
      then on_state (sub_balance sender amount)
      else (asset_or token ExecutionError.custom >>= λ asset.
          on_state (transfer_asset token sender zero_address amount)))
