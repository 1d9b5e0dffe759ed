-- ===== src/Executor/Run.antt =====
-- `execute_transaction_at` and `execute_block_transactions_at` of crates/vtt-executor/src/lib.rs.
pub mod Atomic
pub mod Fees
pub mod Block
use vtt.Prelude.{
  ℕ, ◌+◌, ◌%◌, min, List, [], ◌∷◌, Bool, true, false, not, ◌&&◌, Option, none, some, ltb, leb, ◌==◌,
  if◌then◌else◌, checked_add, checked_mul, u64_mod,
}
use vtt.Prelude.Map.{get_or}
use vtt.Prelude.Outcome.{Outcome, ok, err}
use vtt.Prelude.Action.{Action, ◌>>=◌, pure}
use vtt.Primitives.{zero_hash}
use vtt.Primitives.Amount.{Amount}
use vtt.State.Db.{StateDb, get_account, get_balance, sub_balance, increment_nonce}
use vtt.State.Snapshot.{snapshot, restore}
use vtt.State.Staking.{process_unbonding}
use vtt.Executor.Transactions.{
  ExecutionError, Execution, ExecutionResult, GasConfig, SignedTransaction, TransactionAction,
  TransactionPayload, calculate_gas_cost,
}
use vtt.Executor.Dispatch.{BlockContext, Node, execute_action}

-- `fail_receipt`, and the receipt of a success.
abbrev pub receipt : Bool → ℕ → ℕ → ExecutionResult
receipt success tx_hash gas_used = record {
  tx_hash = tx_hash;
  success = success;
  gas_used = gas_used;
}

abbrev pub fail_receipt : ℕ → ℕ → ExecutionResult
fail_receipt = receipt false

-- `gas_to_use` and `gas_fee`
unfoldable pub gas_to_use : TransactionPayload → GasConfig → ℕ
gas_to_use payload config = min (calculate_gas_cost payload.action config) payload.gas_limit

unfoldable pub gas_fee : TransactionPayload → GasConfig → Amount
unfolding gas_to_use
gas_fee payload config = get_or (checked_mul payload.gas_price (gas_to_use payload config)) 0

-- What an action takes from the balance besides the fee, as `total_value` has it.
unfoldable pub value_moved : TransactionAction → Amount
value_moved (TransactionAction.transfer to amount) = amount
value_moved (TransactionAction.stake validator amount) = amount
value_moved (TransactionAction.call_contract contract method args value) = value
value_moved (TransactionAction.distribute_revenue asset_id total_amount) = total_amount
value_moved (TransactionAction.bridge_withdraw token amount chain to) =
    if token == zero_hash then amount else 0
value_moved _ = 0

-- The fee and a step of the nonce.
unfoldable pub charge : ℕ → Amount → StateDb → StateDb
charge sender fee s = (increment_nonce sender (sub_balance sender fee s).1).1

module _ (node : Node) (config : GasConfig) (block : BlockContext) where
  abbrev pub sender_of : SignedTransaction → ℕ
  sender_of tx = node.address_from_public_key tx.public_key

  -- The guards on the chain, the signature, the nonce and the price; each fails without a change.
  unfoldable pub is_admissible : SignedTransaction → StateDb → Bool
  is_admissible tx s =
      tx.payload.chain_id == block.chain_id
      && node.crypto.verify (node.payload_bytes tx.payload) tx.signature tx.public_key
      && tx.payload.nonce == (get_account (sender_of tx) s).nonce
      && not (ltb tx.payload.gas_price (get_or s.params.min_gas_price config.min_gas_price))

  -- The end of a transaction whose action has run: it stands, or all but the fee is rolled back.
  abbrev pub settle :
      SignedTransaction
      → ℕ
      → StateDb
      → Outcome ExecutionError (Unit {0}) × StateDb
      → Outcome ExecutionError ExecutionResult × StateDb
  settle tx tx_hash before (ok done, s) =
      (ok (receipt true tx_hash (gas_to_use tx.payload config)), s)
  settle tx tx_hash before (err why, s) = (
    ok (fail_receipt tx_hash (gas_to_use tx.payload config)),
    charge (sender_of tx) (gas_fee tx.payload config) (restore (snapshot before) s),
  )
  settle tx tx_hash before (Outcome.panic, s) = (Outcome.panic, s)

  -- Steps 6 to 8: the snapshot, the fee, the action.
  unfoldable pub run_action : SignedTransaction → ℕ → Action StateDb ExecutionError ExecutionResult
  run_action tx tx_hash s = settle tx tx_hash s (
      execute_action node (sender_of tx) tx.payload.action block tx.payload.nonce
        tx.payload.gas_limit (charge (sender_of tx) (gas_fee tx.payload config) s))

  -- Step 5: the fee and what the action moves must be covered.
  unfoldable pub pay_and_run : SignedTransaction → ℕ → Action StateDb ExecutionError ExecutionResult
  unfolding run_action
  pay_and_run tx tx_hash s =
      let fee = gas_fee tx.payload config in
      let failed = ok (fail_receipt tx_hash (gas_to_use tx.payload config)) in
      elim (checked_add fee (value_moved tx.payload.action)) [
        | none ↦ (failed, s)
        | some needed ↦
            if ltb (get_balance (sender_of tx) s) needed
            then (failed, charge (sender_of tx) (min fee (get_balance (sender_of tx) s)) s)
            else run_action tx tx_hash s
      ]

  -- `execute_transaction_at`
  unfoldable pub execute_transaction_at :
      SignedTransaction → Action StateDb ExecutionError ExecutionResult
  unfolding pay_and_run is_admissible
  execute_transaction_at tx s = elim (node.payload_to_vec tx.payload) [
    | none ↦ (ok (fail_receipt zero_hash 0), s)
    | some raw ↦
        let tx_hash = node.crypto.blake3_hash raw in
        if is_admissible tx s then pay_and_run tx tx_hash s else (ok (fail_receipt tx_hash 0), s)
  ]

  -- The loop of `execute_block_transactions_at`; `total_gas` is a `u64`.
  unfoldable pub execute_all :
      ℕ → ℕ → List SignedTransaction → Action StateDb ExecutionError (List ExecutionResult × ℕ)
  execute_all block_gas_limit total_gas [] s = (ok ([], total_gas), s)
  execute_all block_gas_limit total_gas (tx ∷ txs) s =
      if leb block_gas_limit total_gas
      then (ok ([], total_gas), s)
      else ((execute_transaction_at tx >>= λ result.
            execute_all block_gas_limit ((total_gas + result.gas_used) % u64_mod) txs
            >>= λ (rest, gas). pure (result ∷ rest, gas))
          s)

  -- `execute_block_transactions_at`
  unfoldable pub execute_block_transactions_at :
      ℕ → List SignedTransaction → Action StateDb ExecutionError (List ExecutionResult × ℕ)
  unfolding execute_all
  execute_block_transactions_at block_gas_limit txs s =
      elim (process_unbonding {E = ExecutionError} block.timestamp s) [
        | ok (released, s') ↦ execute_all block_gas_limit 0 txs s'
        | err why ↦ (err why, s)
        | Outcome.panic ↦ (Outcome.panic, s)
      ]
