-- ===== src/Executor/Run/Atomic.antt =====
-- What a transaction leaves behind, for `execute_transaction_at` of crates/vtt-executor/src/lib.rs.
use vtt.Prelude.{
  ℕ, ◌+◌, ◌≡◌, ◌≤◌, ◌⊎◌, inl, inr, refl, sym, ◌∙◌, ap, min, true, false, arith, ltb, leb,
  Option-cases, Bool-cases, checked_add,
}
use vtt.Prelude.Map.{get_or}
use vtt.Prelude.Outcome.{Outcome, ok, err}
use vtt.State.Db.{StateDb, get_account, get_balance, put_account, sub_balance, increment_nonce}
use vtt.State.Snapshot.{snapshot, restore}
use vtt.Executor.Transactions.{ExecutionError, ExecutionResult, GasConfig, SignedTransaction}
use vtt.Executor.Dispatch.{BlockContext, Node, execute_action}
use vtt.Executor.Run.{
  gas_to_use, gas_fee, value_moved, charge, sender_of, is_admissible, settle, run_action,
  pay_and_run, execute_transaction_at,
}

-- A snapshot taken after the restoration of another is that other.
snapshot-restore : (before s : StateDb) → snapshot (restore (snapshot before) s) ≡ snapshot before
unfolding snapshot restore
snapshot-restore before s = refl

-- The fee and the nonce touch what a snapshot holds, and depend on nothing else.
charge-restore :
    (sender fee : ℕ) (before s : StateDb)
    → snapshot (charge sender fee (restore (snapshot before) s))
      ≡ snapshot (charge sender fee before)
unfolding snapshot restore charge increment_nonce sub_balance put_account get_account
charge-restore sender fee before s =
    elim (Bool-cases (leb fee (get_account sender before).balance)) [
      | inl covered ↦ ground arith
      | inr short ↦ ground arith
    ]

module _ (node : Node) (config : GasConfig) (block : BlockContext) where
  -- The fee that is taken: what the balance covers of the gas fee.
  unfoldable pub fee_taken : SignedTransaction → StateDb → ℕ
  fee_taken tx s = min (gas_fee tx.payload config) (get_balance (sender_of node config block tx) s)

  -- The state is as before, or as before less the fee and with the nonce one further.
  abbrev pub IsRolledBack : SignedTransaction → StateDb → StateDb → Type 0
  IsRolledBack tx before s =
      (snapshot s ≡ snapshot before)
      ⊎ (snapshot s
          ≡ snapshot (charge (sender_of node config block tx) (fee_taken tx before) before))

  fee_covered :
      (tx : SignedTransaction) (before : StateDb)
      → gas_fee tx.payload config ≤ get_balance (sender_of node config block tx) before
      → gas_fee tx.payload config ≡ fee_taken tx before
  unfolding fee_taken
  fee_covered tx before covered = omega arith

  settle_failed :
      (tx : SignedTransaction) (hash : ℕ) (before : StateDb)
      (end : Outcome ExecutionError (Unit {0}) × StateDb) {r : ExecutionResult} {s : StateDb}
      → gas_fee tx.payload config ≤ get_balance (sender_of node config block tx) before
      → settle node config block tx hash before end ≡ (ok r, s)
      → r.success ≡ false
      → IsRolledBack tx before s
  settle_failed tx hash before (ok done, t) covered h failed = cc
  settle_failed tx hash before (err why, t) {r} {s} covered h failed = inr (
      ap (λ x. snapshot x.1) (sym h)
      ∙ charge-restore (sender_of node config block tx) (gas_fee tx.payload config) before t
      ∙ ap (λ fee. snapshot (charge (sender_of node config block tx) fee before))
          (fee_covered tx before covered))
  settle_failed tx hash before (Outcome.panic, t) covered h failed = cc

  pay_and_run_failed :
      (tx : SignedTransaction) (hash : ℕ) (before : StateDb) {r : ExecutionResult} {s : StateDb}
      → pay_and_run node config block tx hash before ≡ (ok r, s)
      → r.success ≡ false
      → IsRolledBack tx before s
  unfolding pay_and_run run_action fee_taken
  pay_and_run_failed tx hash before {r} {s} h failed =
      elim (Option-cases
        (checked_add (gas_fee tx.payload config) (value_moved tx.payload.action))) [
          | inl none_ ↦ ground arith
          | inr (needed, e) ↦
              elim (Bool-cases (ltb (get_balance (sender_of node config block tx) before) needed)) [
                | inl short ↦ ground arith
                | inr enough ↦
                    let run =
                      settle_failed tx hash before
                        (execute_action node (sender_of node config block tx) tx.payload.action
                          block tx.payload.nonce tx.payload.gas_limit
                          (charge (sender_of node config block tx) (gas_fee tx.payload config)
                            before))
                        {r = r} {s = s} in
                    ground (arith, run)
              ]
        ]

  -- A transaction that is reported as failed leaves the state as it was, or as it was less a fee that
  -- the sender's balance covers and with the sender's nonce one step on, whatever the action did
  -- before it failed: everything that a snapshot holds is compared.
  pub execute_transaction_at-IsRolledBack :
      (tx : SignedTransaction) (before : StateDb) {r : ExecutionResult} {s : StateDb}
      → execute_transaction_at node config block tx before ≡ (ok r, s)
      → r.success ≡ false
      → IsRolledBack tx before s
  unfolding execute_transaction_at
  execute_transaction_at-IsRolledBack tx before {r} {s} h failed =
      elim (Option-cases (node.payload_to_vec tx.payload)) [
        | inl none_ ↦ ground arith
        | inr (raw, e) ↦ elim (Bool-cases (is_admissible node config block tx before)) [
          | inl good ↦
              let run =
                pay_and_run_failed tx (node.crypto.blake3_hash raw) before {r = r} {s = s} in
              ground (arith, run)
          | inr bad ↦ ground arith
        ]
      ]

  -- A transaction that succeeds is for this chain, has a good signature, the nonce of its sender and
  -- a price of at least the minimum; its gas is within its limit, and the balance covers the fee and
  -- what the action moves.
  pub execute_transaction_at-admits :
      (tx : SignedTransaction) (before : StateDb) {r : ExecutionResult} {s : StateDb}
      → execute_transaction_at node config block tx before ≡ (ok r, s)
      → r.success ≡ true
      → let sender = sender_of node config block tx in
        (tx.payload.chain_id ≡ block.chain_id)
        × (node.crypto.verify (node.payload_bytes tx.payload) tx.signature tx.public_key ≡ true)
        × (tx.payload.nonce ≡ (get_account sender before).nonce)
        × (get_or before.params.min_gas_price config.min_gas_price ≤ tx.payload.gas_price)
        × (r.gas_used ≤ tx.payload.gas_limit)
        × (gas_fee tx.payload config + value_moved tx.payload.action ≤ get_balance sender before)
  unfolding execute_transaction_at is_admissible pay_and_run run_action gas_to_use
  execute_transaction_at-admits tx before {r} {s} h done =
      elim (Option-cases (node.payload_to_vec tx.payload)) [
        | inl none_ ↦ ground arith
        | inr (raw, e) ↦ ground arith
      ]
