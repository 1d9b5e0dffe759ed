-- ===== src/Executor/Run/Block.antt =====
-- The gas of a block in `execute_block_transactions_at` of crates/vtt-executor/src/lib.rs.
use vtt.Prelude.{
  else_branch, ℕ, ◌+◌, ◌≡◌, ◌≤◌, ◌<◌, ◌⊎◌, inl, inr, List, [], ◌∷◌, arith, leb, length,
  Option-cases, Bool-cases, u64_mod, ◌%◌,
}
use vtt.Prelude.Outcome.{ok}
use vtt.Prelude.Action.{after-eq-ok}
use vtt.State.Db.{StateDb}
use vtt.Executor.Transactions.{ExecutionResult, GasConfig, SignedTransaction}
use vtt.Executor.Dispatch.{BlockContext, Node}
use vtt.Executor.Run.{gas_to_use, run_action, pay_and_run, execute_transaction_at, execute_all}

unfoldable pub sum_gas : List ExecutionResult → ℕ
sum_gas [] = 0
sum_gas (r ∷ rs) = r.gas_used + sum_gas rs

-- Every transaction has a gas limit of at most `most`.
unfoldable pub IsLimited : ℕ → List SignedTransaction → Type 0
IsLimited most [] = Unit
IsLimited most (tx ∷ txs) = (tx.payload.gas_limit ≤ most) × IsLimited most txs

module _ (node : Node) (config : GasConfig) (block : BlockContext) where
  pub execute_transaction_at-gas :
      (tx : SignedTransaction) (before : StateDb) {r : ExecutionResult} {s : StateDb}
      → execute_transaction_at node config block tx before ≡ (ok r, s)
      → r.gas_used ≤ tx.payload.gas_limit
  unfolding execute_transaction_at pay_and_run run_action gas_to_use
  execute_transaction_at-gas tx before {r} {s} h =
      elim (Option-cases (node.payload_to_vec tx.payload)) [
        | inl none_ ↦ ground arith
        | inr (raw, e) ↦ ground arith
      ]

  -- Where the transactions of a block have gas limits of at most `most`, and the limit of the block
  -- and `most` together fit 64 bits, the gas of the block is exactly the sum of its receipts' and what
  -- it started with. The limit of the block is passed by less than `most`, if at all, unless no gas is
  -- added; and a transaction is left out only once the gas has reached the limit.
  pub execute_all_bounds :
      (limit most total : ℕ) (txs : List SignedTransaction) (before : StateDb)
      {rs : List ExecutionResult} {gas : ℕ} {s : StateDb}
      → limit + most < u64_mod
      → IsLimited most txs
      → execute_all node config block limit total txs before ≡ (ok (rs, gas), s)
      → (gas ≡ total + sum_gas rs)
        × ((gas ≡ total) ⊎ (gas < limit + most))
        × ((length rs ≡ length txs) ⊎ ((length rs < length txs) × (limit ≤ gas)))
  unfolding execute_all sum_gas IsLimited
  execute_all_bounds limit most total [] before {rs} fits small h =
      (ground arith, inl (ground arith), inl (ground arith))
  execute_all_bounds limit most total (tx ∷ txs) before {rs} {gas} {s} fits small h =
      elim (Bool-cases (leb limit total)) [
        | inl full ↦ (ground arith, inl (ground arith), inr (ground arith, ground arith))
        | inr room ↦
            let (r, t, ran, rest) =
              after-eq-ok (execute_transaction_at node config block tx before) _
                (else_branch (leb limit total) _ room h) in
            let used = execute_transaction_at-gas tx before ran in
            let (more, u, went, last) =
              after-eq-ok
                (execute_all node config block limit ((total + r.gas_used) % u64_mod) txs t) _
                rest in
            let here : (total + r.gas_used) % u64_mod ≡ total + r.gas_used = ground arith in
            let tail =
              execute_all_bounds limit most (total + r.gas_used) txs t {rs = more.0} {gas = more.1}
                {s = u} fits small.1 (ground (arith, went, here)) in
            (ground (arith, tail.0), ground (arith, tail.1, used), ground (arith, tail.2))
      ]
