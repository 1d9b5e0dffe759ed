-- ===== src/Executor/Run/Fees.antt =====
-- The fee of a transaction in `execute_transaction_at` of crates/vtt-executor/src/lib.rs.
use vtt.Prelude.{
  ℕ, ◌+◌, ◌-◌, ◌*◌, ◌≡◌, ◌≤◌, ◌<◌, ◌⊎◌, List, true, arith, some, u128_mod, u64_mod, ◌%◌,
}
use vtt.Prelude.Keys.{nat_key}
use vtt.State.Db.{StateDb, get_account, get_balance, put_account, sub_balance, increment_nonce}
use vtt.State.Value.{get_account-put_account}
use vtt.Executor.Transactions.{GasConfig, SignedTransaction}
use vtt.Executor.Dispatch.{BlockContext, Node, execute_action}
use vtt.Executor.Run.{
  gas_to_use, gas_fee, value_moved, charge, sender_of, is_admissible, settle, run_action,
  pay_and_run, execute_transaction_at,
}

-- What is charged leaves the balance by the fee and the nonce one step on.
pub get_account-charge :
    (sender fee : ℕ) (s : StateDb)
    → fee ≤ get_balance sender s
    → (get_balance sender (charge sender fee s) + fee ≡ get_balance sender s)
      × ((get_account sender (charge sender fee s)).nonce
          ≡ ((get_account sender s).nonce + 1) % u64_mod)
unfolding get_balance charge increment_nonce sub_balance
get_account-charge sender fee s covered =
    let acc = get_account sender s in
    let paid = record acc { balance = acc.balance - fee } in
    let stepped = record paid { nonce = (acc.nonce + 1) % u64_mod } in
    let one = get_account-put_account sender sender paid s in
    let two = get_account-put_account sender sender stepped (put_account sender paid s) in
    (ground (arith, one, two), ground (arith, one, two))

module _ (node : Node) (config : GasConfig) (block : BlockContext) where
  fee_zero :
      (tx : SignedTransaction)
      → (tx.payload.gas_limit ≡ 0)
        ⊎ (u128_mod ≤ tx.payload.gas_price * gas_to_use tx.payload config)
      → gas_fee tx.payload config ≡ 0
  unfolding gas_fee gas_to_use
  fee_zero tx unpaid = ground arith

  -- A transaction with a gas limit of 0, or with a price at which its fee exceeds 128 bits, runs its
  -- action like any other, once it is admissible and the balance covers what it moves: only the nonce
  -- is taken from the sender, no fee.
  pub execute_transaction_at-unpaid :
      (tx : SignedTransaction) (s : StateDb) (raw : List ℕ)
      → (tx.payload.gas_limit ≡ 0)
        ⊎ (u128_mod ≤ tx.payload.gas_price * gas_to_use tx.payload config)
      → node.payload_to_vec tx.payload ≡ some raw
      → is_admissible node config block tx s ≡ true
      → value_moved tx.payload.action ≤ get_balance (sender_of node config block tx) s
      → get_balance (sender_of node config block tx) s < u128_mod
      → let sender = sender_of node config block tx in
        (execute_transaction_at node config block tx s
          ≡ settle node config block tx (node.crypto.blake3_hash raw) s (
              execute_action node sender tx.payload.action block tx.payload.nonce
                tx.payload.gas_limit
                (charge sender 0 s)))
        × (get_balance sender (charge sender 0 s) ≡ get_balance sender s)
  unfolding execute_transaction_at pay_and_run run_action
  execute_transaction_at-unpaid tx s raw unpaid encoded good covered small =
      let sender = sender_of node config block tx in
      let free = fee_zero tx unpaid in
      let charged = get_account-charge sender 0 s in
      (ground (arith, free), omega (arith, charged (omega arith)))
