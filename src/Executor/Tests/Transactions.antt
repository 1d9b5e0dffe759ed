-- ===== src/Executor/Tests/Transactions.antt =====
-- The theorems on transactions and blocks of crates/vtt-executor/src/lib.rs: a transfer that
-- succeeds, one without gas, and a move of an asset that does not exist.
use vtt.Prelude.{
  ℕ, ◌+◌, ◌≡◌, ◌≤◌, ◌<◌, ◌⊎◌, inl, refl, List, [], ◌∷◌, true, false, none, some, arith, length,
  ◌==◌,
}
use vtt.Prelude.Map.{get, insert, get_or}
use vtt.Prelude.Codec.{Codec}
use vtt.Prelude.Outcome.{err}
use vtt.State.Account.{with_balance}
use vtt.State.Db.{
  StateDb, empty_db, get_account, get_balance, put_account, sub_balance, add_balance,
  increment_nonce, transfer,
}
use vtt.Consensus.Validators.{default_params}
use vtt.Executor.Transactions.{
  ExecutionError, ExecutionResult, GasConfig, SignedTransaction, TransactionAction,
  calculate_gas_cost,
}
use vtt.Executor.Assets.{execute_asset_transfer}
use vtt.Executor.Dispatch.{BlockContext, Node, execute_action}
use vtt.Executor.Run.{
  receipt, gas_to_use, gas_fee, value_moved, charge, is_admissible, settle, run_action, pay_and_run,
  execute_transaction_at, execute_all,
}
use vtt.Executor.Run.Atomic.{
  IsRolledBack, execute_transaction_at-IsRolledBack, execute_transaction_at-admits,
}
use vtt.Executor.Run.Fees.{execute_transaction_at-unpaid}
use vtt.Executor.Run.Block.{sum_gas, IsLimited, execute_all_bounds}

-- An encoding that never writes anything.
never : {A : Type 0} (a : A) (raw : List ℕ) → none ≡ some raw → none ≡ some a
never a raw e = cc

abbrev silent : {A : Type 0} → Codec A
silent = record { to_vec = λ a. none; try_from_slice = λ raw. none; from_slice-to_vec = never }

abbrev node : Node
node = record {
  dex = record { blake3_hash = λ raw. 9; pool_codec = silent };
  crypto = record {
    blake3_hash = λ raw. 9;
    header_to_vec = λ h. [];
    verify = λ raw signature key. signature == key;
  };
  consensus = default_params;
  mining_codec = silent;
  asset_id_of = λ sender name symbol. 7;
  proposal_id_of = λ a b c d. 8;
  decode_evidence = λ raw. none;
  payload_to_vec = λ p. some (p.nonce ∷ []);
  payload_bytes = λ p. p.nonce ∷ [];
  address_from_public_key = λ key. key;
  other_action = λ sender action block gas_limit s. (err ExecutionError.contract_not_supported, s);
}

abbrev prices : GasConfig
prices = record { min_gas_price = 2; base_transfer_cost = 21; cost_per_byte = 1 }

abbrev now : BlockContext
now = record { number = 5; timestamp = 50; chain_id = 1 }

abbrev town : StateDb
town = record empty_db { accounts = (1, with_balance 1_000) ∷ (2, with_balance 20) ∷ [] }

abbrev signed : TransactionAction → ℕ → SignedTransaction
signed action gas_limit = record {
  payload = record {
    chain_id = 1;
    nonce = 0;
    gas_price = 3;
    gas_limit = gas_limit;
    action = action;
  };
  signature = 1;
  public_key = 1;
}

abbrev pays : SignedTransaction
pays = signed (TransactionAction.transfer 2 300) 100

abbrev fails : SignedTransaction
fails = signed (TransactionAction.asset_transfer 7 2 5) 100

abbrev after_pays : StateDb
after_pays = (execute_transaction_at node prices now pays town).1

abbrev after_fails : StateDb
after_fails = (execute_transaction_at node prices now fails town).1

execute_transaction_at-IsRolledBack_example : IsRolledBack node prices now fails town after_fails
unfolding execute_transaction_at pay_and_run run_action is_admissible execute_action
    execute_asset_transfer charge increment_nonce sub_balance get_account put_account get insert
    gas_to_use gas_fee value_moved calculate_gas_cost get_balance
execute_transaction_at-IsRolledBack_example =
    execute_transaction_at-IsRolledBack node prices now fails town {r = receipt false 9 42}
      {s = after_fails} refl refl

execute_transaction_at-admits_example :
    (pays.payload.chain_id ≡ now.chain_id)
    × (node.crypto.verify (node.payload_bytes pays.payload) pays.signature pays.public_key ≡ true)
    × (pays.payload.nonce ≡ (get_account 1 town).nonce)
    × (get_or town.params.min_gas_price prices.min_gas_price ≤ pays.payload.gas_price)
    × (21 ≤ pays.payload.gas_limit)
    × (gas_fee pays.payload prices + value_moved pays.payload.action ≤ get_balance 1 town)
unfolding execute_transaction_at pay_and_run run_action is_admissible execute_action charge
    increment_nonce sub_balance get_account put_account get insert transfer gas_to_use gas_fee
    value_moved calculate_gas_cost get_balance add_balance
execute_transaction_at-admits_example =
    execute_transaction_at-admits node prices now pays town {r = receipt true 9 21} {s = after_pays}
      refl refl

abbrev free : SignedTransaction
free = signed (TransactionAction.transfer 2 300) 0

execute_transaction_at-unpaid_example :
    (execute_transaction_at node prices now free town
      ≡ settle node prices now free 9 town
          (execute_action node 1 (TransactionAction.transfer 2 300) now 0 0 (charge 1 0 town)))
    × (get_balance 1 (charge 1 0 town) ≡ get_balance 1 town)
unfolding is_admissible value_moved get_balance get_account get
execute_transaction_at-unpaid_example =
    execute_transaction_at-unpaid node prices now free town (0 ∷ []) (inl refl) refl refl
      (omega arith) (omega arith)

-- The third transaction finds the block full.
abbrev txs : List SignedTransaction
txs = pays ∷ record fails { payload = record fails.payload { nonce = 1 } } ∷ pays ∷ []

abbrev receipts : List ExecutionResult
receipts = receipt true 9 21 ∷ receipt false 9 42 ∷ []

abbrev after_block : StateDb
after_block = (execute_all node prices now 30 0 txs town).1

execute_all_bounds_example :
    (63 ≡ 0 + sum_gas receipts)
    × ((◌≡◌ {A = ℕ} 63 0) ⊎ (63 < 30 + 100))
    × ((length receipts ≡ length txs) ⊎ ((length receipts < length txs) × (30 ≤ 63)))
unfolding execute_all execute_transaction_at pay_and_run run_action is_admissible execute_action
    execute_asset_transfer charge increment_nonce sub_balance add_balance get_account put_account
    get insert transfer gas_to_use gas_fee value_moved calculate_gas_cost get_balance IsLimited
execute_all_bounds_example =
    execute_all_bounds node prices now 30 100 0 txs town {rs = receipts} {gas = 63}
      {s = after_block} (omega arith) (omega arith, (omega arith, (omega arith, tt))) refl
