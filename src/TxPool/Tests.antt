-- ===== src/TxPool/Tests.antt =====
-- The theorems on crates/vtt-txpool/src/lib.rs at a full pool of two transactions.
use vtt.Prelude.{ℕ, ◌+◌, ◌*◌, ◌≡◌, refl, arith}
use vtt.Prelude.Keys.{nat_key}
use vtt.Prelude.Sets.{contains, set_insert, set_remove}
use vtt.Prelude.Map.{get, insert, remove}
use vtt.Prelude.Outcome.{err}
use vtt.Executor.Transactions.{SignedTransaction, TransactionAction, TransactionPayload}
use vtt.TxPool.{
  TxPool, TxPoolError, TxPoolConfig, filed, add, replace_by_fee, make_room, make_room_for,
  evict_for, forget, remove_tx, unfile, cheapest_tx, cheapest_of, prices, insert_tx, or_default,
  new_pool, file, insert_ordered,
}
use vtt.TxPool.Index.{IsIndexed}
use vtt.TxPool.Add.{add-IsIndexed, add-collides}

abbrev offer : ℕ → ℕ → ℕ → SignedTransaction
offer nonce gas_price key = record {
  payload = record {
    chain_id = 1;
    nonce = nonce;
    gas_price = gas_price;
    gas_limit = 21;
    action = TransactionAction.transfer 3 1;
  };
  signature = 0;
  public_key = key;
}

-- A hash that adds the price and the nonce up, in different places.
abbrev hash_of : TransactionPayload → ℕ
hash_of p = p.gas_price * 10 + p.nonce

abbrev limits : TxPoolConfig
limits = record { max_size = 2; max_per_account = 2; min_gas_price = 1; tx_ttl_secs = 0 }

empty-IsIndexed : IsIndexed (new_pool limits)
unfolding filed get contains
empty-IsIndexed =
    (λ h e is. ground arith, λ s n h is. absurd (ground arith), λ h e is. ground arith)

-- A full pool: two transactions of one sender.
abbrev half : TxPool
half = (add hash_of (offer 0 5 1) 1 0 0 (new_pool limits)).1

abbrev full : TxPool
full = (add hash_of (offer 1 6 1) 1 0 0 half).1

full-IsIndexed : IsIndexed full
full-IsIndexed =
    add-IsIndexed hash_of (offer 1 6 1) 1 0 0 half
      (add-IsIndexed hash_of (offer 0 5 1) 1 0 0 (new_pool limits) empty-IsIndexed)

add-IsIndexed_example : IsIndexed (add hash_of (offer 0 9 2) 2 0 7 full).1
add-IsIndexed_example = add-IsIndexed hash_of (offer 0 9 2) 2 0 7 full full-IsIndexed

abbrev fuller : TxPool
fuller = (add hash_of (offer 0 9 2) 2 0 7 full).1

add-collides_example :
    add hash_of (offer 0 9 4) 4 0 8 fuller ≡ (err (TxPoolError.already_exists 90), fuller)
unfolding add replace_by_fee make_room make_room_for evict_for filed get contains cheapest_tx
    cheapest_of prices insert_tx remove insert forget remove_tx unfile or_default set_insert
    set_remove file insert_ordered
add-collides_example =
    add-collides hash_of (offer 0 9 2) (offer 0 9 4) 2 0 7 4 0 8 full {hash = 90} {pool' = fuller}
      refl refl
