-- ===== src/TxPool.antt =====
-- crates/vtt-txpool/src/lib.rs. An `Instant` is a number of nanoseconds, and the clock an argument.
pub mod Index
pub mod Add
mod Tests
use vtt.Prelude.{
  ℕ, zero, suc, ◌+◌, ◌-◌, ◌*◌, ◌%◌, ◌^◌, List, [], ◌∷◌, ◌++◌, Bool, true, false, not, Option, none,
  some, ltb, leb, ◌==◌, if◌then◌else◌, length, take, u64_mod,
}
use vtt.Prelude.Keys.{nat_key}
use vtt.Prelude.Sets.{contains, set_insert, set_remove}
use vtt.Prelude.Map.{Map, get, insert, remove, get_or}
use vtt.Prelude.Outcome.{Outcome, ok, err}
use vtt.Prelude.Action.{Action, ◌>>=◌, ◌>>◌, pure, reject_if, gets, modify}
use vtt.Primitives.Amount.{Amount}
use vtt.Executor.Transactions.{SignedTransaction, TransactionPayload}

-- `enum TxPoolError`
pub data TxPoolError : Type 0 where
  already_exists pool_full : ℕ → TxPoolError
  gas_price_too_low : Amount → Amount → TxPoolError
  nonce_too_low : ℕ → ℕ → TxPoolError

-- `struct TxPoolConfig`
pub record TxPoolConfig : Type 0 where
  pub max_size : ℕ
  pub max_per_account : ℕ
  pub min_gas_price : Amount
  pub tx_ttl_secs : ℕ

-- `struct PoolEntry`
pub record PoolEntry : Type 0 where
  pub tx : SignedTransaction
  pub sender : ℕ
  pub inserted_at : ℕ

-- `struct TxPool`. The map of a sender is in the order of the nonces.
pub record TxPool : Type 0 where
  pub config : TxPoolConfig
  pub by_hash : Map ℕ PoolEntry
  pub by_sender : Map ℕ (Map ℕ ℕ)
  pub known : List ℕ

-- `TxPool::new`
abbrev pub new_pool : TxPoolConfig → TxPool
new_pool config = record { config = config; by_hash = []; by_sender = []; known = [] }

abbrev pub price_of : PoolEntry → Amount
price_of e = e.tx.payload.gas_price

abbrev pub nonce_of : PoolEntry → ℕ
nonce_of e = e.tx.payload.nonce

-- The hash that is filed under a sender and a nonce.
unfoldable pub filed : ℕ → ℕ → Map ℕ (Map ℕ ℕ) → Option ℕ
filed sender nonce m = elim (get sender m) [ none ↦ none | some txs ↦ get nonce txs ]

-- `BTreeMap::insert`
unfoldable pub insert_ordered : ℕ → ℕ → Map ℕ ℕ → Map ℕ ℕ
insert_ordered nonce hash [] = (nonce, hash) ∷ []
insert_ordered nonce hash ((n, h) ∷ txs) =
    if nonce == n
    then (nonce, hash) ∷ txs
    else if ltb nonce n
    then (nonce, hash) ∷ (n, h) ∷ txs
    else (n, h) ∷ insert_ordered nonce hash txs

-- A sender's map less a nonce; an empty map is dropped.
abbrev pub put_or_drop : ℕ → Map ℕ ℕ → Map ℕ (Map ℕ ℕ) → Map ℕ (Map ℕ ℕ)
put_or_drop sender [] m = remove sender m
put_or_drop sender (t ∷ txs) m = insert sender (t ∷ txs) m

unfoldable pub unfile : ℕ → ℕ → Map ℕ (Map ℕ ℕ) → Map ℕ (Map ℕ ℕ)
unfile sender nonce m = elim (get sender m) [
  | none ↦ m
  | some txs ↦ put_or_drop sender (remove nonce txs) m
]

unfoldable pub file : ℕ → ℕ → ℕ → Map ℕ (Map ℕ ℕ) → Map ℕ (Map ℕ ℕ)
unfolding insert_ordered
file sender nonce hash m = insert sender (insert_ordered nonce hash (get_or (get sender m) [])) m

-- `TxPool::remove`; the hash stays known.
unfoldable pub remove_tx : ℕ → TxPool → TxPool
unfolding unfile
remove_tx tx_hash pool = elim (get tx_hash pool.by_hash) [
  | none ↦ pool
  | some entry ↦ record pool {
    by_hash = remove tx_hash pool.by_hash;
    by_sender = unfile entry.sender (nonce_of entry) pool.by_sender;
  }
]

-- `self.remove(&h); self.known.remove(&h);`
unfoldable pub forget : ℕ → TxPool → TxPool
unfolding remove_tx
forget tx_hash pool =
    let pool' = remove_tx tx_hash pool in record pool' { known = set_remove tx_hash pool'.known }

-- `min_by_key`: the first of the cheapest.
unfoldable pub cheapest_of : Map ℕ Amount → Option (ℕ × Amount)
cheapest_of [] = none
cheapest_of ((h, g) ∷ m) = elim (cheapest_of m) [
  | none ↦ some (h, g)
  | some (h', g') ↦ if ltb g' g then some (h', g') else some (h, g)
]

unfoldable pub prices : Map ℕ PoolEntry → Map ℕ Amount
prices [] = []
prices ((h, e) ∷ m) = (h, price_of e) ∷ prices m

-- `cheapest_tx`
unfoldable pub cheapest_tx : TxPool → Option (ℕ × Amount)
unfolding cheapest_of prices
cheapest_tx pool = cheapest_of (prices pool.by_hash)

-- The prices of what a sender has pending.
unfoldable pub prices_of : Map ℕ ℕ → Map ℕ PoolEntry → Map ℕ Amount
prices_of [] m = []
prices_of ((nonce, h) ∷ txs) m =
    let rest = prices_of txs m in elim (get h m) [ none ↦ rest | some e ↦ (h, price_of e) ∷ rest ]

abbrev pub PoolAction : Type 0
PoolAction = Action TxPool TxPoolError (Unit {0})

-- The replacement of a transaction with the same sender and nonce by one with a higher price.
unfoldable pub replace_by_fee : SignedTransaction → ℕ → PoolAction
unfolding forget filed
replace_by_fee tx sender pool = elim (filed sender tx.payload.nonce pool.by_sender) [
  | none ↦ (ok tt, pool)
  | some existing_hash ↦ elim (get existing_hash pool.by_hash) [
    | none ↦ (ok tt, pool)
    | some existing ↦
        if leb tx.payload.gas_price (price_of existing)
        then (err (TxPoolError.gas_price_too_low tx.payload.gas_price (price_of existing)), pool)
        else (ok tt, forget existing_hash pool)
  ]
]

-- The eviction of the cheapest of some transactions, for one with a higher price.
unfoldable pub evict_for : Amount → ℕ → Option (ℕ × Amount) → PoolAction
unfolding forget
evict_for gas_price max none pool = (err (TxPoolError.pool_full max), pool)
evict_for gas_price max (some (hash, gas)) pool =
    if ltb gas gas_price then (ok tt, forget hash pool) else (err (TxPoolError.pool_full max), pool)

-- The capacity of the pool.
unfoldable pub make_room : Amount → PoolAction
unfolding evict_for cheapest_tx
make_room gas_price pool =
    if leb pool.config.max_size (length pool.by_hash)
    then evict_for gas_price pool.config.max_size (cheapest_tx pool) pool
    else (ok tt, pool)

-- `self.by_sender.entry(sender).or_default()`
unfoldable pub or_default : ℕ → TxPool → TxPool
or_default sender pool = record pool {
  by_sender = insert sender (get_or (get sender pool.by_sender) []) pool.by_sender;
}

-- The limit of a sender.
unfoldable pub make_room_for : ℕ → Amount → PoolAction
unfolding evict_for prices_of or_default cheapest_of
make_room_for sender gas_price pool =
    let pool' = or_default sender pool in
    let sender_txs = get_or (get sender pool.by_sender) [] in
    if leb pool.config.max_per_account (length sender_txs)
    then evict_for gas_price pool.config.max_per_account
        (cheapest_of (prices_of sender_txs pool.by_hash)) pool'
    else (ok tt, pool')

-- The insertion of the transaction.
unfoldable pub insert_tx : ℕ → SignedTransaction → ℕ → ℕ → TxPool → TxPool
unfolding file
insert_tx tx_hash tx sender now pool = record pool {
  by_sender = file sender tx.payload.nonce tx_hash pool.by_sender;
  by_hash = insert tx_hash (record { tx = tx; sender = sender; inserted_at = now }) pool.by_hash;
  known = set_insert tx_hash pool.known;
}

-- `TxPool::add`, with the BLAKE3 hash of the borsh encoding of a payload in `hash_of`.
unfoldable pub add :
    (TransactionPayload → ℕ) → SignedTransaction → ℕ → ℕ → ℕ → Action TxPool TxPoolError ℕ
unfolding replace_by_fee make_room make_room_for insert_tx
add hash_of tx sender account_nonce now = do
  known ← gets (λ pool. contains (hash_of tx.payload) pool.known)
  reject_if known (TxPoolError.already_exists (hash_of tx.payload))
  min ← gets (λ pool. pool.config.min_gas_price)
  reject_if (ltb tx.payload.gas_price min) (TxPoolError.gas_price_too_low tx.payload.gas_price min)
  reject_if (ltb tx.payload.nonce account_nonce)
      (TxPoolError.nonce_too_low account_nonce tx.payload.nonce)
  replace_by_fee tx sender
  make_room tx.payload.gas_price
  make_room_for sender tx.payload.gas_price
  modify (insert_tx (hash_of tx.payload) tx sender now)
  pure (hash_of tx.payload)

-- The loop of `remove_committed` over the nonces up to the committed one.
unfoldable pub committed : ℕ → Map ℕ ℕ → Map ℕ ℕ
committed nonce [] = []
committed nonce ((n, h) ∷ txs) =
    if leb n nonce then (n, h) ∷ committed nonce txs else committed nonce txs

unfoldable pub remove_hashes : Map ℕ ℕ → Map ℕ PoolEntry → Map ℕ PoolEntry
remove_hashes [] m = m
remove_hashes ((n, h) ∷ txs) m = remove_hashes txs (remove h m)

unfoldable pub remove_nonces : Map ℕ ℕ → Map ℕ ℕ → Map ℕ ℕ
remove_nonces [] txs = txs
remove_nonces ((n, h) ∷ gone) txs = remove_nonces gone (remove n txs)

-- `TxPool::remove_committed`
unfoldable pub remove_committed : ℕ → ℕ → TxPool → TxPool
unfolding committed remove_hashes remove_nonces
remove_committed sender committed_nonce pool = elim (get sender pool.by_sender) [
  | none ↦ pool
  | some sender_txs ↦
      let gone = committed committed_nonce sender_txs in
      record pool {
        by_hash = remove_hashes gone pool.by_hash;
        by_sender = put_or_drop sender (remove_nonces gone sender_txs) pool.by_sender;
      }
]

-- The transactions of one sender with consecutive nonces.
unfoldable pub executable : ℕ → Map ℕ ℕ → Map ℕ PoolEntry → List SignedTransaction
executable expected [] m = []
executable expected ((nonce, h) ∷ txs) m =
    let rest = executable ((expected + 1) % u64_mod) txs m in
    if nonce == expected then elim (get h m) [ none ↦ rest | some e ↦ e.tx ∷ rest ] else []

unfoldable pub candidates : Map ℕ ℕ → Map ℕ (Map ℕ ℕ) → Map ℕ PoolEntry → List SignedTransaction
unfolding executable
candidates account_nonces [] m = []
candidates account_nonces ((sender, txs) ∷ senders) m =
    executable (get_or (get sender account_nonces) 0) txs m ++ candidates account_nonces senders m

-- `sort_by_key` with the reversed price, which is stable.
unfoldable pub insert_by_price : SignedTransaction → List SignedTransaction → List SignedTransaction
insert_by_price tx [] = tx ∷ []
insert_by_price tx (t ∷ ts) =
    if leb t.payload.gas_price tx.payload.gas_price then tx ∷ t ∷ ts else t ∷ insert_by_price tx ts

unfoldable pub sort_by_price : List SignedTransaction → List SignedTransaction
unfolding insert_by_price
sort_by_price [] = []
sort_by_price (t ∷ ts) = insert_by_price t (sort_by_price ts)

-- `TxPool::select_transactions`
unfoldable pub select_transactions : ℕ → Map ℕ ℕ → TxPool → List SignedTransaction
unfolding candidates sort_by_price
select_transactions max_count account_nonces pool =
    take max_count (sort_by_price (candidates account_nonces pool.by_sender pool.by_hash))

-- What `evict_expired` removes.
unfoldable pub expired : ℕ → ℕ → Map ℕ PoolEntry → List ℕ
expired now ttl [] = []
expired now ttl ((h, e) ∷ m) =
    if ltb ttl (now - e.inserted_at) then h ∷ expired now ttl m else expired now ttl m

unfoldable pub remove_all : List ℕ → TxPool → TxPool
unfolding remove_tx
remove_all [] pool = pool
remove_all (h ∷ hs) pool = remove_all hs (remove_tx h pool)

-- `TxPool::evict_expired`, with how many are removed.
unfoldable pub evict_expired : ℕ → TxPool → ℕ × TxPool
unfolding expired remove_all
evict_expired now pool =
    let gone = expired now (pool.config.tx_ttl_secs * 10 ^ 9) pool.by_hash in
    if pool.config.tx_ttl_secs == 0 then (0, pool) else (length gone, remove_all gone pool)
