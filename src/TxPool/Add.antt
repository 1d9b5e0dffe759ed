-- ===== src/TxPool/Add.antt =====
-- `TxPool::add` of crates/vtt-txpool/src/lib.rs keeps the indexes in step and refuses what it knows.
use vtt.Prelude.{
  ℕ, ◌≡◌, refl, sym, ap, subst, ◌∙◌, inl, inr, [], Bool, true, false, arith, Option, none, some,
  ltb, leb, if◌then◌else◌, Option-cases, length, each_branch,
}
use vtt.Prelude.Keys.{nat_key, nat_key_iff}
use vtt.Prelude.Sets.{contains, contains-set_insert}
use vtt.Prelude.Map.{get, get_or}
use vtt.Prelude.Outcome.{Outcome, ok, err}
use vtt.Prelude.Action.{Action, after, ◌>>◌, reject_if, after-eq-ok, reject_if-eq-ok, pure-eq-ok}
use vtt.Executor.Transactions.{SignedTransaction, TransactionPayload}
use vtt.TxPool.{
  TxPool, TxPoolError, PoolEntry, price_of, nonce_of, filed, forget, insert_tx, or_default,
  replace_by_fee, evict_for, make_room, make_room_for, cheapest_tx, cheapest_of, prices_of, add,
}
use vtt.TxPool.Index.{
  IsIndexed, forget-IsIndexed, get-forget, filed-forget, filed_forgotten, inserted-Agrees,
  filed-or_default,
}

-- The indexes agree, the sender and nonce are free, and the hash is not pending.
abbrev IsFree : ℕ → ℕ → ℕ → TxPool → Type 0
IsFree sender nonce hash pool =
    IsIndexed pool × (filed sender nonce pool.by_sender ≡ none) × (get hash pool.by_hash ≡ none)

abbrev FreeAfter : ℕ → ℕ → ℕ → Outcome TxPoolError (Unit {0}) × TxPool → Type 0
FreeAfter s n h r = IsFree s n h r.1

forget-IsFree :
    (s n h gone : ℕ) (pool : TxPool) → IsFree s n h pool → IsFree s n h (forget gone pool)
forget-IsFree s n h gone pool (indexed, free, new) = (
  forget-IsIndexed gone pool indexed,
  filed-forget s n gone pool indexed free,
  ground (arith, get-forget h gone pool),
)

evict_for-IsFree :
    (s n h price max : ℕ) (cheapest : Option (ℕ × ℕ)) (pool : TxPool)
    → IsFree s n h pool
    → IsFree s n h (evict_for price max cheapest pool).1
unfolding evict_for
evict_for-IsFree s n h price max none pool free = free
evict_for-IsFree s n h price max (some (hash, gas)) pool free =
    each_branch (FreeAfter s n h) (ltb gas price) (forget-IsFree s n h hash pool free) free

or_default-IsFree :
    (s n h sender : ℕ) (pool : TxPool) → IsFree s n h pool → IsFree s n h (or_default sender pool)
unfolding or_default
or_default-IsFree s n h sender pool ((there, back, seen), free, new) = (
  (
    λ k e is. filed-or_default e.sender (nonce_of e) sender pool ∙ there k e is,
    λ s' n' k is. back s' n' k (sym (filed-or_default s' n' sender pool) ∙ is),
    seen,
  ),
  filed-or_default s n sender pool ∙ free,
  new,
)

make_room-IsFree :
    (s n h price : ℕ) (pool : TxPool) → IsFree s n h pool → IsFree s n h (make_room price pool).1
unfolding make_room
make_room-IsFree s n h price pool free =
    each_branch (FreeAfter s n h) (leb pool.config.max_size (length pool.by_hash))
      (evict_for-IsFree s n h price pool.config.max_size (cheapest_tx pool) pool free) free

make_room_for-IsFree :
    (s n h sender price : ℕ) (pool : TxPool)
    → IsFree s n h pool
    → IsFree s n h (make_room_for sender price pool).1
unfolding make_room_for
make_room_for-IsFree s n h sender price pool free =
    let txs = get_or (get sender pool.by_sender) [] in
    let free' = or_default-IsFree s n h sender pool free in
    each_branch (FreeAfter s n h) (leb pool.config.max_per_account (length txs))
      (evict_for-IsFree s n h price pool.config.max_per_account
        (cheapest_of (prices_of txs pool.by_hash)) (or_default sender pool) free')
      free'

-- A call that leaves the place free when it succeeds, and the indexes in step in any case.
abbrev Prepares : ℕ → ℕ → ℕ → Outcome TxPoolError (Unit {0}) × TxPool → Type 0
Prepares s n h r = IsIndexed r.1 × ((t : TxPool) → r ≡ (ok tt, t) → IsFree s n h t)

ready : (s n h : ℕ) (pool : TxPool) → IsFree s n h pool → Prepares s n h (ok tt, pool)
ready s n h pool free = (free.0, λ t e. subst (IsFree s n h) (ap (λ x. x.1) e) free)

refused :
    (s n h : ℕ) (pool : TxPool) {why : TxPoolError}
    → IsIndexed pool
    → Prepares s n h (err why, pool)
refused s n h pool indexed = (indexed, λ t e. absurd (ground arith))

nothing_filed :
    (tx : SignedTransaction) (sender : ℕ) (pool : TxPool)
    → filed sender tx.payload.nonce pool.by_sender ≡ none
    → replace_by_fee tx sender pool ≡ (ok tt, pool)
unfolding replace_by_fee
nothing_filed tx sender pool none_ = ground arith

replaces :
    (tx : SignedTransaction) (sender old : ℕ) (e : PoolEntry) (pool : TxPool)
    → filed sender tx.payload.nonce pool.by_sender ≡ some old
    → get old pool.by_hash ≡ some e
    → replace_by_fee tx sender pool ≡ (
        if leb tx.payload.gas_price (price_of e)
        then (err (TxPoolError.gas_price_too_low tx.payload.gas_price (price_of e)), pool)
        else (ok tt, forget old pool))
unfolding replace_by_fee
replaces tx sender old e pool found is = ground arith

replace_by_fee-Prepares :
    (tx : SignedTransaction) (sender h : ℕ) (pool : TxPool)
    → IsIndexed pool
    → get h pool.by_hash ≡ none
    → Prepares sender tx.payload.nonce h (replace_by_fee tx sender pool)
replace_by_fee-Prepares tx sender h pool indexed new =
    let nonce = tx.payload.nonce in
    elim (Option-cases (filed sender nonce pool.by_sender)) [
      | inl none_ ↦
          subst (Prepares sender nonce h) (sym (nothing_filed tx sender pool none_))
            (ready sender nonce h pool (indexed, none_, new))
      | inr (old, found) ↦
          let (e, is, by, at) = indexed.1 sender nonce old found in
          subst (Prepares sender nonce h) (sym (replaces tx sender old e pool found is)) (
            each_branch (Prepares sender nonce h) (leb tx.payload.gas_price (price_of e))
              (refused sender nonce h pool indexed)
              (ready sender nonce h (forget old pool) (
                forget-IsIndexed old pool indexed,
                filed_forgotten sender nonce old pool indexed found,
                ground (arith, get-forget h old pool),
              )))
    ]

prepares_then :
    (s n h : ℕ) (r : Outcome TxPoolError (Unit {0}) × TxPool) {A : Type 0}
    (rest : Action TxPool TxPoolError A)
    → Prepares s n h r
    → ((t : TxPool) → IsFree s n h t → IsIndexed (rest t).1)
    → IsIndexed (after r (λ _. rest)).1
prepares_then s n h (ok done, t) rest p next = next t (p.1 t refl)
prepares_then s n h (err why, t) rest p next = p.0
prepares_then s n h (Outcome.panic, t) rest p next = p.0

free_then :
    (s n h : ℕ) (r : Outcome TxPoolError (Unit {0}) × TxPool) {A : Type 0}
    (rest : Action TxPool TxPoolError A)
    → FreeAfter s n h r
    → ((t : TxPool) → IsFree s n h t → IsIndexed (rest t).1)
    → IsIndexed (after r (λ _. rest)).1
free_then s n h (ok done, t) rest p next = next t p
free_then s n h (err why, t) rest p next = p.0
free_then s n h (Outcome.panic, t) rest p next = p.0

rejects_then :
    (refused : Bool) (why : TxPoolError) (pool : TxPool) {A : Type 0}
    (rest : Action TxPool TxPoolError A)
    → IsIndexed pool
    → (refused ≡ false → IsIndexed (rest pool).1)
    → IsIndexed ((reject_if refused why >> rest) pool).1
rejects_then true why pool rest p next = p
rejects_then false why pool rest p next = next refl

insert_tx-IsIndexed :
    (hash : ℕ) (tx : SignedTransaction) (sender now : ℕ) (pool : TxPool)
    → IsFree sender tx.payload.nonce hash pool
    → IsIndexed (insert_tx hash tx sender now pool)
unfolding insert_tx
insert_tx-IsIndexed hash tx sender now pool (indexed, free, new) =
    inserted-Agrees hash (record { tx = tx; sender = sender; inserted_at = now }) pool.by_hash
      pool.by_sender pool.known indexed new free

not_pending :
    (h : ℕ) (pool : TxPool)
    → IsIndexed pool
    → contains h pool.known ≡ false
    → get h pool.by_hash ≡ none
not_pending h pool (there, back, seen) unknown = elim (Option-cases (get h pool.by_hash)) [
  | inl none_ ↦ none_
  | inr (e, is) ↦ absurd (ground (arith, seen h e))
]

-- Adding a transaction keeps the indexes of the pool in step, whether it is accepted, replaces
-- another, evicts another or is refused half way: the transactions by hash and by sender and nonce
-- are the same ones, and the hashes of all of them are known.
pub add-IsIndexed :
    (hash_of : TransactionPayload → ℕ) (tx : SignedTransaction) (sender account_nonce now : ℕ)
    (pool : TxPool)
    → IsIndexed pool
    → IsIndexed (add hash_of tx sender account_nonce now pool).1
unfolding add
add-IsIndexed hash_of tx sender account_nonce now pool indexed =
    let hash = hash_of tx.payload in
    let nonce = tx.payload.nonce in
    let price = tx.payload.gas_price in
    rejects_then (contains hash pool.known) _ pool _ indexed (λ unknown.
      rejects_then (ltb price pool.config.min_gas_price) _ pool _ indexed (λ _.
        rejects_then (ltb nonce account_nonce) _ pool _ indexed (λ _.
          prepares_then sender nonce hash (replace_by_fee tx sender pool) _
            (replace_by_fee-Prepares tx sender hash pool indexed
              (not_pending hash pool indexed unknown))
            (λ t free.
              free_then sender nonce hash (make_room price t) _
                (make_room-IsFree sender nonce hash price t free)
                (λ u free'.
                  free_then sender nonce hash (make_room_for sender price u) _
                    (make_room_for-IsFree sender nonce hash sender price u free')
                    (λ v free''. insert_tx-IsIndexed hash tx sender now v free''))))))

inserted_known :
    (h : ℕ) (tx : SignedTransaction) (sender now : ℕ) (pool : TxPool) (hash : ℕ)
    → h ≡ hash
    → contains hash (insert_tx h tx sender now pool).known ≡ true
unfolding insert_tx
inserted_known h tx sender now pool hash same =
    ground (arith, contains-set_insert hash h pool.known, nat_key_iff hash h)

refuses :
    (h hash : ℕ) (pool : TxPool) (rest : Action TxPool TxPoolError ℕ)
    → h ≡ hash
    → contains hash pool.known ≡ true
    → (reject_if (contains h pool.known) (TxPoolError.already_exists h) >> rest) pool
      ≡ (err (TxPoolError.already_exists hash), pool)
refuses h hash pool rest same known = rw same (rw known refl)

-- The hash of a transaction is that of its payload, which names no sender: once a transaction is
-- accepted, every other one with the same payload is refused as known, and the pool stays as it is,
-- whoever signed it.
pub add-collides :
    (hash_of : TransactionPayload → ℕ) (tx other : SignedTransaction)
    (sender account_nonce now sender' account_nonce' now' : ℕ) (pool : TxPool) {hash : ℕ}
    {pool' : TxPool}
    → add hash_of tx sender account_nonce now pool ≡ (ok hash, pool')
    → other.payload ≡ tx.payload
    → add hash_of other sender' account_nonce' now' pool'
      ≡ (err (TxPoolError.already_exists hash), pool')
unfolding add
add-collides hash_of tx other sender account_nonce now sender' account_nonce' now' pool {hash}
      {pool'} h same =
    let price = tx.payload.gas_price in
    let (_, h1) = reject_if-eq-ok (contains (hash_of tx.payload) pool.known) _ pool _ h in
    let (_, h2) = reject_if-eq-ok (ltb price pool.config.min_gas_price) _ pool _ h1 in
    let (_, h3) = reject_if-eq-ok (ltb tx.payload.nonce account_nonce) _ pool _ h2 in
    let (_, t, e1, h4) = after-eq-ok (replace_by_fee tx sender pool) _ h3 in
    let (_, u, e2, h5) = after-eq-ok (make_room price t) _ h4 in
    let (_, v, e3, h6) = after-eq-ok (make_room_for sender price u) _ h5 in
    let (hashed, stored) = pure-eq-ok h6 in
    let known : contains hash pool'.known ≡ true =
      ap (contains hash) (ap (λ x. x.known) (sym stored))
      ∙ inserted_known (hash_of tx.payload) tx sender now v hash hashed in
    let other_hash : hash_of other.payload ≡ hash = ap hash_of same ∙ hashed in
    refuses (hash_of other.payload) hash pool' _ other_hash known
