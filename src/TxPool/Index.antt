-- ===== src/TxPool/Index.antt =====
-- The two indexes of the pool of crates/vtt-txpool/src/lib.rs agree.
use vtt.Prelude.{
  ℕ, ◌≡◌, refl, sym, subst, ◌⊎◌, List, [], ◌∷◌, true, arith, none, some, ◌==◌, if◌then◌else◌, ◌&&◌,
  Bool-cases, Option-cases, inl, inr,
}
use vtt.Prelude.Keys.{nat_key, nat_key_iff}
use vtt.Prelude.Sets.{contains, set_insert, set_remove, contains-set_insert, contains-set_remove}
use vtt.Prelude.Map.{Map, get, insert, remove, get_or, get-insert, get-remove}
use vtt.TxPool.{
  TxPool, PoolEntry, nonce_of, filed, insert_ordered, put_or_drop, unfile, file, remove_tx, forget,
  or_default,
}

get-insert_ordered :
    (k j v : ℕ) (m : Map ℕ ℕ) → get k (insert_ordered j v m) ≡ (if k == j then some v else get k m)
unfolding get insert_ordered
get-insert_ordered k j v [] = refl
get-insert_ordered k j v ((i, w) ∷ m) = ground (arith, get-insert_ordered k j v m)

filed-file :
    (s n s' n' h : ℕ) (m : Map ℕ (Map ℕ ℕ))
    → filed s n (file s' n' h m) ≡ (if s == s' && n == n' then some h else filed s n m)
unfolding filed file get
filed-file s n s' n' h m =
    let outer = get-insert s s' (insert_ordered n' h (get_or (get s' m) [])) m in
    let inner = get-insert_ordered n n' h (get_or (get s' m) []) in
    elim (Bool-cases (s == s')) [
      | inl same ↦ elim (Option-cases (get s' m)) [
        | inl new ↦ ground (arith, outer, inner)
        | inr (txs, e) ↦ ground (arith, outer, inner)
      ]
      | inr other ↦ ground (arith, outer)
    ]

get-put_or_drop :
    (s s' n : ℕ) (txs : Map ℕ ℕ) (m : Map ℕ (Map ℕ ℕ))
    → filed s n (put_or_drop s' txs m) ≡ (if s == s' then get n txs else filed s n m)
unfolding filed get
get-put_or_drop s s' n [] m = ground (arith, get-remove s s' m)
get-put_or_drop s s' n (t ∷ txs) m = ground (arith, get-insert s s' (t ∷ txs) m)

filed-unfile :
    (s n s' n' : ℕ) (m : Map ℕ (Map ℕ ℕ))
    → filed s n (unfile s' n' m) ≡ (if s == s' && n == n' then none else filed s n m)
unfolding filed unfile
filed-unfile s n s' n' m = elim (Option-cases (get s' m)) [
  | inl new ↦ ground arith
  | inr (txs, e) ↦ ground (arith, get-put_or_drop s s' n (remove n' txs) m, get-remove n n' txs)
]

-- Every transaction is filed under its sender and nonce, every hash that is filed is that of a
-- transaction of that sender and nonce, and the hashes of all transactions are known.
abbrev pub Agrees : Map ℕ PoolEntry → Map ℕ (Map ℕ ℕ) → List ℕ → Type 0
Agrees by_hash by_sender known =
    ((h : ℕ) (e : PoolEntry)
      → get h by_hash ≡ some e
      → filed e.sender (nonce_of e) by_sender ≡ some h)
    × ((s n h : ℕ)
        → filed s n by_sender ≡ some h
        → (e : PoolEntry) × (get h by_hash ≡ some e) × (e.sender ≡ s) × (nonce_of e ≡ n))
    × ((h : ℕ) (e : PoolEntry) → get h by_hash ≡ some e → contains h known ≡ true)

abbrev pub IsIndexed : TxPool → Type 0
IsIndexed pool = Agrees pool.by_hash pool.by_sender pool.known

removed-Agrees :
    (hash : ℕ) (e : PoolEntry) (bh : Map ℕ PoolEntry) (bs : Map ℕ (Map ℕ ℕ)) (kn : List ℕ)
    → Agrees bh bs kn
    → get hash bh ≡ some e
    → Agrees (remove hash bh) (unfile e.sender (nonce_of e) bs) kn
removed-Agrees hash e bh bs kn (there, back, seen) found = (
  λ h x k.
      let gone = get-remove h hash bh in
      let left = filed-unfile x.sender (nonce_of x) e.sender (nonce_of e) bs in
      ground (arith, gone, left, there h x, there hash e),
  λ s n h k.
      let left = filed-unfile s n e.sender (nonce_of e) bs in
      let (x, is, by, at) = back s n h (ground (arith, left)) in
      let gone = get-remove h hash bh in (x, ground (arith, gone, left), by, at),
  λ h x k. seen h x (ground (arith, get-remove h hash bh)),
)

forgotten-Agrees :
    (hash : ℕ) (bh : Map ℕ PoolEntry) (bs : Map ℕ (Map ℕ ℕ)) (kn : List ℕ)
    → Agrees bh bs kn
    → get hash bh ≡ none
    → Agrees bh bs (set_remove hash kn)
forgotten-Agrees hash bh bs kn (there, back, seen) gone = (
  there,
  back,
  λ h x k. ground (arith, contains-set_remove h hash kn, seen h x, nat_key_iff h hash),
)

pub inserted-Agrees :
    (hash : ℕ) (e : PoolEntry) (bh : Map ℕ PoolEntry) (bs : Map ℕ (Map ℕ ℕ)) (kn : List ℕ)
    → Agrees bh bs kn
    → get hash bh ≡ none
    → filed e.sender (nonce_of e) bs ≡ none
    → Agrees (insert hash e bh) (file e.sender (nonce_of e) hash bs) (set_insert hash kn)
inserted-Agrees hash e bh bs kn (there, back, seen) new free = (
  λ h x k.
      let here = get-insert h hash e bh in
      let left = filed-file x.sender (nonce_of x) e.sender (nonce_of e) hash bs in
      elim (Bool-cases (h == hash)) [
        | inl same ↦ ground (arith, here, left)
        | inr other ↦ ground (arith, here, left, there h x)
      ],
  λ s n h k.
      let left = filed-file s n e.sender (nonce_of e) hash bs in
      elim (Bool-cases (s == e.sender && n == nonce_of e)) [
        | inl same ↦ (e, ground (arith, left, get-insert h hash e bh), ground arith, ground arith)
        | inr other ↦
            let (x, is, by, at) = back s n h (ground (arith, left)) in
            (x, ground (arith, left, get-insert h hash e bh), by, at)
      ],
  λ h x k. ground (arith, get-insert h hash e bh, contains-set_insert h hash kn, seen h x),
)

-- Removing a transaction leaves the pool alone or takes it out of both indexes.
remove_tx-cases :
    (hash : ℕ) (pool : TxPool)
    → ((get hash pool.by_hash ≡ none) × (remove_tx hash pool ≡ pool))
      ⊎ ((e : PoolEntry) × (get hash pool.by_hash ≡ some e)
          × (remove_tx hash pool ≡ record pool {
            by_hash = remove hash pool.by_hash;
            by_sender = unfile e.sender (nonce_of e) pool.by_sender;
          }))
unfolding remove_tx
remove_tx-cases hash pool = elim (Option-cases (get hash pool.by_hash)) [
  | inl none_ ↦ inl (none_, ground arith)
  | inr (e, found) ↦ inr (e, found, ground arith)
]

pub remove_tx-IsIndexed :
    (hash : ℕ) (pool : TxPool) → IsIndexed pool → IsIndexed (remove_tx hash pool)
remove_tx-IsIndexed hash pool indexed = elim (remove_tx-cases hash pool) [
  | inl (none_, e) ↦ subst IsIndexed (sym e) indexed
  | inr (e, found, eq) ↦
      subst IsIndexed (sym eq)
        (removed-Agrees hash e pool.by_hash pool.by_sender pool.known indexed found)
]

get-remove_tx :
    (k hash : ℕ) (pool : TxPool)
    → get k (remove_tx hash pool).by_hash ≡ (if k == hash then none else get k pool.by_hash)
unfolding remove_tx
get-remove_tx k hash pool = elim (Option-cases (get hash pool.by_hash)) [
  | inl none_ ↦ ground (arith, nat_key_iff k hash)
  | inr (e, found) ↦ ground (arith, get-remove k hash pool.by_hash)
]

pub forget-IsIndexed : (hash : ℕ) (pool : TxPool) → IsIndexed pool → IsIndexed (forget hash pool)
unfolding forget
forget-IsIndexed hash pool indexed =
    let pool' = remove_tx hash pool in
    forgotten-Agrees hash pool'.by_hash pool'.by_sender pool'.known
      (remove_tx-IsIndexed hash pool indexed) (ground (arith, get-remove_tx hash hash pool))

pub get-forget :
    (k hash : ℕ) (pool : TxPool)
    → get k (forget hash pool).by_hash ≡ (if k == hash then none else get k pool.by_hash)
unfolding forget
get-forget k hash pool = get-remove_tx k hash pool

-- What is not filed stays so.
pub filed-forget :
    (s n hash : ℕ) (pool : TxPool)
    → IsIndexed pool
    → filed s n pool.by_sender ≡ none
    → filed s n (forget hash pool).by_sender ≡ none
unfolding forget remove_tx
filed-forget s n hash pool indexed free = elim (Option-cases (get hash pool.by_hash)) [
  | inl none_ ↦ ground arith
  | inr (e, found) ↦ ground (arith, filed-unfile s n e.sender (nonce_of e) pool.by_sender)
]

-- What is forgotten is no longer filed.
pub filed_forgotten :
    (s n hash : ℕ) (pool : TxPool)
    → IsIndexed pool
    → filed s n pool.by_sender ≡ some hash
    → filed s n (forget hash pool).by_sender ≡ none
unfolding forget remove_tx
filed_forgotten s n hash pool (there, back, seen) found =
    let (e, is, by, at) = back s n hash found in
    ground (arith, filed-unfile s n e.sender (nonce_of e) pool.by_sender)

pub filed-or_default :
    (s n sender : ℕ) (pool : TxPool)
    → filed s n (or_default sender pool).by_sender ≡ filed s n pool.by_sender
unfolding filed or_default get
filed-or_default s n sender pool =
    let outer = get-insert s sender (get_or (get sender pool.by_sender) []) pool.by_sender in
    elim (Option-cases (get sender pool.by_sender)) [
      | inl new ↦ ground (arith, outer, nat_key_iff s sender)
      | inr (txs, e) ↦ ground (arith, outer, nat_key_iff s sender)
    ]
