-- ===== src/Consensus/Finality/Quorum.antt =====
-- The threshold of crates/vtt-consensus/src/finality.rs and the voters that two quorums share.
use vtt.Prelude.{
  ℕ, ◌+◌, ◌*◌, ◌/◌, ◌≤◌, ◌<◌, ◌≡◌, List, [], ◌∷◌, true, false, ◌&&◌, arith, ◌==◌, length, u64_mod,
  Bool-cases, inl, inr, subst,
}
use vtt.Prelude.Keys.{nat_key}
use vtt.Prelude.Sets.{contains, IsNodup, count, count-overlap}
use vtt.Consensus.Finality.{FinalityTracker, threshold}

-- Every member of the first list is in the second.
abbrev pub IsAmong : List ℕ → List ℕ → Type 0
IsAmong [] ys = Unit
IsAmong (x ∷ xs) ys = (contains x ys ≡ true) × IsAmong xs ys

count_more :
    (x : ℕ) (xs ys : List ℕ) → count (λ y. contains y xs) ys ≤ count (λ y. contains y (x ∷ xs)) ys
unfolding count contains
count_more x xs [] = omega arith
count_more x xs (y ∷ ys) = ground (arith, count_more x xs ys)

count_one_more :
    (x : ℕ) (xs ys : List ℕ)
    → contains x ys ≡ true
    → contains x xs ≡ false
    → count (λ y. contains y xs) ys + 1 ≤ count (λ y. contains y (x ∷ xs)) ys
unfolding count contains
count_one_more x xs [] h k = cc
count_one_more x xs (y ∷ ys) h k = elim (Bool-cases (x == y)) [
  | inl same ↦
      let e : x ≡ y = ground arith in
      let out : contains y xs ≡ false = subst (λ z. contains z xs ≡ false) e k in
      ground (arith, count_more x xs ys)
  | inr other ↦ ground (arith, count_one_more x xs ys)
]

-- Distinct voters of a list of validators are counted among it.
pub length-le-count :
    (xs ys : List ℕ) → IsNodup xs → IsAmong xs ys → length xs ≤ count (λ y. contains y xs) ys
length-le-count [] ys h k = omega arith
length-le-count (x ∷ xs) ys h k =
    omega (arith, length-le-count xs ys h.1 k.1, count_one_more x xs ys k.0 h.0)

threshold_lem :
    (t : FinalityTracker) (n : ℕ)
    → t.validator_count ≡ n
    → 0 < n
    → n * 2 < u64_mod
    → threshold t ≡ n * 2 / 3 + 1
unfolding threshold
threshold_lem t n e pos fits = ground arith

-- Two sets of distinct validators that both reach the threshold share more than a third of all
-- validators, where there is a validator, the tracker counts them rightly, and twice their number
-- fits 64 bits.
pub quorums_overlap :
    (t : FinalityTracker) (validators a b : List ℕ)
    → t.validator_count ≡ length validators
    → 0 < length validators
    → length validators * 2 < u64_mod
    → IsNodup a
    → IsNodup b
    → IsAmong a validators
    → IsAmong b validators
    → threshold t ≤ length a
    → threshold t ≤ length b
    → length validators < 3 * count (λ v. contains v a && contains v b) validators
quorums_overlap t vs a b n pos fits na nb ia ib qa qb =
    let overlap = count-overlap (λ v. contains v a) (λ v. contains v b) vs in
    let in_a = length-le-count a vs na ia in
    let in_b = length-le-count b vs nb ib in
    let quorum = threshold_lem t (length vs) n pos fits in
    omega (arith, overlap, in_a, in_b, quorum)
