-- ===== src/Consensus/Finality/Progress.antt =====
-- The votes that a `FinalityTracker` of crates/vtt-consensus/src/finality.rs holds.
use vtt.Prelude.{
  ℕ, ◌≤◌, ◌<◌, ◌≡◌, refl, List, [], ◌∷◌, true, false, none, some, arith, leb, ◌==◌, if◌then◌else◌,
  length, Option-cases, Bool-cases, subst, not-leb→lt, inl, inr,
}
use vtt.Prelude.Keys.{nat_key}
use vtt.Prelude.Map.{Map, get, insert, remove, get_or, get-insert, get-remove}
use vtt.Prelude.Sets.{contains, set_insert, IsNodup, set_insert-IsNodup}
use vtt.Consensus.Finality.{
  FinalityVote, FinalityTracker, threshold, stale, remove_all, cleanup, count_vote, submit_vote,
}

get-remove_all {κ} :
    {V : Type κ} (h : ℕ) (hs : List ℕ) (m : Map ℕ V)
    → get h (remove_all hs m) ≡ (if contains h hs then none else get h m)
unfolding remove_all contains
get-remove_all h [] m = refl
get-remove_all h (k ∷ hs) m = ground (arith, get-remove_all h hs (remove k m), get-remove h k m)

-- A block whose number is at or below the finalized one is removed.
stale-contains :
    (f h n : ℕ) (m : Map ℕ ℕ) → get h m ≡ some n → n ≤ f → contains h (stale f m) ≡ true
unfolding stale contains get
stale-contains f h n [] e le = cc
stale-contains f h n ((k, v) ∷ m) e le = ground (arith, stale-contains f h n m)

-- What is known of every block that still has votes: its number lies above the finalized one, and
-- its voters are listed once each.
pub record IsPending (t : FinalityTracker) : Type 0 where
  pub above : (h n : ℕ) → get h t.block_numbers ≡ some n → t.finalized_number < n
  pub numbered : (h : ℕ) → get h t.block_numbers ≡ none → get h t.votes ≡ none
  pub once : (h : ℕ) (vs : List ℕ) → get h t.votes ≡ some vs → IsNodup vs

abbrev voters_of : ℕ → FinalityTracker → List ℕ
voters_of h t = get_or (get h t.votes) []

voters_of-IsNodup : (h : ℕ) (t : FinalityTracker) → IsPending t → IsNodup (voters_of h t)
voters_of-IsNodup h t p = elim (Option-cases (get h t.votes)) [
  | inl e ↦ rw e tt
  | inr (vs, e) ↦ rw e (p.once h vs e)
]

-- The tracker with a vote recorded, before the count.
abbrev recorded : FinalityVote → FinalityTracker → FinalityTracker
recorded v t = record t {
  block_numbers = insert v.block_hash v.block_number t.block_numbers;
  votes = insert v.block_hash (set_insert v.voter (voters_of v.block_hash t)) t.votes;
}

some_eq : {a b : List ℕ} → some a ≡ some b → a ≡ b
some_eq e = cc

inserted-IsNodup :
    (h k : ℕ) (xs vs : List ℕ) (m : Map ℕ (List ℕ))
    → IsNodup xs
    → ((ys : List ℕ) → get h m ≡ some ys → IsNodup ys)
    → get h (insert k xs m) ≡ some vs
    → IsNodup vs
inserted-IsNodup h k xs vs m p q e = elim (Bool-cases (h == k)) [
  | inl same ↦ subst IsNodup (some_eq (rw (get-insert h k xs m, same) at e)) p
  | inr other ↦ q vs (rw (get-insert h k xs m, other) at e)
]

recorded-IsPending :
    (v : FinalityVote) (t : FinalityTracker)
    → t.finalized_number < v.block_number
    → IsPending t
    → IsPending (recorded v t)
recorded-IsPending v t up p = record {
  above = λ h n e.
      ground (arith, p.above h n, get-insert h v.block_hash v.block_number t.block_numbers);
  numbered = λ h e. ground (
    arith,
    p.numbered h,
    get-insert h v.block_hash v.block_number t.block_numbers,
    get-insert h v.block_hash (set_insert v.voter (voters_of v.block_hash t)) t.votes,
  );
  once = λ h vs.
      inserted-IsNodup h v.block_hash _ vs t.votes
        (set_insert-IsNodup v.voter (voters_of v.block_hash t) (voters_of-IsNodup v.block_hash t p))
        (p.once h);
}

cleanup-IsPending :
    (f hash : ℕ) (t : FinalityTracker)
    → IsPending t
    → IsPending (cleanup (record t { finalized_number = f; finalized_hash = hash }))
unfolding cleanup
cleanup-IsPending f hash t p =
    let gone = stale f t.block_numbers in
    record {
      above = λ h n e.
          ground
            (arith, get-remove_all h gone t.block_numbers, stale-contains f h n t.block_numbers);
      numbered = λ h e. ground (
        arith,
        p.numbered h,
        get-remove_all h gone t.block_numbers,
        get-remove_all h gone t.votes,
      );
      once = λ h vs e. p.once h vs (ground (arith, get-remove_all h gone t.votes));
    }

-- A vote keeps what is known of the pending blocks, whether it finalizes its block, is only counted
-- or is ignored.
pub submit_vote-IsPending :
    (v : FinalityVote) (t : FinalityTracker) → IsPending t → IsPending (submit_vote v t).1
unfolding submit_vote count_vote
submit_vote-IsPending v t p = elim (Bool-cases (leb v.block_number t.finalized_number)) [
  | inl late ↦ rw late p
  | inr new ↦
      let up = not-leb→lt v.block_number t.finalized_number new in
      let r = recorded-IsPending v t up p in
      elim (Bool-cases
        (leb (threshold t) (length (set_insert v.voter (voters_of v.block_hash t))))) [
          | inl final ↦
              rw (new, final) (cleanup-IsPending v.block_number v.block_hash (recorded v t) r)
          | inr counted ↦ rw (new, counted) r
        ]
]

-- When a vote finalizes its block, with the pending blocks in order, distinct voters in the number
-- of the threshold have voted for it: this voter and those that were recorded before. The finalized
-- block is then this one, and its number has gone up.
pub submit_vote_final :
    (v : FinalityVote) (t : FinalityTracker)
    → IsPending t
    → (submit_vote v t).0 ≡ true
    → let voters = set_insert v.voter (get_or (get v.block_hash t.votes) []) in
      let t' = (submit_vote v t).1 in
      IsNodup voters
      × (threshold t ≤ length voters)
      × (t'.finalized_number ≡ v.block_number)
      × (t'.finalized_hash ≡ v.block_hash)
      × (t.finalized_number < t'.finalized_number)
unfolding submit_vote count_vote cleanup
submit_vote_final v t p h = (
  set_insert-IsNodup v.voter (voters_of v.block_hash t) (voters_of-IsNodup v.block_hash t p),
  ground arith,
  ground arith,
  ground arith,
  ground arith,
)

-- The finalized number never falls.
pub submit_vote_monotone :
    (v : FinalityVote) (t : FinalityTracker)
    → t.finalized_number ≤ (submit_vote v t).1.finalized_number
unfolding submit_vote count_vote cleanup
submit_vote_monotone v t = ground arith

-- The finalized block changes only when a vote finalizes one.
pub submit_vote_kept :
    (v : FinalityVote) (t : FinalityTracker)
    → (submit_vote v t).0 ≡ false
    → ((submit_vote v t).1.finalized_hash ≡ t.finalized_hash)
      × ((submit_vote v t).1.finalized_number ≡ t.finalized_number)
unfolding submit_vote count_vote
submit_vote_kept v t h = ground arith
