-- ===== src/Consensus/Finality.antt =====
-- crates/vtt-consensus/src/finality.rs
pub mod Quorum
pub mod Progress
use vtt.Prelude.{
  ℕ, ◌+◌, ◌*◌, ◌/◌, ◌%◌, List, [], ◌∷◌, Bool, true, false, leb, ◌==◌, if◌then◌else◌, length,
  u64_mod,
}
use vtt.Prelude.Keys.{nat_key}
use vtt.Prelude.Map.{Map, get, insert, remove, get_or}
use vtt.Prelude.Sets.{set_insert}
use vtt.Primitives.{zero_hash}

-- `struct FinalityVote`
pub record FinalityVote : Type 0 where
  pub voter : ℕ
  pub block_hash : ℕ
  pub block_number : ℕ

-- `struct FinalityTracker`
pub record FinalityTracker : Type 0 where
  pub votes : Map ℕ (List ℕ)
  pub block_numbers : Map ℕ ℕ
  pub finalized_number : ℕ
  pub finalized_hash : ℕ
  pub validator_count : ℕ

-- `FinalityTracker::new`
unfoldable pub new : ℕ → FinalityTracker
new validator_count = record {
  votes = [];
  block_numbers = [];
  finalized_number = 0;
  finalized_hash = zero_hash;
  validator_count = validator_count;
}

-- `set_validator_count`
unfoldable pub set_validator_count : ℕ → FinalityTracker → FinalityTracker
set_validator_count count t = record t { validator_count = count }

-- `threshold`; a `usize` has 64 bits.
unfoldable pub threshold : FinalityTracker → ℕ
threshold t =
    if t.validator_count == 0 then 0 else (t.validator_count * 2 % u64_mod / 3 + 1) % u64_mod

-- `to_remove` of `cleanup`: the hashes of the blocks at or below the finalized number.
unfoldable pub stale : ℕ → Map ℕ ℕ → List ℕ
stale finalized [] = []
stale finalized ((hash, num) ∷ m) =
    if leb num finalized then hash ∷ stale finalized m else stale finalized m

unfoldable pub remove_all {κ} : {V : Type κ} → List ℕ → Map ℕ V → Map ℕ V
remove_all [] m = m
remove_all (h ∷ hs) m = remove_all hs (remove h m)

-- `cleanup`
unfoldable pub cleanup : FinalityTracker → FinalityTracker
unfolding stale remove_all
cleanup t =
    let to_remove = stale t.finalized_number t.block_numbers in
    record t {
      votes = remove_all to_remove t.votes;
      block_numbers = remove_all to_remove t.block_numbers;
    }

-- `submit_vote`, once the vote is for a block above the finalized one.
unfoldable pub count_vote : FinalityVote → FinalityTracker → Bool × FinalityTracker
count_vote vote t =
    let voters = set_insert vote.voter (get_or (get vote.block_hash t.votes) []) in
    let t' = record t {
      block_numbers = insert vote.block_hash vote.block_number t.block_numbers;
      votes = insert vote.block_hash voters t.votes;
    } in
    if leb (threshold t) (length voters)
    then (
      true,
      cleanup
          (record t' { finalized_number = vote.block_number; finalized_hash = vote.block_hash }),
    )
    else (false, t')

-- `submit_vote`, with whether the block became final.
unfoldable pub submit_vote : FinalityVote → FinalityTracker → Bool × FinalityTracker
submit_vote vote t =
    if leb vote.block_number t.finalized_number then (false, t) else count_vote vote t

-- `votes_for`
unfoldable pub votes_for : ℕ → FinalityTracker → ℕ
votes_for block_hash t = length (get_or (get block_hash t.votes) [])

-- `is_finalized`
unfoldable pub is_finalized : ℕ → FinalityTracker → Bool
is_finalized block_number t = leb block_number t.finalized_number
