-- ===== src/Consensus/Tests.antt =====
-- The theorems on crates/vtt-consensus at three validators and small amounts.
use vtt.Prelude.{ℕ, ◌*◌, ◌<◌, ◌≤◌, ◌≡◌, refl, [], ◌∷◌, true, ◌&&◌, arith, length}
use vtt.Prelude.Keys.{nat_key}
use vtt.Prelude.Map.{get, get_or}
use vtt.Prelude.Sets.{contains, set_insert, IsNodup, count}
use vtt.Consensus.Finality.{FinalityVote, FinalityTracker, threshold, count_vote, submit_vote}
use vtt.Consensus.Finality.Quorum.{quorums_overlap}
use vtt.Consensus.Finality.Progress.{IsPending, submit_vote_final}
use vtt.Consensus.Rewards.{}
use vtt.Consensus.Slashing.{}

-- Three validators, two of which have voted for block 5.
abbrev waiting : FinalityTracker
waiting = record {
  votes = (50, 1 ∷ 2 ∷ []) ∷ [];
  block_numbers = (50, 5) ∷ [];
  finalized_number = 4;
  finalized_hash = 40;
  validator_count = 3;
}

abbrev third : FinalityVote
third = record { voter = 3; block_hash = 50; block_number = 5 }

waiting-IsPending : IsPending waiting
unfolding get contains
waiting-IsPending = record {
  above = λ h n e. ground arith;
  numbered = λ h e. ground arith;
  once = λ h vs e. ground arith;
}

third_finalizes : (submit_vote third waiting).0 ≡ true
unfolding submit_vote count_vote threshold get set_insert contains
third_finalizes = refl

submit_vote_final_example :
    let voters = set_insert 3 (get_or (get 50 waiting.votes) []) in
    let t' = (submit_vote third waiting).1 in
    IsNodup voters
    × (threshold waiting ≤ length voters)
    × (t'.finalized_number ≡ 5)
    × (t'.finalized_hash ≡ 50)
    × (4 < t'.finalized_number)
submit_vote_final_example = submit_vote_final third waiting waiting-IsPending third_finalizes

three_reach : threshold waiting ≤ 3
unfolding threshold
three_reach = ground arith

quorums_overlap_example :
    3
    < 3
      * count {A = ℕ}
          (λ v. contains v (1 ∷ 2 ∷ 3 ∷ []) && contains v (3 ∷ 1 ∷ 2 ∷ []))
          (1 ∷ 2 ∷ 3 ∷ [])
unfolding contains
quorums_overlap_example =
    quorums_overlap waiting (1 ∷ 2 ∷ 3 ∷ []) (1 ∷ 2 ∷ 3 ∷ []) (3 ∷ 1 ∷ 2 ∷ []) refl (omega arith)
      (omega arith) (refl, (refl, (refl, tt))) (refl, (refl, (refl, tt))) (refl, (refl, (refl, tt)))
      (refl, (refl, (refl, tt))) three_reach three_reach
