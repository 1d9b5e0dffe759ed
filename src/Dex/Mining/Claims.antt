-- ===== src/Dex/Mining/Claims.antt =====
-- Claims of crates/vtt-dex/src/mining.rs, one after the other.
use vtt.Prelude.{ℕ, ◌≤◌, ◌≡◌, ◌≢◌, refl, arith}
use vtt.Prelude.Keys.{nat_key}
use vtt.Prelude.Map.{get-insert}
use vtt.Dex.Mining.{MiningClaim, MiningState, total_earned, pending_rewards, claim}

-- What is earned depends on the accumulated rewards alone.
earned_at :
    (lp : ℕ) (m m' : MiningState)
    → m.reward_per_lp_accumulated ≡ m'.reward_per_lp_accumulated
    → total_earned lp m ≡ total_earned lp m'
unfolding total_earned
earned_at lp m m' e = ground arith

-- Directly after a claim the same user has nothing left to claim, at this balance or a smaller one
-- that has earned no more, and what another user has pending is as before.
pub claim_leaves :
    (lp less lp' user other : ℕ) (m : MiningState)
    → total_earned less m ≤ total_earned lp m
    → other ≢ user
    → let m' = (claim lp user m).1 in
      (pending_rewards less user m' ≡ 0)
      × (pending_rewards lp' other m' ≡ pending_rewards lp' other m)
unfolding claim pending_rewards
claim_leaves lp less lp' user other m h ne =
    let new : MiningClaim = record { reward_debt = total_earned lp m; unclaimed = 0 } in
    let m' = (claim lp user m).1 in
    let same = earned_at less m' m refl in
    let same' = earned_at lp' m' m refl in
    (
      ground (arith, get-insert user user new m.claims),
      ground (arith, get-insert other user new m.claims),
    )
