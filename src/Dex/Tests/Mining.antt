-- ===== src/Dex/Tests/Mining.antt =====
-- The theorem on the claims of crates/vtt-dex/src/mining.rs at two holders of shares.
use vtt.Prelude.{◌*◌, ◌^◌, ◌≡◌, [], ◌∷◌, arith}
use vtt.Dex.Math.Formulas.{mul_div}
use vtt.Dex.Mining.{MiningState, precision, share_or_zero, total_earned}

-- Three units for each share so far.
abbrev running : MiningState
running = record {
  config = record { pool_id = 9; total_budget = 1_000; source = 5; phases = [] };
  start_epoch = 0;
  reward_per_lp_accumulated = 3 * 10 ^ 18;
  last_update_epoch = 4;
  total_distributed = 0;
  claims = (2, record { reward_debt = 6; unclaimed = 1 }) ∷ [];
}

earned_by_10 : total_earned 10 running ≡ 30
unfolding total_earned share_or_zero
earned_by_10 =
    let share = mul_div 10 (3 * 10 ^ 18) precision (omega arith) (omega arith) (omega arith) in
    ground (arith, share)

earned_by_4 : total_earned 4 running ≡ 12
unfolding total_earned share_or_zero
earned_by_4 =
    let share = mul_div 4 (3 * 10 ^ 18) precision (omega arith) (omega arith) (omega arith) in
    ground (arith, share)
