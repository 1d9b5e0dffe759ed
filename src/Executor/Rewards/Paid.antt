-- ===== src/Executor/Rewards/Paid.antt =====
-- `distribute_producer_reward` of crates/vtt-executor/src/lib.rs pays out the reward exactly.
use vtt.Prelude.{
  ℕ, ◌+◌, ◌-◌, ◌*◌, ◌≡◌, ◌≤◌, ◌<◌, sym, ap, List, [], ◌∷◌, arith, some, ◌==◌, if◌then◌else◌,
  saturating_add, u128_mod, Bool-cases, inl, inr,
}
use vtt.Prelude.Squares.{mul_mono}
use native.Mathlib.Nat.{div-mul-le_self}
use vtt.State.Account.{StakingState, Delegation}
use vtt.State.Db.{StateDb, get_account}
use vtt.State.Value.{account_value, add_balance-account_value}
use vtt.Consensus.Rewards.{split_producer_reward, splits_conserve}
use vtt.Executor.Stake.Ledger.{delegated, IsBalanced}
use vtt.Executor.Rewards.{
  credit_reward, share_of, pay_delegators, pay_stakers, reward_staked, distribute_producer_reward,
}

account_value-credit_reward :
    (a x : ℕ) (s : StateDb)
    → account_value s + x < u128_mod
    → account_value (credit_reward a x s) ≡ account_value s + x
unfolding credit_reward
account_value-credit_reward a x s fits = ground (arith, add_balance-account_value a x s)

-- The shares of the delegators.
unfoldable pub shares : ℕ → ℕ → List Delegation → ℕ
shares pool total [] = 0
shares pool total (d ∷ ds) = share_of d.amount pool total + shares pool total ds

share_exact :
    (stake pool total : ℕ)
    → stake * pool < u128_mod
    → share_of stake pool total * total ≤ stake * pool
share_exact stake pool total fits = ground (arith, div-mul-le_self (stake * pool) total)

split_product : (a b c m : ℕ) → (a + b) * c < m → (a * c < m) × (b * c < m)
split_product a b c m h = (grind arith, grind arith)

add_products : (x y c a b p : ℕ) → x * c ≤ a * p → y * c ≤ b * p → (x + y) * c ≤ (a + b) * p
add_products x y c a b p h k = grind arith

shares-le :
    (pool total : ℕ) (ds : List Delegation)
    → delegated ds * pool < u128_mod
    → shares pool total ds * total ≤ delegated ds * pool
unfolding shares delegated
shares-le pool total [] fits = omega arith
shares-le pool total (d ∷ ds) fits =
    let parts = split_product d.amount (delegated ds) pool u128_mod fits in
    add_products (share_of d.amount pool total) (shares pool total ds) total d.amount (delegated ds)
      pool (share_exact d.amount pool total parts.0) (shares-le pool total ds parts.1)

pay_delegators_pays :
    (pool total paid : ℕ) (ds : List Delegation) (s : StateDb)
    → account_value s + shares pool total ds < u128_mod
    → paid + shares pool total ds < u128_mod
    → let (paid', s') = pay_delegators pool total ds paid s in
      (paid' ≡ paid + shares pool total ds)
      × (account_value s' ≡ account_value s + shares pool total ds)
unfolding pay_delegators shares
pay_delegators_pays pool total paid [] s fits small = (omega arith, omega arith)
pay_delegators_pays pool total paid (d ∷ ds) s fits small =
    let share = share_of d.amount pool total in
    let here = account_value-credit_reward d.delegator share s (omega arith) in
    let sum : (if share == 0 then paid else saturating_add paid share) ≡ paid + share =
      ground arith in
    let rest =
      pay_delegators_pays pool total (paid + share) ds (credit_reward d.delegator share s)
        (omega (arith, here)) (omega arith) in
    let next = credit_reward d.delegator share s in
    let moved = ap (λ p. (pay_delegators pool total ds p next).0) sum in
    let moved' = ap (λ p. account_value (pay_delegators pool total ds p next).1) sum in
    (omega (arith, moved, rest), omega (arith, moved', rest, here))

at_most : (a b c d : ℕ) → a * c ≤ d * b → d ≤ c → 0 < c → a ≤ b
at_most a b c d le small pos = grind arith

pay_stakers_pays :
    (validator pool : ℕ) (st : StakingState) (s : StateDb)
    → IsBalanced st
    → 0 < st.total_stake
    → st.total_stake * pool < u128_mod
    → account_value s + pool < u128_mod
    → account_value (pay_stakers validator st pool s) ≡ account_value s + pool
unfolding pay_stakers
pay_stakers_pays validator pool st s balanced pos fits small =
    let own = share_of st.self_stake pool st.total_stake in
    let whole : (st.self_stake + delegated st.delegations) * pool < u128_mod =
      rw (sym balanced) fits in
    let parts = split_product st.self_stake (delegated st.delegations) pool u128_mod whole in
    let bound =
      at_most (own + shares pool st.total_stake st.delegations) pool st.total_stake
        (st.self_stake + delegated st.delegations)
        (add_products own (shares pool st.total_stake st.delegations) st.total_stake st.self_stake
          (delegated st.delegations) pool (share_exact st.self_stake pool st.total_stake parts.0)
          (shares-le pool st.total_stake st.delegations parts.1))
        (omega (arith, balanced)) pos in
    let s1 = credit_reward validator own s in
    let first = account_value-credit_reward validator own s (omega (arith, bound)) in
    let spread =
      pay_delegators_pays pool st.total_stake own st.delegations s1 (omega (arith, bound, first))
        (omega (arith, bound)) in
    let (paid, s2) = pay_delegators pool st.total_stake st.delegations own s1 in
    let dust =
      account_value-credit_reward validator (pool - paid) s2
        (omega (arith, spread, first, bound)) in
    ground (arith, first, spread, bound, dust)

reward_staked_pays :
    (validator reward : ℕ) (st : StakingState) (s : StateDb)
    → IsBalanced st
    → 0 < st.total_stake
    → st.commission_bps ≤ 10_000
    → reward * 10_000 < u128_mod
    → st.total_stake * reward < u128_mod
    → account_value s + reward < u128_mod
    → account_value (reward_staked validator reward st s) ≡ account_value s + reward
unfolding reward_staked
reward_staked_pays validator reward st s balanced pos honest fits product small =
    let (_, _, _, _, split) = splits_conserve reward st.commission_bps fits honest in
    let commission = (split_producer_reward reward st.commission_bps).validator_commission in
    let pool = (split_producer_reward reward st.commission_bps).staker_rewards in
    let first = account_value-credit_reward validator commission s (omega (arith, split)) in
    let less =
      mul_mono st.total_stake st.total_stake pool reward (omega arith) (omega (arith, split)) in
    let rest =
      pay_stakers_pays validator pool st (credit_reward validator commission s) balanced pos
        (omega (arith, less)) (omega (arith, first, split)) in
    ground (arith, first, rest, split)

-- For a producer with a staking state whose total is the sum of its own stake and its delegations, and
-- with a commission of at most 100 percent, a reward is paid out exactly: commission, shares and the
-- dust of rounding together add the reward to the money of all accounts. The money of all accounts
-- with the reward, the total stake times the reward, and 10,000 times the reward must fit 128 bits.
pub distribute_producer_reward-pays :
    (validator reward : ℕ) (st : StakingState) (s : StateDb)
    → (get_account validator s).staking ≡ some st
    → IsBalanced st
    → st.commission_bps ≤ 10_000
    → reward * 10_000 < u128_mod
    → st.total_stake * reward < u128_mod
    → account_value s + reward < u128_mod
    → account_value (distribute_producer_reward validator reward s) ≡ account_value s + reward
unfolding distribute_producer_reward
distribute_producer_reward-pays validator reward st s found balanced honest fits product small =
    let direct = account_value-credit_reward validator reward s small in
    elim (Bool-cases (st.total_stake == 0)) [
      | inl none_ ↦ ground (arith, direct)
      | inr some_ ↦
          let staked_ =
            reward_staked_pays validator reward st s balanced (ground arith) honest fits product
              small in
          ground (arith, direct, staked_)
    ]
