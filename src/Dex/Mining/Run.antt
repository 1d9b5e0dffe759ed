-- ===== src/Dex/Mining/Run.antt =====
-- `claim_mining_rewards` of crates/vtt-dex/src/mining.rs, on the state database and a mining state.
use vtt.Prelude.{ℕ, ◌==◌}
use vtt.Prelude.Outcome.{Outcome}
use vtt.Prelude.Action.{Action, ◌>>=◌, ◌>>◌, pure, lift, gets, modify, map_err, reject_if}
use vtt.Primitives.Amount.{Amount}
use vtt.State.Db.{StateDb, get_ownership, sub_balance, add_balance}
use vtt.Dex.Error.{DexError}
use vtt.Dex.Pool.{DexAction, Externals, load_pool}
use vtt.Dex.Mining.{MiningState, update_to_epoch, claim}

abbrev pub MiningAction : Type 0 → Type 0
MiningAction A = Action (StateDb × MiningState) DexError A

-- A call on the state database, and one on the mining state.
abbrev pub on_db : {A : Type 0} → DexAction A → MiningAction A
on_db call (s, m) = let (r, s') = call s in (r, (s', m))

abbrev pub on_mining : {A : Type 0} → (MiningState → A × MiningState) → MiningAction A
on_mining call (s, m) = let (r, m') = call m in lift (Outcome.ok r) (s, m')

module _ (ext : Externals) where
  unfoldable pub claim_mining_rewards : ℕ → ℕ → ℕ → MiningAction Amount
  claim_mining_rewards sender pool_id current_epoch = do
    pool ← on_db (load_pool ext pool_id)
    modify (λ (s, m). (s, update_to_epoch current_epoch pool.lp_total_supply m))
    ownership ← on_db (gets (get_ownership pool.lp_token_id sender))
    let user_lp = ownership.available
    reject_if (user_lp == 0) DexError.nothing_to_claim
    reward ← on_mining (claim user_lp sender)
    reject_if (reward == 0) DexError.nothing_to_claim
    (_, mining_state) ← gets (λ s. s)
    on_db (
        map_err (sub_balance mining_state.config.source reward)
          (λ _. DexError.insufficient_balance))
    on_db (map_err (add_balance sender reward) (λ _. DexError.overflow))
    pure reward
