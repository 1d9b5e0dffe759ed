-- ===== src/Dex/Swap/Run.antt =====
-- `execute_swap` of crates/vtt-dex/src/swap.rs from the stored pool to the stored pool.
use vtt.Prelude.{ℕ, ◌+◌, ◌*◌, ◌≤◌, ◌<◌, ◌≡◌, sym, subst, ◌∙◌, Bool, arith, if◌then◌else◌}
use vtt.Prelude.Outcome.{ok}
use vtt.Prelude.Action.{after-eq-ok, pure-eq-ok, lift-eq-ok, reject_if-eq-ok}
use vtt.State.Db.{StateDb}
use vtt.Dex.Error.{DexError}
use vtt.Dex.Pool.{PoolState, Externals, load_pool, save_pool}
use vtt.Dex.Pool.Store.{load_pool-save_pool}
use vtt.Dex.Quote.{Quote, quote, settle}
use vtt.Dex.Quote.Stages.{HasRoom, reserve_in, reserve_out, quote-IsQuoted}
use vtt.Dex.Quote.Product.{fees_in, settle_keeps_product, settle_accounts}
use vtt.Dex.Swap.{execute_swap}
use vtt.Dex.Tokens.{transfer_token_in, transfer_token_out}

module _ (ext : Externals) (sender pool_id token_in amount_in min_out : ℕ) (s : StateDb) where
  -- The stages of a swap that succeeds.
  pub execute_swap-stages :
      {out : ℕ} {s' : StateDb}
      → execute_swap ext sender pool_id token_in amount_in min_out s ≡ (ok out, s')
      → (pool : PoolState) × (t : StateDb) × (q : Quote) × (u : StateDb) × (load_pool ext pool_id s
          ≡ (ok pool, t))
        × (quote pool token_in amount_in min_out ≡ ok q)
        × (save_pool ext (settle q pool) u ≡ (ok tt, s'))
        × (q.amount_out ≡ out)
  unfolding execute_swap
  execute_swap-stages h =
      let (_, h1) = reject_if-eq-ok s.dex_paused DexError.dex_paused s _ h in
      let (pool, t, e, h2) = after-eq-ok (load_pool ext pool_id s) _ h1 in
      let (q, f, h3) = lift-eq-ok (quote pool token_in amount_in min_out) t _ h2 in
      let (_, u, g, h4) = after-eq-ok (transfer_token_in sender token_in amount_in t) _ h3 in
      let (_, v, k, h5) =
        after-eq-ok
          (transfer_token_out sender (if q.is_a_to_b then pool.token_b else pool.token_a)
            q.amount_out u)
          _ h4 in
      let (_, w, m, h6) = after-eq-ok (save_pool ext (settle q pool) v) _ h5 in
      let (same, last) = pure-eq-ok h6 in
      (pool, t, q, v, e, f, subst (λ z. save_pool ext (settle q pool) v ≡ (ok tt, z)) last m, same)

pub settle-pool_id : (q : Quote) (pool : PoolState) → (settle q pool).pool_id ≡ pool.pool_id
unfolding settle
settle-pool_id q pool = ground arith

-- What a successful swap has done to its pool, which stood at `pool` and stands at `pool'`.
pub record IsSwapped (pool pool' : PoolState) (token_in amount_in min_out out : ℕ) : Type 0 where
  pub product : pool.reserve_a * pool.reserve_b ≤ pool'.reserve_a * pool'.reserve_b
  pub enough : min_out ≤ out
  pub positive : 0 < out
  -- Whether the swap was from token a to token b.
  pub is_a_to_b : Bool
  pub token : token_in ≡ (if is_a_to_b then pool.token_a else pool.token_b)
  pub gained :
      reserve_in is_a_to_b pool' + fees_in is_a_to_b pool'
      ≡ reserve_in is_a_to_b pool + fees_in is_a_to_b pool + amount_in
  pub paid : reserve_out is_a_to_b pool' + out ≡ reserve_out is_a_to_b pool

settle-IsSwapped :
    (pool : PoolState) (t x m : ℕ) (q : Quote)
    → HasRoom pool x
    → quote pool t x m ≡ ok q
    → IsSwapped pool (settle q pool) t x m q.amount_out
settle-IsSwapped pool t x m q room f =
    let (product, enough, positive, _, _) = settle_keeps_product pool t x m room f in
    let (gained, paid, _) = settle_accounts pool t x m room f in
    record {
      product = product;
      enough = enough;
      positive = positive;
      is_a_to_b = q.is_a_to_b;
      token = (quote-IsQuoted pool t x m f).token;
      gained = gained;
      paid = paid;
    }

-- With fee rates in order, room for the input in 128 bits and a pool that is stored under its own
-- id, a swap that succeeds leaves a pool, found under the same id, whose reserves have at least the
-- product of the old ones. It pays at least the minimum and something; the input has gone into the
-- reserve and the fees of its token, and the output has left the reserve of the other.
pub execute_swap-IsSwapped :
    (ext : Externals) (sender pool_id token_in amount_in min_out : ℕ) (s : StateDb) {out : ℕ}
    {s' : StateDb} (pool : PoolState)
    → HasRoom pool amount_in
    → load_pool ext pool_id s ≡ (ok pool, s)
    → pool.pool_id ≡ pool_id
    → execute_swap ext sender pool_id token_in amount_in min_out s ≡ (ok out, s')
    → (pool' : PoolState) × (load_pool ext pool_id s' ≡ (ok pool', s'))
      × IsSwapped pool pool' token_in amount_in min_out out
execute_swap-IsSwapped ext sender pool_id t x m s {out} {s'} pool room loaded own h =
    let (pool0, s0, q, u, e, f, g, k) = execute_swap-stages ext sender pool_id t x m s h in
    let same : pool0 ≡ pool = (pure-eq-ok (sym e ∙ loaded)).0 in
    let f' : quote pool t x m ≡ ok q = subst (λ p. quote p t x m ≡ ok q) same f in
    let g' : save_pool ext (settle q pool) u ≡ (ok tt, s') =
      subst (λ p. save_pool ext (settle q p) u ≡ (ok tt, s')) same g in
    (
      settle q pool,
      subst (λ i. load_pool ext i s' ≡ (ok (settle q pool), s')) (settle-pool_id q pool ∙ own)
          (load_pool-save_pool ext (settle q pool) u g'),
      subst (IsSwapped pool (settle q pool) t x m) k (settle-IsSwapped pool t x m q room f'),
    )
