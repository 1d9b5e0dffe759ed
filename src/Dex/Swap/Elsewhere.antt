-- ===== src/Dex/Swap/Elsewhere.antt =====
-- What `execute_swap` of crates/vtt-dex/src/swap.rs does to the other pools.
use vtt.Prelude.{ℕ, Option, List, ◌≡◌, ◌≢◌, refl, arith, if◌then◌else◌, Option-cases, inl, inr, ap}
use vtt.Prelude.Keys.{nat_key}
use vtt.Prelude.Map.{get, get-insert}
use vtt.Prelude.Outcome.{ok}
use vtt.Prelude.Action.{Keeps, after-Keeps, reject_if-Keeps}
use vtt.Dex.Error.{DexError}
use vtt.State.Db.{StateDb, get_pool_raw, put_pool_raw}
use vtt.Dex.Pool.{PoolState, Externals, load_pool, save_pool}
use vtt.Dex.Quote.{quote, settle}
use vtt.Dex.Swap.{execute_swap}
use vtt.Dex.Swap.Run.{settle-pool_id}
use vtt.Dex.Tokens.{transfer_token_in, transfer_token_out}
use vtt.Dex.Tokens.Frame.{transfer_token_in-Keeps, transfer_token_out-Keeps}

-- What is stored under an id.
abbrev stored_at : ℕ → StateDb → Option (List ℕ)
stored_at other s = get other s.pools

save_pool-Keeps :
    (ext : Externals) (other : ℕ) (p : PoolState)
    → other ≢ p.pool_id
    → Keeps (stored_at other) (save_pool ext p)
unfolding save_pool put_pool_raw
save_pool-Keeps ext other p ne s = elim (Option-cases (ext.pool_codec.to_vec p)) [
  | inl failed ↦ ground arith
  | inr (raw, e) ↦ ground (arith, get-insert other p.pool_id raw s.pools)
]

-- Whether it succeeds or fails, a swap leaves every pool as it was but the one it found under its
-- id.
pub execute_swap_elsewhere :
    (ext : Externals) (sender pool_id token_in amount_in min_out other : ℕ) (s : StateDb)
    (pool : PoolState)
    → load_pool ext pool_id s ≡ (ok pool, s)
    → other ≢ pool.pool_id
    → get_pool_raw other (execute_swap ext sender pool_id token_in amount_in min_out s).1
      ≡ get_pool_raw other s
unfolding execute_swap get_pool_raw
execute_swap_elsewhere ext sender pool_id t x m other s pool loaded ne =
    reject_if-Keeps (stored_at other) s.dex_paused DexError.dex_paused _ s refl (
      rw loaded (
        after-Keeps (stored_at other) (quote pool t x m, s) _ refl
          (λ q u.
            let out = if q.is_a_to_b then pool.token_b else pool.token_a in
            after-Keeps (stored_at other) (transfer_token_in sender t x u) _
              (ap (get other) (transfer_token_in-Keeps sender t x u))
              (λ _ v.
                after-Keeps (stored_at other) (transfer_token_out sender out q.amount_out v) _
                  (ap (get other) (transfer_token_out-Keeps sender out q.amount_out v))
                  (λ _ w.
                    after-Keeps (stored_at other) (save_pool ext (settle q pool) w) _
                      (save_pool-Keeps ext other (settle q pool) (rw settle-pool_id ne) w)
                      (λ _ z. refl))))))
