-- ===== src/Dex/Pool/Store.antt =====
-- Reading back a pool that `save_pool` of crates/vtt-dex/src/liquidity.rs has written.
use vtt.Prelude.{◌≡◌, arith, Option-cases, inl, inr}
use vtt.Prelude.Keys.{nat_key}
use vtt.Prelude.Map.{get-insert}
use vtt.Prelude.Outcome.{ok}
use vtt.State.Db.{StateDb, get_pool_raw, put_pool_raw}
use vtt.Dex.Pool.{PoolState, Externals, load_pool, save_pool}

module _ (ext : Externals) where
  -- A pool that has been saved is what a later load under its id finds.
  pub load_pool-save_pool :
      (pool : PoolState) (s : StateDb) {s' : StateDb}
      → save_pool ext pool s ≡ (ok tt, s')
      → load_pool ext pool.pool_id s' ≡ (ok pool, s')
  unfolding load_pool save_pool get_pool_raw put_pool_raw
  load_pool-save_pool pool s h = elim (Option-cases (ext.pool_codec.to_vec pool)) [
    | inl failed ↦ ground arith
    | inr (raw, e) ↦ ground (
      arith,
      ext.pool_codec.from_slice-to_vec pool raw e,
      get-insert pool.pool_id pool.pool_id raw s.pools,
    )
  ]
