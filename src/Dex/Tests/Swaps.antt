-- ===== src/Dex/Tests/Swaps.antt =====
-- The theorems on stored pools of crates/vtt-dex, with an encoding of a pool as its fields and a
-- hash that adds up the bytes.
use vtt.Prelude.{arith, ℕ, ◌+◌, ◌≡◌, refl, subst, List, [], ◌∷◌, Option, some, none}
use vtt.Prelude.Keys.{nat_key}
use vtt.Prelude.Outcome.{Outcome, ok}
use vtt.Prelude.Map.{get, insert}
use vtt.State.Account.{with_balance}
use vtt.State.Asset.{OwnershipRecord}
use vtt.State.Db.{
  empty_db, StateDb, get_pool_raw, put_pool_raw, sub_balance, transfer_asset, put_ownership,
  get_ownership, put_account, get_account,
}
use vtt.Dex.Error.{DexError}
use vtt.Dex.Pool.{PoolState, Externals, load_pool, save_pool}
use vtt.Dex.Pool.Store.{load_pool-save_pool}
use vtt.Dex.Swap.{execute_swap}
use vtt.Dex.Swap.Elsewhere.{execute_swap_elsewhere}
use vtt.Dex.Swap.Run.{IsSwapped, execute_swap-IsSwapped}
use vtt.Dex.Tokens.{lp_asset, transfer_token_in, transfer_token_out}
use vtt.Dex.Tests.{small_pool, small_pool-HasRoom, quoted}

abbrev encode : PoolState → List ℕ
encode p =
    p.pool_id ∷ p.token_a ∷ p.token_b ∷ p.reserve_a ∷ p.reserve_b ∷ p.lp_token_id
    ∷ p.lp_total_supply ∷ p.fee_bps ∷ p.protocol_fee_bps ∷ p.protocol_fees_a ∷ p.protocol_fees_b
    ∷ p.creator ∷ p.created_at_epoch ∷ []

abbrev decode : List ℕ → Option PoolState
decode (i ∷ a ∷ b ∷ ra ∷ rb ∷ l ∷ ls ∷ f ∷ pf ∷ fa ∷ fb ∷ c ∷ e ∷ []) = some (record {
  pool_id = i;
  token_a = a;
  token_b = b;
  reserve_a = ra;
  reserve_b = rb;
  lp_token_id = l;
  lp_total_supply = ls;
  fee_bps = f;
  protocol_fee_bps = pf;
  protocol_fees_a = fa;
  protocol_fees_b = fb;
  creator = c;
  created_at_epoch = e;
})
decode _ = none

some_eq : {a b : List ℕ} → some a ≡ some b → a ≡ b
some_eq e = cc

abbrev sum : List ℕ → ℕ
sum [] = 0
sum (x ∷ xs) = x + sum xs

abbrev simple : Externals
simple = record {
  blake3_hash = sum;
  pool_codec = record {
    to_vec = λ p. some (encode p);
    try_from_slice = decode;
    from_slice-to_vec = λ p raw e. subst (λ r. decode r ≡ some p) (some_eq e) refl;
  };
}

-- The share held by the pools' account, and by nobody else.
abbrev vault : OwnershipRecord
vault = record { asset_id = 7; owner = 0; available = 200_000; locked = 0 }

abbrev market : StateDb
market = record empty_db {
  accounts = (3, with_balance 50_000) ∷ [];
  assets = (7, record (lp_asset 7 0 200_000) { name = [] }) ∷ [];
  ownership = ((7, 0), vault) ∷ [];
  pools = (9, encode small_pool) ∷ [];
  asset_holder_count = (7, 1) ∷ [];
}

saved : save_pool simple small_pool market ≡ (ok tt, put_pool_raw 9 (encode small_pool) market)
unfolding save_pool
saved = refl

load_pool-save_pool_example :
    load_pool simple 9 (put_pool_raw 9 (encode small_pool) market)
    ≡ (ok small_pool, put_pool_raw 9 (encode small_pool) market)
load_pool-save_pool_example = load_pool-save_pool simple small_pool market saved

loaded : load_pool simple 9 market ≡ (ok small_pool, market)
unfolding load_pool get_pool_raw get
loaded = refl

abbrev swapped : StateDb
swapped = (execute_swap simple 3 9 0 10_000 18_000 market).1

swap_pays : (execute_swap simple 3 9 0 10_000 18_000 market).0 ≡ ok 18_132
unfolding execute_swap load_pool save_pool get_pool_raw get transfer_token_in transfer_token_out
    sub_balance get_account put_account transfer_asset get_ownership put_ownership lp_asset insert
swap_pays = rw quoted refl

with_state : {A : Type 0} (r : Outcome DexError A × StateDb) {a : A} → r.0 ≡ ok a → r ≡ (ok a, r.1)
with_state (o, s) e = cc

swap_runs : execute_swap simple 3 9 0 10_000 18_000 market ≡ (ok 18_132, swapped)
swap_runs = with_state (execute_swap simple 3 9 0 10_000 18_000 market) swap_pays

execute_swap-IsSwapped_example :
    (pool' : PoolState) × (load_pool simple 9 swapped ≡ (ok pool', swapped))
    × IsSwapped small_pool pool' 0 10_000 18_000 18_132
execute_swap-IsSwapped_example =
    execute_swap-IsSwapped simple 3 9 0 10_000 18_000 market small_pool small_pool-HasRoom loaded
      refl swap_runs

execute_swap_elsewhere_example : get_pool_raw 5 swapped ≡ get_pool_raw 5 market
execute_swap_elsewhere_example =
    execute_swap_elsewhere simple 3 9 0 10_000 18_000 5 market small_pool loaded (omega arith)
