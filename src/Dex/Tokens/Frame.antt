-- ===== src/Dex/Tokens/Frame.antt =====
-- The token helpers of crates/vtt-dex/src/liquidity.rs and the stored pools.
use vtt.Prelude.{ℕ, List, arith}
use vtt.Prelude.Map.{Map}
use vtt.Prelude.Action.{Keeps}
use vtt.State.Asset.{OwnershipRecord}
use vtt.State.Db.{StateDb, put_account, sub_balance, add_balance, put_ownership, transfer_asset}
use vtt.Dex.Tokens.{transfer_token_in, transfer_token_out}

abbrev pub pools_of : StateDb → Map ℕ (List ℕ)
pools_of s = s.pools

sub_balance-Keeps : (a x : ℕ) → Keeps pools_of (sub_balance a x)
unfolding sub_balance put_account
sub_balance-Keeps a x s = ground arith

add_balance-Keeps : (a x : ℕ) → Keeps pools_of (add_balance a x)
unfolding add_balance put_account
add_balance-Keeps a x s = ground arith

put_ownership-Keeps : (r : OwnershipRecord) → Keeps pools_of (put_ownership r)
unfolding put_ownership
put_ownership-Keeps r s = ground arith

transfer_asset-Keeps : (t a b x : ℕ) → Keeps pools_of (transfer_asset t a b x)
unfolding transfer_asset
transfer_asset-Keeps t a b x s = grind (arith, put_ownership-Keeps)

pub transfer_token_in-Keeps : (a t x : ℕ) → Keeps pools_of (transfer_token_in a t x)
unfolding transfer_token_in
transfer_token_in-Keeps a t x s =
    ground (arith, sub_balance-Keeps a x s, transfer_asset-Keeps t a 0 x s)

pub transfer_token_out-Keeps : (a t x : ℕ) → Keeps pools_of (transfer_token_out a t x)
unfolding transfer_token_out
transfer_token_out-Keeps a t x s =
    ground (arith, add_balance-Keeps a x s, transfer_asset-Keeps t 0 a x s)
