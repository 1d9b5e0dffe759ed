-- ===== src/State/Holders.antt =====
-- The holder index of crates/vtt-state/src/statedb.rs under asset transfers.
use vtt.Prelude.{ℕ, ◌+◌, ◌-◌, ◌≤◌, ◌<◌, arith, u128_mod}
use vtt.State.Db.{StateDb, transfer_asset, get_ownership}
use vtt.State.Transfers.{
  total_held, holder_count, IsKeyed, IsExact, stored-IsExact, holder_count-stored,
}
use vtt.State.Assets.{available, set_available, handed, set_available-IsKeyed, transfer_asset-eq}

set_available-IsExact :
    (a o x : ℕ) (s : StateDb)
    → IsKeyed s
    → ((asset : ℕ) → holder_count asset s + 1 < 0x100000000)
    → IsExact s
    → IsExact (set_available a o x s)
unfolding set_available
set_available-IsExact a o x s h few exact = stored-IsExact _ s h few exact

holder_count-set_available :
    (asset a o x : ℕ) (s : StateDb)
    → IsKeyed s
    → holder_count asset (set_available a o x s) ≤ holder_count asset s + 1
unfolding set_available
holder_count-set_available asset a o x s h =
    let change = holder_count-stored asset (record (get_ownership a o s) { available = x }) s h in
    ground arith

handed-IsExact :
    (asset from to x : ℕ) (s : StateDb)
    → IsKeyed s
    → ((a : ℕ) → holder_count a s + 2 < 0x100000000)
    → IsExact s
    → IsExact (handed asset from to x s)
unfolding handed
handed-IsExact asset from to x s h few exact =
    let b = available asset from s - x in
    set_available-IsExact asset to _ (set_available asset from b s)
      (set_available-IsKeyed asset from b s h)
      (λ a. omega (arith, few a, holder_count-set_available a asset from b s h))
      (set_available-IsExact asset from b s h (λ a. omega (arith, few a)) exact)

-- An asset transfer keeps the holder index exact, however it ends, while each record stands under
-- its own key, all that is held of the asset fits 128 bits and there are fewer than 2^32 - 2
-- holders.
pub transfer_asset-IsExact :
    (asset from to x : ℕ) (s : StateDb)
    → IsKeyed s
    → total_held asset s < u128_mod
    → ((a : ℕ) → holder_count a s + 2 < 0x100000000)
    → IsExact s
    → IsExact (transfer_asset asset from to x s).1
transfer_asset-IsExact asset from to x s h fits few exact a = ground (
  arith,
  transfer_asset-eq asset from to x s h fits,
  exact a,
  handed-IsExact asset from to x s h few exact a,
)
