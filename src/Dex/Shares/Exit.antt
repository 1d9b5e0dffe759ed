-- ===== src/Dex/Shares/Exit.antt =====
-- Removing liquidity in crates/vtt-dex/src/liquidity.rs, alone and after adding it.
use vtt.Prelude.{
  ℕ, ◌+◌, ◌*◌, ◌≤◌, ◌<◌, ◌≡◌, subst, false, arith, u128_mod, wrapping_add, wrapping_sub, ltb, ◌==◌,
  not-ltb→le,
}
use vtt.Prelude.Squares.{mul_mono}
use native.Mathlib.Nat.{le_of_mul-le-mul_right}
use vtt.Prelude.Outcome.{ok, >>=-eq-ok, reject_if-eq-ok, ok-injective}
use vtt.Dex.Math.{mul_u128, div_u128}
use vtt.Dex.Math.Formulas.{mul_div-ok}
use vtt.Dex.Pool.{PoolState}
use vtt.Dex.Shares.{shares_for, grown, amounts_for, shrunk}
use vtt.Dex.Shares.Fair.{Fits, shares_for-fair}

-- What the holder of `lp` shares is paid.
abbrev pub IsFairExit : PoolState → ℕ → ℕ → ℕ → ℕ × ℕ → Type 0
IsFairExit pool lp min_a min_b (a, b) =
    (a * pool.lp_total_supply ≤ lp * pool.reserve_a)
    × (b * pool.lp_total_supply ≤ lp * pool.reserve_b)
    × (min_a ≤ a)
    × (min_b ≤ b)
    × (0 < lp)

pos_of_test : (n : ℕ) → (n == 0) ≡ false → 0 < n
pos_of_test n h = ground arith

-- For a pool and shares of 128 bits, a holder is paid at most the shares' fraction of either
-- reserve, and at least the minimum.
pub amounts_for-fair :
    (pool : PoolState) (lp min_a min_b : ℕ) {a b : ℕ}
    → Fits pool
    → lp < u128_mod
    → amounts_for pool lp min_a min_b ≡ ok (a, b)
    → IsFairExit pool lp min_a min_b (a, b)
unfolding amounts_for
amounts_for-fair pool lp min_a min_b f pl h =
    let supply = pool.lp_total_supply in
    let (some_out, h1) = reject_if-eq-ok (lp == 0) _ _ h in
    let (a', ea, h2) = >>=-eq-ok (div_u128 (mul_u128 lp pool.reserve_a) supply) _ h1 in
    let (b', eb, h3) = >>=-eq-ok (div_u128 (mul_u128 lp pool.reserve_b) supply) _ h2 in
    let (least_a, h4) = reject_if-eq-ok (ltb a' min_a) _ _ h3 in
    let (least_b, h5) = reject_if-eq-ok (ltb b' min_b) _ _ h4 in
    let (low_a, _) = mul_div-ok lp pool.reserve_a supply pl f.reserve_a f.supply ea in
    let (low_b, _) = mul_div-ok lp pool.reserve_b supply pl f.reserve_b f.supply eb in
    subst (IsFairExit pool lp min_a min_b) (ok-injective h5)
      (low_a, low_b, not-ltb→le _ _ least_a, not-ltb→le _ _ least_b, pos_of_test lp some_out)

-- A fraction `x / s` of `r`, rounded down, that is at most all of it.
within : (x lp s r : ℕ) → x * s ≤ lp * r → lp ≤ s → 0 < s → x ≤ r
within x lp s r h k pos =
    le_of_mul-le-mul_right {k = s} (omega (arith, mul_mono lp s r r k (omega arith))) pos

kept_sum : (x lp n m : ℕ) → x * (m + lp) ≤ lp * (n + x) → (n + x) * m ≤ n * (m + lp)
kept_sum x lp n m h = omega arith

kept : (x lp s r n m : ℕ) → n + x ≡ r → m + lp ≡ s → x * s ≤ lp * r → r * m ≤ n * s
kept x lp s r n m er es h =
    let start : x * (m + lp) ≤ lp * (n + x) = rw (er, es) h in
    rw (er, es) at (kept_sum x lp n m start)

-- One side of a pool out of which `x` is paid for `lp` shares.
side_kept :
    (x lp s r : ℕ)
    → s < u128_mod
    → r < u128_mod
    → x * s ≤ lp * r
    → lp ≤ s
    → 0 < s
    → (wrapping_sub r x + x ≡ r) × (r * wrapping_sub s lp ≤ wrapping_sub r x * s)
side_kept x lp s r ps pr h le pos =
    let below = within x lp s r h le pos in
    let er : wrapping_sub r x + x ≡ r = omega arith in (er, kept x lp s r _ _ er (omega arith) h)

-- In a pool of 128-bit numbers, shares up to the supply are paid out of the reserves, and what each
-- remaining share stands for does not fall: the new reserve times the old supply is at least the
-- old one times the new.
pub shrunk-keeps_value :
    (pool : PoolState) (lp min_a min_b : ℕ) {a b : ℕ}
    → Fits pool
    → lp ≤ pool.lp_total_supply
    → amounts_for pool lp min_a min_b ≡ ok (a, b)
    → let p' = shrunk a b lp pool in
      (p'.reserve_a + a ≡ pool.reserve_a)
      × (p'.reserve_b + b ≡ pool.reserve_b)
      × (p'.lp_total_supply + lp ≡ pool.lp_total_supply)
      × (pool.reserve_a * p'.lp_total_supply ≤ p'.reserve_a * pool.lp_total_supply)
      × (pool.reserve_b * p'.lp_total_supply ≤ p'.reserve_b * pool.lp_total_supply)
unfolding shrunk
shrunk-keeps_value pool lp min_a min_b {a} {b} f le h =
    let supply = pool.lp_total_supply in
    let (low_a, low_b, _, _, pos) =
      amounts_for-fair pool lp min_a min_b {a = a} {b = b} f (omega (arith, f.supply)) h in
    let (out_a, kept_a) =
      side_kept a lp supply pool.reserve_a f.supply f.reserve_a low_a le (omega arith) in
    let (out_b, kept_b) =
      side_kept b lp supply pool.reserve_b f.supply f.reserve_b low_b le (omega arith) in
    (out_a, out_b, omega (arith, f.supply), kept_a, kept_b)

-- One side of the round trip.
side_back : (x a lp s r : ℕ) → lp * r ≤ a * s → x * (s + lp) ≤ lp * (r + a) → 0 < lp → x ≤ a
side_back x a lp s r h k pos = le_of_mul-le-mul_right {k = s + lp} (omega arith) (omega arith)

-- Shares that have just been minted are never paid more than they cost, where the reserves and the
-- supply have room for them in 128 bits.
pub exit_after_mint :
    (pool : PoolState) (amount_a amount_b min_lp min_a min_b : ℕ) {a b lp a' b' : ℕ}
    → Fits pool
    → Fits (grown a b lp pool)
    → pool.reserve_a + amount_a < u128_mod
    → pool.reserve_b + amount_b < u128_mod
    → pool.lp_total_supply + lp < u128_mod
    → shares_for pool amount_a amount_b min_lp ≡ ok (a, b, lp)
    → amounts_for (grown a b lp pool) lp min_a min_b ≡ ok (a', b')
    → (a' ≤ a) × (b' ≤ b)
unfolding grown
exit_after_mint pool amount_a amount_b min_lp min_a min_b {a} {b} {lp} {a'} {b'} f f' ra rb rs h k =
    let (fair, le_a, le_b, _, _, _) =
      shares_for-fair pool amount_a amount_b min_lp {a = a} {b = b} {lp = lp} f (omega arith)
        (omega arith) h in
    let (low_a, low_b, _, _, pos) =
      amounts_for-fair (grown a b lp pool) lp min_a min_b {a = a'} {b = b'} f' (omega arith) k in
    let supply = pool.lp_total_supply in
    let es : wrapping_add supply lp ≡ supply + lp = omega arith in
    let ea : wrapping_add pool.reserve_a a ≡ pool.reserve_a + a = omega arith in
    let eb : wrapping_add pool.reserve_b b ≡ pool.reserve_b + b = omega arith in
    (
      side_back a' a lp supply pool.reserve_a fair.share_a (rw (← es, ← ea) low_a) pos,
      side_back b' b lp supply pool.reserve_b fair.share_b (rw (← es, ← eb) low_b) pos,
    )
