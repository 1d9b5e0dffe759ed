-- ===== src/Dex/Shares/Fair.antt =====
-- What the shares of `add_liquidity` in crates/vtt-dex/src/liquidity.rs are worth.
use vtt.Prelude.{
  ℕ, ◌*◌, ◌≤◌, ◌<◌, ◌≡◌, subst, arith, u128_mod, min, ltb, leb, ◌==◌, ◌||◌, Bool-cases, inl, inr,
  false, not-ltb→le,
}
use vtt.Prelude.Squares.{mul_mono}
use native.Mathlib.Nat.{le_of_mul-le-mul_right}
use vtt.Prelude.Outcome.{ok, >>=-eq-ok, reject_if-eq-ok, ok-injective}
use vtt.Dex.Math.{mul_u128, div_u128}
use vtt.Dex.Math.Formulas.{mul_div-ok}
use vtt.Dex.Pool.{PoolState}
use vtt.Dex.Shares.{limited_by_b, actual_amounts, shares_for}

-- The numbers of a pool fit 128 bits.
pub record Fits (pool : PoolState) : Type 0 where
  pub reserve_a : pool.reserve_a < u128_mod
  pub reserve_b : pool.reserve_b < u128_mod
  pub supply : pool.lp_total_supply < u128_mod

limited_by_b-ok :
    (pool : PoolState) (amount_b : ℕ) {a b : ℕ}
    → Fits pool
    → amount_b < u128_mod
    → limited_by_b pool amount_b ≡ ok (a, b)
    → (b ≡ amount_b) × (a * pool.reserve_b ≤ amount_b * pool.reserve_a) × (0 < pool.reserve_b)
unfolding limited_by_b
limited_by_b-ok pool amount_b {a} {b} f pb h =
    let (optimal_a, e, h') =
      >>=-eq-ok (div_u128 (mul_u128 amount_b pool.reserve_a) pool.reserve_b) _ h in
    let (low, up) =
      mul_div-ok amount_b pool.reserve_a pool.reserve_b pb f.reserve_a f.reserve_b e in
    let same : optimal_a ≡ a = ground arith in
    (
      ground arith,
      subst (λ t. t * pool.reserve_b ≤ amount_b * pool.reserve_a) same low,
      omega arith,
    )

less_needed :
    (a amount_a amount_b optimal_b ra rb : ℕ)
    → amount_b < optimal_b
    → optimal_b * ra ≤ amount_a * rb
    → a * rb ≤ amount_b * ra
    → 0 < rb
    → a ≤ amount_a
less_needed a amount_a amount_b optimal_b ra rb h k l pos =
    le_of_mul-le-mul_right {k = rb}
      (omega (arith, mul_mono amount_b optimal_b ra ra (omega arith) (omega arith))) pos

-- The amounts taken are at most those offered.
actual_amounts-le :
    (pool : PoolState) (amount_a amount_b : ℕ) {a b : ℕ}
    → Fits pool
    → amount_a < u128_mod
    → amount_b < u128_mod
    → actual_amounts pool amount_a amount_b ≡ ok (a, b)
    → (a ≤ amount_a) × (b ≤ amount_b)
unfolding actual_amounts
actual_amounts-le pool amount_a amount_b {a} {b} f pa pb h =
    let (optimal_b, e, h') =
      >>=-eq-ok (div_u128 (mul_u128 amount_a pool.reserve_b) pool.reserve_a) _ h in
    let (low, up) =
      mul_div-ok amount_a pool.reserve_b pool.reserve_a pa f.reserve_b f.reserve_a e in
    elim (Bool-cases (leb optimal_b amount_b)) [
      | inl all_a ↦ ground arith
      | inr all_b ↦
          let (eb, la, pos) = limited_by_b-ok pool amount_b {a = a} {b = b} f pb (rw all_b at h') in
          (
            less_needed a amount_a amount_b optimal_b pool.reserve_a pool.reserve_b (ground arith)
                low la pos,
            omega arith,
          )
    ]

-- What the minted shares are worth, when the amounts have been taken.
pub record IsFairMint (pool : PoolState) (a b lp : ℕ) : Type 0 where
  pub share_a : lp * pool.reserve_a ≤ a * pool.lp_total_supply
  pub share_b : lp * pool.reserve_b ≤ b * pool.lp_total_supply

-- The smaller of the two proportional shares is fair on both sides.
min_fair :
    (pool : PoolState) (a b lp_a lp_b : ℕ)
    → lp_a * pool.reserve_a ≤ a * pool.lp_total_supply
    → lp_b * pool.reserve_b ≤ b * pool.lp_total_supply
    → IsFairMint pool a b (min lp_a lp_b)
min_fair pool a b lp_a lp_b low_a low_b =
    let ra = pool.reserve_a in
    let rb = pool.reserve_b in
    record {
      share_a =
          omega (arith, low_a, mul_mono (min lp_a lp_b) lp_a ra ra (omega arith) (omega arith));
      share_b =
          omega (arith, low_b, mul_mono (min lp_a lp_b) lp_b rb rb (omega arith) (omega arith));
    }

abbrev pub IsMinted : PoolState → ℕ → ℕ → ℕ → ℕ × ℕ × ℕ → Type 0
IsMinted pool amount_a amount_b min_lp (a, b, lp) =
    IsFairMint pool a b lp × (a ≤ amount_a) × (b ≤ amount_b) × (0 < a) × (0 < b) × (min_lp ≤ lp)

not_zero : (a b : ℕ) → (a == 0 || b == 0) ≡ false → (0 < a) × (0 < b)
not_zero a b h = ground arith

-- For a pool and amounts of 128 bits, new shares never cost the other holders: they are at most the
-- supply's fraction that the amounts taken are of either reserve. What is taken is at most what was
-- offered, and not 0; the shares are at least the minimum.
pub shares_for-fair :
    (pool : PoolState) (amount_a amount_b min_lp : ℕ) {a b lp : ℕ}
    → Fits pool
    → amount_a < u128_mod
    → amount_b < u128_mod
    → shares_for pool amount_a amount_b min_lp ≡ ok (a, b, lp)
    → IsMinted pool amount_a amount_b min_lp (a, b, lp)
unfolding shares_for
shares_for-fair pool amount_a amount_b min_lp f pa pb h =
    let supply = pool.lp_total_supply in
    let (_, h1) = reject_if-eq-ok (pool.reserve_a == 0 || pool.reserve_b == 0) _ _ h in
    let ((a', b'), e, h2) = >>=-eq-ok (actual_amounts pool amount_a amount_b) _ h1 in
    let (some_in, h3) = reject_if-eq-ok (a' == 0 || b' == 0) _ _ h2 in
    let (lp_a, ea, h4) = >>=-eq-ok (div_u128 (mul_u128 a' supply) pool.reserve_a) _ h3 in
    let (lp_b, eb, h5) = >>=-eq-ok (div_u128 (mul_u128 b' supply) pool.reserve_b) _ h4 in
    let (least, h6) = reject_if-eq-ok (ltb (min lp_a lp_b) min_lp) _ _ h5 in
    let (le_a, le_b) = actual_amounts-le pool amount_a amount_b {a = a'} {b = b'} f pa pb e in
    let (low_a, _) = mul_div-ok a' supply pool.reserve_a (omega arith) f.supply f.reserve_a ea in
    let (low_b, _) = mul_div-ok b' supply pool.reserve_b (omega arith) f.supply f.reserve_b eb in
    let fair = min_fair pool a' b' lp_a lp_b low_a low_b in
    let (pos_a, pos_b) = not_zero a' b' some_in in
    subst (IsMinted pool amount_a amount_b min_lp) (ok-injective h6)
      (fair, le_a, le_b, pos_a, pos_b, not-ltb→le _ _ least)
