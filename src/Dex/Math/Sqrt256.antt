-- ===== src/Dex/Math/Sqrt256.antt =====
-- `sqrt_u256` of crates/vtt-dex/src/math.rs and the integer square root.
use vtt.Prelude.{
  ℕ, zero, suc, ◌+◌, ◌-◌, ◌*◌, ◌/◌, ◌≤◌, ◌<◌, ◌≡◌, refl, subst, ◌∙◌, arith, u64_mod, u128_mod,
  lt→ltb, wrapping_add, wrapping_mul,
}
use vtt.Prelude.Squares.{mul_mono, sq-lt_of_lt}
use native.Mathlib.Nat.{div-mul-le_self, lt-div-mul-add, div-lt_iff_lt-mul}
use native.Mathlib.Decide.{dec_lt}
use vtt.Dex.Math.{U256, value, average, sqrt_u128, next_estimate, newton_u256, sqrt_u256}
use vtt.Dex.Math.Div.{div_u128-exact}
use vtt.Dex.Math.Sqrt.{IsSqrt, sqrt_u128-IsSqrt, newton_step_upper, newton_stop}

-- The average is taken without leaving 128 bits.
average_lem : (x q : ℕ) → x < u128_mod → q < u128_mod → average x q ≡ (x + q) / 2
average_lem x q px pq = omega arith

-- The upper words from which on the first estimate of the loop no longer fits 128 bits.
abbrev pub hi_limit : ℕ
hi_limit = (u64_mod - 1) * (u64_mod - 1)

-- A candidate at or above the root is above the upper word, so the division is exact.
candidate-above-hi :
    (n : U256) (x : ℕ) → 0 < n.hi → n.hi < hi_limit → value n < (x + 1) * (x + 1) → n.hi < x
candidate-above-hi n x hp hl up = elim (dec_lt n.hi x) [
  | yes h ↦ h
  | no h ↦ absurd (
      omega (
        arith,
        mul_mono (x + 1) (n.hi + 1) (x + 1) (n.hi + 1) (omega arith) (omega arith),
        mul_mono n.hi n.hi n.hi hi_limit (omega arith) (omega arith),
      ))
]

quotient_fits : (v hi x : ℕ) → v < (hi + 1) * u128_mod → hi < x → v < u128_mod * x
quotient_fits v hi x h k =
    omega (arith, mul_mono (hi + 1) x u128_mod u128_mod (omega arith) (omega arith))

-- Where the quotient fits, a round of the loop is a Newton step.
next_estimate_lem :
    (n : U256) (x : ℕ)
    → n.lo < u128_mod
    → x < u128_mod
    → n.hi < x
    → next_estimate n x ≡ (x + value n / x) / 2
unfolding next_estimate
next_estimate_lem n x pl px h =
    rw (div_u128-exact n x pl px, lt→ltb n.hi x h)
      (average_lem x (value n / x) px
        ((div-lt_iff_lt-mul (omega arith)).1 (quotient_fits (value n) n.hi x (omega arith) h)))

newton_u256_halt : (n : U256) (fuel x : ℕ) → x ≤ next_estimate n x → newton_u256 n (suc fuel) x ≡ x
unfolding newton_u256
newton_u256_halt n fuel x h = ground arith

newton_u256_down :
    (n : U256) (fuel x : ℕ)
    → next_estimate n x < x
    → newton_u256 n (suc fuel) x ≡ newton_u256 n fuel (next_estimate n x)
unfolding newton_u256
newton_u256_down n fuel x h = ground arith

-- With `x` above the root and enough fuel, the loop ends at the root.
newton_u256_lem :
    (n : U256) (fuel x : ℕ)
    → 0 < n.hi
    → n.hi < hi_limit
    → n.lo < u128_mod
    → x < u128_mod
    → x ≤ fuel
    → value n < (x + 1) * (x + 1)
    → IsSqrt (value n) (newton_u256 n fuel x)
newton_u256_lem n zero x hp hl pl px pf up = absurd (omega (arith, candidate-above-hi n x hp hl up))
newton_u256_lem n (suc fuel) x hp hl pl px pf up =
    let above = candidate-above-hi n x hp hl up in
    let next = next_estimate_lem n x pl px above in
    let low = div-mul-le_self (value n) x in
    let up' =
      newton_step_upper (value n) x (value n / x)
        (omega (arith, lt-div-mul-add {a = value n} {b = x} (omega arith))) in
    elim (dec_lt (next_estimate n x) x) [
      | yes down ↦ rw (newton_u256_down n fuel x down) (
          newton_u256_lem n fuel (next_estimate n x) hp hl pl (omega arith) (omega arith)
            (rw next up'))
      | no stop ↦
          rw (newton_u256_halt n fuel x (omega arith))
            (newton_stop (value n) x (value n / x) low (omega (arith, next)), up)
    ]

newton_u256_zero : (n : U256) → newton_u256 n 0 0 ≡ 0
unfolding newton_u256
newton_u256_zero n = refl

start_lem :
    (n : U256) (s : ℕ)
    → IsSqrt n.hi s
    → n.hi < hi_limit
    → n.lo < u128_mod
    → ((s + 1) * u64_mod < u128_mod) × (value n < ((s + 1) * u64_mod + 1) * ((s + 1) * u64_mod + 1))
start_lem n s (low, up) hl pl =
    let small = sq-lt_of_lt s (u64_mod - 1) (omega (arith, low)) in (omega arith, omega arith)

sqrt_u256_small : (n : U256) → n.hi ≡ 0 → sqrt_u256 n ≡ sqrt_u128 n.lo
unfolding sqrt_u256
sqrt_u256_small n h = ground arith

sqrt_u256_large :
    (n : U256) (x : ℕ)
    → 0 < n.hi
    → wrapping_mul (wrapping_add (sqrt_u128 n.hi) 1) u64_mod ≡ x
    → sqrt_u256 n ≡ newton_u256 n x x
unfolding sqrt_u256
sqrt_u256_large n x h e = ground arith

-- The result of `sqrt_u256` is the integer square root of the 256-bit number if the upper word is
-- below (2^64 - 1)^2.
pub sqrt_u256-IsSqrt :
    (n : U256) → n.hi < hi_limit → n.lo < u128_mod → IsSqrt (value n) (sqrt_u256 n)
sqrt_u256-IsSqrt n hl pl = elim (dec_lt 0 n.hi) [
  | yes hp ↦
      let s = sqrt_u128 n.hi in
      let (fits, up) = start_lem n s (sqrt_u128-IsSqrt n.hi (omega arith)) hl pl in
      rw (sqrt_u256_large n ((s + 1) * u64_mod) hp (omega arith))
        (newton_u256_lem n _ _ hp hl pl fits (omega arith) up)
  | no small ↦
      rw (sqrt_u256_small n (omega arith))
        (subst (λ v. IsSqrt v (sqrt_u128 n.lo)) (omega arith) (sqrt_u128-IsSqrt n.lo pl))
]

-- If the upper word is at least (2^64 - 1)^2, the first estimate wraps around to 0 and the result
-- is 0, although the root is at least 2^127.
pub sqrt_u256-eq-zero : (n : U256) → hi_limit ≤ n.hi → n.hi < u128_mod → sqrt_u256 n ≡ 0
sqrt_u256-eq-zero n h ph =
    let (low, up) = sqrt_u128-IsSqrt n.hi ph in
    let above = sq-lt_of_lt (u64_mod - 1) (sqrt_u128 n.hi + 1) (omega arith) in
    let below = sq-lt_of_lt (sqrt_u128 n.hi) u64_mod (omega arith) in
    sqrt_u256_large n 0 (omega arith) (omega arith) ∙ newton_u256_zero n
