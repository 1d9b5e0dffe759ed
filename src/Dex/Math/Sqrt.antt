-- ===== src/Dex/Math/Sqrt.antt =====
-- `sqrt_u128` of crates/vtt-dex/src/math.rs and the integer square root.
use vtt.Prelude.{ℕ, zero, suc, ◌+◌, ◌*◌, ◌/◌, ◌≤◌, ◌<◌, ◌≡◌, arith, u128_mod, wrapping_add}
use vtt.Prelude.Squares.{four_mul-le-sq, sq-lt_of_lt, mul_mono}
use native.Mathlib.Nat.{div-mul-le_self, lt-div-mul-add, div_self}
use native.Mathlib.Decide.{dec_lt}
use vtt.Dex.Math.{newton, sqrt_u128}

-- `r` is the integer square root of `n`.
abbrev pub IsSqrt : ℕ → ℕ → Type 0
IsSqrt n r = (r * r ≤ n) × (n < (r + 1) * (r + 1))

-- A Newton step from any positive `x` does not fall below the root.
pub newton_step_upper : (n x q : ℕ) → n < (q + 1) * x → n < ((x + q) / 2 + 1) * ((x + q) / 2 + 1)
newton_step_upper n x q h = omega (
  arith,
  four_mul-le-sq x (q + 1),
  mul_mono (x + (q + 1)) (2 * ((x + q) / 2 + 1)) (x + (q + 1)) (2 * ((x + q) / 2 + 1)) (omega arith)
      (omega arith),
)

-- A step that does not go down has reached it.
pub newton_stop : (n x q : ℕ) → q * x ≤ n → x ≤ (x + q) / 2 → x * x ≤ n
newton_stop n x q h k = omega (arith, mul_mono x q x x (omega arith) (omega arith))

pub root-ge-two : (n x : ℕ) → 4 ≤ n → n < (x + 1) * (x + 1) → 2 ≤ x
root-ge-two n x h up = omega (arith, sq-lt_of_lt 2 (x + 1) (omega arith))

sum-le-succ : (n x q : ℕ) → x ≤ n → q * x ≤ n → 0 < x → x + q ≤ n + 1
sum-le-succ n x zero h k px = omega arith
sum-le-succ n (suc x) (suc q) h k px = omega arith
sum-le-succ n zero (suc q) h k px = elim px [ ]

quot-le-half : (n y q : ℕ) → 2 ≤ y → q * y ≤ n → 2 * q ≤ n
quot-le-half n y q h k = omega (arith, mul_mono 2 y q q h (omega arith))

-- The sum of a step fits: every `x` after the first is at most half of `n`.
step_fits : (n y : ℕ) → n < u128_mod → 2 ≤ y → 2 * y ≤ n + 1 → wrapping_add y (n / y) ≡ y + n / y
step_fits n y pn py half = omega (arith, quot-le-half n y (n / y) py (div-mul-le_self n y))

newton_down :
    (n fuel x y : ℕ)
    → y < x
    → newton n (suc fuel) x y ≡ newton n fuel y (wrapping_add y (n / y) / 2)
unfolding newton
newton_down n fuel x y h = ground arith

newton_halt : (n fuel x y : ℕ) → x ≤ y → newton n (suc fuel) x y ≡ x
unfolding newton
newton_halt n fuel x y h = ground arith

-- With `x` above the root and enough fuel, the loop ends at the root.
newton_lem :
    (n fuel x : ℕ)
    → n < u128_mod
    → 4 ≤ n
    → 0 < x
    → x ≤ n
    → x ≤ fuel
    → n < (x + 1) * (x + 1)
    → IsSqrt n (newton n fuel x ((x + n / x) / 2))
newton_lem n zero x pn big px pxn pf up = absurd (omega arith)
newton_lem n (suc fuel) x pn big px pxn pf up =
    let y = (x + n / x) / 2 in
    let low = div-mul-le_self n x in
    let up' = newton_step_upper n x (n / x) (omega (arith, lt-div-mul-add {a = n} px)) in
    let sum = sum-le-succ n x (n / x) pxn low px in
    let py = root-ge-two n y big up' in
    elim (dec_lt y x) [
      | yes down ↦
          rw (newton_down n fuel x y down, step_fits n y pn py (omega (arith, sum)))
            (newton_lem n fuel y pn big (omega (arith, py)) (omega arith) (omega arith) up')
      | no stop ↦
          rw (newton_halt n fuel x y (omega arith)) (newton_stop n x (n / x) low (omega arith), up)
    ]

-- The first `y`, `x.div_ceil(2)`, is a Newton step from `n` itself.
sqrt_u128_big : (n : ℕ) → 4 ≤ n → sqrt_u128 n ≡ newton n n n ((n + n / n) / 2)
unfolding sqrt_u128
sqrt_u128_big n h = rw (div_self {n = n} (omega arith)) (ground arith)

-- The result of `sqrt_u128` is the integer square root, for every 128-bit number.
pub sqrt_u128-IsSqrt : (n : ℕ) → n < u128_mod → IsSqrt n (sqrt_u128 n)
unfolding sqrt_u128
sqrt_u128-IsSqrt n pn = elim (dec_lt n 4) [
  | yes small ↦ ground arith
  | no big ↦ rw (sqrt_u128_big n (omega arith)) (
      newton_lem n n n pn (omega arith) (omega arith) (omega arith) (omega arith)
        (omega (arith, mul_mono 1 n n n (omega arith) (omega arith))))
]
