-- ===== src/Dex/Math/Div.antt =====
-- `U256::div_u128` of crates/vtt-dex/src/math.rs and the quotient.
use vtt.Prelude.{
  ℕ, zero, suc, ◌+◌, ◌*◌, ◌/◌, ◌%◌, ◌^◌, ◌≤◌, ◌<◌, ◌≡◌, sym, ap, ◌∙◌, if◌then◌else◌, Bool, arith,
  u128_mod, ltb, leb, ◌==◌,
}
use native.Mathlib.Nat.{pow-suc, one-le-pow, div-eq_of_lt-le, div-div-eq-div-mul, div-add-mod}
use vtt.Dex.Math.{U256, value, exceeds, reduce, rem_loop, quot_loop, div_u128}
use vtt.Prelude.Outcome.{ok, err}
use vtt.Dex.Error.{DexError}

-- One round keeps the remainder below the divisor, and says by how much the divisor went in.
round_lem :
    (d rem bit : ℕ)
    → d < u128_mod
    → rem < d
    → bit < 2
    → (reduce d rem bit < d)
      × (reduce d rem bit + (if exceeds d rem bit then d else 0) ≡ 2 * rem + bit)
unfolding reduce exceeds
round_lem d rem bit pd pr pb = ground arith

recombine :
    (n p q m k b r k' : ℕ)
    → p * q + m ≡ n
    → 2 * k + b ≡ q
    → p * 2 * k' + r ≡ n
    → k ≡ k'
    → r ≡ b * p + m
recombine n p q m k b r k' whole half low same =
    omega (arith, ap (λ (t : ℕ). t * p) half, ap (λ (t : ℕ). t * p) same)

-- The lowest `i + 1` bits are the bit `i` and the lowest `i`, with `p` for 2 ^ i.
bit_step : (n p : ℕ) → n % (p * 2) ≡ n / p % 2 * p + n % p
bit_step n p =
    recombine n p (n / p) (n % p) (n / p / 2) (n / p % 2) (n % (p * 2)) (n / (p * 2))
      (div-add-mod n p) (div-add-mod (n / p) 2) (div-add-mod n (p * 2)) (div-div-eq-div-mul n p 2)

-- One round of the second loop, in the equation that the loop keeps; `e` is the quotient's bit.
quot_step :
    (d p rem rem' bit e result : ℕ)
    → rem' + e * d ≡ 2 * rem + bit
    → (result + e * p) * d + rem' * p ≡ result * d + rem * (p * 2) + bit * p
quot_step d p rem rem' bit e result h = omega (arith, ap (λ (t : ℕ). t * p) h)

set_bit :
    (b : Bool) (p result : ℕ)
    → (if b then result + p else result) ≡ result + (if b then 1 else 0) * p
set_bit b p result = ground arith

goes_in : (b : Bool) (d : ℕ) → (if b then 1 else 0) * d ≡ (if b then d else 0)
goes_in b d = ground arith

-- What one round adds to quotient and remainder, for the lowest `suc i` bits.
quot_round :
    (d lo i rem result q s : ℕ)
    → d < u128_mod
    → rem < d
    → let bit = lo / 2 ^ i % 2 in
      q * d + s
        ≡ (if exceeds d rem bit then result + 2 ^ i else result) * d
          + reduce d rem bit * 2 ^ i
          + lo % 2 ^ i
      → q * d + s ≡ result * d + rem * 2 ^ suc i + lo % 2 ^ suc i
quot_round d lo i rem result q s pd pr eq =
    let p = 2 ^ i in
    let bit = lo / p % 2 in
    let b = exceeds d rem bit in
    let split = (round_lem d rem bit pd pr (omega arith)).1 in
    rw (pow-suc, bit_step lo p)
      (omega (
        arith,
        eq,
        ap (λ (t : ℕ). t * d) (set_bit b p result),
        quot_step d p rem (reduce d rem bit) bit (if b then 1 else 0) result
            (omega (arith, split, goes_in b d)),
      ))

-- The second loop: quotient and remainder of `rem` followed by the lowest `n` bits of `lo`.
quot_loop_lem :
    (d lo n rem result : ℕ)
    → d < u128_mod
    → rem < d
    → (s : ℕ) × (s < d)
      × (quot_loop d lo n rem result * d + s ≡ result * d + rem * 2 ^ n + lo % 2 ^ n)
unfolding quot_loop
quot_loop_lem d lo zero rem result pd pr = (rem, pr, omega arith)
quot_loop_lem d lo (suc i) rem result pd pr =
    let bit = lo / 2 ^ i % 2 in
    let next = if exceeds d rem bit then result + 2 ^ i else result in
    let small = (round_lem d rem bit pd pr (omega arith)).0 in
    let (s, ps, eq) = quot_loop_lem d lo i (reduce d rem bit) next pd small in
    (s, ps, quot_round d lo i rem result (quot_loop d lo i (reduce d rem bit) next) s pd pr eq)

-- A round that makes no multiple of the divisor only shifts.
reduce_small : (d rem bit : ℕ) → d < u128_mod → 2 * rem + bit < d → reduce d rem bit ≡ 2 * rem + bit
unfolding reduce exceeds
reduce_small d rem bit pd h = ground arith

shift_step : (rem bit p low : ℕ) → (2 * rem + bit) * p + low ≡ rem * (p * 2) + (bit * p + low)
shift_step rem bit p low = omega arith

le-mul_pos : (n p : ℕ) → 0 < p → n ≤ n * p
le-mul_pos n p h = grind arith

-- The first loop: as long as the bits make no multiple of the divisor, they are the remainder.
rem_loop_lem :
    (d hi n rem : ℕ)
    → d < u128_mod
    → rem * 2 ^ n + hi % 2 ^ n < d
    → rem_loop d hi n rem ≡ rem * 2 ^ n + hi % 2 ^ n
unfolding rem_loop
rem_loop_lem d hi zero rem pd small = omega arith
rem_loop_lem d hi (suc i) rem pd small =
    let p = 2 ^ i in
    let bit = hi / p % 2 in
    let low : rem * (p * 2) + (bit * p + hi % p) < d = rw (pow-suc, bit_step hi p) at small in
    let same = shift_step rem bit p (hi % p) in
    let fits = le-mul_pos (2 * rem + bit) p (one-le-pow i 2 (omega arith)) in
    let now = reduce_small d rem bit pd (omega (arith, same, fits)) in
    rw (pow-suc, bit_step hi p, now)
      (rem_loop_lem d hi i (2 * rem + bit) pd (omega (arith, same)) ∙ same)

-- The two loops together.
loops_lem :
    (hi lo d : ℕ)
    → hi < d
    → lo < u128_mod
    → d < u128_mod
    → quot_loop d lo 128 (rem_loop d hi 128 0) 0 ≡ (hi * u128_mod + lo) / d
loops_lem hi lo d small pl pd =
    let first : rem_loop d hi 128 0 ≡ hi = rem_loop_lem d hi 128 0 pd (omega arith) ∙ omega arith in
    let (s, ps, eq) = quot_loop_lem d lo 128 hi 0 pd small in
    rw first (sym (div-eq_of_lt-le d (omega (arith, eq)) (omega (arith, eq))))

-- The three tests that come before the loops.
guards_lem :
    (d hi low q v : ℕ)
    → (hi < d → q ≡ v)
    → (hi ≡ 0 → low ≡ v)
    → (if d == 0
        then err DexError.overflow
        else if hi == 0
        then ok low
        else if leb d hi
        then err DexError.overflow
        else ok q)
      ≡ (if ltb hi d then ok v else err DexError.overflow)
guards_lem d hi low q v h k = ground arith

-- With a lower word and a divisor of 128 bits, a quotient of more than 128 bits is an overflow, and
-- so is a division by zero; any other division gives the quotient.
pub div_u128-exact :
    (n : U256) (d : ℕ)
    → n.lo < u128_mod
    → d < u128_mod
    → div_u128 n d ≡ (if ltb n.hi d then ok (value n / d) else err DexError.overflow)
unfolding div_u128
div_u128-exact n d pl pd =
    guards_lem d n.hi (n.lo / d) _ (value n / d) (λ small. loops_lem n.hi n.lo d small pl pd)
      (λ e. ap (λ (t : ℕ). t / d) (omega arith))
