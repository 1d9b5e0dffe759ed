-- ===== src/Dex/Math.antt =====
-- crates/vtt-dex/src/math.rs: 256-bit products, quotients and roots, and the formulas of a swap.
pub mod Mul
pub mod Div
pub mod Sqrt
pub mod Sqrt256
pub mod Formulas
use vtt.Prelude.{
  ℕ, zero, suc, ◌+◌, ◌-◌, ◌*◌, ◌/◌, ◌%◌, ◌^◌, Bool, true, false, ◌||◌, ltb, leb, ◌==◌,
  if◌then◌else◌, not, u64_mod, u128_mod, u128_max, wrapping_add, wrapping_sub, wrapping_mul,
  checked_add, checked_mul, saturating_sub,
}
use vtt.Prelude.Outcome.{Outcome, ok, err, ◌>>=◌, ◌>>◌, reject_if, ok_or, unwrap_or}
use vtt.Dex.Error.{DexError}

-- `struct U256`
pub record U256 : Type 0 where
  pub hi : ℕ
  pub lo : ℕ

-- The number that the two words stand for.
abbrev pub value : U256 → ℕ
value n = n.hi * u128_mod + n.lo

-- `U256::from_u128`
unfoldable pub from_u128 : ℕ → U256
from_u128 v = record { hi = 0; lo = v }

-- `U256::mul_u128`, from the four partial products: `ll`, `lh`, `hl`, `hh`.
abbrev pub combine : ℕ → ℕ → ℕ → ℕ → U256
combine ll lh hl hh =
    let mid = wrapping_add lh hl in
    let lo = wrapping_add ll (wrapping_mul mid u64_mod) in
    let carry = wrapping_add (if ltb lo ll then 1 else 0) (if ltb mid lh then u64_mod else 0) in
    record { hi = wrapping_add (wrapping_add hh (mid / u64_mod)) carry; lo = lo }

unfoldable pub mul_u128 : ℕ → ℕ → U256
mul_u128 a b =
    let a_lo = a % u64_mod in
    let a_hi = a / u64_mod in
    let b_lo = b % u64_mod in
    let b_hi = b / u64_mod in
    combine (wrapping_mul a_lo b_lo) (wrapping_mul a_lo b_hi) (wrapping_mul a_hi b_lo)
      (wrapping_mul a_hi b_hi)

-- `rem.wrapping_shl(1) | bit`; the lowest bit is free, so `|` is a sum.
abbrev pub shift_in : ℕ → ℕ → ℕ
shift_in rem bit = wrapping_mul rem 2 + bit

-- The test in both loops of `div_u128`: `overflow != 0 || rem >= divisor`.
unfoldable pub exceeds : ℕ → ℕ → ℕ → Bool
exceeds divisor rem bit = not (rem / 2 ^ 127 == 0) || leb divisor (shift_in rem bit)

-- The remainder after one round of either loop.
unfoldable pub reduce : ℕ → ℕ → ℕ → ℕ
unfolding exceeds
reduce divisor rem bit =
    if exceeds divisor rem bit then wrapping_sub (shift_in rem bit) divisor else shift_in rem bit

-- The first loop of `div_u128`, over the bits `n - 1` down to 0 of `hi`.
unfoldable pub rem_loop : ℕ → ℕ → ℕ → ℕ → ℕ
rem_loop divisor hi zero rem = rem
rem_loop divisor hi (suc i) rem = rem_loop divisor hi i (reduce divisor rem (hi / 2 ^ i % 2))

-- The second loop, which also sets the bits of the quotient. `|=` sets a clear bit, a sum.
unfoldable pub quot_loop : ℕ → ℕ → ℕ → ℕ → ℕ → ℕ
quot_loop divisor lo zero rem result = result
quot_loop divisor lo (suc i) rem result =
    let bit = lo / 2 ^ i % 2 in
    quot_loop divisor lo i (reduce divisor rem bit)
      (if exceeds divisor rem bit then result + 2 ^ i else result)

-- `U256::div_u128`
unfoldable pub div_u128 : U256 → ℕ → Outcome DexError ℕ
unfolding exceeds reduce rem_loop quot_loop
div_u128 n divisor =
    if divisor == 0
    then err DexError.overflow
    else if n.hi == 0
    then ok (n.lo / divisor)
    else if leb divisor n.hi
    then err DexError.overflow
    else ok (quot_loop divisor n.lo 128 (rem_loop divisor n.hi 128 0) 0)

-- `while y < x { x = y; y = (x + n / x) / 2; }`, then `x`.
unfoldable pub newton : ℕ → ℕ → ℕ → ℕ → ℕ
newton n zero x y = x
newton n (suc fuel) x y = elim (ltb y x) [
  | true ↦ newton n fuel y (wrapping_add y (n / y) / 2)
  | false ↦ x
]

-- `sqrt_u128`. Every round lowers `x`, so `n` rounds are enough.
unfoldable pub sqrt_u128 : ℕ → ℕ
unfolding newton
sqrt_u128 n = if n == 0 then 0 else if leb n 3 then 1 else newton n n n ((n + 1) / 2)

-- `(x >> 1) + (div >> 1) + ((x & 1) + (div & 1)) / 2`
abbrev pub average : ℕ → ℕ → ℕ
average x div = wrapping_add (wrapping_add (x / 2) (div / 2)) ((x % 2 + div % 2) / 2)

-- One round of the loop of `sqrt_u256`.
unfoldable pub next_estimate : U256 → ℕ → ℕ
unfolding div_u128
next_estimate n x = average x (unwrap_or (div_u128 n x) u128_max)

-- The loop of `sqrt_u256`.
unfoldable pub newton_u256 : U256 → ℕ → ℕ → ℕ
newton_u256 n zero x = x
newton_u256 n (suc fuel) x =
    let next = next_estimate n x in elim (leb x next) [ true ↦ x | false ↦ newton_u256 n fuel next ]

-- `sqrt_u256`. Every round lowers `x`, so the first `x` is enough fuel.
unfoldable pub sqrt_u256 : U256 → ℕ
sqrt_u256 n =
    let x = wrapping_mul (wrapping_add (sqrt_u128 n.hi) 1) u64_mod in
    if n.hi == 0 then sqrt_u128 n.lo else newton_u256 n x x

unfoldable pub get_amount_out : ℕ → ℕ → ℕ → Outcome DexError ℕ
get_amount_out amount_in_net reserve_in reserve_out = do
  reject_if (amount_in_net == 0) DexError.zero_amount
  reject_if (reserve_in == 0 || reserve_out == 0) DexError.zero_liquidity
  denominator ← ok_or (checked_add reserve_in amount_in_net) DexError.overflow
  div_u128 (mul_u128 reserve_out amount_in_net) denominator

-- `(amount_in_net, lp_fee, protocol_fee)`
unfoldable pub calculate_fees : ℕ → ℕ → ℕ → Outcome DexError (ℕ × ℕ × ℕ)
calculate_fees amount_in fee_bps protocol_fee_bps = do
  reject_if (amount_in == 0) DexError.zero_amount
  scaled_fee ← ok_or (checked_mul amount_in fee_bps) DexError.overflow
  let total_fee = scaled_fee / 10_000
  scaled_protocol ← ok_or (checked_mul amount_in protocol_fee_bps) DexError.overflow
  let protocol_fee = scaled_protocol / 10_000
  let lp_fee = saturating_sub total_fee protocol_fee
  let amount_in_net = saturating_sub amount_in total_fee
  ok (amount_in_net, lp_fee, protocol_fee)
