-- ===== src/Dex/Math/Mul.antt =====
-- `U256::mul_u128` of crates/vtt-dex/src/math.rs and the product.
use vtt.Prelude.{
  ℕ, ◌+◌, ◌-◌, ◌*◌, ◌/◌, ◌%◌, ◌≤◌, ◌<◌, ◌≡◌, ap₂, sym, ◌∙◌, arith, u64_mod, u128_mod, wrapping_mul,
}
use vtt.Prelude.Squares.{mul_mono}
use vtt.Dex.Math.{value, combine, mul_u128}

-- The carries of the sum of the partial products are all counted.
value-combine :
    (ll lh hl hh : ℕ)
    → ll < u128_mod
    → lh < u128_mod
    → hl < u128_mod
    → hh * u128_mod + (lh + hl) * u64_mod + ll < u128_mod * u128_mod
    → value (combine ll lh hl hh) ≡ hh * u128_mod + (lh + hl) * u64_mod + ll
value-combine ll lh hl hh pll plh phl total = ground arith

half_product : (a b : ℕ) → a < u64_mod → b < u64_mod → a * b ≤ (u64_mod - 1) * (u64_mod - 1)
half_product a b p q = mul_mono a (u64_mod - 1) b (u64_mod - 1) (omega arith) (omega arith)

half_product_fits : (a b : ℕ) → a < u64_mod → b < u64_mod → wrapping_mul a b ≡ a * b
half_product_fits a b p q = omega (arith, half_product a b p q)

product_fits : (a b : ℕ) → a < u128_mod → b < u128_mod → a * b < u128_mod * u128_mod
product_fits a b p q =
    omega (arith, mul_mono a (u128_mod - 1) b (u128_mod - 1) (omega arith) (omega arith))

split_product :
    (al ah bl bh : ℕ)
    → (ah * u64_mod + al) * (bh * u64_mod + bl)
      ≡ ah * bh * u128_mod + (al * bh + ah * bl) * u64_mod + al * bl
split_product al ah bl bh = omega arith

-- The product from the four halves.
halves_value :
    (al ah bl bh : ℕ)
    → al < u64_mod
    → ah < u64_mod
    → bl < u64_mod
    → bh < u64_mod
    → value (
        combine (wrapping_mul al bl) (wrapping_mul al bh) (wrapping_mul ah bl) (wrapping_mul ah bh))
      ≡ (ah * u64_mod + al) * (bh * u64_mod + bl)
halves_value al ah bl bh pal pah pbl pbh =
    rw
      (
        half_product_fits al bl pal pbl,
        half_product_fits al bh pal pbh,
        half_product_fits ah bl pah pbl,
        half_product_fits ah bh pah pbh,
      )
      (value-combine (al * bl) (al * bh) (ah * bl) (ah * bh)
          (omega (arith, half_product al bl pal pbl)) (omega (arith, half_product al bh pal pbh))
          (omega (arith, half_product ah bl pah pbl))
          (omega (
            arith,
            product_fits (ah * u64_mod + al) (bh * u64_mod + bl) (omega arith) (omega arith),
          ))
        ∙ sym (split_product al ah bl bh))

-- The two words of `mul_u128` stand for the product of any two 128-bit numbers.
pub mul_u128-exact : (a b : ℕ) → a < u128_mod → b < u128_mod → value (mul_u128 a b) ≡ a * b
unfolding mul_u128
mul_u128-exact a b p q =
    halves_value (a % u64_mod) (a / u64_mod) (b % u64_mod) (b / u64_mod) (omega arith) (omega arith)
      (omega arith) (omega arith)
    ∙ ap₂ ◌*◌ (omega arith) (omega arith)

-- Both words of the result are 128-bit numbers.
pub mul_u128-fits : (a b : ℕ) → ((mul_u128 a b).hi < u128_mod) × ((mul_u128 a b).lo < u128_mod)
unfolding mul_u128
mul_u128-fits a b = (omega arith, omega arith)
