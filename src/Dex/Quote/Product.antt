-- ===== src/Dex/Quote/Product.antt =====
-- What a swap of crates/vtt-dex/src/swap.rs does to the reserves and fees of its pool.
use vtt.Prelude.{
  ℕ, ◌+◌, ◌-◌, ◌*◌, ◌≤◌, ◌<◌, ◌≡◌, refl, Bool, true, false, arith, u128_mod, wrapping_add,
  wrapping_sub, ap₂, if◌then◌else◌,
}
use vtt.Prelude.Squares.{mul_mono}
use vtt.Prelude.Outcome.{ok}
use vtt.Dex.Math.Formulas.{calculate_fees-split, get_amount_out-keeps_product, get_amount_out-ok}
use vtt.Dex.Pool.{PoolState}
use vtt.Dex.Quote.{Quote, quote, settle}
use vtt.Dex.Quote.Stages.{HasRoom, reserve_in, reserve_out, quote-IsQuoted}

-- The fees of the two sides.
abbrev pub fees_in : Bool → PoolState → ℕ
fees_in is_a_to_b pool = if is_a_to_b then pool.protocol_fees_a else pool.protocol_fees_b

abbrev pub fees_out : Bool → PoolState → ℕ
fees_out is_a_to_b pool = if is_a_to_b then pool.protocol_fees_b else pool.protocol_fees_a

reserves_fit :
    (pool : PoolState) (x : ℕ) (d : Bool)
    → HasRoom pool x
    → (reserve_in d pool + x < u128_mod)
      × (reserve_out d pool + x < u128_mod)
      × (fees_in d pool + x < u128_mod)
reserves_fit pool x d room = ground arith

-- What `settle` leaves, in terms of the two sides.
settle_sides :
    (pool : PoolState) (q : Quote)
    → let p' = settle q pool in
      let d = q.is_a_to_b in
      (reserve_in d p' ≡ wrapping_add (reserve_in d pool) (wrapping_add q.amount_in_net q.lp_fee))
      × (reserve_out d p' ≡ wrapping_sub (reserve_out d pool) q.amount_out)
      × (fees_in d p' ≡ wrapping_add (fees_in d pool) q.protocol_fee)
      × (fees_out d p' ≡ fees_out d pool)
unfolding settle
settle_sides pool q = ground arith

grown_product :
    (i o net lp out : ℕ) → i * o ≤ (i + net) * (o - out) → i * o ≤ (i + (net + lp)) * (o - out)
grown_product i o net lp out h =
    omega
      (arith, mul_mono (i + net) (i + (net + lp)) (o - out) (o - out) (omega arith) (omega arith))

sides_product :
    (d : Bool) (p : PoolState) → reserve_in d p * reserve_out d p ≡ p.reserve_a * p.reserve_b
sides_product true p = refl
sides_product false p = omega arith

sides_positive :
    (d : Bool) (p : PoolState)
    → 0 < reserve_in d p
    → 0 < reserve_out d p
    → (0 < p.reserve_a) × (0 < p.reserve_b)
sides_positive d p h k = ground arith

module _ (pool : PoolState) (t x m : ℕ) {q : Quote} (room : HasRoom pool x)
    (h : quote pool t x m ≡ ok q) where
  quoted_parts :
      let i = reserve_in q.is_a_to_b pool in
      let o = reserve_out q.is_a_to_b pool in
      (q.amount_in_net + q.lp_fee + q.protocol_fee ≡ x)
      × (q.amount_out < o)
      × (0 < i)
      × (i * o ≤ (i + q.amount_in_net) * (o - q.amount_out))
  quoted_parts =
      let f = quote-IsQuoted pool t x m h in
      let i = reserve_in q.is_a_to_b pool in
      let o = reserve_out q.is_a_to_b pool in
      let (fits_i, fits_o, _) = reserves_fit pool x q.is_a_to_b room in
      let split =
        (calculate_fees-split x pool.fee_bps pool.protocol_fee_bps room.rates room.all f.fees).0 in
      let net_fits : q.amount_in_net < u128_mod = omega (arith, split, fits_i) in
      let i_fits : i < u128_mod = omega (arith, fits_i) in
      let o_fits : o < u128_mod = omega (arith, fits_o) in
      let kept = get_amount_out-keeps_product q.amount_in_net i o net_fits i_fits o_fits f.output in
      let found = get_amount_out-ok q.amount_in_net i o net_fits i_fits o_fits f.output in
      (split, kept.0, found.0, kept.1)

  settled_sides :
      let p' = settle q pool in
      let d = q.is_a_to_b in
      (reserve_in d p' ≡ reserve_in d pool + (q.amount_in_net + q.lp_fee))
      × (reserve_out d p' ≡ reserve_out d pool - q.amount_out)
      × (fees_in d p' ≡ fees_in d pool + q.protocol_fee)
      × (fees_out d p' ≡ fees_out d pool)
  settled_sides =
      let (sum, below, pos, kept) = quoted_parts in
      let (fits_i, fits_o, fits_f) = reserves_fit pool x q.is_a_to_b room in
      let (ei, eo, ef, eg) = settle_sides pool q in (omega arith, omega arith, omega arith, eg)

  -- With fee rates in order and room for the input in 128 bits, a quoted swap is accounted for
  -- exactly: the input is shared out between the reserve and the protocol's fees of its token, and
  -- the output leaves the reserve of the other.
  pub settle_accounts :
      let p' = settle q pool in
      let d = q.is_a_to_b in
      (reserve_in d p' + fees_in d p' ≡ reserve_in d pool + fees_in d pool + x)
      × (reserve_out d p' + q.amount_out ≡ reserve_out d pool)
      × (fees_out d p' ≡ fees_out d pool)
  settle_accounts =
      let (sum, below, pos, kept) = quoted_parts in
      let (ei, eo, ef, eg) = settled_sides in (omega arith, omega arith, eg)

  -- With fee rates in order and room for the input in 128 bits, a quoted swap never lowers the
  -- product of the reserves, pays at least the minimum and something, and leaves both reserves
  -- above 0.
  pub settle_keeps_product :
      let p' = settle q pool in
      (pool.reserve_a * pool.reserve_b ≤ p'.reserve_a * p'.reserve_b)
      × (m ≤ q.amount_out)
      × (0 < q.amount_out)
      × (0 < p'.reserve_a)
      × (0 < p'.reserve_b)
  settle_keeps_product =
      let (sum, below, pos, kept) = quoted_parts in
      let (ei, eo, ef, eg) = settled_sides in
      let f = quote-IsQuoted pool t x m h in
      let d = q.is_a_to_b in
      let p' = settle q pool in
      let more = grown_product _ _ q.amount_in_net q.lp_fee q.amount_out kept in
      let both = sides_positive d p' (omega arith) (omega arith) in
      let product : reserve_in d p' * reserve_out d p'
          ≡ (reserve_in d pool + (q.amount_in_net + q.lp_fee))
            * (reserve_out d pool - q.amount_out) =
        ap₂ ◌*◌ ei eo in
      (
        omega (arith, more, product, sides_product d pool, sides_product d p'),
        f.enough,
        f.positive,
        both.0,
        both.1,
      )
