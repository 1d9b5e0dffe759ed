-- ===== src/Dex/Quote/Stages.antt =====
-- The stages of a quote of crates/vtt-dex/src/swap.rs.
use vtt.Prelude.{ℕ, ◌+◌, ◌≤◌, ◌<◌, ◌≡◌, Bool, arith, u128_mod, ◌==◌, if◌then◌else◌}
use vtt.Prelude.Outcome.{ok, >>=-eq-ok, reject_if-eq-ok}
use vtt.Dex.Error.{DexError}
use vtt.Dex.Math.{calculate_fees, get_amount_out}
use vtt.Dex.Pool.{PoolState}
use vtt.Dex.Quote.{Quote, direction, price, check_out, quote}

-- The fee rates are in order, and both reserves fit 128 bits with room for `amount_in`.
pub record HasRoom (pool : PoolState) (amount_in : ℕ) : Type 0 where
  pub rates : pool.protocol_fee_bps ≤ pool.fee_bps
  pub all : pool.fee_bps ≤ 10_000
  pub room_a : pool.reserve_a + amount_in < u128_mod
  pub room_b : pool.reserve_b + amount_in < u128_mod
  pub fees_a : pool.protocol_fees_a + amount_in < u128_mod
  pub fees_b : pool.protocol_fees_b + amount_in < u128_mod

-- The reserves of the input and of the output token.
abbrev pub reserve_in : Bool → PoolState → ℕ
reserve_in is_a_to_b pool = if is_a_to_b then pool.reserve_a else pool.reserve_b

abbrev pub reserve_out : Bool → PoolState → ℕ
reserve_out is_a_to_b pool = if is_a_to_b then pool.reserve_b else pool.reserve_a

direction-ok :
    (pool : PoolState) (token_in : ℕ) {i o : ℕ} {d : Bool}
    → direction pool token_in ≡ ok (i, o, d)
    → (i ≡ reserve_in d pool)
      × (o ≡ reserve_out d pool)
      × (token_in ≡ (if d then pool.token_a else pool.token_b))
unfolding direction
direction-ok pool token_in h = ground arith

price-ok :
    (pool : PoolState) (x i o : ℕ) (d : Bool) {q : Quote}
    → price pool x (i, o, d) ≡ ok q
    → (q.is_a_to_b ≡ d)
      × (calculate_fees x pool.fee_bps pool.protocol_fee_bps
          ≡ ok (q.amount_in_net, q.lp_fee, q.protocol_fee))
      × (get_amount_out q.amount_in_net i o ≡ ok q.amount_out)
unfolding price
price-ok pool x i o d h = ground arith

check_out-ok :
    (m : ℕ) (q q' : Quote)
    → check_out m q ≡ ok q'
    → (q ≡ q') × (m ≤ q'.amount_out) × (0 < q'.amount_out)
unfolding check_out
check_out-ok m q q' h = ground arith

-- What a quote has computed.
pub record IsQuoted (pool : PoolState) (token_in amount_in min_out : ℕ) (q : Quote) : Type 0 where
  pub token : token_in ≡ (if q.is_a_to_b then pool.token_a else pool.token_b)
  pub fees :
      calculate_fees amount_in pool.fee_bps pool.protocol_fee_bps
      ≡ ok (q.amount_in_net, q.lp_fee, q.protocol_fee)
  pub output :
      get_amount_out q.amount_in_net (reserve_in q.is_a_to_b pool) (reserve_out q.is_a_to_b pool)
      ≡ ok q.amount_out
  pub enough : min_out ≤ q.amount_out
  pub positive : 0 < q.amount_out

quote_stages :
    (pool : PoolState) (t x m : ℕ) {q : Quote}
    → quote pool t x m ≡ ok q
    → (i o : ℕ) × (d : Bool) × (p : Quote) × (direction pool t ≡ ok (i, o, d))
      × (price pool x (i, o, d) ≡ ok p)
      × (check_out m p ≡ ok q)
unfolding quote
quote_stages pool t x m h =
    let (_, h') = reject_if-eq-ok (x == 0) DexError.zero_amount _ h in
    let ((i, o, d), e, k) = >>=-eq-ok (direction pool t) _ h' in
    let (p, f, g) = >>=-eq-ok (price pool x (i, o, d)) (check_out m) k in (i, o, d, p, e, f, g)

pub quote-IsQuoted :
    (pool : PoolState) (t x m : ℕ) {q : Quote} → quote pool t x m ≡ ok q → IsQuoted pool t x m q
quote-IsQuoted pool t x m {q} h =
    let (i, o, d, p, e, f, g) = quote_stages pool t x m h in
    let (ei, eo, et) = direction-ok pool t e in
    let (ed, ef, eg) = price-ok pool x i o d f in
    let (same, low, pos) = check_out-ok m p q g in
    record {
      token = ground arith;
      fees = ground arith;
      output = ground arith;
      enough = low;
      positive = pos;
    }
