-- ===== src/Executor/Feeds/Types.antt =====
-- The types of oracle feeds that `execute_create_oracle_feed` of crates/vtt-executor/src/lib.rs takes.
use vtt.Prelude.{
  ℕ, zero, suc, ◌+◌, ◌≡◌, ◌≤◌, ◌<◌, refl, List, [], ◌∷◌, Bool, true, false, not, ◌||◌, arith,
  Option, none, some, ltb, ◌==◌, if◌then◌else◌, length, Option-cases, inl, inr,
}
use vtt.Prelude.Map.{get_or}
use vtt.Prelude.Outcome.{err, ok_or}
use vtt.Prelude.Action.{◌>>=◌, ◌>>◌, reject_if, lift}
use vtt.Primitives.{Text}
use vtt.State.Oracle.{OracleFeedType}
use vtt.State.Db.{StateDb}
use vtt.Executor.Transactions.{ExecutionError, Execution}
use vtt.Executor.Feeds.{
  has_duplicates, strip_prefix, trim_matches, price_prefix, rate_prefix, asset_prefix, parse_asset,
  parse_type, execute_create_oracle_feed,
}

length-strip_prefix :
    (p t : Text) {rest : Text} → strip_prefix p t ≡ some rest → length rest + length p ≡ length t
unfolding strip_prefix
length-strip_prefix [] t {rest} h = ground arith
length-strip_prefix (c ∷ p) [] h = cc
length-strip_prefix (c ∷ p) (d ∷ t) {rest} h = ground (arith, length-strip_prefix p t {rest = rest})

length-trim_matches : (n : ℕ) (p t : Text) → length (trim_matches n p t) ≤ length t
unfolding trim_matches
length-trim_matches zero p t = omega arith
length-trim_matches (suc n) p t = elim (Option-cases (strip_prefix p t)) [
  | inl none_ ↦ ground arith
  | inr (rest, e) ↦ ground (arith, length-strip_prefix p t e, length-trim_matches n p rest)
]

length-stripped : (p t : Text) → length (get_or (strip_prefix p t) t) ≤ length t
length-stripped p t = elim (Option-cases (strip_prefix p t)) [
  | inl none_ ↦ ground arith
  | inr (rest, e) ↦ ground (arith, length-strip_prefix p t e)
]

length-trim_once :
    (n : ℕ) (p t : Text) {rest : Text}
    → 0 < n
    → strip_prefix p t ≡ some rest
    → length (trim_matches n p t) ≤ length rest
unfolding trim_matches
length-trim_once zero p t pos e = absurd (omega arith)
length-trim_once (suc n) p t {rest} pos e = ground (arith, length-trim_matches n p rest)

not_equal : {A : Type 0} (n : ℕ) → n < 64 → (x y : A) → (if not (n == 64) then x else y) ≡ x
not_equal n less x y = ground arith

-- A guard, and what comes after it where it lets through.
fails_after :
    (refused : Bool) (rest : Execution) (s : StateDb)
    → (refused ≡ false → rest s ≡ (err ExecutionError.custom, s))
    → (reject_if refused ExecutionError.custom >> rest) s ≡ (err ExecutionError.custom, s)
fails_after true rest s next = refl
fails_after false rest s next = next refl

-- A text of at most 64 bytes is never the type of an asset's valuation.
parse_asset_short :
    (t rest : Text) → strip_prefix asset_prefix t ≡ some rest → length t ≤ 64 → parse_asset t ≡ none
unfolding parse_asset
parse_asset_short t rest e small =
    let long = length-strip_prefix asset_prefix t e in
    let tail = trim_matches (length t) asset_prefix t in
    let once = length-trim_once (length t) asset_prefix t (omega (arith, long)) e in
    let hex = length-stripped (b'0' ∷ b'x' ∷ []) tail in
    not_equal (length (get_or (strip_prefix (b'0' ∷ b'x' ∷ []) tail) tail))
      (omega (arith, long, once, hex, small)) none _

first_letter :
    (t rest : Text)
    → strip_prefix asset_prefix t ≡ some rest
    → (strip_prefix price_prefix t ≡ none) × (strip_prefix rate_prefix t ≡ none)
unfolding strip_prefix
first_letter [] rest e = cc
first_letter (c ∷ t) rest e = (ground arith, ground arith)

parse_type-none :
    (t rest : Text) → strip_prefix asset_prefix t ≡ some rest → length t ≤ 64 → parse_type t ≡ none
unfolding parse_type
parse_type-none t rest e small =
    let others = first_letter t rest e in
    rw (others.0, others.1, e, parse_type) (parse_asset_short t rest e small)

unparsed :
    (parsed : Option OracleFeedType) (next : OracleFeedType → Execution) (s : StateDb)
    → parsed ≡ none
    → (lift (ok_or parsed ExecutionError.custom) >>= next) s ≡ (err ExecutionError.custom, s)
unparsed none next s e = refl
unparsed (some t) next s e = cc

-- No feed on the valuation of an asset can be created: a type that starts with `asset:` always ends in
-- an error and changes nothing, since it may have at most 64 bytes and would need 64 more after the
-- prefix.
pub execute_create_oracle_feed-never_values :
    (sender id : ℕ) (name feed_type rest : Text) (sources : List ℕ)
    (quorum staleness decimals block : ℕ) (s : StateDb)
    → strip_prefix asset_prefix feed_type ≡ some rest
    → execute_create_oracle_feed sender id name feed_type sources quorum staleness decimals block s
      ≡ (err ExecutionError.custom, s)
unfolding execute_create_oracle_feed
execute_create_oracle_feed-never_values sender id name feed_type rest sources quorum staleness
      decimals block s e =
    fails_after (ltb 30 decimals) _ s (λ _.
      fails_after (not (sender == s.treasury_address)) _ s (λ _.
        fails_after (length name == 0 || ltb 128 (length name)) _ s (λ _.
          fails_after (length feed_type == 0 || ltb 64 (length feed_type)) _ s (λ fits.
            fails_after (length sources == 0 || ltb 32 (length sources)) _ s (λ _.
              fails_after (has_duplicates sources) _ s (λ _.
                fails_after (quorum == 0 || ltb (length sources) quorum) _ s (λ _.
                  unparsed (parse_type feed_type) _ s
                    (parse_type-none feed_type rest e (ground arith)))))))))
