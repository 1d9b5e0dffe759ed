-- ===== src/Executor/Redemption/Revenue.antt =====
-- `execute_distribute_revenue` of crates/vtt-executor/src/lib.rs pays out what it takes.
use vtt.Prelude.{ℕ, ◌+◌, ◌*◌, ◌<◌, List, [], ◌∷◌, u128_mod}
use vtt.Prelude.Keys.{nat_key, pair_key}
use vtt.Prelude.Outcome.{Outcome}
use vtt.State.Db.{StateDb}
use vtt.State.Params.{ownership_for_asset}
use vtt.Executor.Redemption.{mul_div, paid_holders}

abbrev pub holders : ℕ → StateDb → List (ℕ × ℕ)
holders id s = paid_holders (ownership_for_asset id s.ownership)

-- What the holders have together, and what they are owed.
unfoldable pub sum_held : List (ℕ × ℕ) → ℕ
sum_held [] = 0
sum_held ((holder, held) ∷ hs) = held + sum_held hs

unfoldable pub owed : ℕ → ℕ → List (ℕ × ℕ) → ℕ
owed total supply [] = 0
owed total supply ((holder, held) ∷ hs) = mul_div held total supply + owed total supply hs

-- No product of a holding and the amount exceeds 128 bits.
unfoldable pub IsFitting : ℕ → List (ℕ × ℕ) → Type 0
IsFitting total [] = Unit
IsFitting total ((holder, held) ∷ hs) = (held * total < u128_mod) × IsFitting total hs
