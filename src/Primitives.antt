-- ===== src/Primitives.antt =====
-- crates/vtt-primitives: the types that the other crates share. An `Address` and an `H256` are the
-- numbers that their bytes stand for in big-endian order, so their order is that of the numbers.
pub mod Amount
pub mod AssetGovernance
use vtt.Prelude.{ℕ, zero, suc, ◌/◌, ◌%◌, ◌^◌, List, [], ◌∷◌}

-- `Address::ZERO`
abbrev pub zero_address : ℕ
zero_address = 0

-- `H256::ZERO`
abbrev pub zero_hash : ℕ
zero_hash = 0

-- The lowest `n` bytes, the highest first: `as_bytes` with `n` at 20 for an address, 32 for a hash.
unfoldable pub as_bytes : ℕ → ℕ → List ℕ
as_bytes zero a = []
as_bytes (suc n) a = (a / 256 ^ n % 256) ∷ as_bytes n a

-- A string, by its bytes.
abbrev pub Text : Type 0
Text = List ℕ
