-- ===== src/Prelude/Codec.antt =====
-- A serialisation by the borsh crate: `to_vec` may fail, and reading back what was written gives
-- the value.
use vtt.Prelude.{ℕ, ◌≡◌, Option, some, List}

pub record Codec (A : Type 0) : Type 0 where
  pub to_vec : A → Option (List ℕ)
  pub try_from_slice : List ℕ → Option A
  pub from_slice-to_vec : (a : A) (raw : List ℕ) → to_vec a ≡ some raw → try_from_slice raw ≡ some a
