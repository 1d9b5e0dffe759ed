-- ===== src/Consensus.antt =====
-- crates/vtt-consensus: finality, governance, rewards, slashing and the election of validators.
pub mod Finality
pub mod Validators
pub mod Engine
pub mod Governance
pub mod Rewards
pub mod Slashing
mod Tests
