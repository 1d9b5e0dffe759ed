-- ===== src/State.antt =====
-- crates/vtt-state: accounts, assets and the state database.
pub mod Account
pub mod Oracle
pub mod Asset
pub mod Db
pub mod Params
pub mod Staking
pub mod Snapshot
pub mod Value
pub mod Release
pub mod Balances
pub mod Transfers
pub mod Assets
pub mod Holders
mod Tests
