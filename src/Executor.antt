-- ===== src/Executor.antt =====
-- crates/vtt-executor/src/lib.rs: errors and results, with the transactions of
-- crates/vtt-primitives/src/transaction.rs. Logs and the texts of errors are left out: nothing in
-- the executor reads them.
mod Tests
pub mod Transactions
pub mod Stake
pub mod Assets
pub mod Redemption
pub mod Proposals
pub mod Bridge
pub mod Feeds
pub mod Evidence
pub mod Dispatch
pub mod Run
pub mod Rewards
