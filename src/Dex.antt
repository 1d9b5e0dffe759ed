-- ===== src/Dex.antt =====
-- crates/vtt-dex: the automated market maker.
pub mod Error
pub mod Math
pub mod Pool
pub mod Tokens
pub mod Quote
pub mod Swap
pub mod Shares
pub mod Liquidity
pub mod Revenue
pub mod Mining
mod Tests
