-- ===== src/Multichain.antt =====
-- crates/vtt-multichain, of which messaging.rs is modelled.
pub mod Messaging
pub mod Window
mod Tests
