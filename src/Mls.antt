-- ===== src/Mls.antt =====
-- crates/singularis-mls: encrypted events, and the chains that order each sender's.
pub mod Error
pub mod Event
pub mod Chain
pub mod Receive
pub mod Groups
pub mod Reach
pub mod Snapshot
pub mod VaultClient
