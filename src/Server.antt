-- ===== src/Server.antt =====
-- crates/singularis-server: the relay.
pub mod Store
pub mod Config
pub mod Api
