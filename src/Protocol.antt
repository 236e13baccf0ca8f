-- ===== src/Protocol.antt =====
-- crates/singularis-protocol: the types that clients and the relay exchange.
pub mod Ttl
pub mod Message
pub mod Event
