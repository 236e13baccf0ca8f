-- ===== src/Vault.antt =====
-- crates/singularis-vault: the encrypted local store.
pub mod Error
pub mod Input
pub mod Database
pub mod Rows
pub mod Schema
pub mod KeyHeader
pub mod Methods
pub mod Atomicity
