-- ===== src/Tests.antt =====
-- Tests on concrete inputs, and the theorems at inputs that meet their hypotheses.
mod Codec
mod Wire
mod KeyHeader
mod Snapshot
mod Protocol
mod Relay
mod Vault
mod Desktop
mod Mls
mod VaultClient
mod Receive
mod Http
mod Messaging
