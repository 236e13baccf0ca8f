-- ===== src/Lib.antt =====
-- Singularis: a desktop chat client with an encrypted local vault and MLS end-to-end encryption, and a
-- relay that keeps encrypted events for a limited time. Paths are from the repository's root.
--
-- The parts, and the files that model them:
--   * Protocol: crates/singularis-protocol. Protocol/Ttl.antt is src/ttl.rs; Protocol/Message.antt and
--     Protocol/Event.antt are src/event.rs.
--   * Server: crates/singularis-server. Server/Store.antt is src/store.rs (`StoreData`, `accept`,
--     `list_active`), Server/Api.antt the handlers of src/api.rs, Server/Config.antt src/config.rs.
--     Store/Live, Relay, Order, History and Lifetime hold the proofs; Relay also states the abstract
--     relay, a log of events, that the store implements.
--   * Vault: crates/singularis-vault. Vault/Input.antt holds the checks on arguments, Vault/Database.antt
--     the tables with their statements and constraints, Vault/Methods.antt and Methods/Outbox.antt the
--     methods of `Vault` (src/vault.rs); Vault/Error.antt is src/error.rs, Vault/KeyHeader.antt
--     src/key_header.rs. Vault/Rows, Schema and Atomicity hold what is shared of the proofs,
--     KeyHeader/Unlock and Binding, Methods/Soundness, Repetition, Delivery, Listing and Reload the
--     rest.
--   * Mls: crates/singularis-mls. Mls/Event.antt is src/event.rs, Mls/Error.antt src/error.rs.
--     The other files are src/client.rs: Mls/Chain.antt the sender chains and `encrypt_event`,
--     Mls/Receive.antt the decryption, Mls/Groups.antt channels and their members, Mls/Snapshot.antt
--     `encode_snapshot` and `decode_snapshot`, Mls/VaultClient.antt `VaultMlsClient` with `transact` and
--     `restore`, VaultClient/Queue what it queues, VaultClient/Operations its other operations.
--     Mls/Reach.antt states what a client reaches by its operations. The children of these files hold
--     the proofs.
--   * Desktop: apps/desktop/src-tauri. Desktop/Audio.antt is src/audio.rs, Desktop/Video.antt
--     src/video.rs, Desktop/Messaging.antt src/messaging.rs, Desktop/Outbox.antt src/outbox.rs;
--     Outbox/Http.antt its address and response; Outbox/Outcome, InOrder and Counts hold the proofs.
--   * Prelude: names and lemmas that the others share. Tests: concrete inputs.
-- A client encrypts an event (Mls), the vault queues it in one transaction with the client's state
-- (Vault), the desktop's worker hands the queue to the relay (Desktop), which stores it for a while and
-- lists it to other clients (Server), in the records of Protocol.
--
-- How code corresponds to definitions. A function keeps its name; one that works on shared or mutable
-- state takes the state and returns the new one beside its result. A `Result` is the data type of
-- Prelude/Results.antt with its `?` as a bind; a hash map is a function from its keys where only its
-- operations matter, and a list of entries, one to a key, where the source goes through it. A UUID and a hash
-- are the numbers that their bits spell, a time is a number of nanoseconds, a text is the list of its
-- code points, whose UTF-8 length `len` counts. What the clock, the random source, the environment,
-- other tasks and the relay do is an argument; so is which SQL statements the engine fails
-- to run, for each call of the vault by itself.
--
-- Bounds. `u64` counters wrap or saturate as the source writes it: the sequence number of a channel is
-- taken modulo 2^64, as a release build does, and a sender's counter saturates. Counts of `usize` that
-- are bounded by the length of a list in memory are plain numbers. Loops are recursions on the list that
-- they run over, and need no fuel.
--
-- Parameters, with their documented behaviour as laws: base64 (`Base64`), socket addresses
-- (`SocketAddrs`), URLs (`Urls`), the text form of UUIDs (`UuidText`), serde_json on events
-- (`EventJson`), submissions (`SubmitJson`), snapshots (`SnapshotJson`) and key headers (`HeaderJson`),
-- OpenMLS (`OpenMls`, `Receiver`, `Groups`, `Storage`), the ciphers of the vault (`Ciphers`) and SHA-256.
-- Of OpenMLS it is assumed that what it reads out of its storage depends on the stored values alone;
-- that it carries a message to a member, and that a group is stored as it is held, are hypotheses of the
-- theorems that need them.
--
-- Not modelled: the vault's life cycle, migrations and full-text search; the settings of the groups
-- that OpenMLS makes; the sending of requests, the router and the application's commands; logging and
-- other input and output.

pub mod Desktop
pub mod Mls
pub mod Prelude
pub mod Protocol
pub mod Server
pub mod Tests
pub mod Vault
