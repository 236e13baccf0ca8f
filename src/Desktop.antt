-- ===== src/Desktop.antt =====
-- apps/desktop/src-tauri: the state that the desktop application's commands work on.
pub mod Audio
pub mod Video
pub mod Messaging
pub mod Outbox
