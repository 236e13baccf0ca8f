-- ===== src/Mls/Error.antt =====
-- crates/singularis-mls/src/error.rs. The errors of serde_json carry no data here.
use Prim.Native.String.{String}
use singularis.Vault.Error.{VaultError}

pub data MlsError : Type 0 where
  invalid_payload : String → MlsError
  payload_encoding identity_generation state_storage invalid_state_snapshot : MlsError
  state_already_exists invalid_outbox_entry : MlsError
  vault : VaultError → MlsError
  channel_already_joined unknown_channel invalid_key_package invalid_welcome : MlsError
  message_encoding message_rejected unexpected_message_type context_mismatch : MlsError
  invalid_sender_credential replay_detected invalid_sender_chain : MlsError
