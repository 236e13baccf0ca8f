-- ===== src/Vault/Error.antt =====
-- crates/singularis-vault/src/error.rs. The errors of other crates carry no data here.
use Prim.Native.String.{String}
use singularis.Prelude.{ℕ}

pub data VaultError : Type 0 where
  already_initialized not_initialized locked authentication_failed weak_passphrase : VaultError
  invalid_input : String → VaultError
  corrupt_state outbox_conflict : VaultError
  unsupported_version : ℕ → VaultError
  sql_cipher_unavailable crypto io database metadata : VaultError

unfoldable pub code : VaultError → String
code already_initialized = "already_initialized"
code not_initialized = "not_initialized"
code locked = "locked"
code authentication_failed = "authentication_failed"
code weak_passphrase = "weak_passphrase"
code (invalid_input message) = "invalid_input"
code corrupt_state = "corrupt_state"
code outbox_conflict = "outbox_conflict"
code (unsupported_version version) = "unsupported_version"
code sql_cipher_unavailable = "sqlcipher_unavailable"
code crypto = "crypto_failed"
code io = "io_failed"
code database = "database_failed"
code metadata = "metadata_invalid"

unfoldable pub public_message : VaultError → String
public_message already_initialized = "Der lokale Vault ist bereits eingerichtet."
public_message not_initialized = "Der lokale Vault ist noch nicht eingerichtet."
public_message locked = "Der lokale Vault ist gesperrt."
public_message authentication_failed = "Passphrase falsch oder Schluesseldatei beschaedigt."
public_message weak_passphrase = "Die Passphrase muss mindestens 12 Zeichen lang sein."
public_message (invalid_input message) = message
public_message corrupt_state = "Die lokalen Vault-Dateien sind unvollstaendig oder beschaedigt."
public_message outbox_conflict = "Der lokale Sendeauftrag steht im Konflikt mit vorhandenen Daten."
public_message (unsupported_version version) = "Diese Vault-Version wird nicht unterstuetzt."
public_message sql_cipher_unavailable = "SQLCipher ist in diesem Build nicht verfuegbar."
public_message crypto = "Der lokale Vault konnte nicht verarbeitet werden."
public_message io = "Der lokale Vault konnte nicht verarbeitet werden."
public_message database = "Der lokale Vault konnte nicht verarbeitet werden."
public_message metadata = "Der lokale Vault konnte nicht verarbeitet werden."
