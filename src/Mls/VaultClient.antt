-- ===== src/Mls/VaultClient.antt =====
-- crates/singularis-mls/src/client.rs: `VaultMlsClient`, the client whose state is kept in the vault, and
-- the client's own `new`, `save_to_vault` and `load_from_vault`.

pub mod Queue
pub mod Operations
pub mod Rollback
pub mod QueueRollback
pub mod ReceiveRollback
pub mod Queued
pub mod Persistence
pub mod Mail
pub mod Addressed
use singularis.Prelude.{
  ◌≡◌, Bool, true, false, not, ◌||◌, Option, none, some, List, [], ◌∷◌, Result, ok, err, ◌>>=◌,
  ◌>>◌, fail_if, ok_or, map_err, map_ok, Text, Bytes, ◌==◌, nat_eq, list_eq, HashMap, is_some,
}
use singularis.Protocol.Event.{EventId, Uuid, SubmitEvent, SubmitJson}
use singularis.Protocol.Ttl.{ServerTtl}
use singularis.Protocol.Message.{Base64}
use singularis.Vault.Error.{VaultError}
use singularis.Vault.Input.{NewVaultMessage, VaultMessage, VaultOutboxItem}
use singularis.Vault.Database.{Faults, Connection}
use singularis.Vault.Methods.{UuidText, store_mls_client_snapshot, load_mls_client_snapshot}
use singularis.Vault.Methods.Outbox.{
  store_mls_snapshot_and_outbox, store_message_and_mls_snapshot_and_outbox, list_mls_outbox,
  acknowledge_mls_outbox,
}
use singularis.Mls.Error.{
  MlsError, vault, state_already_exists, identity_generation, state_storage, payload_encoding,
  invalid_outbox_entry,
}
use singularis.Mls.Chain.{MlsClient, EncryptedEvent, to_submit_event}
use singularis.Mls.Snapshot.{Provider, Storage, SnapshotJson, encode_snapshot, decode_snapshot}

-- `?` on a call of the vault.
abbrev pub lift : {A : Type 0} → Result VaultError A × Connection → Result MlsError A × Connection
lift (result, c) = (map_err vault result, c)

-- `MlsClient::new`: what the key generation draws, if it does not fail, is an argument, and so is the
-- storage of the key in an empty provider.
unfoldable pub new :
    {Group Signer : Type 0}
    → Option Signer
    → (Signer → Option (HashMap Bytes Bytes))
    → Uuid
    → Result MlsError (MlsClient Group (Provider Signer))
new drawn store device_id = do
  signer ← ok_or drawn identity_generation
  values ← ok_or (store signer) state_storage
  ok (record {
    device_id = device_id;
    provider = record { values = values; signer = signer };
    channels = [];
  })

pub record VaultMlsClient (Group Signer : Type 0) : Type 0 where
  pub vault : Connection
  pub client : MlsClient Group (Provider Signer)

module _ {Group Signer : Type 0} (storage : Storage Group Signer) (json : SnapshotJson)
    (uuid : UuidText) (faults : Faults) where
  abbrev pub on_snapshot :
      Uuid → Connection → Result MlsError Bytes → Result MlsError Unit × Connection
  on_snapshot device_id c (err e) = (err e, c)
  on_snapshot device_id c (ok snapshot) =
      lift (store_mls_client_snapshot faults (uuid.to_string device_id) snapshot c)

  unfoldable pub save_to_vault :
      MlsClient Group (Provider Signer) → Connection → Result MlsError Unit × Connection
  save_to_vault client c = on_snapshot client.device_id c (encode_snapshot storage json client)

  abbrev pub decode_found :
      Uuid → Option Bytes → Result MlsError (Option (MlsClient Group (Provider Signer)))
  decode_found device_id none = ok none
  decode_found device_id (some snapshot) =
      map_ok some (decode_snapshot storage json snapshot device_id)

  unfoldable pub load_from_vault :
      Uuid → Connection → Result MlsError (Option (MlsClient Group (Provider Signer)))
  load_from_vault device_id c = do
    found ← map_err vault (load_mls_client_snapshot faults (uuid.to_string device_id) c)
    decode_found device_id found

  -- The part of `create` behind the look for an existing snapshot and `MlsClient::new`.
  abbrev pub on_new :
      Connection
      → Result MlsError (MlsClient Group (Provider Signer))
      → Result MlsError (VaultMlsClient Group Signer) × Connection
  on_new c (err e) = (err e, c)
  on_new c (ok client) =
      let (saved, c') = save_to_vault client c in
      (map_ok (λ u. record { vault = c'; client = client }) saved, c')

  unfoldable pub create :
      Option Signer
      → (Signer → Option (HashMap Bytes Bytes))
      → Uuid
      → Connection
      → Result MlsError (VaultMlsClient Group Signer) × Connection
  create drawn store device_id c = on_new c (do
    found ← map_err vault (load_mls_client_snapshot faults (uuid.to_string device_id) c)
    fail_if (is_some found) state_already_exists
    new drawn store device_id)

  unfoldable pub load : Uuid → Connection → Result MlsError (Option (VaultMlsClient Group Signer))
  load device_id c = do found ← load_from_vault device_id c; ok (loaded found)
    where
      loaded : Option (MlsClient Group (Provider Signer)) → Option (VaultMlsClient Group Signer)
      loaded none = none
      loaded (some client) = some (record { vault = c; client = client })

  -- `self.restore(previous)?; Err(error)`, where the failed operation left `client`.
  abbrev pub on_restored :
      {A : Type 0}
      → MlsError
      → MlsClient Group (Provider Signer)
      → Connection
      → Result MlsError (MlsClient Group (Provider Signer))
      → Result MlsError A × VaultMlsClient Group Signer
  on_restored error client c (ok restored) = (err error, record { vault = c; client = restored })
  on_restored error client c (err e) = (err e, record { vault = c; client = client })

  abbrev pub restore :
      {A : Type 0}
      → Bytes
      → MlsError
      → MlsClient Group (Provider Signer)
      → Connection
      → Result MlsError A × VaultMlsClient Group Signer
  restore previous error client c =
      on_restored error client c (decode_snapshot storage json previous client.device_id)

  abbrev pub on_saved :
      {A : Type 0}
      → Bytes
      → A
      → MlsClient Group (Provider Signer)
      → Result MlsError Unit × Connection
      → Result MlsError A × VaultMlsClient Group Signer
  on_saved previous value client (ok saved, c) = (ok value, record { vault = c; client = client })
  on_saved previous value client (err e, c) = restore previous e client c

  abbrev pub on_operated :
      {A : Type 0}
      → Bytes
      → Connection
      → Result MlsError A × MlsClient Group (Provider Signer)
      → Result MlsError A × VaultMlsClient Group Signer
  on_operated previous c (ok value, client) =
      on_saved previous value client (save_to_vault client c)
  on_operated previous c (err e, client) = restore previous e client c

  abbrev pub on_previous :
      {A : Type 0}
      → VaultMlsClient Group Signer
      → (MlsClient Group (Provider Signer) → Result MlsError A × MlsClient Group (Provider Signer))
      → Result MlsError Bytes
      → Result MlsError A × VaultMlsClient Group Signer
  on_previous v operation (err e) = (err e, v)
  on_previous v operation (ok previous) = on_operated previous v.vault (operation v.client)

  unfoldable pub transact :
      {A : Type 0}
      → (MlsClient Group (Provider Signer) → Result MlsError A × MlsClient Group (Provider Signer))
      → VaultMlsClient Group Signer
      → Result MlsError A × VaultMlsClient Group Signer
  transact operation v = on_previous v operation (encode_snapshot storage json v.client)
