-- ===== src/Mls/VaultClient/Queue.antt =====
-- crates/singularis-mls/src/client.rs: the outgoing events of a `VaultMlsClient`, which it stores with its
-- state in one transaction of the vault, and the outbox that they wait in.

use singularis.Prelude.{
  Bool, not, ◌||◌, Option, List, [], ◌∷◌, Result, ok, err, ◌>>=◌, ◌>>◌, fail_if, ok_or, map_err,
  map_ok, Text, Bytes, ◌==◌, nat_eq, list_eq, ℤ, ℕ,
}
use singularis.Protocol.Event.{EventId, Uuid, SubmitEvent, SubmitJson}
use singularis.Protocol.Ttl.{ServerTtl}
use singularis.Protocol.Message.{Base64}
use singularis.Vault.Input.{NewVaultMessage, VaultMessage, VaultOutboxItem}
use singularis.Vault.Database.{Faults, Connection}
use singularis.Vault.Methods.{UuidText}
use singularis.Vault.Methods.Outbox.{
  store_mls_snapshot_and_outbox, store_message_and_mls_snapshot_and_outbox, list_mls_outbox,
  acknowledge_mls_outbox,
}
use singularis.Mls.Error.{MlsError, vault, payload_encoding, invalid_outbox_entry}
use singularis.Mls.Event.{PlaintextEvent, EventReferences, EventJson}
use singularis.Mls.Chain.{
  MlsClient, EncryptedEvent, OpenMls, AuthenticatedTransportMetadata, to_submit_event,
  encrypt_event,
}
use singularis.Mls.Groups.{encrypt_text}
use singularis.Mls.Snapshot.{Provider, Storage, SnapshotJson, encode_snapshot}
use singularis.Mls.VaultClient.{VaultMlsClient, lift, restore}

module _ {Group Signer : Type 0} (storage : Storage Group Signer) (json : SnapshotJson)
    (uuid : UuidText) (faults : Faults) where
  module _ (codec : Base64) (submit_json : SubmitJson) where
    -- The submission with its payload and the client's snapshot, as they are stored.
    unfoldable pub prepare :
        ServerTtl
        → EncryptedEvent
        → MlsClient Group (Provider Signer)
        → Result MlsError (SubmitEvent × Bytes × Bytes)
    prepare ttl_seconds encrypted client = do
      submission ← to_submit_event codec ttl_seconds encrypted
      payload ← ok_or (submit_json.to_vec submission) payload_encoding
      snapshot ← encode_snapshot storage json client
      ok (submission, payload, snapshot)

    -- What a caller stores: the device id, the snapshot, the event id and the payload.
    abbrev pub Persist : Type 0 → Type 0
    Persist A = Text → Bytes → Text → Bytes → Connection → Result MlsError A × Connection

    abbrev pub on_persisted :
        {A : Type 0}
        → Bytes
        → SubmitEvent
        → MlsClient Group (Provider Signer)
        → Result MlsError A × Connection
        → Result MlsError (SubmitEvent × A) × VaultMlsClient Group Signer
    on_persisted previous submission client (ok persisted, c) =
        (ok (submission, persisted), record { vault = c; client = client })
    on_persisted previous submission client (err e, c) =
        restore storage json uuid faults previous e client c

    abbrev pub on_prepared :
        {A : Type 0}
        → Persist A
        → Bytes
        → Connection
        → MlsClient Group (Provider Signer)
        → Result MlsError (SubmitEvent × Bytes × Bytes)
        → Result MlsError (SubmitEvent × A) × VaultMlsClient Group Signer
    on_prepared persist previous c client (err e) =
        restore storage json uuid faults previous e client c
    on_prepared persist previous c client (ok (submission, payload, snapshot)) =
        on_persisted previous submission client (
          persist (uuid.to_string client.device_id) snapshot (uuid.to_string submission.event_id)
            payload c)

    abbrev pub on_encrypted :
        {A : Type 0}
        → ServerTtl
        → Persist A
        → Bytes
        → Connection
        → Result MlsError EncryptedEvent × MlsClient Group (Provider Signer)
        → Result MlsError (SubmitEvent × A) × VaultMlsClient Group Signer
    on_encrypted ttl_seconds persist previous c (err e, client) =
        restore storage json uuid faults previous e client c
    on_encrypted ttl_seconds persist previous c (ok encrypted, client) =
        on_prepared persist previous c client (prepare ttl_seconds encrypted client)

    abbrev pub on_previous :
        {A : Type 0}
        → ServerTtl
        → (MlsClient Group (Provider Signer)
            → Result MlsError EncryptedEvent × MlsClient Group (Provider Signer))
        → Persist A
        → VaultMlsClient Group Signer
        → Result MlsError Bytes
        → Result MlsError (SubmitEvent × A) × VaultMlsClient Group Signer
    on_previous ttl_seconds operation persist v (err e) = (err e, v)
    on_previous ttl_seconds operation persist v (ok previous) =
        on_encrypted ttl_seconds persist previous v.vault (operation v.client)

    unfoldable pub queue_outgoing :
        {A : Type 0}
        → ServerTtl
        → (MlsClient Group (Provider Signer)
            → Result MlsError EncryptedEvent × MlsClient Group (Provider Signer))
        → Persist A
        → VaultMlsClient Group Signer
        → Result MlsError (SubmitEvent × A) × VaultMlsClient Group Signer
    queue_outgoing ttl_seconds operation persist v =
        on_previous ttl_seconds operation persist v (encode_snapshot storage json v.client)

    -- `.map(|(submission, ())| submission)`
    abbrev pub submission_only :
        Result MlsError (SubmitEvent × Unit {0}) × VaultMlsClient Group Signer
        → Result MlsError SubmitEvent × VaultMlsClient Group Signer
    submission_only (result, v) = (map_ok (λ queued. queued.0) result, v)

    abbrev pub persist_outbox : Persist Unit
    persist_outbox device_id snapshot event_id payload c =
        lift (store_mls_snapshot_and_outbox faults device_id snapshot event_id payload c)

    abbrev pub persist_message : NewVaultMessage → Persist VaultMessage
    persist_message message device_id snapshot event_id payload c = lift (
        store_message_and_mls_snapshot_and_outbox faults message device_id snapshot event_id payload
          c)

    module _ (events : EventJson) (metadata_to_vec : AuthenticatedTransportMetadata → Option Bytes)
        (digest : Bytes → ℕ) (mls : OpenMls Group (Provider Signer)) where
      unfoldable pub queue_text :
          EventId
          → Uuid
          → ℤ
          → EventReferences
          → Text
          → ServerTtl
          → VaultMlsClient Group Signer
          → Result MlsError SubmitEvent × VaultMlsClient Group Signer
      queue_text event_id channel_id created_at_ms references body ttl_seconds v = submission_only (
          queue_outgoing ttl_seconds
            (encrypt_text events metadata_to_vec digest mls event_id channel_id created_at_ms
              references body)
            persist_outbox v)

      unfoldable pub queue_text_and_store_message :
          EventId
          → Uuid
          → EventReferences
          → NewVaultMessage
          → ServerTtl
          → VaultMlsClient Group Signer
          → Result MlsError (SubmitEvent × VaultMessage) × VaultMlsClient Group Signer
      queue_text_and_store_message event_id channel_id references message ttl_seconds =
          queue_outgoing ttl_seconds
            (encrypt_text events metadata_to_vec digest mls event_id channel_id
              message.created_at_ms references message.body)
            (persist_message message)

      unfoldable pub queue_event :
          PlaintextEvent
          → ServerTtl
          → VaultMlsClient Group Signer
          → Result MlsError SubmitEvent × VaultMlsClient Group Signer
      queue_event event ttl_seconds v = submission_only (
          queue_outgoing ttl_seconds (encrypt_event events metadata_to_vec digest mls event)
            persist_outbox v)

  module _ (submit_json : SubmitJson) where
    -- The body of the closure that `pending_submissions` maps over the rows.
    unfoldable pub read_submission : Uuid → VaultOutboxItem → Result MlsError SubmitEvent
    read_submission device_id item = do
      submission ← ok_or (submit_json.from_slice item.payload) invalid_outbox_entry
      canonical ← ok_or (submit_json.to_vec submission) invalid_outbox_entry
      fail_if
          (not (uuid.to_string submission.event_id == item.event_id)
            || not (submission.sender_device_id == device_id)
            || not (canonical == item.payload))
          invalid_outbox_entry
      ok submission

    -- `collect::<Result<Vec<_>>>`: the first error wins.
    unfoldable pub read_submissions :
        Uuid → List VaultOutboxItem → Result MlsError (List SubmitEvent)
    read_submissions device_id [] = ok []
    read_submissions device_id (item ∷ items) = do
      submission ← read_submission device_id item
      submissions ← read_submissions device_id items
      ok (submission ∷ submissions)

    unfoldable pub pending_submissions :
        VaultMlsClient Group Signer → Result MlsError (List SubmitEvent)
    pending_submissions v = do
      items ← map_err vault (list_mls_outbox faults (uuid.to_string v.client.device_id) v.vault)
      read_submissions v.client.device_id items

  unfoldable pub acknowledge_submission :
      EventId → VaultMlsClient Group Signer → Result MlsError Bool × VaultMlsClient Group Signer
  acknowledge_submission event_id v =
      let (result, c) = lift (
        acknowledge_mls_outbox faults (uuid.to_string v.client.device_id) (uuid.to_string event_id)
          v.vault) in
      (result, record v { vault = c })
