-- ===== src/Mls/VaultClient/QueueRollback.antt =====
-- Queueing that fails leaves the client and the vault as they were.
use singularis.Prelude.{ℕ, ◌≡◌, refl, Option, Result, ok, err, Bytes, Text, nat_eq}
use singularis.Protocol.Event.{SubmitEvent, SubmitJson}
use singularis.Protocol.Ttl.{ServerTtl}
use singularis.Protocol.Message.{Base64}
use singularis.Vault.Database.{Faults, Connection}
use singularis.Vault.Methods.{UuidText}
use singularis.Vault.Atomicity.{Unchanged, store_mls_snapshot_and_outbox-Unchanged}
use singularis.Mls.Error.{MlsError}
use singularis.Mls.Event.{PlaintextEvent, EventJson}
use singularis.Mls.Chain.{
  MlsClient, ChannelState, EncryptedEvent, OpenMls, AuthenticatedTransportMetadata, encrypt_event,
  check_outgoing, on_checked, on_message,
}
use singularis.Mls.Snapshot.{Provider, Storage, SnapshotJson, encode_snapshot}
use singularis.Mls.Snapshot.RoundTrip.{Restorable}
use singularis.Mls.VaultClient.{VaultMlsClient}
use singularis.Mls.VaultClient.Rollback.{
  OnFailure, SameClient-refl, restore-RolledBack, lift-Unchanged,
}
use singularis.Mls.VaultClient.Queue.{
  Persist, on_persisted, on_prepared, on_encrypted, on_previous, queue_outgoing, submission_only,
  queue_event,
}

module _ {Group Signer : Type 0} (storage : Storage Group Signer) (json : SnapshotJson)
    (uuid : UuidText) (faults : Faults) (codec : Base64) (submit_json : SubmitJson) where
  module _ {A : Type 0} (ttl_seconds : ServerTtl)
      (operation : MlsClient Group (Provider Signer)
        → Result MlsError EncryptedEvent × MlsClient Group (Provider Signer))
      (persist : Persist storage json uuid faults codec submit_json A)
      (v : VaultMlsClient Group Signer) (r : Restorable storage v.client)
      (keeps_device : (operation v.client).1.device_id ≡ v.client.device_id)
      (atomic : (device_id : Text) (snapshot : Bytes) (event_id : Text) (payload : Bytes)
        → Unchanged v.vault (persist device_id snapshot event_id payload v.vault)) where
    on_persisted-OnFailure :
        (previous : Bytes) (submission : SubmitEvent) (left : MlsClient Group (Provider Signer))
        (persisted : Result MlsError A × Connection)
        → encode_snapshot storage json v.client ≡ ok previous
        → left.device_id ≡ v.client.device_id
        → Unchanged v.vault persisted
        → OnFailure storage v (
            on_persisted storage json uuid faults codec submit_json previous submission left
              persisted)
    on_persisted-OnFailure previous submission left (ok a, c) encoded device same = tt
    on_persisted-OnFailure previous submission left (err e, c) encoded device same =
        restore-RolledBack storage json uuid faults (SubmitEvent × A) v previous e left c r encoded
          device same

    on_prepared-OnFailure :
        (previous : Bytes) (left : MlsClient Group (Provider Signer))
        (prepared : Result MlsError (SubmitEvent × Bytes × Bytes))
        → encode_snapshot storage json v.client ≡ ok previous
        → left.device_id ≡ v.client.device_id
        → OnFailure storage v (
            on_prepared storage json uuid faults codec submit_json persist previous v.vault left
              prepared)
    on_prepared-OnFailure previous left (err e) encoded device =
        restore-RolledBack storage json uuid faults (SubmitEvent × A) v previous e left v.vault r
          encoded device refl
    on_prepared-OnFailure previous left (ok (submission, payload, snapshot)) encoded device =
        on_persisted-OnFailure previous submission left _ encoded device (
          atomic (uuid.to_string left.device_id) snapshot (uuid.to_string submission.event_id)
            payload)

    on_encrypted-OnFailure :
        (previous : Bytes)
        (result : Result MlsError EncryptedEvent × MlsClient Group (Provider Signer))
        → encode_snapshot storage json v.client ≡ ok previous
        → result.1.device_id ≡ v.client.device_id
        → OnFailure storage v (
            on_encrypted storage json uuid faults codec submit_json ttl_seconds persist previous
              v.vault result)
    on_encrypted-OnFailure previous (err e, left) encoded device =
        restore-RolledBack storage json uuid faults (SubmitEvent × A) v previous e left v.vault r
          encoded device refl
    on_encrypted-OnFailure previous (ok encrypted, left) encoded device =
        on_prepared-OnFailure previous left _ encoded device

    -- Queueing that fails, in the encryption, the encoding or the vault, leaves the client with the
    -- contents that it had, and the vault as it was.
    pub queue_outgoing-OnFailure :
        OnFailure storage v (
          queue_outgoing storage json uuid faults codec submit_json ttl_seconds operation persist v)
    unfolding queue_outgoing
    queue_outgoing-OnFailure = on_encoded (encode_snapshot storage json v.client) refl
      where
        on_encoded :
            (p : Result MlsError Bytes)
            → encode_snapshot storage json v.client ≡ p
            → OnFailure storage v (
                on_previous storage json uuid faults codec submit_json ttl_seconds operation persist
                  v p)
        on_encoded (err e) encoded = (SameClient-refl storage v.client, refl)
        on_encoded (ok previous) encoded =
            on_encrypted-OnFailure previous (operation v.client) encoded keeps_device

  module _ (events : EventJson) (metadata_to_vec : AuthenticatedTransportMetadata → Option Bytes)
      (digest : Bytes → ℕ) (mls : OpenMls Group (Provider Signer)) where
    -- Encryption does not touch the device id.
    encrypt_event-device_id :
        (event : PlaintextEvent) (client : MlsClient Group (Provider Signer))
        → (encrypt_event events metadata_to_vec digest mls event client).1.device_id
          ≡ client.device_id
    unfolding encrypt_event
    encrypt_event-device_id event client =
        checked (check_outgoing events metadata_to_vec digest mls event client)
      where
        messaged :
            (encoded : Bytes) (state : ChannelState Group) (provider : Provider Signer)
            (wire : Result MlsError Bytes)
            → (on_message events metadata_to_vec digest mls event encoded state provider client
                wire).1.device_id
              ≡ client.device_id
        messaged encoded state provider (err e) = refl
        messaged encoded state provider (ok wire) = refl

        checked :
            (c : Result MlsError (ChannelState Group × Bytes × Bytes))
            → (on_checked events metadata_to_vec digest mls event client c).1.device_id
              ≡ client.device_id
        checked (err e) = refl
        checked (ok (state, encoded, metadata)) = messaged encoded _ _ _

    submission_only-OnFailure :
        (v : VaultMlsClient Group Signer)
        (q : Result MlsError (SubmitEvent × Unit {0}) × VaultMlsClient Group Signer)
        → OnFailure storage v q
        → OnFailure storage v (submission_only storage json uuid faults codec submit_json q)
    submission_only-OnFailure v (ok a, after) h = tt
    submission_only-OnFailure v (err e, after) h = h

    -- An event that cannot be queued leaves no trace: the client has the contents that it had, its
    -- chains and seen ids among them, and the vault is as it was.
    pub queue_event-OnFailure :
        (event : PlaintextEvent) (ttl_seconds : ServerTtl) (v : VaultMlsClient Group Signer)
        → Restorable storage v.client
        → OnFailure storage v (
            queue_event storage json uuid faults codec submit_json events metadata_to_vec digest mls
              event ttl_seconds v)
    unfolding queue_event
    queue_event-OnFailure event ttl_seconds v r = submission_only-OnFailure v _ (
        queue_outgoing-OnFailure ttl_seconds _ _ v r (encrypt_event-device_id event v.client)
          (λ device_id snapshot event_id payload. lift-Unchanged v.vault _ (
            store_mls_snapshot_and_outbox-Unchanged faults device_id snapshot event_id payload
              v.vault)))
