-- ===== src/Mls/VaultClient/ReceiveRollback.antt =====
-- A delivered event that is refused leaves the client and the vault as they were.
use singularis.Prelude.{ℕ, ◌≡◌, refl, Option, some, Result, ok, err, Bytes, map_err}
use singularis.Protocol.Event.{Uuid, DeliveredEvent}
use singularis.Protocol.Message.{Base64, decode}
use singularis.Vault.Database.{Faults}
use singularis.Vault.Methods.{UuidText}
use singularis.Mls.Error.{MlsError, message_rejected}
use singularis.Mls.Event.{EventJson}
use singularis.Mls.Chain.{MlsClient, ChannelState}
use singularis.Mls.Receive.{
  Receiver, on_incoming, on_decoded, decrypt_event_with_delivery, decrypt_delivered_event,
}
use singularis.Mls.Snapshot.{Provider, Storage, SnapshotJson}
use singularis.Mls.Snapshot.RoundTrip.{Restorable}
use singularis.Mls.VaultClient.{VaultMlsClient}
use singularis.Mls.VaultClient.Rollback.{OnFailure, transact-OnFailure}
use singularis.Mls.VaultClient.Operations

module _ {Group Provider : Type 0} (events : EventJson) (digest : Bytes → ℕ)
    (mls : Receiver Group Provider) where
  on_incoming-device_id :
      (channel_id : Uuid) (delivered : Option DeliveredEvent) (client : MlsClient Group Provider)
      (r : Result MlsError (ChannelState Group × mls.ProtocolMessage))
      → (on_incoming events digest mls channel_id delivered client r).1.device_id ≡ client.device_id
  on_incoming-device_id channel_id delivered client (err e) = refl
  on_incoming-device_id channel_id delivered client (ok (state, message)) = refl

  decrypt_delivered_event-device_id :
      (codec : Base64) (delivered : DeliveredEvent) (client : MlsClient Group Provider)
      → (decrypt_delivered_event events digest mls codec delivered client).1.device_id
        ≡ client.device_id
  unfolding decrypt_delivered_event decrypt_event_with_delivery
  decrypt_delivered_event-device_id codec delivered client =
      decoded (map_err (λ e. message_rejected) (decode codec delivered.mls_message))
    where
      decoded :
          (r : Result MlsError Bytes)
          → (on_decoded events digest mls codec delivered client r).1.device_id ≡ client.device_id
      decoded (err e) = refl
      decoded (ok encoded_message) =
          on_incoming-device_id delivered.receipt.channel_id (some delivered) client _

-- A delivery that the vault's client refuses, be it altered, replayed, out of order or for another
-- group, leaves the client with the contents that it had, the group's secrets among them, and the vault
-- as it was.
pub decrypt_delivered_event-OnFailure :
    {Group Signer : Type 0} (storage : Storage Group Signer) (json : SnapshotJson) (uuid : UuidText)
    (faults : Faults) (events : EventJson) (digest : Bytes → ℕ)
    (mls : Receiver Group (Provider Signer)) (codec : Base64) (delivered : DeliveredEvent)
    (v : VaultMlsClient Group Signer)
    → Restorable storage v.client
    → OnFailure storage v (
        Operations.decrypt_delivered_event storage json uuid faults events digest mls codec
          delivered v)
unfolding Operations.decrypt_delivered_event
decrypt_delivered_event-OnFailure storage json uuid faults events digest mls codec delivered v r =
    transact-OnFailure storage json uuid faults
      (decrypt_delivered_event events digest mls codec delivered) v r
      (decrypt_delivered_event-device_id events digest mls codec delivered v.client)
