-- ===== src/Mls/VaultClient/Operations.antt =====
-- crates/singularis-mls/src/client.rs: the operations of `VaultMlsClient` that are a transaction round
-- one of the client's.
use singularis.Prelude.{Result, Bytes, Bool, ℕ}
use singularis.Protocol.Event.{Uuid, DeliveredEvent}
use singularis.Protocol.Message.{Base64}
use singularis.Vault.Database.{Faults}
use singularis.Vault.Methods.{UuidText}
use singularis.Mls.Error.{MlsError}
use singularis.Mls.Event.{PlaintextEvent, EventJson}
use singularis.Mls.Groups.{Groups, MemberAddition}
use singularis.Mls.Groups
use singularis.Mls.Receive.{Receiver}
use singularis.Mls.Receive
use singularis.Mls.Snapshot.{Provider, Storage, SnapshotJson}
use singularis.Mls.VaultClient.{VaultMlsClient, transact}

module _ {Group Signer : Type 0} (storage : Storage Group Signer) (json : SnapshotJson)
    (uuid : UuidText) (faults : Faults) where
  unfoldable pub has_channel : Uuid → VaultMlsClient Group Signer → Bool
  has_channel channel_id v = Groups.has_channel channel_id v.client

  module _ (mls : Groups Group (Provider Signer)) where
    unfoldable pub publish_key_package :
        VaultMlsClient Group Signer → Result MlsError Bytes × VaultMlsClient Group Signer
    publish_key_package = transact storage json uuid faults (Groups.publish_key_package mls)

    unfoldable pub create_channel :
        Uuid
        → Uuid
        → VaultMlsClient Group Signer
        → Result MlsError Unit × VaultMlsClient Group Signer
    create_channel community_id channel_id =
        transact storage json uuid faults (Groups.create_channel mls community_id channel_id)

    unfoldable pub add_member :
        Uuid
        → Bytes
        → VaultMlsClient Group Signer
        → Result MlsError MemberAddition × VaultMlsClient Group Signer
    add_member channel_id encoded_key_package =
        transact storage json uuid faults (Groups.add_member mls channel_id encoded_key_package)

    unfoldable pub join_channel :
        Uuid
        → Uuid
        → Bytes
        → VaultMlsClient Group Signer
        → Result MlsError Unit × VaultMlsClient Group Signer
    join_channel community_id channel_id encoded_welcome =
        transact storage json uuid faults
          (Groups.join_channel mls community_id channel_id encoded_welcome)

  module _ (events : EventJson) (digest : Bytes → ℕ) (mls : Receiver Group (Provider Signer)) where
    unfoldable pub decrypt_event :
        Uuid
        → Bytes
        → VaultMlsClient Group Signer
        → Result MlsError PlaintextEvent × VaultMlsClient Group Signer
    decrypt_event channel_id encoded_message =
        transact storage json uuid faults
          (Receive.decrypt_event events digest mls channel_id encoded_message)

    unfoldable pub decrypt_delivered_event :
        Base64
        → DeliveredEvent
        → VaultMlsClient Group Signer
        → Result MlsError PlaintextEvent × VaultMlsClient Group Signer
    decrypt_delivered_event codec delivered =
        transact storage json uuid faults
          (Receive.decrypt_delivered_event events digest mls codec delivered)
