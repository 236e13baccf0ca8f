-- ===== src/Desktop/Messaging.antt =====
-- apps/desktop/src-tauri/src/messaging.rs: the command behind the composer, which queues a message for
-- the relay and keeps it in the vault.

pub mod Mail
use Prim.Native.String.{String}
use singularis.Prelude.{
  ℕ, Bool, true, false, Option, none, some, Result, ok, err, Text, Bytes, text, HashMap, ◌==◌,
  nat_eq, list_eq, if◌then◌else◌,
}
use singularis.Protocol.Event.{EventId, Uuid, SubmitEvent, SubmitJson}
use singularis.Protocol.Ttl.{max_ttl}
use singularis.Protocol.Message.{Base64}
use singularis.Vault.Error.{VaultError}
use singularis.Vault.Error as VaultErrors
use singularis.Vault.Input.{NewVaultMessage, VaultMessage}
use singularis.Vault.Database.{Faults, Connection}
use singularis.Vault.Methods.{UuidText, local_device_id}
use singularis.Mls.Error.{MlsError}
use singularis.Mls.Error as MlsErrors
use singularis.Mls.Event.{EventReferences, EventJson}
use singularis.Mls.Chain.{OpenMls, AuthenticatedTransportMetadata}
use singularis.Mls.Groups.{Groups}
use singularis.Mls.Snapshot.{Provider, Storage, SnapshotJson}
use singularis.Mls.VaultClient.{VaultMlsClient, load, create}
use singularis.Mls.VaultClient.Operations.{has_channel, create_channel}
use singularis.Mls.VaultClient.Queue.{queue_text_and_store_message}

abbrev pub nexus_lab_id : Uuid
nexus_lab_id = 2121485607357534698745210474149708032

abbrev pub briefing_id : Uuid
briefing_id = 2121485607357534698745210474149708033

abbrev pub development_id : Uuid
development_id = 2121485607357534698745210474149708034

abbrev pub security_id : Uuid
security_id = 2121485607357534698745210474149708035

abbrev pub offtopic_id : Uuid
offtopic_id = 2121485607357534698745210474149708036

pub data MessagingError : Type 0 where
  unknown_channel : MessagingError
  vault : VaultError → MessagingError
  mls : MlsError → MessagingError

unfoldable pub code : MessagingError → String
code unknown_channel = "unknown_channel"
code (vault error) = VaultErrors.code error
code (mls (MlsErrors.vault error)) = VaultErrors.code error
code (mls error) = "mls_failed"

unfoldable pub public_message : MessagingError → String
public_message unknown_channel = "Dieser Kanal ist noch nicht fuer MLS eingerichtet."
public_message (vault error) = VaultErrors.public_message error
public_message (mls (MlsErrors.vault error)) = VaultErrors.public_message error
public_message (mls error) = "Die Nachricht konnte nicht verschluesselt werden."

unfoldable pub protocol_channel_id : Text → Result MessagingError Uuid
protocol_channel_id local_channel_id =
    if local_channel_id == text "briefing"
    then ok briefing_id
    else if local_channel_id == text "entwicklung"
    then ok development_id
    else if local_channel_id == text "security"
    then ok security_id
    else if local_channel_id == text "offtopic"
    then ok offtopic_id
    else err unknown_channel

-- `EventReferences::default`
abbrev pub no_references : EventReferences
no_references = record { reply_to = none; replaces = none; deletes = none }

-- The calls of the vault that `queue_message` makes, each with its own failing statements.
pub data VaultCall : Type 0 where
  identifies_device loads_client creates_client creates_channel queues_text : VaultCall

module _ {Group Signer : Type 0} (storage : Storage Group Signer) (json : SnapshotJson)
    (uuid : UuidText) (faults : VaultCall → Faults) (codec : Base64) (submit_json : SubmitJson)
    (events : EventJson) (metadata_to_vec : AuthenticatedTransportMetadata → Option Bytes)
    (digest : Bytes → ℕ) (openmls : OpenMls Group (Provider Signer))
    (groups : Groups Group (Provider Signer)) where
  -- A step of `queue_message` takes the result of the call before it, and the vault as that left it.
  abbrev pub on_queued :
      Result MlsError (SubmitEvent × VaultMessage) × VaultMlsClient Group Signer
      → Result MessagingError VaultMessage × Connection
  on_queued (ok (submission, stored), client) = (ok stored, client.vault)
  on_queued (err e, client) = (err (mls e), client.vault)

  module _ (event_id : EventId) (message : NewVaultMessage) where
    abbrev pub queue :
        Uuid → VaultMlsClient Group Signer → Result MessagingError VaultMessage × Connection
    queue channel_id client = on_queued (
        queue_text_and_store_message storage json uuid (faults queues_text) codec submit_json events
          metadata_to_vec digest openmls event_id channel_id no_references message max_ttl client)

    abbrev pub on_channel :
        Uuid
        → Result MlsError Unit × VaultMlsClient Group Signer
        → Result MessagingError VaultMessage × Connection
    on_channel channel_id (ok created, client) = queue channel_id client
    on_channel channel_id (err e, client) = (err (mls e), client.vault)

    abbrev pub on_client :
        Uuid → VaultMlsClient Group Signer → Bool → Result MessagingError VaultMessage × Connection
    on_client channel_id client true = queue channel_id client
    on_client channel_id client false = on_channel channel_id (
        create_channel storage json uuid (faults creates_channel) groups nexus_lab_id channel_id
          client)

    abbrev pub with_client :
        Uuid → VaultMlsClient Group Signer → Result MessagingError VaultMessage × Connection
    with_client channel_id client =
        on_client channel_id client
          (has_channel storage json uuid (faults creates_channel) channel_id client)

    abbrev pub on_created :
        Uuid
        → Result MlsError (VaultMlsClient Group Signer) × Connection
        → Result MessagingError VaultMessage × Connection
    on_created channel_id (ok client, c) = with_client channel_id client
    on_created channel_id (err e, c) = (err (mls e), c)

    -- What the key generation of a new client draws, and the storage of its key.
    module _ (drawn : Option Signer) (store : Signer → Option (HashMap Bytes Bytes)) where
      abbrev pub on_loaded :
          Uuid
          → Uuid
          → Connection
          → Result MlsError (Option (VaultMlsClient Group Signer))
          → Result MessagingError VaultMessage × Connection
      on_loaded channel_id device_id c (ok (some client)) = with_client channel_id client
      on_loaded channel_id device_id c (ok none) =
          on_created channel_id
            (create storage json uuid (faults creates_client) drawn store device_id c)
      on_loaded channel_id device_id c (err e) = (err (mls e), c)

      abbrev pub on_device :
          Uuid
          → Result VaultError Uuid × Connection
          → Result MessagingError VaultMessage × Connection
      on_device channel_id (ok device_id, c) =
          on_loaded channel_id device_id c
            (load storage json uuid (faults loads_client) device_id c)
      on_device channel_id (err e, c) = (err (vault e), c)

      abbrev pub on_known :
          ℕ
          → Connection
          → Result MessagingError Uuid
          → Result MessagingError VaultMessage × Connection
      on_known new_v4 c (ok channel_id) =
          on_device channel_id (local_device_id uuid (faults identifies_device) new_v4 c)
      on_known new_v4 c (err e) = (err e, c)

      -- The drawn ids are arguments.
      unfoldable pub queue_message :
          ℕ → Connection → Result MessagingError VaultMessage × Connection
      queue_message new_v4 c = on_known new_v4 c (protocol_channel_id message.channel_id)
