-- ===== src/Desktop/Messaging/Mail.antt =====
-- What queueing a message does to the messages and the outbox of the vault.
use singularis.Prelude.{
  ℕ, ◌≡◌, refl, sym, ap, ◌∙◌, Bool, true, false, Option, none, some, List, Result, ok, err, Bytes,
  HashMap, nat_eq,
}
use singularis.Protocol.Event.{EventId, Uuid, SubmitEvent, SubmitJson}
use singularis.Protocol.Ttl.{max_ttl}
use singularis.Protocol.Message.{Base64}
use singularis.Vault.Error.{VaultError}
use singularis.Vault.Input.{NewVaultMessage, VaultMessage, VaultOutboxItem}
use singularis.Vault.Database.{Faults, Connection, find_item}
use singularis.Vault.Methods.{UuidText}
use singularis.Vault.Methods.Mail.{
  mail, local_device_id-mail, store_message_and_mls_snapshot_and_outbox-Unchanged,
}
use singularis.Mls.Error.{MlsError}
use singularis.Mls.Event.{EventJson}
use singularis.Mls.Chain.{OpenMls, AuthenticatedTransportMetadata}
use singularis.Mls.Groups.{Groups, encrypt_text}
use singularis.Mls.Groups
use singularis.Mls.Snapshot.{Provider, Storage, SnapshotJson}
use singularis.Mls.VaultClient.{VaultMlsClient, load, create}
use singularis.Mls.VaultClient.Mail.{
  transact-mail, load-vault, create-mail, create-vault, FailsOver, queue_outgoing-vault,
}
use singularis.Mls.VaultClient.Rollback.{lift-Unchanged}
use singularis.Mls.VaultClient.Addressed.{Mailed, queue_text_and_store_message-Mailed}
use singularis.Mls.VaultClient.Operations.{has_channel, create_channel}
use singularis.Mls.VaultClient.Queue.{persist_message, queue_text_and_store_message}
use singularis.Desktop.Messaging.{
  VaultCall, identifies_device, loads_client, creates_client, creates_channel, queues_text,
  MessagingError, mls, vault, nexus_lab_id, protocol_channel_id, no_references, on_queued, queue,
  on_channel, on_client, with_client, on_created, on_loaded, on_device, on_known, queue_message,
}

module _ {Group Signer : Type 0} (storage : Storage Group Signer) (json : SnapshotJson)
    (uuid : UuidText) (faults : VaultCall → Faults) (codec : Base64) (submit_json : SubmitJson)
    (events : EventJson) (metadata_to_vec : AuthenticatedTransportMetadata → Option Bytes)
    (digest : Bytes → ℕ) (openmls : OpenMls Group (Provider Signer))
    (groups : Groups Group (Provider Signer)) (event_id : EventId) (message : NewVaultMessage) where
  -- A refused message leaves the messages and the outbox as they are; a queued one is the last message,
  -- and the last row of the outbox has the submission that carries it to its channel.
  pub data Outcome (messages : List VaultMessage) (outbox : List VaultOutboxItem)
      : Result MessagingError VaultMessage × Connection → Type 0 where
    refused :
        (e : MessagingError) (c : Connection)
        → mail c ≡ some (messages, outbox)
        → Outcome messages outbox (err e, c)
    mailed :
        (channel_id : Uuid) (stored : VaultMessage) (c : Connection)
        → protocol_channel_id message.channel_id ≡ ok channel_id
        → Mailed storage json uuid
            (faults queues_text)
            codec
            submit_json
            events
            metadata_to_vec
            digest
            openmls
            messages
            outbox
            event_id
            channel_id
            max_ttl
            message
            stored
            c
        → Outcome messages outbox (ok stored, c)

  module _ (messages : List VaultMessage) (outbox : List VaultOutboxItem)
      (fresh : find_item (uuid.to_string event_id) outbox ≡ none) (channel_id : Uuid)
      (known : protocol_channel_id message.channel_id ≡ ok channel_id) where
    queue-Outcome :
        (v : VaultMlsClient Group Signer)
        → mail v.vault ≡ some (messages, outbox)
        → Outcome messages outbox (
            queue storage json uuid faults codec submit_json events metadata_to_vec digest openmls
              groups event_id message channel_id v)
    unfolding queue_text_and_store_message
    queue-Outcome v before = queued _ refl (
        queue_outgoing-vault storage json uuid (faults queues_text) codec submit_json max_ttl _
          (persist_message storage json uuid (faults queues_text) codec submit_json message) v
          (λ device_id snapshot id payload. lift-Unchanged v.vault _ (
            store_message_and_mls_snapshot_and_outbox-Unchanged (faults queues_text) message
              device_id snapshot id payload v.vault)))
      where
        queued :
            (r : Result MlsError (SubmitEvent × VaultMessage) × VaultMlsClient Group Signer)
            → queue_text_and_store_message storage json uuid
                (faults queues_text)
                codec
                submit_json
                events
                metadata_to_vec
                digest
                openmls
                event_id
                channel_id
                no_references
                message
                max_ttl
                v
              ≡ r
            → FailsOver v.vault r
            → Outcome messages outbox (
                on_queued storage json uuid faults codec submit_json events metadata_to_vec digest
                  openmls groups r)
        queued (ok (submission, stored), v') h same = mailed channel_id stored v'.vault known (
            queue_text_and_store_message-Mailed storage json uuid (faults queues_text) codec
              submit_json events metadata_to_vec digest openmls event_id channel_id no_references
              message max_ttl messages outbox v v' submission stored before fresh h)
        queued (err e, v') h same = refused (mls e) v'.vault (ap mail same ∙ before)

    with_client-Outcome :
        (v : VaultMlsClient Group Signer)
        → mail v.vault ≡ some (messages, outbox)
        → Outcome messages outbox (
            with_client storage json uuid faults codec submit_json events metadata_to_vec digest
              openmls groups event_id message channel_id v)
    unfolding create_channel
    with_client-Outcome v before =
        client (has_channel storage json uuid (faults creates_channel) channel_id v)
      where
        channel :
            (r : Result MlsError Unit × VaultMlsClient Group Signer)
            → mail r.1.vault ≡ mail v.vault
            → Outcome messages outbox (
                on_channel storage json uuid faults codec submit_json events metadata_to_vec digest
                  openmls groups event_id message channel_id r)
        channel (ok u, v') same = queue-Outcome v' (same ∙ before)
        channel (err e, v') same = refused (mls e) v'.vault (same ∙ before)

        client :
            (b : Bool)
            → Outcome messages outbox (
                on_client storage json uuid faults codec submit_json events metadata_to_vec digest
                  openmls groups event_id message channel_id v b)
        client true = queue-Outcome v before
        client false = channel _ (
            transact-mail storage json uuid (faults creates_channel)
              (Groups.create_channel groups nexus_lab_id channel_id) v)

    module _ (drawn : Option Signer) (store : Signer → Option (HashMap Bytes Bytes)) where
      on_device-Outcome :
          (r : Result VaultError Uuid × Connection)
          → mail r.1 ≡ some (messages, outbox)
          → Outcome messages outbox (
              on_device storage json uuid faults codec submit_json events metadata_to_vec digest
                openmls groups event_id message drawn store channel_id r)
      on_device-Outcome (err e, c) before = refused (vault e) c before
      on_device-Outcome (ok device_id, c) before =
          loaded (load storage json uuid (faults loads_client) device_id c) refl
        where
          created :
              (r : Result MlsError (VaultMlsClient Group Signer) × Connection)
              → create storage json uuid (faults creates_client) drawn store device_id c ≡ r
              → Outcome messages outbox (
                  on_created storage json uuid faults codec submit_json events metadata_to_vec
                    digest openmls groups event_id message channel_id r)
          created (ok v, c') h = with_client-Outcome v (
              ap mail (
                create-vault storage json uuid (faults creates_client) drawn store device_id c c' v
                  h)
              ∙ ap mail (sym (ap (λ q. q.1) h))
              ∙ create-mail storage json uuid (faults creates_client) drawn store device_id c
              ∙ before)
          created (err e, c') h = refused (mls e) c' (
              ap mail (sym (ap (λ q. q.1) h))
              ∙ create-mail storage json uuid (faults creates_client) drawn store device_id c
              ∙ before)

          loaded :
              (r : Result MlsError (Option (VaultMlsClient Group Signer)))
              → load storage json uuid (faults loads_client) device_id c ≡ r
              → Outcome messages outbox (
                  on_loaded storage json uuid faults codec submit_json events metadata_to_vec digest
                    openmls groups event_id message drawn store channel_id device_id c r)
          loaded (ok (some v)) h = with_client-Outcome v (
              ap mail (load-vault storage json uuid (faults loads_client) device_id c v h) ∙ before)
          loaded (ok none) h = created _ refl
          loaded (err e) h = refused (mls e) c before

  -- Queueing a message on an open vault, where the drawn event id has no row in the outbox: if it is
  -- refused, in whichever step, the messages and the outbox are as before; if it succeeds, its channel
  -- is known, the message has become the last one as it was given, and the outbox has one more row,
  -- with the encoding of a submission that has the drawn id, the channel's id and the longest time to
  -- live, and whose opaque message is OpenMLS's encryption of an event with the message's body and
  -- time.
  pub queue_message-Outcome :
      (drawn : Option Signer) (store : Signer → Option (HashMap Bytes Bytes)) (new_v4 : ℕ)
      (c : Connection) (messages : List VaultMessage) (outbox : List VaultOutboxItem)
      → mail c ≡ some (messages, outbox)
      → find_item (uuid.to_string event_id) outbox ≡ none
      → Outcome messages outbox (
          queue_message storage json uuid faults codec submit_json events metadata_to_vec digest
            openmls groups event_id message drawn store new_v4 c)
  unfolding queue_message
  queue_message-Outcome drawn store new_v4 c messages outbox before fresh =
      on_known-Outcome (protocol_channel_id message.channel_id) refl
    where
      on_known-Outcome :
          (r : Result MessagingError Uuid)
          → protocol_channel_id message.channel_id ≡ r
          → Outcome messages outbox (
              on_known storage json uuid faults codec submit_json events metadata_to_vec digest
                openmls groups event_id message drawn store new_v4 c r)
      on_known-Outcome (err e) known = refused e c before
      on_known-Outcome (ok channel_id) known =
          on_device-Outcome messages outbox fresh channel_id known drawn store _
            (local_device_id-mail uuid (faults identifies_device) new_v4 c ∙ before)
