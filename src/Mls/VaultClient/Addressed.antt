-- ===== src/Mls/VaultClient/Addressed.antt =====
-- What a text that was queued with a message is sent as, and what the vault gains with it.
use singularis.Prelude.{
  ℕ, ◌≡◌, refl, sym, ap, ◌∙◌, ◌++◌, Option, none, some, List, [], ◌∷◌, Result, ok, err, Bytes, Text,
  nat_eq, arith, ok_value, ok_or, ok_or-ok, >>=-eq-ok, get, ℤ,
}
use singularis.Protocol.Event.{EventId, Uuid, SubmitEvent, SubmitJson}
use singularis.Protocol.Ttl.{ServerTtl}
use singularis.Protocol.Message.{Base64, from_bytes}
use singularis.Vault.Error.{VaultError}
use singularis.Vault.Input.{NewVaultMessage, VaultMessage, VaultOutboxItem}
use singularis.Vault.Database.{Faults, Connection, find_item, stored_form}
use singularis.Vault.Methods.{UuidText}
use singularis.Vault.Methods.Mail.{mail, store_message_and_mls_snapshot_and_outbox-mail}
use singularis.Vault.Methods.Outbox.{item_of, store_message_and_mls_snapshot_and_outbox}
use singularis.Mls.Error.{MlsError, payload_encoding, message_rejected, message_encoding}
use singularis.Mls.Event.{
  PlaintextEvent, EventReferences, EventJson, text_content, encode_provisional_json,
}
use singularis.Mls.Chain.{
  MlsClient, ChannelState, EncryptedEvent, OpenMls, AuthenticatedTransportMetadata, to_submit_event,
}
use singularis.Mls.Chain.Sent.{Sent, encrypt_event-Sent, check_outgoing-parts}
use singularis.Mls.Groups.{encrypt_text, on_joined, text_event, text_counter, text_previous_hash}
use singularis.Mls.Receive.EndToEnd.{to_submit_event-ok}
use singularis.Mls.Snapshot.{Provider, Storage, SnapshotJson, encode_snapshot}
use singularis.Mls.VaultClient.{VaultMlsClient, lift}
use singularis.Mls.VaultClient.Queue.{prepare, persist_message, queue_text_and_store_message}
use singularis.Mls.VaultClient.Queued.{queue_outgoing-Queued, prepare-ok}

module _ {Group Provider : Type 0} (events : EventJson)
    (metadata_to_vec : AuthenticatedTransportMetadata → Option Bytes) (digest : Bytes → ℕ)
    (mls : OpenMls Group Provider) where
  -- The event that an encrypted text was encrypted as.
  record Texted (event_id : EventId) (channel_id : Uuid) (created_at_ms : ℤ) (body : Text)
      (client client' : MlsClient Group Provider) (encrypted : EncryptedEvent) : Type 0 where
    event : PlaintextEvent
    same_event : event.event_id ≡ event_id
    same_channel : event.channel_id ≡ channel_id
    same_time : event.created_at_ms ≡ created_at_ms
    same_body : event.content ≡ text_content body
    sent : Sent events metadata_to_vec digest mls event client client' encrypted

  encrypt_text-Texted :
      (event_id : EventId) (channel_id : Uuid) (created_at_ms : ℤ) (references : EventReferences)
      (body : Text) (client client' : MlsClient Group Provider) (encrypted : EncryptedEvent)
      → encrypt_text events metadata_to_vec digest mls event_id channel_id created_at_ms references
          body client
        ≡ (ok encrypted, client')
      → Texted event_id channel_id created_at_ms body client client' encrypted
  unfolding encrypt_text
  encrypt_text-Texted event_id channel_id created_at_ms references body client client' encrypted =
      joined (get channel_id client.channels)
    where
      joined :
          (o : Option (ChannelState Group))
          → on_joined events metadata_to_vec digest mls event_id channel_id created_at_ms references
              body client o
            ≡ (ok encrypted, client')
          → Texted event_id channel_id created_at_ms body client client' encrypted
      joined none h = absurd (ground (arith, ap (λ q. q.0) h))
      joined (some state) h = record {
        event =
            text_event event_id state.community_id channel_id client.device_id
              (text_counter state.outgoing_chain) created_at_ms
              (text_previous_hash state.outgoing_chain) references body;
        same_event = refl;
        same_channel = refl;
        same_time = refl;
        same_body = refl;
        sent = encrypt_event-Sent events metadata_to_vec digest mls _ client client' encrypted h;
      }

  -- The wire form is OpenMLS's encryption of the event's encoding.
  pub record Carried (event : PlaintextEvent) (wire : Bytes) : Type 0 where
    pub plain : Bytes
    pub group : Group
    pub provider : Provider
    pub sealed : Bytes
    pub encoded : encode_provisional_json events event ≡ ok plain
    pub encrypts : (mls.create_message plain group provider).0 ≡ some sealed
    pub serializes : mls.to_bytes sealed ≡ some wire

  Sent-Carried :
      (event : PlaintextEvent) (client client' : MlsClient Group Provider)
      (encrypted : EncryptedEvent)
      → (s : Sent events metadata_to_vec digest mls event client client' encrypted)
      → (event.sender_device_id ≡ client'.device_id) × Carried event s.wire
  Sent-Carried event client client' encrypted s =
      let (_, device, _, _, encoded, _, _, _) =
        check_outgoing-parts events metadata_to_vec digest mls event client s.state s.encoded
          s.metadata s.checked in
      let (sealed, e, written) =
        >>=-eq-ok
          (ok_or
            (mls.create_message s.encoded (mls.set_aad s.metadata s.state.group) client.provider).0
            message_rejected)
          _ s.written in
      (
        device ∙ ap (λ c. c.device_id) s.stored,
        record {
          plain = s.encoded;
          group = mls.set_aad s.metadata s.state.group;
          provider = client.provider;
          sealed = sealed;
          encoded = encoded;
          encrypts = ok_or-ok message_rejected _ e;
          serializes = ok_or-ok message_encoding _ written;
        },
      )

module _ {Group Signer : Type 0} (storage : Storage Group Signer) (json : SnapshotJson)
    (uuid : UuidText) (faults : Faults) (codec : Base64) (submit_json : SubmitJson) where
  prepare-ids :
      (ttl_seconds : ServerTtl) (encrypted : EncryptedEvent)
      (client : MlsClient Group (Provider Signer)) (submission : SubmitEvent)
      (payload snapshot : Bytes)
      → prepare storage json uuid faults codec submit_json ttl_seconds encrypted client
        ≡ ok (submission, payload, snapshot)
      → (submission.event_id ≡ encrypted.event_id)
        × (submission.channel_id ≡ encrypted.channel_id)
        × (submission.sender_device_id ≡ encrypted.sender_device_id)
        × (submission.sender_counter ≡ encrypted.sender_counter)
        × (submission.community_id ≡ encrypted.community_id)
        × (submission.ttl_seconds ≡ ttl_seconds)
        × (from_bytes codec encrypted.mls_message ≡ ok submission.mls_message)
  unfolding prepare
  prepare-ids ttl_seconds encrypted client submission payload snapshot h =
      let (read, e₁, h₁) = >>=-eq-ok (to_submit_event codec ttl_seconds encrypted) _ h in
      let (p, e₂, h₂) = >>=-eq-ok (ok_or (submit_json.to_vec read) payload_encoding) _ h₁ in
      let (b, e₃, h₃) = >>=-eq-ok (encode_snapshot storage json client) _ h₂ in
      let same =
        ap (λ t. t.0)
          (ap (ok_value {E = MlsError} {A = SubmitEvent × Bytes × Bytes} (read, p, b)) h₃) in
      let (m, made_of, form) = to_submit_event-ok codec ttl_seconds encrypted read e₁ in
      let made = form ∙ same in
      (
        sym (ap (λ s. s.event_id) made),
        sym (ap (λ s. s.channel_id) made),
        sym (ap (λ s. s.sender_device_id) made),
        sym (ap (λ s. s.sender_counter) made),
        sym (ap (λ s. s.community_id) made),
        sym (ap (λ s. s.ttl_seconds) made),
        made_of ∙ ap (λ s. ok s.mls_message) made,
      )

  lift-value :
      (r : Result VaultError VaultMessage × Connection) (stored : VaultMessage) (c : Connection)
      → lift r ≡ (ok stored, c)
      → r ≡ (ok stored, c)
  lift-value (ok m, c') stored c h = ap (λ q. (ok (ok_value stored q.0), q.1)) h
  lift-value (err e, c') stored c h = absurd (ground (arith, ap (λ q. q.0) h))

  module _ (events : EventJson) (metadata_to_vec : AuthenticatedTransportMetadata → Option Bytes)
      (digest : Bytes → ℕ) (mls : OpenMls Group (Provider Signer)) where
    -- The submission carries the message: an event with its body and its time, encoded and encrypted,
    -- whose ids the submission repeats.
    pub record Carries (message : NewVaultMessage) (submission : SubmitEvent) : Type 0 where
      pub event : PlaintextEvent
      pub wire : Bytes
      pub same_body : event.content ≡ text_content message.body
      pub same_time : event.created_at_ms ≡ message.created_at_ms
      pub same_event : event.event_id ≡ submission.event_id
      pub same_community : event.community_id ≡ submission.community_id
      pub same_channel : event.channel_id ≡ submission.channel_id
      pub same_device : event.sender_device_id ≡ submission.sender_device_id
      pub same_counter : event.sender_counter ≡ submission.sender_counter
      pub carried : Carried events metadata_to_vec digest mls event wire
      pub written : from_bytes codec wire ≡ ok submission.mls_message

    -- A message and the submission that carries it are the last ones of their tables.
    pub record Mailed (messages : List VaultMessage) (outbox : List VaultOutboxItem)
        (event_id : EventId) (channel_id : Uuid) (ttl_seconds : ServerTtl)
        (message : NewVaultMessage) (stored : VaultMessage) (after : Connection) : Type 0 where
      pub submission : SubmitEvent
      pub payload : Bytes
      pub same_event : submission.event_id ≡ event_id
      pub same_channel : submission.channel_id ≡ channel_id
      pub same_ttl : submission.ttl_seconds ≡ ttl_seconds
      pub carries : Carries message submission
      pub encoded : submit_json.to_vec submission ≡ some payload
      pub same_message : stored ≡ stored_form message
      pub extended :
          mail after
          ≡ some (
            messages ++ stored_form message ∷ [],
            outbox
                ++ item_of
                    (uuid.to_string submission.sender_device_id)
                    (uuid.to_string event_id)
                    payload
                  ∷ [],
          )

  pub queue_text_and_store_message-Mailed :
      (events : EventJson) (metadata_to_vec : AuthenticatedTransportMetadata → Option Bytes)
      (digest : Bytes → ℕ) (mls : OpenMls Group (Provider Signer)) (event_id : EventId)
      (channel_id : Uuid) (references : EventReferences) (message : NewVaultMessage)
      (ttl_seconds : ServerTtl) (messages : List VaultMessage) (outbox : List VaultOutboxItem)
      (v v' : VaultMlsClient Group Signer) (submission : SubmitEvent) (stored : VaultMessage)
      → mail v.vault ≡ some (messages, outbox)
      → find_item (uuid.to_string event_id) outbox ≡ none
      → queue_text_and_store_message storage json uuid faults codec submit_json events
          metadata_to_vec digest mls event_id channel_id references message ttl_seconds v
        ≡ (ok (submission, stored), v')
      → Mailed events metadata_to_vec digest mls messages outbox event_id channel_id ttl_seconds
          message stored v'.vault
  unfolding queue_text_and_store_message
  queue_text_and_store_message-Mailed events metadata_to_vec digest mls event_id channel_id
        references message ttl_seconds messages outbox v v' submission stored before fresh h =
      let q =
        queue_outgoing-Queued storage json uuid faults codec submit_json ttl_seconds _
          (persist_message storage json uuid faults codec submit_json message) v v' submission
          stored h in
      let t =
        encrypt_text-Texted events metadata_to_vec digest mls event_id channel_id
          message.created_at_ms references message.body v.client v'.client q.encrypted q.operated in
      let (e_device, carried) =
        Sent-Carried events metadata_to_vec digest mls t.event v.client v'.client q.encrypted
          t.sent in
      let form = t.sent.form in
      let (s_event, s_channel, s_device, s_counter, s_community, s_ttl, s_message) =
        prepare-ids ttl_seconds q.encrypted v'.client submission q.payload q.snapshot q.prepared in
      let (encoded, _) =
        prepare-ok storage json uuid faults codec submit_json ttl_seconds q.encrypted v'.client
          submission q.payload q.snapshot q.prepared in
      let same_event : submission.event_id ≡ event_id =
        s_event ∙ sym (ap (λ e. e.event_id) form) ∙ t.same_event in
      let same_device : v'.client.device_id ≡ submission.sender_device_id =
        sym e_device ∙ ap (λ e. e.sender_device_id) form ∙ sym s_device in
      let call =
        store_message_and_mls_snapshot_and_outbox faults message
          (uuid.to_string v'.client.device_id) q.snapshot (uuid.to_string submission.event_id)
          q.payload in
      let persisted = lift-value (call v.vault) stored v'.vault q.persisted in
      let (same_message, extended) =
        store_message_and_mls_snapshot_and_outbox-mail faults message
          (uuid.to_string v'.client.device_id) q.snapshot (uuid.to_string submission.event_id)
          q.payload v.vault v'.vault stored messages outbox before (rw same_event fresh)
          persisted in
      let tables : Uuid → EventId → Option (List VaultMessage × List VaultOutboxItem) =
        λ device event. some (
          messages ++ stored_form message ∷ [],
          outbox ++ item_of (uuid.to_string device) (uuid.to_string event) q.payload ∷ [],
        ) in
      record {
        submission = submission;
        payload = q.payload;
        same_event = same_event;
        same_channel = s_channel ∙ sym (ap (λ e. e.channel_id) form) ∙ t.same_channel;
        carries = record {
          event = t.event;
          wire = t.sent.wire;
          same_body = t.same_body;
          same_time = t.same_time;
          same_event = ap (λ e. e.event_id) form ∙ sym s_event;
          same_community = ap (λ e. e.community_id) form ∙ sym s_community;
          same_channel = ap (λ e. e.channel_id) form ∙ sym s_channel;
          same_device = ap (λ e. e.sender_device_id) form ∙ sym s_device;
          same_counter = ap (λ e. e.sender_counter) form ∙ sym s_counter;
          carried = carried;
          written = ap (λ e. from_bytes codec e.mls_message) form ∙ s_message;
        };
        same_ttl = s_ttl;
        encoded = encoded;
        same_message = same_message;
        extended =
            extended
            ∙ ap (λ device. tables device submission.event_id) same_device
            ∙ ap (tables submission.sender_device_id) same_event;
      }
