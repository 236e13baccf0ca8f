-- ===== src/Mls/Receive/EndToEnd.antt =====
-- From a sender's client through the relay's record to a receiver's client.
use singularis.Prelude.{
  ℕ, ◌≡◌, refl, sym, ap, subst, ◌∙◌, true, false, ◌||◌, Option, some, ok, ltb, length, is_empty,
  All, Bytes, nat_eq, get, get-put_self, arith, Result-cases, inl, inr, ok_value,
}
use singularis.Protocol.Event.{Uuid, OffsetDateTime, SubmitEvent, DeliveredEvent}
use singularis.Protocol.Message.{
  Base64, OpaqueMlsMessage, IsByte, from_bytes, decode-from_bytes, max_mls_message_bytes,
}
use singularis.Protocol.Ttl.{ServerTtl}
use singularis.Server.Store.{delivered, receipt_of}
use singularis.Mls.Event.{
  PlaintextEvent, EventJson, validate, decode_provisional_json, decode-encode_provisional_json,
}
use singularis.Mls.Chain.{
  ChannelState, MlsClient, OpenMls, EncryptedEvent, encrypted_form, serialized, encrypt_event,
  to_submit_event, with_channel, AuthenticatedTransportMetadata, from_event, validate_event,
  validate_delivery, record_incoming,
}
use singularis.Mls.Chain.Sent.{encrypt_event-Sent, check_outgoing-parts}
use singularis.Mls.Chain.Lockstep.{unwrap_or, InStep, Sent-InStep}
use singularis.Mls.Receive.{
  Processed, Receiver, credential_device_id, check_incoming, open_processed,
  decrypt_event_with_delivery, decrypt_delivered_event,
}

abbrev pub submission : ServerTtl → EncryptedEvent → OpaqueMlsMessage → SubmitEvent
submission ttl_seconds encrypted mls_message = record {
  event_id = encrypted.event_id;
  community_id = encrypted.community_id;
  channel_id = encrypted.channel_id;
  sender_device_id = encrypted.sender_device_id;
  sender_counter = encrypted.sender_counter;
  mls_message = mls_message;
  ttl_seconds = ttl_seconds;
}

pub to_submit_event-ok :
    (codec : Base64) (ttl_seconds : ServerTtl) (encrypted : EncryptedEvent) (submit : SubmitEvent)
    → to_submit_event codec ttl_seconds encrypted ≡ ok submit
    → (m : OpaqueMlsMessage) × (from_bytes codec encrypted.mls_message ≡ ok m)
      × (submission ttl_seconds encrypted m ≡ submit)
unfolding to_submit_event
to_submit_event-ok codec ttl_seconds encrypted submit h =
    elim (Result-cases (from_bytes codec encrypted.mls_message)) [
      | inr (e, k) ↦ absurd (ground arith)
      | inl (m, k) ↦
          let same : to_submit_event codec ttl_seconds encrypted
              ≡ ok (submission ttl_seconds encrypted m) =
            rw k refl in
          (m, k, ap (ok_value submit) (sym same ∙ h))
    ]

-- The event that the relay lists for a submission that it has accepted.
abbrev pub relayed : SubmitEvent → ServerTtl → OffsetDateTime → ℕ → DeliveredEvent
relayed submit instance_max_ttl accepted_at sequence =
    delivered (record {
      request = submit;
      receipt = receipt_of submit instance_max_ttl accepted_at sequence;
    })

from_event-validate_delivery :
    (event : PlaintextEvent) (wire : Bytes) (m : OpaqueMlsMessage) (ttl max : ServerTtl)
    (at : OffsetDateTime) (sequence : ℕ)
    → validate_delivery
        (from_event event)
        (relayed (submission ttl (encrypted_form event wire) m) max at sequence)
      ≡ ok tt
unfolding validate_delivery
from_event-validate_delivery event wire m ttl max at sequence = ground arith

from_event-validate_event :
    (event : PlaintextEvent)
    → validate event ≡ ok tt
    → validate_event
        (from_event event)
        event
        event.sender_device_id
        event.community_id
        event.channel_id
      ≡ ok tt
unfolding validate_event validate
from_event-validate_event event h = ground arith

from_bytes-ok :
    (codec : Base64) (b : Bytes) (m : OpaqueMlsMessage)
    → from_bytes codec b ≡ ok m
    → (is_empty b || ltb max_mls_message_bytes (length b)) ≡ false
unfolding from_bytes
from_bytes-ok codec b m h = ground arith

module _ {Group Provider : Type 0} (json : EventJson)
    (metadata_to_vec : AuthenticatedTransportMetadata → Option Bytes) (digest : Bytes → ℕ)
    (codec : Base64) (mls : OpenMls Group Provider) (receiver_mls : Receiver Group Provider) where
  -- OpenMLS carries a message to a member of the group: it is read as a private message with the
  -- sender's additional data, and processing it yields the payload and the sender's credential.
  pub record Carries (sender_device_id channel_id : Uuid) (aad payload wire : Bytes) (group : Group)
      (provider : Provider) : Type 0 where
    pub bytes : All IsByte wire
    pub message : receiver_mls.MlsMessage
    pub protocol_message : receiver_mls.ProtocolMessage
    pub processed : Processed
    pub read : receiver_mls.tls_deserialize_exact wire ≡ some message
    pub protocol : receiver_mls.try_into_protocol_message message ≡ some protocol_message
    pub private : receiver_mls.private_aad protocol_message ≡ some aad
    pub group_id : receiver_mls.has_group_id protocol_message channel_id ≡ true
    pub accepted : (receiver_mls.process_message protocol_message group provider).0 ≡ some processed
    pub from_member : processed.from_member ≡ true
    pub basic : processed.credential.is_basic ≡ true
    pub device :
        receiver_mls.uuid_from_slice processed.credential.serialized_content ≡ some sender_device_id
    pub same_aad : processed.aad ≡ aad
    pub same_payload : processed.application_message ≡ some payload

  open_processed-Carries :
      (event : PlaintextEvent) (delivered : DeliveredEvent) (aad payload wire : Bytes)
      (group : Group) (provider : Provider)
      → (c : Carries event.sender_device_id event.channel_id aad payload wire group provider)
      → receiver_mls.metadata_from_slice aad ≡ some (from_event event)
      → decode_provisional_json json payload ≡ ok event
      → validate event ≡ ok tt
      → validate_delivery (from_event event) delivered ≡ ok tt
      → open_processed json digest receiver_mls event.channel_id event.community_id
          (some delivered)
          c.processed
        ≡ ok event
  unfolding open_processed credential_device_id
  open_processed-Carries event delivered aad payload wire group provider c metadata decoded valid
        named =
      rw
        (
          c.from_member,
          c.basic,
          c.device,
          c.same_aad,
          metadata,
          c.same_payload,
          decoded,
          from_event-validate_event event valid,
          named,
        )
        refl

  check_incoming-Carries :
      (event : PlaintextEvent) (delivered : DeliveredEvent) (aad payload wire : Bytes)
      (peer : MlsClient Group Provider) (receiver : ChannelState Group)
      → (c : Carries event.sender_device_id event.channel_id aad payload wire receiver.group
          peer.provider)
      → (is_empty wire || ltb max_mls_message_bytes (length wire)) ≡ false
      → receiver_mls.metadata_from_slice aad ≡ some (from_event event)
      → validate_delivery (from_event event) delivered ≡ ok tt
      → get event.channel_id peer.channels ≡ some receiver
      → check_incoming json digest receiver_mls event.channel_id wire (some delivered) peer
        ≡ ok (receiver, c.protocol_message)
  unfolding check_incoming
  check_incoming-Carries event delivered aad payload wire peer receiver c size metadata named
        joined =
      rw (size, c.read, c.protocol, c.private, metadata, named, joined, c.group_id) refl

  -- What an encrypted event becomes at a member's client that is in step with the sender's: the relay's
  -- record of the submission decrypts to the event that was encrypted, and the two stay in step.
  pub decrypt-encrypt_event :
      (metadata_read : (m : AuthenticatedTransportMetadata) (b : Bytes)
        → metadata_to_vec m ≡ some b
        → receiver_mls.metadata_from_slice b ≡ some m)
      (event : PlaintextEvent) (client client' : MlsClient Group Provider)
      (peer : MlsClient Group Provider) (sender : ChannelState Group)
      (receiver : ChannelState Group) (encrypted : EncryptedEvent) (submit : SubmitEvent)
      (ttl_seconds instance_max_ttl : ServerTtl) (accepted_at : OffsetDateTime) (sequence : ℕ)
      (carried : (aad payload wire : Bytes)
        → serialized json metadata_to_vec digest mls
            (mls.create_message payload (mls.set_aad aad sender.group) client.provider).0
          ≡ ok wire
        → Carries client.device_id event.channel_id aad payload wire receiver.group peer.provider)
      → get event.channel_id client.channels ≡ some sender
      → get event.channel_id peer.channels ≡ some receiver
      → receiver.community_id ≡ sender.community_id
      → InStep json metadata_to_vec digest mls client.device_id sender receiver
      → encrypt_event json metadata_to_vec digest mls event client ≡ (ok encrypted, client')
      → to_submit_event codec ttl_seconds encrypted ≡ ok submit
      → (sender' : ChannelState Group) × (receiver' : ChannelState Group) × (peer' : MlsClient Group
          Provider)
        × (decrypt_delivered_event json digest receiver_mls codec
              (relayed submit instance_max_ttl accepted_at sequence)
              peer
            ≡ (ok event, peer'))
        × (get event.channel_id client'.channels ≡ some sender')
        × (get event.channel_id peer'.channels ≡ some receiver')
        × InStep json metadata_to_vec digest mls client'.device_id sender' receiver'
  unfolding decrypt_delivered_event decrypt_event_with_delivery
  decrypt-encrypt_event metadata_read event client client' peer sender receiver encrypted submit
        ttl_seconds instance_max_ttl accepted_at sequence carried joined joined' same_community
        in_step sent submitted =
      let s =
        encrypt_event-Sent json metadata_to_vec digest mls event client client' encrypted sent in
      let (found, device, _, _, written, metadata_written, community, valid) =
        check_outgoing-parts json metadata_to_vec digest mls event client s.state s.encoded
          s.metadata s.checked in
      let same_state : s.state ≡ sender = ap (unwrap_or sender) (sym found ∙ joined) in
      let (m, made, submits) = to_submit_event-ok codec ttl_seconds encrypted submit submitted in
      let made' = ap (λ e. from_bytes codec e.mls_message) s.form ∙ made in
      let c =
        subst
          (λ d. Carries d event.channel_id s.metadata s.encoded s.wire receiver.group peer.provider)
          (sym device)
          (carried s.metadata s.encoded s.wire (
            subst
              (λ g.
                serialized json metadata_to_vec digest mls
                  (mls.create_message s.encoded (mls.set_aad s.metadata g.group) client.provider).0
                ≡ ok s.wire)
              same_state s.written)) in
      let run = receiver_mls.process_message c.protocol_message receiver.group peer.provider in
      let moved : ChannelState Group = record receiver { group = run.1 } in
      let (sender', stored, recorded, in_step') =
        Sent-InStep json metadata_to_vec digest mls event client client' encrypted sender moved
          joined in_step s in
      let moved' = record_incoming json digest event s.encoded moved in
      let named =
        from_event-validate_delivery event s.wire m ttl_seconds instance_max_ttl accepted_at
          sequence in
      let opened =
        subst
          (λ community_id.
            open_processed json digest receiver_mls event.channel_id community_id
              (some (
                relayed (submission ttl_seconds (encrypted_form event s.wire) m) instance_max_ttl
                  accepted_at sequence))
              c.processed
            ≡ ok event)
          (community ∙ ap (λ g. g.community_id) same_state ∙ sym same_community)
          (open_processed-Carries event _ s.metadata s.encoded s.wire receiver.group peer.provider c
            (metadata_read (from_event event) s.metadata metadata_written)
            (decode-encode_provisional_json json event s.encoded written) valid named) in
      (
        sender',
        moved',
        with_channel event.channel_id moved' run.2 peer,
        subst
            (λ d.
              decrypt_delivered_event json digest receiver_mls codec
                (relayed d instance_max_ttl accepted_at sequence) peer
              ≡ (ok event, with_channel event.channel_id moved' run.2 peer))
            (ap (λ e. submission ttl_seconds e m) s.form ∙ submits)
            (rw
              (
                decode-from_bytes codec s.wire m c.bytes made',
                check_incoming-Carries event _ s.metadata s.encoded s.wire peer receiver c
                    (from_bytes-ok codec s.wire m made')
                    (metadata_read (from_event event) s.metadata metadata_written) named joined',
                c.accepted,
                opened,
                recorded,
              )
              refl),
        stored,
        get-put_self event.channel_id moved' peer.channels,
        in_step',
      )
