-- ===== src/Mls/Receive/Opened.antt =====
-- A decryption that succeeded, taken apart.
use singularis.Prelude.{
  ℕ, ◌≡◌, refl, sym, ap, subst, ◌∙◌, true, not, ◌||◌, Option, none, some, Result, ok, err, fail_if,
  ok_or, ltb, length, is_empty, Bytes, nat_eq, option_eq, get, get-put_self, arith, >>=-eq-ok,
  ok_or-ok, fail_if-ok, ok_value,
}
use singularis.Protocol.Event.{Uuid, DeliveredEvent}
use singularis.Protocol.Message.{max_mls_message_bytes}
use singularis.Mls.Error.{
  MlsError, invalid_sender_credential, payload_encoding, unexpected_message_type, message_rejected,
  context_mismatch, unknown_channel,
}
use singularis.Mls.Event.{PlaintextEvent, EventJson, decode_provisional_json}
use singularis.Mls.Chain.{
  ChannelState, MlsClient, AuthenticatedTransportMetadata, validate_event, validate_delivery,
  validate_and_record_incoming,
}
use singularis.Mls.Receive.{
  Processed, Receiver, credential_device_id, validate_any_delivery, check_incoming, open_processed,
  on_recorded, on_opened, on_reloaded, on_processed, on_incoming,
}

-- The event is the one that the relay's record of the delivery names.
pub record Names (delivered : DeliveredEvent) (event : PlaintextEvent) : Type 0 where
  pub event_id : event.event_id ≡ delivered.receipt.event_id
  pub community_id : event.community_id ≡ delivered.community_id
  pub channel_id : event.channel_id ≡ delivered.receipt.channel_id
  pub sender_device_id : event.sender_device_id ≡ delivered.sender_device_id
  pub sender_counter : event.sender_counter ≡ delivered.sender_counter

validate_delivery-Names :
    (metadata : AuthenticatedTransportMetadata) (event : PlaintextEvent)
    (delivered : DeliveredEvent) (credential community channel : Uuid)
    → validate_event metadata event credential community channel ≡ ok tt
    → validate_delivery metadata delivered ≡ ok tt
    → Names delivered event
unfolding validate_event validate_delivery
validate_delivery-Names metadata event delivered credential community channel h k = record {
  event_id = ground arith;
  community_id = ground arith;
  channel_id = ground arith;
  sender_device_id = ground arith;
  sender_counter = ground arith;
}

pub validate_event-ok :
    (metadata : AuthenticatedTransportMetadata) (event : PlaintextEvent)
    (credential community channel : Uuid)
    → validate_event metadata event credential community channel ≡ ok tt
    → (event.sender_device_id ≡ credential)
      × (event.community_id ≡ community)
      × (event.channel_id ≡ channel)
unfolding validate_event
validate_event-ok metadata event credential community channel h =
    (ground arith, ground arith, ground arith)

module _ {Group Provider : Type 0} (json : EventJson) (digest : Bytes → ℕ)
    (mls : Receiver Group Provider) where
  -- A processed message that was opened, taken apart.
  pub record Opened (channel_id community_id : Uuid) (delivered : Option DeliveredEvent)
      (processed : Processed) (event : PlaintextEvent) : Type 0 where
    pub sender : Uuid
    pub metadata : AuthenticatedTransportMetadata
    pub from_member : processed.from_member ≡ true
    pub authenticated : credential_device_id mls.uuid_from_slice processed.credential ≡ ok sender
    pub matches : validate_event metadata event sender community_id channel_id ≡ ok tt
    pub delivers : validate_any_delivery metadata delivered ≡ ok tt

  pub open_processed-Opened :
      (channel_id community_id : Uuid) (delivered : Option DeliveredEvent) (processed : Processed)
      (event : PlaintextEvent)
      → open_processed json digest mls channel_id community_id delivered processed ≡ ok event
      → Opened channel_id community_id delivered processed event
  unfolding open_processed
  open_processed-Opened channel_id community_id delivered processed event h =
      let (_, e₁, h₁) =
        >>=-eq-ok (fail_if (not processed.from_member) invalid_sender_credential) _ h in
      let (sender, e₂, h₂) =
        >>=-eq-ok (credential_device_id mls.uuid_from_slice processed.credential) _ h₁ in
      let (metadata, e₃, h₃) =
        >>=-eq-ok (ok_or (mls.metadata_from_slice processed.aad) payload_encoding) _ h₂ in
      let (message, e₄, h₄) =
        >>=-eq-ok (ok_or processed.application_message unexpected_message_type) _ h₃ in
      let (read, e₅, h₅) = >>=-eq-ok (decode_provisional_json json message) _ h₄ in
      let (_, e₆, h₆) =
        >>=-eq-ok (validate_event metadata read sender community_id channel_id) _ h₅ in
      let (_, e₇, h₇) = >>=-eq-ok (validate_any_delivery metadata delivered) _ h₆ in
      record {
        sender = sender;
        metadata = metadata;
        from_member = ground (arith, fail_if-ok invalid_sender_credential _ e₁);
        authenticated = e₂;
        matches =
            subst (λ e. validate_event metadata e sender community_id channel_id ≡ ok tt)
              (ap (ok_value read) h₇) e₆;
        delivers = e₇;
      }

  not_reloaded :
      {A : Type 0} (state state' : ChannelState Group) (event : PlaintextEvent)
      (loaded : Option (Option Group))
      → on_reloaded json digest mls state loaded ≡ (ok event, state')
      → A
  not_reloaded state state' event none h = absurd (ground (arith, ap (λ r. r.0) h))
  not_reloaded state state' event (some none) h = absurd (ground (arith, ap (λ r. r.0) h))
  not_reloaded state state' event (some (some g)) h = absurd (ground (arith, ap (λ r. r.0) h))

  on_recorded-ok :
      (state state' : ChannelState Group) (read event : PlaintextEvent)
      (r : Result MlsError (ChannelState Group))
      → on_recorded json digest mls read state r ≡ (ok event, state')
      → (read ≡ event) × (r ≡ ok state')
  on_recorded-ok state state' read event (err e) h = absurd (ground (arith, ap (λ r. r.0) h))
  on_recorded-ok state state' read event (ok s) h =
      (ap (λ r. ok_value read r.0) h, ap (λ r. ok r.1) h)

  on_opened-ok :
      (state state' : ChannelState Group) (event : PlaintextEvent)
      (r : Result MlsError PlaintextEvent)
      → on_opened json digest mls state r ≡ (ok event, state')
      → (r ≡ ok event) × (validate_and_record_incoming json digest event state ≡ ok state')
  on_opened-ok state state' event (err e) h = absurd (ground (arith, ap (λ r. r.0) h))
  on_opened-ok state state' event (ok read) h =
      let (same, run) = on_recorded-ok state state' read event _ h in
      (
        ap ok same,
        subst (λ e. validate_and_record_incoming json digest e state ≡ ok state') same run,
      )

  pub on_processed-ok :
      (channel_id : Uuid) (delivered : Option DeliveredEvent) (group : Group)
      (state state' : ChannelState Group) (provider : Provider) (p : Option Processed)
      (event : PlaintextEvent)
      → on_processed json digest mls channel_id delivered group state provider p
        ≡ (ok event, state')
      → (processed : Processed) × (p ≡ some processed)
        × Opened channel_id state.community_id delivered processed event
        × (validate_and_record_incoming json digest event state ≡ ok state')
  on_processed-ok channel_id delivered group state state' provider none event h =
      not_reloaded state state' event (mls.load provider group) h
  on_processed-ok channel_id delivered group state state' provider (some processed) event h =
      let (opened, run) = on_opened-ok state state' event _ h in
      (
        processed,
        refl,
        open_processed-Opened channel_id state.community_id delivered processed event opened,
        run,
      )

  pub Opened-Names :
      (channel_id community_id : Uuid) (delivered : DeliveredEvent) (processed : Processed)
      (event : PlaintextEvent)
      → Opened channel_id community_id (some delivered) processed event
      → Names delivered event
  Opened-Names channel_id community_id delivered processed event o =
      validate_delivery-Names o.metadata event delivered o.sender community_id channel_id o.matches
        o.delivers

  -- A decryption that succeeded, taken apart.
  abbrev pub Decrypted :
      Uuid
      → Option DeliveredEvent
      → MlsClient Group Provider
      → MlsClient Group Provider
      → PlaintextEvent
      → Type 0
  Decrypted channel_id delivered client client' event =
      (state : ChannelState Group) × (message : mls.ProtocolMessage) × (group : Group)
      × (processed : Processed) × (state' : ChannelState Group) × (get channel_id client.channels
          ≡ some state)
      × ((mls.process_message message state.group client.provider).0 ≡ some processed)
      × Opened channel_id state.community_id delivered processed event
      × (validate_and_record_incoming json digest event (record state { group = group })
          ≡ ok state')
      × (get channel_id client'.channels ≡ some state')

  pub check_incoming-joined :
      (channel_id : Uuid) (encoded_message : Bytes) (delivered : Option DeliveredEvent)
      (client : MlsClient Group Provider) (state : ChannelState Group)
      (message : mls.ProtocolMessage)
      → check_incoming json digest mls channel_id encoded_message delivered client
        ≡ ok (state, message)
      → get channel_id client.channels ≡ some state
  unfolding check_incoming
  check_incoming-joined channel_id encoded_message delivered client state message h =
      let (_, _, h₁) =
        >>=-eq-ok
          (fail_if (is_empty encoded_message || ltb max_mls_message_bytes (length encoded_message))
            message_rejected)
          _ h in
      let (wire, _, h₂) =
        >>=-eq-ok (ok_or (mls.tls_deserialize_exact encoded_message) message_rejected) _ h₁ in
      let (protocol, _, h₃) =
        >>=-eq-ok (ok_or (mls.try_into_protocol_message wire) unexpected_message_type) _ h₂ in
      let (aad, _, h₄) =
        >>=-eq-ok (ok_or (mls.private_aad protocol) unexpected_message_type) _ h₃ in
      let (metadata, _, h₅) =
        >>=-eq-ok (ok_or (mls.metadata_from_slice aad) payload_encoding) _ h₄ in
      let (_, _, h₆) = >>=-eq-ok (validate_any_delivery metadata delivered) _ h₅ in
      let (found, e, h₇) =
        >>=-eq-ok (ok_or (get channel_id client.channels) unknown_channel) _ h₆ in
      let (_, _, h₈) =
        >>=-eq-ok (fail_if (not (mls.has_group_id protocol channel_id)) context_mismatch) _ h₇ in
      ok_or-ok unknown_channel _ e
      ∙ ap
          (λ r.
            some
              (ok_value {E = MlsError} {A = ChannelState Group × mls.ProtocolMessage}
                (found, protocol) r).0)
          h₈

  pub on_incoming-Decrypted :
      (channel_id : Uuid) (encoded_message : Bytes) (delivered : Option DeliveredEvent)
      (client client' : MlsClient Group Provider) (event : PlaintextEvent)
      (r : Result MlsError (ChannelState Group × mls.ProtocolMessage))
      → check_incoming json digest mls channel_id encoded_message delivered client ≡ r
      → on_incoming json digest mls channel_id delivered client r ≡ (ok event, client')
      → Decrypted channel_id delivered client client' event
  on_incoming-Decrypted channel_id encoded_message delivered client client' event (err e) k h =
      absurd (ground (arith, ap (λ r. r.0) h))
  on_incoming-Decrypted channel_id encoded_message delivered client client' event
        (ok (state, message)) k h =
      let run = mls.process_message message state.group client.provider in
      let step =
        on_processed json digest mls channel_id delivered state.group
          (record state { group = run.1 }) run.2 run.0 in
      let (processed, found, opened, recorded) =
        on_processed-ok channel_id delivered state.group (record state { group = run.1 }) step.1
          run.2 run.0 event (ap (λ r. (r.0, step.1)) h) in
      (
        state,
        message,
        run.1,
        processed,
        step.1,
        check_incoming-joined channel_id encoded_message delivered client state message k,
        found,
        opened,
        recorded,
        ap (λ r. get channel_id r.1.channels) (sym h)
            ∙ get-put_self channel_id step.1 client.channels,
      )
