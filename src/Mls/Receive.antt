-- ===== src/Mls/Receive.antt =====
-- crates/singularis-mls/src/client.rs: the decryption of a message, and of an event that the relay
-- delivered. OpenMLS, the uuid crate, serde_json and SHA-256 are parameters.

pub mod Opened
pub mod Authentic
pub mod Tidy
pub mod EndToEnd
use singularis.Prelude.{
  ℕ, ◌≡◌, Bool, not, ◌||◌, Option, none, some, Result, ok, err, ◌>>=◌, ◌>>◌, fail_if, ok_or,
  map_err, ltb, length, is_empty, Bytes, nat_eq, get,
}
use singularis.Protocol.Event.{Uuid, DeliveredEvent}
use singularis.Protocol.Message.{Base64, max_mls_message_bytes, decode}
use singularis.Mls.Error.{
  MlsError, message_rejected, unexpected_message_type, payload_encoding, unknown_channel,
  context_mismatch, state_storage, invalid_sender_credential,
}
use singularis.Mls.Event.{PlaintextEvent, EventJson, decode_provisional_json}
use singularis.Mls.Chain.{
  ChannelState, MlsClient, with_channel, AuthenticatedTransportMetadata, validate_event,
  validate_delivery, validate_and_record_incoming,
}

-- A credential as far as the source reads it.
pub record Credential : Type 0 where
  pub is_basic : Bool
  pub serialized_content : Bytes

-- A processed message: its content is that of an application message, or there is none.
pub record Processed : Type 0 where
  pub from_member : Bool
  pub credential : Credential
  pub aad : Bytes
  pub application_message : Option Bytes

-- What the client uses of OpenMLS to receive. Processing returns the group and the provider as it
-- leaves them; `private_aad` has a value for a private message only; `load` reads the group with the
-- given group's id out of the provider, with nothing in place of an error.
pub record Receiver (Group Provider : Type 0) : Type 1 where
  pub MlsMessage : Type 0
  pub ProtocolMessage : Type 0
  pub tls_deserialize_exact : Bytes → Option MlsMessage
  pub try_into_protocol_message : MlsMessage → Option ProtocolMessage
  pub private_aad : ProtocolMessage → Option Bytes
  pub has_group_id : ProtocolMessage → Uuid → Bool
  pub process_message : ProtocolMessage → Group → Provider → Option Processed × Group × Provider
  pub load : Provider → Group → Option (Option Group)
  pub uuid_from_slice : Bytes → Option Uuid
  pub metadata_from_slice : Bytes → Option AuthenticatedTransportMetadata

unfoldable pub credential_device_id : (Bytes → Option Uuid) → Credential → Result MlsError Uuid
credential_device_id uuid_from_slice credential = do
  fail_if (not credential.is_basic) invalid_sender_credential
  ok_or (uuid_from_slice credential.serialized_content) invalid_sender_credential

-- `if let Some(delivered) = delivered { metadata.validate_delivery(delivered)? }`
abbrev pub validate_any_delivery :
    AuthenticatedTransportMetadata → Option DeliveredEvent → Result MlsError Unit
validate_any_delivery metadata none = ok tt
validate_any_delivery metadata (some delivered) = validate_delivery metadata delivered

module _ {Group Provider : Type 0} (json : EventJson) (digest : Bytes → ℕ)
    (mls : Receiver Group Provider) where
  -- The part in front of `process_message`.
  unfoldable pub check_incoming :
      Uuid
      → Bytes
      → Option DeliveredEvent
      → MlsClient Group Provider
      → Result MlsError (ChannelState Group × mls.ProtocolMessage)
  check_incoming channel_id encoded_message delivered client = do
    fail_if (is_empty encoded_message || ltb max_mls_message_bytes (length encoded_message))
        message_rejected
    message ← ok_or (mls.tls_deserialize_exact encoded_message) message_rejected
    protocol_message ← ok_or (mls.try_into_protocol_message message) unexpected_message_type
    aad ← ok_or (mls.private_aad protocol_message) unexpected_message_type
    unverified_metadata ← ok_or (mls.metadata_from_slice aad) payload_encoding
    validate_any_delivery unverified_metadata delivered
    state ← ok_or (get channel_id client.channels) unknown_channel
    fail_if (not (mls.has_group_id protocol_message channel_id)) context_mismatch
    ok (state, protocol_message)

  -- The part behind `process_message` and in front of `validate_and_record_incoming`.
  unfoldable pub open_processed :
      Uuid → Uuid → Option DeliveredEvent → Processed → Result MlsError PlaintextEvent
  open_processed channel_id community_id delivered processed = do
    fail_if (not processed.from_member) invalid_sender_credential
    sender_device_id ← credential_device_id mls.uuid_from_slice processed.credential
    metadata ← ok_or (mls.metadata_from_slice processed.aad) payload_encoding
    application_message ← ok_or processed.application_message unexpected_message_type
    event ← decode_provisional_json json application_message
    validate_event metadata event sender_device_id community_id channel_id
    validate_any_delivery metadata delivered
    ok event

  -- A channel after an event was checked against its chain.
  abbrev pub on_recorded :
      PlaintextEvent
      → ChannelState Group
      → Result MlsError (ChannelState Group)
      → Result MlsError PlaintextEvent × ChannelState Group
  on_recorded event state (err e) = (err e, state)
  on_recorded event state (ok state') = (ok event, state')

  abbrev pub on_opened :
      ChannelState Group
      → Result MlsError PlaintextEvent
      → Result MlsError PlaintextEvent × ChannelState Group
  on_opened state (err e) = (err e, state)
  on_opened state (ok event) =
      on_recorded event state (validate_and_record_incoming json digest event state)

  -- A group that could not process a message is read from the storage again.
  abbrev pub on_reloaded :
      ChannelState Group
      → Option (Option Group)
      → Result MlsError PlaintextEvent × ChannelState Group
  on_reloaded state (some (some group)) = (err message_rejected, record state { group = group })
  on_reloaded state (some none) = (err state_storage, state)
  on_reloaded state none = (err state_storage, state)

  abbrev pub on_processed :
      Uuid
      → Option DeliveredEvent
      → Group
      → ChannelState Group
      → Provider
      → Option Processed
      → Result MlsError PlaintextEvent × ChannelState Group
  on_processed channel_id delivered group state provider none =
      on_reloaded state (mls.load provider group)
  on_processed channel_id delivered group state provider (some processed) =
      on_opened state (open_processed channel_id state.community_id delivered processed)

  abbrev pub on_incoming :
      Uuid
      → Option DeliveredEvent
      → MlsClient Group Provider
      → Result MlsError (ChannelState Group × mls.ProtocolMessage)
      → Result MlsError PlaintextEvent × MlsClient Group Provider
  on_incoming channel_id delivered client (err e) = (err e, client)
  on_incoming channel_id delivered client (ok (state, protocol_message)) =
      let (processed, group, provider) =
        mls.process_message protocol_message state.group client.provider in
      let (result, state') =
        on_processed channel_id delivered state.group (record state { group = group }) provider
          processed in
      (result, with_channel channel_id state' provider client)

  unfoldable pub decrypt_event_with_delivery :
      Uuid
      → Bytes
      → Option DeliveredEvent
      → MlsClient Group Provider
      → Result MlsError PlaintextEvent × MlsClient Group Provider
  decrypt_event_with_delivery channel_id encoded_message delivered client =
      on_incoming channel_id delivered client
        (check_incoming channel_id encoded_message delivered client)

  unfoldable pub decrypt_event :
      Uuid
      → Bytes
      → MlsClient Group Provider
      → Result MlsError PlaintextEvent × MlsClient Group Provider
  decrypt_event channel_id encoded_message =
      decrypt_event_with_delivery channel_id encoded_message none

  module _ (codec : Base64) where
    abbrev pub on_decoded :
        DeliveredEvent
        → MlsClient Group Provider
        → Result MlsError Bytes
        → Result MlsError PlaintextEvent × MlsClient Group Provider
    on_decoded delivered client (err e) = (err e, client)
    on_decoded delivered client (ok encoded_message) =
        decrypt_event_with_delivery delivered.receipt.channel_id encoded_message (some delivered)
          client

    unfoldable pub decrypt_delivered_event :
        DeliveredEvent
        → MlsClient Group Provider
        → Result MlsError PlaintextEvent × MlsClient Group Provider
    decrypt_delivered_event delivered client =
        on_decoded delivered client
          (map_err (λ e. message_rejected) (decode codec delivered.mls_message))
