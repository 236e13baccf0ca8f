-- ===== src/Mls/Chain.antt =====
-- crates/singularis-mls/src/client.rs: the counters and hashes that chain each sender's events, and
-- the encryption of an event. OpenMLS, SHA-256 and serde_json are parameters.

pub mod Sent
pub mod Lockstep
pub mod Replay
pub mod Accepted
pub mod Tidy
pub mod TidySent
use singularis.Prelude.{
  ℕ, ◌+◌, ◌-◌, ◌^◌, ◌≡◌, refl, Bool, true, false, not, ◌&&◌, ◌||◌, Option, none, some, Result, ok,
  err, ◌>>=◌, ◌>>◌, fail_if, ok_or, map_err, if◌then◌else◌, leb, ltb, Text, Bytes, Eq, ◌==◌, nat_eq,
  option_eq, HashMap, HashSet, get, put, contains,
}
use singularis.Protocol.Event.{EventId, Uuid, SubmitEvent, DeliveredEvent}
use singularis.Protocol.Ttl.{ServerTtl}
use singularis.Protocol.Message.{Base64, from_bytes}
use singularis.Mls.Error.{
  MlsError, context_mismatch, unknown_channel, invalid_sender_chain, replay_detected,
  payload_encoding, message_rejected, message_encoding,
}
use singularis.Mls.Event.{
  PlaintextEvent, EventReferences, text_content, EventJson, validate, encode_provisional_json,
  event_schema_version,
}

abbrev pub transport_aad_version : ℕ
transport_aad_version = 1

pub record EncryptedEvent : Type 0 where
  pub event_id : EventId
  pub community_id : Uuid
  pub channel_id : Uuid
  pub sender_device_id : Uuid
  pub sender_counter : ℕ
  pub mls_message : Bytes

unfoldable pub to_submit_event : Base64 → ServerTtl → EncryptedEvent → Result MlsError SubmitEvent
to_submit_event codec ttl_seconds encrypted = do
  mls_message ← map_err (λ e. message_encoding) (from_bytes codec encrypted.mls_message)
  ok (record {
    event_id = encrypted.event_id;
    community_id = encrypted.community_id;
    channel_id = encrypted.channel_id;
    sender_device_id = encrypted.sender_device_id;
    sender_counter = encrypted.sender_counter;
    mls_message = mls_message;
    ttl_seconds = ttl_seconds;
  })

pub record AuthenticatedTransportMetadata : Type 0 where
  pub version : ℕ
  pub event_id : EventId
  pub community_id : Uuid
  pub channel_id : Uuid
  pub sender_device_id : Uuid
  pub sender_counter : ℕ
  pub event_schema_version : ℕ

abbrev pub from_event : PlaintextEvent → AuthenticatedTransportMetadata
from_event event = record {
  version = transport_aad_version;
  event_id = event.event_id;
  community_id = event.community_id;
  channel_id = event.channel_id;
  sender_device_id = event.sender_device_id;
  sender_counter = event.sender_counter;
  event_schema_version = event.schema_version;
}

unfoldable pub validate_event :
    AuthenticatedTransportMetadata → PlaintextEvent → Uuid → Uuid → Uuid → Result MlsError Unit
validate_event m event credential_device_id expected_community_id expected_channel_id =
    fail_if
      (not (m.version == transport_aad_version)
        || not (m.event_id == event.event_id)
        || not (m.community_id == event.community_id)
        || not (m.channel_id == event.channel_id)
        || not (m.sender_device_id == event.sender_device_id)
        || not (m.sender_counter == event.sender_counter)
        || not (m.event_schema_version == event_schema_version)
        || not (event.community_id == expected_community_id)
        || not (event.channel_id == expected_channel_id)
        || not (event.sender_device_id == credential_device_id))
      context_mismatch

unfoldable pub validate_delivery :
    AuthenticatedTransportMetadata → DeliveredEvent → Result MlsError Unit
validate_delivery m delivered =
    fail_if
      (not (m.event_id == delivered.receipt.event_id)
        || not (m.community_id == delivered.community_id)
        || not (m.channel_id == delivered.receipt.channel_id)
        || not (m.sender_device_id == delivered.sender_device_id)
        || not (m.sender_counter == delivered.sender_counter))
      context_mismatch

pub record SenderChain : Type 0 where
  pub counter : ℕ
  pub event_hash : ℕ

pub record ChannelState (Group : Type 0) : Type 0 where
  pub community_id : Uuid
  pub group : Group
  pub outgoing_chain : Option SenderChain
  pub incoming_chains : HashMap Uuid SenderChain
  pub seen_event_ids : HashSet EventId

-- `saturating_add(1)` on `u64`.
abbrev pub next_counter : ℕ → ℕ
next_counter counter = if ltb (counter + 1) (2 ^ 64) then counter + 1 else 2 ^ 64 - 1

-- The counter and the previous hash that `encrypt_event` expects of an event.
abbrev pub expected_outgoing : Option SenderChain → ℕ × Option ℕ
expected_outgoing none = (1, none)
expected_outgoing (some chain) = (next_counter chain.counter, some chain.event_hash)

abbrev pub continues_outgoing : PlaintextEvent → Option SenderChain → Bool
continues_outgoing event chain =
    event.sender_counter == (expected_outgoing chain).0
    && event.previous_event_hash == (expected_outgoing chain).1

-- What `validate_and_record_incoming` expects of one.
abbrev pub expected_incoming : Option SenderChain → ℕ × Option ℕ
expected_incoming none = (1, none)
expected_incoming (some chain) = (next_counter chain.counter, some chain.event_hash)

abbrev pub continues_incoming : PlaintextEvent → Option SenderChain → Bool
continues_incoming event chain =
    event.sender_counter == (expected_incoming chain).0
    && event.previous_event_hash == (expected_incoming chain).1

module _ {Group : Type 0} (json : EventJson) (digest : Bytes → ℕ) where
  abbrev pub record_incoming : PlaintextEvent → Bytes → ChannelState Group → ChannelState Group
  record_incoming event encoded state = record state {
    incoming_chains =
        put event.sender_device_id
          (record { counter = event.sender_counter; event_hash = digest encoded })
          state.incoming_chains;
    seen_event_ids = put event.event_id tt state.seen_event_ids;
  }

  unfoldable pub validate_and_record_incoming :
      PlaintextEvent → ChannelState Group → Result MlsError (ChannelState Group)
  validate_and_record_incoming event state = do
    fail_if (contains event.event_id state.seen_event_ids) replay_detected
    fail_if (not (continues_incoming event (get event.sender_device_id state.incoming_chains)))
        invalid_sender_chain
    encoded ← encode_provisional_json json event
    ok (record_incoming event encoded state)

-- What the client uses of OpenMLS, with its provider and the client's keys: an operation returns the
-- group and the provider as it leaves them, also where it fails.
pub record OpenMls (Group Provider : Type 0) : Type 0 where
  pub set_aad : Bytes → Group → Group
  pub create_message : Bytes → Group → Provider → Option Bytes × Group × Provider
  pub to_bytes : Bytes → Option Bytes

pub record MlsClient (Group Provider : Type 0) : Type 0 where
  pub device_id : Uuid
  pub provider : Provider
  pub channels : HashMap Uuid (ChannelState Group)

-- A channel and the provider as an operation leaves them.
abbrev pub with_channel :
    {Group Provider : Type 0}
    → Uuid
    → ChannelState Group
    → Provider
    → MlsClient Group Provider
    → MlsClient Group Provider
with_channel channel_id state provider client = record client {
  provider = provider;
  channels = put channel_id state client.channels;
}

abbrev pub encrypted_form : PlaintextEvent → Bytes → EncryptedEvent
encrypted_form event mls_message = record {
  event_id = event.event_id;
  community_id = event.community_id;
  channel_id = event.channel_id;
  sender_device_id = event.sender_device_id;
  sender_counter = event.sender_counter;
  mls_message = mls_message;
}

module _ {Group Provider : Type 0} (json : EventJson)
    (metadata_to_vec : AuthenticatedTransportMetadata → Option Bytes) (digest : Bytes → ℕ)
    (mls : OpenMls Group Provider) where
  -- The part of `encrypt_event` in front of `set_aad`: the channel, the encoded event and the metadata.
  unfoldable pub check_outgoing :
      PlaintextEvent
      → MlsClient Group Provider
      → Result MlsError (ChannelState Group × Bytes × Bytes)
  check_outgoing event client = do
    validate event
    fail_if (not (event.sender_device_id == client.device_id)) context_mismatch
    state ← ok_or (get event.channel_id client.channels) unknown_channel
    fail_if (not (event.community_id == state.community_id)) context_mismatch
    fail_if
        (not (continues_outgoing event state.outgoing_chain)
          || contains event.event_id state.seen_event_ids)
        invalid_sender_chain
    encoded ← encode_provisional_json json event
    metadata ← ok_or (metadata_to_vec (from_event event)) payload_encoding
    ok (state, encoded, metadata)

  abbrev pub record_outgoing : PlaintextEvent → Bytes → ChannelState Group → ChannelState Group
  record_outgoing event encoded state = record state {
    outgoing_chain = some (record { counter = event.sender_counter; event_hash = digest encoded });
    seen_event_ids = put event.event_id tt state.seen_event_ids;
  }

  abbrev pub serialized : Option Bytes → Result MlsError Bytes
  serialized created = do
    message ← ok_or created message_rejected
    ok_or (mls.to_bytes message) message_encoding

  -- The part behind `create_message`; `state` holds the group as that left it.
  abbrev pub on_message :
      PlaintextEvent
      → Bytes
      → ChannelState Group
      → Provider
      → MlsClient Group Provider
      → Result MlsError Bytes
      → Result MlsError EncryptedEvent × MlsClient Group Provider
  on_message event encoded state provider client (err e) =
      (err e, with_channel event.channel_id state provider client)
  on_message event encoded state provider client (ok mls_message) = (
    ok (encrypted_form event mls_message),
    with_channel event.channel_id (record_outgoing event encoded state) provider client,
  )

  abbrev pub on_checked :
      PlaintextEvent
      → MlsClient Group Provider
      → Result MlsError (ChannelState Group × Bytes × Bytes)
      → Result MlsError EncryptedEvent × MlsClient Group Provider
  on_checked event client (err e) = (err e, client)
  on_checked event client (ok (state, encoded, metadata)) =
      let (created, group, provider) =
        mls.create_message encoded (mls.set_aad metadata state.group) client.provider in
      on_message event encoded (record state { group = group }) provider client (serialized created)

  unfoldable pub encrypt_event :
      PlaintextEvent
      → MlsClient Group Provider
      → Result MlsError EncryptedEvent × MlsClient Group Provider
  encrypt_event event client = on_checked event client (check_outgoing event client)
