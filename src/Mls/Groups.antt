-- ===== src/Mls/Groups.antt =====
-- crates/singularis-mls/src/client.rs: the channels of a client, its key packages, and the encryption of
-- a text. OpenMLS is a parameter.

pub mod Tidy
use singularis.Prelude.{
  ℕ, ◌*◌, ◌≡◌, Bool, true, false, not, ◌||◌, Option, none, some, [], Result, ok, err, ◌>>=◌, ◌>>◌,
  fail_if, ok_or, ltb, length, is_empty, Text, Bytes, nat_eq, get, contains, ℤ, if◌then◌else◌,
}
use singularis.Protocol.Event.{EventId, Uuid}
use singularis.Mls.Error.{
  MlsError, channel_already_joined, state_storage, invalid_key_package, unknown_channel,
  message_rejected, message_encoding, invalid_welcome, context_mismatch,
}
use singularis.Mls.Event.{
  PlaintextEvent, EventReferences, EventJson, text_content, event_schema_version,
}
use singularis.Mls.Chain.{
  ChannelState, MlsClient, OpenMls, EncryptedEvent, AuthenticatedTransportMetadata, with_channel,
  SenderChain, next_counter, encrypt_event,
}
use singularis.Mls.Receive.{Credential, credential_device_id}

abbrev pub max_key_package_bytes : ℕ
max_key_package_bytes = 64 * 1024

abbrev pub max_welcome_bytes : ℕ
max_welcome_bytes = 384 * 1024

pub record MemberAddition : Type 0 where
  pub member_device_id : Uuid
  pub commit : Bytes
  pub welcome : Bytes

-- What the client uses of OpenMLS for its groups, with the client's keys and the configurations that it
-- passes. A message that comes in is of some other type where its extraction has no value; a call that
-- writes to the storage returns the provider as it leaves it.
pub record Groups (Group Provider : Type 0) : Type 1 where
  pub MlsMessage : Type 0
  pub KeyPackageIn : Type 0
  pub KeyPackage : Type 0
  pub Welcome : Type 0
  pub StagedWelcome : Type 0
  pub tls_deserialize_exact : Bytes → Option MlsMessage
  pub extract_key_package : MlsMessage → Option KeyPackageIn
  pub validate_key_package : KeyPackageIn → Option KeyPackage
  pub leaf_credential : KeyPackage → Credential
  pub build_key_package : Provider → Option KeyPackage × Provider
  pub key_package_to_bytes : KeyPackage → Option Bytes
  pub new_with_group_id : Uuid → Provider → Option Group × Provider
  pub add_members : KeyPackage → Group → Provider → Option (Bytes × Bytes) × Group × Provider
  pub merge_pending_commit : Group → Provider → Bool × Group × Provider
  pub to_bytes : Bytes → Option Bytes
  pub extract_welcome : MlsMessage → Option Welcome
  pub new_from_welcome : Welcome → Provider → Option StagedWelcome × Provider
  pub into_group : StagedWelcome → Provider → Option Group × Provider
  pub has_group_id : Group → Uuid → Bool
  pub has_ciphersuite : Group → Bool
  pub uuid_from_slice : Bytes → Option Uuid

-- `PlaintextEvent::text`
abbrev pub text_event :
    EventId → Uuid → Uuid → Uuid → ℕ → ℤ → Option ℕ → EventReferences → Text → PlaintextEvent
text_event event_id community_id channel_id sender_device_id sender_counter created_at_ms
      previous_event_hash references body =
    record {
      schema_version = event_schema_version;
      event_id = event_id;
      community_id = community_id;
      channel_id = channel_id;
      sender_device_id = sender_device_id;
      sender_counter = sender_counter;
      created_at_ms = created_at_ms;
      previous_event_hash = previous_event_hash;
      references = references;
      content = text_content body;
    }

-- The counter and the previous hash that `encrypt_text` gives its event.
abbrev pub text_counter : Option SenderChain → ℕ
text_counter none = 1
text_counter (some chain) = next_counter chain.counter

abbrev pub text_previous_hash : Option SenderChain → Option ℕ
text_previous_hash none = none
text_previous_hash (some chain) = some chain.event_hash

-- `ChannelState::new`
abbrev pub new_channel : {Group : Type 0} → Uuid → Group → ChannelState Group
new_channel community_id group = record {
  community_id = community_id;
  group = group;
  outgoing_chain = none;
  incoming_chains = [];
  seen_event_ids = [];
}

unfoldable pub has_channel : {Group Provider : Type 0} → Uuid → MlsClient Group Provider → Bool
has_channel channel_id client = contains channel_id client.channels

abbrev pub with_provider :
    {Group Provider : Type 0} → Provider → MlsClient Group Provider → MlsClient Group Provider
with_provider provider client = record client { provider = provider }

module _ {Group Provider : Type 0} (mls : Groups Group Provider) where
  unfoldable pub publish_key_package :
      MlsClient Group Provider → Result MlsError Bytes × MlsClient Group Provider
  publish_key_package client =
      let (built, provider) = mls.build_key_package client.provider in
      (
        do
          key_package ← ok_or built invalid_key_package
          ok_or (mls.key_package_to_bytes key_package) message_encoding,
        with_provider provider client,
      )

  unfoldable pub decode_key_package : Bytes → Result MlsError mls.KeyPackage
  decode_key_package encoded_key_package = do
    fail_if (is_empty encoded_key_package || ltb max_key_package_bytes (length encoded_key_package))
        invalid_key_package
    message ← ok_or (mls.tls_deserialize_exact encoded_key_package) invalid_key_package
    key_package ← ok_or (mls.extract_key_package message) invalid_key_package
    ok_or (mls.validate_key_package key_package) invalid_key_package

  abbrev pub on_created :
      Uuid
      → Uuid
      → MlsClient Group Provider
      → Option Group × Provider
      → Result MlsError Unit × MlsClient Group Provider
  on_created community_id channel_id client (none, provider) =
      (err state_storage, with_provider provider client)
  on_created community_id channel_id client (some group, provider) =
      (ok tt, with_channel channel_id (new_channel community_id group) provider client)

  abbrev pub on_vacant :
      Uuid
      → Uuid
      → MlsClient Group Provider
      → Bool
      → Result MlsError Unit × MlsClient Group Provider
  on_vacant community_id channel_id client true = (err channel_already_joined, client)
  on_vacant community_id channel_id client false =
      on_created community_id channel_id client (mls.new_with_group_id channel_id client.provider)

  unfoldable pub create_channel :
      Uuid → Uuid → MlsClient Group Provider → Result MlsError Unit × MlsClient Group Provider
  create_channel community_id channel_id client =
      on_vacant community_id channel_id client (contains channel_id client.channels)

  -- The part of `add_member` in front of `add_members`.
  unfoldable pub check_addition :
      Uuid
      → Bytes
      → MlsClient Group Provider
      → Result MlsError (mls.KeyPackage × Uuid × ChannelState Group)
  check_addition channel_id encoded_key_package client = do
    key_package ← decode_key_package encoded_key_package
    member_device_id ← credential_device_id mls.uuid_from_slice (mls.leaf_credential key_package)
    state ← ok_or (get channel_id client.channels) unknown_channel
    ok (key_package, member_device_id, state)

  abbrev pub addition : Uuid → Bytes × Bytes → Bool → Result MlsError MemberAddition
  addition member_device_id messages merged = do
    fail_if (not merged) state_storage
    commit ← ok_or (mls.to_bytes messages.0) message_encoding
    welcome ← ok_or (mls.to_bytes messages.1) message_encoding
    ok (record { member_device_id = member_device_id; commit = commit; welcome = welcome })

  abbrev pub on_added :
      Uuid
      → Uuid
      → ChannelState Group
      → MlsClient Group Provider
      → Option (Bytes × Bytes) × Group × Provider
      → Result MlsError MemberAddition × MlsClient Group Provider
  on_added channel_id member_device_id state client (none, group, provider) = (
    err message_rejected,
    with_channel channel_id (record state { group = group }) provider client,
  )
  on_added channel_id member_device_id state client (some messages, group, provider) =
      let (merged, group', provider') = mls.merge_pending_commit group provider in
      (
        addition member_device_id messages merged,
        with_channel channel_id (record state { group = group' }) provider' client,
      )

  abbrev pub on_addition :
      Uuid
      → MlsClient Group Provider
      → Result MlsError (mls.KeyPackage × Uuid × ChannelState Group)
      → Result MlsError MemberAddition × MlsClient Group Provider
  on_addition channel_id client (err e) = (err e, client)
  on_addition channel_id client (ok (key_package, member_device_id, state)) =
      on_added channel_id member_device_id state client
        (mls.add_members key_package state.group client.provider)

  unfoldable pub add_member :
      Uuid
      → Bytes
      → MlsClient Group Provider
      → Result MlsError MemberAddition × MlsClient Group Provider
  add_member channel_id encoded_key_package client =
      on_addition channel_id client (check_addition channel_id encoded_key_package client)

  -- The part of `join_channel` in front of the staging.
  unfoldable pub decode_welcome : Bytes → Result MlsError mls.Welcome
  decode_welcome encoded_welcome = do
    fail_if (is_empty encoded_welcome || ltb max_welcome_bytes (length encoded_welcome))
        invalid_welcome
    message ← ok_or (mls.tls_deserialize_exact encoded_welcome) invalid_welcome
    ok_or (mls.extract_welcome message) invalid_welcome

  abbrev pub on_group :
      Uuid
      → Uuid
      → MlsClient Group Provider
      → Option Group × Provider
      → Result MlsError Unit × MlsClient Group Provider
  on_group community_id channel_id client (none, provider) =
      (err invalid_welcome, with_provider provider client)
  on_group community_id channel_id client (some group, provider) =
      if not (mls.has_group_id group channel_id) || not (mls.has_ciphersuite group)
      then (err context_mismatch, with_provider provider client)
      else (ok tt, with_channel channel_id (new_channel community_id group) provider client)

  abbrev pub on_staged :
      Uuid
      → Uuid
      → MlsClient Group Provider
      → Option mls.StagedWelcome × Provider
      → Result MlsError Unit × MlsClient Group Provider
  on_staged community_id channel_id client (none, provider) =
      (err invalid_welcome, with_provider provider client)
  on_staged community_id channel_id client (some staged, provider) =
      on_group community_id channel_id client (mls.into_group staged provider)

  abbrev pub on_welcome :
      Uuid
      → Uuid
      → MlsClient Group Provider
      → Result MlsError mls.Welcome
      → Result MlsError Unit × MlsClient Group Provider
  on_welcome community_id channel_id client (err e) = (err e, client)
  on_welcome community_id channel_id client (ok welcome) =
      on_staged community_id channel_id client (mls.new_from_welcome welcome client.provider)

  unfoldable pub join_channel :
      Uuid
      → Uuid
      → Bytes
      → MlsClient Group Provider
      → Result MlsError Unit × MlsClient Group Provider
  join_channel community_id channel_id encoded_welcome client =
      on_welcome community_id channel_id client (do
        fail_if (contains channel_id client.channels) channel_already_joined
        decode_welcome encoded_welcome)

module _ {Group Provider : Type 0} (json : EventJson)
    (metadata_to_vec : AuthenticatedTransportMetadata → Option Bytes) (digest : Bytes → ℕ)
    (mls : OpenMls Group Provider) where
  abbrev pub on_joined :
      EventId
      → Uuid
      → ℤ
      → EventReferences
      → Text
      → MlsClient Group Provider
      → Option (ChannelState Group)
      → Result MlsError EncryptedEvent × MlsClient Group Provider
  on_joined event_id channel_id created_at_ms references body client none =
      (err unknown_channel, client)
  on_joined event_id channel_id created_at_ms references body client (some state) =
      encrypt_event json metadata_to_vec digest mls
        (text_event event_id state.community_id channel_id client.device_id
          (text_counter state.outgoing_chain) created_at_ms
          (text_previous_hash state.outgoing_chain) references body)
        client

  -- `EventId::new` is an argument.
  unfoldable pub encrypt_text :
      EventId
      → Uuid
      → ℤ
      → EventReferences
      → Text
      → MlsClient Group Provider
      → Result MlsError EncryptedEvent × MlsClient Group Provider
  encrypt_text event_id channel_id created_at_ms references body client =
      on_joined event_id channel_id created_at_ms references body client
        (get channel_id client.channels)
