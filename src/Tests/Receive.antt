-- ===== src/Tests/Receive.antt =====
-- A message from one client to another at concrete inputs. The message carries its additional data and
-- its payload as they are.
use singularis.Prelude.{
  nat_eq, ◌≡◌, refl, ap, sym, ◌∙◌, subst, true, Option, none, some, [], ◌∷◌, Result, ok, err, Bytes,
  arith, get, put, Distinct, retain, any, is_blank, len, all, is_whitespace, Bool-cases, inl, inr,
  if◌then◌else◌, ok_value,
}
use singularis.Protocol.Event.{Uuid, SubmitEvent, DeliveredEvent}
use singularis.Protocol.Ttl.{ServerTtl}
use singularis.Protocol.Message.{from_bytes, decode}
use singularis.Mls.Error.{MlsError}
use singularis.Mls.Event.{
  PlaintextEvent, encode_provisional_json, decode_provisional_json, validate,
}
use singularis.Mls.Chain.{
  MlsClient, ChannelState, OpenMls, EncryptedEvent, AuthenticatedTransportMetadata, encrypt_event,
  check_outgoing, to_submit_event, serialized, validate_event, validate_delivery,
  validate_and_record_incoming,
}
use singularis.Mls.Chain.Lockstep.{InStep}
use singularis.Mls.Chain.Tidy.{TidyClient}
use singularis.Mls.Groups.{Groups, create_channel}
use singularis.Mls.Reach.{Reach, initial, follow, creates, encrypts, Reach-TidyClient}
use singularis.Mls.Receive.{
  Receiver, Processed, check_incoming, open_processed, decrypt_event_with_delivery,
  decrypt_delivered_event, credential_device_id,
}
use singularis.Mls.Receive.Opened.{Names}
use singularis.Mls.Receive.Authentic.{
  Authentic, decrypt_event_with_delivery-Authentic, decrypt_delivered_event-Names,
}
use singularis.Mls.Receive.EndToEnd.{Carries, relayed, decrypt-encrypt_event}
use singularis.Tests.Codec.{url_safe}
use singularis.Tests.KeyHeader.{are_bytes, are_bytes-All}
use singularis.Tests.Mls.{hello, greeting_json, digest}
use singularis.Tests.Wire.{Wire, number, bytes, pair, via, print, parse, parse-print}

abbrev metadata_form : Wire AuthenticatedTransportMetadata
metadata_form =
    via (pair (pair (pair number number) (pair number number)) (pair number (pair number number)))
      (λ m. (
        ((m.version, m.event_id), (m.community_id, m.channel_id)),
        (m.sender_device_id, (m.sender_counter, m.event_schema_version)),
      ))
      (λ t. record {
        version = t.0.0.0;
        event_id = t.0.0.1;
        community_id = t.0.1.0;
        channel_id = t.0.1.1;
        sender_device_id = t.1.0;
        sender_counter = t.1.1.0;
        event_schema_version = t.1.1.1;
      })
      (λ m. refl)

abbrev wire_form : Wire (Bytes × Bytes)
wire_form = pair bytes bytes

-- A group is the additional data that was set last.
abbrev send : Bytes → Bytes → Option Bytes
send aad payload =
    if are_bytes (wire_form.write (aad, payload) [])
    then some (wire_form.write (aad, payload) [])
    else none

abbrev sending : OpenMls Bytes Unit
sending = record {
  set_aad = λ aad group. aad;
  create_message = λ payload group provider. (send group payload, [], provider);
  to_bytes = λ b. some b;
}

abbrev device_of : Bytes → Option Uuid
device_of (n ∷ []) = some n
device_of _ = none

abbrev processed_of : Bytes × Bytes → Processed
processed_of (aad, payload) = record {
  from_member = true;
  credential = record { is_basic = true; serialized_content = 9 ∷ [] };
  aad = aad;
  application_message = some payload;
}

abbrev receiving : Receiver Bytes Unit
receiving = record {
  MlsMessage = Bytes × Bytes;
  ProtocolMessage = Bytes × Bytes;
  tls_deserialize_exact = parse wire_form;
  try_into_protocol_message = λ m. some m;
  private_aad = λ m. some m.0;
  has_group_id = λ m channel_id. true;
  process_message = λ m group provider. (some (processed_of m), group, provider);
  load = λ provider group. some (some group);
  uuid_from_slice = device_of;
  metadata_from_slice = parse metadata_form;
}

abbrev channel : ChannelState Bytes
channel = record {
  community_id = 1;
  group = [];
  outgoing_chain = none;
  incoming_chains = [];
  seen_event_ids = [];
}

abbrev sender : MlsClient Bytes Unit
sender = record { device_id = 9; provider = tt; channels = (7, channel) ∷ [] }

abbrev peer : MlsClient Bytes Unit
peer = record { device_id = 8; provider = tt; channels = (7, channel) ∷ [] }

abbrev encryption : Result MlsError EncryptedEvent × MlsClient Bytes Unit
encryption = encrypt_event greeting_json (print metadata_form) digest sending hello sender

abbrev encrypted_of : Result MlsError EncryptedEvent → EncryptedEvent
encrypted_of (ok e) = e
encrypted_of (err e) = record {
  event_id = 0;
  community_id = 0;
  channel_id = 0;
  sender_device_id = 0;
  sender_counter = 0;
  mls_message = [];
}

abbrev encrypted : EncryptedEvent
encrypted = encrypted_of encryption.0

encrypted_first : encryption ≡ (ok encrypted, encryption.1)
unfolding encrypt_event check_outgoing encode_provisional_json validate any is_blank all
    is_whitespace len get put retain
encrypted_first = refl

abbrev submit : SubmitEvent
submit = record {
  event_id = 20;
  community_id = 1;
  channel_id = 7;
  sender_device_id = 9;
  sender_counter = 1;
  mls_message = record { encoded = url_safe.encode encrypted.mls_message };
  ttl_seconds = record { seconds = 300 };
}

submits : to_submit_event url_safe (record { seconds = 300 }) encrypted ≡ ok submit
unfolding to_submit_event from_bytes encrypt_event check_outgoing encode_provisional_json validate
    any is_blank all is_whitespace len get put retain url_safe
submits = refl

carries :
    (aad payload wire : Bytes)
    → serialized greeting_json
        (print metadata_form)
        digest
        sending
        (sending.create_message payload (sending.set_aad aad []) tt).0
      ≡ ok wire
    → Carries greeting_json
        (print metadata_form)
        digest
        url_safe
        sending
        receiving
        9
        7
        aad
        payload
        wire
        []
        tt
carries aad payload wire h = elim (Bool-cases (are_bytes (wire_form.write (aad, payload) []))) [
  | inl e ↦
      let sent : serialized greeting_json (print metadata_form) digest sending (send aad payload)
          ≡ ok (wire_form.write (aad, payload) []) =
        rw e refl in
      subst
        (λ w.
          Carries greeting_json (print metadata_form) digest url_safe sending receiving 9 7 aad
            payload w [] tt)
        (ap (ok_value []) (sym sent ∙ h))
        (record {
          bytes = are_bytes-All (wire_form.write (aad, payload) []) e;
          message = (aad, payload);
          protocol_message = (aad, payload);
          processed = processed_of (aad, payload);
          read = parse-print wire_form (aad, payload) (wire_form.write (aad, payload) []) refl;
          protocol = refl;
          private = refl;
          group_id = refl;
          accepted = refl;
          from_member = refl;
          basic = refl;
          device = refl;
          same_aad = refl;
          same_payload = refl;
        })
  | inr e ↦ absurd (ground arith)
]

abbrev max_ttl : ServerTtl
max_ttl = record { seconds = 600 }

-- What the relay lists for the submission.
abbrev delivery : DeliveredEvent
delivery = relayed submit max_ttl 1000 1

decrypt-encrypt_event_example :
    (sender' : ChannelState Bytes) × (receiver' : ChannelState Bytes) × (peer' : MlsClient Bytes
      Unit)
    × (decrypt_delivered_event greeting_json digest receiving url_safe delivery peer
        ≡ (ok hello, peer'))
    × (get 7 encryption.1.channels ≡ some sender')
    × (get 7 peer'.channels ≡ some receiver')
    × InStep greeting_json
        (print metadata_form)
        digest
        sending
        encryption.1.device_id
        sender'
        receiver'
unfolding get
decrypt-encrypt_event_example =
    decrypt-encrypt_event greeting_json (print metadata_form) digest url_safe sending receiving
      (parse-print metadata_form) hello sender encryption.1 peer channel channel encrypted submit
      (record { seconds = 300 }) max_ttl 1000 1 carries refl refl refl (refl, λ id h. h)
      encrypted_first submits

abbrev decryption : Result MlsError PlaintextEvent × MlsClient Bytes Unit
decryption = decrypt_delivered_event greeting_json digest receiving url_safe delivery peer

decrypts : decryption ≡ (ok hello, decryption.1)
unfolding decrypt_delivered_event decode decrypt_event_with_delivery check_incoming open_processed
    credential_device_id decode_provisional_json validate_event validate_delivery
    validate_and_record_incoming encrypt_event check_outgoing encode_provisional_json validate any
    is_blank all is_whitespace len get put retain url_safe
decrypts = refl

decrypt_delivered_event-Names_example : Names delivery hello
decrypt_delivered_event-Names_example =
    decrypt_delivered_event-Names greeting_json digest receiving url_safe delivery peer decryption.1
      hello decrypts

abbrev direct : Result MlsError PlaintextEvent × MlsClient Bytes Unit
direct =
    decrypt_event_with_delivery greeting_json digest receiving 7 encrypted.mls_message none peer

direct_decrypts : direct ≡ (ok hello, direct.1)
unfolding decrypt_event_with_delivery check_incoming open_processed credential_device_id
    decode_provisional_json validate_event validate_delivery validate_and_record_incoming
    encrypt_event check_outgoing encode_provisional_json validate any is_blank all is_whitespace len
    get put retain
direct_decrypts = refl

decrypt_event_with_delivery-Authentic_example :
    Authentic greeting_json digest receiving 7 none peer direct.1 hello
decrypt_event_with_delivery-Authentic_example =
    decrypt_event_with_delivery-Authentic greeting_json digest receiving 7 encrypted.mls_message
      none peer direct.1 hello direct_decrypts

-- Groups whose messages are their bytes.
abbrev closed : Groups Bytes Unit
closed = record {
  MlsMessage = Bytes;
  KeyPackageIn = Bytes;
  KeyPackage = Bytes;
  Welcome = Bytes;
  StagedWelcome = Bytes;
  tls_deserialize_exact = λ b. some b;
  extract_key_package = λ b. some b;
  validate_key_package = λ b. some b;
  leaf_credential = λ b. record { is_basic = true; serialized_content = b };
  build_key_package = λ provider. (some (9 ∷ []), provider);
  key_package_to_bytes = λ b. some b;
  new_with_group_id = λ id provider. (some [], provider);
  add_members = λ k group provider. (some (k, k), group, provider);
  merge_pending_commit = λ group provider. (true, group, provider);
  to_bytes = λ b. some b;
  extract_welcome = λ b. some b;
  new_from_welcome = λ b provider. (some b, provider);
  into_group = λ b provider. (some b, provider);
  has_group_id = λ group id. true;
  has_ciphersuite = λ group. true;
  uuid_from_slice = device_of;
}

abbrev fresh : MlsClient Bytes Unit
fresh = record { device_id = 9; provider = tt; channels = [] }

fresh-TidyClient : TidyClient fresh
unfolding Distinct get
fresh-TidyClient = record { distinct = tt; tidy = λ channel_id state h. absurd (ground arith) }

abbrev talking : MlsClient Bytes Unit
talking =
    (encrypt_event greeting_json (print metadata_form) digest sending hello
      (create_channel closed 1 7 fresh).1).1

talking-Reach :
    Reach greeting_json (print metadata_form) digest sending receiving closed fresh talking
talking-Reach = follow (follow initial (creates 1 7)) (encrypts hello)

Reach-TidyClient_example : TidyClient talking
Reach-TidyClient_example =
    Reach-TidyClient greeting_json (print metadata_form) digest sending receiving closed fresh
      talking fresh-TidyClient talking-Reach
