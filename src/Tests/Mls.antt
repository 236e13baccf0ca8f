-- ===== src/Tests/Mls.antt =====
-- The sender chains at concrete inputs.
use singularis.Prelude.{
  ◌<◌, ◌&&◌, ◌==◌, nat_eq, option_eq, int_eq, list_eq, int_beq_iff, if◌then◌else◌, Bool-cases, inl,
  inr, ap, sym, ℕ, ◌≡◌, refl, [], ◌∷◌, Bool, true, text, Text, Bytes, arith, Result, ok, err,
  Option, none, some, length, get, put, retain, pos, any, is_blank, len, all, is_whitespace,
}
use singularis.Mls.Error.{MlsError, replay_detected}
use singularis.Mls.Event.{
  PlaintextEvent, EventContent, text_content, EventJson, validate, encode_provisional_json,
  decode_provisional_json, decode-encode_provisional_json,
}
use singularis.Mls.Chain.{
  ChannelState, OpenMls, MlsClient, EncryptedEvent, encrypt_event, check_outgoing,
  validate_and_record_incoming,
}
use singularis.Mls.Chain.Lockstep.{InStep, encrypt_event-InStep}
use singularis.Mls.Chain.Replay.{receive_all, accepted_once}
use singularis.Mls.Chain.Accepted.{accepted, Chained, of_sender, accepted-Chained}

-- A greeting in a community's channel, from a device.
abbrev pub greeting : ℕ → ℕ → ℕ → PlaintextEvent
greeting community channel device = record {
  schema_version = 1;
  event_id = 20;
  community_id = community;
  channel_id = channel;
  sender_device_id = device;
  sender_counter = 1;
  created_at_ms = pos 5;
  previous_event_hash = none;
  references = record { reply_to = none; replaces = none; deletes = none };
  content = text_content (text "Hallo");
}

abbrev pub hello : PlaintextEvent
hello = greeting 1 7 9

-- A wire form for the tests: the one greeting has one.
abbrev body_of : EventContent → Text
body_of (text_content body) = body

abbrev is_greeting : ℕ → ℕ → ℕ → PlaintextEvent → Bool
is_greeting community channel device e =
    e.schema_version == 1
    && e.event_id == 20
    && e.community_id == community
    && e.channel_id == channel
    && e.sender_device_id == device
    && e.sender_counter == 1
    && e.created_at_ms == pos 5
    && e.previous_event_hash == none
    && e.references.reply_to == none
    && e.references.replaces == none
    && e.references.deletes == none
    && body_of e.content == text "Hallo"

pub content-eq :
    (content : EventContent)
    → (body_of content == text "Hallo") ≡ true
    → content ≡ text_content (text "Hallo")
content-eq (text_content body) h =
    ap text_content (((list_eq {A = ℕ}).beq_iff body (text "Hallo")).0 h)

pub is_greeting-eq :
    (community channel device : ℕ) (e : PlaintextEvent)
    → is_greeting community channel device e ≡ true
    → e ≡ greeting community channel device
is_greeting-eq community channel device e h = ground (
  arith,
  int_beq_iff e.created_at_ms (pos 5),
  content-eq e.content,
  (option_eq {A = ℕ}).beq_iff e.previous_event_hash none,
  (option_eq {A = ℕ}).beq_iff e.references.reply_to none,
  (option_eq {A = ℕ}).beq_iff e.references.replaces none,
  (option_eq {A = ℕ}).beq_iff e.references.deletes none,
)

abbrev write_greeting : ℕ → ℕ → ℕ → PlaintextEvent → Option Bytes
write_greeting community channel device e =
    if is_greeting community channel device e then some (b'h' ∷ []) else none

pub write_greeting-eq :
    (community channel device : ℕ) (e : PlaintextEvent) (b : Bytes)
    → write_greeting community channel device e ≡ some b
    → (e ≡ greeting community channel device) × (b ≡ b'h' ∷ [])
write_greeting-eq community channel device e b h =
    elim (Bool-cases (is_greeting community channel device e)) [
      | inl k ↦ (is_greeting-eq community channel device e k, ground arith)
      | inr k ↦ absurd (ground arith)
    ]

pub written-nonempty :
    (community channel device : ℕ) (e : PlaintextEvent) (b : Bytes)
    → write_greeting community channel device e ≡ some b
    → 0 < length b
written-nonempty community channel device e b h =
    ground (arith, (write_greeting-eq community channel device e b h).1)

abbrev pub json_of : ℕ → ℕ → ℕ → EventJson
json_of community channel device = record {
  to_vec = write_greeting community channel device;
  from_slice = λ b. some (greeting community channel device);
  from_slice-to_vec = λ e b h. ap some (sym (write_greeting-eq community channel device e b h).0);
  to_vec_nonempty = λ e b h. written-nonempty community channel device e b h;
}

abbrev pub greeting_json : EventJson
greeting_json = json_of 1 7 9

abbrev pub digest : Bytes → ℕ
digest b = length b

abbrev plain : OpenMls Unit Unit
plain = record {
  set_aad = λ aad group. group;
  create_message = λ b group provider. (some b, group, provider);
  to_bytes = λ b. some b;
}

abbrev channel : ChannelState Unit
channel = record {
  community_id = 1;
  group = tt;
  outgoing_chain = none;
  incoming_chains = [];
  seen_event_ids = [];
}

abbrev client : MlsClient Unit Unit
client = record { device_id = 9; provider = tt; channels = (7, channel) ∷ [] }

written : encode_provisional_json greeting_json hello ≡ ok (b'h' ∷ [])
unfolding encode_provisional_json validate any is_blank all is_whitespace len
written = refl

decode-encode_provisional_json_example :
    decode_provisional_json greeting_json (b'h' ∷ []) ≡ ok hello
decode-encode_provisional_json_example =
    decode-encode_provisional_json greeting_json hello (b'h' ∷ []) written

abbrev received : ChannelState Unit
received = record {
  community_id = 1;
  group = tt;
  outgoing_chain = none;
  incoming_chains = (9, record { counter = 1; event_hash = 1 }) ∷ [];
  seen_event_ids = (20, tt) ∷ [];
}

receives : validate_and_record_incoming greeting_json digest hello channel ≡ ok received
unfolding validate_and_record_incoming encode_provisional_json validate any is_blank all
    is_whitespace len get put retain
receives = refl

accepted_once_example :
    validate_and_record_incoming greeting_json digest hello
      (receive_all greeting_json digest (hello ∷ []) received)
    ≡ err replay_detected
accepted_once_example =
    accepted_once greeting_json digest hello hello (hello ∷ []) channel received receives refl

no_chain : get 9 channel.incoming_chains ≡ none
unfolding get
no_chain = refl

-- The greeting twice: it is accepted once.
accepts_once : accepted greeting_json digest (hello ∷ hello ∷ []) channel ≡ hello ∷ []
unfolding accepted validate_and_record_incoming encode_provisional_json validate any is_blank all
    is_whitespace len get put retain
accepts_once = refl

accepted-Chained_example :
    Chained greeting_json digest 1 none
      (of_sender 9 (accepted greeting_json digest (hello ∷ hello ∷ []) channel))
accepted-Chained_example =
    accepted-Chained greeting_json digest 9 (hello ∷ hello ∷ []) channel no_chain

abbrev encryption : Result MlsError EncryptedEvent × MlsClient Unit Unit
encryption = encrypt_event greeting_json (λ m. some []) digest plain hello client

encrypts : encryption ≡ (
  ok (record {
    event_id = 20;
    community_id = 1;
    channel_id = 7;
    sender_device_id = 9;
    sender_counter = 1;
    mls_message = b'h' ∷ [];
  }),
  encryption.1,
)
unfolding encrypt_event check_outgoing encode_provisional_json validate any is_blank all
    is_whitespace len get put retain
encrypts = refl

encrypt_event-InStep_example :
    (sender' : ChannelState Unit) × (receiver' : ChannelState Unit) × (get 7 encryption.1.channels
      ≡ some sender')
    × (validate_and_record_incoming greeting_json digest hello channel ≡ ok receiver')
    × InStep greeting_json (λ m. some []) digest plain encryption.1.device_id sender' receiver'
unfolding get put
encrypt_event-InStep_example =
    encrypt_event-InStep greeting_json (λ m. some []) digest plain hello client encryption.1 _
      channel channel refl (refl, λ id h. h) encrypts
