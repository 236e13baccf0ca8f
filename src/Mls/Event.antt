-- ===== src/Mls/Event.antt =====
-- crates/singularis-mls/src/event.rs: the plaintext of an event, its checks and its JSON form.
-- `serde_json` is a parameter.
use singularis.Prelude.{
  ℕ, ◌*◌, ◌<◌, ◌≡◌, Bool, false, not, ◌||◌, Option, none, some, [], ◌∷◌, Result, ok, ◌>>=◌, ◌>>◌,
  fail_if, ok_or, ltb, length, is_empty, any, Text, Bytes, is_blank, len, ◌==◌, nat_eq, ℤ,
  is_negative, arith, Option-cases, Result-cases, inl, inr,
}
use singularis.Protocol.Event.{EventId, Uuid}
use singularis.Mls.Error.{MlsError, invalid_payload, payload_encoding}

abbrev pub event_schema_version : ℕ
event_schema_version = 1

abbrev pub max_event_payload_bytes : ℕ
max_event_payload_bytes = 96 * 1024

abbrev pub max_text_bytes : ℕ
max_text_bytes = 64 * 1024

pub record EventReferences : Type 0 where
  pub reply_to : Option EventId
  pub replaces : Option EventId
  pub deletes : Option EventId

-- `EventContent`, with the body of `TextContent`.
pub data EventContent : Type 0 where
  text_content : Text → EventContent

-- A hash of 32 bytes is the number that they spell.
pub record PlaintextEvent : Type 0 where
  pub schema_version : ℕ
  pub event_id : EventId
  pub community_id : Uuid
  pub channel_id : Uuid
  pub sender_device_id : Uuid
  pub sender_counter : ℕ
  pub created_at_ms : ℤ
  pub previous_event_hash : Option ℕ
  pub references : EventReferences
  pub content : EventContent

abbrev pub refers_to : EventId → Option EventId → Bool
refers_to event_id none = false
refers_to event_id (some referenced) = referenced == event_id

abbrev pub is_bad_content : EventContent → Bool
is_bad_content (text_content body) = is_blank body || ltb max_text_bytes (len body)

unfoldable pub validate : PlaintextEvent → Result MlsError Unit
validate event = do
  fail_if (not (event.schema_version == event_schema_version))
      (invalid_payload "unsupported event schema version")
  fail_if (event.sender_counter == 0) (invalid_payload "sender counter must be positive")
  fail_if (is_negative event.created_at_ms)
      (invalid_payload "client timestamp must not be negative")
  fail_if
      (any (refers_to event.event_id)
        (event.references.reply_to ∷ event.references.replaces ∷ event.references.deletes ∷ []))
      (invalid_payload "event must not reference itself")
  fail_if (is_bad_content event.content) (invalid_payload "text body size is invalid")

-- `serde_json` on events: reading inverts writing, and a JSON text is not empty.
pub record EventJson : Type 0 where
  pub to_vec : PlaintextEvent → Option Bytes
  pub from_slice : Bytes → Option PlaintextEvent
  pub from_slice-to_vec :
      (event : PlaintextEvent) (b : Bytes) → to_vec event ≡ some b → from_slice b ≡ some event
  pub to_vec_nonempty : (event : PlaintextEvent) (b : Bytes) → to_vec event ≡ some b → 0 < length b

module _ (json : EventJson) where
  unfoldable pub encode_provisional_json : PlaintextEvent → Result MlsError Bytes
  encode_provisional_json event = do
    validate event
    encoded ← ok_or (json.to_vec event) payload_encoding
    fail_if (ltb max_event_payload_bytes (length encoded))
        (invalid_payload "event payload is too large")
    ok encoded

  unfoldable pub decode_provisional_json : Bytes → Result MlsError PlaintextEvent
  decode_provisional_json encoded = do
    fail_if (is_empty encoded || ltb max_event_payload_bytes (length encoded))
        (invalid_payload "event payload size is invalid")
    event ← ok_or (json.from_slice encoded) payload_encoding
    validate event
    ok event

  -- What a successful encoding writes, decoding reads back as the same event.
  pub decode-encode_provisional_json :
      (event : PlaintextEvent) (encoded : Bytes)
      → encode_provisional_json event ≡ ok encoded
      → decode_provisional_json encoded ≡ ok event
  unfolding encode_provisional_json decode_provisional_json
  decode-encode_provisional_json event encoded h = elim (Result-cases (validate event)) [
    | inr (e, k) ↦ absurd (ground arith)
    | inl (u, k) ↦ elim (Option-cases (json.to_vec event)) [
      | inl q ↦ absurd (ground arith)
      | inr ([], q) ↦ absurd (omega (arith, json.to_vec_nonempty event [] q))
      | inr (b ∷ bs, q) ↦ ground (arith, json.from_slice-to_vec event (b ∷ bs) q)
    ]
  ]
