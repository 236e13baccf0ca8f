-- ===== src/Protocol/Message.antt =====
-- crates/singularis-protocol/src/event.rs: `OpaqueMlsMessage`. The base64 crate is a parameter.
use singularis.Prelude.{
  ℕ, ◌+◌, ◌*◌, ◌/◌, ◌≤◌, ◌<◌, ◌≡◌, ◌↔◌, inl, inr, true, not, ◌||◌, Option, some, [], Result, ok,
  ◌>>=◌, ◌>>◌, ok_or, fail_if, All, length, is_empty, Text, Bytes, len, ltb, Eq, ◌==◌, list_eq,
  nat_eq, arith, Option-cases, subst,
}

abbrev pub max_mls_message_bytes : ℕ
max_mls_message_bytes = 256 * 1024

-- `MAX_MLS_MESSAGE_BYTES.div_ceil(3) * 4`
abbrev pub max_mls_message_base64_chars : ℕ
max_mls_message_base64_chars = (max_mls_message_bytes + 2) / 3 * 4

abbrev pub IsByte : ℕ → Type 0
IsByte b = b < 256

-- `base64::engine::general_purpose::URL_SAFE_NO_PAD`, as its crate documents it: decoding inverts
-- encoding, three bytes become at most four characters, and decoding yields bytes.
pub record Base64 : Type 0 where
  pub encode : Bytes → Text
  pub decode : Text → Option Bytes
  pub decode-encode : (b : Bytes) → All IsByte b → decode (encode b) ≡ some b
  pub decode_bytes : (s : Text) (b : Bytes) → decode s ≡ some b → All IsByte b
  pub len-encode : (b : Bytes) → len (encode b) ≤ (length b + 2) / 3 * 4
  pub encode_empty : (b : Bytes) → encode b ≡ [] → b ≡ []

pub data OpaqueMlsMessageError : Type 0 where
  empty too_large invalid_encoding : OpaqueMlsMessageError

pub record OpaqueMlsMessage : Type 0 where
  pub encoded : Text

pub message_beq_iff : (a b : OpaqueMlsMessage) → ((a.encoded == b.encoded) ≡ true) ↔ (a ≡ b)
message_beq_iff a b = ground (arith, (list_eq {A = ℕ}).beq_iff a.encoded b.encoded)

instance abbrev pub message_eq : Eq OpaqueMlsMessage
message_eq = record { beq = λ a b. a.encoded == b.encoded; beq_iff = message_beq_iff }

module _ (codec : Base64) where
  unfoldable pub from_bytes : Bytes → Result OpaqueMlsMessageError OpaqueMlsMessage
  from_bytes bytes = do
    fail_if (is_empty bytes) empty
    fail_if (ltb max_mls_message_bytes (length bytes)) too_large
    ok (record { encoded = codec.encode bytes })

  unfoldable pub decode : OpaqueMlsMessage → Result OpaqueMlsMessageError Bytes
  decode m = ok_or (codec.decode m.encoded) invalid_encoding

  -- Also the `Deserialize` implementation.
  unfoldable pub from_encoded : Text → Result OpaqueMlsMessageError OpaqueMlsMessage
  from_encoded encoded = do
    fail_if (is_empty encoded) empty
    fail_if (ltb max_mls_message_base64_chars (len encoded)) too_large
    decoded ← ok_or (codec.decode encoded) invalid_encoding
    fail_if (is_empty decoded || ltb max_mls_message_bytes (length decoded)) too_large
    fail_if (not (codec.encode decoded == encoded)) invalid_encoding
    ok (record { encoded = encoded })

  -- A message made from bytes decodes to them.
  pub decode-from_bytes :
      (b : Bytes) (m : OpaqueMlsMessage) → All IsByte b → from_bytes b ≡ ok m → decode m ≡ ok b
  unfolding from_bytes decode
  decode-from_bytes b m h e = ground (arith, codec.decode-encode b h)

  from_bytes-from_encoded :
      (s : Text) (m : OpaqueMlsMessage)
      → from_encoded s ≡ ok m
      → (b : Bytes) × All IsByte b × (from_bytes b ≡ ok m) × (m.encoded ≡ s)
  unfolding from_bytes from_encoded
  from_bytes-from_encoded s m h = elim (Option-cases (codec.decode s)) [
    | inl e ↦ absurd (ground arith)
    | inr (b, e) ↦ (
      b,
      codec.decode_bytes s b e,
      ground (arith, (list_eq {A = ℕ}).beq_iff (codec.encode b) s),
      ground arith,
    )
  ]

  from_encoded-from_bytes :
      (b : Bytes) (m : OpaqueMlsMessage)
      → All IsByte b
      → from_bytes b ≡ ok m
      → from_encoded m.encoded ≡ ok m
  unfolding from_bytes from_encoded
  from_encoded-from_bytes b m h e = ground (
    arith,
    codec.decode-encode b h,
    codec.len-encode b,
    codec.encode_empty b,
    (list_eq {A = ℕ}).beq_iff (codec.encode b) (codec.encode b),
  )

  -- The texts that deserialisation accepts are exactly the encodings of the byte strings that
  -- `from_bytes` accepts, and the message is the same.
  pub from_encoded_iff :
      (s : Text) (m : OpaqueMlsMessage)
      → (from_encoded s ≡ ok m)
        ↔ ((b : Bytes) × All IsByte b × (from_bytes b ≡ ok m) × (m.encoded ≡ s))
  from_encoded_iff s m = (
    from_bytes-from_encoded s m,
    λ p. subst (λ t. from_encoded t ≡ ok m) p.3 (from_encoded-from_bytes p.0 m p.1 p.2),
  )
