-- ===== src/Vault/KeyHeader/Tampering.antt =====
-- A header that carries another header's wrapped key.
use singularis.Prelude.{
  ℕ, ◌≡◌, ◌≢◌, ◌⊎◌, refl, sym, ap, ◌∙◌, subst, Option, none, some, [], ok, ok_or, ok_or-ok,
  ok_value, fail_if, ltb, length, Text, Bytes, len, arith, inl, inr, Bool-cases, Option-cases, All,
  >>=-eq-ok, nat_eq, list_eq, not, eqb, ◌==◌,
}
use singularis.Protocol.Message.{Base64, IsByte}
use singularis.Vault.Error.{corrupt_state, authentication_failed}
use singularis.Vault.Rows.{text_iff}
use singularis.Vault.KeyHeader.{
  Ciphers, HeaderJson, Draws, KeyHeader, create, unlock, open_header, header_of, default_kdf,
  decode_array, derive_wrapping_key, check_key, associated_data, validate_header, header_version,
  salt_len, nonce_len, wrapped_key_len, data_key_len, max_passphrase_bytes,
}
use singularis.Vault.KeyHeader.Unlock.{create-Created}
use singularis.Vault.KeyHeader.Binding.{
  IsU32s, SameNumbers, associated_data-injective, validate_header-InBounds,
}

validate_header-IsU32s :
    (header : KeyHeader)
    → validate_header header ≡ ok tt
    → (header.version ≡ header_version) × IsU32s header.kdf
unfolding validate_header
validate_header-IsU32s header h =
    let ((_, memory), (_, iterations), (_, lanes)) = validate_header-InBounds header h in
    (ground arith, (ground arith, omega arith, omega arith, omega arith))

decode_array-decode :
    (codec : Base64) (n : ℕ) (encoded : Text) (b : Bytes)
    → decode_array codec n encoded ≡ ok b
    → codec.decode encoded ≡ some b
unfolding decode_array
decode_array-decode codec n encoded b h = elim (Option-cases (codec.decode encoded)) [
  | inl e ↦ absurd (ground arith)
  | inr (d, e) ↦ ground arith
]

abbrev default : Bytes → Option Bytes → Bytes
default b none = b
default b (some c) = c

abbrev unwrap_or : KeyHeader → Option KeyHeader → KeyHeader
unwrap_or header none = header
unwrap_or header (some read) = read

module _ (ciphers : Ciphers) (codec : Base64) (json : HeaderJson) where
  -- What the decryption of a header that opened was given.
  record Opened (header : KeyHeader) (key : Bytes) : Type 0 where
    salt : Bytes
    nonce : Bytes
    wrapped_key : Bytes
    wrapping_key : Bytes
    valid : validate_header header ≡ ok tt
    has_salt : decode_array codec salt_len header.kdf.salt ≡ ok salt
    has_key : decode_array codec wrapped_key_len header.wrapped_key ≡ ok wrapped_key
    opened :
        ciphers.decrypt wrapping_key nonce
          (associated_data header.version header.kdf salt)
          wrapped_key
        ≡ some key

  unlock-Opened :
      (header_bytes : Bytes) (passphrase : Text) (key : Bytes)
      → unlock ciphers codec json header_bytes passphrase ≡ ok key
      → (header : KeyHeader) × (json.from_slice header_bytes ≡ some header) × Opened header key
  unfolding unlock open_header
  unlock-Opened header_bytes passphrase key h =
      let (_, _, h₀) =
        >>=-eq-ok (fail_if (ltb max_passphrase_bytes (len passphrase)) authentication_failed) _ h in
      let (header, e₀, g₀) = >>=-eq-ok (ok_or (json.from_slice header_bytes) corrupt_state) _ h₀ in
      let (_, valid, h₁) = >>=-eq-ok (validate_header header) _ g₀ in
      let (salt, e₁, h₂) = >>=-eq-ok (decode_array codec salt_len header.kdf.salt) _ h₁ in
      let (nonce, _, h₃) = >>=-eq-ok (decode_array codec nonce_len header.nonce) _ h₂ in
      let (wrapped_key, e₂, h₄) =
        >>=-eq-ok (decode_array codec wrapped_key_len header.wrapped_key) _ h₃ in
      let (wrapping_key, _, h₅) =
        >>=-eq-ok (derive_wrapping_key ciphers passphrase salt header.kdf) _ h₄ in
      let (_, _, h₆) = >>=-eq-ok (check_key ciphers wrapping_key) _ h₅ in
      let (plaintext, e₃, h₇) =
        >>=-eq-ok
          (ok_or
            (ciphers.decrypt wrapping_key nonce (associated_data header.version header.kdf salt)
              wrapped_key)
            authentication_failed)
          _ h₆ in
      let (_, _, h₈) =
        >>=-eq-ok (fail_if (not (eqb (length plaintext) data_key_len)) authentication_failed) _
          h₇ in
      (
        header,
        ok_or-ok corrupt_state _ e₀,
        record {
          salt = salt;
          nonce = nonce;
          wrapped_key = wrapped_key;
          wrapping_key = wrapping_key;
          valid = valid;
          has_salt = e₁;
          has_key = e₂;
          opened = ok_or-ok authentication_failed _ e₃ ∙ ap (λ r. some (ok_value [] r)) h₈;
        },
      )

  -- A sealed text opens under other associated data than it was sealed with.
  abbrev pub Forged : Bytes → Bytes → Type 0
  Forged associated sealed =
      (k : Bytes) × (n : Bytes) × (other : Bytes) × (m : Bytes) × (ciphers.decrypt k n other sealed
        ≡ some m)
      × (other ≢ associated)

  -- The header agrees with another one in what a wrapped key is bound to.
  abbrev pub Agrees : KeyHeader → Bytes → KeyHeader → Type 0
  Agrees header salt other =
      (other.version ≡ header.version)
      × SameNumbers other.kdf header.kdf
      × (codec.decode other.kdf.salt ≡ some salt)

  Agrees-Forged :
      (salt nonce wrapped_key : Bytes) (other : KeyHeader) (other_key : Bytes)
      → All IsByte wrapped_key
      → other.wrapped_key ≡ codec.encode wrapped_key
      → Opened other other_key
      → Agrees (header_of codec salt nonce wrapped_key) salt other
        ⊎ Forged (associated_data header_version (default_kdf codec salt) salt) wrapped_key
  unfolding decode_array
  Agrees-Forged salt nonce wrapped_key other other_key bytes same o =
      let (version, small) = validate_header-IsU32s other o.valid in
      let sealed : o.wrapped_key ≡ wrapped_key = ap (default []) (
        sym (decode_array-decode codec wrapped_key_len other.wrapped_key o.wrapped_key o.has_key)
        ∙ ap codec.decode same
        ∙ codec.decode-encode wrapped_key bytes) in
      let associated = associated_data header_version (default_kdf codec salt) salt in
      let of_other = associated_data other.version other.kdf o.salt in
      elim (Bool-cases (of_other == associated)) [
        | inl e ↦
            let (same_version, same_numbers, same_salt) =
              associated_data-injective other.version header_version other.kdf
                (default_kdf codec salt) o.salt salt (rw version (omega arith)) (omega arith) small
                (omega arith, omega arith, omega arith, omega arith)
                ((text_iff of_other associated).0 e) in
            inl (
              same_version,
              same_numbers,
              decode_array-decode codec salt_len other.kdf.salt o.salt o.has_salt
                  ∙ ap some same_salt,
            )
        | inr e ↦ inr (
          o.wrapping_key,
          o.nonce,
          of_other,
          other_key,
          ap (ciphers.decrypt o.wrapping_key o.nonce of_other) (sym sealed) ∙ o.opened,
          λ q. absurd (ground (arith, (text_iff of_other associated).1 q)),
        )
      ]

  -- What the wrapped key of a header is bound to, for a header that was unlocked with it.
  abbrev pub Binds : Bytes → KeyHeader → KeyHeader → Type 0
  Binds key other header =
      (salt : Bytes) × (nonce : Bytes) × (wrapping_key : Bytes) × (wrapped_key : Bytes)
      × (header.kdf.salt ≡ codec.encode salt)
      × (header.wrapped_key ≡ codec.encode wrapped_key)
      × (ciphers.encrypt wrapping_key nonce (associated_data header.version header.kdf salt) key
          ≡ some wrapped_key)
      × (Agrees header salt other
          ⊎ Forged (associated_data header.version header.kdf salt) wrapped_key)

  -- The wrapped key of a header that was created is bound to the header's version, derivation
  -- parameters and salt: it was sealed with their encoding, and where another header with the same
  -- wrapped key is unlocked, with whatever passphrase, either that header agrees in all of these, or
  -- the cipher has opened the wrapped key under associated data that it was not sealed with.
  pub unlock-Binds :
      (draws : Draws) (passphrase : Text) (header_bytes key : Bytes) (header : KeyHeader)
      (other_bytes : Bytes) (other : KeyHeader) (other_passphrase : Text) (other_key : Bytes)
      → create ciphers codec json draws passphrase ≡ ok (header_bytes, key)
      → json.from_slice header_bytes ≡ some header
      → json.from_slice other_bytes ≡ some other
      → other.wrapped_key ≡ header.wrapped_key
      → unlock ciphers codec json other_bytes other_passphrase ≡ ok other_key
      → Binds key other header
  unlock-Binds draws passphrase header_bytes key header other_bytes other other_passphrase other_key
        h read other_read same_wrapped opens =
      let c = create-Created ciphers codec json draws passphrase header_bytes key h in
      let made = sym (
        ap (unwrap_or header) (
          sym read
          ∙ json.from_slice-to_vec_pretty (header_of codec c.salt c.nonce c.wrapped_key)
              header_bytes c.written)) in
      let (found, found_read, o) = unlock-Opened other_bytes other_passphrase other_key opens in
      let same = ap (unwrap_or other) (sym found_read ∙ other_read) in
      subst (Binds key other) made (
        c.salt,
        c.nonce,
        c.wrapping_key,
        c.wrapped_key,
        refl,
        refl,
        c.wrapped,
        Agrees-Forged c.salt c.nonce c.wrapped_key other other_key
            (ciphers.encrypt_bytes _ _ _ _ _ c.wrapped)
            (same_wrapped ∙ sym (ap (λ k. k.wrapped_key) made))
            (subst (λ k. Opened k other_key) same o),
      )
