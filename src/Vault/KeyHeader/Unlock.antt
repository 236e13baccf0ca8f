-- ===== src/Vault/KeyHeader/Unlock.antt =====
-- A header that was created opens with its passphrase.
use singularis.Prelude.{
  ℕ, ◌+◌, ◌≡◌, refl, false, Option, some, [], ok, >>=-eq-ok, ok_value, ok_or-ok, ok_or, ltb, length,
  All, Text, Bytes, len, arith, ap, sym, ◌∙◌,
}
use singularis.Protocol.Message.{Base64, IsByte}
use singularis.Vault.Error.{crypto, metadata}
use singularis.Vault.KeyHeader.{
  Ciphers, HeaderJson, Draws, create, unlock, open_header, header_of, default_kdf, decode_array,
  derive_wrapping_key, check_key, associated_data, validate_header, validate_new_passphrase,
  salt_len, nonce_len, data_key_len, wrapped_key_len, header_version, max_passphrase_bytes,
}

-- A buffer of so many bytes, when it is filled.
abbrev pub Fills : ℕ → Option Bytes → Type 0
Fills n drawn = (b : Bytes) → drawn ≡ some b → (length b ≡ n) × All IsByte b

decode_array-encode :
    (codec : Base64) (n : ℕ) (b : Bytes)
    → All IsByte b
    → length b ≡ n
    → decode_array codec n (codec.encode b) ≡ ok b
unfolding decode_array
decode_array-encode codec n b bytes size = ground (arith, codec.decode-encode b bytes)

validate_new_passphrase-len :
    (passphrase : Text)
    → validate_new_passphrase passphrase ≡ ok tt
    → ltb max_passphrase_bytes (len passphrase) ≡ false
unfolding validate_new_passphrase
validate_new_passphrase-len passphrase h = ground arith

module _ (ciphers : Ciphers) (codec : Base64) (json : HeaderJson) where
  -- A successful creation, taken apart.
  pub record Created (draws : Draws) (passphrase : Text) (header key : Bytes) : Type 0 where
    pub salt : Bytes
    pub nonce : Bytes
    pub wrapping_key : Bytes
    pub wrapped_key : Bytes
    pub strong : validate_new_passphrase passphrase ≡ ok tt
    pub drew_salt : draws.salt ≡ some salt
    pub drew_nonce : draws.nonce ≡ some nonce
    pub drew_key : draws.data_key ≡ some key
    pub derived :
        derive_wrapping_key ciphers passphrase salt (default_kdf codec salt) ≡ ok wrapping_key
    pub fits : check_key ciphers wrapping_key ≡ ok tt
    pub wrapped :
        ciphers.encrypt wrapping_key nonce
          (associated_data header_version (default_kdf codec salt) salt)
          key
        ≡ some wrapped_key
    pub written : json.to_vec_pretty (header_of codec salt nonce wrapped_key) ≡ some header

  pub create-Created :
      (draws : Draws) (passphrase : Text) (header key : Bytes)
      → create ciphers codec json draws passphrase ≡ ok (header, key)
      → Created draws passphrase header key
  unfolding create
  create-Created draws passphrase header key h =
      let (_, strong, h₁) = >>=-eq-ok (validate_new_passphrase passphrase) _ h in
      let (salt, e₁, h₂) = >>=-eq-ok (ok_or draws.salt crypto) _ h₁ in
      let (nonce, e₂, h₃) = >>=-eq-ok (ok_or draws.nonce crypto) _ h₂ in
      let (data_key, e₃, h₄) = >>=-eq-ok (ok_or draws.data_key crypto) _ h₃ in
      let (wrapping_key, e₄, h₅) =
        >>=-eq-ok (derive_wrapping_key ciphers passphrase salt (default_kdf codec salt)) _ h₄ in
      let (_, e₅, h₆) = >>=-eq-ok (check_key ciphers wrapping_key) _ h₅ in
      let (wrapped_key, e₆, h₇) =
        >>=-eq-ok
          (ok_or
            (ciphers.encrypt wrapping_key nonce
              (associated_data header_version (default_kdf codec salt) salt) data_key)
            crypto)
          _ h₆ in
      let (encoded, e₇, h₈) =
        >>=-eq-ok (ok_or (json.to_vec_pretty (header_of codec salt nonce wrapped_key)) metadata) _
          h₇ in
      let same = ap (ok_value ([], [])) h₈ in
      record {
        salt = salt;
        nonce = nonce;
        wrapping_key = wrapping_key;
        wrapped_key = wrapped_key;
        strong = strong;
        drew_salt = ok_or-ok crypto draws.salt e₁;
        drew_nonce = ok_or-ok crypto draws.nonce e₂;
        drew_key = ok_or-ok crypto draws.data_key e₃ ∙ ap (λ r. some r.1) same;
        derived = e₄;
        fits = e₅;
        wrapped =
            ap
              (ciphers.encrypt wrapping_key nonce
                (associated_data header_version (default_kdf codec salt) salt))
              (sym (ap (λ r. r.1) same))
            ∙ ok_or-ok crypto _ e₆;
        written = ok_or-ok metadata _ e₇ ∙ ap (λ r. some r.0) same;
      }

  -- A key that was created is found again: the header opens with the passphrase that it was created
  -- with, and yields the same key.
  pub unlock-create :
      (draws : Draws) (passphrase : Text) (header key : Bytes)
      → Fills salt_len draws.salt
      → Fills nonce_len draws.nonce
      → Fills data_key_len draws.data_key
      → create ciphers codec json draws passphrase ≡ ok (header, key)
      → unlock ciphers codec json header passphrase ≡ ok key
  unfolding unlock open_header validate_header
  unlock-create draws passphrase header key salt_fills nonce_fills key_fills h =
      let c = create-Created draws passphrase header key h in
      let made = header_of codec c.salt c.nonce c.wrapped_key in
      let (salt_size, salt_bytes) = salt_fills c.salt c.drew_salt in
      let (nonce_size, nonce_bytes) = nonce_fills c.nonce c.drew_nonce in
      let (key_size, key_bytes) = key_fills key c.drew_key in
      rw
        (
          validate_new_passphrase-len passphrase c.strong,
          json.from_slice-to_vec_pretty made header c.written,
          decode_array-encode codec salt_len c.salt salt_bytes salt_size,
          decode_array-encode codec nonce_len c.nonce nonce_bytes nonce_size,
          decode_array-encode codec wrapped_key_len c.wrapped_key
              (ciphers.encrypt_bytes _ _ _ _ _ c.wrapped)
              (ciphers.length-encrypt _ _ _ _ _ c.wrapped ∙ ap (λ n. n + 16) key_size),
          c.derived,
          c.fits,
          ciphers.decrypt-encrypt _ _ _ _ _ c.wrapped,
          key_size,
        )
        refl
