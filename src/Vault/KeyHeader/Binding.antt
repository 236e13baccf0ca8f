-- ===== src/Vault/KeyHeader/Binding.antt =====
-- What the wrapped key is bound to, and which key derivations a header can ask for.
use singularis.Prelude.{
  ℕ, zero, suc, sym, ◌∙◌, ◌+◌, ◌*◌, ◌^◌, ◌<◌, ◌≤◌, ◌≡◌, refl, false, not, [], ◌∷◌, ok, ok_or, ltb,
  length, Text, Bytes, len, arith, ap, Bool-cases, Option-cases, Result-cases, inl, inr, >>=-eq-ok,
  nat_eq, list_eq,
}
use singularis.Protocol.Message.{Base64}
use singularis.Vault.Error.{corrupt_state}
use singularis.Vault.KeyHeader.{
  Ciphers, HeaderJson, KeyHeader, KdfHeader, unlock, open_header, decode_array, derive_wrapping_key,
  associated_data, validate_header, in_range, salt_len, max_passphrase_bytes, to_le_bytes,
  default_memory_kib, max_memory_kib, default_iterations, max_iterations, default_lanes, max_lanes,
}

-- The numbers of a header are those of a `u32`.
abbrev pub IsU32s : KdfHeader → Type 0
IsU32s kdf =
    (kdf.version < 2 ^ 32)
    × (kdf.memory_kib < 2 ^ 32)
    × (kdf.iterations < 2 ^ 32)
    × (kdf.lanes < 2 ^ 32)

abbrev pub SameNumbers : KdfHeader → KdfHeader → Type 0
SameNumbers kdf kdf' =
    (kdf.version ≡ kdf'.version)
    × (kdf.memory_kib ≡ kdf'.memory_kib)
    × (kdf.iterations ≡ kdf'.iterations)
    × (kdf.lanes ≡ kdf'.lanes)

-- `u32::from_le_bytes` of the first four bytes, and what follows them.
abbrev word : Bytes → ℕ
word (a ∷ b ∷ c ∷ d ∷ rest) = a + 256 * b + 65536 * c + 16777216 * d
word rest = 0

abbrev after : ℕ → Bytes → Bytes
after zero rest = rest
after (suc n) [] = []
after (suc n) (b ∷ rest) = after n rest

word-to_le_bytes : (n : ℕ) → n < 2 ^ 32 → word (to_le_bytes n) ≡ n
word-to_le_bytes n h = omega arith

word-injective :
    (m n : ℕ) → m < 2 ^ 32 → n < 2 ^ 32 → word (to_le_bytes m) ≡ word (to_le_bytes n) → m ≡ n
word-injective m n h k e = sym (word-to_le_bytes m h) ∙ e ∙ word-to_le_bytes n k

-- Two headers with the same associated data have the same version, parameters and salt.
pub associated_data-injective :
    (version version' : ℕ) (kdf kdf' : KdfHeader) (salt salt' : Bytes)
    → version < 2 ^ 32
    → version' < 2 ^ 32
    → IsU32s kdf
    → IsU32s kdf'
    → associated_data version kdf salt ≡ associated_data version' kdf' salt'
    → (version ≡ version') × SameNumbers kdf kdf' × (salt ≡ salt')
unfolding associated_data
associated_data-injective version version' kdf kdf' salt salt' v v' (a, b, c, d) (a', b', c', d')
      h =
    let same : (n : ℕ) → _ = λ n. ap (λ bytes. word (after n bytes)) h in
    (
      word-injective version version' v v' (same 21),
      (
        word-injective kdf.version kdf'.version a a' (same 25),
        word-injective kdf.memory_kib kdf'.memory_kib b b' (same 29),
        word-injective kdf.iterations kdf'.iterations c c' (same 33),
        word-injective kdf.lanes kdf'.lanes d d' (same 37),
      ),
      ap (after 41) h,
    )

-- Parameters that a header may ask for.
abbrev pub InBounds : ℕ → ℕ → ℕ → Type 0
InBounds memory_kib iterations lanes =
    ((default_memory_kib ≤ memory_kib) × (memory_kib ≤ max_memory_kib))
    × ((default_iterations ≤ iterations) × (iterations ≤ max_iterations))
    × ((default_lanes ≤ lanes) × (lanes ≤ max_lanes))

in_range-≤ : (low high n : ℕ) → not (in_range low high n) ≡ false → (low ≤ n) × (n ≤ high)
in_range-≤ low high n h = (ground arith, ground arith)

pub validate_header-InBounds :
    (header : KeyHeader)
    → validate_header header ≡ ok tt
    → InBounds header.kdf.memory_kib header.kdf.iterations header.kdf.lanes
unfolding validate_header
validate_header-InBounds header h = (
  in_range-≤ default_memory_kib max_memory_kib header.kdf.memory_kib (ground arith),
  in_range-≤ default_iterations max_iterations header.kdf.iterations (ground arith),
  in_range-≤ default_lanes max_lanes header.kdf.lanes (ground arith),
)

length-decode_array :
    (codec : Base64) (n : ℕ) (encoded : Text) (b : Bytes)
    → decode_array codec n encoded ≡ ok b
    → length b ≡ n
unfolding decode_array
length-decode_array codec n encoded b h =
    let (decoded, e, h₁) = >>=-eq-ok (ok_or (codec.decode encoded) corrupt_state) _ h in
    ground arith

module _ (codec : Base64) (json : HeaderJson) (first second : Ciphers)
    (same_decrypt : (k n a c : Bytes) → first.decrypt k n a c ≡ second.decrypt k n a c)
    (same_are_params : (m i l : ℕ)
      → InBounds m i l
      → first.are_params m i l ≡ second.are_params m i l)
    (same_hash : (p : Text) (salt : Bytes) (m i l : ℕ)
      → len p ≤ max_passphrase_bytes
      → length salt ≡ salt_len
      → InBounds m i l
      → first.hash_password p salt m i l ≡ second.hash_password p salt m i l) where
  derive_wrapping_key-InBounds :
      (passphrase : Text) (salt : Bytes) (kdf : KdfHeader)
      → len passphrase ≤ max_passphrase_bytes
      → length salt ≡ salt_len
      → InBounds kdf.memory_kib kdf.iterations kdf.lanes
      → derive_wrapping_key first passphrase salt kdf
        ≡ derive_wrapping_key second passphrase salt kdf
  unfolding derive_wrapping_key
  derive_wrapping_key-InBounds passphrase salt kdf short size bounded =
      rw
        (
          same_are_params kdf.memory_kib kdf.iterations kdf.lanes bounded,
          same_hash passphrase salt kdf.memory_kib kdf.iterations kdf.lanes short size bounded,
        )
        refl

  open_header-InBounds :
      (header : KeyHeader) (passphrase : Text)
      → len passphrase ≤ max_passphrase_bytes
      → InBounds header.kdf.memory_kib header.kdf.iterations header.kdf.lanes
      → open_header first codec json header passphrase
        ≡ open_header second codec json header passphrase
  unfolding open_header
  open_header-InBounds header passphrase short bounded =
      elim (Result-cases (decode_array codec salt_len header.kdf.salt)) [
        | inr (error, e) ↦ rw e refl
        | inl (salt, e) ↦ simp (
          e,
          derive_wrapping_key-InBounds passphrase salt header.kdf short
              (length-decode_array codec salt_len header.kdf.salt salt e) bounded,
          same_decrypt,
        )
      ]

  -- Unlocking derives keys within the bounds only: two key derivations that agree on passphrases of
  -- at most 1024 bytes, salts of 16 and parameters in bounds unlock every header alike.
  pub unlock-InBounds :
      (header_bytes : Bytes) (passphrase : Text)
      → unlock first codec json header_bytes passphrase
        ≡ unlock second codec json header_bytes passphrase
  unfolding unlock
  unlock-InBounds header_bytes passphrase =
      elim (Bool-cases (ltb max_passphrase_bytes (len passphrase))) [
        | inl e ↦ ground arith
        | inr e ↦ elim (Option-cases (json.from_slice header_bytes)) [
          | inl k ↦ ground arith
          | inr (header, k) ↦ elim (Result-cases (validate_header header)) [
            | inr (error, v) ↦ ground arith
            | inl (u, v) ↦
                rw
                  (
                    e,
                    k,
                    v,
                    open_header-InBounds header passphrase (ground arith)
                        (validate_header-InBounds header v),
                  )
                  refl
          ]
        ]
      ]
