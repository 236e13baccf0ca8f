-- ===== src/Vault/KeyHeader.antt =====
-- crates/singularis-vault/src/key_header.rs: the file that keeps the database's key, wrapped under the
-- passphrase. The cipher, the key derivation, base64 and serde_json are parameters; what the random
-- source draws is an argument.

pub mod Unlock
pub mod Binding
pub mod Tampering
use singularis.Prelude.{
  ℕ, ◌+◌, ◌*◌, ◌/◌, ◌%◌, ◌^◌, ◌≤◌, ◌≡◌, Bool, true, false, not, ◌&&◌, ◌||◌, Option, none, some,
  List, [], ◌∷◌, ◌++◌, Result, ok, err, ◌>>=◌, ◌>>◌, fail_if, ok_or, ltb, leb, eqb, length, All,
  Text, Bytes, text, len, ◌==◌, nat_eq, list_eq,
}
use singularis.Protocol.Message.{Base64, IsByte}
use singularis.Vault.Error.{
  VaultError, crypto, corrupt_state, unsupported_version, weak_passphrase, authentication_failed,
  metadata,
}

abbrev pub magic_text : Text
magic_text = text "singularis-vault-key"

abbrev pub header_version : ℕ
header_version = 1

abbrev pub argon2_version : ℕ
argon2_version = 0x13

abbrev pub data_key_len : ℕ
data_key_len = 32

abbrev pub salt_len : ℕ
salt_len = 16

abbrev pub nonce_len : ℕ
nonce_len = 24

abbrev pub wrapped_key_len : ℕ
wrapped_key_len = data_key_len + 16

abbrev pub default_memory_kib : ℕ
default_memory_kib = 64 * 1024

abbrev pub default_iterations : ℕ
default_iterations = 3

abbrev pub default_lanes : ℕ
default_lanes = 1

abbrev pub max_memory_kib : ℕ
max_memory_kib = 1024 * 1024

abbrev pub max_iterations : ℕ
max_iterations = 10

abbrev pub max_lanes : ℕ
max_lanes = 16

abbrev pub max_passphrase_bytes : ℕ
max_passphrase_bytes = 1024

pub record KdfHeader : Type 0 where
  pub algorithm : Text
  pub version : ℕ
  pub memory_kib : ℕ
  pub iterations : ℕ
  pub lanes : ℕ
  pub salt : Text

pub record KeyHeader : Type 0 where
  pub magic : Text
  pub version : ℕ
  pub kdf : KdfHeader
  pub nonce : Text
  pub wrapped_key : Text

-- What the random source draws; nothing, when it fails.
pub record Draws : Type 0 where
  pub salt : Option Bytes
  pub nonce : Option Bytes
  pub data_key : Option Bytes

-- XChaCha20-Poly1305 and Argon2id as their crates document them: decryption under the same key, nonce
-- and associated data inverts encryption, which yields bytes and adds a tag of 16 of them; the key
-- derivation fills the 32 bytes that it is asked for.
pub record Ciphers : Type 0 where
  pub encrypt : (key nonce associated message : Bytes) → Option Bytes
  pub decrypt : (key nonce associated sealed : Bytes) → Option Bytes
  pub are_params : (memory_kib iterations lanes : ℕ) → Bool
  pub hash_password : Text → Bytes → (memory_kib iterations lanes : ℕ) → Option Bytes
  pub decrypt-encrypt : (k n a m c : Bytes) → encrypt k n a m ≡ some c → decrypt k n a c ≡ some m
  pub length-encrypt : (k n a m c : Bytes) → encrypt k n a m ≡ some c → length c ≡ length m + 16
  pub encrypt_bytes : (k n a m c : Bytes) → encrypt k n a m ≡ some c → All IsByte c
  pub length-hash_password :
      (p : Text) (salt : Bytes) (m i l : ℕ) (k : Bytes)
      → hash_password p salt m i l ≡ some k
      → length k ≡ data_key_len

-- serde_json on headers: reading inverts writing.
pub record HeaderJson : Type 0 where
  pub to_vec_pretty : KeyHeader → Option Bytes
  pub from_slice : Bytes → Option KeyHeader
  pub from_slice-to_vec_pretty :
      (header : KeyHeader) (b : Bytes) → to_vec_pretty header ≡ some b → from_slice b ≡ some header

-- `u32::to_le_bytes`
abbrev pub to_le_bytes : ℕ → Bytes
to_le_bytes n = n % 256 ∷ n / 256 % 256 ∷ n / 65536 % 256 ∷ n / 16777216 % 256 ∷ []

unfoldable pub associated_data : ℕ → KdfHeader → Bytes → Bytes
associated_data version kdf salt =
    magic_text
    ++ 0 ∷ to_le_bytes version
    ++ to_le_bytes kdf.version
    ++ to_le_bytes kdf.memory_kib
    ++ to_le_bytes kdf.iterations
    ++ to_le_bytes kdf.lanes
    ++ salt

unfoldable pub validate_new_passphrase : Text → Result VaultError Unit
validate_new_passphrase passphrase =
    fail_if (ltb (length passphrase) 12 || ltb max_passphrase_bytes (len passphrase))
      weak_passphrase

abbrev pub in_range : ℕ → ℕ → ℕ → Bool
in_range low high n = leb low n && leb n high

unfoldable pub validate_header : KeyHeader → Result VaultError Unit
validate_header header = do
  fail_if (not (header.magic == magic_text) || not (header.kdf.algorithm == text "argon2id"))
      corrupt_state
  fail_if (not (header.version == header_version)) (unsupported_version header.version)
  fail_if
      (not (header.kdf.version == argon2_version)
        || not (in_range default_memory_kib max_memory_kib header.kdf.memory_kib)
        || not (in_range default_iterations max_iterations header.kdf.iterations)
        || not (in_range default_lanes max_lanes header.kdf.lanes))
      corrupt_state

module _ (ciphers : Ciphers) where
  unfoldable pub derive_wrapping_key : Text → Bytes → KdfHeader → Result VaultError Bytes
  derive_wrapping_key passphrase salt kdf = do
    fail_if (not (ciphers.are_params kdf.memory_kib kdf.iterations kdf.lanes)) corrupt_state
    ok_or (ciphers.hash_password passphrase salt kdf.memory_kib kdf.iterations kdf.lanes) crypto

  -- `XChaCha20Poly1305::new_from_slice`
  abbrev pub check_key : Bytes → Result VaultError Unit
  check_key key = fail_if (not (eqb (length key) data_key_len)) crypto

module _ (codec : Base64) where
  unfoldable pub decode_array : ℕ → Text → Result VaultError Bytes
  decode_array bytes encoded = do
    decoded ← ok_or (codec.decode encoded) corrupt_state
    fail_if (not (eqb (length decoded) bytes)) corrupt_state
    ok decoded

  abbrev pub default_kdf : Bytes → KdfHeader
  default_kdf salt = record {
    algorithm = text "argon2id";
    version = argon2_version;
    memory_kib = default_memory_kib;
    iterations = default_iterations;
    lanes = default_lanes;
    salt = codec.encode salt;
  }

  abbrev pub header_of : Bytes → Bytes → Bytes → KeyHeader
  header_of salt nonce wrapped_key = record {
    magic = magic_text;
    version = header_version;
    kdf = default_kdf salt;
    nonce = codec.encode nonce;
    wrapped_key = codec.encode wrapped_key;
  }

module _ (ciphers : Ciphers) (codec : Base64) (json : HeaderJson) where
  -- The file's contents and the key.
  unfoldable pub create : Draws → Text → Result VaultError (Bytes × Bytes)
  create draws passphrase = do
    validate_new_passphrase passphrase
    salt ← ok_or draws.salt crypto
    nonce ← ok_or draws.nonce crypto
    data_key ← ok_or draws.data_key crypto
    wrapping_key ← derive_wrapping_key ciphers passphrase salt (default_kdf codec salt)
    check_key ciphers wrapping_key
    wrapped_key ←
        ok_or
          (ciphers.encrypt wrapping_key nonce
            (associated_data header_version (default_kdf codec salt) salt) data_key)
          crypto
    encoded ← ok_or (json.to_vec_pretty (header_of codec salt nonce wrapped_key)) metadata
    ok (encoded, data_key)

  -- The part of `unlock` behind `validate_header`.
  unfoldable pub open_header : KeyHeader → Text → Result VaultError Bytes
  open_header header passphrase = do
    salt ← decode_array codec salt_len header.kdf.salt
    nonce ← decode_array codec nonce_len header.nonce
    wrapped_key ← decode_array codec wrapped_key_len header.wrapped_key
    wrapping_key ← derive_wrapping_key ciphers passphrase salt header.kdf
    check_key ciphers wrapping_key
    plaintext ←
        ok_or
          (ciphers.decrypt wrapping_key nonce (associated_data header.version header.kdf salt)
            wrapped_key)
          authentication_failed
    fail_if (not (eqb (length plaintext) data_key_len)) authentication_failed
    ok plaintext

  unfoldable pub unlock : Bytes → Text → Result VaultError Bytes
  unlock header_bytes passphrase = do
    fail_if (ltb max_passphrase_bytes (len passphrase)) authentication_failed
    header ← ok_or (json.from_slice header_bytes) corrupt_state
    validate_header header
    open_header header passphrase
