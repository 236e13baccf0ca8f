-- ===== src/Vault/Input.antt =====
-- crates/singularis-vault/src/vault.rs: the records that callers pass, and the checks on them.
use Prim.Native.String.{String}
use singularis.Prelude.{
  ℕ, ◌*◌, ◌≤◌, ◌<◌, ◌≡◌, ◌↔◌, ◌⊎◌, refl, Bool, true, not, ◌||◌, List, [], ◌∷◌, arith, Result, ok,
  err, ◌>>◌, fail_if, is_err, ltb, eqb, length, is_empty, all, any, All, Text, Bytes, len,
  is_ascii_alphanumeric, is_blank, ℤ, is_negative, inr,
}
use singularis.Vault.Error.{VaultError, invalid_input, corrupt_state}

abbrev pub max_id_bytes : ℕ
max_id_bytes = 128

abbrev pub max_channel_id_bytes : ℕ
max_channel_id_bytes = 128

abbrev pub max_message_bytes : ℕ
max_message_bytes = 64 * 1024

abbrev pub max_mls_snapshot_bytes : ℕ
max_mls_snapshot_bytes = 16 * 1024 * 1024

abbrev pub max_mls_outbox_bytes : ℕ
max_mls_outbox_bytes = 384 * 1024

pub record NewVaultMessage : Type 0 where
  pub id : Text
  pub channel_id : Text
  pub body : Text
  pub created_at_ms : ℤ

pub record VaultMessage : Type 0 where
  pub id : Text
  pub channel_id : Text
  pub body : Text
  pub created_at_ms : ℤ

pub record VaultOutboxItem : Type 0 where
  pub device_id : Text
  pub event_id : Text
  pub payload : Bytes

abbrev pub is_id_char : ℕ → Bool
is_id_char c = is_ascii_alphanumeric c || eqb c b'-' || eqb c b'_'

unfoldable pub validate_identifier : Text → ℕ → String → Result VaultError Unit
validate_identifier value max_bytes message =
    fail_if (is_empty value || ltb max_bytes (len value) || not (all is_id_char value))
      (invalid_input message)

unfoldable pub validate_channel_id : Text → Result VaultError Unit
unfolding validate_identifier
validate_channel_id channel_id =
    validate_identifier channel_id max_channel_id_bytes "Die Kanal-ID ist ungueltig."

unfoldable pub validate_message : NewVaultMessage → Result VaultError Unit
unfolding validate_identifier validate_channel_id
validate_message message = do
  validate_identifier message.id max_id_bytes "Die Nachrichten-ID ist ungueltig."
  validate_channel_id message.channel_id
  fail_if (is_blank message.body || ltb max_message_bytes (len message.body))
      (invalid_input "Der Nachrichteninhalt ist ungueltig.")
  fail_if (is_negative message.created_at_ms)
      (invalid_input "Der Nachrichtenzeitpunkt ist ungueltig.")

unfoldable pub validate_mls_snapshot : Bytes → Result VaultError Unit
validate_mls_snapshot snapshot =
    fail_if (is_empty snapshot || ltb max_mls_snapshot_bytes (length snapshot))
      (invalid_input "Der MLS-Zustand ist leer oder zu gross.")

unfoldable pub validate_mls_outbox_payload : Bytes → Result VaultError Unit
validate_mls_outbox_payload payload =
    fail_if (is_empty payload || ltb max_mls_outbox_bytes (length payload))
      (invalid_input "Der MLS-Sendeauftrag ist leer oder zu gross.")

abbrev pub device_id_message : String
device_id_message = "Die MLS-Geraete-ID ist ungueltig."

abbrev pub event_id_message : String
event_id_message = "Die MLS-Event-ID ist ungueltig."

-- The closure of `validate_mls_outbox_items`.
abbrev pub is_bad_item : VaultOutboxItem → Bool
is_bad_item item =
    is_err (validate_identifier item.device_id max_id_bytes device_id_message)
    || is_err (validate_identifier item.event_id max_id_bytes event_id_message)
    || is_err (validate_mls_outbox_payload item.payload)

unfoldable pub validate_mls_outbox_items : List VaultOutboxItem → Result VaultError Unit
validate_mls_outbox_items items = fail_if (any is_bad_item items) corrupt_state

-- An identifier: not empty, at most so many bytes, of letters, digits, `-` and `_` alone.
abbrev pub IsIdentifier : ℕ → Text → Type 0
IsIdentifier max_bytes value =
    (0 < length value) × (len value ≤ max_bytes) × All (λ c. is_id_char c ≡ true) value

all-All : (p : ℕ → Bool) (s : Text) → (all p s ≡ true) ↔ All (λ c. p c ≡ true) s
unfolding all
all-All p [] = (λ h. tt, λ h. refl)
all-All p (c ∷ s) =
    (λ h. (ground arith, (all-All p s).0 (ground arith)), λ h. ground (arith, (all-All p s).1 h.1))

-- The check accepts exactly the identifiers, and refuses anything else with the caller's message.
pub validate_identifier-eq :
    (value : Text) (max_bytes : ℕ) (message : String)
    → ((validate_identifier value max_bytes message ≡ ok tt) ↔ IsIdentifier max_bytes value)
      × ((validate_identifier value max_bytes message ≡ ok tt)
          ⊎ (validate_identifier value max_bytes message ≡ err (invalid_input message)))
unfolding validate_identifier
validate_identifier-eq [] max_bytes message =
    ((λ h. absurd (ground arith), λ h. absurd (omega arith)), inr refl)
validate_identifier-eq (c ∷ s) max_bytes message = (
  (
    λ h. (omega arith, ground arith, (all-All is_id_char (c ∷ s)).0 (ground arith)),
    λ h. ground (arith, (all-All is_id_char (c ∷ s)).1 h.2),
  ),
  ground arith,
)
