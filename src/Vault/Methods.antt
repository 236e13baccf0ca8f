-- ===== src/Vault/Methods.antt =====
-- crates/singularis-vault/src/vault.rs: the methods of `Vault` that need an open connection.

pub mod Outbox
pub mod Soundness
pub mod Repetition
pub mod Delivery
pub mod Listing
pub mod Reload
pub mod Mail
pub mod Keeps
pub mod Conflict
pub mod Identity
use singularis.Prelude.{
  ℕ, ◌<◌, ◌^◌, ◌≡◌, refl, arith, Option-cases, inl, inr, Bool, true, false, not, ◌&&◌, ◌||◌, Option,
  none, some, List, [], ◌∷◌, ◌++◌, Result, ok, err, ◌>>=◌, ◌>>◌, fail_if, ok_or, if◌then◌else◌, ltb,
  eqb, length, is_empty, all, take, retain, Text, Bytes, text, len, ◌==◌, nat_eq, list_eq, ℤ,
  int_eq, int_leb, leb, is_whitespace,
}
use singularis.Vault.Error.{
  VaultError, locked, invalid_input, corrupt_state, outbox_conflict, database,
}
use singularis.Vault.Input.{
  NewVaultMessage, VaultMessage, VaultOutboxItem, validate_identifier, validate_channel_id,
  validate_message, validate_mls_snapshot, validate_mls_outbox_payload, validate_mls_outbox_items,
  max_id_bytes, max_mls_snapshot_bytes, device_id_message, event_id_message,
}
use singularis.Vault.Database.{
  Database, Faults, Connection, attempt, constrain, atomically, checked, find_message,
  find_snapshot, find_item, is_none, insert_message, upsert, insert_item, sql_length, begin, commit,
  select_outbox, select_snapshot, select_message, select_messages, select_device, insert_device,
  delete_outbox,
}

abbrev pub list_limit : ℕ
list_limit = 1000

-- A reading method: what it does to the connection is nothing.
abbrev pub reading :
    {A : Type 0} → (Database → Result VaultError A) → Connection → Result VaultError A
reading query none = err locked
reading query (some db) = query db

unfoldable pub store_message :
    Faults → NewVaultMessage → Connection → Result VaultError VaultMessage × Connection
store_message faults message =
    checked (validate_message message) (atomically (insert_message faults message))

-- `ORDER BY created_at_ms ASC, id ASC`: texts compare by their bytes, as code points do.
unfoldable pub text_leb : Text → Text → Bool
text_leb [] t = true
text_leb (c ∷ s) [] = false
text_leb (c ∷ s) (d ∷ t) = if eqb c d then text_leb s t else leb c d

abbrev pub row_leb : VaultMessage → VaultMessage → Bool
row_leb a b =
    if a.created_at_ms == b.created_at_ms
    then text_leb a.id b.id
    else int_leb a.created_at_ms b.created_at_ms

unfoldable pub insert_row : VaultMessage → List VaultMessage → List VaultMessage
insert_row m [] = m ∷ []
insert_row m (n ∷ rest) = if row_leb m n then m ∷ n ∷ rest else n ∷ insert_row m rest

unfoldable pub order_rows : List VaultMessage → List VaultMessage
order_rows [] = []
order_rows (m ∷ rest) = insert_row m (order_rows rest)

unfoldable pub list_messages : Faults → Text → Connection → Result VaultError (List VaultMessage)
list_messages faults channel_id c = do
  validate_channel_id channel_id
  reading
      (λ db. do
        attempt faults select_messages
        ok (
            take list_limit
              (order_rows (retain (λ m. m.channel_id == channel_id) db.local_messages))))
      c

unfoldable pub write_snapshot :
    Faults → Text → Bytes → Database → Result VaultError (Unit × Database)
write_snapshot faults device_id snapshot db = do
  db' ← upsert faults device_id snapshot db
  ok (tt, db')

unfoldable pub store_mls_client_snapshot :
    Faults → Text → Bytes → Connection → Result VaultError Unit × Connection
store_mls_client_snapshot faults device_id snapshot =
    checked
      (do
        validate_identifier device_id max_id_bytes device_id_message
        validate_mls_snapshot snapshot)
      (atomically (write_snapshot faults device_id snapshot))

abbrev pub loaded : Option Bytes → Result VaultError (Option Bytes)
loaded none = ok none
loaded (some snapshot) =
    if is_empty snapshot || ltb max_mls_snapshot_bytes (length snapshot)
    then err corrupt_state
    else ok (some snapshot)

unfoldable pub load_mls_client_snapshot :
    Faults → Text → Connection → Result VaultError (Option Bytes)
load_mls_client_snapshot faults device_id c = do
  validate_identifier device_id max_id_bytes device_id_message
  reading
      (λ db. do
        attempt faults select_snapshot
        loaded (find_snapshot device_id db.mls_client_snapshots))
      c

-- The `uuid` crate's text form, of the numbers of 128 bits.
pub record UuidText : Type 0 where
  pub to_string : ℕ → Text
  pub parse_str : Text → Option ℕ
  pub parse_str-to_string : (u : ℕ) → u < 2 ^ 128 → parse_str (to_string u) ≡ some u

module _ (uuid : UuidText) where
  abbrev pub device_row : Faults → ℕ → Database → Option Text → Result VaultError (ℕ × Database)
  device_row faults new_v4 db (some stored) = do
    device_id ← ok_or (uuid.parse_str stored) corrupt_state
    ok (device_id, db)
  device_row faults new_v4 db none = do
    attempt faults insert_device
    constrain (eqb (sql_length (uuid.to_string new_v4)) 36)
    ok (new_v4, record db { local_device = some (uuid.to_string new_v4) })

  -- `Uuid::new_v4` is an argument.
  unfoldable pub local_device_id : Faults → ℕ → Connection → Result VaultError ℕ × Connection
  local_device_id faults new_v4 =
      atomically
        (λ db. do attempt faults select_device; device_row faults new_v4 db db.local_device)
