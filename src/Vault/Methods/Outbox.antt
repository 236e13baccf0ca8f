-- ===== src/Vault/Methods/Outbox.antt =====
-- crates/singularis-vault/src/vault.rs: the outbox and its transaction.
use singularis.Prelude.{
  ℕ, Bool, not, ◌||◌, ◌&&◌, Option, none, some, List, Result, ok, err, ◌>>=◌, ◌>>◌, fail_if, ok_or,
  eqb, length, take, retain, Text, Bytes, ◌==◌, nat_eq, list_eq, int_eq,
}
use singularis.Vault.Error.{VaultError, locked, outbox_conflict, corrupt_state, database}
use singularis.Vault.Input.{
  NewVaultMessage, VaultMessage, VaultOutboxItem, validate_identifier, validate_message,
  validate_mls_snapshot, validate_mls_outbox_payload, validate_mls_outbox_items, max_id_bytes,
  device_id_message, event_id_message,
}
use singularis.Vault.Database.{
  Database, Faults, Connection, attempt, atomically, checked, find_message, find_snapshot,
  find_item, insert_message, upsert, insert_item, begin, commit, select_outbox, select_snapshot,
  select_message, delete_outbox,
}

abbrev pub outbox_limit : ℕ
outbox_limit = 1000

-- The message row that a repeated transaction must find as it would be stored now.
unfoldable pub confirm_message :
    Faults → Option NewVaultMessage → Database → Result VaultError (Option VaultMessage)
confirm_message faults none db = ok none
confirm_message faults (some message) db = do
  attempt faults select_message
  stored ← ok_or (find_message message.id db.local_messages) outbox_conflict
  fail_if
      (not (stored.id == message.id)
        || not (stored.channel_id == message.channel_id)
        || not (stored.body == message.body)
        || not (stored.created_at_ms == message.created_at_ms))
      outbox_conflict
  ok (some stored)

-- The event id is taken: the same data is a repetition, other data a conflict.
unfoldable pub repeat_item :
    Faults
    → VaultOutboxItem
    → Bytes
    → Option NewVaultMessage
    → Database
    → VaultOutboxItem
    → Result VaultError (Option VaultMessage × Database)
repeat_item faults item snapshot message db existing = do
  fail_if (not (existing.device_id == item.device_id) || not (existing.payload == item.payload))
      outbox_conflict
  attempt faults select_snapshot
  existing_snapshot ← ok_or (find_snapshot item.device_id db.mls_client_snapshots) database
  fail_if (not (existing_snapshot == snapshot)) outbox_conflict
  stored ← confirm_message faults message db
  attempt faults commit
  ok (stored, db)

abbrev pub insert_optional :
    Faults → Option NewVaultMessage → Database → Result VaultError (Option VaultMessage × Database)
insert_optional faults none db = ok (none, db)
insert_optional faults (some message) db = do
  inserted ← insert_message faults message db
  ok (some inserted.0, inserted.1)

unfoldable pub insert_all :
    Faults
    → VaultOutboxItem
    → Bytes
    → Option NewVaultMessage
    → Database
    → Result VaultError (Option VaultMessage × Database)
insert_all faults item snapshot message db = do
  stored ← insert_optional faults message db
  with_snapshot ← upsert faults item.device_id snapshot stored.1
  with_item ← insert_item faults item with_snapshot
  attempt faults commit
  ok (stored.0, with_item)

abbrev pub transact :
    Faults
    → VaultOutboxItem
    → Bytes
    → Option NewVaultMessage
    → Database
    → Option VaultOutboxItem
    → Result VaultError (Option VaultMessage × Database)
transact faults item snapshot message db (some existing) =
    repeat_item faults item snapshot message db existing
transact faults item snapshot message db none = insert_all faults item snapshot message db

unfoldable pub validate_transaction : Text → Bytes → Text → Bytes → Result VaultError Unit
validate_transaction device_id snapshot event_id payload = do
  validate_identifier device_id max_id_bytes device_id_message
  validate_identifier event_id max_id_bytes event_id_message
  validate_mls_snapshot snapshot
  validate_mls_outbox_payload payload

abbrev pub item_of : Text → Text → Bytes → VaultOutboxItem
item_of device_id event_id payload = record {
  device_id = device_id;
  event_id = event_id;
  payload = payload;
}

unfoldable pub store_mls_transaction :
    Faults
    → Text
    → Bytes
    → Text
    → Bytes
    → Option NewVaultMessage
    → Connection
    → Result VaultError (Option VaultMessage) × Connection
store_mls_transaction faults device_id snapshot event_id payload message =
    checked (validate_transaction device_id snapshot event_id payload) (
      atomically (λ db. do
        attempt faults begin
        attempt faults select_outbox
        transact faults (item_of device_id event_id payload) snapshot message db
            (find_item event_id db.mls_outbox)))

abbrev pub discard :
    {A : Type 0} → Result VaultError A × Connection → Result VaultError Unit × Connection
discard (ok a, c) = (ok tt, c)
discard (err e, c) = (err e, c)

unfoldable pub store_mls_snapshot_and_outbox :
    Faults → Text → Bytes → Text → Bytes → Connection → Result VaultError Unit × Connection
store_mls_snapshot_and_outbox faults device_id snapshot event_id payload c =
    discard (store_mls_transaction faults device_id snapshot event_id payload none c)

-- `.ok_or(VaultError::CorruptState)`
abbrev pub expect_message :
    Result VaultError (Option VaultMessage) × Connection
    → Result VaultError VaultMessage × Connection
expect_message (ok (some stored), c) = (ok stored, c)
expect_message (ok none, c) = (err corrupt_state, c)
expect_message (err e, c) = (err e, c)

unfoldable pub store_message_and_mls_snapshot_and_outbox :
    Faults
    → NewVaultMessage
    → Text
    → Bytes
    → Text
    → Bytes
    → Connection
    → Result VaultError VaultMessage × Connection
store_message_and_mls_snapshot_and_outbox faults message device_id snapshot event_id payload =
    checked (validate_message message) (λ c.
      expect_message
        (store_mls_transaction faults device_id snapshot event_id payload (some message) c))

abbrev read_items :
    Faults
    → (Database → List VaultOutboxItem)
    → Connection
    → Result VaultError (List VaultOutboxItem)
read_items faults select none = err locked
read_items faults select (some db) = do
  attempt faults select_outbox
  validate_mls_outbox_items (take outbox_limit (select db))
  ok (take outbox_limit (select db))

unfoldable pub list_mls_outbox :
    Faults → Text → Connection → Result VaultError (List VaultOutboxItem)
list_mls_outbox faults device_id c = do
  validate_identifier device_id max_id_bytes device_id_message
  read_items faults (λ db. retain (λ item. item.device_id == device_id) db.mls_outbox) c

unfoldable pub list_all_mls_outbox : Faults → Connection → Result VaultError (List VaultOutboxItem)
list_all_mls_outbox faults c = read_items faults (λ db. db.mls_outbox) c

-- The `WHERE` clause of the deletion.
abbrev pub is_acknowledged : Text → Text → VaultOutboxItem → Bool
is_acknowledged device_id event_id item = item.device_id == device_id && item.event_id == event_id

-- `DELETE … WHERE`, and whether it changed one row.
unfoldable pub delete_item : Faults → Text → Text → Database → Result VaultError (Bool × Database)
delete_item faults device_id event_id db = do
  attempt faults delete_outbox
  ok (
    eqb (length (retain (is_acknowledged device_id event_id) db.mls_outbox)) 1,
    record db {
      mls_outbox = retain (λ item. not (is_acknowledged device_id event_id item)) db.mls_outbox;
    },
  )

unfoldable pub acknowledge_mls_outbox :
    Faults → Text → Text → Connection → Result VaultError Bool × Connection
acknowledge_mls_outbox faults device_id event_id =
    checked
      (do
        validate_identifier device_id max_id_bytes device_id_message
        validate_identifier event_id max_id_bytes event_id_message)
      (atomically (delete_item faults device_id event_id))
