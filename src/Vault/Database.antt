-- ===== src/Vault/Database.antt =====
-- crates/singularis-vault/src/vault.rs: the tables, the statements that the methods run on them, and
-- the methods that need an unlocked vault. Rows stand in the order of their rowids. A statement fails
-- where a constraint of the schema forbids it, or where the engine fails, which an argument decides.
use singularis.Prelude.{
  ℕ, suc, Bool, true, false, not, ◌&&◌, Option, none, some, List, [], ◌∷◌, ◌++◌, Result, ok, err,
  ◌>>◌, fail_if, if◌then◌else◌, leb, eqb, length, Text, Bytes, ◌==◌, nat_eq, list_eq, is_negative,
  int_eq,
}
use singularis.Vault.Error.{VaultError, locked, database}
use singularis.Vault.Input.{NewVaultMessage, VaultMessage, VaultOutboxItem}

pub record Database : Type 0 where
  pub local_messages : List VaultMessage
  pub mls_client_snapshots : List (Text × Bytes)
  pub mls_outbox : List VaultOutboxItem
  pub local_device : Option Text
  pub user_version : ℕ

abbrev pub empty_database : Database
empty_database = record {
  local_messages = [];
  mls_client_snapshots = [];
  mls_outbox = [];
  local_device = none;
  user_version = 4;
}

pub data Statement : Type 0 where
  select_messages select_message insert_message_row : Statement
  select_device insert_device : Statement
  select_snapshot upsert_snapshot : Statement
  select_outbox insert_outbox delete_outbox : Statement
  begin commit : Statement

-- Which statements the engine fails to run, the disk being full for instance.
abbrev pub Faults : Type 0
Faults = Statement → Bool

abbrev pub no_faults : Faults
no_faults statement = false

abbrev pub attempt : Faults → Statement → Result VaultError Unit
attempt faults statement = fail_if (faults statement) database

abbrev pub constrain : Bool → Result VaultError Unit
constrain holds = fail_if (not holds) database

-- SQL's `length` of a text: the characters before the first NUL.
unfoldable pub sql_length : Text → ℕ
sql_length [] = 0
sql_length (c ∷ s) = if eqb c 0 then 0 else suc (sql_length s)

-- `BETWEEN 1 AND n`
abbrev pub between_one_and : ℕ → ℕ → Bool
between_one_and n k = leb 1 k && leb k n

unfoldable pub find_message : Text → List VaultMessage → Option VaultMessage
find_message id [] = none
find_message id (m ∷ rest) = if m.id == id then some m else find_message id rest

unfoldable pub find_snapshot : Text → List (Text × Bytes) → Option Bytes
find_snapshot device_id [] = none
find_snapshot device_id ((d, snapshot) ∷ rest) =
    if d == device_id then some snapshot else find_snapshot device_id rest

unfoldable pub find_item : Text → List VaultOutboxItem → Option VaultOutboxItem
find_item event_id [] = none
find_item event_id (item ∷ rest) =
    if item.event_id == event_id then some item else find_item event_id rest

abbrev pub is_none : {A : Type 0} → Option A → Bool
is_none none = true
is_none (some a) = false

abbrev pub stored_form : NewVaultMessage → VaultMessage
stored_form message = record {
  id = message.id;
  channel_id = message.channel_id;
  body = message.body;
  created_at_ms = message.created_at_ms;
}

-- `INSERT INTO local_messages`, under the table's constraints.
unfoldable pub insert_message :
    Faults → NewVaultMessage → Database → Result VaultError (VaultMessage × Database)
insert_message faults message db = do
  attempt faults insert_message_row
  constrain (between_one_and 128 (sql_length message.id))
  constrain (between_one_and 128 (sql_length message.channel_id))
  constrain (between_one_and 65536 (sql_length message.body))
  constrain (not (is_negative message.created_at_ms))
  constrain (is_none (find_message message.id db.local_messages))
  ok (
    stored_form message,
    record db { local_messages = db.local_messages ++ stored_form message ∷ [] },
  )

-- `INSERT … ON CONFLICT(device_id) DO UPDATE`: an existing row keeps its place.
unfoldable pub put_snapshot : Text → Bytes → List (Text × Bytes) → List (Text × Bytes)
put_snapshot device_id snapshot [] = (device_id, snapshot) ∷ []
put_snapshot device_id snapshot ((d, old) ∷ rest) =
    if d == device_id
    then (device_id, snapshot) ∷ rest
    else (d, old) ∷ put_snapshot device_id snapshot rest

unfoldable pub upsert : Faults → Text → Bytes → Database → Result VaultError Database
upsert faults device_id snapshot db = do
  attempt faults upsert_snapshot
  constrain (between_one_and 128 (sql_length device_id))
  constrain (between_one_and 16777216 (length snapshot))
  ok (record db { mls_client_snapshots = put_snapshot device_id snapshot db.mls_client_snapshots })

-- `INSERT INTO mls_outbox`, with its primary and foreign keys.
unfoldable pub insert_item : Faults → VaultOutboxItem → Database → Result VaultError Database
insert_item faults item db = do
  attempt faults insert_outbox
  constrain (between_one_and 128 (sql_length item.event_id))
  constrain (between_one_and 128 (sql_length item.device_id))
  constrain (between_one_and 393216 (length item.payload))
  constrain (is_none (find_item item.event_id db.mls_outbox))
  constrain (not (is_none (find_snapshot item.device_id db.mls_client_snapshots)))
  ok (record db { mls_outbox = db.mls_outbox ++ item ∷ [] })

-- The open connection, if there is one.
abbrev pub Connection : Type 0
Connection = Option Database

abbrev pub settle :
    {A : Type 0} → Database → Result VaultError (A × Database) → Result VaultError A × Connection
settle db (ok (a, db')) = (ok a, some db')
settle db (err e) = (err e, some db)

-- One statement, or one transaction: what fails in it leaves nothing behind.
abbrev pub atomically :
    {A : Type 0}
    → (Database → Result VaultError (A × Database))
    → Connection
    → Result VaultError A × Connection
atomically body none = (err locked, none)
atomically body (some db) = settle db (body db)

-- A method's checks on its arguments, before it asks for the connection.
abbrev pub checked :
    {A : Type 0}
    → Result VaultError Unit
    → (Connection → Result VaultError A × Connection)
    → Connection
    → Result VaultError A × Connection
checked (err e) method c = (err e, c)
checked (ok valid) method c = method c
