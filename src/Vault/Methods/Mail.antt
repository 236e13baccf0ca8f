-- ===== src/Vault/Methods/Mail.antt =====
-- The messages and the outbox of a vault, which the methods for the device and the snapshots leave
-- alone and the transaction of a message extends together.
use singularis.Prelude.{
  ℕ, ◌≡◌, ◌>>◌, refl, sym, ap, Option, none, some, List, [], ◌∷◌, ◌++◌, Result, ok, err, Bytes,
  Text, arith, ok_value, Option-cases, inl, inr, nat_eq, list_eq,
}
use singularis.Vault.Error.{VaultError}
use singularis.Vault.Input.{NewVaultMessage, VaultMessage, VaultOutboxItem, validate_message}
use singularis.Vault.Database.{
  Database, Faults, Connection, attempt, begin, select_outbox, settle, checked, atomically, upsert,
  insert_message, insert_item, find_item, stored_form,
}
use singularis.Vault.Atomicity.{Unchanged}
use singularis.Vault.Methods.Soundness.{repeat_item-same}
use singularis.Vault.Methods.{UuidText, local_device_id, store_mls_client_snapshot, write_snapshot}
use singularis.Vault.Methods.Outbox.{
  item_of, insert_all, transact, store_mls_transaction, store_message_and_mls_snapshot_and_outbox,
  expect_message, validate_transaction,
}

-- The messages and the outbox of an open vault.
abbrev pub mail : Connection → Option (List VaultMessage × List VaultOutboxItem)
mail none = none
mail (some db) = some (db.local_messages, db.mls_outbox)

pub local_device_id-mail :
    (uuid : UuidText) (faults : Faults) (new_v4 : ℕ) (c : Connection)
    → mail (local_device_id uuid faults new_v4 c).1 ≡ mail c
unfolding local_device_id
local_device_id-mail uuid faults new_v4 none = refl
local_device_id-mail uuid faults new_v4 (some db) = elim (Option-cases db.local_device) [
  | inl e ↦ ground arith
  | inr (stored, e) ↦ elim (Option-cases (uuid.parse_str stored)) [
    | inl k ↦ ground arith
    | inr (u, k) ↦ ground arith
  ]
]

write_snapshot-mail :
    (faults : Faults) (device_id : Text) (snapshot : Bytes) (db : Database)
    → mail (settle db (write_snapshot faults device_id snapshot db)).1 ≡ mail (some db)
unfolding write_snapshot upsert
write_snapshot-mail faults device_id snapshot db = ground arith

pub store_mls_client_snapshot-mail :
    (faults : Faults) (device_id : Text) (snapshot : Bytes) (c : Connection)
    → mail (store_mls_client_snapshot faults device_id snapshot c).1 ≡ mail c
unfolding store_mls_client_snapshot
store_mls_client_snapshot-mail faults device_id snapshot c = with_valid _ c
  where
    with_valid :
        (valid : Result VaultError Unit) (c : Connection)
        → mail (checked valid (atomically (write_snapshot faults device_id snapshot)) c).1 ≡ mail c
    with_valid (err e) c = refl
    with_valid (ok u) none = refl
    with_valid (ok u) (some db) = write_snapshot-mail faults device_id snapshot db

insert_all-mail :
    (faults : Faults) (item : VaultOutboxItem) (snapshot : Bytes) (message : NewVaultMessage)
    (db db' : Database) (stored : Option VaultMessage)
    → insert_all faults item snapshot (some message) db ≡ ok (stored, db')
    → (stored ≡ some (stored_form message))
      × (mail (some db')
          ≡ some (db.local_messages ++ stored_form message ∷ [], db.mls_outbox ++ item ∷ []))
unfolding insert_all insert_message upsert insert_item
insert_all-mail faults item snapshot message db db' stored h = (ground arith, ground arith)

-- A transaction that stored its message was committed.
settle-stored :
    (db : Database) (r : Result VaultError (Option VaultMessage × Database)) (stored : VaultMessage)
    (c' : Connection)
    → expect_message (settle db r) ≡ (ok stored, c')
    → (db' : Database) × (r ≡ ok (some stored, db')) × (c' ≡ some db')
settle-stored db (ok (some m, db')) stored c' h =
    (db', ap (λ q. ok (some (ok_value stored q.0), db')) h, sym (ap (λ q. q.1) h))
settle-stored db (ok (none, db')) stored c' h = absurd (ground (arith, ap (λ q. q.0) h))
settle-stored db (err e) stored c' h = absurd (ground (arith, ap (λ q. q.0) h))

both_checked :
    (of_message of_transaction : Result VaultError Unit)
    (body : Database → Result VaultError (Option VaultMessage × Database)) (db : Database)
    (stored : VaultMessage) (c' : Connection)
    → checked of_message
        (λ c. expect_message (checked of_transaction (atomically body) c))
        (some db)
      ≡ (ok stored, c')
    → (db' : Database) × (body db ≡ ok (some stored, db')) × (c' ≡ some db')
both_checked (err e) of_transaction body db stored c' h = absurd (ground (arith, ap (λ q. q.0) h))
both_checked (ok u) (err e) body db stored c' h = absurd (ground (arith, ap (λ q. q.0) h))
both_checked (ok u) (ok w) body db stored c' h = settle-stored db (body db) stored c' h

-- The transaction of a message whose event id the outbox has no row of: the message and the item are
-- the last ones of their tables.
pub store_message_and_mls_snapshot_and_outbox-mail :
    (faults : Faults) (message : NewVaultMessage) (device_id : Text) (snapshot : Bytes)
    (event_id : Text) (payload : Bytes) (c c' : Connection) (stored : VaultMessage)
    (messages : List VaultMessage) (outbox : List VaultOutboxItem)
    → mail c ≡ some (messages, outbox)
    → find_item event_id outbox ≡ none
    → store_message_and_mls_snapshot_and_outbox faults message device_id snapshot event_id payload c
      ≡ (ok stored, c')
    → (stored ≡ stored_form message)
      × (mail c'
          ≡ some (
            messages ++ stored_form message ∷ [],
            outbox ++ item_of device_id event_id payload ∷ [],
          ))
unfolding store_message_and_mls_snapshot_and_outbox store_mls_transaction
store_message_and_mls_snapshot_and_outbox-mail faults message device_id snapshot event_id payload
      none c' stored messages outbox before fresh h =
    absurd (ground (arith, before))
store_message_and_mls_snapshot_and_outbox-mail faults message device_id snapshot event_id payload
      (some db) c' stored messages outbox before fresh h =
    let (db', run, same) = both_checked (validate_message message) _ _ db stored c' h in
    let same_messages : db.local_messages ≡ messages = ground arith in
    let same_outbox : db.mls_outbox ≡ outbox = ground arith in
    let none_found : find_item event_id db.mls_outbox ≡ none = rw same_outbox fresh in
    let (kept, extended) =
      insert_all-mail faults (item_of device_id event_id payload) snapshot message db db'
        (some stored) (ground arith) in
    (ground arith, rw (same, ← same_messages, ← same_outbox) extended)

expect_message-Unchanged :
    (db : Database) (r : Result VaultError (Option VaultMessage × Database))
    → ((db' : Database) → r ≡ ok (none, db') → db' ≡ db)
    → Unchanged (some db) (expect_message (settle db r))
expect_message-Unchanged db (ok (some m, db')) same = tt
expect_message-Unchanged db (ok (none, db')) same = ap some (same db' refl)
expect_message-Unchanged db (err e) same = refl

-- Whatever event ids the outbox has, a transaction of a message that fails leaves the vault as it was.
pub store_message_and_mls_snapshot_and_outbox-Unchanged :
    (faults : Faults) (message : NewVaultMessage) (device_id : Text) (snapshot : Bytes)
    (event_id : Text) (payload : Bytes) (c : Connection)
    → Unchanged c (
        store_message_and_mls_snapshot_and_outbox faults message device_id snapshot event_id payload
          c)
unfolding store_message_and_mls_snapshot_and_outbox store_mls_transaction
store_message_and_mls_snapshot_and_outbox-Unchanged faults message device_id snapshot event_id
      payload =
    with_valid (validate_message message) (validate_transaction device_id snapshot event_id payload)
  where
    body : Database → Result VaultError (Option VaultMessage × Database)
    body db = do
      attempt faults begin
      attempt faults select_outbox
      transact faults (item_of device_id event_id payload) snapshot (some message) db
          (find_item event_id db.mls_outbox)

    no_message : (db db' : Database) → body db ≡ ok (none, db') → db' ≡ db
    no_message db db' h = elim (Option-cases (find_item event_id db.mls_outbox)) [
      | inl fresh ↦
          let (stored, _) =
            insert_all-mail faults (item_of device_id event_id payload) snapshot message db db' none
              (ground arith) in
          absurd (ground arith)
      | inr (existing, e) ↦
          repeat_item-same faults (item_of device_id event_id payload) snapshot (some message) db
            db' existing none (ground arith)
    ]

    with_valid :
        (of_message of_transaction : Result VaultError Unit) (c : Connection)
        → Unchanged c (
            checked of_message (λ c. expect_message (checked of_transaction (atomically body) c)) c)
    with_valid (err e) of_transaction c = refl
    with_valid (ok u) (err e) c = refl
    with_valid (ok u) (ok w) none = refl
    with_valid (ok u) (ok w) (some db) = expect_message-Unchanged db (body db) (no_message db)
