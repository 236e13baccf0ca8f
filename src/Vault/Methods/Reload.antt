-- ===== src/Vault/Methods/Reload.antt =====
-- What a stored transaction of the outbox is read back as.
use singularis.Prelude.{
  ◌≡◌, refl, sym, ap, none, some, Result, ok, err, Bytes, Text, nat_eq, arith, >>=-eq-ok,
}
use singularis.Vault.Error.{VaultError}
use singularis.Vault.Input.{
  validate_identifier, validate_mls_snapshot, max_id_bytes, device_id_message, event_id_message,
}
use singularis.Vault.Database.{
  Database, Faults, no_faults, Connection, find_snapshot, find_item, checked, atomically, settle,
}
use singularis.Vault.Methods.{load_mls_client_snapshot}
use singularis.Vault.Methods.Outbox.{
  item_of, validate_transaction, store_mls_transaction, store_mls_snapshot_and_outbox, discard,
}
use singularis.Vault.Methods.Repetition.{store_mls_transaction-Recorded}

-- The snapshot of a transaction that was stored is found again.
load_mls_client_snapshot-stored :
    (device_id : Text) (snapshot : Bytes) (event_id : Text) (payload : Bytes) (db : Database)
    → validate_transaction device_id snapshot event_id payload ≡ ok tt
    → find_snapshot device_id db.mls_client_snapshots ≡ some snapshot
    → load_mls_client_snapshot no_faults device_id (some db) ≡ ok (some snapshot)
unfolding load_mls_client_snapshot validate_transaction validate_mls_snapshot
load_mls_client_snapshot-stored device_id snapshot event_id payload db h found =
    let (_, e₁, h₁) =
      >>=-eq-ok (validate_identifier device_id max_id_bytes device_id_message) _ h in
    let (_, e₂, h₂) = >>=-eq-ok (validate_identifier event_id max_id_bytes event_id_message) _ h₁ in
    let (_, e₃, h₃) = >>=-eq-ok (validate_mls_snapshot snapshot) _ h₂ in ground arith

-- A method that succeeded had an open vault, and leaves one.
settle-ok :
    {A : Type 0} (db : Database) (r : Result VaultError (A × Database)) (c' : Connection)
    → discard (settle db r) ≡ (ok tt, c')
    → (db' : Database) × (a : A) × (c' ≡ some db') × (settle db r ≡ (ok a, some db'))
settle-ok db (ok (a, db')) c' h = (db', a, sym (ap (λ r. r.1) h), refl)
settle-ok db (err e) c' h = absurd (ground (arith, ap (λ r. r.0) h))

checked-open :
    {A : Type 0} (valid : Result VaultError Unit)
    (body : Database → Result VaultError (A × Database)) (c c' : Connection)
    → discard (checked valid (atomically body) c) ≡ (ok tt, c')
    → (db : Database) × (db' : Database) × (a : A) × (c' ≡ some db')
      × (checked valid (atomically body) (some db) ≡ (ok a, some db'))
checked-open (err e) body c c' h = absurd (ground (arith, ap (λ r. r.0) h))
checked-open (ok u) body none c' h = absurd (ground (arith, ap (λ r. r.0) h))
checked-open (ok u) body (some db) c' h =
    let (db', a, same, run) = settle-ok db (body db) c' h in (db, db', a, same, run)

-- What a stored transaction is read back as.
pub stored-transaction :
    (faults : Faults) (device_id : Text) (snapshot : Bytes) (event_id : Text) (payload : Bytes)
    (c c' : Connection)
    → store_mls_snapshot_and_outbox faults device_id snapshot event_id payload c ≡ (ok tt, c')
    → (db' : Database) × (c' ≡ some db')
      × (load_mls_client_snapshot no_faults device_id (some db') ≡ ok (some snapshot))
      × (find_item event_id db'.mls_outbox ≡ some (item_of device_id event_id payload))
unfolding store_mls_snapshot_and_outbox store_mls_transaction
stored-transaction faults device_id snapshot event_id payload c c' h =
    let (db, db', stored, same, run) =
      checked-open (validate_transaction device_id snapshot event_id payload) _ c c' h in
    let (valid, (row, kept, _)) =
      store_mls_transaction-Recorded faults device_id snapshot event_id payload none db db' stored
        run in
    (
      db',
      same,
      load_mls_client_snapshot-stored device_id snapshot event_id payload db' valid kept,
      row,
    )
