-- ===== src/Vault/Methods/Conflict.antt =====
-- An event id that is queued stays bound to what it was queued with.
use singularis.Prelude.{
  ◌≡◌, ◌≢◌, ◌⊎◌, refl, Bool, true, Option, none, some, List, [], ◌∷◌, ok, err, Text, Bytes, arith,
  inl, inr, nat_eq, list_eq, All, retain, ◌∙◌, ◌==◌, if◌then◌else◌, Bool-cases,
}
use singularis.Vault.Error.{outbox_conflict}
use singularis.Vault.Input.{NewVaultMessage, VaultMessage, VaultOutboxItem}
use singularis.Vault.Database.{
  Database, Faults, no_faults, Connection, find_snapshot, find_item, put_snapshot,
}
use singularis.Vault.Rows.{find_item-snoc, find_snapshot-put_snapshot, text_iff}
use singularis.Vault.Methods.Outbox.{
  repeat_item, validate_transaction, item_of, store_mls_transaction,
}
use singularis.Vault.Methods.Repetition.{store_mls_transaction-Recorded}
use singularis.Vault.Methods.Soundness.{Call, run}
use singularis.Vault.Methods.Keeps.{Allows, At, run-At}

-- The snapshot that an open vault has of a device.
abbrev pub snapshot_of : Text → Connection → Option Bytes
snapshot_of device_id none = none
snapshot_of device_id (some db) = find_snapshot device_id db.mls_client_snapshots

-- The item stands in the outbox, and a snapshot of its device behind it.
abbrev Bound : VaultOutboxItem → Database → Type 0
Bound item db =
    (find_item item.event_id db.mls_outbox ≡ some item)
    × (snapshot : Bytes) × (find_snapshot item.device_id db.mls_client_snapshots ≡ some snapshot)

find_item-kept :
    (p : VaultOutboxItem → Bool) (event_id : Text) (l : List VaultOutboxItem)
    → ((n : VaultOutboxItem) → n.event_id ≡ event_id → p n ≡ true)
    → find_item event_id (retain p l) ≡ find_item event_id l
unfolding find_item retain
find_item-kept p event_id [] kept = refl
find_item-kept p event_id (n ∷ l) kept = elim (Bool-cases (n.event_id == event_id)) [
  | inl e ↦ ground (arith, kept n ((text_iff n.event_id event_id).0 e))
  | inr e ↦ ground (arith, find_item-kept p event_id l kept)
]

module _ (item : VaultOutboxItem) where
  Bound-put_snapshot :
      (db : Database) (device_id : Text) (snapshot : Bytes)
      → Bound item db
      → Bound item (record db {
        mls_client_snapshots = put_snapshot device_id snapshot db.mls_client_snapshots;
      })
  Bound-put_snapshot db device_id snapshot (row, kept, found) =
      elim (Bool-cases (device_id == item.device_id)) [
        | inl e ↦ (
          row,
          snapshot,
          find_snapshot-put_snapshot device_id snapshot item.device_id db.mls_client_snapshots
              ∙ rw e refl,
        )
        | inr e ↦ (
          row,
          kept,
          find_snapshot-put_snapshot device_id snapshot item.device_id db.mls_client_snapshots
              ∙ rw e found,
        )
      ]

  run-Bound :
      (calls : List Call) (db : Database)
      → All (Allows (λ device_id event_id. event_id ≢ item.event_id)) calls
      → Bound item db
      → At (Bound item) (run calls (some db))
  run-Bound calls db spared bound =
      run-At (Bound item) (λ device_id event_id. event_id ≢ item.event_id) (λ db rows b. b)
        Bound-put_snapshot
        (λ db other fresh b. (
          find_item-snoc other item.event_id db.mls_outbox fresh ∙ elsewhere db other fresh b.0,
          b.1,
          b.2,
        ))
        (λ db device_id event_id other b. (
          find_item-kept _ item.event_id db.mls_outbox
                (λ n e. ground (arith, text_iff n.event_id event_id))
              ∙ b.0,
          b.1,
          b.2,
        ))
        (λ db text absent b. b) calls (some db) spared bound
    where
      elsewhere :
          (db : Database) (other : VaultOutboxItem)
          → find_item other.event_id db.mls_outbox ≡ none
          → find_item item.event_id db.mls_outbox ≡ some item
          → (if other.event_id == item.event_id
              then some other
              else find_item item.event_id db.mls_outbox)
            ≡ some item
      elsewhere db other fresh found = ground (arith, text_iff other.event_id item.event_id)

-- After a transaction that succeeded, and any further calls but an acknowledgement under its event id,
-- that id is bound to its device and payload and to the snapshot that the vault then has of the device:
-- a valid transaction under the id that differs in one of them is a conflict and changes nothing, if no
-- statement of it fails.
pub store_mls_transaction_conflict :
    (faults : Faults) (device_id : Text) (snapshot : Bytes) (event_id : Text) (payload : Bytes)
    (message : Option NewVaultMessage) (db db' : Database) (stored : Option VaultMessage)
    (calls : List Call) (other_device : Text) (other_snapshot other_payload : Bytes)
    (other_message : Option NewVaultMessage)
    → store_mls_transaction faults device_id snapshot event_id payload message (some db)
      ≡ (ok stored, some db')
    → All (Allows (λ acknowledged_device acknowledged. acknowledged ≢ event_id)) calls
    → validate_transaction other_device other_snapshot event_id other_payload ≡ ok tt
    → (other_device ≢ device_id)
      ⊎ (other_payload ≢ payload)
      ⊎ (snapshot_of device_id (run calls (some db')) ≢ some other_snapshot)
    → store_mls_transaction no_faults other_device other_snapshot event_id other_payload
        other_message
        (run calls (some db'))
      ≡ (err outbox_conflict, run calls (some db'))
unfolding store_mls_transaction repeat_item
store_mls_transaction_conflict faults device_id snapshot event_id payload message db db' stored
      calls other_device other_snapshot other_payload other_message h spared valid =
    let (_, (row, kept, told)) =
      store_mls_transaction-Recorded faults device_id snapshot event_id payload message db db'
        stored h in
    refused (run calls (some db'))
      (run-Bound (item_of device_id event_id payload) calls db' spared (row, snapshot, kept))
  where
    refused :
        (c : Connection)
        → At (Bound (item_of device_id event_id payload)) c
        → (other_device ≢ device_id)
          ⊎ (other_payload ≢ payload)
          ⊎ (snapshot_of device_id c ≢ some other_snapshot)
        → store_mls_transaction no_faults other_device other_snapshot event_id other_payload
            other_message c
          ≡ (err outbox_conflict, c)
    refused none impossible differs = absurd impossible
    refused (some db'') (row, current, found) differs = ground (
      arith,
      text_iff device_id other_device,
      text_iff payload other_payload,
      text_iff current other_snapshot,
    )
