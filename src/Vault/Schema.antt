-- ===== src/Vault/Schema.antt =====
-- What the tables satisfy after any method: keys are unique, sizes are within the limits, and each
-- outbox row belongs to a device whose snapshot is stored.
use singularis.Prelude.{
  ℕ, ◌≤◌, ◌≡◌, ◌≢◌, refl, Bool, false, none, some, List, [], ◌∷◌, ◌++◌, Result, ok, err, Text,
  Bytes, length, arith, All, All-mono, All-append, All-retain, Pairwise, Pairwise-snoc,
  Pairwise-retain, retain, is_negative, Option-cases, inl, inr, sym, subst, list_eq, nat_eq,
}
use singularis.Vault.Error.{VaultError}
use singularis.Vault.Input.{
  NewVaultMessage, VaultMessage, VaultOutboxItem, validate_identifier, max_id_bytes,
  max_mls_outbox_bytes, max_mls_snapshot_bytes, device_id_message, event_id_message,
}
use singularis.Vault.Database.{
  Database, Faults, Connection, atomically, checked, settle, sql_length, find_message,
  find_snapshot, find_item, put_snapshot, insert_message, upsert, insert_item, empty_database,
  stored_form,
}
use singularis.Vault.Rows.{
  fresh_message, fresh_item, find_snapshot-put_snapshot, All-put_snapshot, Pairwise-put_snapshot,
}

abbrev pub Within : ℕ → ℕ → Type 0
Within bound n = (1 ≤ n) × (n ≤ bound)

abbrev pub MessageRow : VaultMessage → Type 0
MessageRow m =
    Within 128 (sql_length m.id)
    × Within 128 (sql_length m.channel_id)
    × Within 65536 (sql_length m.body)
    × (is_negative m.created_at_ms ≡ false)

-- What the checks of the methods establish for a row, beyond the schema.
abbrev pub ItemRow : VaultOutboxItem → Type 0
ItemRow item =
    (validate_identifier item.device_id max_id_bytes device_id_message ≡ ok tt)
    × (validate_identifier item.event_id max_id_bytes event_id_message ≡ ok tt)
    × Within max_mls_outbox_bytes (length item.payload)

abbrev pub Owned : List (Text × Bytes) → VaultOutboxItem → Type 0
Owned snapshots item = find_snapshot item.device_id snapshots ≢ none

pub record IsSound (db : Database) : Type 0 where
  pub message_ids : Pairwise (λ a b. a.id ≢ b.id) db.local_messages
  pub messages : All MessageRow db.local_messages
  pub device_ids : Pairwise (λ a b. a.0 ≢ b.0) db.mls_client_snapshots
  pub snapshots : All (λ s. Within max_mls_snapshot_bytes (length s.1)) db.mls_client_snapshots
  pub event_ids : Pairwise (λ a b. a.event_id ≢ b.event_id) db.mls_outbox
  pub items : All ItemRow db.mls_outbox
  pub owned : All (Owned db.mls_client_snapshots) db.mls_outbox

pub empty_database-IsSound : IsSound empty_database
empty_database-IsSound = record {
  message_ids = tt;
  messages = tt;
  device_ids = tt;
  snapshots = tt;
  event_ids = tt;
  items = tt;
  owned = tt;
}

-- Success of an insertion, taken apart.
pub insert_message-parts :
    (faults : Faults) (message : NewVaultMessage) (db db' : Database) (stored : VaultMessage)
    → insert_message faults message db ≡ ok (stored, db')
    → (stored ≡ stored_form message)
      × (db' ≡ record db { local_messages = db.local_messages ++ stored_form message ∷ [] })
      × MessageRow (stored_form message)
      × (find_message message.id db.local_messages ≡ none)
unfolding insert_message
insert_message-parts faults message db db' stored h =
    elim (Option-cases (find_message message.id db.local_messages)) [
      | inl e ↦
          (ground arith, ground arith, (ground arith, ground arith, ground arith, ground arith), e)
      | inr (m, e) ↦ absurd (ground arith)
    ]

pub upsert-parts :
    (faults : Faults) (device_id : Text) (snapshot : Bytes) (db db' : Database)
    → upsert faults device_id snapshot db ≡ ok db'
    → (db' ≡ record db {
      mls_client_snapshots = put_snapshot device_id snapshot db.mls_client_snapshots;
    })
      × Within max_mls_snapshot_bytes (length snapshot)
unfolding upsert
upsert-parts faults device_id snapshot db db' h = (ground arith, ground arith)

pub insert_item-parts :
    (faults : Faults) (item : VaultOutboxItem) (db db' : Database)
    → insert_item faults item db ≡ ok db'
    → (db' ≡ record db { mls_outbox = db.mls_outbox ++ item ∷ [] })
      × (find_item item.event_id db.mls_outbox ≡ none)
      × Owned db.mls_client_snapshots item
unfolding insert_item
insert_item-parts faults item db db' h =
    elim (Option-cases (find_item item.event_id db.mls_outbox)) [
      | inr (m, e) ↦ absurd (ground arith)
      | inl e ↦ elim (Option-cases (find_snapshot item.device_id db.mls_client_snapshots)) [
        | inl k ↦ absurd (ground arith)
        | inr (s, k) ↦ (ground arith, e, λ q. cc)
      ]
    ]

pub insert_message-IsSound :
    (faults : Faults) (message : NewVaultMessage) (db db' : Database) (stored : VaultMessage)
    → IsSound db
    → insert_message faults message db ≡ ok (stored, db')
    → IsSound db'
insert_message-IsSound faults message db db' stored v h =
    let (_, same, row, fresh) = insert_message-parts faults message db db' stored h in
    subst IsSound (sym same) (record {
      message_ids =
          Pairwise-snoc _ db.local_messages (stored_form message)
            (fresh_message (stored_form message) db.local_messages fresh) v.message_ids;
      messages = All-append MessageRow db.local_messages _ v.messages (row, tt);
      device_ids = v.device_ids;
      snapshots = v.snapshots;
      event_ids = v.event_ids;
      items = v.items;
      owned = v.owned;
    })

pub upsert-IsSound :
    (faults : Faults) (device_id : Text) (snapshot : Bytes) (db db' : Database)
    → IsSound db
    → upsert faults device_id snapshot db ≡ ok db'
    → IsSound db'
upsert-IsSound faults device_id snapshot db db' v h =
    let (same, row) = upsert-parts faults device_id snapshot db db' h in
    subst IsSound (sym same) (record {
      message_ids = v.message_ids;
      messages = v.messages;
      device_ids = Pairwise-put_snapshot device_id snapshot db.mls_client_snapshots v.device_ids;
      snapshots = All-put_snapshot device_id snapshot _ db.mls_client_snapshots row v.snapshots;
      event_ids = v.event_ids;
      items = v.items;
      owned =
          All-mono (Owned db.mls_client_snapshots) _ (λ item o. still_owned item o) db.mls_outbox
            v.owned;
    })
  where
    still_owned :
        (item : VaultOutboxItem)
        → Owned db.mls_client_snapshots item
        → Owned (put_snapshot device_id snapshot db.mls_client_snapshots) item
    still_owned item o q = ground (
      arith,
      o,
      find_snapshot-put_snapshot device_id snapshot item.device_id db.mls_client_snapshots,
    )

pub insert_item-IsSound :
    (faults : Faults) (item : VaultOutboxItem) (db db' : Database)
    → ItemRow item
    → IsSound db
    → insert_item faults item db ≡ ok db'
    → IsSound db'
insert_item-IsSound faults item db db' row v h =
    let (same, fresh, owner) = insert_item-parts faults item db db' h in
    subst IsSound (sym same) (record {
      message_ids = v.message_ids;
      messages = v.messages;
      device_ids = v.device_ids;
      snapshots = v.snapshots;
      event_ids =
          Pairwise-snoc _ db.mls_outbox item (fresh_item item db.mls_outbox fresh) v.event_ids;
      items = All-append ItemRow db.mls_outbox _ v.items (row, tt);
      owned = All-append (Owned db.mls_client_snapshots) db.mls_outbox _ v.owned (owner, tt);
    })

pub delete_items-IsSound :
    (p : VaultOutboxItem → Bool) (db : Database)
    → IsSound db
    → IsSound (record db { mls_outbox = retain p db.mls_outbox })
delete_items-IsSound p db v = record {
  message_ids = v.message_ids;
  messages = v.messages;
  device_ids = v.device_ids;
  snapshots = v.snapshots;
  event_ids = Pairwise-retain _ p db.mls_outbox v.event_ids;
  items = All-retain ItemRow p db.mls_outbox v.items;
  owned = All-retain (Owned db.mls_client_snapshots) p db.mls_outbox v.owned;
}

-- A locked vault has no tables to be wrong.
abbrev pub IsSoundConnection : Connection → Type 0
IsSoundConnection none = Unit
IsSoundConnection (some db) = IsSound db

pub atomically-IsSound :
    {A : Type 0} (body : Database → Result VaultError (A × Database))
    → ((db db' : Database) (a : A) → IsSound db → body db ≡ ok (a, db') → IsSound db')
    → (c : Connection) → IsSoundConnection c
    → IsSoundConnection (atomically body c).1
atomically-IsSound body keep none v = tt
atomically-IsSound {A} body keep (some db) v = on_result (body db) refl
  where
    on_result :
        (r : Result VaultError (A × Database)) → body db ≡ r → IsSoundConnection (settle db r).1
    on_result (ok (a, db')) e = keep db db' a v e
    on_result (err e) h = v

pub checked-IsSound :
    {A : Type 0} (valid : Result VaultError Unit)
    (method : Connection → Result VaultError A × Connection) (c : Connection)
    → IsSoundConnection c
    → (valid ≡ ok tt → IsSoundConnection (method c).1)
    → IsSoundConnection (checked valid method c).1
checked-IsSound (ok tt) method c v h = h refl
checked-IsSound (err e) method c v h = v
