-- ===== src/Vault/Methods/Repetition.antt =====
-- The transaction that queues an event: what it leaves behind, and what a second one under the same
-- event id does.
use singularis.Prelude.{
  >>=-eq-ok, ◌≡◌, refl, sym, Option, none, some, List, [], ◌∷◌, ◌++◌, Result, ok, err, Text, Bytes,
  arith, Option-cases, Result-cases, inl, inr, nat_eq, list_eq, int_eq, int_beq_iff, subst, ◌∙◌,
}
use singularis.Vault.Error.{VaultError}
use singularis.Vault.Input.{NewVaultMessage, VaultMessage, VaultOutboxItem}
use singularis.Vault.Database.{
  Database, Faults, no_faults, attempt, atomically, checked, settle, find_message, find_snapshot,
  find_item, insert_message, upsert, insert_item, begin, select_outbox, stored_form, put_snapshot,
}
use singularis.Vault.Rows.{
  find_message-snoc, find_item-snoc, find_item-id, find_snapshot-put_snapshot, text_iff,
}
use singularis.Vault.Schema.{insert_message-parts, upsert-parts, insert_item-parts}
use singularis.Vault.Methods.Soundness.{repeat_item-same}
use singularis.Vault.Methods.Outbox.{
  confirm_message, repeat_item, insert_optional, insert_all, transact, validate_transaction,
  item_of, store_mls_transaction,
}

abbrev pub MessageRecorded :
    Option NewVaultMessage → Option VaultMessage → List VaultMessage → Type 0
MessageRecorded none stored rows = stored ≡ none
MessageRecorded (some message) stored rows =
    (find_message message.id rows ≡ some (stored_form message))
    × (stored ≡ some (stored_form message))

-- The outbox row, the snapshot and the message row stand in the tables together.
abbrev pub Recorded :
    VaultOutboxItem → Bytes → Option NewVaultMessage → Option VaultMessage → Database → Type 0
Recorded item snapshot message stored db =
    (find_item item.event_id db.mls_outbox ≡ some item)
    × (find_snapshot item.device_id db.mls_client_snapshots ≡ some snapshot)
    × MessageRecorded message stored db.local_messages

insert_optional-MessageRecorded :
    (faults : Faults) (message : Option NewVaultMessage) (db : Database)
    (r : Option VaultMessage × Database)
    → insert_optional faults message db ≡ ok r
    → MessageRecorded message r.0 r.1.local_messages
insert_optional-MessageRecorded faults none db r h = ground arith
insert_optional-MessageRecorded faults (some message) db r h =
    let (inserted, k, q) = >>=-eq-ok (insert_message faults message db) _ h in
    let (stored, same, _, fresh) = insert_message-parts faults message db inserted.1 inserted.0 k in
    ground (
      arith,
      find_message-snoc (stored_form message) message.id db.local_messages fresh,
      text_iff message.id message.id,
    )

-- The tables that a successful insertion leaves behind.
abbrev pub extended : VaultOutboxItem → Bytes → Database → Database
extended item snapshot db = record db {
  mls_client_snapshots = put_snapshot item.device_id snapshot db.mls_client_snapshots;
  mls_outbox = db.mls_outbox ++ item ∷ [];
}

pub insert_all-parts :
    (faults : Faults) (item : VaultOutboxItem) (snapshot : Bytes) (message : Option NewVaultMessage)
    (db db' : Database) (stored : Option VaultMessage)
    → insert_all faults item snapshot message db ≡ ok (stored, db')
    → (db₁ : Database) × (insert_optional faults message db ≡ ok (stored, db₁))
      × (db' ≡ extended item snapshot db₁)
      × (find_item item.event_id db₁.mls_outbox ≡ none)
unfolding insert_all
insert_all-parts faults item snapshot message db db' stored h =
    let (first, h₁, k₁) = >>=-eq-ok (insert_optional faults message db) _ h in
    let (second, h₂, k₂) = >>=-eq-ok (upsert faults item.device_id snapshot first.1) _ k₁ in
    let (third, h₃, k₃) = >>=-eq-ok (insert_item faults item second) _ k₂ in
    let (same₂, _) = upsert-parts faults item.device_id snapshot first.1 second h₂ in
    let (same₃, fresh, _) = insert_item-parts faults item second third h₃ in
    (first.1, h₁ ∙ ground arith, ground arith, ground arith)

insert_all-Recorded :
    (faults : Faults) (item : VaultOutboxItem) (snapshot : Bytes) (message : Option NewVaultMessage)
    (db db' : Database) (stored : Option VaultMessage)
    → insert_all faults item snapshot message db ≡ ok (stored, db')
    → Recorded item snapshot message stored db'
insert_all-Recorded faults item snapshot message db db' stored h =
    let (db₁, h₁, same, fresh) = insert_all-parts faults item snapshot message db db' stored h in
    subst (Recorded item snapshot message stored) (sym same) (
      find_item-snoc item item.event_id db₁.mls_outbox fresh
          ∙ rw (text_iff item.event_id item.event_id).1 refl,
      find_snapshot-put_snapshot item.device_id snapshot item.device_id db₁.mls_client_snapshots
          ∙ rw ((text_iff item.device_id item.device_id).1 refl),
      insert_optional-MessageRecorded faults message db (stored, db₁) h₁,
    )

confirm_message-MessageRecorded :
    (faults : Faults) (message : Option NewVaultMessage) (db : Database)
    (stored : Option VaultMessage)
    → confirm_message faults message db ≡ ok stored
    → MessageRecorded message stored db.local_messages
unfolding confirm_message
confirm_message-MessageRecorded faults none db stored h = ground arith
confirm_message-MessageRecorded faults (some message) db stored h =
    elim (Option-cases (find_message message.id db.local_messages)) [
      | inl e ↦ absurd (ground arith)
      | inr (row, e) ↦ ground (
        arith,
        text_iff row.id message.id,
        text_iff row.channel_id message.channel_id,
        text_iff row.body message.body,
        int_beq_iff row.created_at_ms message.created_at_ms,
      )
    ]

repeat_item-Recorded :
    (faults : Faults) (item : VaultOutboxItem) (snapshot : Bytes) (message : Option NewVaultMessage)
    (db db' : Database) (existing : VaultOutboxItem) (stored : Option VaultMessage)
    → find_item item.event_id db.mls_outbox ≡ some existing
    → repeat_item faults item snapshot message db existing ≡ ok (stored, db')
    → Recorded item snapshot message stored db
unfolding repeat_item
repeat_item-Recorded faults item snapshot message db db' existing stored found h =
    elim (Option-cases (find_snapshot item.device_id db.mls_client_snapshots)) [
      | inl e ↦ absurd (ground arith)
      | inr (s, e) ↦ elim (Result-cases (confirm_message faults message db)) [
        | inr (f, k) ↦ absurd (ground arith)
        | inl (m, k) ↦ (
          ground (
            arith,
            find_item-id item.event_id db.mls_outbox existing found,
            text_iff existing.device_id item.device_id,
            text_iff existing.payload item.payload,
          ),
          ground (arith, text_iff s snapshot),
          confirm_message-MessageRecorded faults message db stored (k ∙ ground arith),
        )
      ]
    ]

transact-Recorded :
    (faults : Faults) (item : VaultOutboxItem) (snapshot : Bytes) (message : Option NewVaultMessage)
    (db db' : Database) (found : Option VaultOutboxItem) (stored : Option VaultMessage)
    → find_item item.event_id db.mls_outbox ≡ found
    → transact faults item snapshot message db found ≡ ok (stored, db')
    → Recorded item snapshot message stored db'
transact-Recorded faults item snapshot message db db' (some existing) stored e h =
    subst (Recorded item snapshot message stored)
      (sym (repeat_item-same faults item snapshot message db db' existing stored h))
      (repeat_item-Recorded faults item snapshot message db db' existing stored e h)
transact-Recorded faults item snapshot message db db' none stored e h =
    insert_all-Recorded faults item snapshot message db db' stored h

settle-ok :
    {A : Type 0} (r : Result VaultError (A × Database)) (db db' : Database) (a : A)
    → settle db r ≡ (ok a, some db')
    → r ≡ ok (a, db')
settle-ok (ok (b, db₁)) db db' a h = ground arith
settle-ok (err e) db db' a h = absurd (ground arith)

pub checked-ok :
    {A : Type 0} (valid : Result VaultError Unit)
    (body : Database → Result VaultError (A × Database)) (db db' : Database) (a : A)
    → checked valid (atomically body) (some db) ≡ (ok a, some db')
    → (valid ≡ ok tt) × (body db ≡ ok (a, db'))
checked-ok (err e) body db db' a h = absurd (ground arith)
checked-ok (ok tt) body db db' a h = (refl, settle-ok (body db) db db' a h)

-- A transaction that succeeds leaves the outbox row, the snapshot and the message row together in the
-- tables, whether it wrote them or found them there.
pub store_mls_transaction-Recorded :
    (faults : Faults) (device_id : Text) (snapshot : Bytes) (event_id : Text) (payload : Bytes)
    (message : Option NewVaultMessage) (db db' : Database) (stored : Option VaultMessage)
    → store_mls_transaction faults device_id snapshot event_id payload message (some db)
      ≡ (ok stored, some db')
    → (validate_transaction device_id snapshot event_id payload ≡ ok tt)
      × Recorded (item_of device_id event_id payload) snapshot message stored db'
unfolding store_mls_transaction
store_mls_transaction-Recorded faults device_id snapshot event_id payload message db db' stored h =
    let (valid, run) =
      checked-ok (validate_transaction device_id snapshot event_id payload) _ db db' stored h in
    let (_, _, k) = >>=-eq-ok (attempt faults begin) _ run in
    let (_, _, q) = >>=-eq-ok (attempt faults select_outbox) _ k in
    (
      valid,
      transact-Recorded faults (item_of device_id event_id payload) snapshot message db db'
          (find_item event_id db.mls_outbox) stored refl q,
    )

confirm_message-eq :
    (message : Option NewVaultMessage) (db : Database) (stored : Option VaultMessage)
    → MessageRecorded message stored db.local_messages
    → confirm_message no_faults message db ≡ ok stored
unfolding confirm_message
confirm_message-eq none db stored h = ground arith
confirm_message-eq (some message) db stored h = ground (
  arith,
  text_iff message.id message.id,
  text_iff message.channel_id message.channel_id,
  text_iff message.body message.body,
  int_beq_iff message.created_at_ms message.created_at_ms,
)

-- After a transaction that succeeded, the same call once more succeeds with the same result and changes
-- nothing, if no statement fails.
pub store_mls_transaction_repeated :
    (faults : Faults) (device_id : Text) (snapshot : Bytes) (event_id : Text) (payload : Bytes)
    (message : Option NewVaultMessage) (db db' : Database) (stored : Option VaultMessage)
    → store_mls_transaction faults device_id snapshot event_id payload message (some db)
      ≡ (ok stored, some db')
    → store_mls_transaction no_faults device_id snapshot event_id payload message (some db')
      ≡ (ok stored, some db')
unfolding store_mls_transaction repeat_item
store_mls_transaction_repeated faults device_id snapshot event_id payload message db db' stored h =
    let (valid, (row, kept, told)) =
      store_mls_transaction-Recorded faults device_id snapshot event_id payload message db db'
        stored h in
    ground (
      arith,
      confirm_message-eq message db' stored told,
      text_iff device_id device_id,
      text_iff payload payload,
      text_iff snapshot snapshot,
    )
