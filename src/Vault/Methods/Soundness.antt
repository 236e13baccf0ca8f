-- ===== src/Vault/Methods/Soundness.antt =====
-- Every method keeps the tables sound, whatever it is called with and whatever the engine fails to do.
use singularis.Prelude.{
  ok_or, >>=-eq-ok, ℕ, zero, suc, ◌≤◌, ◌≡◌, refl, Bool, false, not, Option, none, some, List, [],
  ◌∷◌, ok, Text, Bytes, length, is_empty, arith, All, any, take, Option-cases, Result-cases, inl,
  inr, subst, sym,
}
use singularis.Vault.Error.{corrupt_state}
use singularis.Vault.Input.{
  NewVaultMessage, VaultMessage, VaultOutboxItem, validate_identifier, validate_message,
  validate_mls_outbox_payload, validate_mls_outbox_items, is_bad_item, validate_mls_snapshot,
  max_id_bytes, device_id_message, event_id_message,
}
use singularis.Vault.Database.{
  select_device, find_snapshot, Database, Faults, no_faults, Connection, attempt, atomically,
  insert_message, upsert, insert_item, begin, select_outbox,
}
use singularis.Vault.Schema.{
  IsSound, IsSoundConnection, ItemRow, insert_message-IsSound, upsert-IsSound, insert_item-IsSound,
  delete_items-IsSound, atomically-IsSound, checked-IsSound,
}
use singularis.Vault.Methods.{
  store_message, store_mls_client_snapshot, write_snapshot, UuidText, device_row, local_device_id,
}
use singularis.Vault.Methods.Outbox.{
  store_mls_transaction, validate_transaction, transact, repeat_item, confirm_message, insert_all,
  insert_optional, item_of, acknowledge_mls_outbox, delete_item, list_all_mls_outbox, outbox_limit,
  is_acknowledged,
}

insert_optional-IsSound :
    (faults : Faults) (message : Option NewVaultMessage) (db : Database)
    (r : Option VaultMessage × Database)
    → IsSound db
    → insert_optional faults message db ≡ ok r
    → IsSound r.1
insert_optional-IsSound faults none db r v h = subst IsSound (ground arith) v
insert_optional-IsSound faults (some message) db r v h =
    let (inserted, k, q) = >>=-eq-ok (insert_message faults message db) _ h in
    subst IsSound (ground arith)
      (insert_message-IsSound faults message db inserted.1 inserted.0 v k)

insert_all-IsSound :
    (faults : Faults) (item : VaultOutboxItem) (snapshot : Bytes) (message : Option NewVaultMessage)
    (db db' : Database) (stored : Option VaultMessage)
    → ItemRow item
    → IsSound db
    → insert_all faults item snapshot message db ≡ ok (stored, db')
    → IsSound db'
unfolding insert_all
insert_all-IsSound faults item snapshot message db db' stored row v h =
    let (first, h₁, k₁) = >>=-eq-ok (insert_optional faults message db) _ h in
    let (second, h₂, k₂) = >>=-eq-ok (upsert faults item.device_id snapshot first.1) _ k₁ in
    let (third, h₃, k₃) = >>=-eq-ok (insert_item faults item second) _ k₂ in
    subst IsSound (ground arith) (
      insert_item-IsSound faults item second third row
        (upsert-IsSound faults item.device_id snapshot first.1 second
          (insert_optional-IsSound faults message db first v h₁) h₂)
        h₃)

pub repeat_item-same :
    (faults : Faults) (item : VaultOutboxItem) (snapshot : Bytes) (message : Option NewVaultMessage)
    (db db' : Database) (existing : VaultOutboxItem) (stored : Option VaultMessage)
    → repeat_item faults item snapshot message db existing ≡ ok (stored, db')
    → db' ≡ db
unfolding repeat_item
repeat_item-same faults item snapshot message db db' existing stored h =
    elim (Option-cases (find_snapshot item.device_id db.mls_client_snapshots)) [
      | inl e ↦ absurd (ground arith)
      | inr (s, e) ↦ elim (Result-cases (confirm_message faults message db)) [
        | inl (m, k) ↦ ground arith
        | inr (f, k) ↦ absurd (ground arith)
      ]
    ]

transact-IsSound :
    (faults : Faults) (item : VaultOutboxItem) (snapshot : Bytes) (message : Option NewVaultMessage)
    (db db' : Database) (found : Option VaultOutboxItem) (stored : Option VaultMessage)
    → ItemRow item
    → IsSound db
    → transact faults item snapshot message db found ≡ ok (stored, db')
    → IsSound db'
transact-IsSound faults item snapshot message db db' (some existing) stored row v h =
    subst IsSound (sym (repeat_item-same faults item snapshot message db db' existing stored h)) v
transact-IsSound faults item snapshot message db db' none stored row v h =
    insert_all-IsSound faults item snapshot message db db' stored row v h

pub validate_transaction-ItemRow :
    (device_id : Text) (snapshot : Bytes) (event_id : Text) (payload : Bytes)
    → validate_transaction device_id snapshot event_id payload ≡ ok tt
    → ItemRow (item_of device_id event_id payload)
unfolding validate_transaction validate_mls_outbox_payload
validate_transaction-ItemRow device_id snapshot event_id [] h =
    let (_, _, k) = >>=-eq-ok (validate_identifier device_id max_id_bytes device_id_message) _ h in
    let (_, _, q) = >>=-eq-ok (validate_identifier event_id max_id_bytes event_id_message) _ k in
    let (_, _, r) = >>=-eq-ok (validate_mls_snapshot snapshot) _ q in absurd (cc)
validate_transaction-ItemRow device_id snapshot event_id (b ∷ payload) h =
    let (_, h₁, k) = >>=-eq-ok (validate_identifier device_id max_id_bytes device_id_message) _ h in
    let (_, h₂, q) = >>=-eq-ok (validate_identifier event_id max_id_bytes event_id_message) _ k in
    let (_, _, r) = >>=-eq-ok (validate_mls_snapshot snapshot) _ q in
    (h₁, h₂, (omega arith, ground arith))

store_mls_transaction-IsSound :
    (faults : Faults) (device_id : Text) (snapshot : Bytes) (event_id : Text) (payload : Bytes)
    (message : Option NewVaultMessage) (c : Connection)
    → IsSoundConnection c
    → IsSoundConnection
        (store_mls_transaction faults device_id snapshot event_id payload message c).1
unfolding store_mls_transaction
store_mls_transaction-IsSound faults device_id snapshot event_id payload message c v =
    checked-IsSound (validate_transaction device_id snapshot event_id payload) _ c v λ valid.
      atomically-IsSound _
        (λ db db' stored w h.
          let (_, _, k) = >>=-eq-ok (attempt faults begin) _ h in
          let (_, _, q) = >>=-eq-ok (attempt faults select_outbox) _ k in
          transact-IsSound faults (item_of device_id event_id payload) snapshot message db db' _
            stored (validate_transaction-ItemRow device_id snapshot event_id payload valid) w q)
        c v

delete_item-IsSound :
    (faults : Faults) (device_id event_id : Text) (db db' : Database) (deleted : Bool)
    → IsSound db
    → delete_item faults device_id event_id db ≡ ok (deleted, db')
    → IsSound db'
unfolding delete_item
delete_item-IsSound faults device_id event_id db db' deleted v h =
    subst IsSound (ground arith)
      (delete_items-IsSound (λ item. not (is_acknowledged device_id event_id item)) db v)

acknowledge_mls_outbox-IsSound :
    (faults : Faults) (device_id event_id : Text) (c : Connection)
    → IsSoundConnection c
    → IsSoundConnection (acknowledge_mls_outbox faults device_id event_id c).1
unfolding acknowledge_mls_outbox
acknowledge_mls_outbox-IsSound faults device_id event_id c v =
    checked-IsSound {A = Bool} _ (atomically (delete_item faults device_id event_id)) c v λ valid.
      atomically-IsSound (delete_item faults device_id event_id)
        (λ db db' deleted w h. delete_item-IsSound faults device_id event_id db db' deleted w h) c v

write_snapshot-IsSound :
    (faults : Faults) (device_id : Text) (snapshot : Bytes) (db db' : Database) (done : Unit)
    → IsSound db
    → write_snapshot faults device_id snapshot db ≡ ok (done, db')
    → IsSound db'
unfolding write_snapshot
write_snapshot-IsSound faults device_id snapshot db db' done v h =
    let (db₁, k, q) = >>=-eq-ok (upsert faults device_id snapshot db) _ h in
    subst IsSound (ground arith) (upsert-IsSound faults device_id snapshot db db₁ v k)

store_message-IsSound :
    (faults : Faults) (message : NewVaultMessage) (c : Connection)
    → IsSoundConnection c
    → IsSoundConnection (store_message faults message c).1
unfolding store_message
store_message-IsSound faults message c v = checked-IsSound (validate_message message) _ c v λ valid.
    atomically-IsSound _
      (λ db db' stored w h. insert_message-IsSound faults message db db' stored w h) c v

store_mls_client_snapshot-IsSound :
    (faults : Faults) (device_id : Text) (snapshot : Bytes) (c : Connection)
    → IsSoundConnection c
    → IsSoundConnection (store_mls_client_snapshot faults device_id snapshot c).1
unfolding store_mls_client_snapshot
store_mls_client_snapshot-IsSound faults device_id snapshot c v =
    checked-IsSound {A = Unit} _ (atomically (write_snapshot faults device_id snapshot)) c v
      λ valid.
        atomically-IsSound (write_snapshot faults device_id snapshot)
          (λ db db' done w h. write_snapshot-IsSound faults device_id snapshot db db' done w h) c v

device_row-IsSound :
    (uuid : UuidText) (faults : Faults) (new_v4 : ℕ) (stored : Option Text) (db db' : Database)
    (id : ℕ)
    → IsSound db
    → device_row uuid faults new_v4 db stored ≡ ok (id, db')
    → IsSound db'
device_row-IsSound uuid faults new_v4 (some text) db db' id v h =
    let (_, _, k) = >>=-eq-ok (ok_or (uuid.parse_str text) corrupt_state) _ h in
    subst IsSound (ground arith) v
device_row-IsSound uuid faults new_v4 none db db' id v h =
    subst IsSound {x = record db { local_device = some (uuid.to_string new_v4) }} (ground arith)
      (record {
        message_ids = v.message_ids;
        messages = v.messages;
        device_ids = v.device_ids;
        snapshots = v.snapshots;
        event_ids = v.event_ids;
        items = v.items;
        owned = v.owned;
      })

local_device_id-IsSound :
    (uuid : UuidText) (faults : Faults) (new_v4 : ℕ) (c : Connection)
    → IsSoundConnection c
    → IsSoundConnection (local_device_id uuid faults new_v4 c).1
unfolding local_device_id
local_device_id-IsSound uuid faults new_v4 c v =
    atomically-IsSound _
      (λ db db' id w h.
        let (_, _, k) = >>=-eq-ok (attempt faults select_device) _ h in
        device_row-IsSound uuid faults new_v4 db.local_device db db' id w k)
      c v

-- The calls that change the tables, each with the statements that the engine fails to run.
pub data Call : Type 0 where
  stores_message : Faults → NewVaultMessage → Call
  stores_snapshot : Faults → Text → Bytes → Call
  queues : Faults → Text → Bytes → Text → Bytes → Option NewVaultMessage → Call
  acknowledges : Faults → Text → Text → Call
  identifies : UuidText → Faults → ℕ → Call

abbrev pub step : Call → Connection → Connection
step (stores_message faults message) c = (store_message faults message c).1
step (stores_snapshot faults device_id snapshot) c =
    (store_mls_client_snapshot faults device_id snapshot c).1
step (queues faults device_id snapshot event_id payload message) c =
    (store_mls_transaction faults device_id snapshot event_id payload message c).1
step (acknowledges faults device_id event_id) c =
    (acknowledge_mls_outbox faults device_id event_id c).1
step (identifies uuid faults new_v4) c = (local_device_id uuid faults new_v4 c).1

unfoldable pub run : List Call → Connection → Connection
run [] c = c
run (call ∷ calls) c = run calls (step call c)

step-IsSound :
    (call : Call) (c : Connection) → IsSoundConnection c → IsSoundConnection (step call c)
step-IsSound (stores_message faults message) c v = store_message-IsSound faults message c v
step-IsSound (stores_snapshot faults device_id snapshot) c v =
    store_mls_client_snapshot-IsSound faults device_id snapshot c v
step-IsSound (queues faults device_id snapshot event_id payload message) c v =
    store_mls_transaction-IsSound faults device_id snapshot event_id payload message c v
step-IsSound (acknowledges faults device_id event_id) c v =
    acknowledge_mls_outbox-IsSound faults device_id event_id c v
step-IsSound (identifies uuid faults new_v4) c v = local_device_id-IsSound uuid faults new_v4 c v

-- After any calls on sound tables, valid or not and with any statements failing, the tables are sound:
-- unique keys, sizes within the limits, and a stored snapshot behind each outbox row.
pub run-IsSound :
    (calls : List Call) (c : Connection) → IsSoundConnection c → IsSoundConnection (run calls c)
unfolding run
run-IsSound [] c v = v
run-IsSound (call ∷ calls) c v = run-IsSound calls (step call c) (step-IsSound call c v)

nonempty : (b : Bytes) → 1 ≤ length b → is_empty b ≡ false
nonempty [] h = absurd (omega arith)
nonempty (c ∷ b) h = refl

ItemRow-is_good : (item : VaultOutboxItem) → ItemRow item → is_bad_item item ≡ false
unfolding validate_mls_outbox_payload
ItemRow-is_good item row = ground (arith, nonempty item.payload)

no_bad_items :
    (n : ℕ) (l : List VaultOutboxItem) → All ItemRow l → any is_bad_item (take n l) ≡ false
unfolding any
no_bad_items zero l h = refl
no_bad_items (suc n) [] h = refl
no_bad_items (suc n) (item ∷ l) h = rw (ItemRow-is_good item h.0) (no_bad_items n l h.1)

-- On sound tables and if no statement fails, the worker's reading of the outbox reports no damage:
-- it returns the first thousand rows in the order of their insertion.
pub list_all_mls_outbox-eq :
    (db : Database)
    → IsSound db
    → list_all_mls_outbox no_faults (some db) ≡ ok (take outbox_limit db.mls_outbox)
unfolding list_all_mls_outbox validate_mls_outbox_items
list_all_mls_outbox-eq db v = rw (no_bad_items outbox_limit db.mls_outbox v.items)
