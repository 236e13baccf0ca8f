-- ===== src/Vault/Methods/Keeps.antt =====
-- What every call keeps: a property of the tables that each change of them keeps.
use singularis.Prelude.{
  ok_or, >>=-eq-ok, ℕ, ◌≡◌, refl, not, Option, none, some, List, [], ◌∷◌, ◌++◌, Result, ok, err,
  Text, Bytes, arith, All, retain, subst, sym, ◌∙◌,
}
use singularis.Vault.Error.{VaultError, corrupt_state}
use singularis.Vault.Input.{NewVaultMessage, VaultMessage, VaultOutboxItem, validate_message}
use singularis.Vault.Database.{
  Database, Faults, Connection, attempt, atomically, checked, settle, insert_message, upsert,
  insert_item, find_item, put_snapshot, begin, select_outbox, select_device,
}
use singularis.Vault.Schema.{insert_message-parts, upsert-parts, insert_item-parts}
use singularis.Vault.Methods.{
  store_message, store_mls_client_snapshot, write_snapshot, device_row, local_device_id,
}
use singularis.Vault.Methods.Outbox.{
  store_mls_transaction, validate_transaction, transact, insert_all, insert_optional, item_of,
  acknowledge_mls_outbox, delete_item, is_acknowledged,
}
use singularis.Vault.Methods.Soundness.{
  repeat_item-same, Call, stores_message, stores_snapshot, queues, acknowledges, identifies, step,
  run,
}

-- The vault is open, and its tables have the property.
abbrev pub At : (Database → Type 0) → Connection → Type 0
At P none = ⊥
At P (some db) = P db

-- The acknowledgements among the calls are allowed ones.
abbrev pub Allows : (Text → Text → Type 0) → Call → Type 0
Allows Allowed (acknowledges faults device_id event_id) = Allowed device_id event_id
Allows Allowed _ = Unit

module _ (P : Database → Type 0) (Allowed : Text → Text → Type 0)
    (on_messages : (db : Database) (rows : List VaultMessage)
      → P db
      → P (record db { local_messages = rows }))
    (on_snapshot : (db : Database) (device_id : Text) (snapshot : Bytes)
      → P db
      → P (record db {
        mls_client_snapshots = put_snapshot device_id snapshot db.mls_client_snapshots;
      }))
    (on_item : (db : Database) (item : VaultOutboxItem)
      → find_item item.event_id db.mls_outbox ≡ none
      → P db
      → P (record db { mls_outbox = db.mls_outbox ++ item ∷ [] }))
    (on_deleted : (db : Database) (device_id event_id : Text)
      → Allowed device_id event_id
      → P db
      → P (record db {
        mls_outbox = retain (λ item. not (is_acknowledged device_id event_id item)) db.mls_outbox;
      }))
    (on_device : (db : Database) (text : Text)
      → db.local_device ≡ none
      → P db
      → P (record db { local_device = some text })) where
  settle-At :
      {A : Type 0} (db : Database) (r : Result VaultError (A × Database))
      → ((a : A) (db' : Database) → r ≡ ok (a, db') → P db')
      → P db
      → At P (settle db r).1
  settle-At db (ok (a, db')) kept p = kept a db' refl
  settle-At db (err e) kept p = p

  checked-At :
      {A : Type 0} (valid : Result VaultError Unit)
      (body : Database → Result VaultError (A × Database))
      → ((db db' : Database) (a : A) → P db → body db ≡ ok (a, db') → P db')
      → (c : Connection) → At P c
      → At P (checked valid (atomically body) c).1
  checked-At (err e) body kept c p = p
  checked-At (ok u) body kept none p = p
  checked-At (ok u) body kept (some db) p = settle-At db (body db) (λ a db' h. kept db db' a p h) p

  insert_message-keeps :
      (faults : Faults) (message : NewVaultMessage) (db db' : Database) (stored : VaultMessage)
      → P db
      → insert_message faults message db ≡ ok (stored, db')
      → P db'
  insert_message-keeps faults message db db' stored p h =
      subst P (sym (insert_message-parts faults message db db' stored h).1) (on_messages db _ p)

  upsert-keeps :
      (faults : Faults) (device_id : Text) (snapshot : Bytes) (db db' : Database)
      → P db
      → upsert faults device_id snapshot db ≡ ok db'
      → P db'
  upsert-keeps faults device_id snapshot db db' p h =
      subst P (sym (upsert-parts faults device_id snapshot db db' h).0)
        (on_snapshot db device_id snapshot p)

  insert_optional-keeps :
      (faults : Faults) (message : Option NewVaultMessage) (db : Database)
      (r : Option VaultMessage × Database)
      → P db
      → insert_optional faults message db ≡ ok r
      → P r.1
  insert_optional-keeps faults none db r p h = subst P (ground arith) p
  insert_optional-keeps faults (some message) db r p h =
      let (inserted, k, q) = >>=-eq-ok (insert_message faults message db) _ h in
      subst P (ground arith) (insert_message-keeps faults message db inserted.1 inserted.0 p k)

  transact-keeps :
      (faults : Faults) (item : VaultOutboxItem) (snapshot : Bytes)
      (message : Option NewVaultMessage) (db db' : Database) (found : Option VaultOutboxItem)
      (stored : Option VaultMessage)
      → P db
      → transact faults item snapshot message db found ≡ ok (stored, db')
      → P db'
  unfolding insert_all
  transact-keeps faults item snapshot message db db' (some existing) stored p h =
      subst P (sym (repeat_item-same faults item snapshot message db db' existing stored h)) p
  transact-keeps faults item snapshot message db db' none stored p h =
      let (first, h₁, k₁) = >>=-eq-ok (insert_optional faults message db) _ h in
      let (second, h₂, k₂) = >>=-eq-ok (upsert faults item.device_id snapshot first.1) _ k₁ in
      let (third, h₃, k₃) = >>=-eq-ok (insert_item faults item second) _ k₂ in
      let (same, fresh, _) = insert_item-parts faults item second third h₃ in
      subst P (sym same ∙ ground arith) (
        on_item second item fresh (
          upsert-keeps faults item.device_id snapshot first.1 second
            (insert_optional-keeps faults message db first p h₁) h₂))

  step-At : (call : Call) (c : Connection) → Allows Allowed call → At P c → At P (step call c)
  unfolding store_message store_mls_client_snapshot write_snapshot store_mls_transaction
      acknowledge_mls_outbox delete_item local_device_id
  step-At (stores_message faults message) c allowed p =
      checked-At (validate_message message) (insert_message faults message)
        (λ db db' stored q h. insert_message-keeps faults message db db' stored q h) c p
  step-At (stores_snapshot faults device_id snapshot) c allowed p =
      checked-At _ (write_snapshot faults device_id snapshot)
        (λ db db' u q h.
          let (db₁, k, r) = >>=-eq-ok (upsert faults device_id snapshot db) _ h in
          subst P (ground arith) (upsert-keeps faults device_id snapshot db db₁ q k))
        c p
  step-At (queues faults device_id snapshot event_id payload message) c allowed p =
      checked-At (validate_transaction device_id snapshot event_id payload) _
        (λ db db' stored q h.
          let (_, _, k) = >>=-eq-ok (attempt faults begin) _ h in
          let (_, _, r) = >>=-eq-ok (attempt faults select_outbox) _ k in
          transact-keeps faults (item_of device_id event_id payload) snapshot message db db' _
            stored q r)
        c p
  step-At (acknowledges faults device_id event_id) c allowed p =
      checked-At _ (delete_item faults device_id event_id)
        (λ db db' deleted q h. subst P (ground arith) (on_deleted db device_id event_id allowed q))
        c p
  step-At (identifies uuid faults new_v4) c allowed p = identified c p
    where
      row :
          (stored : Option Text) (db db' : Database) (id : ℕ)
          → db.local_device ≡ stored
          → P db
          → device_row uuid faults new_v4 db stored ≡ ok (id, db')
          → P db'
      row (some text) db db' id e q h =
          let (_, _, k) = >>=-eq-ok (ok_or (uuid.parse_str text) corrupt_state) _ h in
          subst P (ground arith) q
      row none db db' id e q h = subst P (ground arith) (on_device db (uuid.to_string new_v4) e q)

      identified : (c : Connection) → At P c → At P (local_device_id uuid faults new_v4 c).1
      identified none p = p
      identified (some db) p =
          settle-At db _
            (λ id db' h.
              let (_, _, k) = >>=-eq-ok (attempt faults select_device) _ h in
              row db.local_device db db' id refl p k)
            p

  -- Calls whose acknowledgements are allowed keep the property, valid or not and with any statements
  -- failing.
  pub run-At :
      (calls : List Call) (c : Connection)
      → All (Allows Allowed) calls
      → At P c
      → At P (run calls c)
  unfolding run
  run-At [] c allowed p = p
  run-At (call ∷ calls) c allowed p =
      run-At calls (step call c) allowed.1 (step-At call c allowed.0 p)
