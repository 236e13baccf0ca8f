-- ===== src/Vault/Atomicity.antt =====
-- A call of the vault that fails leaves the connection as it was.
use singularis.Prelude.{◌≡◌, refl, none, some, Result, ok, err, Text, Bytes}
use singularis.Vault.Error.{VaultError}
use singularis.Vault.Database.{Database, Faults, Connection, atomically, checked, settle}
use singularis.Vault.Methods.{store_mls_client_snapshot}
use singularis.Vault.Methods.Outbox.{store_mls_transaction, store_mls_snapshot_and_outbox, discard}

-- The result of a call, and the connection behind it, where the call began with the given one.
abbrev pub Unchanged : {E A : Type 0} → Connection → Result E A × Connection → Type 0
Unchanged c (ok a, c') = Unit
Unchanged c (err e, c') = c' ≡ c

settle-Unchanged :
    {A : Type 0} (db : Database) (r : Result VaultError (A × Database))
    → Unchanged (some db) (settle db r)
settle-Unchanged db (ok (a, db')) = tt
settle-Unchanged db (err e) = refl

pub checked-Unchanged :
    {A : Type 0} (valid : Result VaultError Unit)
    (body : Database → Result VaultError (A × Database)) (c : Connection)
    → Unchanged c (checked valid (atomically body) c)
checked-Unchanged (err e) body c = refl
checked-Unchanged (ok u) body none = refl
checked-Unchanged (ok u) body (some db) = settle-Unchanged db (body db)

pub store_mls_client_snapshot-Unchanged :
    (faults : Faults) (device_id : Text) (snapshot : Bytes) (c : Connection)
    → Unchanged c (store_mls_client_snapshot faults device_id snapshot c)
unfolding store_mls_client_snapshot
store_mls_client_snapshot-Unchanged faults device_id snapshot c = checked-Unchanged _ _ c

discard-Unchanged :
    {A : Type 0} (c : Connection) (r : Result VaultError A × Connection)
    → Unchanged c r
    → Unchanged c (discard r)
discard-Unchanged c (ok a, c') h = tt
discard-Unchanged c (err e, c') h = h

pub store_mls_snapshot_and_outbox-Unchanged :
    (faults : Faults) (device_id : Text) (snapshot : Bytes) (event_id : Text) (payload : Bytes)
    (c : Connection)
    → Unchanged c (store_mls_snapshot_and_outbox faults device_id snapshot event_id payload c)
unfolding store_mls_snapshot_and_outbox store_mls_transaction
store_mls_snapshot_and_outbox-Unchanged faults device_id snapshot event_id payload c =
    discard-Unchanged c _ (checked-Unchanged _ _ c)
