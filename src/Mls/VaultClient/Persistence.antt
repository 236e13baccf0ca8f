-- ===== src/Mls/VaultClient/Persistence.antt =====
-- What a call of the vault's client that succeeded has stored.
use singularis.Prelude.{
  ℕ, ◌≡◌, refl, ap, Option, some, Result, ok, err, Bytes, nat_eq, arith, map_ok,
}
use singularis.Protocol.Event.{SubmitEvent, SubmitJson}
use singularis.Protocol.Ttl.{ServerTtl}
use singularis.Protocol.Message.{Base64}
use singularis.Vault.Error.{VaultError}
use singularis.Vault.Database.{Database, Faults, no_faults, Connection, find_item}
use singularis.Vault.Methods.{UuidText}
use singularis.Vault.Methods.Outbox.{item_of}
use singularis.Mls.Error.{MlsError}
use singularis.Mls.Event.{PlaintextEvent, EventJson}
use singularis.Mls.Chain.{MlsClient, EncryptedEvent, OpenMls, AuthenticatedTransportMetadata}
use singularis.Mls.Snapshot.{Provider, Storage, SnapshotJson}
use singularis.Mls.Snapshot.RoundTrip.{Restorable, SameClient, decode-encode_snapshot}
use singularis.Mls.VaultClient.{VaultMlsClient, lift, load_from_vault}
use singularis.Mls.VaultClient.Queue.{queue_outgoing, submission_only, persist_outbox, queue_event}
use singularis.Vault.Methods.Reload.{stored-transaction}
use singularis.Mls.VaultClient.Queued.{queue_outgoing-Queued, prepare-ok}

module _ {Group Signer : Type 0} (storage : Storage Group Signer) (json : SnapshotJson)
    (uuid : UuidText) (faults : Faults) (codec : Base64) (submit_json : SubmitJson) where
  lift-ok :
      (r : Result VaultError Unit × Connection) (c : Connection)
      → lift r ≡ (ok tt, c)
      → r ≡ (ok tt, c)
  lift-ok (ok u, c') c h = ap (λ r. (ok tt, r.1)) h
  lift-ok (err e, c') c h = absurd (ground (arith, ap (λ r. r.0) h))

  -- A row of the outbox holds the submission, and what is loaded is the client.
  pub record Stored (submission : SubmitEvent) (v : VaultMlsClient Group Signer) : Type 0 where
    pub db : Database
    pub payload : Bytes
    pub reloaded : MlsClient Group (Provider Signer)
    pub open_vault : v.vault ≡ some db
    pub encoded : submit_json.to_vec submission ≡ some payload
    pub queued :
        find_item (uuid.to_string submission.event_id) db.mls_outbox
        ≡ some (
            item_of
              (uuid.to_string v.client.device_id)
              (uuid.to_string submission.event_id)
              payload)
    pub loads :
        load_from_vault storage json uuid no_faults v.client.device_id v.vault ≡ ok (some reloaded)
    pub same : SameClient storage v.client reloaded

  queue_outgoing-Stored :
      (ttl_seconds : ServerTtl)
      (operation : MlsClient Group (Provider Signer)
        → Result MlsError EncryptedEvent × MlsClient Group (Provider Signer))
      (v v' : VaultMlsClient Group Signer) (submission : SubmitEvent)
      → Restorable storage v'.client
      → queue_outgoing storage json uuid faults codec submit_json ttl_seconds operation
          (persist_outbox storage json uuid faults codec submit_json)
          v
        ≡ (ok (submission, tt), v')
      → Stored submission v'
  unfolding load_from_vault
  queue_outgoing-Stored ttl_seconds operation v v' submission r h =
      let q =
        queue_outgoing-Queued storage json uuid faults codec submit_json ttl_seconds operation
          (persist_outbox storage json uuid faults codec submit_json) v v' submission tt h in
      let (encoded, written) =
        prepare-ok storage json uuid faults codec submit_json ttl_seconds q.encrypted v'.client
          submission q.payload q.snapshot q.prepared in
      let (db', opened, found, row) =
        stored-transaction faults (uuid.to_string v'.client.device_id) q.snapshot
          (uuid.to_string submission.event_id) q.payload v.vault v'.vault
          (lift-ok _ v'.vault q.persisted) in
      let (reloaded, decoded, same) =
        decode-encode_snapshot storage json v'.client q.snapshot r written in
      record {
        db = db';
        payload = q.payload;
        reloaded = reloaded;
        open_vault = opened;
        encoded = encoded;
        queued = row;
        loads = rw (opened, found, decoded) refl;
        same = same;
      }

  submission_only-ok :
      (r : Result MlsError (SubmitEvent × Unit {0}) × VaultMlsClient Group Signer)
      (submission : SubmitEvent) (v' : VaultMlsClient Group Signer)
      → submission_only storage json uuid faults codec submit_json r ≡ (ok submission, v')
      → r ≡ (ok (submission, tt), v')
  submission_only-ok (ok (s, u), v) submission v' h = ap (λ r. (map_ok (λ t. (t, tt)) r.0, r.1)) h
  submission_only-ok (err e, v) submission v' h = absurd (ground (arith, ap (λ r. r.0) h))

  -- An event that was queued survives a restart with the state that encrypted it: the vault's outbox
  -- has the row that carries the submission, and loading the client from the vault yields one with the
  -- same contents.
  pub queue_event-Stored :
      (events : EventJson) (metadata_to_vec : AuthenticatedTransportMetadata → Option Bytes)
      (digest : Bytes → ℕ) (mls : OpenMls Group (Provider Signer)) (event : PlaintextEvent)
      (ttl_seconds : ServerTtl) (v v' : VaultMlsClient Group Signer) (submission : SubmitEvent)
      → Restorable storage v'.client
      → queue_event storage json uuid faults codec submit_json events metadata_to_vec digest mls
          event ttl_seconds v
        ≡ (ok submission, v')
      → Stored submission v'
  unfolding queue_event
  queue_event-Stored events metadata_to_vec digest mls event ttl_seconds v v' submission r h =
      queue_outgoing-Stored ttl_seconds _ v v' submission r (submission_only-ok _ submission v' h)
