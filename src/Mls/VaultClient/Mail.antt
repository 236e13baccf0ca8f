-- ===== src/Mls/VaultClient/Mail.antt =====
-- What the calls of the vault's client do to the messages and the outbox of the vault, whether the client
-- could be restored or not.
use singularis.Prelude.{
  ◌≡◌, refl, sym, ap, ◌∙◌, Option, none, some, Result, ok, err, Bytes, Text, HashMap, nat_eq,
  Result-cases, inl, inr, arith, map_ok, ok_value,
}
use singularis.Protocol.Event.{SubmitEvent, SubmitJson}
use singularis.Protocol.Ttl.{ServerTtl}
use singularis.Protocol.Message.{Base64}
use singularis.Protocol.Event.{Uuid}
use singularis.Vault.Database.{Faults, Connection}
use singularis.Vault.Atomicity.{Unchanged}
use singularis.Vault.Methods.{UuidText}
use singularis.Vault.Methods.Mail.{mail, store_mls_client_snapshot-mail}
use singularis.Mls.Error.{MlsError}
use singularis.Mls.Chain.{MlsClient, EncryptedEvent}
use singularis.Mls.Snapshot.{Provider, Storage, SnapshotJson, encode_snapshot, decode_snapshot}
use singularis.Mls.VaultClient.{
  VaultMlsClient, on_snapshot, save_to_vault, on_restored, restore, on_saved, on_operated,
  on_previous, transact, on_new, create, load, load_from_vault,
}
use singularis.Mls.VaultClient.Queue.{
  Persist, on_persisted, on_prepared, on_encrypted, queue_outgoing,
}
use singularis.Mls.VaultClient.Queue

-- A call that fails leaves this vault.
abbrev pub FailsOver :
    {Group Signer A : Type 0}
    → Connection
    → Result MlsError A × VaultMlsClient Group Signer
    → Type 0
FailsOver c (ok a, v) = Unit
FailsOver c (err e, v) = v.vault ≡ c

module _ {Group Signer : Type 0} (storage : Storage Group Signer) (json : SnapshotJson)
    (uuid : UuidText) (faults : Faults) where
  restore-vault :
      (A : Type 0) (previous : Bytes) (error : MlsError) (left : MlsClient Group (Provider Signer))
      (c : Connection)
      → (restore storage json uuid faults {A = A} previous error left c).1.vault ≡ c
  restore-vault A previous error left c =
      restored (decode_snapshot storage json previous left.device_id)
    where
      restored :
          (r : Result MlsError (MlsClient Group (Provider Signer)))
          → (on_restored storage json uuid faults {A = A} error left c r).1.vault ≡ c
      restored (ok client) = refl
      restored (err e) = refl

  save_to_vault-mail :
      (client : MlsClient Group (Provider Signer)) (c : Connection)
      → mail (save_to_vault storage json uuid faults client c).1 ≡ mail c
  unfolding save_to_vault
  save_to_vault-mail client c = encoded (encode_snapshot storage json client)
    where
      encoded :
          (r : Result MlsError Bytes)
          → mail (on_snapshot storage json uuid faults client.device_id c r).1 ≡ mail c
      encoded (err e) = refl
      encoded (ok snapshot) =
          store_mls_client_snapshot-mail faults (uuid.to_string client.device_id) snapshot c

  -- A transaction of the client leaves the messages and the outbox alone.
  pub transact-mail :
      {A : Type 0}
      (operation : MlsClient Group (Provider Signer)
        → Result MlsError A × MlsClient Group (Provider Signer))
      (v : VaultMlsClient Group Signer)
      → mail (transact storage json uuid faults operation v).1.vault ≡ mail v.vault
  unfolding transact
  transact-mail {A} operation v = encoded (encode_snapshot storage json v.client)
    where
      saved :
          (previous : Bytes) (value : A) (left : MlsClient Group (Provider Signer))
          (r : Result MlsError Unit × Connection)
          → mail r.1 ≡ mail v.vault
          → mail (on_saved storage json uuid faults previous value left r).1.vault ≡ mail v.vault
      saved previous value left (ok u, c) same = same
      saved previous value left (err e, c) same = ap mail (restore-vault A previous e left c) ∙ same

      operated :
          (previous : Bytes) (r : Result MlsError A × MlsClient Group (Provider Signer))
          → mail (on_operated storage json uuid faults previous v.vault r).1.vault ≡ mail v.vault
      operated previous (ok value, left) =
          saved previous value left _ (save_to_vault-mail left v.vault)
      operated previous (err e, left) = ap mail (restore-vault A previous e left v.vault)

      encoded :
          (r : Result MlsError Bytes)
          → mail (on_previous storage json uuid faults v operation r).1.vault ≡ mail v.vault
      encoded (err e) = refl
      encoded (ok previous) = operated previous (operation v.client)

  -- A loaded client has the vault that it was loaded from.
  pub load-vault :
      (device_id : Uuid) (c : Connection) (v : VaultMlsClient Group Signer)
      → load storage json uuid faults device_id c ≡ ok (some v)
      → v.vault ≡ c
  unfolding load
  load-vault device_id c v h =
      elim (Result-cases (load_from_vault storage json uuid faults device_id c)) [
        | inr (e, k) ↦ absurd (ground arith)
        | inl (none, k) ↦ absurd (ground arith)
        | inl (some client, k) ↦ ground arith
      ]

  pub create-mail :
      (drawn : Option Signer) (store : Signer → Option (HashMap Bytes Bytes)) (device_id : Uuid)
      (c : Connection)
      → mail (create storage json uuid faults drawn store device_id c).1 ≡ mail c
  unfolding create
  create-mail drawn store device_id c = made _
    where
      made :
          (r : Result MlsError (MlsClient Group (Provider Signer)))
          → mail (on_new storage json uuid faults c r).1 ≡ mail c
      made (err e) = refl
      made (ok client) = save_to_vault-mail client c

  -- What `create` returns for the new client once it was saved.
  abbrev made_with :
      MlsClient Group (Provider Signer)
      → Result MlsError Unit × Connection
      → Result MlsError (VaultMlsClient Group Signer) × Connection
  made_with client r = (map_ok (λ u. record { vault = r.1; client = client }) r.0, r.1)

  -- A created client has the vault that it was stored in.
  pub create-vault :
      (drawn : Option Signer) (store : Signer → Option (HashMap Bytes Bytes)) (device_id : Uuid)
      (c c' : Connection) (v : VaultMlsClient Group Signer)
      → create storage json uuid faults drawn store device_id c ≡ (ok v, c')
      → v.vault ≡ c'
  unfolding create
  create-vault drawn store device_id c c' v = made _
    where
      created :
          (client : MlsClient Group (Provider Signer)) (r : Result MlsError Unit × Connection)
          → made_with client r ≡ (ok v, c')
          → v.vault ≡ c'
      created client (ok u, after) h = sym (ap (λ q. (ok_value v q.0).vault) h) ∙ ap (λ q. q.1) h
      created client (err e, after) h = absurd (ground (arith, ap (λ q. q.0) h))

      made :
          (r : Result MlsError (MlsClient Group (Provider Signer)))
          → on_new storage json uuid faults c r ≡ (ok v, c')
          → v.vault ≡ c'
      made (err e) h = absurd (ground (arith, ap (λ q. q.0) h))
      made (ok client) h = created client (save_to_vault storage json uuid faults client c) h

  module _ {A : Type 0} (codec : Base64) (submit_json : SubmitJson) (ttl_seconds : ServerTtl)
      (operation : MlsClient Group (Provider Signer)
        → Result MlsError EncryptedEvent × MlsClient Group (Provider Signer))
      (persist : Persist storage json uuid faults codec submit_json A)
      (v : VaultMlsClient Group Signer)
      (atomic : (device_id : Text) (snapshot : Bytes) (event_id : Text) (payload : Bytes)
        → Unchanged v.vault (persist device_id snapshot event_id payload v.vault)) where
    restored-FailsOver :
        (previous : Bytes) (error : MlsError) (left : MlsClient Group (Provider Signer))
        (c : Connection)
        → c ≡ v.vault
        → FailsOver {A = SubmitEvent × A} v.vault
            (restore storage json uuid faults previous error left c)
    restored-FailsOver previous error left c same =
        restored (decode_snapshot storage json previous left.device_id)
      where
        restored :
            (r : Result MlsError (MlsClient Group (Provider Signer)))
            → FailsOver {A = SubmitEvent × A} v.vault
                (on_restored storage json uuid faults error left c r)
        restored (ok client) = same
        restored (err e) = same

    -- Queueing that fails leaves the vault as it was.
    pub queue_outgoing-vault :
        FailsOver v.vault (
          queue_outgoing storage json uuid faults codec submit_json ttl_seconds operation persist v)
    unfolding queue_outgoing
    queue_outgoing-vault = encoded (encode_snapshot storage json v.client)
      where
        persisted :
            (previous : Bytes) (submission : SubmitEvent) (left : MlsClient Group (Provider Signer))
            (r : Result MlsError A × Connection)
            → Unchanged v.vault r
            → FailsOver v.vault
                (on_persisted storage json uuid faults codec submit_json previous submission left r)
        persisted previous submission left (ok a, c) same = tt
        persisted previous submission left (err e, c) same =
            restored-FailsOver previous e left c same

        prepared :
            (previous : Bytes) (left : MlsClient Group (Provider Signer))
            (r : Result MlsError (SubmitEvent × Bytes × Bytes))
            → FailsOver v.vault (
                on_prepared storage json uuid faults codec submit_json persist previous v.vault left
                  r)
        prepared previous left (err e) = restored-FailsOver previous e left v.vault refl
        prepared previous left (ok (submission, payload, snapshot)) =
            persisted previous submission left _ (
              atomic (uuid.to_string left.device_id) snapshot (uuid.to_string submission.event_id)
                payload)

        encrypted :
            (previous : Bytes)
            (r : Result MlsError EncryptedEvent × MlsClient Group (Provider Signer))
            → FailsOver v.vault (
                on_encrypted storage json uuid faults codec submit_json ttl_seconds persist previous
                  v.vault r)
        encrypted previous (err e, left) = restored-FailsOver previous e left v.vault refl
        encrypted previous (ok e, left) = prepared previous left _

        encoded :
            (r : Result MlsError Bytes)
            → FailsOver v.vault (
                Queue.on_previous storage json uuid faults codec submit_json ttl_seconds operation
                  persist v r)
        encoded (err e) = refl
        encoded (ok previous) = encrypted previous (operation v.client)
