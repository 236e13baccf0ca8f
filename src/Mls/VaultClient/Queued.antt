-- ===== src/Mls/VaultClient/Queued.antt =====
-- Queueing that succeeded, taken apart.
use singularis.Prelude.{
  ◌≡◌, refl, sym, ap, subst, ◌∙◌, some, Result, ok, err, Bytes, nat_eq, arith, >>=-eq-ok, ok_value,
  ok_or, ok_or-ok, map_ok,
}
use singularis.Protocol.Event.{SubmitEvent, SubmitJson}
use singularis.Protocol.Ttl.{ServerTtl}
use singularis.Protocol.Message.{Base64}
use singularis.Vault.Database.{Faults, Connection}
use singularis.Vault.Methods.{UuidText}
use singularis.Mls.Error.{MlsError, payload_encoding}
use singularis.Mls.Chain.{MlsClient, EncryptedEvent, to_submit_event}
use singularis.Mls.Snapshot.{Provider, Storage, SnapshotJson, encode_snapshot, decode_snapshot}
use singularis.Mls.VaultClient.{VaultMlsClient, on_restored}
use singularis.Mls.VaultClient.Queue.{
  prepare, Persist, on_persisted, on_prepared, on_encrypted, on_previous, queue_outgoing,
}

module _ {Group Signer : Type 0} (storage : Storage Group Signer) (json : SnapshotJson)
    (uuid : UuidText) (faults : Faults) (codec : Base64) (submit_json : SubmitJson) where
  -- A restored client comes with an error.
  not_restored :
      (A B : Type 0) (error : MlsError) (left : MlsClient Group (Provider Signer)) (c : Connection)
      (a : A) (v' : VaultMlsClient Group Signer)
      (r : Result MlsError (MlsClient Group (Provider Signer)))
      → on_restored storage json uuid faults error left c r ≡ (ok a, v')
      → B
  not_restored A B error left c a v' (ok restored) h = absurd (ground (arith, ap (λ r. r.0) h))
  not_restored A B error left c a v' (err e) h = absurd (ground (arith, ap (λ r. r.0) h))

  module _ {A : Type 0} (ttl_seconds : ServerTtl)
      (operation : MlsClient Group (Provider Signer)
        → Result MlsError EncryptedEvent × MlsClient Group (Provider Signer))
      (persist : Persist storage json uuid faults codec submit_json A)
      (v v' : VaultMlsClient Group Signer) (submission : SubmitEvent) (a : A) where
    -- Queueing that succeeded, taken apart.
    pub record Queued : Type 0 where
      pub encrypted : EncryptedEvent
      pub payload : Bytes
      pub snapshot : Bytes
      pub operated : operation v.client ≡ (ok encrypted, v'.client)
      pub prepared :
          prepare storage json uuid faults codec submit_json ttl_seconds encrypted v'.client
          ≡ ok (submission, payload, snapshot)
      pub persisted :
          persist
            (uuid.to_string v'.client.device_id)
            snapshot
            (uuid.to_string submission.event_id)
            payload
            v.vault
          ≡ (ok a, v'.vault)

    on_persisted-ok :
        (previous : Bytes) (read : SubmitEvent) (left : MlsClient Group (Provider Signer))
        (r : Result MlsError A × Connection)
        → on_persisted storage json uuid faults codec submit_json previous read left r
          ≡ (ok (submission, a), v')
        → (read ≡ submission) × (left ≡ v'.client) × (r ≡ (ok a, v'.vault))
    on_persisted-ok previous read left (ok b, c) h = (
      ap (λ r. ok_value read (map_ok (λ (q : SubmitEvent × A). q.0) r.0)) h,
      ap (λ r. r.1.client) h,
      ap (λ r. (map_ok (λ (q : SubmitEvent × A). q.1) r.0, r.1.vault)) h,
    )
    on_persisted-ok previous read left (err e, c) h =
        not_restored (SubmitEvent × A) _ e left c (submission, a) v'
          (decode_snapshot storage json previous left.device_id) h

    on_prepared-ok :
        (previous : Bytes) (left : MlsClient Group (Provider Signer)) (encrypted : EncryptedEvent)
        (r : Result MlsError (SubmitEvent × Bytes × Bytes))
        → operation v.client ≡ (ok encrypted, left)
        → prepare storage json uuid faults codec submit_json ttl_seconds encrypted left ≡ r
        → on_prepared storage json uuid faults codec submit_json persist previous v.vault left r
          ≡ (ok (submission, a), v')
        → Queued
    on_prepared-ok previous left encrypted (err e) operated prepared h =
        not_restored (SubmitEvent × A) _ e left v.vault (submission, a) v'
          (decode_snapshot storage json previous left.device_id) h
    on_prepared-ok previous left encrypted (ok (read, payload, snapshot)) operated prepared h =
        let (same, kept, persisted) = on_persisted-ok previous read left _ h in
        record {
          encrypted = encrypted;
          payload = payload;
          snapshot = snapshot;
          operated = operated ∙ ap (λ l. (ok encrypted, l)) kept;
          prepared =
              ap (prepare storage json uuid faults codec submit_json ttl_seconds encrypted)
                (sym kept)
              ∙ prepared
              ∙ ap (λ s. ok (s, payload, snapshot)) same;
          persisted =
              subst
                (λ l.
                  persist (uuid.to_string l.device_id) snapshot (uuid.to_string submission.event_id)
                    payload v.vault
                  ≡ (ok a, v'.vault))
                kept
                (subst
                  (λ s.
                    persist (uuid.to_string left.device_id) snapshot (uuid.to_string s.event_id)
                      payload v.vault
                    ≡ (ok a, v'.vault))
                  same persisted);
        }

    on_encrypted-ok :
        (previous : Bytes) (r : Result MlsError EncryptedEvent × MlsClient Group (Provider Signer))
        → operation v.client ≡ r
        → on_encrypted storage json uuid faults codec submit_json ttl_seconds persist previous
            v.vault r
          ≡ (ok (submission, a), v')
        → Queued
    on_encrypted-ok previous (err e, left) operated h =
        not_restored (SubmitEvent × A) _ e left v.vault (submission, a) v'
          (decode_snapshot storage json previous left.device_id) h
    on_encrypted-ok previous (ok encrypted, left) operated h =
        on_prepared-ok previous left encrypted _ operated refl h

    on_previous-ok :
        (r : Result MlsError Bytes)
        → on_previous storage json uuid faults codec submit_json ttl_seconds operation persist v r
          ≡ (ok (submission, a), v')
        → Queued
    on_previous-ok (err e) h = absurd (ground (arith, ap (λ r. r.0) h))
    on_previous-ok (ok previous) h = on_encrypted-ok previous (operation v.client) refl h

    pub queue_outgoing-Queued :
        queue_outgoing storage json uuid faults codec submit_json ttl_seconds operation persist v
          ≡ (ok (submission, a), v')
        → Queued
    unfolding queue_outgoing
    queue_outgoing-Queued h = on_previous-ok (encode_snapshot storage json v.client) h

  pub prepare-ok :
      (ttl_seconds : ServerTtl) (encrypted : EncryptedEvent)
      (client : MlsClient Group (Provider Signer)) (submission : SubmitEvent)
      (payload snapshot : Bytes)
      → prepare storage json uuid faults codec submit_json ttl_seconds encrypted client
        ≡ ok (submission, payload, snapshot)
      → (submit_json.to_vec submission ≡ some payload)
        × (encode_snapshot storage json client ≡ ok snapshot)
  unfolding prepare
  prepare-ok ttl_seconds encrypted client submission payload snapshot h =
      let (s, _, h₁) = >>=-eq-ok (to_submit_event codec ttl_seconds encrypted) _ h in
      let (p, e₂, h₂) = >>=-eq-ok (ok_or (submit_json.to_vec s) payload_encoding) _ h₁ in
      let (b, e₃, h₃) = >>=-eq-ok (encode_snapshot storage json client) _ h₂ in
      let same = ap (ok_value {E = MlsError} {A = SubmitEvent × Bytes × Bytes} (s, p, b)) h₃ in
      (
        ap submit_json.to_vec (sym (ap (λ t. t.0) same))
            ∙ ok_or-ok payload_encoding _ e₂
            ∙ ap (λ t. some t.1) same,
        e₃ ∙ ap (λ t. ok t.2) same,
      )
