-- ===== src/Mls/VaultClient/Rollback.antt =====
-- A call of the vault's client that fails leaves the client and the vault as they were.
use singularis.Prelude.{◌≡◌, refl, Option, none, some, Result, ok, err, Bytes, Related, get, nat_eq}
use singularis.Vault.Error.{VaultError}
use singularis.Vault.Database.{Faults, Connection}
use singularis.Vault.Methods.{UuidText}
use singularis.Vault.Atomicity.{Unchanged, store_mls_client_snapshot-Unchanged}
use singularis.Mls.Error.{MlsError}
use singularis.Mls.Chain.{MlsClient, ChannelState}
use singularis.Mls.Snapshot.{Provider, Storage, SnapshotJson, encode_snapshot}
use singularis.Mls.Snapshot.RoundTrip.{Restorable, SameChannel, SameClient, decode-encode_snapshot}
use singularis.Mls.VaultClient.{
  VaultMlsClient, lift, on_snapshot, save_to_vault, restore, on_saved, on_operated, on_previous,
  transact,
}

pub lift-Unchanged :
    {A : Type 0} (c : Connection) (r : Result VaultError A × Connection)
    → Unchanged c r
    → Unchanged c (lift r)
lift-Unchanged c (ok a, c') h = tt
lift-Unchanged c (err e, c') h = h

module _ {Group Signer : Type 0} (storage : Storage Group Signer) where
  pub SameClient-refl :
      (client : MlsClient Group (Provider Signer)) → SameClient storage client client
  SameClient-refl client = record {
    device_id = refl;
    signer = refl;
    values = λ key. refl;
    channels = λ channel_id. related (get channel_id client.channels);
  }
    where
      related : (o : Option (ChannelState Group)) → Related (SameChannel storage) o o
      related none = tt
      related (some state) = record {
        community_id = refl;
        group = refl;
        outgoing_chain = refl;
        incoming_chains = λ device. refl;
        seen_event_ids = λ id. refl;
      }

  -- The client holds what it held, and the vault is as it was.
  abbrev pub RolledBack : VaultMlsClient Group Signer → VaultMlsClient Group Signer → Type 0
  RolledBack before after =
      SameClient storage before.client after.client × (after.vault ≡ before.vault)

  -- A failure is rolled back.
  abbrev pub OnFailure :
      {A : Type 0}
      → VaultMlsClient Group Signer
      → Result MlsError A × VaultMlsClient Group Signer
      → Type 0
  OnFailure before (ok a, after) = Unit
  OnFailure before (err e, after) = RolledBack before after

  module _ (json : SnapshotJson) (uuid : UuidText) (faults : Faults) where
    pub restore-RolledBack :
        (A : Type 0) (v : VaultMlsClient Group Signer) (previous : Bytes) (error : MlsError)
        (left : MlsClient Group (Provider Signer)) (c : Connection)
        → Restorable storage v.client
        → encode_snapshot storage json v.client ≡ ok previous
        → left.device_id ≡ v.client.device_id
        → c ≡ v.vault
        → OnFailure {A = A} v (restore storage json uuid faults previous error left c)
    restore-RolledBack A v previous error left c r encoded device same =
        let (after, decoded, alike) =
          decode-encode_snapshot storage json v.client previous r encoded in
        rw (device, decoded) (alike, same)

    save_to_vault-Unchanged :
        (client : MlsClient Group (Provider Signer)) (c : Connection)
        → Unchanged c (save_to_vault storage json uuid faults client c)
    unfolding save_to_vault
    save_to_vault-Unchanged client c = on_encoded (encode_snapshot storage json client)
      where
        on_encoded :
            (r : Result MlsError Bytes)
            → Unchanged c (on_snapshot storage json uuid faults client.device_id c r)
        on_encoded (err e) = refl
        on_encoded (ok snapshot) = lift-Unchanged c _ (
            store_mls_client_snapshot-Unchanged faults (uuid.to_string client.device_id) snapshot c)

    module _ {A : Type 0}
        (operation : MlsClient Group (Provider Signer)
          → Result MlsError A × MlsClient Group (Provider Signer))
        (v : VaultMlsClient Group Signer) (r : Restorable storage v.client)
        (keeps_device : (operation v.client).1.device_id ≡ v.client.device_id) where
      on_saved-OnFailure :
          (previous : Bytes) (value : A) (left : MlsClient Group (Provider Signer))
          (saved : Result MlsError Unit × Connection)
          → encode_snapshot storage json v.client ≡ ok previous
          → left.device_id ≡ v.client.device_id
          → Unchanged v.vault saved
          → OnFailure v (on_saved storage json uuid faults previous value left saved)
      on_saved-OnFailure previous value left (ok u, c) encoded device same = tt
      on_saved-OnFailure previous value left (err e, c) encoded device same =
          restore-RolledBack A v previous e left c r encoded device same

      on_operated-OnFailure :
          (previous : Bytes) (result : Result MlsError A × MlsClient Group (Provider Signer))
          → encode_snapshot storage json v.client ≡ ok previous
          → result.1.device_id ≡ v.client.device_id
          → OnFailure v (on_operated storage json uuid faults previous v.vault result)
      on_operated-OnFailure previous (ok value, left) encoded device =
          on_saved-OnFailure previous value left _ encoded device
            (save_to_vault-Unchanged left v.vault)
      on_operated-OnFailure previous (err e, left) encoded device =
          restore-RolledBack A v previous e left v.vault r encoded device refl

      -- A transaction that fails, in its operation or in storing the new state, leaves the client with the
      -- contents that it had, and the vault as it was.
      pub transact-OnFailure : OnFailure v (transact storage json uuid faults operation v)
      unfolding transact
      transact-OnFailure = on_encoded (encode_snapshot storage json v.client) refl
        where
          on_encoded :
              (p : Result MlsError Bytes)
              → encode_snapshot storage json v.client ≡ p
              → OnFailure v (on_previous storage json uuid faults v operation p)
          on_encoded (err e) encoded = (SameClient-refl v.client, refl)
          on_encoded (ok previous) encoded =
              on_operated-OnFailure previous (operation v.client) encoded keeps_device
