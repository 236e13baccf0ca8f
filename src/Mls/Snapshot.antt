-- ===== src/Mls/Snapshot.antt =====
-- crates/singularis-mls/src/client.rs: the snapshot that a client is kept in the vault as. OpenMLS'
-- storage is its map of values; serde_json and what OpenMLS reads out of its storage are parameters. The
-- lock round the values is not modelled: it is poisoned only where a holder panicked.

pub mod RoundTrip
use singularis.Prelude.{
  ℕ, ◌*◌, ◌≡◌, Bool, true, false, not, ◌&&◌, ◌||◌, Option, none, some, List, [], ◌∷◌, map, Result,
  ok, err, ◌>>=◌, ◌>>◌, fail_if, ok_or, ltb, leb, eqb, length, is_empty, Bytes, ◌==◌, nat_eq,
  list_eq, HashMap, HashSet, get, put, le_bytes, sort_by, collect_distinct,
}
use singularis.Protocol.Event.{EventId, Uuid}
use singularis.Mls.Error.{MlsError, state_storage, invalid_state_snapshot}
use singularis.Mls.Chain.{SenderChain, ChannelState, MlsClient}

abbrev pub client_snapshot_version : ℕ
client_snapshot_version = 1

abbrev pub max_client_snapshot_bytes : ℕ
max_client_snapshot_bytes = 16 * 1024 * 1024

pub record ProviderValue : Type 0 where
  pub key : Bytes
  pub value : Bytes

pub record IncomingChainSnapshot : Type 0 where
  pub sender_device_id : Uuid
  pub chain : SenderChain

pub record ChannelSnapshot : Type 0 where
  pub community_id : Uuid
  pub channel_id : Uuid
  pub outgoing_chain : Option SenderChain
  pub incoming_chains : List IncomingChainSnapshot
  pub seen_event_ids : List EventId

-- Also `MlsClientSnapshotRef`, which is written in the same form.
pub record MlsClientSnapshot : Type 0 where
  pub version : ℕ
  pub device_id : Uuid
  pub signer_public_key : Bytes
  pub provider_values : List ProviderValue
  pub channels : List ChannelSnapshot

-- The provider's stored values, with the signature key of the client.
pub record Provider (Signer : Type 0) : Type 0 where
  pub values : HashMap Bytes Bytes
  pub signer : Signer

-- What OpenMLS reads out of its storage, which it asks for values by their keys: `load` is
-- `MlsGroup::load`, with nothing in place of an error.
pub record Storage (Group Signer : Type 0) : Type 0 where
  pub public : Signer → Bytes
  pub read : HashMap Bytes Bytes → Bytes → Option Signer
  pub load : HashMap Bytes Bytes → Uuid → Option (Option Group)
  pub has_group_id : Group → Uuid → Bool
  pub has_ciphersuite : Group → Bool
  pub read-get :
      (a b : HashMap Bytes Bytes) (public_key : Bytes)
      → ((k : Bytes) → get k a ≡ get k b)
      → read a public_key ≡ read b public_key
  pub load-get :
      (a b : HashMap Bytes Bytes) (group_id : Uuid)
      → ((k : Bytes) → get k a ≡ get k b)
      → load a group_id ≡ load b group_id

-- serde_json on snapshots: reading inverts writing.
pub record SnapshotJson : Type 0 where
  pub to_vec : MlsClientSnapshot → Option Bytes
  pub from_slice : Bytes → Option MlsClientSnapshot
  pub from_slice-to_vec :
      (s : MlsClientSnapshot) (b : Bytes) → to_vec s ≡ some b → from_slice b ≡ some s

abbrev pub provider_value : Bytes × Bytes → ProviderValue
provider_value (key, value) = record { key = key; value = value }

abbrev pub incoming_snapshot : Uuid × SenderChain → IncomingChainSnapshot
incoming_snapshot (sender_device_id, chain) = record {
  sender_device_id = sender_device_id;
  chain = chain;
}

-- The keys of a set.
abbrev pub element : {K : Type 0} → K × Unit {0} → K
element (k, u) = k

abbrev pub channel_snapshot : {Group : Type 0} → Uuid × ChannelState Group → ChannelSnapshot
channel_snapshot (channel_id, state) = record {
  community_id = state.community_id;
  channel_id = channel_id;
  outgoing_chain = state.outgoing_chain;
  incoming_chains =
      sort_by (λ left right. leb left.sender_device_id right.sender_device_id)
        (map incoming_snapshot state.incoming_chains);
  seen_event_ids = sort_by leb (map element state.seen_event_ids);
}

-- `collect::<HashSet<_>>`
unfoldable pub collect_set : List EventId → HashSet EventId → HashSet EventId
collect_set [] seen = seen
collect_set (id ∷ ids) seen = collect_set ids (put id tt seen)

abbrev pub is_zero_chain : Option SenderChain → Bool
is_zero_chain none = false
is_zero_chain (some chain) = chain.counter == 0

abbrev pub read_value : ProviderValue → Result MlsError (Bytes × Bytes)
read_value stored = do
  fail_if (is_empty stored.key || is_empty stored.value) invalid_state_snapshot
  ok (stored.key, stored.value)

abbrev pub read_chain : IncomingChainSnapshot → Result MlsError (Uuid × SenderChain)
read_chain incoming = do
  fail_if (incoming.chain.counter == 0) invalid_state_snapshot
  ok (incoming.sender_device_id, incoming.chain)

module _ {Group Signer : Type 0} (storage : Storage Group Signer) where
  abbrev pub snapshot_of : MlsClient Group (Provider Signer) → MlsClientSnapshot
  snapshot_of client = record {
    version = client_snapshot_version;
    device_id = client.device_id;
    signer_public_key = storage.public client.provider.signer;
    provider_values =
        sort_by (λ left right. le_bytes left.key right.key)
          (map provider_value client.provider.values);
    channels =
        sort_by (λ left right. leb left.channel_id right.channel_id)
          (map channel_snapshot client.channels);
  }

  unfoldable pub read_channel :
      HashMap Bytes Bytes → ChannelSnapshot → Result MlsError (Uuid × ChannelState Group)
  read_channel values stored = do
    fail_if (is_zero_chain stored.outgoing_chain) invalid_state_snapshot
    incoming_chains ← collect_distinct invalid_state_snapshot read_chain stored.incoming_chains []
    let seen_event_ids = collect_set stored.seen_event_ids []
    fail_if (not (eqb (length seen_event_ids) (length stored.seen_event_ids)))
        invalid_state_snapshot
    found ← ok_or (storage.load values stored.channel_id) invalid_state_snapshot
    group ← ok_or found invalid_state_snapshot
    fail_if
        (not (storage.has_group_id group stored.channel_id) || not (storage.has_ciphersuite group))
        invalid_state_snapshot
    ok (
      stored.channel_id,
      record {
        community_id = stored.community_id;
        group = group;
        outgoing_chain = stored.outgoing_chain;
        incoming_chains = incoming_chains;
        seen_event_ids = seen_event_ids;
      },
    )

  module _ (json : SnapshotJson) where
    unfoldable pub encode_snapshot : MlsClient Group (Provider Signer) → Result MlsError Bytes
    encode_snapshot client = do
      encoded ← ok_or (json.to_vec (snapshot_of client)) state_storage
      fail_if (is_empty encoded || ltb max_client_snapshot_bytes (length encoded)) state_storage
      ok encoded

    unfoldable pub decode_snapshot :
        Bytes → Uuid → Result MlsError (MlsClient Group (Provider Signer))
    decode_snapshot encoded expected_device_id = do
      fail_if (is_empty encoded || ltb max_client_snapshot_bytes (length encoded))
          invalid_state_snapshot
      snapshot ← ok_or (json.from_slice encoded) invalid_state_snapshot
      fail_if
          (not (snapshot.version == client_snapshot_version)
            || not (snapshot.device_id == expected_device_id)
            || is_empty snapshot.signer_public_key)
          invalid_state_snapshot
      values ← collect_distinct invalid_state_snapshot read_value snapshot.provider_values []
      signer ← ok_or (storage.read values snapshot.signer_public_key) invalid_state_snapshot
      channels ← collect_distinct invalid_state_snapshot (read_channel values) snapshot.channels []
      ok (record {
        device_id = expected_device_id;
        provider = record { values = values; signer = signer };
        channels = channels;
      })
