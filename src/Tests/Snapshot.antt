-- ===== src/Tests/Snapshot.antt =====
-- Snapshots and the vault's client at concrete inputs.
use singularis.Prelude.{
  ℕ, ◌≡◌, refl, ap, sym, ◌∙◌, true, Option, none, some, [], ◌∷◌, Result, ok, err, Bytes, get,
  Distinct, arith, Bool-cases, inl, inr, ◌==◌, subst, list_eq, nat_eq, sort_by, place, le_bytes,
}
use singularis.Protocol.Event.{Uuid}
use singularis.Mls.Error.{MlsError}
use singularis.Mls.Chain.{SenderChain, ChannelState, MlsClient}
use singularis.Mls.Chain.Lockstep.{unwrap_or}
use singularis.Mls.Snapshot.{
  ProviderValue, IncomingChainSnapshot, ChannelSnapshot, MlsClientSnapshot, Provider, Storage,
  SnapshotJson, encode_snapshot, decode_snapshot,
}
use singularis.Mls.Snapshot.RoundTrip.{
  RestorableChannel, Restorable, SameClient, decode-encode_snapshot,
}
use singularis.Tests.Wire.{
  Wire, number, bytes, pair, list, optional, via, print, parse, parse-print,
}

abbrev value_form : Wire ProviderValue
value_form =
    via (pair bytes bytes) (λ v. (v.key, v.value)) (λ t. record { key = t.0; value = t.1 })
      (λ v. refl)

abbrev chain_form : Wire SenderChain
chain_form =
    via (pair number number) (λ c. (c.counter, c.event_hash))
      (λ t. record { counter = t.0; event_hash = t.1 }) (λ c. refl)

abbrev incoming_form : Wire IncomingChainSnapshot
incoming_form =
    via (pair number chain_form) (λ c. (c.sender_device_id, c.chain))
      (λ t. record { sender_device_id = t.0; chain = t.1 }) (λ c. refl)

abbrev channel_form : Wire ChannelSnapshot
channel_form =
    via (pair (pair number number) (pair (optional chain_form) (pair (list incoming_form) bytes)))
      (λ c.
        ((c.community_id, c.channel_id), (c.outgoing_chain, (c.incoming_chains, c.seen_event_ids))))
      (λ t. record {
        community_id = t.0.0;
        channel_id = t.0.1;
        outgoing_chain = t.1.0;
        incoming_chains = t.1.1.0;
        seen_event_ids = t.1.1.1;
      })
      (λ c. refl)

abbrev snapshot_form : Wire MlsClientSnapshot
snapshot_form =
    via (pair (pair number number) (pair bytes (pair (list value_form) (list channel_form))))
      (λ s. ((s.version, s.device_id), (s.signer_public_key, (s.provider_values, s.channels))))
      (λ t. record {
        version = t.0.0;
        device_id = t.0.1;
        signer_public_key = t.1.0;
        provider_values = t.1.1.0;
        channels = t.1.1.1;
      })
      (λ s. refl)

abbrev pub snapshots : SnapshotJson
snapshots = record {
  to_vec = print snapshot_form;
  from_slice = parse snapshot_form;
  from_slice-to_vec = parse-print snapshot_form;
}

-- A storage that keeps the key under the key 1, and the groups without a value.
abbrev stored_signer : Option Bytes → Option Bytes
stored_signer none = none
stored_signer (some signer) = some signer

abbrev pub plain_storage : Storage Unit Bytes
plain_storage = record {
  public = λ signer. 1 ∷ [];
  read = λ values public_key. get public_key values;
  load = λ values group_id. some (some tt);
  has_group_id = λ group channel_id. true;
  has_ciphersuite = λ group. true;
  read-get = λ a b public_key same. same public_key;
  load-get = λ a b group_id same. refl;
}

abbrev chain : SenderChain
chain = record { counter = 3; event_hash = 8 }

abbrev pub kept_channel : ChannelState Unit
kept_channel = record {
  community_id = 1;
  group = tt;
  outgoing_chain = none;
  incoming_chains = (5, chain) ∷ (4, chain) ∷ [];
  seen_event_ids = (31, tt) ∷ (30, tt) ∷ [];
}

abbrev pub kept_client : MlsClient Unit (Provider Bytes)
kept_client = record {
  device_id = 9;
  provider = record { values = (2 ∷ [], 5 ∷ []) ∷ (1 ∷ [], 6 ∷ []) ∷ []; signer = 6 ∷ [] };
  channels = (7, kept_channel) ∷ [];
}

abbrev encoded_client : Result MlsError Bytes → Bytes
encoded_client (ok b) = b
encoded_client (err e) = []

encodes :
    encode_snapshot plain_storage snapshots kept_client
    ≡ ok (encoded_client (encode_snapshot plain_storage snapshots kept_client))
unfolding encode_snapshot sort_by place le_bytes
encodes = refl

kept_channel-RestorableChannel :
    RestorableChannel plain_storage kept_client.provider.values 7 kept_channel
unfolding get Distinct
kept_channel-RestorableChannel = record {
  tidy = record {
    sent = λ c h. ground arith;
    incoming_distinct = (refl, (refl, tt));
    received = λ device c h. ground arith;
    seen_distinct = (refl, (refl, tt));
  };
  stored = refl;
  names_group = refl;
  suits = refl;
}

pub one_channel :
    (P : Uuid → ChannelState Unit → Type 0) (c : ChannelState Unit)
    → P 7 c
    → (channel_id : Uuid) (state : ChannelState Unit) → get channel_id ((7, c) ∷ []) ≡ some state
    → P channel_id state
unfolding get
one_channel P c h channel_id state found = elim (Bool-cases (channel_id == 7)) [
  | inl e ↦
      subst (λ i. P i state) (sym ((nat_eq.beq_iff channel_id 7).0 e)) (subst (P 7) (same e) h)
  | inr e ↦ absurd (ground arith)
]
  where
    same : (channel_id == 7) ≡ true → c ≡ state
    same e =
        let first : get channel_id ((7, c) ∷ []) ≡ some c = rw e refl in
        ap (unwrap_or c) (sym first ∙ found)

pub kept_client-Restorable : Restorable plain_storage kept_client
unfolding get Distinct
kept_client-Restorable = record {
  values_distinct = (refl, (refl, tt));
  values_nonempty = λ key value h.
      ground
        (arith, (list_eq {A = ℕ}).beq_iff key (2 ∷ []), (list_eq {A = ℕ}).beq_iff key (1 ∷ []));
  key_nonempty = refl;
  key_stored = refl;
  channels_distinct = (refl, tt);
  channels_restorable =
      one_channel (RestorableChannel plain_storage kept_client.provider.values) kept_channel
        kept_channel-RestorableChannel;
}

decode-encode_snapshot_example :
    (after : MlsClient Unit (Provider Bytes)) × (decode_snapshot plain_storage snapshots
        (encoded_client (encode_snapshot plain_storage snapshots kept_client))
        9
      ≡ ok after)
    × SameClient plain_storage kept_client after
decode-encode_snapshot_example =
    decode-encode_snapshot plain_storage snapshots kept_client _ kept_client-Restorable encodes
