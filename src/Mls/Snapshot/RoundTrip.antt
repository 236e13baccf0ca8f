-- ===== src/Mls/Snapshot/RoundTrip.antt =====
-- A client that its snapshot is read back from.
use singularis.Prelude.{
  ◌+◌, ◌≡◌, refl, sym, ap, subst, ◌∙◌, true, false, ◌||◌, Option, none, some, [], ◌∷◌, map, ok,
  >>=-eq-ok, ok_or-ok, fail_if-ok, ok_value, fail_if, ok_or, ltb, leb, length, is_empty, Bytes,
  ◌==◌, ==_refl, nat_eq, list_eq, HashMap, HashSet, get, put, contains, Distinct, le_bytes, sort_by,
  collect_distinct-sort_by, Related, arith, length-put, contains-put, get-put, map-sort_by,
  get-sort_by, Distinct-sort_by,
}
use singularis.Protocol.Event.{EventId, Uuid}
use singularis.Mls.Error.{state_storage, invalid_state_snapshot}
use singularis.Mls.Chain.{SenderChain, ChannelState, MlsClient}
use singularis.Mls.Chain.Tidy.{TidyChannel}
use singularis.Mls.Snapshot.{
  max_client_snapshot_bytes, ChannelSnapshot, Provider, Storage, SnapshotJson, provider_value,
  incoming_snapshot, element, channel_snapshot, collect_set, is_zero_chain, read_value, read_chain,
  snapshot_of, read_channel, encode_snapshot, decode_snapshot,
}

-- The ids of a set, collected again, are the same set.
collect_set-element :
    (m : HashSet EventId) (seen : HashSet EventId)
    → Distinct m
    → ((j : EventId) → contains j m ≡ true → get j seen ≡ none)
    → (length (collect_set (map element m) seen) ≡ length (map element m) + length seen)
      × ((j : EventId)
          → contains j (collect_set (map element m) seen) ≡ (contains j m || contains j seen))
unfolding collect_set Distinct get
collect_set-element [] seen d fresh = (omega arith, λ j. refl)
collect_set-element ((k, u) ∷ m) seen (absent, d) fresh =
    let missing = fresh k (rw (==_refl k) refl) in
    let fresh' : (j : EventId) → contains j m ≡ true → get j (put k tt seen) ≡ none =
      λ j h. get-put k tt j seen ∙ ground (arith, fresh j) in
    let (size, members) = collect_set-element m (put k tt seen) d fresh' in
    (
      size ∙ omega (arith, length-put k tt seen missing),
      λ j. members j ∙ ground (arith, contains-put k tt j seen),
    )

-- The order of the elements does not matter.
collect_set-sort_by :
    (m : HashSet EventId)
    → Distinct m
    → (length (collect_set (sort_by leb (map element m)) []) ≡ length (sort_by leb (map element m)))
      × ((j : EventId) → contains j (collect_set (sort_by leb (map element m)) []) ≡ contains j m)
unfolding get
collect_set-sort_by m d =
    let order = λ (a : EventId × Unit {0}) (b : EventId × Unit {0}). leb (element a) (element b) in
    let (size, members) =
      collect_set-element (sort_by order m) [] (Distinct-sort_by order m d) (λ j h. refl) in
    rw (map-sort_by leb element m)
      (size ∙ omega arith, λ j. members j ∙ rw (get-sort_by order m d j) (ground arith))

is_zero_chain-false :
    (o : Option SenderChain)
    → ((chain : SenderChain) → o ≡ some chain → (chain.counter == 0) ≡ false)
    → is_zero_chain o ≡ false
is_zero_chain-false none h = refl
is_zero_chain-false (some chain) h = h chain refl

module _ {Group Signer : Type 0} (storage : Storage Group Signer) where
  -- A channel that can be restored: it is tidy, and its group is the one that OpenMLS has stored under
  -- the channel's id.
  pub record RestorableChannel (values : HashMap Bytes Bytes) (channel_id : Uuid)
      (state : ChannelState Group) : Type 0 where
    pub tidy : TidyChannel state
    pub stored : storage.load values channel_id ≡ some (some state.group)
    pub names_group : storage.has_group_id state.group channel_id ≡ true
    pub suits : storage.has_ciphersuite state.group ≡ true

  pub record Restorable (client : MlsClient Group (Provider Signer)) : Type 0 where
    pub values_distinct : Distinct client.provider.values
    pub values_nonempty :
        (key value : Bytes)
        → get key client.provider.values ≡ some value
        → (is_empty key || is_empty value) ≡ false
    pub key_nonempty : is_empty (storage.public client.provider.signer) ≡ false
    pub key_stored :
        storage.read client.provider.values (storage.public client.provider.signer)
        ≡ some client.provider.signer
    pub channels_distinct : Distinct client.channels
    pub channels_restorable :
        (channel_id : Uuid) (state : ChannelState Group)
        → get channel_id client.channels ≡ some state
        → RestorableChannel client.provider.values channel_id state

  -- The same contents, whatever the order of the entries.
  pub record SameChannel (a b : ChannelState Group) : Type 0 where
    pub community_id : a.community_id ≡ b.community_id
    pub group : a.group ≡ b.group
    pub outgoing_chain : a.outgoing_chain ≡ b.outgoing_chain
    pub incoming_chains :
        (device : Uuid) → get device a.incoming_chains ≡ get device b.incoming_chains
    pub seen_event_ids :
        (id : EventId) → contains id a.seen_event_ids ≡ contains id b.seen_event_ids

  pub record SameClient (a b : MlsClient Group (Provider Signer)) : Type 0 where
    pub device_id : a.device_id ≡ b.device_id
    pub signer : a.provider.signer ≡ b.provider.signer
    pub values : (key : Bytes) → get key a.provider.values ≡ get key b.provider.values
    pub channels :
        (channel_id : Uuid)
        → Related SameChannel (get channel_id a.channels) (get channel_id b.channels)

  -- Values that are the same at each key.
  Related-eq : {A : Type 0} (o p : Option A) → Related (λ a b. a ≡ b) o p → o ≡ p
  Related-eq none none h = refl
  Related-eq (some a) (some b) h = ap some h
  Related-eq none (some b) h = absurd h
  Related-eq (some a) none h = absurd h

  read_channel-snapshot :
      (values : HashMap Bytes Bytes) (channel_id : Uuid) (state : ChannelState Group)
      → RestorableChannel values channel_id state
      → (state' : ChannelState Group) × (read_channel storage values
            (channel_snapshot (channel_id, state))
          ≡ ok (channel_id, state'))
        × SameChannel state state'
  unfolding read_channel
  read_channel-snapshot values channel_id state r =
      let (chains, read_chains, _, same_chains) =
        collect_distinct-sort_by invalid_state_snapshot read_chain incoming_snapshot (λ a b. a ≡ b)
          (λ left right. leb left.sender_device_id right.sender_device_id) state.incoming_chains
          r.tidy.incoming_distinct
          (λ device chain found. (chain, rw (r.tidy.received device chain found) refl, refl)) in
      let (size, members) = collect_set-sort_by state.seen_event_ids r.tidy.seen_distinct in
      (
        record {
          community_id = state.community_id;
          group = state.group;
          outgoing_chain = state.outgoing_chain;
          incoming_chains = chains;
          seen_event_ids = collect_set (sort_by leb (map element state.seen_event_ids)) [];
        },
        rw
            (
              is_zero_chain-false state.outgoing_chain r.tidy.sent,
              read_chains,
              size,
              ==_refl (length (sort_by leb (map element state.seen_event_ids))),
              r.stored,
              r.names_group,
              r.suits,
            )
            refl,
        record {
          community_id = refl;
          group = refl;
          outgoing_chain = refl;
          incoming_chains = λ device. Related-eq _ _ (same_chains device);
          seen_event_ids = λ id. sym (members id);
        },
      )

  read_channel-values :
      (values values' : HashMap Bytes Bytes) (stored : ChannelSnapshot)
      → ((key : Bytes) → get key values ≡ get key values')
      → read_channel storage values stored ≡ read_channel storage values' stored
  unfolding read_channel
  read_channel-values values values' stored same =
      simp (storage.load-get values values' stored.channel_id same)

  module _ (json : SnapshotJson) where
    restores :
        (client : MlsClient Group (Provider Signer))
        → Restorable client
        → (after : MlsClient Group (Provider Signer)) × ((encoded : Bytes)
            → (is_empty encoded || ltb max_client_snapshot_bytes (length encoded)) ≡ false
            → json.from_slice encoded ≡ some (snapshot_of storage client)
            → decode_snapshot storage json encoded client.device_id ≡ ok after)
          × SameClient client after
    unfolding decode_snapshot
    restores client r =
        let (values, read_values, _, same) =
          collect_distinct-sort_by invalid_state_snapshot read_value provider_value (λ a b. a ≡ b)
            (λ left right. le_bytes left.key right.key) client.provider.values r.values_distinct
            (λ key value found. (value, rw (r.values_nonempty key value found) refl, refl)) in
        let same_values : (key : Bytes) → get key client.provider.values ≡ get key values =
          λ key. Related-eq _ _ (same key) in
        let (channels, read_channels, _, same_channels) =
          collect_distinct-sort_by invalid_state_snapshot (read_channel storage values)
            channel_snapshot SameChannel (λ left right. leb left.channel_id right.channel_id)
            client.channels r.channels_distinct
            (λ channel_id state found.
              let (state', read, alike) =
                read_channel-snapshot client.provider.values channel_id state
                  (r.channels_restorable channel_id state found) in
              (
                state',
                sym (read_channel-values client.provider.values values _ same_values) ∙ read,
                alike,
              )) in
        let key_read =
          sym (
            storage.read-get client.provider.values values (storage.public client.provider.signer)
              same_values)
          ∙ r.key_stored in
        (
          record {
            device_id = client.device_id;
            provider = record { values = values; signer = client.provider.signer };
            channels = channels;
          },
          λ encoded fits parsed.
              rw
                (
                  fits,
                  parsed,
                  ==_refl client.device_id,
                  r.key_nonempty,
                  read_values,
                  key_read,
                  read_channels,
                )
                refl,
          record {
            device_id = refl;
            signer = refl;
            values = same_values;
            channels = same_channels;
          },
        )

    -- A client whose snapshot is written is read back from it, with the same contents: the stored
    -- values, the signature key and each channel's group, chains and seen ids.
    pub decode-encode_snapshot :
        (client : MlsClient Group (Provider Signer)) (encoded : Bytes)
        → Restorable client
        → encode_snapshot storage json client ≡ ok encoded
        → (after : MlsClient Group (Provider Signer)) × (decode_snapshot storage json encoded
              client.device_id
            ≡ ok after)
          × SameClient client after
    unfolding encode_snapshot
    decode-encode_snapshot client encoded r h =
        let (written, e₁, h₁) =
          >>=-eq-ok (ok_or (json.to_vec (snapshot_of storage client)) state_storage) _ h in
        let (_, e₂, h₂) =
          >>=-eq-ok
            (fail_if (is_empty written || ltb max_client_snapshot_bytes (length written))
              state_storage)
            _ h₁ in
        let same = ap (ok_value []) h₂ in
        let (after, run, alike) = restores client r in
        (
          after,
          run encoded
              (subst (λ b. (is_empty b || ltb max_client_snapshot_bytes (length b)) ≡ false) same
                (fail_if-ok state_storage _ e₂))
              (subst (λ b. json.from_slice b ≡ some (snapshot_of storage client)) same
                (json.from_slice-to_vec _ written (ok_or-ok state_storage _ e₁))),
          alike,
        )
