-- ===== src/Mls/Chain/Sent.antt =====
-- An encryption that succeeded, taken apart.
use singularis.Prelude.{
  ℕ, ◌≡◌, refl, ap, true, false, Option, some, Result, ok, err, Bytes, nat_eq, option_eq, get,
  contains, arith, ok_value, Option-cases, Result-cases, inl, inr,
}
use singularis.Mls.Error.{MlsError}
use singularis.Mls.Event.{PlaintextEvent, EventJson, validate, encode_provisional_json}
use singularis.Mls.Chain.{
  ChannelState, continues_outgoing, AuthenticatedTransportMetadata, from_event, OpenMls, MlsClient,
  check_outgoing, encrypt_event, on_checked, on_message, record_outgoing, serialized,
  EncryptedEvent, encrypted_form, with_channel,
}

module _ {Group Provider : Type 0} (json : EventJson)
    (metadata_to_vec : AuthenticatedTransportMetadata → Option Bytes) (digest : Bytes → ℕ)
    (mls : OpenMls Group Provider) where
  pub check_outgoing-parts :
      (event : PlaintextEvent) (client : MlsClient Group Provider) (state : ChannelState Group)
      (encoded metadata : Bytes)
      → check_outgoing json metadata_to_vec digest mls event client ≡ ok (state, encoded, metadata)
      → (get event.channel_id client.channels ≡ some state)
        × (event.sender_device_id ≡ client.device_id)
        × (continues_outgoing event state.outgoing_chain ≡ true)
        × (contains event.event_id state.seen_event_ids ≡ false)
        × (encode_provisional_json json event ≡ ok encoded)
        × (metadata_to_vec (from_event event) ≡ some metadata)
        × (event.community_id ≡ state.community_id)
        × (validate event ≡ ok tt)
  unfolding check_outgoing
  check_outgoing-parts event client state encoded metadata h =
      elim (Result-cases (validate event)) [
        | inr (e, k) ↦ absurd (ground arith)
        | inl (u, k) ↦ elim (Option-cases (get event.channel_id client.channels)) [
          | inl q ↦ absurd (ground arith)
          | inr (found, q) ↦ elim (Result-cases (encode_provisional_json json event)) [
            | inr (e, r) ↦ absurd (ground arith)
            | inl (b, r) ↦ elim (Option-cases (metadata_to_vec (from_event event))) [
              | inl m ↦ absurd (ground arith)
              | inr (data', m) ↦ (
                ground arith,
                ground arith,
                ground arith,
                ground arith,
                ground arith,
                ground arith,
                ground arith,
                ground arith,
              )
            ]
          ]
        ]
      ]

  -- A successful encryption, taken apart.
  pub record Sent (event : PlaintextEvent) (client client' : MlsClient Group Provider)
      (encrypted : EncryptedEvent) : Type 0 where
    pub state : ChannelState Group
    pub encoded : Bytes
    pub metadata : Bytes
    pub wire : Bytes
    pub group : Group
    pub provider : Provider
    pub checked :
        check_outgoing json metadata_to_vec digest mls event client ≡ ok (state, encoded, metadata)
    pub written :
        serialized json metadata_to_vec digest mls
          (mls.create_message encoded (mls.set_aad metadata state.group) client.provider).0
        ≡ ok wire
    pub form : encrypted_form event wire ≡ encrypted
    pub stored :
        with_channel event.channel_id
          (record_outgoing json metadata_to_vec digest mls event encoded
            (record state { group = group }))
          provider
          client
        ≡ client'

  on_message-ok :
      (event : PlaintextEvent) (encoded : Bytes) (state : ChannelState Group) (provider : Provider)
      (client client' : MlsClient Group Provider) (encrypted : EncryptedEvent)
      (r : Result MlsError Bytes)
      → on_message json metadata_to_vec digest mls event encoded state provider client r
        ≡ (ok encrypted, client')
      → (wire : Bytes) × (r ≡ ok wire)
        × (encrypted_form event wire ≡ encrypted)
        × (with_channel event.channel_id
              (record_outgoing json metadata_to_vec digest mls event encoded state)
              provider
              client
            ≡ client')
  on_message-ok event encoded state provider client client' encrypted (err e) h =
      absurd (ground (arith, ap (λ r. r.0) h))
  on_message-ok event encoded state provider client client' encrypted (ok wire) h =
      (wire, refl, ap (λ r. ok_value encrypted r.0) h, ap (λ r. r.1) h)

  on_checked-Sent :
      (event : PlaintextEvent) (client client' : MlsClient Group Provider)
      (encrypted : EncryptedEvent) (r : Result MlsError (ChannelState Group × Bytes × Bytes))
      → check_outgoing json metadata_to_vec digest mls event client ≡ r
      → on_checked json metadata_to_vec digest mls event client r ≡ (ok encrypted, client')
      → Sent event client client' encrypted
  on_checked-Sent event client client' encrypted (err e) k h =
      absurd (ground (arith, ap (λ r. r.0) h))
  on_checked-Sent event client client' encrypted (ok (state, encoded, metadata)) k h =
      let created = mls.create_message encoded (mls.set_aad metadata state.group) client.provider in
      let (wire, written, form, stored) =
        on_message-ok event encoded (record state { group = created.1 }) created.2 client client'
          encrypted (serialized json metadata_to_vec digest mls created.0) h in
      record {
        state = state;
        encoded = encoded;
        metadata = metadata;
        wire = wire;
        group = created.1;
        provider = created.2;
        checked = k;
        written = written;
        form = form;
        stored = stored;
      }

  pub encrypt_event-Sent :
      (event : PlaintextEvent) (client client' : MlsClient Group Provider)
      (encrypted : EncryptedEvent)
      → encrypt_event json metadata_to_vec digest mls event client ≡ (ok encrypted, client')
      → Sent event client client' encrypted
  unfolding encrypt_event
  encrypt_event-Sent event client client' encrypted h =
      on_checked-Sent event client client' encrypted _ refl h
