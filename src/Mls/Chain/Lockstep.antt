-- ===== src/Mls/Chain/Lockstep.antt =====
-- A receiver follows a sender: each event that the sender's client encrypts continues the receiver's
-- chain for that sender.
use singularis.Prelude.{
  ℕ, ◌≡◌, sym, ap, ◌∙◌, true, false, Option, none, some, ok, Bytes, nat_eq, option_eq, get,
  contains, contains-put, get-put_self, subst, arith, Bool-cases, inl, inr,
}
use singularis.Protocol.Event.{EventId, Uuid}
use singularis.Mls.Event.{PlaintextEvent, EventJson, encode_provisional_json}
use singularis.Mls.Chain.{
  ChannelState, SenderChain, continues_outgoing, continues_incoming, record_incoming,
  validate_and_record_incoming, AuthenticatedTransportMetadata, OpenMls, MlsClient, encrypt_event,
  record_outgoing, EncryptedEvent,
}
use singularis.Mls.Chain.Sent.{Sent, encrypt_event-Sent, check_outgoing-parts}

abbrev pub unwrap_or : {A : Type 0} → A → Option A → A
unwrap_or a none = a
unwrap_or a (some b) = b

-- What a sender may send next, a receiver of the same chain accepts.
outgoing-incoming :
    (event : PlaintextEvent) (chain : Option SenderChain)
    → continues_outgoing event chain ≡ true
    → continues_incoming event chain ≡ true
outgoing-incoming event none h = h
outgoing-incoming event (some chain) h = h

module _ {Group Provider : Type 0} (json : EventJson)
    (metadata_to_vec : AuthenticatedTransportMetadata → Option Bytes) (digest : Bytes → ℕ)
    (mls : OpenMls Group Provider) where
  -- The receiver's chain for the sender stands where the sender's own does, and what the receiver has
  -- seen, the sender has.
  abbrev pub InStep : Uuid → ChannelState Group → ChannelState Group → Type 0
  InStep device_id sender receiver =
      (get device_id receiver.incoming_chains ≡ sender.outgoing_chain)
      × ((id : EventId)
          → contains id receiver.seen_event_ids ≡ true
          → contains id sender.seen_event_ids ≡ true)

  pub incoming-eq :
      (event : PlaintextEvent) (receiver : ChannelState Group) (encoded : Bytes)
      → contains event.event_id receiver.seen_event_ids ≡ false
      → continues_incoming event (get event.sender_device_id receiver.incoming_chains) ≡ true
      → encode_provisional_json json event ≡ ok encoded
      → validate_and_record_incoming json digest event receiver
        ≡ ok (record_incoming json digest event encoded receiver)
  unfolding validate_and_record_incoming
  incoming-eq event receiver encoded fresh follows written = ground arith

  pub not_seen :
      (id : EventId) (sender receiver : ChannelState Group)
      → ((i : EventId)
          → contains i receiver.seen_event_ids ≡ true
          → contains i sender.seen_event_ids ≡ true)
      → contains id sender.seen_event_ids ≡ false
      → contains id receiver.seen_event_ids ≡ false
  not_seen id sender receiver within h = elim (Bool-cases (contains id receiver.seen_event_ids)) [
    | inl e ↦ absurd (ground (arith, within id e))
    | inr e ↦ e
  ]

  pub Sent-InStep :
      (event : PlaintextEvent) (client client' : MlsClient Group Provider)
      (encrypted : EncryptedEvent) (sender receiver : ChannelState Group)
      → get event.channel_id client.channels ≡ some sender
      → InStep client.device_id sender receiver
      → (s : Sent json metadata_to_vec digest mls event client client' encrypted)
      → (sender' : ChannelState Group) × (get event.channel_id client'.channels ≡ some sender')
        × (validate_and_record_incoming json digest event receiver
            ≡ ok (record_incoming json digest event s.encoded receiver))
        × InStep client'.device_id sender' (record_incoming json digest event s.encoded receiver)
  Sent-InStep event client client' encrypted sender receiver joined in_step s =
      let (found, device, follows, fresh, written, _, _, _) =
        check_outgoing-parts json metadata_to_vec digest mls event client s.state s.encoded
          s.metadata s.checked in
      let in_step' =
        subst (λ c. InStep client.device_id c receiver)
          (sym (ap (unwrap_or sender) (sym found ∙ joined))) in_step in
      (
        record_outgoing json metadata_to_vec digest mls event s.encoded
            (record s.state { group = s.group }),
        ap (λ c. get event.channel_id c.channels) (sym s.stored)
            ∙ get-put_self event.channel_id _ client.channels,
        incoming-eq event receiver s.encoded
            (not_seen event.event_id s.state receiver in_step'.1 fresh)
            (subst (λ c. continues_incoming event c ≡ true)
              (sym (ap (λ i. get i receiver.incoming_chains) device ∙ in_step'.0))
              (outgoing-incoming event s.state.outgoing_chain follows))
            written,
        (
          ap (λ i. get i (record_incoming json digest event s.encoded receiver).incoming_chains)
                (ap (λ c. c.device_id) (sym s.stored) ∙ sym device)
              ∙ get-put_self event.sender_device_id _ receiver.incoming_chains,
          λ id h. ground (
            arith,
            in_step'.1 id,
            contains-put event.event_id tt id receiver.seen_event_ids,
            contains-put event.event_id tt id s.state.seen_event_ids,
          ),
        ),
      )

  -- An event that the client encrypts is accepted by every receiver that is in step with it, and
  -- leaves the two in step.
  pub encrypt_event-InStep :
      (event : PlaintextEvent) (client client' : MlsClient Group Provider)
      (encrypted : EncryptedEvent) (sender receiver : ChannelState Group)
      → get event.channel_id client.channels ≡ some sender
      → InStep client.device_id sender receiver
      → encrypt_event json metadata_to_vec digest mls event client ≡ (ok encrypted, client')
      → (sender' : ChannelState Group) × (receiver' : ChannelState Group) × (get event.channel_id
            client'.channels
          ≡ some sender')
        × (validate_and_record_incoming json digest event receiver ≡ ok receiver')
        × InStep client'.device_id sender' receiver'
  encrypt_event-InStep event client client' encrypted sender receiver joined in_step h =
      let s = encrypt_event-Sent json metadata_to_vec digest mls event client client' encrypted h in
      let (sender', stored, accepted, in_step') =
        Sent-InStep event client client' encrypted sender receiver joined in_step s in
      (sender', record_incoming json digest event s.encoded receiver, stored, accepted, in_step')
