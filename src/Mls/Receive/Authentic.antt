-- ===== src/Mls/Receive/Authentic.antt =====
-- What a decrypted event is bound to.
use singularis.Prelude.{
  ℕ, ◌≡◌, refl, sym, ap, ◌∙◌, true, false, Option, some, Result, ok, err, map_err, Bytes, nat_eq,
  option_eq, get, contains, contains-put, arith,
}
use singularis.Protocol.Event.{Uuid, DeliveredEvent}
use singularis.Protocol.Message.{Base64, decode}
use singularis.Mls.Error.{MlsError, message_rejected}
use singularis.Mls.Event.{PlaintextEvent, EventJson}
use singularis.Mls.Chain.{ChannelState, MlsClient}
use singularis.Mls.Chain.Accepted.{Continues, continues_incoming-Continues}
use singularis.Mls.Chain.Replay.{recorded}
use singularis.Mls.Receive.Opened.{
  Names, Opened-Names, Decrypted, on_incoming-Decrypted, validate_event-ok,
}
use singularis.Mls.Receive.{
  Processed, Receiver, credential_device_id, decrypt_event_with_delivery, on_decoded,
  decrypt_delivered_event,
}

module _ {Group Provider : Type 0} (json : EventJson) (digest : Bytes → ℕ)
    (mls : Receiver Group Provider) where
  -- What a decrypted event is known to be: a member's of the channel's group, in the channel's
  -- community, from the device that the credential names, and the next of that device's chain.
  pub record Authentic (channel_id : Uuid) (delivered : Option DeliveredEvent)
      (client client' : MlsClient Group Provider) (event : PlaintextEvent) : Type 0 where
    pub state : ChannelState Group
    pub state' : ChannelState Group
    pub message : mls.ProtocolMessage
    pub processed : Processed
    pub joined : get channel_id client.channels ≡ some state
    pub processes : (mls.process_message message state.group client.provider).0 ≡ some processed
    pub from_member : processed.from_member ≡ true
    pub sender :
        credential_device_id mls.uuid_from_slice processed.credential ≡ ok event.sender_device_id
    pub channel : event.channel_id ≡ channel_id
    pub community : event.community_id ≡ state.community_id
    pub new : contains event.event_id state.seen_event_ids ≡ false
    pub follows : Continues (get event.sender_device_id state.incoming_chains) event
    pub stored : get channel_id client'.channels ≡ some state'
    pub seen : contains event.event_id state'.seen_event_ids ≡ true

  Decrypted-Authentic :
      (channel_id : Uuid) (delivered : Option DeliveredEvent)
      (client client' : MlsClient Group Provider) (event : PlaintextEvent)
      → Decrypted json digest mls channel_id delivered client client' event
      → Authentic channel_id delivered client client' event
  Decrypted-Authentic channel_id delivered client client' event
        (state, message, group, processed, state', joined, processes, o, run, stored) =
      let (sender, community, channel) =
        validate_event-ok o.metadata event o.sender state.community_id channel_id o.matches in
      let (encoded, new, follows, same, _) =
        recorded json digest event (record state { group = group }) state' run in
      record {
        state = state;
        state' = state';
        message = message;
        processed = processed;
        joined = joined;
        processes = processes;
        from_member = o.from_member;
        sender = o.authenticated ∙ ap ok (sym sender);
        channel = channel;
        community = community;
        new = new;
        follows = continues_incoming-Continues event _ follows;
        stored = stored;
        seen =
            ap (λ s. contains event.event_id s.seen_event_ids) (sym same)
            ∙ contains-put event.event_id tt event.event_id state.seen_event_ids
            ∙ ground arith;
      }

  -- A message that decrypts yields an event of a member of the channel's group: the one that the
  -- credential names, in this channel and its community. Its id is new to the channel and is seen from
  -- then on, and its counter is the next of the sender's chain.
  pub decrypt_event_with_delivery-Authentic :
      (channel_id : Uuid) (encoded_message : Bytes) (delivered : Option DeliveredEvent)
      (client client' : MlsClient Group Provider) (event : PlaintextEvent)
      → decrypt_event_with_delivery json digest mls channel_id encoded_message delivered client
        ≡ (ok event, client')
      → Authentic channel_id delivered client client' event
  unfolding decrypt_event_with_delivery
  decrypt_event_with_delivery-Authentic channel_id encoded_message delivered client client' event
        h =
      Decrypted-Authentic channel_id delivered client client' event (
        on_incoming-Decrypted json digest mls channel_id encoded_message delivered client client'
          event _ refl h)

  module _ (codec : Base64) where
    -- An event that a delivery decrypts to is the one that the relay's record names: the record's event
    -- id, community, channel, sender and counter are those that its sender encrypted.
    pub decrypt_delivered_event-Names :
        (delivered : DeliveredEvent) (client client' : MlsClient Group Provider)
        (event : PlaintextEvent)
        → decrypt_delivered_event json digest mls codec delivered client ≡ (ok event, client')
        → Names delivered event
    unfolding decrypt_delivered_event decrypt_event_with_delivery
    decrypt_delivered_event-Names delivered client client' event h =
        named (map_err (λ e. message_rejected) (decode codec delivered.mls_message)) h
      where
        named :
            (r : Result MlsError Bytes)
            → on_decoded json digest mls codec delivered client r ≡ (ok event, client')
            → Names delivered event
        named (err e) k = absurd (ground (arith, ap (λ r. r.0) k))
        named (ok encoded_message) k =
            let (state, _, _, processed, _, _, _, opened, _, _) =
              on_incoming-Decrypted json digest mls delivered.receipt.channel_id encoded_message
                (some delivered) client client' event _ refl k in
            Opened-Names json digest mls delivered.receipt.channel_id state.community_id delivered
              processed event opened
