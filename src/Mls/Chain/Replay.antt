-- ===== src/Mls/Chain/Replay.antt =====
-- What a receiver accepts of a channel's events, whoever sends them.
use singularis.Prelude.{
  ok_value, >>=-eq-ok, ◌∙◌, ℕ, ◌≡◌, refl, sym, ap, true, false, not, List, [], ◌∷◌, Result, ok, err,
  fail_if, Bytes, nat_eq, option_eq, get, contains, contains-put, arith,
}
use singularis.Protocol.Event.{EventId}
use singularis.Mls.Error.{MlsError, replay_detected, invalid_sender_chain}
use singularis.Mls.Event.{PlaintextEvent, EventJson, encode_provisional_json}
use singularis.Mls.Chain.{
  ChannelState, continues_incoming, record_incoming, validate_and_record_incoming,
}

module _ {Group : Type 0} (json : EventJson) (digest : Bytes → ℕ) where
  -- A refused event leaves the channel as it is.
  abbrev pub after_incoming :
      ChannelState Group → Result MlsError (ChannelState Group) → ChannelState Group
  after_incoming state (ok state') = state'
  after_incoming state (err e) = state

  unfoldable pub receive_all : List PlaintextEvent → ChannelState Group → ChannelState Group
  receive_all [] state = state
  receive_all (event ∷ events) state =
      receive_all events
        (after_incoming state (validate_and_record_incoming json digest event state))

  -- A successful check, taken apart.
  pub recorded :
      (event : PlaintextEvent) (state state' : ChannelState Group)
      → validate_and_record_incoming json digest event state ≡ ok state'
      → (encoded : Bytes) × (contains event.event_id state.seen_event_ids ≡ false)
        × (continues_incoming event (get event.sender_device_id state.incoming_chains) ≡ true)
        × (record_incoming json digest event encoded state ≡ state')
        × (encode_provisional_json json event ≡ ok encoded)
  unfolding validate_and_record_incoming
  recorded event state state' h =
      let (_, h₁, k₁) =
        >>=-eq-ok (fail_if (contains event.event_id state.seen_event_ids) replay_detected) _ h in
      let (_, h₂, k₂) =
        >>=-eq-ok
          (fail_if
            (not (continues_incoming event (get event.sender_device_id state.incoming_chains)))
            invalid_sender_chain)
          _ k₁ in
      let (encoded, h₃, k₃) = >>=-eq-ok (encode_provisional_json json event) _ k₂ in
      (encoded, ground arith, ground arith, ap (ok_value state) k₃, h₃)

  seen_stays :
      (id : EventId) (event : PlaintextEvent) (state : ChannelState Group)
      → contains id state.seen_event_ids ≡ true
      → contains id
          (after_incoming state
            (validate_and_record_incoming json digest event state)).seen_event_ids
        ≡ true
  seen_stays id event state h =
      on_result (validate_and_record_incoming json digest event state) refl
    where
      on_result :
          (r : Result MlsError (ChannelState Group))
          → validate_and_record_incoming json digest event state ≡ r
          → contains id (after_incoming state r).seen_event_ids ≡ true
      on_result (err e) k = h
      on_result (ok state') k =
          let (encoded, _, _, same, _) = recorded event state state' k in
          ap (λ s. contains id s.seen_event_ids) (sym same)
          ∙ contains-put event.event_id tt id state.seen_event_ids
          ∙ ground arith

  seen_remains :
      (id : EventId) (events : List PlaintextEvent) (state : ChannelState Group)
      → contains id state.seen_event_ids ≡ true
      → contains id (receive_all events state).seen_event_ids ≡ true
  unfolding receive_all
  seen_remains id [] state h = h
  seen_remains id (event ∷ events) state h = seen_remains id events _ (seen_stays id event state h)

  -- An event id that the channel accepted once is refused as a replay ever after, whatever event
  -- carries it and whatever events were offered in between.
  pub accepted_once :
      (event again : PlaintextEvent) (events : List PlaintextEvent)
      (state state' : ChannelState Group)
      → validate_and_record_incoming json digest event state ≡ ok state'
      → again.event_id ≡ event.event_id
      → validate_and_record_incoming json digest again (receive_all events state')
        ≡ err replay_detected
  unfolding validate_and_record_incoming
  accepted_once event again events state state' h same =
      let (encoded, _, _, stored, _) = recorded event state state' h in
      let seen = seen_remains event.event_id events state' (
        ap (λ s. contains event.event_id s.seen_event_ids) (sym stored)
        ∙ contains-put event.event_id tt event.event_id state.seen_event_ids
        ∙ ground arith) in
      ground (arith, seen)
