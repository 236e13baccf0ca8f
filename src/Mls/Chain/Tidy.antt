-- ===== src/Mls/Chain/Tidy.antt =====
-- Channels whose chains have positive counters, and whose maps have one entry to a key.
use singularis.Prelude.{
  ℕ, ◌≡◌, refl, sym, ap, subst, ◌∙◌, false, some, ok, Bytes, ◌==◌, nat_eq, get, put, HashMap,
  Distinct, Distinct-put, get-put, arith, Bool-cases, inl, inr, >>=-eq-ok,
}
use singularis.Protocol.Event.{Uuid}
use singularis.Mls.Event.{PlaintextEvent, EventJson, validate, encode_provisional_json}
use singularis.Mls.Chain.{
  SenderChain, ChannelState, MlsClient, with_channel, record_incoming, validate_and_record_incoming,
}
use singularis.Mls.Chain.Lockstep.{unwrap_or}
use singularis.Mls.Chain.Replay.{recorded}

pub record TidyChannel {Group : Type 0} (state : ChannelState Group) : Type 0 where
  pub sent :
      (chain : SenderChain) → state.outgoing_chain ≡ some chain → (chain.counter == 0) ≡ false
  pub incoming_distinct : Distinct state.incoming_chains
  pub received :
      (device : Uuid) (chain : SenderChain)
      → get device state.incoming_chains ≡ some chain
      → (chain.counter == 0) ≡ false
  pub seen_distinct : Distinct state.seen_event_ids

pub record TidyClient {Group Provider : Type 0} (client : MlsClient Group Provider) : Type 0 where
  pub distinct : Distinct client.channels
  pub tidy :
      (channel_id : Uuid) (state : ChannelState Group)
      → get channel_id client.channels ≡ some state
      → TidyChannel state

-- What is put under a key is found there, and elsewhere is what was.
put-Everywhere :
    {V : Type 0} (P : V → Type 0) (k : Uuid) (v : V) (m : HashMap Uuid V)
    → P v
    → ((j : Uuid) (w : V) → get j m ≡ some w → P w)
    → (j : Uuid) (w : V) → get j (put k v m) ≡ some w
    → P w
put-Everywhere P k v m h rest j w found = elim (Bool-cases (j == k)) [
  | inl e ↦
      let here : get j (put k v m) ≡ some v = get-put k v j m ∙ rw e refl in
      subst P (ap (unwrap_or v) (sym here ∙ found)) h
  | inr e ↦
      let there : get j (put k v m) ≡ get j m = get-put k v j m ∙ rw e refl in
      rest j w (sym there ∙ found)
]

module _ {Group Provider : Type 0} where
  pub with_channel-TidyClient :
      (channel_id : Uuid) (state : ChannelState Group) (provider : Provider)
      (client : MlsClient Group Provider)
      → TidyChannel state
      → TidyClient client
      → TidyClient (with_channel channel_id state provider client)
  with_channel-TidyClient channel_id state provider client s t = record {
    distinct = Distinct-put channel_id state client.channels t.distinct;
    tidy = put-Everywhere TidyChannel channel_id state client.channels s t.tidy;
  }

validate-positive :
    (event : PlaintextEvent) → validate event ≡ ok tt → (event.sender_counter == 0) ≡ false
unfolding validate
validate-positive event h = ground arith

pub encoded-positive :
    (json : EventJson) (event : PlaintextEvent) (encoded : Bytes)
    → encode_provisional_json json event ≡ ok encoded
    → (event.sender_counter == 0) ≡ false
unfolding encode_provisional_json
encoded-positive json event encoded h =
    let (_, valid, _) = >>=-eq-ok (validate event) _ h in validate-positive event valid

module _ {Group : Type 0} (json : EventJson) (digest : Bytes → ℕ) where
  pub record_incoming-TidyChannel :
      (event : PlaintextEvent) (encoded : Bytes) (state : ChannelState Group)
      → encode_provisional_json json event ≡ ok encoded
      → TidyChannel state
      → TidyChannel (record_incoming json digest event encoded state)
  record_incoming-TidyChannel event encoded state written t = record {
    sent = t.sent;
    incoming_distinct =
        Distinct-put event.sender_device_id _ state.incoming_chains t.incoming_distinct;
    received =
        put-Everywhere (λ chain. (chain.counter == 0) ≡ false) event.sender_device_id _
          state.incoming_chains (encoded-positive json event encoded written) t.received;
    seen_distinct = Distinct-put event.event_id tt state.seen_event_ids t.seen_distinct;
  }

  pub validate_and_record_incoming-TidyChannel :
      (event : PlaintextEvent) (state state' : ChannelState Group)
      → validate_and_record_incoming json digest event state ≡ ok state'
      → TidyChannel state
      → TidyChannel state'
  validate_and_record_incoming-TidyChannel event state state' h t =
      let (encoded, _, _, same, written) = recorded json digest event state state' h in
      subst TidyChannel same (record_incoming-TidyChannel event encoded state written t)

module _ {Group : Type 0} where
  -- Another group changes nothing of the chains.
  pub with_group-TidyChannel :
      (state : ChannelState Group) (group : Group)
      → TidyChannel state
      → TidyChannel (record state { group = group })
  with_group-TidyChannel state group t = record {
    sent = t.sent;
    incoming_distinct = t.incoming_distinct;
    received = t.received;
    seen_distinct = t.seen_distinct;
  }

  pub with_provider-TidyClient :
      {Provider : Type 0} (provider : Provider) (client : MlsClient Group Provider)
      → TidyClient client
      → TidyClient (record client { provider = provider })
  with_provider-TidyClient provider client t = record { distinct = t.distinct; tidy = t.tidy }
