-- ===== src/Mls/Chain/Accepted.antt =====
-- The events that a channel accepts of one sender form a chain.
use singularis.Prelude.{
  ℕ, ◌+◌, ◌≡◌, refl, sym, ap, subst, ◌∙◌, true, Option, none, some, List, [], ◌∷◌, Result, ok, err,
  is_err, if◌then◌else◌, ltb, retain, Bytes, ◌==◌, nat_eq, option_eq, get, get-put, arith,
  Bool-cases, inl, inr,
}
use singularis.Protocol.Event.{Uuid}
use singularis.Mls.Error.{MlsError}
use singularis.Mls.Event.{PlaintextEvent, EventJson, encode_provisional_json}
use singularis.Mls.Chain.{
  ChannelState, SenderChain, continues_incoming, validate_and_record_incoming,
}
use singularis.Mls.Chain.Replay.{after_incoming, recorded}

-- The number after a counter, which stays below 2^64.
abbrev pub successor : ℕ → ℕ
successor n = if ltb n 18446744073709551615 then n + 1 else 18446744073709551615

-- The event is the next one of a sender whose last one left this chain.
abbrev pub Continues : Option SenderChain → PlaintextEvent → Type 0
Continues none event = (event.sender_counter ≡ 1) × (event.previous_event_hash ≡ none)
Continues (some chain) event =
    (event.sender_counter ≡ successor chain.counter)
    × (event.previous_event_hash ≡ some chain.event_hash)

pub continues_incoming-Continues :
    (event : PlaintextEvent) (chain : Option SenderChain)
    → continues_incoming event chain ≡ true
    → Continues chain event
continues_incoming-Continues event none h =
    (ground arith, ((option_eq {A = ℕ}).beq_iff event.previous_event_hash none).0 (ground arith))
continues_incoming-Continues event (some chain) h = (
  ground arith,
  ((option_eq {A = ℕ}).beq_iff event.previous_event_hash (some chain.event_hash)).0 (ground arith),
)

-- The events of one sender.
abbrev pub of_sender : Uuid → List PlaintextEvent → List PlaintextEvent
of_sender device_id = retain (λ event. event.sender_device_id == device_id)

module _ (json : EventJson) (digest : Bytes → ℕ) where
  -- Consecutive counters from the given one, each event with the hash of the encoding before it.
  abbrev pub Chained : ℕ → Option ℕ → List PlaintextEvent → Type 0
  Chained counter previous [] = Unit
  Chained counter previous (event ∷ events) =
      (event.sender_counter ≡ counter)
      × (event.previous_event_hash ≡ previous)
      × (encoded : Bytes) × (encode_provisional_json json event ≡ ok encoded)
      × Chained (successor counter) (some (digest encoded)) events

  abbrev ChainedAfter : Option SenderChain → List PlaintextEvent → Type 0
  ChainedAfter none events = Chained 1 none events
  ChainedAfter (some chain) events =
      Chained (successor chain.counter) (some chain.event_hash) events

  ChainedAfter-cons :
      (chain : Option SenderChain) (event : PlaintextEvent) (events : List PlaintextEvent)
      (encoded : Bytes)
      → Continues chain event
      → encode_provisional_json json event ≡ ok encoded
      → Chained (successor event.sender_counter) (some (digest encoded)) events
      → ChainedAfter chain (event ∷ events)
  ChainedAfter-cons none event events encoded (counter, previous) written rest = (
    counter,
    previous,
    encoded,
    written,
    subst (λ n. Chained (successor n) (some (digest encoded)) events) counter rest,
  )
  ChainedAfter-cons (some chain) event events encoded (counter, previous) written rest = (
    counter,
    previous,
    encoded,
    written,
    subst (λ n. Chained (successor n) (some (digest encoded)) events) counter rest,
  )

module _ {Group : Type 0} (json : EventJson) (digest : Bytes → ℕ) where
  -- Of the events that a channel is offered, those that it accepts.
  unfoldable pub accepted : List PlaintextEvent → ChannelState Group → List PlaintextEvent
  accepted [] state = []
  accepted (event ∷ events) state =
      let result = validate_and_record_incoming json digest event state in
      let rest = accepted events (after_incoming json digest state result) in
      if is_err result then rest else event ∷ rest

  module _ (device_id : Uuid) (event : PlaintextEvent) (events : List PlaintextEvent)
      (after : (state : ChannelState Group)
        → ChainedAfter json digest
            (get device_id state.incoming_chains)
            (of_sender device_id (accepted events state))) where
    offered-ChainedAfter :
        (state : ChannelState Group) (r : Result MlsError (ChannelState Group))
        → validate_and_record_incoming json digest event state ≡ r
        → ChainedAfter json digest (get device_id state.incoming_chains) (
            of_sender device_id (
              if is_err r
              then accepted events (after_incoming json digest state r)
              else event ∷ accepted events (after_incoming json digest state r)))
    unfolding retain
    offered-ChainedAfter state (err e) h = after state
    offered-ChainedAfter state (ok state') h =
        let (encoded, _, follows, same, written) = recorded json digest event state state' h in
        let chains =
          ap (λ s. get device_id s.incoming_chains) (sym same)
          ∙ get-put event.sender_device_id _ device_id state.incoming_chains in
        elim (Bool-cases (event.sender_device_id == device_id)) [
          | inl e ↦
              let sender = nat_eq.beq_iff event.sender_device_id device_id in
              let advanced : get device_id state'.incoming_chains
                  ≡ some (record { counter = event.sender_counter; event_hash = digest encoded }) =
                chains
                ∙ ground (arith, nat_eq.beq_iff device_id event.sender_device_id, sender.0 e) in
              rw e (
                ChainedAfter-cons json digest (get device_id state.incoming_chains) event _ encoded
                  (subst (λ d. Continues (get d state.incoming_chains) event) (sender.0 e)
                    (continues_incoming-Continues event _ follows))
                  written
                  (subst
                    (λ c. ChainedAfter json digest c (of_sender device_id (accepted events state')))
                    advanced (after state')))
          | inr e ↦
              let unchanged : get device_id state'.incoming_chains
                  ≡ get device_id state.incoming_chains =
                chains ∙ ground (arith, nat_eq.beq_iff device_id event.sender_device_id) in
              rw e (
                subst
                  (λ c. ChainedAfter json digest c (of_sender device_id (accepted events state')))
                  unchanged (after state'))
        ]

  accepted-ChainedAfter :
      (device_id : Uuid) (events : List PlaintextEvent) (state : ChannelState Group)
      → ChainedAfter json digest
          (get device_id state.incoming_chains)
          (of_sender device_id (accepted events state))
  unfolding accepted retain
  accepted-ChainedAfter device_id [] state = by_chain (get device_id state.incoming_chains)
    where
      by_chain : (chain : Option SenderChain) → ChainedAfter json digest chain []
      by_chain none = tt
      by_chain (some chain) = tt
  accepted-ChainedAfter device_id (event ∷ events) state =
      offered-ChainedAfter device_id event events
        (λ state'. accepted-ChainedAfter device_id events state') state
        (validate_and_record_incoming json digest event state) refl

  -- Whatever events a channel is offered that has no chain of a sender yet, those of this sender that
  -- it accepts form a chain, in the order of their acceptance: their counters are 1, 2, 3 and so on up
  -- to the largest number of 64 bits, where they stay, the first has no previous hash, and each other
  -- one has the hash of the encoding of the one before it.
  pub accepted-Chained :
      (device_id : Uuid) (events : List PlaintextEvent) (state : ChannelState Group)
      → get device_id state.incoming_chains ≡ none
      → Chained json digest 1 none (of_sender device_id (accepted events state))
  accepted-Chained device_id events state absent =
      subst (λ c. ChainedAfter json digest c (of_sender device_id (accepted events state))) absent
        (accepted-ChainedAfter device_id events state)
