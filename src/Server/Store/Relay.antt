-- ===== src/Server/Store/Relay.antt =====
-- What the store promises: a relay that keeps one list of live events in the order of their
-- acceptance. The store's two indexes refine it.
use singularis.Prelude.{
  ℕ, ◌≡◌, refl, sym, ap, ◌∙◌, Option, none, some, List, [], ◌∷◌, ◌++◌, map, arith, if◌then◌else◌,
  ◌==◌, nat_eq, pair_eq, retain, Result, ok, err, Map, empty_map, insert, and_then, ltb,
}
use singularis.Protocol.Ttl.{ServerTtl}
use singularis.Protocol.Event.{
  Uuid, EventId, OffsetDateTime, SubmitEvent, AcceptedEvent, DeliveredEvent, submit_eq,
}
use singularis.Server.Store.{
  StoredEvent, StoreData, StoreError, event_id_conflict, sender_counter_replay, default, is_live,
  keep_nonempty, prune_expired, next_sequence, or_default, sender_key, receipt_of, admit, replayed,
  settle, accept, delivered, list_active, Call, accepts, lists, step, run,
}
use singularis.Server.Store.Live.{
  find_id, of_channel, IsDistinct, IsDistinct-retain, find_id-retain, of_channel-retain,
  find_id-snoc, IsDistinct-snoc, of_channel-snoc, keep_nonempty-retain, or_default-keep_nonempty,
  keep_nonempty-snoc,
}

pub record Relay : Type 0 where
  pub live : List StoredEvent
  pub highest : Map (Uuid × Uuid) ℕ
  pub sequences : Map Uuid ℕ

abbrev pub new_relay : Relay
new_relay = record { live = []; highest = empty_map; sequences = empty_map }

abbrev pub expire : OffsetDateTime → Relay → Relay
expire now r = record r { live = retain (is_live now) r.live }

abbrev pub append : SubmitEvent → ServerTtl → OffsetDateTime → Relay → AcceptedEvent × Relay
append request max at r =
    let receipt = receipt_of request max at (next_sequence (r.sequences request.channel_id)) in
    (
      receipt,
      record {
        live = r.live ++ (record { request = request; receipt = receipt }) ∷ [];
        highest = insert (sender_key request) request.sender_counter r.highest;
        sequences = insert request.channel_id receipt.sequence r.sequences;
      },
    )

-- The highest counter of a sender, where a counter does not exceed it.
abbrev pub overtaken : ℕ → Option ℕ → Option ℕ
overtaken counter none = none
overtaken counter (some highest) = if ltb highest counter then none else some highest

replayed-overtaken :
    (request : SubmitEvent) (highest : Option ℕ)
    → replayed request highest ≡ overtaken request.sender_counter highest
replayed-overtaken request none = refl
replayed-overtaken request (some highest) = ground arith

abbrev pub decide :
    SubmitEvent
    → ServerTtl
    → OffsetDateTime
    → Relay
    → Option StoredEvent
    → Option ℕ
    → Result StoreError AcceptedEvent × Relay
decide request max at r (some stored) counter = (
  if stored.request == request then ok stored.receipt else err (event_id_conflict request.event_id),
  r,
)
decide request max at r none (some highest) =
    (err (sender_counter_replay request.sender_counter highest), r)
decide request max at r none none = let (receipt, r') = append request max at r in (ok receipt, r')

unfoldable pub submit :
    SubmitEvent → ServerTtl → OffsetDateTime → Relay → Result StoreError AcceptedEvent × Relay
submit request max at r =
    decide request max at (expire at r) (find_id request.event_id (expire at r).live)
      (overtaken request.sender_counter (r.highest (sender_key request)))

unfoldable pub fetch : Uuid → ℕ → OffsetDateTime → Relay → List DeliveredEvent × Relay
fetch channel after now r = (
  map delivered
      (retain (λ s. ltb after s.receipt.sequence) (of_channel channel (expire now r).live)),
  expire now r,
)

abbrev pub relay_step : Call → Relay → Relay
relay_step (accepts request max at) r = (submit request max at r).1
relay_step (lists channel after now) r = (fetch channel after now r).1

unfoldable pub relay_run : List Call → Relay → Relay
relay_run [] r = r
relay_run (c ∷ cs) r = relay_run cs (relay_step c r)

-- The two indexes are the lookups of the one list, whose ids are distinct.
pub record Refines (d : StoreData) (r : Relay) : Type 0 where
  pub by_id : (id : EventId) → d.events_by_id id ≡ find_id id r.live
  pub by_channel : (c : Uuid) → d.events_by_channel c ≡ keep_nonempty (of_channel c r.live)
  pub distinct : IsDistinct r.live
  pub highest : d.highest_counter_by_sender ≡ r.highest
  pub sequences : d.next_sequence_by_channel ≡ r.sequences

pub Refines-default : Refines default new_relay
unfolding find_id of_channel retain
Refines-default = record {
  by_id = λ id. refl;
  by_channel = λ c. refl;
  distinct = tt;
  highest = refl;
  sequences = refl;
}

pub Refines-prune_expired :
    (now : OffsetDateTime) (d : StoreData) (r : Relay)
    → Refines d r
    → Refines (prune_expired now d) (expire now r)
unfolding prune_expired
Refines-prune_expired now d r f = record {
  by_id = λ id. ground (arith, f.by_id id, find_id-retain (is_live now) id r.live f.distinct);
  by_channel = λ c.
      ap (λ o. and_then o (λ events. keep_nonempty (retain (is_live now) events))) (f.by_channel c)
      ∙ keep_nonempty-retain (is_live now) (of_channel c r.live)
      ∙ ap keep_nonempty (sym (of_channel-retain (is_live now) c r.live));
  distinct = IsDistinct-retain (is_live now) r.live f.distinct;
  highest = f.highest;
  sequences = f.sequences;
}

module _ (request : SubmitEvent) (max : ServerTtl) (at : OffsetDateTime) (d : StoreData) (r : Relay)
    (f : Refines d r) where
  same_sequence :
      next_sequence (d.next_sequence_by_channel request.channel_id)
      ≡ next_sequence (r.sequences request.channel_id)
  same_sequence = ap (λ m. next_sequence (m request.channel_id)) f.sequences

  same_events :
      or_default (d.events_by_channel request.channel_id) ≡ of_channel request.channel_id r.live
  same_events =
      ap or_default (f.by_channel request.channel_id)
      ∙ or_default-keep_nonempty (of_channel request.channel_id r.live)

  Refines-admit :
      find_id request.event_id r.live ≡ none
      → Refines (admit request max at d).1 (append request max at r).1
  unfolding admit insert
  Refines-admit h = record {
    by_id = λ id. ground (arith, f.by_id id, same_sequence, find_id-snoc stored id r.live h);
    by_channel = λ c. ground (
      arith,
      f.by_channel c,
      same_sequence,
      same_events,
      of_channel-snoc stored c r.live,
      keep_nonempty-snoc (of_channel c r.live) stored,
      nat_eq.beq_iff request.channel_id c,
    );
    distinct = IsDistinct-snoc stored r.live h f.distinct;
    highest = cc (f.highest);
    sequences = cc (f.sequences, same_sequence);
  }
    where
      stored : StoredEvent
      stored = record { request = request; receipt = (append request max at r).0 }

  same_receipt : (admit request max at d).0 ≡ (append request max at r).0
  unfolding admit
  same_receipt = cc (same_sequence)

  Refines-settle :
      (found : Option StoredEvent) (counter : Option ℕ)
      → find_id request.event_id r.live ≡ found
      → ((settle request max at d found counter).0 ≡ (decide request max at r found counter).0)
        × Refines
            (settle request max at d found counter).1
            (decide request max at r found counter).1
  Refines-settle (some stored) counter h = (refl, f)
  Refines-settle none (some highest) h = (refl, f)
  Refines-settle none none h = (ap ok same_receipt, Refines-admit h)

-- On states that agree, `accept` gives the relay's answer, errors included, and the states agree
-- afterwards.
pub Refines-accept :
    (request : SubmitEvent) (max : ServerTtl) (at : OffsetDateTime) (d : StoreData) (r : Relay)
    → Refines d r
    → ((accept request max at d).0 ≡ (submit request max at r).0)
      × Refines (accept request max at d).1 (submit request max at r).1
unfolding accept submit
Refines-accept request max at d r f =
    let g = Refines-prune_expired at d r f in
    rw
      (
        g.by_id request.event_id,
        ap (λ m. replayed request (m (sender_key request))) g.highest
            ∙ replayed-overtaken request (r.highest (sender_key request)),
      )
      (Refines-settle request max at (prune_expired at d) (expire at r) g _ _ refl)

-- `list_active` returns the relay's answer: the live events of the channel behind the cursor, in
-- the order of their acceptance.
pub Refines-list_active :
    (channel : Uuid) (after : ℕ) (now : OffsetDateTime) (d : StoreData) (r : Relay)
    → Refines d r
    → ((list_active channel after now d).0 ≡ (fetch channel after now r).0)
      × Refines (list_active channel after now d).1 (fetch channel after now r).1
unfolding list_active fetch
Refines-list_active channel after now d r f =
    let g = Refines-prune_expired now d r f in
    (
      ap (λ events. map delivered (retain (λ s. ltb after s.receipt.sequence) events))
          (ap or_default (g.by_channel channel)
            ∙ or_default-keep_nonempty (of_channel channel (expire now r).live)),
      g,
    )

Refines-step :
    (c : Call) (d : StoreData) (r : Relay) → Refines d r → Refines (step c d) (relay_step c r)
Refines-step (accepts request max at) d r f = (Refines-accept request max at d r f).1
Refines-step (lists channel after now) d r f = (Refines-list_active channel after now d r f).1

-- After any calls on a new store its indexes are those of the relay's one list.
pub Refines-run :
    (cs : List Call) (d : StoreData) (r : Relay) → Refines d r → Refines (run cs d) (relay_run cs r)
unfolding run relay_run
Refines-run [] d r f = f
Refines-run (c ∷ cs) d r f = Refines-run cs (step c d) (relay_step c r) (Refines-step c d r f)
