-- ===== src/Server/Store.antt =====
-- crates/singularis-server/src/store.rs: the relay's volatile store. Each method takes the state
-- under the write lock and returns the new one beside its result.

mod Live
pub mod Relay
pub mod Order
pub mod History
pub mod Lifetime
use singularis.Prelude.{
  ℕ, ◌+◌, ◌*◌, ◌^◌, ◌%◌, Bool, ◌&&◌, Option, none, some, List, [], ◌∷◌, ◌++◌, map, Result, ok, err,
  ltb, leb, if◌then◌else◌, Eq, ◌==◌, nat_eq, pair_eq, Map, empty_map, filter_values, insert, retain,
  is_empty,
}
use singularis.Protocol.Ttl.{ServerTtl, min_of}
use singularis.Protocol.Event.{
  Uuid, EventId, OffsetDateTime, SubmitEvent, AcceptedEvent, DeliveredEvent, submit_eq,
}

pub record StoredEvent : Type 0 where
  pub request : SubmitEvent
  pub receipt : AcceptedEvent

pub record StoreData : Type 0 where
  pub events_by_channel : Map Uuid (List StoredEvent)
  pub events_by_id : Map EventId StoredEvent
  pub highest_counter_by_sender : Map (Uuid × Uuid) ℕ
  pub next_sequence_by_channel : Map Uuid ℕ

pub data StoreError : Type 0 where
  event_id_conflict : EventId → StoreError
  sender_counter_replay : ℕ → ℕ → StoreError

abbrev pub default : StoreData
default = record {
  events_by_channel = empty_map;
  events_by_id = empty_map;
  highest_counter_by_sender = empty_map;
  next_sequence_by_channel = empty_map;
}

abbrev pub nanos : ℕ → ℕ
nanos seconds = seconds * 1_000_000_000

-- The test of both `retain` callbacks.
abbrev pub is_live : OffsetDateTime → StoredEvent → Bool
is_live now stored = ltb now stored.receipt.expires_at

abbrev pub keep_nonempty : List StoredEvent → Option (List StoredEvent)
keep_nonempty events = if is_empty events then none else some events

unfoldable pub prune_expired : OffsetDateTime → StoreData → StoreData
prune_expired now data' = record data' {
  events_by_id =
      filter_values (λ stored. if is_live now stored then some stored else none) data'.events_by_id;
  events_by_channel =
      filter_values (λ events. keep_nonempty (retain (is_live now) events)) data'.events_by_channel;
}

-- `entry(channel).and_modify(+= 1).or_insert(1)` on `u64`.
abbrev pub next_sequence : Option ℕ → ℕ
next_sequence none = 1
next_sequence (some current) = (current + 1) % 2 ^ 64

abbrev pub or_default : Option (List StoredEvent) → List StoredEvent
or_default none = []
or_default (some events) = events

abbrev pub sender_key : SubmitEvent → Uuid × Uuid
sender_key request = (request.channel_id, request.sender_device_id)

-- The receipt for a request that takes the given sequence number.
abbrev pub receipt_of : SubmitEvent → ServerTtl → OffsetDateTime → ℕ → AcceptedEvent
receipt_of request instance_max_ttl accepted_at sequence = record {
  event_id = request.event_id;
  channel_id = request.channel_id;
  sequence = sequence;
  accepted_at = accepted_at;
  expires_at = accepted_at + nanos (min_of request.ttl_seconds instance_max_ttl).seconds;
}

-- The part of `accept` behind its checks: from `effective_ttl` on.
unfoldable pub admit :
    SubmitEvent → ServerTtl → OffsetDateTime → StoreData → AcceptedEvent × StoreData
admit request instance_max_ttl accepted_at data' =
    let sequence = next_sequence (data'.next_sequence_by_channel request.channel_id) in
    let receipt = receipt_of request instance_max_ttl accepted_at sequence in
    let stored : StoredEvent = record { request = request; receipt = receipt } in
    (
      receipt,
      record {
        events_by_channel =
            insert request.channel_id
              (or_default (data'.events_by_channel request.channel_id) ++ stored ∷ [])
              data'.events_by_channel;
        events_by_id = insert request.event_id stored data'.events_by_id;
        highest_counter_by_sender =
            insert (sender_key request) request.sender_counter data'.highest_counter_by_sender;
        next_sequence_by_channel =
            insert request.channel_id sequence data'.next_sequence_by_channel;
      },
    )

-- The `if let` on the stored counter: the counter that the request fails to advance.
abbrev pub replayed : SubmitEvent → Option ℕ → Option ℕ
replayed request none = none
replayed request (some highest) = if leb request.sender_counter highest then some highest else none

-- The checks behind `prune_expired`, by what the two lookups found.
abbrev pub settle :
    SubmitEvent
    → ServerTtl
    → OffsetDateTime
    → StoreData
    → Option StoredEvent
    → Option ℕ
    → Result StoreError AcceptedEvent × StoreData
settle request max at data' (some stored) counter = (
  if stored.request == request then ok stored.receipt else err (event_id_conflict request.event_id),
  data',
)
settle request max at data' none (some highest) =
    (err (sender_counter_replay request.sender_counter highest), data')
settle request max at data' none none =
    let (receipt, data'') = admit request max at data' in (ok receipt, data'')

unfoldable pub accept :
    SubmitEvent
    → ServerTtl
    → OffsetDateTime
    → StoreData
    → Result StoreError AcceptedEvent × StoreData
accept request instance_max_ttl accepted_at data' =
    let pruned = prune_expired accepted_at data' in
    settle request instance_max_ttl accepted_at pruned (pruned.events_by_id request.event_id)
      (replayed request (pruned.highest_counter_by_sender (sender_key request)))

abbrev pub delivered : StoredEvent → DeliveredEvent
delivered stored = record {
  receipt = stored.receipt;
  community_id = stored.request.community_id;
  sender_device_id = stored.request.sender_device_id;
  sender_counter = stored.request.sender_counter;
  mls_message = stored.request.mls_message;
}

unfoldable pub list_active : Uuid → ℕ → OffsetDateTime → StoreData → List DeliveredEvent × StoreData
list_active channel_id after_sequence now data' =
    let pruned = prune_expired now data' in
    (
      map delivered (
          retain (λ stored. ltb after_sequence stored.receipt.sequence)
            (or_default (pruned.events_by_channel channel_id))),
      pruned,
    )

-- A call on the store.
pub data Call : Type 0 where
  accepts : SubmitEvent → ServerTtl → OffsetDateTime → Call
  lists : Uuid → ℕ → OffsetDateTime → Call

abbrev pub step : Call → StoreData → StoreData
step (accepts request max at) data' = (accept request max at data').1
step (lists channel after now) data' = (list_active channel after now data').1

unfoldable pub run : List Call → StoreData → StoreData
run [] data' = data'
run (c ∷ cs) data' = run cs (step c data')
