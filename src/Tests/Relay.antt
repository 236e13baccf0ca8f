-- ===== src/Tests/Relay.antt =====
-- The relay at concrete inputs.
use singularis.Prelude.{
  ℕ, ◌<◌, ◌≤◌, ◌+◌, ◌≡◌, ◌⊎◌, refl, [], ◌∷◌, List, true, text, Text, arith, ok, err, All, Pairwise,
  some, if◌then◌else◌, ◌==◌, insert, retain,
}
use singularis.Protocol.Ttl.{InPolicy, min_ttl, max_ttl, min_of, min_server_ttl_seconds, try_from}
use singularis.Protocol.Event.{SubmitEvent, AcceptedEvent, submit_eq}
use singularis.Server.Store.{
  StoreData, Call, accepts, lists, default, run, accept, admit, list_active, prune_expired,
  event_id_conflict, nanos,
}
use singularis.Server.Store.Relay.{
  Refines, new_relay, relay_run, submit, fetch, Refines-accept, Refines-list_active, Refines-run,
  Refines-default,
}
use singularis.Server.Store.Order.{list_active-ordered}
use singularis.Server.Store.History.{replay_refused, Stored, accept_again}
use singularis.Server.Store.Lifetime.{list_active-lifetime}
use singularis.Server.Config.{
  SocketAddrs, AppConfig, from_env, value, not_present, parse_u64, read_ttl, from_env-safe,
  or_default_addr,
}
use singularis.Server.Api.{
  submit_event, submit_event-refused, submit_event_retry, unprocessable, unprocessable_entity,
  conflict, accepted, validate_event,
}

abbrev event : ℕ → ℕ → SubmitEvent
event id counter = record {
  event_id = id;
  community_id = 1;
  channel_id = 7;
  sender_device_id = 9;
  sender_counter = counter;
  mls_message = record { encoded = text "SGk" };
  ttl_seconds = min_ttl;
}

abbrev receipt : ℕ → ℕ → ℕ → AcceptedEvent
receipt id sequence at = record {
  event_id = id;
  channel_id = 7;
  sequence = sequence;
  accepted_at = at;
  expires_at = at + 300_000_000_000;
}

abbrev calls : List Call
calls = accepts (event 20 1) max_ttl 5 ∷ lists 7 0 6 ∷ accepts (event 21 2) max_ttl 7 ∷ []

first_answer : (accept (event 20 1) max_ttl 5 (run [] default)).0 ≡ ok (receipt 20 1 5)
unfolding accept admit prune_expired insert retain min_of run
first_answer = refl

Refines-accept_example :
    ((accept (event 22 3) max_ttl 8 (run calls default)).0
      ≡ (submit (event 22 3) max_ttl 8 (relay_run calls new_relay)).0)
    × Refines
        (accept (event 22 3) max_ttl 8 (run calls default)).1
        (submit (event 22 3) max_ttl 8 (relay_run calls new_relay)).1
Refines-accept_example =
    Refines-accept (event 22 3) max_ttl 8 (run calls default) (relay_run calls new_relay)
      (Refines-run calls default new_relay Refines-default)

Refines-list_active_example :
    ((list_active 7 1 8 (run calls default)).0 ≡ (fetch 7 1 8 (relay_run calls new_relay)).0)
    × Refines (list_active 7 1 8 (run calls default)).1 (fetch 7 1 8 (relay_run calls new_relay)).1
Refines-list_active_example =
    Refines-list_active 7 1 8 (run calls default) (relay_run calls new_relay)
      (Refines-run calls default new_relay Refines-default)

list_active-ordered_example :
    Pairwise
      (λ a b. a.receipt.sequence < b.receipt.sequence)
      (list_active 7 0 8 (run calls default)).0
    × All
        (λ d. (d.receipt.channel_id ≡ 7) × (0 < d.receipt.sequence) × (8 < d.receipt.expires_at))
        (list_active 7 0 8 (run calls default)).0
list_active-ordered_example = list_active-ordered calls 7 0 8 (omega arith)

list_active-lifetime_example :
    All
      (λ d.
        (d.receipt.accepted_at + nanos min_server_ttl_seconds ≤ d.receipt.expires_at)
        × (d.receipt.expires_at ≤ d.receipt.accepted_at + nanos max_ttl.seconds))
      (list_active 7 0 8 (run calls default)).0
list_active-lifetime_example =
    list_active-lifetime max_ttl calls 7 0 8 (omega arith)
      ((refl, omega arith), (tt, ((refl, omega arith), tt)))

abbrev after_first : StoreData
after_first = (accept (event 20 1) max_ttl 5 (run [] default)).1

replay_refused_example :
    ((accept (event 30 1) max_ttl 400_000_000_000 (run (lists 7 0 6 ∷ []) after_first)).1
      ≡ prune_expired 400_000_000_000 (run (lists 7 0 6 ∷ []) after_first))
    × Stored
        (event 30 1)
        400_000_000_000
        (run (lists 7 0 6 ∷ []) after_first)
        (accept (event 30 1) max_ttl 400_000_000_000 (run (lists 7 0 6 ∷ []) after_first)).0
replay_refused_example =
    replay_refused [] (lists 7 0 6 ∷ []) (event 20 1) (event 30 1) max_ttl max_ttl 5 400_000_000_000
      (receipt 20 1 5) (omega arith) first_answer refl (omega arith)

accept_again_example :
    (accept (event 20 1) max_ttl 9 (run (lists 7 0 6 ∷ []) after_first)).0
    ≡ (if event 20 1 == event 20 1 then ok (receipt 20 1 5) else err (event_id_conflict 20))
accept_again_example =
    accept_again (run [] default) (lists 7 0 6 ∷ []) (event 20 1) (event 20 1) max_ttl max_ttl 5 9
      (receipt 20 1 5) first_answer (omega arith) (omega arith) refl

first_response : (submit_event max_ttl (event 20 1) 5 default).0 ≡ ok (accepted, receipt 20 1 5)
unfolding submit_event validate_event accept admit prune_expired insert retain min_of
first_response = refl

submit_event_retry_example :
    (submit_event max_ttl
      (event 20 1)
      9
      (run (lists 7 0 6 ∷ []) (submit_event max_ttl (event 20 1) 5 default).1)).0
    ≡ ok (accepted, receipt 20 1 5)
submit_event_retry_example =
    submit_event_retry max_ttl (event 20 1) 5 9 default (receipt 20 1 5) (lists 7 0 6 ∷ [])
      first_response (omega arith) (omega arith)

zero_counter :
    (submit_event max_ttl (event 20 0) 5 default).0
    ≡ err (unprocessable "invalid_sender_counter" "sender counter must be positive")
unfolding submit_event validate_event
zero_counter = refl

submit_event-refused_example :
    ((unprocessable_entity ≡ unprocessable_entity)
      × (0 ≡ (event 20 0).sender_counter)
      × ((submit_event max_ttl (event 20 0) 5 default).1 ≡ default))
    ⊎ ((unprocessable_entity ≡ conflict)
        × (0 < (event 20 0).sender_counter)
        × ((submit_event max_ttl (event 20 0) 5 default).1 ≡ prune_expired 5 default))
submit_event-refused_example =
    submit_event-refused max_ttl (event 20 0) 5 default
      (unprocessable "invalid_sender_counter" "sender counter must be positive") zero_counter

-- Addresses for the tests: a text is its own address, and every address is a loopback one.
abbrev local_net : SocketAddrs
local_net = record { SocketAddr = Text; parse_addr = λ s. some s; is_loopback = λ a. true }

abbrev hour : AppConfig local_net
hour = record { bind_addr = text "[::1]:80"; max_server_ttl = record { seconds = 3600 } }

reads_hour : from_env local_net (value (text "[::1]:80")) (value (text "+3600")) ≡ ok hour
unfolding from_env read_ttl parse_u64 try_from
reads_hour = refl

from_env-safe_example :
    (local_net.is_loopback hour.bind_addr ≡ true)
    × (local_net.parse_addr (or_default_addr local_net (value (text "[::1]:80")))
        ≡ some hour.bind_addr)
    × InPolicy hour.max_server_ttl
    × (value (text "+3600") ≡ not_present → hour.max_server_ttl ≡ max_ttl)
from_env-safe_example =
    from_env-safe local_net (value (text "[::1]:80")) (value (text "+3600")) hour reads_hour
