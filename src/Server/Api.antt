-- ===== src/Server/Api.antt =====
-- crates/singularis-server/src/api.rs: the handlers behind the router. The clock's reading is an
-- argument, and the shared store is the state.
use singularis.Prelude.{
  ℕ, ◌<◌, ◌≡◌, ◌⊎◌, refl, Option, none, some, List, Result, ok, err, map_ok, map_err, fail_if,
  arith, eqb, All, text, inl, inr, Result-cases, ◌∙◌, ==_refl,
}
use Prim.Native.String.{String}
use singularis.Protocol.Ttl.{ServerTtl}
use singularis.Protocol.Event.{
  Uuid, OffsetDateTime, SubmitEvent, AcceptedEvent, DeliveredEvent, HealthResponse,
}
use singularis.Server.Store.{
  StoreData, StoreError, event_id_conflict, sender_counter_replay, prune_expired, accept,
  list_active, Call, run,
}
use singularis.Server.Store.History.{accept_again, accept-refused, time_of}

pub data StatusCode : Type 0 where
  accepted unprocessable_entity conflict : StatusCode

pub record ApiError : Type 0 where
  pub status : StatusCode
  pub code : String
  pub message : String

abbrev pub unprocessable : String → String → ApiError
unprocessable code message = record {
  status = unprocessable_entity;
  code = code;
  message = message;
}

-- `From<StoreError> for ApiError`.
unfoldable pub from_store_error : StoreError → ApiError
from_store_error (event_id_conflict id) = record {
  status = conflict;
  code = "event_id_conflict";
  message = "event ID was already used for a different payload";
}
from_store_error (sender_counter_replay received highest) = record {
  status = conflict;
  code = "sender_counter_replay";
  message = "sender counter must advance monotonically";
}

unfoldable pub validate_event : SubmitEvent → Result ApiError Unit
validate_event event =
    fail_if (eqb event.sender_counter 0)
      (unprocessable "invalid_sender_counter" "sender counter must be positive")

unfoldable pub health : ServerTtl → HealthResponse
health max_server_ttl = record {
  status = text "ok";
  service = text "singularis-server";
  storage_mode = text "volatile-prototype";
  max_server_ttl_seconds = max_server_ttl.seconds;
}

abbrev pub submit_checked :
    ServerTtl
    → SubmitEvent
    → OffsetDateTime
    → Result ApiError Unit
    → StoreData
    → Result ApiError (StatusCode × AcceptedEvent) × StoreData
submit_checked max_server_ttl event now (err e) store = (err e, store)
submit_checked max_server_ttl event now (ok valid) store =
    let (result, store') = accept event max_server_ttl now store in
    (map_ok (λ receipt. (accepted, receipt)) (map_err from_store_error result), store')

unfoldable pub submit_event :
    ServerTtl
    → SubmitEvent
    → OffsetDateTime
    → StoreData
    → Result ApiError (StatusCode × AcceptedEvent) × StoreData
submit_event max_server_ttl event now store =
    submit_checked max_server_ttl event now (validate_event event) store

-- `cursor.after_sequence.unwrap_or_default()`
abbrev pub cursor_start : Option ℕ → ℕ
cursor_start none = 0
cursor_start (some after) = after

unfoldable pub list_events :
    Uuid → Option ℕ → OffsetDateTime → StoreData → List DeliveredEvent × StoreData
list_events channel_id after_sequence now store =
    list_active channel_id (cursor_start after_sequence) now store

-- A refused submission adds nothing: either its counter is zero, the answer is 422 and the store is
-- as it was, or the answer is 409 and the store has only dropped what expired.
pub submit_event-refused :
    (max : ServerTtl) (event : SubmitEvent) (now : OffsetDateTime) (store : StoreData)
    (e : ApiError)
    → (submit_event max event now store).0 ≡ err e
    → ((e.status ≡ unprocessable_entity)
        × (event.sender_counter ≡ 0)
        × ((submit_event max event now store).1 ≡ store))
      ⊎ ((e.status ≡ conflict)
          × (0 < event.sender_counter)
          × ((submit_event max event now store).1 ≡ prune_expired now store))
unfolding submit_event validate_event from_store_error
submit_event-refused max event now store e h = elim (Result-cases (accept event max now store).0) [
  | inl (receipt, k) ↦ ground arith
  | inr (event_id_conflict id, k) ↦
      ground (arith, accept-refused event max now store (event_id_conflict id))
  | inr (sender_counter_replay received highest, k) ↦
      ground (arith, accept-refused event max now store (sender_counter_replay received highest))
]

submit_event-accept :
    (max : ServerTtl) (event : SubmitEvent) (now : OffsetDateTime) (store : StoreData)
    (receipt : AcceptedEvent)
    → (submit_event max event now store).0 ≡ ok (accepted, receipt)
    → ((accept event max now store).0 ≡ ok receipt)
      × ((submit_event max event now store).1 ≡ (accept event max now store).1)
      × (0 < event.sender_counter)
unfolding submit_event validate_event
submit_event-accept max event now store receipt h =
    elim (Result-cases (accept event max now store).0) [
      | inl (r, k) ↦ ground arith
      | inr (e, k) ↦ absurd (ground arith)
    ]

submit_event_answer :
    (max : ServerTtl) (event : SubmitEvent) (now : OffsetDateTime) (store : StoreData)
    (receipt : AcceptedEvent)
    → 0 < event.sender_counter
    → (accept event max now store).0 ≡ ok receipt
    → (submit_event max event now store).0 ≡ ok (accepted, receipt)
unfolding submit_event validate_event
submit_event_answer max event now store receipt pos h = ground arith

-- A client that repeats a submission which was answered with 202 gets the same 202 and the same
-- receipt until the receipt expires, whatever other calls reach the store in between.
pub submit_event_retry :
    (max : ServerTtl) (event : SubmitEvent) (now later : OffsetDateTime) (store : StoreData)
    (receipt : AcceptedEvent) (between : List Call)
    → (submit_event max event now store).0 ≡ ok (accepted, receipt)
    → All (λ c. time_of c < receipt.expires_at) between
    → later < receipt.expires_at
    → (submit_event max event later (run between (submit_event max event now store).1)).0
      ≡ ok (accepted, receipt)
submit_event_retry max event now later store receipt between h live soon =
    let (h', same, pos) = submit_event-accept max event now store receipt h in
    rw same (
      submit_event_answer max event later _ receipt pos (
        accept_again store between event event max max now later receipt h' live soon refl
        ∙ rw (==_refl event)))
