-- ===== src/Protocol/Event.antt =====
-- crates/singularis-protocol/src/event.rs: identifiers and the wire records. A UUID is the number
-- that its 128 bits spell; a time is a number of nanoseconds.
use singularis.Prelude.{
  ℕ, ◌≡◌, ◌↔◌, Bool, true, ◌&&◌, Option, Bytes, Text, Eq, ◌==◌, nat_eq, arith, list_eq,
}
use singularis.Protocol.Ttl.{ServerTtl, ttl_eq, ttl_beq_iff}
use singularis.Protocol.Message.{OpaqueMlsMessage, message_eq, message_beq_iff}

abbrev pub Uuid : Type 0
Uuid = ℕ

-- `EventId(Uuid)`, with `as_uuid` its field.
abbrev pub EventId : Type 0
EventId = Uuid

abbrev pub OffsetDateTime : Type 0
OffsetDateTime = ℕ

pub record SubmitEvent : Type 0 where
  pub event_id : EventId
  pub community_id : Uuid
  pub channel_id : Uuid
  pub sender_device_id : Uuid
  pub sender_counter : ℕ
  pub mls_message : OpaqueMlsMessage
  pub ttl_seconds : ServerTtl

pub record AcceptedEvent : Type 0 where
  pub event_id : EventId
  pub channel_id : Uuid
  pub sequence : ℕ
  pub accepted_at : OffsetDateTime
  pub expires_at : OffsetDateTime

pub record DeliveredEvent : Type 0 where
  pub receipt : AcceptedEvent
  pub community_id : Uuid
  pub sender_device_id : Uuid
  pub sender_counter : ℕ
  pub mls_message : OpaqueMlsMessage

pub record HealthResponse : Type 0 where
  pub status : Text
  pub service : Text
  pub storage_mode : Text
  pub max_server_ttl_seconds : ℕ

-- The derived `PartialEq` of `SubmitEvent`.
abbrev pub submit_beq : SubmitEvent → SubmitEvent → Bool
submit_beq a b =
    a.event_id == b.event_id
    && a.community_id == b.community_id
    && a.channel_id == b.channel_id
    && a.sender_device_id == b.sender_device_id
    && a.sender_counter == b.sender_counter
    && a.mls_message == b.mls_message
    && a.ttl_seconds == b.ttl_seconds

pub submit_beq_iff : (a b : SubmitEvent) → (submit_beq a b ≡ true) ↔ (a ≡ b)
submit_beq_iff a b =
    ground
      (arith, message_beq_iff a.mls_message b.mls_message, ttl_beq_iff a.ttl_seconds b.ttl_seconds)

instance abbrev pub submit_eq : Eq SubmitEvent
submit_eq = record { beq = submit_beq; beq_iff = submit_beq_iff }

-- `serde_json` on submissions.
pub record SubmitJson : Type 0 where
  pub from_slice : Bytes → Option SubmitEvent
  pub to_vec : SubmitEvent → Option Bytes
