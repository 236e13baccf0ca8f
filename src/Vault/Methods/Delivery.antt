-- ===== src/Vault/Methods/Delivery.antt =====
-- The outbox as a queue: rows leave it one by one, by their event id, and keep their order.
use singularis.Prelude.{
  ◌≡◌, ◌≢◌, refl, sym, Bool, false, not, ◌&&◌, Option, none, some, List, [], ◌∷◌, ok, if◌then◌else◌,
  eqb, length, retain, Text, ◌==◌, nat_eq, list_eq, arith, Bool-cases, inl, inr, All, All-mono,
  Option-cases, ◌∙◌,
}
use singularis.Vault.Input.{
  VaultOutboxItem, validate_identifier, max_id_bytes, device_id_message, event_id_message,
}
use singularis.Vault.Database.{Database, no_faults, find_item}
use singularis.Vault.Rows.{DistinctItems, find_item-retain, keep_item, text_iff, find_item-id}
use singularis.Vault.Schema.{IsSound}
use singularis.Vault.Methods.Outbox.{acknowledge_mls_outbox, delete_item, is_acknowledged}

-- Whether the event is queued for the device.
abbrev pub is_queued : Text → Option VaultOutboxItem → Bool
is_queued device_id none = false
is_queued device_id (some item) = item.device_id == device_id

none_acknowledged :
    (device_id event_id : Text) (l : List VaultOutboxItem)
    → All (λ b. b.event_id ≢ event_id) l
    → length (retain (is_acknowledged device_id event_id) l) ≡ 0
unfolding retain
none_acknowledged device_id event_id [] h = refl
none_acknowledged device_id event_id (n ∷ l) h =
    ground (arith, none_acknowledged device_id event_id l h.1, text_iff n.event_id event_id)

count_acknowledged :
    (device_id event_id : Text) (l : List VaultOutboxItem)
    → DistinctItems l
    → eqb (length (retain (is_acknowledged device_id event_id) l)) 1
      ≡ is_queued device_id (find_item event_id l)
unfolding retain find_item
count_acknowledged device_id event_id [] h = refl
count_acknowledged device_id event_id (n ∷ l) h = elim (Bool-cases (n.event_id == event_id)) [
  | inl e ↦ ground (
    arith,
    none_acknowledged device_id event_id l (
        All-mono (λ b. n.event_id ≢ b.event_id) _
          (λ b k q. k ((text_iff n.event_id event_id).0 e ∙ sym q)) l h.0),
  )
  | inr e ↦ ground (arith, count_acknowledged device_id event_id l h.1)
]

-- On sound tables, for valid ids and if no statement fails, an acknowledgement answers whether the
-- event was queued for the device; afterwards that event is no longer queued for it, every other
-- event is found as before, and the tables differ in nothing else.
pub acknowledge_mls_outbox-eq :
    (device_id event_id : Text) (db : Database)
    → IsSound db
    → validate_identifier device_id max_id_bytes device_id_message ≡ ok tt
    → validate_identifier event_id max_id_bytes event_id_message ≡ ok tt
    → (after : List VaultOutboxItem) × (acknowledge_mls_outbox no_faults device_id event_id
          (some db)
        ≡ (
          ok (is_queued device_id (find_item event_id db.mls_outbox)),
          some (record db { mls_outbox = after }),
        ))
      × ((id : Text)
          → find_item id after ≡ (
              if id == event_id && is_queued device_id (find_item event_id db.mls_outbox)
              then none
              else find_item id db.mls_outbox))
unfolding acknowledge_mls_outbox delete_item
acknowledge_mls_outbox-eq device_id event_id db v valid_device valid_event = (
  after,
  rw (valid_device, valid_event)
      (ground (arith, count_acknowledged device_id event_id db.mls_outbox v.event_ids)),
  λ id.
      find_item-retain (λ item. not (is_acknowledged device_id event_id item)) id db.mls_outbox
        v.event_ids
      ∙ kept id,
)
  where
    after : List VaultOutboxItem
    after = retain (λ item. not (is_acknowledged device_id event_id item)) db.mls_outbox

    kept :
        (id : Text)
        → keep_item
            (λ item. not (is_acknowledged device_id event_id item))
            (find_item id db.mls_outbox)
          ≡ (if id == event_id && is_queued device_id (find_item event_id db.mls_outbox)
              then none
              else find_item id db.mls_outbox)
    kept id = elim (Option-cases (find_item id db.mls_outbox)) [
      | inl e ↦ elim (Bool-cases (id == event_id)) [
        | inl k ↦ ground (arith, (text_iff id event_id).0 k)
        | inr k ↦ ground arith
      ]
      | inr (found, e) ↦ elim (Bool-cases (id == event_id)) [
        | inl k ↦ ground (
          arith,
          (text_iff id event_id).0 k,
          find_item-id id db.mls_outbox found e,
          text_iff found.event_id event_id,
        )
        | inr k ↦ ground (
          arith,
          find_item-id id db.mls_outbox found e,
          text_iff found.event_id event_id,
          text_iff id event_id,
        )
      ]
    ]
