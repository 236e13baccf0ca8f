-- ===== src/Desktop/Outbox/Outcome.antt =====
-- What one round does to the outbox: the item stays and blocks its device, or it leaves confirmed.
use Prim.Native.String.{String}
use singularis.Prelude.{
  ◌<◌, ◌≡◌, ◌≢◌, ◌⊎◌, inl, inr, refl, sym, ap, subst, ◌∙◌, Bool, true, false, not, some, List, [],
  ◌∷◌, Result, ok, err, ◌>>◌, eqb, length, retain, any, Text, Bytes, ◌==◌, nat_eq, list_eq, arith,
  Bool-cases, Option-cases, Result-cases, All, Pairwise-retain, All-mono,
}
use singularis.Protocol.Event.{SubmitJson, SubmitEvent, AcceptedEvent}
use singularis.Vault.Error.{VaultError, database}
use singularis.Vault.Input.{
  VaultOutboxItem, validate_identifier, max_id_bytes, device_id_message, event_id_message,
}
use singularis.Vault.Database.{Database, Faults, delete_outbox}
use singularis.Vault.Rows.{DistinctItems, text_iff}
use singularis.Vault.Methods.{UuidText}
use singularis.Vault.Methods.Outbox.{acknowledge_mls_outbox, delete_item, is_acknowledged}
use singularis.Desktop.Outbox.{
  ManagedVault, guarded, acknowledge, valid_receipt, Relayed, answered, interrupted, Round,
  Progress, Flow, continue, break, is_blocked, fail, on_acknowledged, validate_outbox_item,
  on_relayed, on_validated, flush_item, is_locked, relay_code, paused_at,
}

-- The rows of one device.
abbrev pub rows_of : Text → List VaultOutboxItem → List VaultOutboxItem
rows_of device_id = retain (λ item. item.device_id == device_id)

abbrev pub without : Text → Text → Database → Database
without device_id event_id db = record db {
  mls_outbox = retain (λ item. not (is_acknowledged device_id event_id item)) db.mls_outbox;
}

pub rows_of_others :
    (device_id event_id d : Text) (l : List VaultOutboxItem)
    → device_id ≢ d
    → rows_of d (retain (λ item. not (is_acknowledged device_id event_id item)) l) ≡ rows_of d l
unfolding retain
rows_of_others device_id event_id d [] h = refl
rows_of_others device_id event_id d (n ∷ l) h = ground (
  arith,
  rows_of_others device_id event_id d l h,
  text_iff n.device_id device_id,
  text_iff n.device_id d,
)

rows_of_device :
    (device_id event_id : Text) (l : List VaultOutboxItem)
    → rows_of device_id (retain (λ item. not (is_acknowledged device_id event_id item)) l)
      ≡ retain (λ item. not (item.event_id == event_id)) (rows_of device_id l)
unfolding retain
rows_of_device device_id event_id [] = refl
rows_of_device device_id event_id (n ∷ l) = ground (arith, rows_of_device device_id event_id l)

retain_distinct :
    (event_id : Text) (l : List VaultOutboxItem)
    → All (λ i. i.event_id ≢ event_id) l
    → retain (λ i. not (i.event_id == event_id)) l ≡ l
unfolding retain
retain_distinct event_id [] h = refl
retain_distinct event_id (n ∷ l) h =
    ground (arith, retain_distinct event_id l h.1, text_iff n.event_id event_id)

-- Taking the first row of a device away leaves the others of that device.
pub rows_of_first :
    (item : VaultOutboxItem) (rest l : List VaultOutboxItem)
    → DistinctItems l
    → rows_of item.device_id l ≡ item ∷ rest
    → rows_of item.device_id (retain (λ i. not (is_acknowledged item.device_id item.event_id i)) l)
      ≡ rest
unfolding retain
rows_of_first item rest l v e =
    rows_of_device item.device_id item.event_id l
    ∙ ap (retain (λ i. not (i.event_id == item.event_id))) e
    ∙ drop_first (subst DistinctItems e (Pairwise-retain _ _ l v))
  where
    drop_first :
        DistinctItems (item ∷ rest)
        → retain (λ i. not (i.event_id == item.event_id)) (item ∷ rest) ≡ rest
    drop_first w = ground (
      arith,
      text_iff item.event_id item.event_id,
      retain_distinct item.event_id rest
          (All-mono (λ i. item.event_id ≢ i.event_id) _ (λ i k q. k (sym q)) rest w.0),
    )

abbrev valid_ids : Text → Text → Result VaultError Unit
valid_ids device_id event_id = do
  validate_identifier device_id max_id_bytes device_id_message
  validate_identifier event_id max_id_bytes event_id_message

acknowledge-eq :
    (faults : Faults) (db : Database) (device_id event_id : Text)
    → ((b : Bool) × (acknowledge faults (guarded (some db)) device_id event_id
          ≡ (ok b, guarded (some (without device_id event_id db)))))
      ⊎ ((e : VaultError) × (acknowledge faults (guarded (some db)) device_id event_id
            ≡ (err e, guarded (some db))))
unfolding acknowledge acknowledge_mls_outbox delete_item
acknowledge-eq faults db device_id event_id = elim (Result-cases (valid_ids device_id event_id)) [
  | inl (u, e) ↦ elim (Bool-cases (faults delete_outbox)) [
    | inl k ↦ inr (database, ground arith)
    | inr k ↦
        inl
          (eqb (length (retain (is_acknowledged device_id event_id) db.mls_outbox)) 1, ground arith)
  ]
  | inr (f, e) ↦ inr (f, ground arith)
]

module _ (uuid : UuidText) (json : SubmitJson) where
  validate_outbox_item-ok :
      (item : VaultOutboxItem) (submission : SubmitEvent) (payload : Bytes)
      → validate_outbox_item uuid json item ≡ ok (submission, payload)
      → (json.from_slice item.payload ≡ some submission)
        × (payload ≡ item.payload)
        × (uuid.to_string submission.event_id ≡ item.event_id)
        × (uuid.to_string submission.sender_device_id ≡ item.device_id)
  unfolding validate_outbox_item
  validate_outbox_item-ok item submission payload h =
      elim (Option-cases (json.from_slice item.payload)) [
        | inl e ↦ absurd (ground arith)
        | inr (s, e) ↦ elim (Option-cases (json.to_vec s)) [
          | inl k ↦ absurd (ground arith)
          | inr (c, k) ↦ ground (
            arith,
            text_iff c item.payload,
            text_iff (uuid.to_string s.event_id) item.event_id,
            text_iff (uuid.to_string s.sender_device_id) item.device_id,
          )
        ]
      ]

  validate_outbox_item-err :
      (item : VaultOutboxItem) (error : String × Text)
      → validate_outbox_item uuid json item ≡ err error
      → error.1 ≡ item.device_id
  unfolding validate_outbox_item
  validate_outbox_item-err item error h = elim (Option-cases (json.from_slice item.payload)) [
    | inl e ↦ ground arith
    | inr (s, e) ↦ elim (Option-cases (json.to_vec s)) [
      | inl k ↦ ground arith
      | inr (c, k) ↦ ground arith
    ]
  ]

  -- The receipt is for the submission: it names the event and its channel, a counted place there, and a
  -- time to live that is not over when it begins.
  abbrev pub IsReceiptFor : SubmitEvent → AcceptedEvent → Type 0
  IsReceiptFor submission receipt =
      (receipt.event_id ≡ submission.event_id)
      × (receipt.channel_id ≡ submission.channel_id)
      × (0 < receipt.sequence)
      × (receipt.accepted_at < receipt.expires_at)

  valid_receipt-IsReceiptFor :
      (submission : SubmitEvent) (receipt : AcceptedEvent)
      → valid_receipt submission receipt ≡ true
      → IsReceiptFor submission receipt
  valid_receipt-IsReceiptFor submission receipt h =
      (ground arith, ground arith, ground arith, ground arith)

  -- The relay answered the item's payload with a receipt for its submission.
  abbrev pub Confirmed : Round → VaultOutboxItem → Type 0
  Confirmed round item =
      (submission : SubmitEvent) × (receipt : AcceptedEvent) × (json.from_slice item.payload
        ≡ some submission)
      × (round.relay item.payload ≡ answered (ok receipt))
      × IsReceiptFor submission receipt

  -- The item stays, and its device has to wait.
  abbrev pub Waits : VaultOutboxItem → Database → Progress → Progress → Type 0
  Waits item db p q =
      (q.vault ≡ guarded (some db))
      × (is_blocked item.device_id q.blocked_devices ≡ true)
      × ((d : Text)
          → is_blocked d q.blocked_devices ≡ false
          → is_blocked d p.blocked_devices ≡ false)

  abbrev pub Leaves : Round → VaultOutboxItem → Database → Progress → Progress → Type 0
  Leaves round item db p q =
      (q.vault ≡ guarded (some (without item.device_id item.event_id db)))
      × (q.blocked_devices ≡ p.blocked_devices)
      × Confirmed round item

  abbrev pub Outcome : Round → VaultOutboxItem → Database → Progress → Flow → Type 0
  Outcome round item db p (break q) = q.vault ≡ guarded (some db)
  Outcome round item db p (continue q) = Waits item db p q ⊎ Leaves round item db p q

  module _ (round : Round) (item : VaultOutboxItem) (db : Database) where
    fail-Outcome :
        (p q : Progress) (error : String) (device_id : Text)
        → q.vault ≡ guarded (some db)
        → q.blocked_devices ≡ p.blocked_devices
        → device_id ≡ item.device_id
        → Outcome round item db p (continue (fail error device_id q))
    unfolding any
    fail-Outcome p q error device_id v b e =
        inl (v, ground (arith, text_iff device_id item.device_id), λ d k. ground arith)

    on_acknowledged-Outcome :
        (p q : Progress) (device_id event_id : Text)
        → q.vault ≡ guarded (some db)
        → q.blocked_devices ≡ p.blocked_devices
        → device_id ≡ item.device_id
        → event_id ≡ item.event_id
        → Confirmed round item
        → Outcome round item db p
            (on_acknowledged device_id (acknowledge round.faults q.vault device_id event_id) q)
    on_acknowledged-Outcome p q device_id event_id v b e k confirmed =
        rw (v, e, k)
          (on_answer (acknowledge round.faults (guarded (some db)) item.device_id item.event_id)
            (acknowledge-eq round.faults db item.device_id item.event_id))
      where
        on_answer :
            (r : Result VaultError Bool × ManagedVault)
            → ((b : Bool) × (r ≡ (ok b, guarded (some (without item.device_id item.event_id db)))))
              ⊎ ((e : VaultError) × (r ≡ (err e, guarded (some db))))
            → Outcome round item db p
                (on_acknowledged item.device_id r (record q { vault = guarded (some db) }))
        on_answer r (inl (true, a)) = rw a (inr (refl, b, confirmed))
        on_answer r (inl (false, a)) = rw a (inr (refl, b, confirmed))
        on_answer r (inr (f, a)) = rw a (elim (Bool-cases (is_locked f)) [
          | inl l ↦ rw l refl
          | inr l ↦ rw l (
              fail-Outcome p (record q { vault = guarded (some db) }) "vault_acknowledgement_failed"
                item.device_id refl b refl)
        ])

    on_relayed-Outcome :
        (p q : Progress) (submission : SubmitEvent) (answer : Relayed)
        → q.vault ≡ guarded (some db)
        → q.blocked_devices ≡ p.blocked_devices
        → ((v : ManagedVault) → round.others v ≡ v)
        → validate_outbox_item uuid json item ≡ ok (submission, item.payload)
        → round.relay item.payload ≡ answer
        → Outcome round item db p (on_relayed uuid json round submission answer q)
    on_relayed-Outcome p q submission interrupted v b quiet h r = v
    on_relayed-Outcome p q submission (answered (err error)) v b quiet h r =
        fail-Outcome p q (relay_code error) (uuid.to_string submission.sender_device_id) v b
          (validate_outbox_item-ok item submission item.payload h).3
    on_relayed-Outcome p q submission (answered (ok receipt)) v b quiet h r =
        let (parsed, _, event_id, device_id) =
          validate_outbox_item-ok item submission item.payload h in
        elim (Bool-cases (valid_receipt submission receipt)) [
          | inl k ↦
              rw (k, quiet q.vault)
                (on_acknowledged-Outcome p q (uuid.to_string submission.sender_device_id)
                  (uuid.to_string receipt.event_id) v b device_id (ground (arith, event_id))
                  (submission, receipt, parsed, r, valid_receipt-IsReceiptFor submission receipt k))
          | inr k ↦ rw k (
              fail-Outcome p q "invalid_relay_receipt" (uuid.to_string submission.sender_device_id)
                v b device_id)
        ]

    on_validated-Outcome :
        (p : Progress) (r : Result (String × Text) (SubmitEvent × Bytes))
        → p.vault ≡ guarded (some db)
        → ((v : ManagedVault) → round.others v ≡ v)
        → validate_outbox_item uuid json item ≡ r
        → Outcome round item db p (on_validated uuid json round r p)
    on_validated-Outcome p (err (error, device_id)) v quiet h =
        fail-Outcome p p error device_id v refl (validate_outbox_item-err item (error, device_id) h)
    on_validated-Outcome p (ok (submission, payload)) v quiet h =
        let same = (validate_outbox_item-ok item submission payload h).1 in
        on_relayed-Outcome p _ submission (round.relay payload) v refl quiet (ground arith)
          (ap round.relay (sym same))

    pub flush_item-Outcome :
        (p : Progress)
        → p.vault ≡ guarded (some db)
        → ((v : ManagedVault) → round.others v ≡ v)
        → Outcome round item db p (flush_item uuid json round item p)
    unfolding flush_item
    flush_item-Outcome p v quiet = elim (Bool-cases (is_blocked item.device_id p.blocked_devices)) [
      | inl k ↦ subst (Outcome round item db p) {x = continue p} (ground arith) (waits k)
      | inr k ↦ elim (Bool-cases round.is_enabled) [
        | inr l ↦ subst (Outcome round item db p) {x = break (paused_at p)} (ground arith) stops
        | inl l ↦
            subst (Outcome round item db p)
              {x = on_validated uuid json round (validate_outbox_item uuid json item) p}
              (ground arith)
              (on_validated-Outcome p (validate_outbox_item uuid json item) v quiet refl)
      ]
    ]
      where
        waits :
            is_blocked item.device_id p.blocked_devices ≡ true
            → Outcome round item db p (continue p)
        waits k = inl (v, k, λ d h. h)

        stops : Outcome round item db p (break (paused_at p))
        stops = v
