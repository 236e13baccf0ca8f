-- ===== src/Tests/Vault.antt =====
-- The vault's tables at concrete inputs.
use singularis.Prelude.{
  Bool, ◌++◌, retain, leb, ℕ, zero, suc, ◌≡◌, ◌≢◌, refl, [], ◌∷◌, List, true, false, text, Text,
  arith, ok, err, none, some, if◌then◌else◌, ◌&&◌, ◌==◌, length, pos, inr, list_eq, nat_eq, len,
  all,
}
use singularis.Vault.Error.{outbox_conflict, database}
use singularis.Vault.Input.{
  VaultMessage, validate_channel_id, NewVaultMessage, VaultOutboxItem, validate_identifier,
  max_id_bytes, device_id_message, event_id_message, validate_mls_snapshot,
  validate_mls_outbox_payload,
}
use singularis.Vault.Database.{
  Database, Faults, no_faults, empty_database, find_item, begin, select_device, insert_message,
  upsert, insert_item, put_snapshot, find_snapshot, sql_length, find_message,
}
use singularis.Vault.Schema.{IsSound, IsSoundConnection, empty_database-IsSound}
use singularis.Vault.Methods.Listing.{InOrder, channel_rows, list_messages-InOrder}
use singularis.Vault.Methods.{
  list_messages, list_limit, UuidText, local_device_id, store_mls_client_snapshot, write_snapshot,
}
use singularis.Vault.Methods.Outbox.{
  store_mls_transaction, acknowledge_mls_outbox, item_of, validate_transaction, insert_all,
}
use singularis.Vault.Methods.Soundness.{
  Call, stores_snapshot, queues, acknowledges, run, run-IsSound,
}
use singularis.Vault.Methods.Repetition.{
  Recorded, store_mls_transaction-Recorded, store_mls_transaction_repeated,
}
use singularis.Vault.Methods.Conflict.{snapshot_of, store_mls_transaction_conflict}
use singularis.Vault.Methods.Identity.{local_device_id_stable}
use singularis.Vault.Methods.Delivery.{acknowledge_mls_outbox-eq, is_queued}

abbrev greeting : NewVaultMessage
greeting = record {
  id = text "m1";
  channel_id = text "general";
  body = text "Hallo";
  created_at_ms = pos 5;
}

abbrev phone : Text
phone = text "phone-1"

abbrev queued : Database
queued = record {
  local_messages =
      record {
        id = text "m1";
        channel_id = text "general";
        body = text "Hallo";
        created_at_ms = pos 5;
      }
      ∷ [];
  mls_client_snapshots = (phone, 1 ∷ 2 ∷ []) ∷ [];
  mls_outbox = item_of phone (text "e1") (7 ∷ []) ∷ [];
  local_device = none;
  user_version = 4;
}

queues_greeting :
    store_mls_transaction no_faults phone
      (1 ∷ 2 ∷ [])
      (text "e1")
      (7 ∷ [])
      (some greeting)
      (some empty_database)
    ≡ (
      ok (
          some (record {
            id = text "m1";
            channel_id = text "general";
            body = text "Hallo";
            created_at_ms = pos 5;
          })),
      some queued,
    )
unfolding store_mls_transaction validate_transaction validate_identifier len all
    validate_mls_snapshot validate_mls_outbox_payload find_item insert_all insert_message sql_length
    find_message upsert insert_item find_snapshot put_snapshot
queues_greeting = refl

store_mls_transaction-Recorded_example :
    (validate_transaction phone (1 ∷ 2 ∷ []) (text "e1") (7 ∷ []) ≡ ok tt)
    × Recorded
        (item_of phone (text "e1") (7 ∷ []))
        (1 ∷ 2 ∷ [])
        (some greeting)
        (some (record {
          id = text "m1";
          channel_id = text "general";
          body = text "Hallo";
          created_at_ms = pos 5;
        }))
        queued
store_mls_transaction-Recorded_example =
    store_mls_transaction-Recorded no_faults phone (1 ∷ 2 ∷ []) (text "e1") (7 ∷ []) (some greeting)
      empty_database queued _ queues_greeting

store_mls_transaction_repeated_example :
    store_mls_transaction no_faults phone
      (1 ∷ 2 ∷ [])
      (text "e1")
      (7 ∷ [])
      (some greeting)
      (some queued)
    ≡ (
      ok (
          some (record {
            id = text "m1";
            channel_id = text "general";
            body = text "Hallo";
            created_at_ms = pos 5;
          })),
      some queued,
    )
store_mls_transaction_repeated_example =
    store_mls_transaction_repeated no_faults phone (1 ∷ 2 ∷ []) (text "e1") (7 ∷ []) (some greeting)
      empty_database queued _ queues_greeting

first_valid : validate_transaction phone (1 ∷ 2 ∷ []) (text "e1") (7 ∷ []) ≡ ok tt
unfolding validate_transaction validate_identifier len all validate_mls_snapshot
    validate_mls_outbox_payload
first_valid = refl

-- A later snapshot of the device, which the first transaction does not carry.
abbrev newer : List Call
newer = stores_snapshot no_faults phone (1 ∷ 3 ∷ []) ∷ []

stores_newer : snapshot_of phone (run newer (some queued)) ≡ some (1 ∷ 3 ∷ [])
unfolding run store_mls_client_snapshot validate_identifier len all validate_mls_snapshot
    write_snapshot upsert sql_length put_snapshot find_snapshot
stores_newer = refl

differs : snapshot_of phone (run newer (some queued)) ≢ some (1 ∷ 2 ∷ [])
differs e = absurd (ground (arith, stores_newer, e))

store_mls_transaction_conflict_example :
    store_mls_transaction no_faults phone
      (1 ∷ 2 ∷ [])
      (text "e1")
      (7 ∷ [])
      (some greeting)
      (run newer (some queued))
    ≡ (err outbox_conflict, run newer (some queued))
store_mls_transaction_conflict_example =
    store_mls_transaction_conflict no_faults phone (1 ∷ 2 ∷ []) (text "e1") (7 ∷ []) (some greeting)
      empty_database queued _ newer phone (1 ∷ 2 ∷ []) (7 ∷ []) (some greeting) queues_greeting
      (tt, tt) first_valid (inr (inr differs))

abbrev full_disk : Faults
full_disk begin = true
full_disk _ = false

abbrev vault_calls : List Call
vault_calls =
    queues no_faults phone (1 ∷ 2 ∷ []) (text "e1") (7 ∷ []) (some greeting)
    ∷ queues full_disk phone (1 ∷ 3 ∷ []) (text "e2") (8 ∷ []) none
    ∷ acknowledges no_faults phone (text "e1")
    ∷ []

run-IsSound_example : IsSoundConnection (run vault_calls (some empty_database))
run-IsSound_example = run-IsSound vault_calls (some empty_database) empty_database-IsSound

queued-IsSound : IsSound queued
unfolding sql_length find_snapshot validate_identifier len all
queued-IsSound = record {
  message_ids = (tt, tt);
  messages = (
    ((omega arith, omega arith), (omega arith, omega arith), (omega arith, omega arith), refl),
    tt,
  );
  device_ids = (tt, tt);
  snapshots = ((omega arith, omega arith), tt);
  event_ids = (tt, tt);
  items = ((refl, refl, (omega arith, omega arith)), tt);
  owned = ((λ e. absurd (ground arith)), tt);
}

valid_phone : validate_identifier phone max_id_bytes device_id_message ≡ ok tt
unfolding validate_identifier len all
valid_phone = refl

valid_event : validate_identifier (text "e1") max_id_bytes event_id_message ≡ ok tt
unfolding validate_identifier len all
valid_event = refl

acknowledge_mls_outbox-eq_example :
    (after : List VaultOutboxItem) × (acknowledge_mls_outbox no_faults phone
        (text "e1")
        (some queued)
      ≡ (
        ok (is_queued phone (find_item (text "e1") queued.mls_outbox)),
        some (record queued { mls_outbox = after }),
      ))
    × ((id : Text)
        → find_item id after ≡ (
            if id == text "e1" && is_queued phone (find_item (text "e1") queued.mls_outbox)
            then none
            else find_item id queued.mls_outbox))
acknowledge_mls_outbox-eq_example =
    acknowledge_mls_outbox-eq phone (text "e1") queued queued-IsSound valid_phone valid_event

-- A text form for the tests: as many characters as the number says.
unfoldable pub strokes : ℕ → Text
strokes zero = []
strokes (suc n) = b'1' ∷ strokes n

pub count_strokes : (n : ℕ) → length (strokes n) ≡ n
unfolding strokes
count_strokes zero = refl
count_strokes (suc n) = ground (arith, count_strokes n)

abbrev pub unary : UuidText
unary = record {
  to_string = strokes;
  parse_str = λ s. some (length s);
  parse_str-to_string = λ n small. ground (arith, count_strokes n);
}

draws : (local_device_id unary no_faults 36 (some empty_database)).0 ≡ ok 36
unfolding local_device_id sql_length strokes
draws = refl

local_device_id_stable_example :
    local_device_id unary no_faults 40
      (run newer (local_device_id unary no_faults 36 (some empty_database)).1)
    ≡ (
      if no_faults select_device then err database else ok 36,
      run newer (local_device_id unary no_faults 36 (some empty_database)).1,
    )
local_device_id_stable_example =
    local_device_id_stable unary no_faults no_faults 36 40 (some empty_database) 36 newer
      (omega arith) draws

valid_channel : validate_channel_id (text "general") ≡ ok tt
unfolding validate_channel_id validate_identifier len all
valid_channel = refl

list_messages-InOrder_example :
    (rows : List VaultMessage) × (later : List VaultMessage) × (list_messages no_faults
        (text "general")
        (some queued)
      ≡ ok rows)
    × InOrder (rows ++ later)
    × ((p : VaultMessage → Bool)
        → length (retain p (rows ++ later))
          ≡ length (retain p (channel_rows (text "general") queued)))
    × (length rows ≡ (
        if leb list_limit (length (channel_rows (text "general") queued))
        then list_limit
        else length (channel_rows (text "general") queued)))
list_messages-InOrder_example = list_messages-InOrder (text "general") queued valid_channel
