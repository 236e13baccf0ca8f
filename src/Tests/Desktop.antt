-- ===== src/Tests/Desktop.antt =====
-- The desktop's state at concrete inputs.
use singularis.Prelude.{
  ℕ, ◌≡◌, ◌≤◌, ◌+◌, ◌≢◌, refl, [], ◌∷◌, List, true, false, text, Bytes, arith, ok, err, Option,
  none, some, inl, any, all, len, length, retain, eqb, if◌then◌else◌,
}
use singularis.Protocol.Ttl.{min_ttl}
use singularis.Protocol.Event.{SubmitJson, SubmitEvent}
use singularis.Vault.Input.{
  VaultOutboxItem, validate_identifier, validate_mls_outbox_items, validate_mls_outbox_payload,
}
use singularis.Vault.Database.{Database, no_faults}
use singularis.Vault.Methods.Outbox.{
  item_of, list_all_mls_outbox, acknowledge_mls_outbox, delete_item,
}
use singularis.Desktop.Outbox.{
  Surroundings, guarded, flush_now, Relayed, answered, rejected, new, resume, list_pending, idle,
  deferred, pass, flush_items, flush_item, validate_outbox_item, acknowledge,
}
use singularis.Desktop.Outbox.InOrder.{Advanced, flush_now-in_order}
use singularis.Desktop.Outbox.Counts.{flush_now-counts}
use singularis.Tests.Vault.{unary, strokes}
use singularis.Desktop.Audio as Audio

abbrev submission : ℕ → SubmitEvent
submission id = record {
  event_id = id;
  community_id = 1;
  channel_id = 7;
  sender_device_id = 3;
  sender_counter = 1;
  mls_message = record { encoded = text "SGk" };
  ttl_seconds = min_ttl;
}

-- A wire form for the tests: the event id alone.
abbrev read_id : Bytes → Option SubmitEvent
read_id (id ∷ []) = some (submission id)
read_id _ = none

abbrev ids : SubmitJson
ids = record { from_slice = read_id; to_vec = λ event. some (event.event_id ∷ []) }

abbrev row : ℕ → VaultOutboxItem
row id = item_of (strokes 3) (strokes id) (id ∷ [])

abbrev two_rows : Database
two_rows = record {
  local_messages = [];
  mls_client_snapshots = (strokes 3, 1 ∷ []) ∷ [];
  mls_outbox = row 1 ∷ row 2 ∷ [];
  local_device = none;
  user_version = 4;
}

-- The relay takes the first event and refuses any other.
abbrev answer : Bytes → Relayed
answer (id ∷ []) =
    if eqb id 1
    then answered (
        ok (record { event_id = 1; channel_id = 7; sequence = 1; accepted_at = 5; expires_at = 9 }))
    else answered (err rejected)
answer _ = answered (err rejected)

abbrev quiet_pass : Surroundings
quiet_pass = record {
  first_faults = no_faults;
  rounds = λ n. record { is_enabled = true; relay = answer; others = λ v. v; faults = no_faults };
  last_others = λ v. v;
  last_faults = no_faults;
  enabled_at_end = true;
}

distinct_rows : (row 1).event_id ≢ (row 2).event_id
unfolding strokes
distinct_rows e = absurd (ground arith)

flush_now-in_order_example :
    (after : Database) × ((flush_now unary ids quiet_pass (resume new) (guarded (some two_rows))).2
      ≡ guarded (some after))
    × Advanced unary ids quiet_pass.rounds two_rows.mls_outbox after
flush_now-in_order_example =
    flush_now-in_order unary ids quiet_pass two_rows (resume new) (λ n v. refl) (λ v. refl)
      ((distinct_rows, tt), (tt, tt))

lists_rows : list_pending no_faults (guarded (some two_rows)) ≡ ok (row 1 ∷ row 2 ∷ [])
unfolding list_pending list_all_mls_outbox validate_mls_outbox_items strokes any validate_identifier
    len all validate_mls_outbox_payload
lists_rows = refl

first_report : (flush_now unary ids quiet_pass (resume new) (guarded (some two_rows))).0 ≡ record {
  state = deferred;
  pending = 1;
  attempted = 2;
  acknowledged = 1;
  failed = 1;
  last_error = some "relay_rejected";
}
unfolding flush_now resume pass list_pending list_all_mls_outbox validate_mls_outbox_items any
    validate_identifier strokes len all validate_mls_outbox_payload flush_items flush_item
    validate_outbox_item acknowledge acknowledge_mls_outbox delete_item retain
first_report = refl

flush_now-counts_example :
    (2 ≡ length (flush_now unary ids quiet_pass (resume new) (guarded (some two_rows))).3)
    × (1 ≤ 2)
    × (1 + 1 ≤ 2)
    × (deferred ≡ idle → (true ≡ true) × ◌≡◌ {A = ℕ} 1 0 × ◌≡◌ {A = ℕ} 1 0)
unfolding resume
flush_now-counts_example =
    flush_now-counts unary ids quiet_pass (resume new) (guarded (some two_rows))
      (row 1 ∷ row 2 ∷ []) _ refl lists_rows first_report

abbrev talk : List Audio.Call
talk =
    Audio.sets_push_to_talk true
    ∷ Audio.joins (text "voice-room_1")
    ∷ Audio.sets_ptt_pressed true
    ∷ []

run-new-IsConsistent_example : Audio.IsConsistent (Audio.run talk Audio.new)
run-new-IsConsistent_example = Audio.run-new-IsConsistent talk

leaves_listening :
    (Audio.status (
      Audio.run
        (Audio.sets_muted false ∷ [])
        (Audio.step Audio.leaves (Audio.run talk Audio.new)))).push_to_talk
    ≡ true
unfolding Audio.run Audio.set_muted Audio.leave_room Audio.set_ptt_pressed Audio.join_room
    Audio.validate_room_id len all Audio.set_push_to_talk
leaves_listening = refl

muted_until_pressed_example :
    (Audio.status (
      Audio.run
        (Audio.sets_muted false ∷ [])
        (Audio.step Audio.leaves (Audio.run talk Audio.new)))).muted
    ≡ true
muted_until_pressed_example =
    Audio.muted_until_pressed Audio.leaves (Audio.sets_muted false ∷ []) (Audio.run talk Audio.new)
      (inl refl) (refl, tt) leaves_listening
