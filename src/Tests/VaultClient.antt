-- ===== src/Tests/VaultClient.antt =====
-- The vault's client at concrete inputs: an event is queued, and refused when it comes again.
use singularis.Prelude.{
  ◌≡◌, refl, true, none, some, [], ◌∷◌, Result, ok, err, Bytes, arith, get, put, Distinct, retain,
  sort_by, place, le_bytes, list_eq, nat_eq, any, is_blank, len, all, is_whitespace, text,
}
use singularis.Protocol.Event.{SubmitEvent, SubmitJson, DeliveredEvent}
use singularis.Protocol.Message.{from_bytes}
use singularis.Vault.Database.{
  empty_database, no_faults, upsert, insert_item, find_item, find_snapshot, put_snapshot,
  sql_length,
}
use singularis.Vault.Methods.Outbox.{
  store_mls_snapshot_and_outbox, store_mls_transaction, validate_transaction, insert_all,
}
use singularis.Vault.Input.{validate_identifier, validate_mls_snapshot, validate_mls_outbox_payload}
use singularis.Mls.Error.{MlsError, message_rejected}
use singularis.Mls.Event.{encode_provisional_json, validate}
use singularis.Mls.Chain.{
  MlsClient, ChannelState, OpenMls, encrypt_event, check_outgoing, to_submit_event, from_event,
}
use singularis.Mls.Snapshot.{Provider, encode_snapshot}
use singularis.Mls.Snapshot.RoundTrip.{Restorable, RestorableChannel}
use singularis.Mls.VaultClient.{VaultMlsClient}
use singularis.Mls.VaultClient.Rollback.{OnFailure}
use singularis.Mls.Receive.{Receiver}
use singularis.Mls.Receive.EndToEnd.{relayed}
use singularis.Mls.VaultClient.Operations.{decrypt_delivered_event}
use singularis.Mls.VaultClient.ReceiveRollback.{decrypt_delivered_event-OnFailure}
use singularis.Mls.VaultClient.QueueRollback.{queue_event-OnFailure}
use singularis.Mls.VaultClient.Queue.{queue_event, queue_outgoing, prepare}
use singularis.Mls.VaultClient.Persistence.{Stored, queue_event-Stored}
use singularis.Tests.Codec.{url_safe}
use singularis.Tests.Vault.{unary, strokes}
use singularis.Tests.Mls.{hello, greeting_json, digest}
use singularis.Tests.Snapshot.{
  snapshots, plain_storage, kept_channel, kept_client, kept_client-Restorable, one_channel,
}

abbrev pub keyed : OpenMls Unit (Provider Bytes)
keyed = record {
  set_aad = λ aad group. group;
  create_message = λ b group provider. (some b, group, provider);
  to_bytes = λ b. some b;
}

-- A wire form for the tests: the event id alone.
abbrev pub numbers : SubmitJson
numbers = record { from_slice = λ b. none; to_vec = λ event. some (event.event_id ∷ []) }

abbrev vaulted : VaultMlsClient Unit Bytes
vaulted = record { vault = some empty_database; client = kept_client }

abbrev queueing : Result MlsError SubmitEvent × VaultMlsClient Unit Bytes
queueing =
    queue_event plain_storage snapshots unary no_faults url_safe numbers greeting_json
      (λ m. some []) digest keyed hello record { seconds = 300 } vaulted

abbrev queued : SubmitEvent → Result MlsError SubmitEvent → SubmitEvent
queued d (ok s) = s
queued d (err e) = d

abbrev submission : SubmitEvent
submission = record {
  event_id = 20;
  community_id = 1;
  channel_id = 7;
  sender_device_id = 9;
  sender_counter = 1;
  mls_message = record { encoded = text "aA" };
  ttl_seconds = record { seconds = 300 };
}

abbrev queued_channel : ChannelState Unit
queued_channel = record kept_channel {
  outgoing_chain = some (record { counter = 1; event_hash = 1 });
  seen_event_ids = (20, tt) ∷ (31, tt) ∷ (30, tt) ∷ [];
}

abbrev after_queueing : VaultMlsClient Unit Bytes
after_queueing = record {
  vault = queueing.1.vault;
  client = record kept_client { channels = (7, queued_channel) ∷ [] };
}

queues : queueing ≡ (ok submission, after_queueing)
unfolding queue_event queue_outgoing prepare encrypt_event check_outgoing encode_provisional_json
    validate any is_blank all is_whitespace len get put retain encode_snapshot sort_by place
    le_bytes to_submit_event from_bytes store_mls_snapshot_and_outbox store_mls_transaction
    validate_transaction insert_all upsert insert_item find_item find_snapshot put_snapshot
    sql_length validate_identifier validate_mls_snapshot validate_mls_outbox_payload url_safe
    strokes
queues = refl

queued_channel-RestorableChannel :
    RestorableChannel plain_storage kept_client.provider.values 7 queued_channel
unfolding get Distinct
queued_channel-RestorableChannel = record {
  tidy = record {
    sent = λ c h. ground arith;
    incoming_distinct = (refl, (refl, tt));
    received = λ device c h. ground arith;
    seen_distinct = (refl, (refl, (refl, tt)));
  };
  stored = refl;
  names_group = refl;
  suits = refl;
}

after_queueing-Restorable : Restorable plain_storage after_queueing.client
unfolding get Distinct
after_queueing-Restorable = record {
  values_distinct = kept_client-Restorable.values_distinct;
  values_nonempty = kept_client-Restorable.values_nonempty;
  key_nonempty = kept_client-Restorable.key_nonempty;
  key_stored = kept_client-Restorable.key_stored;
  channels_distinct = (refl, tt);
  channels_restorable =
      one_channel (RestorableChannel plain_storage kept_client.provider.values) queued_channel
        queued_channel-RestorableChannel;
}

queue_event-Stored_example :
    Stored plain_storage snapshots unary no_faults url_safe numbers submission after_queueing
queue_event-Stored_example =
    queue_event-Stored plain_storage snapshots unary no_faults url_safe numbers greeting_json
      (λ m. some []) digest keyed hello (record { seconds = 300 }) vaulted after_queueing submission
      after_queueing-Restorable queues

-- The event again: its counter is used.
queue_event-OnFailure_example : OnFailure plain_storage after_queueing (
    queue_event plain_storage snapshots unary no_faults url_safe numbers greeting_json
      (λ m. some [])
      digest
      keyed
      hello
      (record { seconds = 300 })
      after_queueing)
queue_event-OnFailure_example =
    queue_event-OnFailure plain_storage snapshots unary no_faults url_safe numbers greeting_json
      (λ m. some []) digest keyed hello (record { seconds = 300 }) after_queueing
      after_queueing-Restorable

-- An operation that loses the channels before it fails.
abbrev losing :
    MlsClient Unit (Provider Bytes) → Result MlsError Bytes × MlsClient Unit (Provider Bytes)
losing client = (err message_rejected, record client { channels = [] })

-- A receiver that ruins the provider and cannot load the group again.
abbrev ruining : Receiver Unit (Provider Bytes)
ruining = record {
  MlsMessage = Bytes;
  ProtocolMessage = Bytes;
  tls_deserialize_exact = λ b. some b;
  try_into_protocol_message = λ b. some b;
  private_aad = λ b. some b;
  has_group_id = λ b channel_id. true;
  process_message = λ b group provider. (none, group, record provider { values = [] });
  load = λ provider group. none;
  uuid_from_slice = λ b. none;
  metadata_from_slice = λ b. some (from_event hello);
}

abbrev delivery : DeliveredEvent
delivery = relayed submission (record { seconds = 600 }) 1000 1

decrypt_delivered_event-OnFailure_example : OnFailure plain_storage vaulted (
    decrypt_delivered_event plain_storage snapshots unary no_faults greeting_json digest ruining
      url_safe delivery vaulted)
decrypt_delivered_event-OnFailure_example =
    decrypt_delivered_event-OnFailure plain_storage snapshots unary no_faults greeting_json digest
      ruining url_safe delivery vaulted kept_client-Restorable
