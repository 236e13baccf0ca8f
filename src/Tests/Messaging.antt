-- ===== src/Tests/Messaging.antt =====
-- A message from the composer, on a new vault.
use singularis.Prelude.{
  ◌≡◌, refl, true, false, none, some, [], ◌∷◌, Result, ok, Bytes, text, get, put, retain, sort_by,
  place, le_bytes, list_eq, nat_eq, any, is_blank, len, all, is_whitespace, pos,
}
use singularis.Protocol.Message.{from_bytes}
use singularis.Vault.Input.{
  NewVaultMessage, VaultMessage, validate_message, validate_identifier, validate_mls_snapshot,
  validate_mls_outbox_payload,
}
use singularis.Vault.Database.{
  Connection, empty_database, no_faults, upsert, insert_item, insert_message, find_item,
  find_message, find_snapshot, put_snapshot, sql_length, stored_form,
}
use singularis.Vault.Methods.{
  local_device_id, store_mls_client_snapshot, load_mls_client_snapshot, write_snapshot,
}
use singularis.Vault.Methods.Outbox.{
  store_message_and_mls_snapshot_and_outbox, store_mls_transaction, validate_transaction,
  insert_all,
}
use singularis.Mls.Groups.{Groups, encrypt_text}
use singularis.Mls.Groups
use singularis.Mls.Event.{encode_provisional_json, validate}
use singularis.Mls.Chain.{encrypt_event, check_outgoing, to_submit_event}
use singularis.Mls.Snapshot.{Provider, encode_snapshot}
use singularis.Mls.VaultClient.{new, load, create, load_from_vault, save_to_vault, transact}
use singularis.Mls.VaultClient.Queue.{queue_outgoing, queue_text_and_store_message, prepare}
use singularis.Mls.VaultClient.Operations.{has_channel, create_channel}
use singularis.Desktop.Messaging.{
  MessagingError, protocol_channel_id, queue_message, nexus_lab_id, briefing_id,
}
use singularis.Desktop.Messaging.Mail.{Outcome, queue_message-Outcome}
use singularis.Tests.Codec.{url_safe}
use singularis.Tests.Vault.{unary, strokes}
use singularis.Tests.Mls.{json_of, digest}
use singularis.Tests.Snapshot.{snapshots, plain_storage}
use singularis.Tests.VaultClient.{keyed, numbers}

-- Groups that are created without fail.
abbrev vacant : Groups Unit (Provider Bytes)
vacant = record {
  MlsMessage = Bytes;
  KeyPackageIn = Bytes;
  KeyPackage = Bytes;
  Welcome = Bytes;
  StagedWelcome = Bytes;
  tls_deserialize_exact = λ b. none;
  extract_key_package = λ b. none;
  validate_key_package = λ b. none;
  leaf_credential = λ b. record { is_basic = true; serialized_content = b };
  build_key_package = λ provider. (none, provider);
  key_package_to_bytes = λ b. none;
  new_with_group_id = λ id provider. (some tt, provider);
  add_members = λ k group provider. (none, group, provider);
  merge_pending_commit = λ group provider. (false, group, provider);
  to_bytes = λ b. none;
  extract_welcome = λ b. none;
  new_from_welcome = λ b provider. (none, provider);
  into_group = λ b provider. (none, provider);
  has_group_id = λ group id. true;
  has_ciphersuite = λ group. true;
  uuid_from_slice = λ b. none;
}

abbrev composed : NewVaultMessage
composed = record {
  id = text "m1";
  channel_id = text "briefing";
  body = text "Hallo";
  created_at_ms = pos 5;
}

abbrev sending_it : Result MessagingError VaultMessage × Connection
sending_it =
    queue_message plain_storage snapshots unary (λ call. no_faults) url_safe numbers
      (json_of nexus_lab_id briefing_id 36) (λ m. some []) digest keyed vacant 20 composed
      (some (5 ∷ [])) (λ signer. some ((1 ∷ [], signer) ∷ [])) 36 (some empty_database)

queue_message-Outcome_example :
    Outcome plain_storage snapshots unary
      (λ call. no_faults)
      url_safe
      numbers
      (json_of nexus_lab_id briefing_id 36)
      (λ m. some [])
      digest
      keyed
      vacant
      20
      composed
      []
      []
      sending_it
unfolding find_item
queue_message-Outcome_example =
    queue_message-Outcome plain_storage snapshots unary (λ call. no_faults) url_safe numbers
      (json_of nexus_lab_id briefing_id 36) (λ m. some []) digest keyed vacant 20 composed
      (some (5 ∷ [])) (λ signer. some ((1 ∷ [], signer) ∷ [])) 36 (some empty_database) [] [] refl
      refl

sends : sending_it.0 ≡ ok (stored_form composed)
unfolding queue_message protocol_channel_id local_device_id load load_from_vault create new
    load_mls_client_snapshot save_to_vault store_mls_client_snapshot write_snapshot has_channel
    create_channel transact queue_outgoing queue_text_and_store_message prepare encrypt_event
    encrypt_text check_outgoing encode_provisional_json validate any is_blank all is_whitespace len
    get put retain encode_snapshot sort_by place le_bytes to_submit_event from_bytes
    store_message_and_mls_snapshot_and_outbox store_mls_transaction validate_transaction insert_all
    insert_message upsert insert_item find_item find_message find_snapshot put_snapshot sql_length
    validate_message validate_identifier validate_mls_snapshot validate_mls_outbox_payload url_safe
    strokes Groups.has_channel Groups.create_channel
sends = refl
