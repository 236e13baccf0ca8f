-- ===== src/Mls/Reach.antt =====
-- crates/singularis-mls/src/client.rs: the states that a client reaches by its operations, whatever
-- OpenMLS answers and whether they succeed or not.
use singularis.Prelude.{ℕ, refl, Option, Bytes, nat_eq}
use singularis.Protocol.Event.{Uuid, DeliveredEvent}
use singularis.Mls.Event.{PlaintextEvent, EventJson}
use singularis.Mls.Chain.{MlsClient, OpenMls, AuthenticatedTransportMetadata, encrypt_event}
use singularis.Mls.Chain.Tidy.{TidyClient}
use singularis.Mls.Groups.{Groups, create_channel, add_member, join_channel, publish_key_package}
use singularis.Mls.Receive.{Receiver, decrypt_event_with_delivery}
use singularis.Mls.Chain.Tidy.{with_provider-TidyClient}
use singularis.Mls.Groups.Tidy.{
  on_vacant-TidyClient, on_addition-TidyClient, check_addition-joined, on_welcome-TidyClient,
}
use singularis.Mls.Chain.TidySent.{on_checked-TidyClient}
use singularis.Mls.Receive.Tidy.{on_incoming-TidyClient}

module _ {Group Provider : Type 0} (json : EventJson)
    (metadata_to_vec : AuthenticatedTransportMetadata → Option Bytes) (digest : Bytes → ℕ)
    (mls : OpenMls Group Provider) (receiver : Receiver Group Provider)
    (groups : Groups Group Provider) where
  pub data Step (client : MlsClient Group Provider) : MlsClient Group Provider → Type 0 where
    publishes : Step client (publish_key_package groups client).1
    creates :
        (community_id channel_id : Uuid)
        → Step client (create_channel groups community_id channel_id client).1
    adds :
        (channel_id : Uuid) (encoded_key_package : Bytes)
        → Step client (add_member groups channel_id encoded_key_package client).1
    joins :
        (community_id channel_id : Uuid) (encoded_welcome : Bytes)
        → Step client (join_channel groups community_id channel_id encoded_welcome client).1
    encrypts :
        (event : PlaintextEvent)
        → Step client (encrypt_event json metadata_to_vec digest mls event client).1
    decrypts :
        (channel_id : Uuid) (encoded_message : Bytes) (delivered : Option DeliveredEvent)
        → Step client
            (decrypt_event_with_delivery json digest receiver channel_id encoded_message delivered
              client).1

  pub data Reach (start : MlsClient Group Provider) : MlsClient Group Provider → Type 0 where
    initial : Reach start start
    follow :
        {reached after : MlsClient Group Provider}
        → Reach start reached
        → Step reached after
        → Reach start after

  Step-TidyClient :
      (client after : MlsClient Group Provider)
      → TidyClient client
      → Step client after
      → TidyClient after
  unfolding publish_key_package create_channel add_member join_channel encrypt_event
      decrypt_event_with_delivery
  Step-TidyClient client _ t publishes = with_provider-TidyClient _ client t
  Step-TidyClient client _ t (creates community_id channel_id) =
      on_vacant-TidyClient groups client t community_id channel_id _
  Step-TidyClient client _ t (adds channel_id encoded_key_package) =
      on_addition-TidyClient groups client t channel_id _ (λ k device state h.
        t.tidy channel_id state
          (check_addition-joined groups client t channel_id encoded_key_package k device state h))
  Step-TidyClient client _ t (joins community_id channel_id encoded_welcome) =
      on_welcome-TidyClient groups client t community_id channel_id _
  Step-TidyClient client _ t (encrypts event) =
      on_checked-TidyClient json metadata_to_vec digest mls client t event _ refl
  Step-TidyClient client _ t (decrypts channel_id encoded_message delivered) =
      on_incoming-TidyClient json digest receiver client t channel_id encoded_message delivered _
        refl

  -- Every client that is reached from a tidy one, a new client among them, is tidy: counters are
  -- positive, and a channel, a sender's chain and a seen id are there once, as a snapshot demands.
  pub Reach-TidyClient :
      (start reached : MlsClient Group Provider)
      → TidyClient start
      → Reach start reached
      → TidyClient reached
  Reach-TidyClient start _ t initial = t
  Reach-TidyClient start _ t (follow {reached} {after} r s) =
      Step-TidyClient reached after (Reach-TidyClient start reached t r) s
