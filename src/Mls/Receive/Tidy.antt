-- ===== src/Mls/Receive/Tidy.antt =====
-- Decryption keeps a client tidy.
use singularis.Prelude.{ℕ, ◌≡◌, refl, Option, none, some, Result, ok, err, Bytes, nat_eq}
use singularis.Protocol.Event.{Uuid, DeliveredEvent}
use singularis.Mls.Error.{MlsError}
use singularis.Mls.Event.{PlaintextEvent, EventJson}
use singularis.Mls.Chain.{ChannelState, MlsClient, validate_and_record_incoming}
use singularis.Mls.Chain.Tidy.{
  TidyChannel, TidyClient, with_channel-TidyClient, validate_and_record_incoming-TidyChannel,
}
use singularis.Mls.Receive.{
  Receiver, Processed, check_incoming, open_processed, on_recorded, on_opened, on_reloaded,
  on_processed, on_incoming,
}
use singularis.Mls.Receive.Opened.{check_incoming-joined}
use singularis.Mls.Chain.Tidy.{with_group-TidyChannel}

module _ {Group Provider : Type 0} (json : EventJson) (digest : Bytes → ℕ)
    (receiver : Receiver Group Provider) where
  module _ (client : MlsClient Group Provider) (t : TidyClient client) where
    on_processed-TidyChannel :
        (channel_id : Uuid) (delivered : Option DeliveredEvent) (group : Group)
        (state : ChannelState Group) (provider : Provider) (p : Option Processed)
        → TidyChannel state
        → TidyChannel
            (on_processed json digest receiver channel_id delivered group state provider p).1
    on_processed-TidyChannel channel_id delivered group state provider none s =
        reloaded (receiver.load provider group)
      where
        reloaded :
            (r : Option (Option Group)) → TidyChannel (on_reloaded json digest receiver state r).1
        reloaded none = s
        reloaded (some none) = s
        reloaded (some (some g)) = with_group-TidyChannel state g s
    on_processed-TidyChannel channel_id delivered group state provider (some processed) s =
        opened
          (open_processed json digest receiver channel_id state.community_id delivered processed)
      where
        recorded :
            (event : PlaintextEvent) (r : Result MlsError (ChannelState Group))
            → validate_and_record_incoming json digest event state ≡ r
            → TidyChannel (on_recorded json digest receiver event state r).1
        recorded event (err e) h = s
        recorded event (ok state') h =
            validate_and_record_incoming-TidyChannel json digest event state state' h s

        opened :
            (r : Result MlsError PlaintextEvent)
            → TidyChannel (on_opened json digest receiver state r).1
        opened (err e) = s
        opened (ok event) = recorded event _ refl

    pub on_incoming-TidyClient :
        (channel_id : Uuid) (encoded_message : Bytes) (delivered : Option DeliveredEvent)
        (r : Result MlsError (ChannelState Group × receiver.ProtocolMessage))
        → check_incoming json digest receiver channel_id encoded_message delivered client ≡ r
        → TidyClient (on_incoming json digest receiver channel_id delivered client r).1
    on_incoming-TidyClient channel_id encoded_message delivered (err e) h = t
    on_incoming-TidyClient channel_id encoded_message delivered (ok (state, message)) h =
        with_channel-TidyClient channel_id _ _ client
          (on_processed-TidyChannel channel_id delivered state.group (record state { group = _ }) _
            _
            (with_group-TidyChannel state _ (
              t.tidy channel_id state (
                check_incoming-joined json digest receiver channel_id encoded_message delivered
                  client state message h))))
          t
