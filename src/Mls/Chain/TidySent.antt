-- ===== src/Mls/Chain/TidySent.antt =====
-- Encryption keeps a client tidy.
use singularis.Prelude.{
  ℕ, ◌≡◌, false, Option, Result, ok, err, Bytes, ap, subst, Distinct-put, ◌==◌, nat_eq,
}
use singularis.Mls.Error.{MlsError}
use singularis.Mls.Event.{PlaintextEvent, EventJson, encode_provisional_json}
use singularis.Mls.Chain.{
  ChannelState, MlsClient, OpenMls, AuthenticatedTransportMetadata, check_outgoing, on_checked,
  on_message, serialized, record_outgoing,
}
use singularis.Mls.Chain.Lockstep.{unwrap_or}
use singularis.Mls.Chain.Sent.{check_outgoing-parts}
use singularis.Mls.Chain.Tidy.{TidyChannel, TidyClient, with_channel-TidyClient, encoded-positive}
use singularis.Mls.Chain.Tidy.{with_group-TidyChannel}

module _ {Group Provider : Type 0} (json : EventJson)
    (metadata_to_vec : AuthenticatedTransportMetadata → Option Bytes) (digest : Bytes → ℕ)
    (mls : OpenMls Group Provider) where
  module _ (client : MlsClient Group Provider) (t : TidyClient client) where
    record_outgoing-TidyChannel :
        (event : PlaintextEvent) (encoded : Bytes) (state : ChannelState Group)
        → encode_provisional_json json event ≡ ok encoded
        → TidyChannel state
        → TidyChannel (record_outgoing json metadata_to_vec digest mls event encoded state)
    record_outgoing-TidyChannel event encoded state written s = record {
      sent = λ chain h.
          subst (λ c. (c.counter == 0) ≡ false) (ap (unwrap_or chain) h)
            (encoded-positive json event encoded written);
      incoming_distinct = s.incoming_distinct;
      received = s.received;
      seen_distinct = Distinct-put event.event_id tt state.seen_event_ids s.seen_distinct;
    }

    pub on_checked-TidyClient :
        (event : PlaintextEvent) (r : Result MlsError (ChannelState Group × Bytes × Bytes))
        → check_outgoing json metadata_to_vec digest mls event client ≡ r
        → TidyClient (on_checked json metadata_to_vec digest mls event client r).1
    on_checked-TidyClient event (err e) h = t
    on_checked-TidyClient event (ok (state, encoded, metadata)) h =
        messaged (serialized json metadata_to_vec digest mls run.0)
      where
        run : Option Bytes × Group × Provider
        run = mls.create_message encoded (mls.set_aad metadata state.group) client.provider

        before : TidyChannel state
        before =
            t.tidy event.channel_id state
              (check_outgoing-parts json metadata_to_vec digest mls event client state encoded
                metadata h).0

        written : encode_provisional_json json event ≡ ok encoded
        written =
            (check_outgoing-parts json metadata_to_vec digest mls event client state encoded
              metadata h).4

        messaged :
            (wire : Result MlsError Bytes)
            → TidyClient
                (on_message json metadata_to_vec digest mls event encoded
                  (record state { group = run.1 })
                  run.2
                  client
                  wire).1
        messaged (err e) =
            with_channel-TidyClient event.channel_id _ run.2 client
              (with_group-TidyChannel state run.1 before) t
        messaged (ok wire) =
            with_channel-TidyClient event.channel_id _ run.2 client
              (record_outgoing-TidyChannel event encoded (record state { group = run.1 }) written
                (with_group-TidyChannel state run.1 before))
              t
