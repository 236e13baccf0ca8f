-- ===== src/Mls/Groups/Tidy.antt =====
-- The operations on groups keep a client tidy.
use singularis.Prelude.{
  ◌≡◌, refl, Bool, true, false, not, ◌||◌, Option, none, some, Result, ok, err, Bytes, get,
  Distinct, arith, >>=-eq-ok, ok_or, ok_or-ok, ok_value, ap, ◌∙◌, nat_eq, Bool-cases, inl, inr,
}
use singularis.Protocol.Event.{Uuid}
use singularis.Mls.Error.{MlsError, unknown_channel}
use singularis.Mls.Chain.{ChannelState, MlsClient}
use singularis.Mls.Chain.Tidy.{TidyChannel, TidyClient, with_channel-TidyClient}
use singularis.Mls.Groups.{
  Groups, on_vacant, on_created, on_addition, on_added, on_welcome, on_staged, on_group,
  new_channel, check_addition, decode_key_package,
}
use singularis.Mls.Receive.{credential_device_id}
use singularis.Mls.Chain.Tidy.{with_group-TidyChannel, with_provider-TidyClient}

module _ {Group Provider : Type 0} (groups : Groups Group Provider) where
  new_channel-TidyChannel :
      (community_id : Uuid) (group : Group) → TidyChannel (new_channel community_id group)
  unfolding Distinct get
  new_channel-TidyChannel community_id group = record {
    sent = λ chain h. absurd (ground arith);
    incoming_distinct = tt;
    received = λ device chain h. absurd (ground arith);
    seen_distinct = tt;
  }

  module _ (client : MlsClient Group Provider) (t : TidyClient client) where
    pub on_vacant-TidyClient :
        (community_id channel_id : Uuid) (b : Bool)
        → TidyClient (on_vacant groups community_id channel_id client b).1
    on_vacant-TidyClient community_id channel_id true = t
    on_vacant-TidyClient community_id channel_id false =
        created (groups.new_with_group_id channel_id client.provider)
      where
        created :
            (r : Option Group × Provider)
            → TidyClient (on_created groups community_id channel_id client r).1
        created (none, provider) = with_provider-TidyClient provider client t
        created (some group, provider) =
            with_channel-TidyClient channel_id _ provider client
              (new_channel-TidyChannel community_id group) t

    on_group-TidyClient :
        (community_id channel_id : Uuid) (r : Option Group × Provider)
        → TidyClient (on_group groups community_id channel_id client r).1
    on_group-TidyClient community_id channel_id (none, provider) =
        with_provider-TidyClient provider client t
    on_group-TidyClient community_id channel_id (some group, provider) =
        elim (Bool-cases
          (not (groups.has_group_id group channel_id) || not (groups.has_ciphersuite group))) [
            | inl e ↦ rw e (with_provider-TidyClient provider client t)
            | inr e ↦ rw e (
                with_channel-TidyClient channel_id _ provider client
                  (new_channel-TidyChannel community_id group) t)
          ]

    pub on_welcome-TidyClient :
        (community_id channel_id : Uuid) (r : Result MlsError groups.Welcome)
        → TidyClient (on_welcome groups community_id channel_id client r).1
    on_welcome-TidyClient community_id channel_id (err e) = t
    on_welcome-TidyClient community_id channel_id (ok welcome) =
        staged (groups.new_from_welcome welcome client.provider)
      where
        staged :
            (r : Option groups.StagedWelcome × Provider)
            → TidyClient (on_staged groups community_id channel_id client r).1
        staged (none, provider) = with_provider-TidyClient provider client t
        staged (some s, provider) = on_group-TidyClient community_id channel_id _

    pub check_addition-joined :
        (channel_id : Uuid) (encoded_key_package : Bytes) (key_package : groups.KeyPackage)
        (device : Uuid) (state : ChannelState Group)
        → check_addition groups channel_id encoded_key_package client
          ≡ ok (key_package, device, state)
        → get channel_id client.channels ≡ some state
    unfolding check_addition
    check_addition-joined channel_id encoded_key_package key_package device state h =
        let (k, _, h₁) = >>=-eq-ok (decode_key_package groups encoded_key_package) _ h in
        let (d, _, h₂) =
          >>=-eq-ok (credential_device_id groups.uuid_from_slice (groups.leaf_credential k)) _ h₁ in
        let (found, e, h₃) =
          >>=-eq-ok (ok_or (get channel_id client.channels) unknown_channel) _ h₂ in
        ok_or-ok unknown_channel _ e
        ∙ ap
            (λ r.
              some
                (ok_value {E = MlsError} {A = groups.KeyPackage × Uuid × ChannelState Group}
                  (k, d, found) r).2)
            h₃

    pub on_addition-TidyClient :
        (channel_id : Uuid) (r : Result MlsError (groups.KeyPackage × Uuid × ChannelState Group))
        → ((k : groups.KeyPackage) (device : Uuid) (state : ChannelState Group)
            → r ≡ ok (k, device, state)
            → TidyChannel state)
        → TidyClient (on_addition groups channel_id client r).1
    on_addition-TidyClient channel_id (err e) h = t
    on_addition-TidyClient channel_id (ok (k, device, state)) h =
        added (groups.add_members k state.group client.provider)
      where
        added :
            (r : Option (Bytes × Bytes) × Group × Provider)
            → TidyClient (on_added groups channel_id device state client r).1
        added (none, group, provider) =
            with_channel-TidyClient channel_id _ provider client
              (with_group-TidyChannel state group (h k device state refl)) t
        added (some messages, group, provider) =
            with_channel-TidyClient channel_id _ _ client
              (with_group-TidyChannel state _ (h k device state refl)) t
