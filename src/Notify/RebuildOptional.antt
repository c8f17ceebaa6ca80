-- ===== src/Notify/RebuildOptional.antt =====
-- As in `Rebuild`, for the types with several optional members.
use subdux.Base.{Bool, String, [], false, ok, ok_injective, refl, str_eq, sym, true, ◌∷◌, ◌≡◌, ◌≢◌}
use subdux.Notify.Build.{config_of, int_or, present, secret, trimmed}
use subdux.Notify.Fields.{
  Config, NotificationChannelFormValues, Runtime, napcat, number, pushover, pushplus, text,
}
use subdux.Notify.Initial.{initial_values}
use subdux.Notify.Lookup.{filled, here, lookup, past, skip}
use subdux.Notify.Rebuild.{Rebuilds, int_or_self, trimmed-secret}

module _ (runtime : Runtime)
    (trim_idempotent : (s : String) → runtime.trim (runtime.trim s) ≡ runtime.trim s)
    (trim_empty : runtime.trim "" ≡ "") where
  -- What follows a member of the configuration.
  abbrev pushplus_from_channel : NotificationChannelFormValues → Config
  pushplus_from_channel values = present "channel" (trimmed runtime (values.pushplus_channel)) ([])

  abbrev pushplus_from_template : NotificationChannelFormValues → Config
  pushplus_from_template values =
      present "template" (trimmed runtime (values.pushplus_template)) (pushplus_from_channel values)

  abbrev pushplus_from_endpoint : NotificationChannelFormValues → Config
  pushplus_from_endpoint values =
      present "endpoint" (trimmed runtime (values.pushplus_endpoint))
        (pushplus_from_template values)

  pub rebuild-pushplus :
      (values : NotificationChannelFormValues)
      → runtime.trim (values.pushplus_template) ≢ ""
      → Rebuilds runtime trim_idempotent trim_empty pushplus values
  unfolding config_of initial_values
  rebuild-pushplus values h shown c e =
      rw
        (
          sym (ok_injective e),
          trimmed-secret runtime trim_idempotent trim_empty (values.pushplus_token),
          here "topic" (trimmed runtime (values.pushplus_topic)) (pushplus_from_endpoint values)
              (skip _ _ _ _ refl (skip _ _ _ _ refl (skip _ _ _ _ refl refl))),
          trim_idempotent (values.pushplus_topic),
          past "topic" (trimmed runtime (values.pushplus_topic)) "endpoint"
              (pushplus_from_endpoint values) "" refl,
          here "endpoint" (trimmed runtime (values.pushplus_endpoint))
              (pushplus_from_template values) (skip _ _ _ _ refl (skip _ _ _ _ refl refl)),
          trim_idempotent (values.pushplus_endpoint),
          past "topic" (trimmed runtime (values.pushplus_topic)) "template"
              (pushplus_from_endpoint values) "markdown" refl,
          past "endpoint" (trimmed runtime (values.pushplus_endpoint)) "template"
              (pushplus_from_template values) "markdown" refl,
          filled "template" (trimmed runtime (values.pushplus_template))
              (pushplus_from_channel values) "markdown" h,
          trim_idempotent (values.pushplus_template),
          past "topic" (trimmed runtime (values.pushplus_topic)) "channel"
              (pushplus_from_endpoint values) "" refl,
          past "endpoint" (trimmed runtime (values.pushplus_endpoint)) "channel"
              (pushplus_from_template values) "" refl,
          past "template" (trimmed runtime (values.pushplus_template)) "channel"
              (pushplus_from_channel values) "" refl,
          here "channel" (trimmed runtime (values.pushplus_channel)) ([]) refl,
          trim_idempotent (values.pushplus_channel),
        )
        refl

  -- What follows a member of the configuration.
  abbrev pushover_from_endpoint : NotificationChannelFormValues → Config
  pushover_from_endpoint values =
      present "endpoint" (trimmed runtime (values.pushover_endpoint)) ([])

  abbrev pushover_from_sound : NotificationChannelFormValues → Config
  pushover_from_sound values =
      present "sound" (trimmed runtime (values.pushover_sound)) (pushover_from_endpoint values)

  abbrev pushover_from_priority : NotificationChannelFormValues → Config
  pushover_from_priority values =
      ("priority", number (int_or runtime "0" (values.pushover_priority)))
      ∷ pushover_from_sound values

  abbrev pushover_from_device : NotificationChannelFormValues → Config
  pushover_from_device values =
      present "device" (trimmed runtime (values.pushover_device)) (pushover_from_priority values)

  pub rebuild-pushover :
      (values : NotificationChannelFormValues)
      → runtime.parse_int (int_or runtime "0" (values.pushover_priority))
        ≡ int_or runtime "0" (values.pushover_priority)
      → Rebuilds runtime trim_idempotent trim_empty pushover values
  unfolding config_of initial_values
  rebuild-pushover values h shown c e =
      rw
        (
          sym (ok_injective e),
          trimmed-secret runtime trim_idempotent trim_empty (values.pushover_token),
          trimmed-secret runtime trim_idempotent trim_empty (values.pushover_user),
          here "device" (trimmed runtime (values.pushover_device)) (pushover_from_priority values)
              (skip _ _ _ _ refl (skip _ _ _ _ refl refl)),
          trim_idempotent (values.pushover_device),
          past "device" (trimmed runtime (values.pushover_device)) "priority"
              (pushover_from_priority values) "0" refl,
          int_or_self runtime trim_idempotent trim_empty "0" (values.pushover_priority) h,
          past "device" (trimmed runtime (values.pushover_device)) "sound"
              (pushover_from_priority values) "" refl,
          here "sound" (trimmed runtime (values.pushover_sound)) (pushover_from_endpoint values)
              (skip _ _ _ _ refl refl),
          trim_idempotent (values.pushover_sound),
          past "device" (trimmed runtime (values.pushover_device)) "endpoint"
              (pushover_from_priority values) "" refl,
          past "sound" (trimmed runtime (values.pushover_sound)) "endpoint"
              (pushover_from_endpoint values) "" refl,
          here "endpoint" (trimmed runtime (values.pushover_endpoint)) ([]) refl,
          trim_idempotent (values.pushover_endpoint),
        )
        refl

  pub rebuild-napcat :
      (values : NotificationChannelFormValues)
      → Rebuilds runtime trim_idempotent trim_empty napcat values
  unfolding config_of initial_values
  rebuild-napcat values shown c e = by_kind (str_eq (values.napcat_message_type) "private") refl
    where
      by_kind :
          (b : Bool)
          → str_eq (values.napcat_message_type) "private" ≡ b
          → config_of runtime napcat (initial_values runtime (lookup c) shown) ≡ ok c
      by_kind true q =
          rw
            (
              sym (ok_injective e),
              q,
              trim_idempotent (values.napcat_url),
              here "access_token" (secret runtime (values.napcat_access_token))
                  (("message_type", text (values.napcat_message_type))
                    ∷ ("user_id", text (trimmed runtime (values.napcat_user_id)))
                    ∷ [])
                  refl,
              trimmed-secret runtime trim_idempotent trim_empty (values.napcat_access_token),
              past "access_token" (secret runtime (values.napcat_access_token)) "message_type"
                  (("message_type", text (values.napcat_message_type))
                    ∷ ("user_id", text (trimmed runtime (values.napcat_user_id)))
                    ∷ [])
                  "private" refl,
              q,
              past "access_token" (secret runtime (values.napcat_access_token)) "user_id"
                  (("message_type", text (values.napcat_message_type))
                    ∷ ("user_id", text (trimmed runtime (values.napcat_user_id)))
                    ∷ [])
                  "" refl,
              trim_idempotent (values.napcat_user_id),
            )
            refl
      by_kind false q =
          rw
            (
              sym (ok_injective e),
              q,
              trim_idempotent (values.napcat_url),
              here "access_token" (secret runtime (values.napcat_access_token))
                  (("message_type", text (values.napcat_message_type))
                    ∷ ("group_id", text (trimmed runtime (values.napcat_group_id)))
                    ∷ [])
                  refl,
              trimmed-secret runtime trim_idempotent trim_empty (values.napcat_access_token),
              past "access_token" (secret runtime (values.napcat_access_token)) "message_type"
                  (("message_type", text (values.napcat_message_type))
                    ∷ ("group_id", text (trimmed runtime (values.napcat_group_id)))
                    ∷ [])
                  "private" refl,
              q,
              past "access_token" (secret runtime (values.napcat_access_token)) "group_id"
                  (("message_type", text (values.napcat_message_type))
                    ∷ ("group_id", text (trimmed runtime (values.napcat_group_id)))
                    ∷ [])
                  "" refl,
              trim_idempotent (values.napcat_group_id),
            )
            refl
