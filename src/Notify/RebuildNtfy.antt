-- ===== src/Notify/RebuildNtfy.antt =====
-- As in `Rebuild`, for ntfy.
use subdux.Base.{String, [], ok_injective, refl, some, sym, ◌∷◌, ◌≡◌}
use subdux.Notify.Build.{config_of, present, secret, trimmed}
use subdux.Notify.Fields.{
  Config, NotificationChannelFormValues, Runtime, normalize_ntfy_priority, ntfy, text,
}
use subdux.Notify.Initial.{initial_values}
use subdux.Notify.Lookup.{here, normal, past, skip, there}
use subdux.Notify.Rebuild.{Rebuilds, trimmed-secret}

module _ (runtime : Runtime)
    (trim_idempotent : (s : String) → runtime.trim (runtime.trim s) ≡ runtime.trim s)
    (trim_empty : runtime.trim "" ≡ "") where
  -- What follows a member of the configuration.
  abbrev ntfy_from_icon : NotificationChannelFormValues → Config
  ntfy_from_icon values = present "icon" (trimmed runtime (values.ntfy_icon)) ([])

  abbrev ntfy_from_click : NotificationChannelFormValues → Config
  ntfy_from_click values =
      present "click" (trimmed runtime (values.ntfy_click)) (ntfy_from_icon values)

  abbrev ntfy_from_tags : NotificationChannelFormValues → Config
  ntfy_from_tags values =
      present "tags" (trimmed runtime (values.ntfy_tags)) (ntfy_from_click values)

  abbrev ntfy_from_priority : NotificationChannelFormValues → Config
  ntfy_from_priority values =
      present "priority" (trimmed runtime (values.ntfy_priority)) (ntfy_from_tags values)

  abbrev ntfy_from_token : NotificationChannelFormValues → Config
  ntfy_from_token values =
      present "token" (secret runtime (values.ntfy_token)) (ntfy_from_priority values)

  abbrev ntfy_from_topic : NotificationChannelFormValues → Config
  ntfy_from_topic values =
      ("topic", text (trimmed runtime (values.ntfy_topic))) ∷ ntfy_from_token values

  pub rebuild-ntfy :
      (values : NotificationChannelFormValues)
      → normalize_ntfy_priority runtime (some (runtime.trim (values.ntfy_priority)))
        ≡ runtime.trim (values.ntfy_priority)
      → Rebuilds runtime trim_idempotent trim_empty ntfy values
  unfolding config_of initial_values
  rebuild-ntfy values h shown c e =
      rw
        (
          sym (ok_injective e),
          here "url" (trimmed runtime (values.ntfy_url)) (ntfy_from_topic values) (
              skip _ _ _ _ refl (
                skip _ _ _ _ refl
                  (skip _ _ _ _ refl (skip _ _ _ _ refl (skip _ _ _ _ refl refl))))),
          trim_idempotent (values.ntfy_url),
          past "url" (trimmed runtime (values.ntfy_url)) "topic" (ntfy_from_topic values) "" refl,
          trim_idempotent (values.ntfy_topic),
          past "url" (trimmed runtime (values.ntfy_url)) "token" (ntfy_from_topic values) "" refl,
          here "token" (secret runtime (values.ntfy_token)) (ntfy_from_priority values)
              (skip _ _ _ _ refl (skip _ _ _ _ refl (skip _ _ _ _ refl (skip _ _ _ _ refl refl)))),
          trimmed-secret runtime trim_idempotent trim_empty (values.ntfy_token),
          there "url" (trimmed runtime (values.ntfy_url)) "priority" (ntfy_from_topic values) refl,
          there "token" (secret runtime (values.ntfy_token)) "priority" (ntfy_from_priority values)
              refl,
          normal runtime "priority" (trimmed runtime (values.ntfy_priority)) (ntfy_from_tags values)
              (skip _ _ _ _ refl (skip _ _ _ _ refl (skip _ _ _ _ refl refl))) h,
          trim_idempotent (values.ntfy_priority),
          past "url" (trimmed runtime (values.ntfy_url)) "tags" (ntfy_from_topic values) "" refl,
          past "token" (secret runtime (values.ntfy_token)) "tags" (ntfy_from_priority values) ""
              refl,
          past "priority" (trimmed runtime (values.ntfy_priority)) "tags" (ntfy_from_tags values) ""
              refl,
          here "tags" (trimmed runtime (values.ntfy_tags)) (ntfy_from_click values)
              (skip _ _ _ _ refl (skip _ _ _ _ refl refl)),
          trim_idempotent (values.ntfy_tags),
          past "url" (trimmed runtime (values.ntfy_url)) "click" (ntfy_from_topic values) "" refl,
          past "token" (secret runtime (values.ntfy_token)) "click" (ntfy_from_priority values) ""
              refl,
          past "priority" (trimmed runtime (values.ntfy_priority)) "click" (ntfy_from_tags values)
              "" refl,
          past "tags" (trimmed runtime (values.ntfy_tags)) "click" (ntfy_from_click values) "" refl,
          here "click" (trimmed runtime (values.ntfy_click)) (ntfy_from_icon values)
              (skip _ _ _ _ refl refl),
          trim_idempotent (values.ntfy_click),
          past "url" (trimmed runtime (values.ntfy_url)) "icon" (ntfy_from_topic values) "" refl,
          past "token" (secret runtime (values.ntfy_token)) "icon" (ntfy_from_priority values) ""
              refl,
          past "priority" (trimmed runtime (values.ntfy_priority)) "icon" (ntfy_from_tags values) ""
              refl,
          past "tags" (trimmed runtime (values.ntfy_tags)) "icon" (ntfy_from_click values) "" refl,
          past "click" (trimmed runtime (values.ntfy_click)) "icon" (ntfy_from_icon values) "" refl,
          here "icon" (trimmed runtime (values.ntfy_icon)) ([]) refl,
          trim_idempotent (values.ntfy_icon),
        )
        refl
