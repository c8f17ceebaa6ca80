-- ===== src/Notify/Rebuild.antt =====
-- A stored configuration that is read into the form and stored again, type by type.
use subdux.Base.{
  Bool, String, [], arith, false, if◌then◌else◌, ok, ok_injective, refl, str_eq, sym, true, ◌∷◌,
  ◌≡◌,
}
use subdux.Notify.Build.{config_of, int_or, secret, trimmed}
use subdux.Notify.Fields.{
  ChannelType, Config, NotificationChannelFormValues, Runtime, bark, configured_secret_mask,
  dingtalk, feishu, gotify, is_configured_secret_mask, pushdeer, resend, sanitize_secret_input,
  serverchan, smtp, telegram, text, wecom,
}
use subdux.Notify.Initial.{initial_values}
use subdux.Notify.Lookup.{here, lookup, past}

module _ (runtime : Runtime)
    (trim_idempotent : (s : String) → runtime.trim (runtime.trim s) ≡ runtime.trim s)
    (trim_empty : runtime.trim "" ≡ "") where
  -- What `buildConfig` makes of what it has stored.
  abbrev pub Rebuilds : ChannelType → NotificationChannelFormValues → Type 0
  Rebuilds kind values =
      (shown : String) (c : Config)
      → config_of runtime kind values ≡ ok c
      → config_of runtime kind (initial_values runtime (lookup c) shown) ≡ ok c

  unmasked :
      (b : Bool) (value : String)
      → str_eq (runtime.trim value) configured_secret_mask ≡ b
      → secret runtime (runtime.trim (if b then "" else value))
        ≡ runtime.trim (if b then "" else value)
  unfolding sanitize_secret_input is_configured_secret_mask
  unmasked true value e = rw (trim_empty, secret, trim_empty) trim_empty
  unmasked false value e = rw (secret, trim_idempotent value, e) (trim_idempotent value)

  pub trimmed-secret :
      (value : String) → secret runtime (secret runtime value) ≡ secret runtime value
  unfolding sanitize_secret_input is_configured_secret_mask
  trimmed-secret value = unmasked (str_eq (runtime.trim value) configured_secret_mask) value refl

  pub sanitize_self :
      (value : String)
      → sanitize_secret_input runtime (sanitize_secret_input runtime value)
        ≡ sanitize_secret_input runtime value
  unfolding sanitize_secret_input is_configured_secret_mask
  sanitize_self value = by_test (str_eq (runtime.trim value) configured_secret_mask) refl
    where
      by_test :
          (b : Bool)
          → str_eq (runtime.trim value) configured_secret_mask ≡ b
          → (if str_eq (runtime.trim (if b then "" else value)) configured_secret_mask
              then ""
              else (if b then "" else value))
            ≡ (if b then "" else value)
      by_test true e = rw trim_empty refl
      by_test false e = rw e refl

  pub int_or_self :
      (otherwise value : String)
      → runtime.parse_int (int_or runtime otherwise value) ≡ int_or runtime otherwise value
      → int_or runtime otherwise (int_or runtime otherwise value) ≡ int_or runtime otherwise value
  unfolding int_or
  int_or_self otherwise value h = ground (arith)

  pub rebuild-pushdeer : (values : NotificationChannelFormValues) → Rebuilds pushdeer values
  unfolding config_of initial_values
  rebuild-pushdeer values shown c e =
      rw
        (
          sym (ok_injective e),
          trimmed-secret (values.pushdeer_push_key),
          here "server_url" (trimmed runtime (values.pushdeer_server_url)) ([]) (refl),
          trim_idempotent (values.pushdeer_server_url),
        )
        refl

  pub rebuild-bark : (values : NotificationChannelFormValues) → Rebuilds bark values
  unfolding config_of initial_values
  rebuild-bark values shown c e =
      rw
        (
          sym (ok_injective e),
          here "url" (trimmed runtime (values.bark_url))
              (("device_key", text (secret runtime (values.bark_device_key))) ∷ []) (refl),
          trim_idempotent (values.bark_url),
          past "url" (trimmed runtime (values.bark_url)) "device_key"
              (("device_key", text (secret runtime (values.bark_device_key))) ∷ []) "" refl,
          trimmed-secret (values.bark_device_key),
        )
        refl

  pub rebuild-feishu : (values : NotificationChannelFormValues) → Rebuilds feishu values
  unfolding config_of initial_values
  rebuild-feishu values shown c e =
      rw
        (
          sym (ok_injective e),
          trimmed-secret (values.feishu_webhook_url),
          here "secret" (secret runtime (values.feishu_secret)) ([]) (refl),
          trimmed-secret (values.feishu_secret),
        )
        refl

  pub rebuild-dingtalk : (values : NotificationChannelFormValues) → Rebuilds dingtalk values
  unfolding config_of initial_values
  rebuild-dingtalk values shown c e =
      rw
        (
          sym (ok_injective e),
          trimmed-secret (values.dingtalk_webhook_url),
          here "secret" (secret runtime (values.dingtalk_secret)) ([]) (refl),
          trimmed-secret (values.dingtalk_secret),
        )
        refl

  pub rebuild-wecom : (values : NotificationChannelFormValues) → Rebuilds wecom values
  unfolding config_of initial_values
  rebuild-wecom values shown c e =
      rw (sym (ok_injective e), trimmed-secret (values.wecom_webhook_url)) refl

  pub rebuild-serverchan : (values : NotificationChannelFormValues) → Rebuilds serverchan values
  unfolding config_of initial_values
  rebuild-serverchan values shown c e =
      rw (sym (ok_injective e), trimmed-secret (values.server_chan_send_key)) refl

  pub rebuild-gotify : (values : NotificationChannelFormValues) → Rebuilds gotify values
  unfolding config_of initial_values
  rebuild-gotify values shown c e =
      rw
        (
          sym (ok_injective e),
          trim_idempotent (values.gotify_url),
          trimmed-secret (values.gotify_token),
        )
        refl

  pub rebuild-telegram : (values : NotificationChannelFormValues) → Rebuilds telegram values
  unfolding config_of initial_values
  rebuild-telegram values shown c e =
      rw (sym (ok_injective e), trimmed-secret (values.bot_token), trim_idempotent (values.chat_id))
        refl

  pub rebuild-resend : (values : NotificationChannelFormValues) → Rebuilds resend values
  unfolding config_of initial_values
  rebuild-resend values shown c e =
      rw
        (
          sym (ok_injective e),
          trimmed-secret (values.api_key),
          trim_idempotent (values.from_email),
          trim_idempotent (values.resend_to_email),
        )
        refl

  pub rebuild-smtp :
      (values : NotificationChannelFormValues)
      → runtime.parse_int (int_or runtime "587" (values.smtp_port))
        ≡ int_or runtime "587" (values.smtp_port)
      → Rebuilds smtp values
  unfolding config_of initial_values
  rebuild-smtp values hn shown c e =
      rw
        (
          sym (ok_injective e),
          trim_idempotent (values.smtp_host),
          int_or_self "587" (values.smtp_port) hn,
          trim_idempotent (values.smtp_username),
          sanitize_self (values.smtp_password),
          trim_idempotent (values.smtp_from_email),
          trim_idempotent (values.smtp_from_name),
          trim_idempotent (values.smtp_to_email),
        )
        refl
