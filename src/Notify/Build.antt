-- ===== src/Notify/Build.antt =====
-- `buildConfig`: what the form stores for each type of channel.
use subdux.Base.{
  List, Result, String, [], if◌then◌else◌, none, ok, some, str_eq, throw, ◌>>=◌, ◌||◌, ◌∷◌,
}
use subdux.Notify.Fields.{
  BuildError, ChannelType, Config, Members, NotificationChannelFormValues, Runtime, WebhookMethod,
  bark, dingtalk, feishu, get, gotify, headers, is_configured_secret_mask, json_object, napcat,
  no_object, ntfy, number, other_value, post, pushdeer, pushover, pushplus, put, resend,
  sanitize_secret_input, serverchan, smtp, syntax_error, telegram, text, text_value, webhook,
  webhook_headers_parse_error, wecom,
}
use subdux.Notify.Initial.{set_member}

-- `...(value ? { [key]: value } : {})`, before the rest of the object.
unfoldable pub present : String → String → Config → Config
present key value rest = if str_eq value "" then rest else (key, text value) ∷ rest

abbrev pub method_text : WebhookMethod → String
method_text get = "GET"
method_text post = "POST"
method_text put = "PUT"

module _ (runtime : Runtime) where
  abbrev pub trimmed : String → String
  trimmed value = runtime.trim value

  abbrev pub secret : String → String
  secret value = runtime.trim (sanitize_secret_input runtime value)

  -- `parseInt(raw, 10) || otherwise`.
  unfoldable pub int_or : String → String → String
  int_or otherwise raw =
      let parsed = runtime.parse_int raw in
      if str_eq parsed "NaN" || str_eq parsed "0" then otherwise else parsed

  -- The loop over the entries of the input, onto the headers kept already.
  unfoldable pub read_headers :
      Members → List (String × String) → Result BuildError (List (String × String))
  read_headers [] kept = ok kept
  read_headers ((key, other_value) ∷ entries) kept = throw webhook_headers_parse_error
  read_headers ((key, text_value value) ∷ entries) kept =
      let rest = read_headers entries (
        set_member (runtime.trim key)
          (if is_configured_secret_mask runtime value then "" else value) kept) in
      if str_eq (runtime.trim key) "" then throw webhook_headers_parse_error else rest

  unfoldable pub parse_webhook_headers_input : String → Result BuildError (List (String × String))
  parse_webhook_headers_input raw = elim (runtime.parse_json raw) [
    | none ↦ throw syntax_error
    | some no_object ↦ throw webhook_headers_parse_error
    | some (json_object members) ↦ read_headers members []
  ]

  unfoldable pub webhook_headers_of : String → Result BuildError Config
  webhook_headers_of raw =
      if str_eq (trimmed raw) ""
      then ok []
      else parse_webhook_headers_input raw >>= λ kept. ok (("headers", headers kept) ∷ [])

  unfoldable pub config_of : ChannelType → NotificationChannelFormValues → Result BuildError Config
  config_of smtp values = ok (
      ("host", text (trimmed (values.smtp_host)))
      ∷ ("port", number (int_or "587" (values.smtp_port)))
      ∷ ("username", text (trimmed (values.smtp_username)))
      ∷ ("password", text (sanitize_secret_input runtime (values.smtp_password)))
      ∷ ("from_email", text (trimmed (values.smtp_from_email)))
      ∷ ("from_name", text (trimmed (values.smtp_from_name)))
      ∷ ("to_email", text (trimmed (values.smtp_to_email)))
      ∷ ("encryption", text (values.smtp_encryption))
      ∷ [])
  config_of resend values = ok (
      ("api_key", text (secret (values.api_key)))
      ∷ ("from_email", text (trimmed (values.from_email)))
      ∷ ("to_email", text (trimmed (values.resend_to_email)))
      ∷ [])
  config_of telegram values = ok (
      ("bot_token", text (secret (values.bot_token)))
      ∷ ("chat_id", text (trimmed (values.chat_id)))
      ∷ [])
  config_of webhook values = webhook_headers_of (values.webhook_headers) >>= λ kept. ok (
      ("url", text (trimmed (values.webhook_url)))
      ∷ ("method", text (method_text (values.webhook_method)))
      ∷ present "secret" (secret (values.webhook_secret)) (kept))
  config_of pushdeer values = ok (
      ("push_key", text (secret (values.pushdeer_push_key)))
      ∷ present "server_url" (trimmed (values.pushdeer_server_url)) [])
  config_of pushplus values = ok (
      ("token", text (secret (values.pushplus_token)))
      ∷ present "topic" (trimmed (values.pushplus_topic)) (
          present "endpoint" (trimmed (values.pushplus_endpoint)) (
            present "template" (trimmed (values.pushplus_template))
              (present "channel" (trimmed (values.pushplus_channel)) []))))
  config_of pushover values = ok (
      ("token", text (secret (values.pushover_token)))
      ∷ ("user", text (secret (values.pushover_user)))
      ∷ present "device" (trimmed (values.pushover_device)) (
          ("priority", number (int_or "0" (values.pushover_priority)))
          ∷ present "sound" (trimmed (values.pushover_sound))
              (present "endpoint" (trimmed (values.pushover_endpoint)) [])))
  config_of gotify values = ok (
      ("url", text (trimmed (values.gotify_url)))
      ∷ ("token", text (secret (values.gotify_token)))
      ∷ [])
  config_of ntfy values = ok (
      present "url" (trimmed (values.ntfy_url)) (
        ("topic", text (trimmed (values.ntfy_topic)))
        ∷ present "token" (secret (values.ntfy_token)) (
            present "priority" (trimmed (values.ntfy_priority)) (
              present "tags" (trimmed (values.ntfy_tags)) (
                present "click" (trimmed (values.ntfy_click))
                  (present "icon" (trimmed (values.ntfy_icon)) []))))))
  config_of bark values = ok (
      present "url" (trimmed (values.bark_url))
        (("device_key", text (secret (values.bark_device_key))) ∷ []))
  config_of serverchan values = ok (("send_key", text (secret (values.server_chan_send_key))) ∷ [])
  config_of feishu values = ok (
      ("webhook_url", text (secret (values.feishu_webhook_url)))
      ∷ present "secret" (secret (values.feishu_secret)) [])
  config_of wecom values = ok (("webhook_url", text (secret (values.wecom_webhook_url))) ∷ [])
  config_of dingtalk values = ok (
      ("webhook_url", text (secret (values.dingtalk_webhook_url)))
      ∷ present "secret" (secret (values.dingtalk_secret)) [])
  config_of napcat values = ok (
      ("url", text (trimmed (values.napcat_url)))
      ∷ present "access_token" (secret (values.napcat_access_token)) (
          ("message_type", text (values.napcat_message_type))
          ∷ (if str_eq (values.napcat_message_type) "private"
              then ("user_id", text (trimmed (values.napcat_user_id)))
              else ("group_id", text (trimmed (values.napcat_group_id))))
          ∷ []))

  unfoldable pub build_config :
      ChannelType → NotificationChannelFormValues → Result BuildError String
  build_config kind values = config_of kind values >>= λ config. ok (runtime.stringify config)
