-- ===== src/Notify/Initial.antt =====
-- `createInitialValues` and `createConfiguredSecretFormFields`.
use subdux.Base.{
  Bool, List, Option, String, TextMap, [], any, if◌then◌else◌, none, not, some, str_eq, ℕ, ◌==◌,
  ◌∷◌,
}
use subdux.Notify.Fields.{
  ChannelType, Members, NotificationChannel, NotificationChannelFormValues, Runtime, SecretField,
  api_key, bark_device_key, bot_token, configured_secret_mask, dingtalk_secret,
  dingtalk_webhook_url, feishu_secret, feishu_webhook_url, gotify_token, json_object,
  napcat_access_token, no_object, normalize_ntfy_priority, ntfy_token, other_value,
  parse_webhook_method, pushdeer_push_key, pushover_token, pushover_user, pushplus_token,
  secret_form_field, server_chan_send_key, smtp_password, text_value, webhook_secret,
  wecom_webhook_url,
}

-- `initCfg.key ?? otherwise`.
abbrev pub member : TextMap String → String → String → String
member config key otherwise = elim (config key) [ none ↦ otherwise | some value ↦ value ]

-- `normalized[key] = value`.
abbrev pub set_member : String → String → List (String × String) → List (String × String)
set_member key value [] = (key, value) ∷ []
set_member key value (entry ∷ entries) =
    if str_eq (entry.0) key then (key, value) ∷ entries else entry ∷ set_member key value entries

abbrev pub includes : List String → String → Bool
includes keys key = any (λ k. str_eq k key) keys

abbrev pub or_empty : Option (List String) → List String
or_empty keys = elim keys [ none ↦ [] | some ks ↦ ks ]

module _ (runtime : Runtime) where
  unfoldable pub parse_config : String → TextMap String
  parse_config raw = elim (runtime.parse_config raw) [ none ↦ λ key. none | some config ↦ config ]

  -- The loop over the entries of the headers, onto those shown already.
  unfoldable pub shown_headers :
      List String → Members → List (String × String) → List (String × String)
  shown_headers configured [] shown = shown
  shown_headers configured ((key, text_value value) ∷ entries) shown =
      shown_headers configured entries (
        if not (str_eq (runtime.trim value) "")
        then set_member key value shown
        else if includes configured key
        then set_member key configured_secret_mask shown
        else shown)
  shown_headers configured ((key, other_value) ∷ entries) shown =
      shown_headers configured entries shown

  unfoldable pub parse_webhook_headers_display : String → List String → String
  parse_webhook_headers_display raw configured = elim (runtime.parse_headers raw) [
    | none ↦ ""
    | some no_object ↦ ""
    | some (json_object members) ↦ elim (shown_headers configured members []) [
      | [] ↦ ""
      | entry ∷ entries ↦ runtime.stringify_headers (entry ∷ entries)
    ]
  ]

  unfoldable pub initial_values : TextMap String → String → NotificationChannelFormValues
  initial_values config webhook_headers = record {
    smtp_host = member config "host" "";
    smtp_port = member config "port" "587";
    smtp_username = member config "username" "";
    smtp_password = member config "password" "";
    smtp_from_email = member config "from_email" "";
    smtp_from_name = member config "from_name" "";
    smtp_to_email = member config "to_email" "";
    smtp_encryption = member config "encryption" "starttls";
    api_key = member config "api_key" "";
    from_email = member config "from_email" "";
    resend_to_email = member config "to_email" "";
    bot_token = member config "bot_token" "";
    chat_id = member config "chat_id" "";
    webhook_url = member config "url" "";
    webhook_secret = member config "secret" "";
    webhook_method = parse_webhook_method runtime (member config "method" "");
    webhook_headers = webhook_headers;
    pushdeer_push_key = member config "push_key" "";
    pushdeer_server_url = member config "server_url" "";
    pushplus_token = member config "token" "";
    pushplus_topic = member config "topic" "";
    pushplus_endpoint = member config "endpoint" "";
    pushplus_template = member config "template" "markdown";
    pushplus_channel = member config "channel" "";
    pushover_token = member config "token" "";
    pushover_user = member config "user" "";
    pushover_device = member config "device" "";
    pushover_priority = member config "priority" "0";
    pushover_sound = member config "sound" "";
    pushover_endpoint = member config "endpoint" "";
    gotify_url = member config "url" "";
    gotify_token = member config "token" "";
    ntfy_url = member config "url" "";
    ntfy_topic = member config "topic" "";
    ntfy_token = member config "token" "";
    ntfy_priority = normalize_ntfy_priority runtime (config "priority");
    ntfy_tags = member config "tags" "";
    ntfy_click = member config "click" "";
    ntfy_icon = member config "icon" "";
    bark_url = member config "url" "";
    bark_device_key = member config "device_key" "";
    server_chan_send_key = member config "send_key" "";
    feishu_webhook_url = member config "webhook_url" "";
    feishu_secret = member config "secret" "";
    wecom_webhook_url = member config "webhook_url" "";
    dingtalk_webhook_url = member config "webhook_url" "";
    dingtalk_secret = member config "secret" "";
    napcat_url = member config "url" "";
    napcat_access_token = member config "access_token" "";
    napcat_message_type = member config "message_type" "private";
    napcat_user_id = member config "user_id" "";
    napcat_group_id = member config "group_id" "";
  }

  unfoldable pub create_initial_values : Option NotificationChannel → NotificationChannelFormValues
  create_initial_values none = initial_values (λ key. none) ""
  create_initial_values (some channel) = initial_values (parse_config (channel.config)) (
      parse_webhook_headers_display (channel.config)
        (or_empty (channel.configured_webhook_header_keys)))

-- `configuredFormFields.add(mapped)`: a set keeps each field once.
unfoldable pub field_index : SecretField → ℕ
field_index smtp_password = 0
field_index api_key = 1
field_index bot_token = 2
field_index webhook_secret = 3
field_index gotify_token = 4
field_index ntfy_token = 5
field_index bark_device_key = 6
field_index server_chan_send_key = 7
field_index feishu_webhook_url = 8
field_index feishu_secret = 9
field_index wecom_webhook_url = 10
field_index dingtalk_webhook_url = 11
field_index dingtalk_secret = 12
field_index pushdeer_push_key = 13
field_index pushplus_token = 14
field_index pushover_token = 15
field_index pushover_user = 16
field_index napcat_access_token = 17

unfoldable pub add_field : SecretField → List SecretField → List SecretField
add_field field [] = field ∷ []
add_field field (f ∷ fields) =
    let rest = add_field field fields in
    if field_index f == field_index field then f ∷ fields else f ∷ rest

unfoldable pub add_fields : ChannelType → List String → List SecretField → List SecretField
add_fields kind [] fields = fields
add_fields kind (key ∷ keys) fields =
    add_fields kind keys
      (elim (secret_form_field kind key) [ none ↦ fields | some field ↦ add_field field fields ])

unfoldable pub create_configured_secret_form_fields : Option NotificationChannel → List SecretField
create_configured_secret_form_fields none = []
create_configured_secret_form_fields (some channel) =
    add_fields (channel.channel_type) (or_empty (channel.configured_secret_fields)) []
