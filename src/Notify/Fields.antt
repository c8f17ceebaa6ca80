-- ===== src/Notify/Fields.antt =====
-- The values of the form and the helpers on one field: constants.ts, types.ts, the first half of
-- utils.ts, and the types of web/src/types/notification.ts.
use subdux.Base.{
  Bool, List, Option, String, TextMap, [], if◌then◌else◌, none, some, str_eq, ℕ, ◌||◌, ◌∷◌,
}

pub data ChannelType : Type 0 where
  smtp resend telegram webhook : ChannelType
  gotify ntfy bark serverchan : ChannelType
  feishu wecom dingtalk pushdeer : ChannelType
  pushplus pushover napcat : ChannelType

pub data WebhookMethod : Type 0 where
  get post put : WebhookMethod

-- A value of JSON as far as the code tells values apart: an object, whose members are texts or
-- something else, or no object.
pub data MemberValue : Type 0 where
  text_value : String → MemberValue
  other_value : MemberValue

abbrev pub Members : Type 0
Members = List (String × MemberValue)

pub data JsonValue : Type 0 where
  json_object : Members → JsonValue
  no_object : JsonValue

-- What a configuration is written with: `parseInt`'s number stands as its text.
pub data ConfigValue : Type 0 where
  text : String → ConfigValue
  number : String → ConfigValue
  headers : List (String × String) → ConfigValue

abbrev pub Config : Type 0
Config = List (String × ConfigValue)

-- JavaScript's own functions on texts. `parse_int` gives the text of the number, which is "NaN"
-- where there is none. `parse_config` is `JSON.parse`: the members of an object as `String` gives
-- them, and under `headers` the value itself.
pub record Runtime : Type 0 where
  pub trim : String → String
  pub to_lower_case : String → String
  pub to_upper_case : String → String
  pub parse_int : String → String
  pub parse_config : String → Option (TextMap String)
  pub parse_headers : String → Option JsonValue
  pub parse_json : String → Option JsonValue
  pub stringify : Config → String
  pub stringify_headers : List (String × String) → String

pub record NotificationChannel : Type 0 where
  pub id : ℕ
  pub channel_type : ChannelType
  pub enabled : Bool
  pub config : String
  pub configured_secret_fields : Option (List String)
  pub configured_webhook_header_keys : Option (List String)
  pub created_at : String
  pub updated_at : String

abbrev pub configured_secret_mask : String
configured_secret_mask = "••••••••"

pub data BuildError : Type 0 where
  syntax_error : BuildError
  webhook_headers_parse_error : BuildError

abbrev pub channel_type_options : List ChannelType
channel_type_options =
    smtp ∷ resend ∷ telegram ∷ webhook ∷ pushdeer ∷ pushplus ∷ pushover ∷ gotify ∷ ntfy ∷ bark
    ∷ serverchan ∷ feishu ∷ wecom ∷ dingtalk ∷ napcat ∷ []

-- The form fields that a secret can be configured for.
pub data SecretField : Type 0 where
  smtp_password api_key bot_token webhook_secret : SecretField
  gotify_token ntfy_token bark_device_key server_chan_send_key : SecretField
  feishu_webhook_url feishu_secret wecom_webhook_url dingtalk_webhook_url : SecretField
  dingtalk_secret pushdeer_push_key pushplus_token pushover_token : SecretField
  pushover_user napcat_access_token : SecretField

-- `CHANNEL_SECRET_FIELD_TO_FORM_FIELD_MAP`.
unfoldable pub secret_form_field : ChannelType → String → Option SecretField
secret_form_field smtp k = if str_eq k "password" then some smtp_password else none
secret_form_field resend k = if str_eq k "api_key" then some api_key else none
secret_form_field telegram k = if str_eq k "bot_token" then some bot_token else none
secret_form_field webhook k = if str_eq k "secret" then some webhook_secret else none
secret_form_field gotify k = if str_eq k "token" then some gotify_token else none
secret_form_field ntfy k = if str_eq k "token" then some ntfy_token else none
secret_form_field bark k = if str_eq k "device_key" then some bark_device_key else none
secret_form_field serverchan k = if str_eq k "send_key" then some server_chan_send_key else none
secret_form_field feishu k =
    if str_eq k "webhook_url"
    then some feishu_webhook_url
    else if str_eq k "secret"
    then some feishu_secret
    else none
secret_form_field wecom k = if str_eq k "webhook_url" then some wecom_webhook_url else none
secret_form_field dingtalk k =
    if str_eq k "webhook_url"
    then some dingtalk_webhook_url
    else if str_eq k "secret"
    then some dingtalk_secret
    else none
secret_form_field pushdeer k = if str_eq k "push_key" then some pushdeer_push_key else none
secret_form_field pushplus k = if str_eq k "token" then some pushplus_token else none
secret_form_field pushover k =
    if str_eq k "token"
    then some pushover_token
    else if str_eq k "user"
    then some pushover_user
    else none
secret_form_field napcat k = if str_eq k "access_token" then some napcat_access_token else none

pub record NotificationChannelFormValues : Type 0 where
  pub smtp_host : String
  pub smtp_port : String
  pub smtp_username : String
  pub smtp_password : String
  pub smtp_from_email : String
  pub smtp_from_name : String
  pub smtp_to_email : String
  pub smtp_encryption : String
  pub api_key : String
  pub from_email : String
  pub resend_to_email : String
  pub bot_token : String
  pub chat_id : String
  pub webhook_url : String
  pub webhook_secret : String
  pub webhook_method : WebhookMethod
  pub webhook_headers : String
  pub pushdeer_push_key : String
  pub pushdeer_server_url : String
  pub pushplus_token : String
  pub pushplus_topic : String
  pub pushplus_endpoint : String
  pub pushplus_template : String
  pub pushplus_channel : String
  pub pushover_token : String
  pub pushover_user : String
  pub pushover_device : String
  pub pushover_priority : String
  pub pushover_sound : String
  pub pushover_endpoint : String
  pub gotify_url : String
  pub gotify_token : String
  pub ntfy_url : String
  pub ntfy_topic : String
  pub ntfy_token : String
  pub ntfy_priority : String
  pub ntfy_tags : String
  pub ntfy_click : String
  pub ntfy_icon : String
  pub bark_url : String
  pub bark_device_key : String
  pub server_chan_send_key : String
  pub feishu_webhook_url : String
  pub feishu_secret : String
  pub wecom_webhook_url : String
  pub dingtalk_webhook_url : String
  pub dingtalk_secret : String
  pub napcat_url : String
  pub napcat_access_token : String
  pub napcat_message_type : String
  pub napcat_user_id : String
  pub napcat_group_id : String

module _ (runtime : Runtime) where
  unfoldable pub normalize_ntfy_priority : Option String → String
  normalize_ntfy_priority none = ""
  normalize_ntfy_priority (some raw) =
      let normalized = runtime.to_lower_case (runtime.trim raw) in
      if str_eq normalized ""
      then ""
      else if str_eq normalized "1"
          || str_eq normalized "2"
          || str_eq normalized "3"
          || str_eq normalized "4"
          || str_eq normalized "5"
      then normalized
      else if str_eq normalized "min"
      then "1"
      else if str_eq normalized "low"
      then "2"
      else if str_eq normalized "default"
      then "3"
      else if str_eq normalized "high"
      then "4"
      else if str_eq normalized "max" || str_eq normalized "urgent"
      then "5"
      else ""

  unfoldable pub parse_webhook_method : String → WebhookMethod
  parse_webhook_method raw =
      let method = runtime.to_upper_case (runtime.trim raw) in
      if str_eq method "GET" then get else if str_eq method "PUT" then put else post

  unfoldable pub is_configured_secret_mask : String → Bool
  is_configured_secret_mask value = str_eq (runtime.trim value) configured_secret_mask

  unfoldable pub sanitize_secret_input : String → String
  sanitize_secret_input value = if is_configured_secret_mask value then "" else value
