-- ===== src/Notify/Secrets.antt =====
-- The form fields that a channel's configured secrets belong to.
use package.text.Mathlib.TextEquality.{eq_iff}
use subdux.Base.{
  All, Bool, List, Option, String, TextMap, [], arith, false, if◌then◌else◌, none, refl, some,
  str_eq, subst, sym, true, ◌==◌, ◌∷◌, ◌≡◌,
}
use subdux.Notify.Fields.{
  ChannelType, NotificationChannel, NotificationChannelFormValues, Runtime, SecretField, api_key,
  bark, bark_device_key, bot_token, dingtalk, dingtalk_secret, dingtalk_webhook_url, feishu,
  feishu_secret, feishu_webhook_url, gotify, gotify_token, napcat, napcat_access_token, ntfy,
  ntfy_token, pushdeer, pushdeer_push_key, pushover, pushover_token, pushover_user, pushplus,
  pushplus_token, resend, secret_form_field, server_chan_send_key, serverchan, smtp, smtp_password,
  telegram, webhook, webhook_secret, wecom, wecom_webhook_url,
}
use subdux.Notify.Initial.{
  add_field, add_fields, create_configured_secret_form_fields, create_initial_values, field_index,
  includes, initial_values, member, or_empty, parse_config,
}

-- `values[field]`.
unfoldable pub field_value : SecretField → NotificationChannelFormValues → String
field_value smtp_password values = values.smtp_password
field_value api_key values = values.api_key
field_value bot_token values = values.bot_token
field_value webhook_secret values = values.webhook_secret
field_value gotify_token values = values.gotify_token
field_value ntfy_token values = values.ntfy_token
field_value bark_device_key values = values.bark_device_key
field_value server_chan_send_key values = values.server_chan_send_key
field_value feishu_webhook_url values = values.feishu_webhook_url
field_value feishu_secret values = values.feishu_secret
field_value wecom_webhook_url values = values.wecom_webhook_url
field_value dingtalk_webhook_url values = values.dingtalk_webhook_url
field_value dingtalk_secret values = values.dingtalk_secret
field_value pushdeer_push_key values = values.pushdeer_push_key
field_value pushplus_token values = values.pushplus_token
field_value pushover_token values = values.pushover_token
field_value pushover_user values = values.pushover_user
field_value napcat_access_token values = values.napcat_access_token

module _ (runtime : Runtime) (members : TextMap String) (shown : String) (key : String)
    (field : SecretField) where
  -- The form shows under `field` what the configuration holds under `key`.
  abbrev IsShown : Type 0
  IsShown = field_value field (initial_values runtime members shown) ≡ member members key ""

  key-IsShown :
      (k : String) (f : SecretField) (others : Option SecretField)
      → field_value f (initial_values runtime members shown) ≡ member members k ""
      → (others ≡ some field → IsShown)
      → (if str_eq key k then some f else others) ≡ some field
      → IsShown
  key-IsShown k f others here_shown there_shown = by_test (str_eq key k) refl
    where
      by_test :
          (b : Bool) → str_eq key k ≡ b → (if b then some f else others) ≡ some field → IsShown
      by_test true e q =
          subst
            (λ x. field_value field (initial_values runtime members shown) ≡ member members x "")
            (sym (by_key e))
            (subst (λ x. field_value x (initial_values runtime members shown) ≡ member members k "")
              (by_field q) here_shown)
        where
          by_key : str_eq key k ≡ true → key ≡ k
          by_key h = (eq_iff key k).0 h

          by_field : ◌≡◌ {A = Option SecretField} (some f) (some field) → f ≡ field
          by_field h = cc
      by_test false e q = there_shown q

  secret_form_field-IsShown :
      (kind : ChannelType) → secret_form_field kind key ≡ some field → IsShown
  unfolding secret_form_field field_value initial_values
  secret_form_field-IsShown smtp = key-IsShown "password" smtp_password none refl (λ e. absurd cc)
  secret_form_field-IsShown resend = key-IsShown "api_key" api_key none refl (λ e. absurd cc)
  secret_form_field-IsShown telegram = key-IsShown "bot_token" bot_token none refl (λ e. absurd cc)
  secret_form_field-IsShown webhook = key-IsShown "secret" webhook_secret none refl (λ e. absurd cc)
  secret_form_field-IsShown gotify = key-IsShown "token" gotify_token none refl (λ e. absurd cc)
  secret_form_field-IsShown ntfy = key-IsShown "token" ntfy_token none refl (λ e. absurd cc)
  secret_form_field-IsShown bark =
      key-IsShown "device_key" bark_device_key none refl (λ e. absurd cc)
  secret_form_field-IsShown serverchan =
      key-IsShown "send_key" server_chan_send_key none refl (λ e. absurd cc)
  secret_form_field-IsShown feishu =
      key-IsShown "webhook_url" feishu_webhook_url
        (if str_eq key "secret" then some feishu_secret else none) refl
        (key-IsShown "secret" feishu_secret none refl (λ e. absurd cc))
  secret_form_field-IsShown wecom =
      key-IsShown "webhook_url" wecom_webhook_url none refl (λ e. absurd cc)
  secret_form_field-IsShown dingtalk =
      key-IsShown "webhook_url" dingtalk_webhook_url
        (if str_eq key "secret" then some dingtalk_secret else none) refl
        (key-IsShown "secret" dingtalk_secret none refl (λ e. absurd cc))
  secret_form_field-IsShown pushdeer =
      key-IsShown "push_key" pushdeer_push_key none refl (λ e. absurd cc)
  secret_form_field-IsShown pushplus = key-IsShown "token" pushplus_token none refl (λ e. absurd cc)
  secret_form_field-IsShown pushover =
      key-IsShown "token" pushover_token (if str_eq key "user" then some pushover_user else none)
        refl (key-IsShown "user" pushover_user none refl (λ e. absurd cc))
  secret_form_field-IsShown napcat =
      key-IsShown "access_token" napcat_access_token none refl (λ e. absurd cc)

module _ (runtime : Runtime) (channel : NotificationChannel) where
  -- The value of `field` in the form is the channel's, under a key that the channel names as
  -- configured.
  abbrev pub IsConfigured : SecretField → Type 0
  IsConfigured field =
      (key : String) × (includes (or_empty (channel.configured_secret_fields)) key ≡ true)
      × (field_value field (create_initial_values runtime (some channel))
          ≡ member (parse_config runtime (channel.config)) key "")

  add_field-All :
      (field : SecretField) (fields : List SecretField)
      → IsConfigured field
      → All IsConfigured fields
      → All IsConfigured (add_field field fields)
  unfolding add_field
  add_field-All field [] h hs = (h, tt)
  add_field-All field (f ∷ fields) h (k, hs) =
      by_test (field_index f == field_index field) (add_field-All field fields h hs)
    where
      by_test :
          (b : Bool)
          → All IsConfigured (add_field field fields)
          → All IsConfigured (if b then f ∷ fields else f ∷ add_field field fields)
      by_test true r = (k, hs)
      by_test false r = (k, r)

  add_fields-All :
      (keys : List String) (fields : List SecretField)
      → ((key : String)
          → includes keys key ≡ true
          → includes (or_empty (channel.configured_secret_fields)) key ≡ true)
      → All IsConfigured fields
      → All IsConfigured (add_fields (channel.channel_type) keys fields)
  unfolding add_fields create_initial_values
  add_fields-All [] fields sub hs = hs
  add_fields-All (key ∷ keys) fields sub hs =
      add_fields-All keys _ (λ k e. sub k (ground (arith, e)))
        (by_field (secret_form_field (channel.channel_type) key) refl)
    where
      by_field :
          (o : Option SecretField)
          → secret_form_field (channel.channel_type) key ≡ o
          → All IsConfigured (elim o as (λ x. List SecretField) [
            | none ↦ fields
            | some field ↦ add_field field fields
          ])
      by_field none e = hs
      by_field (some field) e =
          add_field-All field fields
            (
              key,
              sub key (ground (arith, eq_iff key key)),
              secret_form_field-IsShown runtime _ _ key field (channel.channel_type) e,
            )
            hs

  -- Every field that `createConfiguredSecretFormFields` gives for a channel belongs to one of the
  -- channel's configured secrets: `createInitialValues` fills it with what the channel's
  -- configuration holds under that secret's key, the empty text where it holds nothing.
  pub create_configured_secret_form_fields-IsConfigured :
      All IsConfigured (create_configured_secret_form_fields (some channel))
  unfolding create_configured_secret_form_fields
  create_configured_secret_form_fields-IsConfigured =
      add_fields-All (or_empty (channel.configured_secret_fields)) [] (λ key e. e) tt
