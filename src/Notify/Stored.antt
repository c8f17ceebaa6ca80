-- ===== src/Notify/Stored.antt =====
-- A channel whose stored configuration is read into the form and stored again.
use subdux.Base.{String, TextMap, arith, inl, inr, none, ok, refl, some, ◌≡◌, ◌≢◌, ◌⊎◌}
use subdux.Notify.Build.{config_of, int_or}
use subdux.Notify.Fields.{
  ChannelType, Config, NotificationChannel, NotificationChannelFormValues, Runtime, SecretField,
  bark, dingtalk, feishu, gotify, napcat, normalize_ntfy_priority, ntfy, pushdeer, pushover,
  pushplus, resend, secret_form_field, serverchan, smtp, telegram, webhook, wecom,
}
use subdux.Notify.Initial.{create_initial_values, initial_values, member, parse_config}
use subdux.Notify.Lookup.{lookup}
use subdux.Notify.Rebuild.{
  Rebuilds, rebuild-bark, rebuild-dingtalk, rebuild-feishu, rebuild-gotify, rebuild-pushdeer,
  rebuild-resend, rebuild-serverchan, rebuild-smtp, rebuild-telegram, rebuild-wecom,
}
use subdux.Notify.RebuildNtfy.{rebuild-ntfy}
use subdux.Notify.RebuildOptional.{rebuild-napcat, rebuild-pushover, rebuild-pushplus}

-- The values that the form reads back as they are: pushplus has a template, for which the form
-- has a default, the priority of ntfy is one that `normalizeNtfyPriority` keeps, and the port of
-- smtp and the priority of pushover are numbers that `parseInt` reads back from their texts. The
-- headers of a webhook are masked where they are shown, so it is left out.
abbrev pub IsStable : Runtime → ChannelType → NotificationChannelFormValues → Type 0
IsStable runtime pushplus values = runtime.trim (values.pushplus_template) ≢ ""
IsStable runtime ntfy values =
    normalize_ntfy_priority runtime (some (runtime.trim (values.ntfy_priority)))
    ≡ runtime.trim (values.ntfy_priority)
IsStable runtime smtp values =
    runtime.parse_int (int_or runtime "587" (values.smtp_port))
    ≡ int_or runtime "587" (values.smtp_port)
IsStable runtime pushover values =
    runtime.parse_int (int_or runtime "0" (values.pushover_priority))
    ≡ int_or runtime "0" (values.pushover_priority)
IsStable runtime webhook values = ⊥
IsStable runtime kind values = Unit

parse_config-some :
    (runtime : Runtime) (raw : String) (members : TextMap String)
    → runtime.parse_config raw ≡ some members
    → parse_config runtime raw ≡ members
unfolding parse_config
parse_config-some runtime raw members e = rw (parse_config, e) refl

-- What the server shows of a configuration: the same, and blank secrets where the configuration
-- leaves them out.
abbrev pub IsShownOf : ChannelType → TextMap String → Config → Type 0
IsShownOf kind members config =
    (key : String)
    → (members key ≡ lookup config key)
      ⊎ ((members key ≡ some "")
          × (lookup config key ≡ none)
          × ((field : SecretField) × (secret_form_field kind key ≡ some field)))

plain_port : (kind : ChannelType) → secret_form_field kind "port" ≡ none
unfolding secret_form_field
plain_port kind = ground arith

plain_encryption : (kind : ChannelType) → secret_form_field kind "encryption" ≡ none
unfolding secret_form_field
plain_encryption kind = ground arith

plain_template : (kind : ChannelType) → secret_form_field kind "template" ≡ none
unfolding secret_form_field
plain_template kind = ground arith

plain_message_type : (kind : ChannelType) → secret_form_field kind "message_type" ≡ none
unfolding secret_form_field
plain_message_type kind = ground arith

plain_priority : (kind : ChannelType) → secret_form_field kind "priority" ≡ none
unfolding secret_form_field
plain_priority kind = ground arith

module _ (kind : ChannelType) (members : TextMap String) (config : Config)
    (shown_of : IsShownOf kind members config) where
  same_member : (key : String) → member members key "" ≡ member (lookup config) key ""
  same_member key = elim (shown_of key) [
    | inl e ↦ rw (member, e) refl
    | inr (e, n, (field, s)) ↦ rw (member, e, n) refl
  ]

  same_plain : (key : String) → secret_form_field kind key ≡ none → members key ≡ lookup config key
  same_plain key h = elim (shown_of key) [ inl e ↦ e | inr (e, n, (field, s)) ↦ absurd (cc) ]

  same_default :
      (key otherwise : String)
      → secret_form_field kind key ≡ none
      → member members key otherwise ≡ member (lookup config) key otherwise
  same_default key otherwise h = rw (member, same_plain key h) refl

  -- The form reads the same of both.
  same_initial_values :
      (runtime : Runtime) (shown : String)
      → initial_values runtime members shown ≡ initial_values runtime (lookup config) shown
  unfolding initial_values
  same_initial_values runtime shown =
      rw
        (
          same_member "host",
          same_member "username",
          same_member "password",
          same_member "from_email",
          same_member "from_name",
          same_member "to_email",
          same_member "api_key",
          same_member "bot_token",
          same_member "chat_id",
          same_member "url",
          same_member "secret",
          same_member "method",
          same_member "push_key",
          same_member "server_url",
          same_member "token",
          same_member "topic",
          same_member "endpoint",
          same_member "channel",
          same_member "user",
          same_member "device",
          same_member "sound",
          same_member "tags",
          same_member "click",
          same_member "icon",
          same_member "device_key",
          same_member "send_key",
          same_member "webhook_url",
          same_member "access_token",
          same_member "user_id",
          same_member "group_id",
          same_default "port" "587" (plain_port kind),
          same_default "encryption" "starttls" (plain_encryption kind),
          same_default "template" "markdown" (plain_template kind),
          same_default "message_type" "private" (plain_message_type kind),
          same_default "priority" "0" (plain_priority kind),
          same_plain "priority" (plain_priority kind),
        )
        refl

module _ (runtime : Runtime)
    (trim_idempotent : (s : String) → runtime.trim (runtime.trim s) ≡ runtime.trim s)
    (trim_empty : runtime.trim "" ≡ "") where
  rebuild :
      (kind : ChannelType) (values : NotificationChannelFormValues)
      → IsStable runtime kind values
      → Rebuilds runtime trim_idempotent trim_empty kind values
  rebuild smtp values h = rebuild-smtp runtime trim_idempotent trim_empty values h
  rebuild resend values h = rebuild-resend runtime trim_idempotent trim_empty values
  rebuild telegram values h = rebuild-telegram runtime trim_idempotent trim_empty values
  rebuild gotify values h = rebuild-gotify runtime trim_idempotent trim_empty values
  rebuild ntfy values h = rebuild-ntfy runtime trim_idempotent trim_empty values h
  rebuild bark values h = rebuild-bark runtime trim_idempotent trim_empty values
  rebuild serverchan values h = rebuild-serverchan runtime trim_idempotent trim_empty values
  rebuild feishu values h = rebuild-feishu runtime trim_idempotent trim_empty values
  rebuild wecom values h = rebuild-wecom runtime trim_idempotent trim_empty values
  rebuild dingtalk values h = rebuild-dingtalk runtime trim_idempotent trim_empty values
  rebuild pushdeer values h = rebuild-pushdeer runtime trim_idempotent trim_empty values
  rebuild pushplus values h = rebuild-pushplus runtime trim_idempotent trim_empty values h
  rebuild pushover values h = rebuild-pushover runtime trim_idempotent trim_empty values h
  rebuild napcat values h = rebuild-napcat runtime trim_idempotent trim_empty values
  rebuild webhook values h = absurd h

  -- Take a configuration that `buildConfig` makes, and a channel of which the server shows this
  -- configuration, where it may add a blank secret that the configuration leaves out. Opening the
  -- form on that channel and saving it unchanged makes the configuration again, for every type but
  -- webhook; so whatever the server shows, its secrets blank, is sent as it was shown but for blank
  -- optional secrets. Pushplus has to have a template, ntfy a priority in normal form, and the port
  -- of smtp and the priority of pushover have to be read back from their texts. `trim` is taken to be
  -- idempotent and to keep the empty text.
  pub config_of-create_initial_values :
      (kind : ChannelType) (values : NotificationChannelFormValues) (channel : NotificationChannel)
      (config : Config) (members : TextMap String)
      → IsStable runtime kind values
      → config_of runtime kind values ≡ ok config
      → runtime.parse_config (channel.config) ≡ some members
      → IsShownOf kind members config
      → config_of runtime kind (create_initial_values runtime (some channel)) ≡ ok config
  unfolding create_initial_values
  config_of-create_initial_values kind values channel config members h e q shown_of =
      rw (parse_config-some runtime (channel.config) members q) (
        rw (same_initial_values kind members config shown_of runtime _)
          (rebuild kind values h _ config e))
