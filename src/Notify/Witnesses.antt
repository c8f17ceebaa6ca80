-- ===== src/Notify/Witnesses.antt =====
-- Runs of the channel form with a concrete runtime.
use package.text.Mathlib.TextEquality.{eq_iff}
use subdux.Base.{
  All, Bool-cases, String, TextMap, [], arith, if◌then◌else◌, inl, inr, none, ok, refl, some,
  str_eq, subst, true, ◌∷◌, ◌≡◌, ◌⊎◌,
}
use subdux.Notify.Build.{config_of, parse_webhook_headers_input, present, read_headers}
use subdux.Notify.Fields.{
  Config, NotificationChannel, NotificationChannelFormValues, Runtime, SecretField,
  configured_secret_mask, feishu, feishu_secret, gotify, gotify_token, is_configured_secret_mask,
  json_object, normalize_ntfy_priority, sanitize_secret_input, secret_form_field, text, text_value,
}
use subdux.Notify.Headers.{HeadersOutcome, parse_webhook_headers_input-HeadersOutcome}
use subdux.Notify.Initial.{
  add_field, add_fields, create_configured_secret_form_fields, create_initial_values,
  initial_values,
}
use subdux.Notify.Kept.{IsUnmasked}
use subdux.Notify.Lookup.{lookup}
use subdux.Notify.Masks.{config_of-IsUnmasked}
use subdux.Notify.Secrets.{IsConfigured, create_configured_secret_form_fields-IsConfigured}
use subdux.Notify.Stored.{IsShownOf, config_of-create_initial_values}

abbrev gotify_config : Config
gotify_config = ("url", text "https://push") ∷ ("token", text "t") ∷ []

abbrev small : Runtime
small = record {
  trim = λ s. if str_eq s " " then "" else s;
  to_lower_case = λ s. if str_eq s "URGENT" then "urgent" else s;
  to_upper_case = λ s. if str_eq s "get" then "GET" else s;
  parse_int = λ s. if str_eq s "" then "NaN" else s;
  parse_config = λ s.
      if str_eq s "gotify"
      then some (lookup gotify_config)
      else if str_eq s "feishu"
      then some (lookup (("webhook_url", text "") ∷ ("secret", text "") ∷ []))
      else none;
  parse_headers = λ s. some (json_object (("X-Key", text_value "") ∷ []));
  parse_json = λ s.
      some
        (json_object (("X-Key", text_value configured_secret_mask) ∷ ("A", text_value "b") ∷ []));
  stringify = λ config. "gotify";
  stringify_headers = λ kept. "shown";
}

abbrev blank : NotificationChannelFormValues
blank = initial_values small (λ key. none) ""

abbrev masked_values : NotificationChannelFormValues
masked_values = record blank { gotify_url = "https://push"; gotify_token = configured_secret_mask }

abbrev channel : NotificationChannel
channel = record {
  id = 1;
  channel_type = gotify;
  enabled = true;
  config = "gotify";
  configured_secret_fields = some ("token" ∷ "other" ∷ []);
  configured_webhook_header_keys = none;
  created_at = "";
  updated_at = "";
}

trim_idempotent : (s : String) → small.trim (small.trim s) ≡ small.trim s
trim_idempotent s = ground (arith, eq_iff s " ")

config_of-IsUnmasked_example :
    All (IsUnmasked small gotify) (("url", text "https://push") ∷ ("token", text "") ∷ [])
unfolding config_of sanitize_secret_input is_configured_secret_mask initial_values
config_of-IsUnmasked_example =
    config_of-IsUnmasked small trim_idempotent refl gotify masked_values
      (("url", text "https://push") ∷ ("token", text "") ∷ []) refl

-- A feishu channel with both secrets set, of which the server shows blanks.
abbrev feishu_config : Config
feishu_config = ("webhook_url", text "") ∷ []

abbrev feishu_members : TextMap String
feishu_members = lookup (("webhook_url", text "") ∷ ("secret", text "") ∷ [])

feishu-IsShownOf : IsShownOf feishu feishu_members feishu_config
unfolding secret_form_field
feishu-IsShownOf key = elim (Bool-cases (str_eq "secret" key)) [
  | inl e ↦
      let same : "secret" ≡ key = ground (arith, eq_iff "secret" key) in
      subst
        (λ (k : String).
          (feishu_members k ≡ lookup feishu_config k)
          ⊎ ((feishu_members k ≡ some "")
              × (lookup feishu_config k ≡ none)
              × ((field : SecretField) × (secret_form_field feishu k ≡ some field))))
        same (inr (refl, refl, (feishu_secret, refl)))
  | inr e ↦ inl (rw e refl)
]

abbrev feishu_channel : NotificationChannel
feishu_channel = record channel {
  channel_type = feishu;
  config = "feishu";
  configured_secret_fields = some ("secret" ∷ "webhook_url" ∷ []);
}

config_of-create_initial_values_example :
    config_of small feishu (create_initial_values small (some feishu_channel)) ≡ ok feishu_config
unfolding config_of sanitize_secret_input is_configured_secret_mask initial_values present
config_of-create_initial_values_example =
    config_of-create_initial_values small trim_idempotent refl feishu blank feishu_channel
      feishu_config feishu_members tt refl refl feishu-IsShownOf

create_configured_secret_form_fields-IsConfigured_example :
    All (IsConfigured small channel) (create_configured_secret_form_fields (some channel))
create_configured_secret_form_fields-IsConfigured_example =
    create_configured_secret_form_fields-IsConfigured small channel

-- The one field of the token.
token_field : create_configured_secret_form_fields (some channel) ≡ gotify_token ∷ []
unfolding create_configured_secret_form_fields add_fields add_field secret_form_field
token_field = refl

parse_webhook_headers_input-HeadersOutcome_example :
    HeadersOutcome small "{}" (parse_webhook_headers_input small "{}")
parse_webhook_headers_input-HeadersOutcome_example =
    parse_webhook_headers_input-HeadersOutcome small "{}"

-- The masked header is stored blank.
masked_header : parse_webhook_headers_input small "{}" ≡ ok (("X-Key", "") ∷ ("A", "b") ∷ [])
unfolding parse_webhook_headers_input read_headers is_configured_secret_mask
masked_header = refl

urgent : normalize_ntfy_priority small (some "URGENT") ≡ "5"
unfolding normalize_ntfy_priority
urgent = refl
