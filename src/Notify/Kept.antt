-- ===== src/Notify/Kept.antt =====
-- Configurations without a mask, and what is built of them.
use package.text.Mathlib.TextEquality.{eq_iff}
use subdux.Base.{
  All, Bool, Gives, List, Option, Result, String, [], arith, bind-Gives, false, if-Gives,
  if◌then◌else◌, none, ok-Gives, refl, some, str_eq, sym, throw, true, ◌∙◌, ◌∷◌, ◌≡◌, ◌≢◌,
}
use subdux.Notify.Build.{
  parse_webhook_headers_input, present, read_headers, secret, webhook_headers_of,
}
use subdux.Notify.Fields.{
  BuildError, ChannelType, Config, ConfigValue, JsonValue, Members, Runtime, SecretField,
  configured_secret_mask, headers, is_configured_secret_mask, json_object, no_object, number,
  other_value, sanitize_secret_input, secret_form_field, syntax_error, text, text_value, webhook,
  webhook_headers_parse_error,
}
use subdux.Notify.Initial.{set_member}

-- No secret of the configuration, by the table of secret fields, and no header is the mask.
abbrev pub IsUnmasked : Runtime → ChannelType → String × ConfigValue → Type 0
IsUnmasked runtime kind (key, text value) =
    (field : SecretField)
    → secret_form_field kind key ≡ some field
    → runtime.trim value ≢ configured_secret_mask
IsUnmasked runtime kind (key, number value) =
    (field : SecretField) → secret_form_field kind key ≢ some field
IsUnmasked runtime kind (key, headers kept) =
    All (λ h. runtime.trim (h.1) ≢ configured_secret_mask) kept

-- The headers of which none is the mask.
abbrev Unmasked : Runtime → List (String × String) → Type 0
Unmasked runtime kept = All (λ h. runtime.trim (h.1) ≢ configured_secret_mask) kept

-- A configuration built of entries that are no secrets and of unmasked ones.
pub data Kept (runtime : Runtime) (kind : ChannelType) : Config → Type 0 where
  done : Kept runtime kind []
  plain :
      {key value : String} {rest : Config}
      → secret_form_field kind key ≡ none
      → Kept runtime kind rest
      → Kept runtime kind ((key, text value) ∷ rest)
  numeric :
      {key value : String} {rest : Config}
      → secret_form_field kind key ≡ none
      → Kept runtime kind rest
      → Kept runtime kind ((key, number value) ∷ rest)
  hidden :
      {key value : String} {rest : Config}
      → runtime.trim value ≢ configured_secret_mask
      → Kept runtime kind rest
      → Kept runtime kind ((key, text value) ∷ rest)
  kept_headers :
      {key : String} {entries : List (String × String)} {rest : Config}
      → Unmasked runtime entries
      → Kept runtime kind rest
      → Kept runtime kind ((key, headers entries) ∷ rest)

pub Kept-All :
    (runtime : Runtime) (kind : ChannelType) (config : Config)
    → Kept runtime kind config
    → All (IsUnmasked runtime kind) config
Kept-All runtime kind _ done = tt
Kept-All runtime kind _ (plain e h) = ((λ field q. absurd cc), Kept-All runtime kind _ h)
Kept-All runtime kind _ (numeric e h) = ((λ field q. cc), Kept-All runtime kind _ h)
Kept-All runtime kind _ (hidden e h) = ((λ field q. e), Kept-All runtime kind _ h)
Kept-All runtime kind _ (kept_headers e h) = (e, Kept-All runtime kind _ h)

pub present-Kept :
    (runtime : Runtime) (kind : ChannelType) (key value : String) (rest : Config)
    → Kept runtime kind ((key, text value) ∷ [])
    → Kept runtime kind rest
    → Kept runtime kind (present key value rest)
unfolding present
present-Kept runtime kind key value rest h hs = by_test (str_eq value "") h
  where
    by_test :
        (b : Bool)
        → Kept runtime kind ((key, text value) ∷ [])
        → Kept runtime kind (if b then rest else (key, text value) ∷ rest)
    by_test true k = hs
    by_test false (plain e k) = plain e hs
    by_test false (hidden e k) = hidden e hs

module _ (runtime : Runtime)
    (trim_idempotent : (s : String) → runtime.trim (runtime.trim s) ≡ runtime.trim s)
    (trim_empty : runtime.trim "" ≡ "") where
  cleared :
      (b : Bool) (value : String)
      → str_eq (runtime.trim value) configured_secret_mask ≡ b
      → runtime.trim (if b then "" else value) ≢ configured_secret_mask
  cleared true value e h = empty-ne (sym trim_empty ∙ h)
    where
      empty-ne : ◌≢◌ {A = String} "" configured_secret_mask
      empty-ne = ground (arith, eq_iff "" configured_secret_mask)
  cleared false value e h = ground (arith, eq_iff (runtime.trim value) configured_secret_mask)

  pub sanitize-ne :
      (value : String) → runtime.trim (sanitize_secret_input runtime value) ≢ configured_secret_mask
  unfolding sanitize_secret_input is_configured_secret_mask
  sanitize-ne value = cleared (str_eq (runtime.trim value) configured_secret_mask) value refl

  pub secret-ne : (value : String) → runtime.trim (secret runtime value) ≢ configured_secret_mask
  secret-ne value = rw (trim_idempotent (sanitize_secret_input runtime value)) (sanitize-ne value)

  set_member-ne :
      (key value : String) (kept : List (String × String))
      → runtime.trim value ≢ configured_secret_mask
      → All (λ h. runtime.trim (h.1) ≢ configured_secret_mask) kept
      → Unmasked runtime (set_member key value kept)
  set_member-ne key value [] h hs = (h, tt)
  set_member-ne key value (entry ∷ kept) h (k, hs) =
      by_test (str_eq (entry.0) key) (set_member-ne key value kept h hs)
    where
      by_test :
          (b : Bool)
          → Unmasked runtime (set_member key value kept)
          → All
              (λ h. runtime.trim (h.1) ≢ configured_secret_mask)
              (if b then (key, value) ∷ kept else entry ∷ set_member key value kept)
      by_test true r = (h, hs)
      by_test false r = (k, r)

  header-ne :
      (value : String)
      → runtime.trim (if is_configured_secret_mask runtime value then "" else value)
        ≢ configured_secret_mask
  unfolding is_configured_secret_mask
  header-ne value = cleared (str_eq (runtime.trim value) configured_secret_mask) value refl

  read_headers-Gives :
      (members : Members) (kept : List (String × String))
      → Unmasked runtime kept
      → Gives (Unmasked runtime) (read_headers runtime members kept)
  unfolding read_headers
  read_headers-Gives [] kept h = ok-Gives (Unmasked runtime) kept h
  read_headers-Gives ((key, other_value) ∷ members) kept h = λ b q. cc
  read_headers-Gives ((key, text_value value) ∷ members) kept h =
      if-Gives (Unmasked runtime) (str_eq (runtime.trim key) "") (λ e b q. cc)
        (λ e.
          read_headers-Gives members _
            (set_member-ne (runtime.trim key) _ kept (header-ne value) h))

  pub webhook_headers_of-Gives :
      (raw : String) → Gives (Kept runtime webhook) (webhook_headers_of runtime raw)
  unfolding webhook_headers_of parse_webhook_headers_input
  webhook_headers_of-Gives raw =
      if-Gives (Kept runtime webhook) (str_eq (runtime.trim raw) "")
        (λ e. ok-Gives (Kept runtime webhook) [] done)
        (λ e. bind-Gives (Kept runtime webhook) (parse_webhook_headers_input runtime raw) (λ kept q.
          ok-Gives (Kept runtime webhook) (("headers", headers kept) ∷ [])
            (kept_headers (by_json (runtime.parse_json raw) kept q) done)))
    where
      by_json :
          (json : Option JsonValue)
          → Gives
              (Unmasked runtime)
              (elim json as (λ o. Result BuildError (List (String × String))) [
                | none ↦ throw syntax_error
                | some no_object ↦ throw webhook_headers_parse_error
                | some (json_object members) ↦ read_headers runtime members []
              ])
      by_json none = λ b q. cc
      by_json (some no_object) = λ b q. cc
      by_json (some (json_object members)) = read_headers-Gives members [] tt
