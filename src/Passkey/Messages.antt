-- ===== src/Passkey/Messages.antt =====
-- web/src/lib/passkey-error.ts: what the user reads of a ceremony that failed.
use text.Mathlib.Text.{find?}
use subdux.Base.{Bool, Option, String, false, if◌then◌else◌, none, some, str_eq, true, ◌||◌}

-- An exception as the code looks at it: its name, where it is an object that has one, and its
-- message, where it is an `Error`, as a `DOMException` is too.
pub record Thrown : Type 0 where
  pub name : Option String
  pub message : Option String

abbrev includes : String → String → Bool
includes s part = elim (find? s part) [ none ↦ false | some i ↦ true ]

unfoldable pub get_error_name : Thrown → String
get_error_name error = elim (error.name) [ none ↦ "" | some name ↦ name ]

unfoldable pub key_of_name : String → Option String
key_of_name name =
    if str_eq name "NotAllowedError"
    then some "common.passkeyErrors.notAllowed"
    else if str_eq name "NotSupportedError"
    then some "common.passkeyErrors.notSupported"
    else if str_eq name "InvalidStateError"
    then some "common.passkeyErrors.invalidState"
    else if str_eq name "SecurityError"
    then some "common.passkeyErrors.security"
    else if str_eq name "AbortError"
    then some "common.passkeyErrors.aborted"
    else if str_eq name "NotFoundError"
    then some "common.passkeyErrors.notFound"
    else none

-- `trim` and `toLowerCase` are JavaScript's.
module _ (trim to_lower_case : String → String) where
  unfoldable pub get_passkey_error_key : Thrown → Option String
  get_passkey_error_key error = elim (key_of_name (get_error_name error)) [
    | some key ↦ some key
    | none ↦ elim (error.message) [
      | none ↦ none
      | some message ↦
          if includes (to_lower_case message) "timed out or was not allowed"
            || includes (to_lower_case message) "notallowederror"
          then some "common.passkeyErrors.notAllowed"
          else none
    ]
  ]

  unfoldable pub get_passkey_error_message : (String → String) → String → Thrown → String
  get_passkey_error_message t fallback_key error = elim (get_passkey_error_key error) [
    | some key ↦ t key
    | none ↦ elim (error.message) [
      | none ↦ t fallback_key
      | some message ↦ if str_eq (trim message) "" then t fallback_key else message
    ]
  ]
