-- ===== src/Notify/Headers.antt =====
-- The headers of a webhook as the form takes them: `parseWebhookHeadersInput`.
use package.text.Mathlib.TextEquality.{eq_iff}
use subdux.Base.{
  All, Bool, List, Option, Result, String, [], any, arith, false, if◌then◌else◌, none, ok, refl,
  some, str_eq, throw, true, ◌||◌, ◌∷◌, ◌≡◌, ◌≢◌,
}
use subdux.Notify.Build.{parse_webhook_headers_input, read_headers}
use subdux.Notify.Fields.{
  BuildError, JsonValue, MemberValue, Members, Runtime, is_configured_secret_mask, json_object,
  no_object, other_value, syntax_error, text_value, webhook_headers_parse_error,
}
use subdux.Notify.Initial.{set_member}

module _ (runtime : Runtime) where
  -- An entry that is no header: a blank name, or a value that is no text.
  unfoldable pub is_bad_header : String × MemberValue → Bool
  is_bad_header (key, text_value value) = str_eq (runtime.trim key) ""
  is_bad_header (key, other_value) = true

  abbrev pub AreNamed : List (String × String) → Type 0
  AreNamed kept = All (λ h. h.0 ≢ "") kept

  -- The input's fate by what it parses to.
  pub data HeadersOutcome (raw : String) : Result BuildError (List (String × String)) → Type 0 where
    not_json : runtime.parse_json raw ≡ none → HeadersOutcome raw (throw syntax_error)
    no_headers :
        runtime.parse_json raw ≡ some no_object
        → HeadersOutcome raw (throw webhook_headers_parse_error)
    bad_header :
        {members : Members}
        → runtime.parse_json raw ≡ some (json_object members)
        → any is_bad_header members ≡ true
        → HeadersOutcome raw (throw webhook_headers_parse_error)
    good_headers :
        {members : Members} {kept : List (String × String)}
        → runtime.parse_json raw ≡ some (json_object members)
        → any is_bad_header members ≡ false
        → AreNamed kept
        → HeadersOutcome raw (ok kept)

  set_member-AreNamed :
      (key value : String) (kept : List (String × String))
      → key ≢ ""
      → AreNamed kept
      → AreNamed (set_member key value kept)
  set_member-AreNamed key value [] h hs = (h, tt)
  set_member-AreNamed key value (entry ∷ kept) h (k, hs) =
      by_test (str_eq (entry.0) key) (set_member-AreNamed key value kept h hs)
    where
      by_test :
          (b : Bool)
          → AreNamed (set_member key value kept)
          → AreNamed (if b then (key, value) ∷ kept else entry ∷ set_member key value kept)
      by_test true r = (h, hs)
      by_test false r = (k, r)

  bad-throws :
      (members : Members) (kept : List (String × String))
      → any is_bad_header members ≡ true
      → read_headers runtime members kept ≡ throw webhook_headers_parse_error
  unfolding read_headers is_bad_header
  bad-throws [] kept e = absurd cc
  bad-throws ((key, other_value) ∷ members) kept e = refl
  bad-throws ((key, text_value value) ∷ members) kept e = by_test (str_eq (runtime.trim key) "") e (
      bad-throws members (
        set_member (runtime.trim key)
          (if is_configured_secret_mask runtime value then "" else value) kept))
    where
      by_test :
          (b : Bool)
          → b || any is_bad_header members ≡ true
          → (any is_bad_header members ≡ true
              → read_headers runtime members (
                  set_member
                    (runtime.trim key)
                    (if is_configured_secret_mask runtime value then "" else value)
                    kept)
                ≡ throw webhook_headers_parse_error)
          → (if b
              then throw webhook_headers_parse_error
              else read_headers runtime members (
                  set_member
                    (runtime.trim key)
                    (if is_configured_secret_mask runtime value then "" else value)
                    kept))
            ≡ throw webhook_headers_parse_error
      by_test true q r = refl
      by_test false q r = r q

  good-IsOk :
      (members : Members) (kept : List (String × String))
      → any is_bad_header members ≡ false
      → AreNamed kept
      → (after : List (String × String)) × (read_headers runtime members kept ≡ ok after)
        × AreNamed after
  unfolding read_headers is_bad_header
  good-IsOk [] kept e h = (kept, refl, h)
  good-IsOk ((key, other_value) ∷ members) kept e h = absurd cc
  good-IsOk ((key, text_value value) ∷ members) kept e h =
      let name : str_eq (runtime.trim key) "" ≡ false = ground (arith, e) in
      let others : any is_bad_header members ≡ false = ground (arith, e) in
      let named : runtime.trim key ≢ "" = ground (arith, name, eq_iff (runtime.trim key) "") in
      rw name (good-IsOk members _ others (set_member-AreNamed (runtime.trim key) _ kept named h))

  -- `parseWebhookHeadersInput` throws a syntax error for a text that is no JSON, and its own error
  -- for JSON that is no object and for an object with a blank name or with a value that is no text;
  -- any other object gives headers, whose names are not empty.
  pub parse_webhook_headers_input-HeadersOutcome :
      (raw : String) → HeadersOutcome raw (parse_webhook_headers_input runtime raw)
  unfolding parse_webhook_headers_input
  parse_webhook_headers_input-HeadersOutcome raw = by_json (runtime.parse_json raw) refl
    where
      by_json :
          (json : Option JsonValue)
          → runtime.parse_json raw ≡ json
          → HeadersOutcome raw (elim json as (λ o. Result BuildError (List (String × String))) [
            | none ↦ throw syntax_error
            | some no_object ↦ throw webhook_headers_parse_error
            | some (json_object members) ↦ read_headers runtime members []
          ])
      by_json none e = not_json e
      by_json (some no_object) e = no_headers e
      by_json (some (json_object members)) e = by_bad (any is_bad_header members) refl
        where
          by_bad :
              (b : Bool)
              → any is_bad_header members ≡ b
              → HeadersOutcome raw (read_headers runtime members [])
          by_bad true q = rw (bad-throws members [] q) (bad_header e q)
          by_bad false q =
              let (after, r, named) = good-IsOk members [] q tt in rw r (good_headers e q named)
