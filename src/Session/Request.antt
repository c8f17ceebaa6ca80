-- ===== src/Session/Request.antt =====
-- `performRefresh`, `requestRaw`, `request` and their callers in api.ts, for one caller at a time:
-- `refreshRequest` is null whenever a call begins, so `refreshSession` is `performRefresh`. Callers
-- that share a refresh are in `Shared`.
use text.Mathlib.Text.{find?}
use subdux.Base.{
  Bool, List, Option, Result, String, [], concat, false, if◌then◌else◌, leb, ltb, none, not, ok,
  some, str_eq, throw, true, ◌&&◌, ◌++◌, ◌==◌, ◌∷◌,
}
use subdux.Session.State.{
  Environment, Headers, Payload, Response, Session, User, clear_token, get_token, set_auth, truthy,
}

pub data Body : Type 0 where
  no_body : Body
  json form : String → Body

pub record RequestInit : Type 0 where
  pub method : String
  pub body : Body
  pub content_type : Option String

-- The source's exceptions: a `fetch` that rejects, and an `Error` with a message.
pub data ApiError : Type 0 where
  network_error : ApiError
  api_error : String → ApiError

abbrev pub Api : Type 0 → Type 0
Api A = Session → Session × Result ApiError A

-- What follows a call runs only where the call did not throw.
abbrev pub bind_result :
    {A B : Type 0} → (A → Api B) → Session × Result ApiError A → Session × Result ApiError B
bind_result f (s, ok a) = f a s
bind_result f (s, throw e) = (s, throw e)

infixl 5 ◌>>>◌
abbrev pub ◌>>>◌ : {A B : Type 0} → Api A → (A → Api B) → Api B
◌>>>◌ m f s = bind_result f (m s)

-- `fetch` sends the request and takes the server's next answer; none is left where it rejects.
abbrev pub answer : Option Response → Result ApiError Response
answer none = throw network_error
answer (some r) = ok r

unfoldable pub fetch_with : List (Option Response) → String → Headers → Api Response
fetch_with [] path headers s = (
  record s { sent = s.sent ++ record { path = path; headers = headers } ∷ [] },
  throw network_error,
)
fetch_with (r ∷ rs) path headers s = (
  record s { sent = s.sent ++ record { path = path; headers = headers } ∷ []; replies = rs },
  answer r,
)

unfoldable pub fetch : String → Headers → Api Response
fetch path headers s = fetch_with s.replies path headers s

abbrev pub is_ok : Response → Bool
is_ok r = leb 200 r.status && ltb r.status 300

-- The keys of BACKEND_ERROR_TRANSLATIONS.
unfoldable pub backend_error_translation : String → Option String
backend_error_translation error =
    if str_eq error "you can enable at most 3 notification channels"
    then some "common.backendErrors.maxNotificationChannels"
    else if str_eq error "smtp send rate limit exceeded, please wait before trying again"
    then some "common.backendErrors.smtpRateLimited"
    else if str_eq error "re-authentication required"
    then some "common.backendErrors.reauthRequired"
    else if str_eq error "no passkey registered for this account"
    then some "common.backendErrors.noPasskeyRegistered"
    else none

-- The content type that a body without one is given.
unfoldable pub default_content_type : RequestInit → Option String
default_content_type options = elim options.body [
  | no_body ↦ options.content_type
  | form f ↦ options.content_type
  | json j ↦ elim options.content_type [ none ↦ some "application/json" | some c ↦ some c ]
]

abbrev pub authorization_of : Option String → Option String
authorization_of none = none
authorization_of (some t) = if truthy (some t) then some (concat "Bearer " t) else none

-- `buildHeaders`, which reads the token anew.
unfoldable pub build_headers : RequestInit → Session → Session × Headers
build_headers options s =
    let (s', token) = get_token s in
    (
      s',
      record {
        content_type = default_content_type options;
        authorization = authorization_of token;
      },
    )

unfoldable pub resolve_access_token : Payload → Option String
resolve_access_token p = elim p.access_token [ some a ↦ some a | none ↦ p.token ]

unfoldable pub can_refresh : String → Bool → Bool
can_refresh path has_access_token = has_access_token && not (str_eq path "/auth/refresh")

abbrev pub or_empty : Option String → String
or_empty none = ""
or_empty (some s) = s

abbrev pub contains : String → String → Bool
contains s part = elim (find? s part) [ none ↦ false | some i ↦ true ]

abbrev pub refresh_headers : Headers
refresh_headers = record { content_type = some "application/json"; authorization = none }

module _ (env : Environment) where
  -- `parseJSON`: the body counts only under a JSON content type.
  unfoldable pub parse_json : Response → Option Payload
  parse_json r =
      if contains (env.to_lower_case (or_empty r.content_type)) "application/json"
      then r.body
      else none

  unfoldable pub localize_backend_error : Option String → String
  localize_backend_error none = env.t "common.requestFailed"
  localize_backend_error (some error) =
      if str_eq error ""
      then env.t "common.requestFailed"
      else elim (backend_error_translation error) [ some key ↦ env.t key | none ↦ error ]

  unfoldable pub toast_error : String → Session → Session
  toast_error message s = record s { toasts = s.toasts ++ message ∷ [] }

  unfoldable pub handle_unauthorized : {A : Type 0} → Api A
  handle_unauthorized s = (
    record (toast_error (env.t "common.unauthorized") (clear_token s)) { location = "/login" },
    throw (api_error (env.t "common.unauthorized")),
  )

  -- The token and the user of a refresh's answer, where it has both.
  unfoldable pub accept_refresh : Option String → Option User → Session → Session × Bool
  accept_refresh (some token) (some u) s =
      if truthy (some token) then (set_auth env token u s, true) else (s, false)
  accept_refresh _ _ s = (s, false)

  unfoldable pub read_refresh : Response → Session → Session × Bool
  read_refresh r s =
      if is_ok r
      then elim (parse_json r) [
        | none ↦ (s, false)
        | some p ↦ accept_refresh (resolve_access_token p) p.user s
      ]
      else (s, false)

  abbrev pub after_refresh : Session × Result ApiError Response → Session × Bool
  after_refresh (s, throw e) = (s, false)
  after_refresh (s, ok r) = read_refresh r s

  unfoldable pub perform_refresh : Session → Session × Bool
  perform_refresh s = after_refresh (fetch "/api/auth/refresh" refresh_headers s)

  -- One exchange: the token that is seen first, the headers, the answer.
  unfoldable pub send : String → RequestInit → Api Response
  send path options s =
      let (s', headers) = build_headers options s in fetch (concat "/api" path) headers s'

  -- The second call of `requestRaw`, with `retryOnUnauthorized` false.
  unfoldable pub finish : Response → Api Response
  finish r s = if r.status == 401 then handle_unauthorized s else (s, ok r)

  unfoldable pub request_once : String → RequestInit → Api Response
  request_once path options = send path options >>> finish

  unfoldable pub refresh_and_retry : String → RequestInit → Api Response
  refresh_and_retry path options s =
      let (s', restored) = perform_refresh s in
      if restored then request_once path options s' else handle_unauthorized s'

  unfoldable pub on_response : String → RequestInit → Bool → Bool → Response → Api Response
  on_response path options retry had_token r s =
      if r.status == 401
      then (if retry && can_refresh path had_token
          then refresh_and_retry path options s
          else handle_unauthorized s)
      else (s, ok r)

  unfoldable pub request_raw : String → RequestInit → Bool → Api Response
  request_raw path options retry s =
      let (s', token) = get_token s in
      (send path options >>> on_response path options retry (truthy token)) s'

  unfoldable pub fail_with : {A : Type 0} → String → Api A
  fail_with message s = (toast_error message s, throw (api_error message))

  abbrev pub error_of : Option Payload → Option String
  error_of none = none
  error_of (some p) = p.error

  -- The part of `request` and `uploadFile` after the answer; none is `undefined`, for status 204.
  unfoldable pub read_response : Response → Api (Option Payload)
  read_response r s =
      if r.status == 204
      then (s, ok none)
      else if is_ok r
      then elim (parse_json r) [
        | none ↦ fail_with (env.t "common.requestFailed") s
        | some p ↦ (s, ok (some p))
      ]
      else fail_with (localize_backend_error (error_of (parse_json r))) s

  unfoldable pub request : String → RequestInit → Bool → Api (Option Payload)
  request path options retry = request_raw path options retry >>> read_response

  unfoldable pub restore_session : Session → Session × Bool
  restore_session s =
      let (s', token) = get_token s in
      let (s'', restored) = perform_refresh s' in
      if truthy token
      then (s', true)
      else if restored
      then (s'', true)
      else (clear_token s'', false)

  -- `performLogout`: a rejected fetch and a refusal throw.
  unfoldable pub read_logout : Response → Api (Unit {0})
  read_logout r s =
      if r.status == 204
      then (s, ok tt)
      else if is_ok r
      then (s, ok tt)
      else (s, throw (api_error (localize_backend_error (error_of (parse_json r)))))

  unfoldable pub perform_logout : Api (Unit {0})
  perform_logout = fetch "/api/auth/refresh/logout" refresh_headers >>> read_logout

  -- `finally` clears the session either way.
  unfoldable pub logout : Api (Unit {0})
  logout s = let (s', r) = perform_logout s in (clear_token s', r)

  -- `api.get`, `api.post`, `api.put` and `api.delete`; a body is the text of its JSON.
  unfoldable pub api_get : String → Api (Option Payload)
  api_get path = request path (record { method = "GET"; body = no_body; content_type = none }) true

  unfoldable pub api_post : String → String → Api (Option Payload)
  api_post path text =
      request path (record { method = "POST"; body = json text; content_type = none }) true

  unfoldable pub api_put : String → String → Api (Option Payload)
  api_put path text =
      request path (record { method = "PUT"; body = json text; content_type = none }) true

  unfoldable pub api_delete : String → Api (Option Payload)
  api_delete path =
      request path (record { method = "DELETE"; body = no_body; content_type = none }) true

  unfoldable pub upload_file : String → String → Bool → Api (Option Payload)
  upload_file path form_data retry =
      request_raw path (record { method = "POST"; body = form form_data; content_type = none })
        retry
      >>> read_response
