-- ===== src/Session/Witnesses.antt =====
-- Runs of the session with a concrete environment and server.
use text.Mathlib.TextEquality.{eq_iff}
use subdux.Base.{List, [], arith, concat, false, none, refl, some, true, ◌∷◌, ◌≡◌}
use subdux.Session.Request.{
  RequestInit, accept_refresh, build_headers, can_refresh, default_content_type, fetch, fetch_with,
  finish, handle_unauthorized, no_body, on_response, parse_json, perform_refresh, read_refresh,
  refresh_and_retry, request_once, request_raw, resolve_access_token, send, toast_error,
}
use subdux.Session.Retry.{IsCourse, IsSettled, request_raw-IsCourse}
use subdux.Session.State.{
  Environment, Session, User, access_token_key, active, admin, clear_token, get_token, get_user,
  is_authenticated, reload, remove_local_storage, set_auth, set_token, set_user, truthy,
  write_local_storage,
}
use subdux.Session.Storage.{
  Operation, call, operate, operate_all, reload-set_auth, sign_in, storage-token_absent,
}

abbrev ada : User
ada = record {
  id = 1;
  username = "ada";
  email = "ada@example.org";
  role = admin;
  status = active;
  totp_enabled = false;
}

-- An environment in which ada is the only user.
abbrev plain : Environment
plain = record {
  encode_user = λ u. "{}";
  decode_user = λ text. some (some ada);
  to_lower_case = λ text. text;
  t = λ key. key;
}

abbrev start : Session
start = record {
  cached_access_token = some "old";
  cached_user = none;
  access_token_loaded = true;
  user_loaded = false;
  storage_usable = true;
  storage = λ key. some "left behind";
  toasts = [];
  location = "/";
  sent = [];
  replies =
      some (record { status = 401; content_type = none; body = none })
      ∷ some (record {
        status = 200;
        content_type = some "application/json";
        body =
            some
              (record { access_token = some "new"; token = none; user = some ada; error = none });
      })
      ∷ some (record { status = 204; content_type = none; body = none })
      ∷ [];
}

abbrev get_init : RequestInit
get_init = record { method = "GET"; body = no_body; content_type = none }

abbrev visit : List Operation
visit = sign_in "old" ada ∷ call "/subscriptions" get_init true ∷ []

request_raw-IsCourse_example :
    IsCourse
      (concat "/api" "/subscriptions")
      start
      (request_raw plain "/subscriptions" get_init true start).0
    × IsSettled plain (request_raw plain "/subscriptions" get_init true start)
request_raw-IsCourse_example = request_raw-IsCourse plain "/subscriptions" get_init true start

storage-token_absent_example :
    (operate_all plain visit (reload start)).storage access_token_key ≡ none
unfolding reload operate_all operate set_auth set_user set_token write_local_storage
    remove_local_storage request_raw send build_headers get_token fetch fetch_with on_response
    refresh_and_retry can_refresh handle_unauthorized clear_token toast_error truthy perform_refresh
    read_refresh accept_refresh request_once finish resolve_access_token parse_json
    default_content_type
storage-token_absent_example = storage-token_absent plain visit start refl refl

reload-set_auth_example :
    let t = reload (set_auth plain "new" ada start) in
    ((get_user plain t).1 ≡ some ada) × ((is_authenticated t).1 ≡ false)
reload-set_auth_example =
    reload-set_auth plain "new" ada start refl (ground (arith, eq_iff "{}" "")) refl
