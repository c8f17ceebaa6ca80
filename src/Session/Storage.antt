-- ===== src/Session/Storage.antt =====
-- The stored access token and user of web/src/lib/api.ts, over whole visits of a page.
use text.Mathlib.TextEquality.{eq_iff}
use subdux.Base.{
  Bool, List, Result, String, [], arith, false, if◌then◌else◌, none, ok, refl, some, throw, true,
  ◌&&◌, ◌==◌, ◌∷◌, ◌≡◌, ◌≢◌,
}
use subdux.Session.Clean.{
  Clean, CleanResponse, IsClean, clear_token-IsClean, fetch-IsClean, get_token-IsClean, keys_differ,
  perform_refresh-IsClean, set_auth-IsClean,
}
use subdux.Session.Request.{
  Api, ApiError, RequestInit, bind_result, build_headers, can_refresh, finish, handle_unauthorized,
  logout, on_response, perform_logout, perform_refresh, refresh_and_retry, request_once,
  request_raw, restore_session, send, toast_error, ◌>>>◌,
}
use subdux.Session.State.{
  Environment, Response, Session, User, access_token_key, clear_token, get_token, get_user,
  is_authenticated, load_user, parse_user, read_local_storage, reload, remove_local_storage,
  set_auth, set_token, set_user, truthy, write_local_storage,
}

-- A call keeps the storage clean.
abbrev KeepsClean : {A : Type 0} → Api A → Type 0
KeepsClean m = (s : Session) → IsClean s → IsClean (m s).0

>>>-KeepsClean :
    {A B : Type 0} (m : Api A) (f : A → Api B)
    → KeepsClean m
    → ((a : A) → KeepsClean (f a))
    → KeepsClean (m >>> f)
>>>-KeepsClean {A} {B} m f hm hf s h = by_result (m s) (hm s h)
  where
    by_result : (x : Session × Result ApiError A) → IsClean x.0 → IsClean (bind_result f x).0
    by_result (s', ok a) k = hf a s' k
    by_result (s', throw e) k = k

module _ (env : Environment) (path : String) (options : RequestInit) where
  handle_unauthorized-KeepsClean : KeepsClean (handle_unauthorized env {A = Response})
  unfolding handle_unauthorized toast_error
  handle_unauthorized-KeepsClean s h =
      let c = clear_token-IsClean s in record { unloaded = c.unloaded; unstored = c.unstored }

  send-KeepsClean : KeepsClean (send env path options)
  unfolding send build_headers
  send-KeepsClean s h = fetch-IsClean _ _ _ (get_token-IsClean s h)

  finish-KeepsClean : (r : Response) → KeepsClean (finish env r)
  unfolding finish
  finish-KeepsClean r s h = by_status (r.status == 401)
    where
      by_status : (b : Bool) → CleanResponse (if b then handle_unauthorized env s else (s, ok r))
      by_status true = handle_unauthorized-KeepsClean s h
      by_status false = h

  refresh_and_retry-KeepsClean : KeepsClean (refresh_and_retry env path options)
  unfolding refresh_and_retry request_once
  refresh_and_retry-KeepsClean s h =
      by_refresh (perform_refresh env s) (perform_refresh-IsClean env s h)
    where
      by_refresh :
          (x : Session × Bool)
          → IsClean x.0
          → CleanResponse (
              if x.1
              then (send env path options >>> finish env) x.0
              else handle_unauthorized env x.0)
      by_refresh (s', true) k =
          >>>-KeepsClean (send env path options) (finish env) send-KeepsClean finish-KeepsClean s' k
      by_refresh (s', false) k = handle_unauthorized-KeepsClean s' k

  on_response-KeepsClean :
      (retry had_token : Bool) (r : Response)
      → KeepsClean (on_response env path options retry had_token r)
  unfolding on_response
  on_response-KeepsClean retry had_token r s h =
      by_tests (r.status == 401) (retry && can_refresh path had_token)
    where
      by_tests :
          (b c : Bool)
          → CleanResponse (
              if b
              then (if c then refresh_and_retry env path options s else handle_unauthorized env s)
              else (s, ok r))
      by_tests true true = refresh_and_retry-KeepsClean s h
      by_tests true false = handle_unauthorized-KeepsClean s h
      by_tests false c = h

  request_raw-KeepsClean : (retry : Bool) → KeepsClean (request_raw env path options retry)
  unfolding request_raw
  request_raw-KeepsClean retry s h =
      let token = (get_token s).1 in
      >>>-KeepsClean (send env path options) (on_response env path options retry (truthy token))
        send-KeepsClean (on_response-KeepsClean retry (truthy token)) (get_token s).0
        (get_token-IsClean s h)

get_user-IsClean : (env : Environment) (s : Session) → IsClean s → IsClean (get_user env s).0
unfolding get_user load_user parse_user remove_local_storage
get_user-IsClean env s h =
    ground (arith, h.unstored, h.unloaded, eq_iff "token" "user", keys_differ)

logout-IsClean : (env : Environment) (s : Session) → IsClean (logout env s).0
unfolding logout
logout-IsClean env s = clear_token-IsClean (perform_logout env s).0

restore_session-IsClean :
    (env : Environment) (s : Session) → IsClean s → IsClean (restore_session env s).0
unfolding restore_session
restore_session-IsClean env s h =
    by_tests (truthy (get_token s).1) (perform_refresh env (get_token s).0)
      (perform_refresh-IsClean env _ (get_token-IsClean s h))
  where
    by_tests :
        (b : Bool) (x : Session × Bool)
        → IsClean x.0
        → Clean (
            if b
            then ((get_token s).0, true)
            else if x.1
            then (x.0, true)
            else (clear_token x.0, false))
    by_tests true x k = get_token-IsClean s h
    by_tests false (s', true) k = k
    by_tests false (s', false) k = clear_token-IsClean s'

-- What the pages do with the session, and a reload of the page.
pub data Operation : Type 0 where
  sign_in : String → User → Operation
  sign_out restore read_user reload_page : Operation
  call : String → RequestInit → Bool → Operation

module _ (env : Environment) where
  unfoldable pub operate : Operation → Session → Session
  operate (sign_in token u) s = set_auth env token u s
  operate sign_out s = (logout env s).0
  operate restore s = (restore_session env s).0
  operate read_user s = (get_user env s).0
  operate reload_page s = reload s
  operate (call path options retry) s = (request_raw env path options retry s).0

  unfoldable pub operate_all : List Operation → Session → Session
  operate_all [] s = s
  operate_all (o ∷ os) s = operate_all os (operate o s)

  operate-IsClean : (o : Operation) (s : Session) → IsClean s → IsClean (operate o s)
  unfolding operate reload
  operate-IsClean (sign_in token u) s h = set_auth-IsClean env token u s
  operate-IsClean sign_out s h = logout-IsClean env s
  operate-IsClean restore s h = restore_session-IsClean env s h
  operate-IsClean read_user s h = get_user-IsClean env s h
  operate-IsClean reload_page s h = record { unloaded = λ e. refl; unstored = λ e. cc }
  operate-IsClean (call path options retry) s h = request_raw-KeepsClean env path options retry s h

  operate_all-IsClean : (os : List Operation) (s : Session) → IsClean s → IsClean (operate_all os s)
  unfolding operate_all
  operate_all-IsClean [] s h = h
  operate_all-IsClean (o ∷ os) s h = operate_all-IsClean os (operate o s) (operate-IsClean o s h)

-- Whatever a page does from its load on (signing in and out, restoring, requests with their
-- refreshes and retries, reloads), and whatever an older version left in the storage: once the
-- token has been asked for or set, no access token stands in a usable storage.
pub storage-token_absent :
    (env : Environment) (os : List Operation) (s : Session)
    → (operate_all env os (reload s)).access_token_loaded ≡ true
    → (operate_all env os (reload s)).storage_usable ≡ true
    → (operate_all env os (reload s)).storage access_token_key ≡ none
unfolding reload
storage-token_absent env os s =
    (operate_all-IsClean env os (reload s)
      (record { unloaded = λ e. refl; unstored = λ e. cc })).unstored

-- After signing in, a reload of the page keeps the user and loses the token, where the storage is
-- usable, the user's JSON is not empty and reads back as that user.
pub reload-set_auth :
    (env : Environment) (token : String) (u : User) (s : Session)
    → env.decode_user (env.encode_user u) ≡ some (some u)
    → env.encode_user u ≢ ""
    → s.storage_usable ≡ true
    → let t = reload (set_auth env token u s) in
      ((get_user env t).1 ≡ some u) × ((is_authenticated t).1 ≡ false)
unfolding reload set_auth set_user set_token write_local_storage remove_local_storage get_user
    load_user read_local_storage parse_user is_authenticated get_token truthy
reload-set_auth env token u s faithful nonempty usable =
    (ground (arith, faithful, eq_iff "user" "user", eq_iff (env.encode_user u) ""), ground arith)
