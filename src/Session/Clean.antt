-- ===== src/Session/Clean.antt =====
-- The stored access token of web/src/lib/api.ts, through each function that touches it.
use text.Mathlib.TextEquality.{eq_iff}
use subdux.Base.{
  Bool, List, Option, Result, String, [], arith, false, if◌then◌else◌, none, ok, some, throw, true,
  ◌∷◌, ◌≡◌, ◌≢◌,
}
use subdux.Session.Request.{
  ApiError, accept_refresh, after_refresh, fetch, fetch_with, is_ok, parse_json, perform_refresh,
  read_refresh, refresh_headers, resolve_access_token,
}
use subdux.Session.State.{
  Environment, Headers, Payload, Response, Session, User, access_token_key, clear_token, get_token,
  remove_local_storage, set_auth, set_token, set_user, truthy, write_local_storage,
}

-- Before the token is first asked for there is none; from then on none is stored.
pub record IsClean (s : Session) : Type 0 where
  pub unloaded : s.access_token_loaded ≡ false → s.cached_access_token ≡ none
  pub unstored :
      s.access_token_loaded ≡ true → s.storage_usable ≡ true → s.storage access_token_key ≡ none

pub keys_differ : ◌≢◌ {A = String} "token" "user"
keys_differ = ground (arith, eq_iff "token" "user")

pub get_token-IsClean : (s : Session) → IsClean s → IsClean (get_token s).0
unfolding get_token remove_local_storage
get_token-IsClean s h = ground (arith, eq_iff "token" "token", h.unstored)

set_token-IsClean : (token : String) (s : Session) → IsClean (set_token token s)
unfolding set_token remove_local_storage
set_token-IsClean token s = ground (arith, eq_iff "token" "token")

pub clear_token-IsClean : (s : Session) → IsClean (clear_token s)
unfolding clear_token remove_local_storage
clear_token-IsClean s = ground (arith, eq_iff "token" "token", eq_iff "token" "user")

set_user-IsClean :
    (env : Environment) (u : User) (s : Session) → IsClean s → IsClean (set_user env u s)
unfolding set_user write_local_storage
set_user-IsClean env u s h =
    ground (arith, eq_iff "token" "user", keys_differ, h.unstored, h.unloaded)

pub set_auth-IsClean :
    (env : Environment) (token : String) (u : User) (s : Session) → IsClean (set_auth env token u s)
unfolding set_auth
set_auth-IsClean env token u s = set_user-IsClean env u _ (set_token-IsClean token s)

-- The state that an outcome leaves is clean.
abbrev pub Clean : Session × Bool → Type 0
Clean x = IsClean x.0

abbrev pub CleanResponse : Session × Result ApiError Response → Type 0
CleanResponse x = IsClean x.0

accept_refresh-IsClean :
    (env : Environment) (o : Option String) (u : Option User) (s : Session)
    → IsClean s
    → IsClean (accept_refresh env o u s).0
unfolding accept_refresh
accept_refresh-IsClean env none u s h = h
accept_refresh-IsClean env (some token) none s h = h
accept_refresh-IsClean env (some token) (some u) s h = by_truth (truthy (some token))
  where
    by_truth : (b : Bool) → Clean (if b then (set_auth env token u s, true) else (s, false))
    by_truth true = set_auth-IsClean env token u s
    by_truth false = h

pub fetch-IsClean :
    (path : String) (headers : Headers) (s : Session) → IsClean s → IsClean (fetch path headers s).0
unfolding fetch
fetch-IsClean path headers s h = by_replies s.replies
  where
    by_replies : (rs : List (Option Response)) → IsClean (fetch_with rs path headers s).0
    by_replies [] = unfold fetch_with in record { unloaded = h.unloaded; unstored = h.unstored }
    by_replies (r ∷ rs) =
        unfold fetch_with in record { unloaded = h.unloaded; unstored = h.unstored }

read_refresh-IsClean :
    (env : Environment) (r : Response) (s : Session) → IsClean s → IsClean (read_refresh env r s).0
unfolding read_refresh
read_refresh-IsClean env r s h = by_status (is_ok r) (parse_json env r)
  where
    by_status :
        (b : Bool) (o : Option Payload)
        → Clean (
            if b
            then elim o [
              | none ↦ (s, false)
              | some p ↦ accept_refresh env (resolve_access_token p) p.user s
            ]
            else (s, false))
    by_status false o = h
    by_status true none = h
    by_status true (some p) = accept_refresh-IsClean env (resolve_access_token p) p.user s h

pub perform_refresh-IsClean :
    (env : Environment) (s : Session) → IsClean s → IsClean (perform_refresh env s).0
unfolding perform_refresh
perform_refresh-IsClean env s h =
    by_answer (fetch "/api/auth/refresh" refresh_headers s) (fetch-IsClean _ _ s h)
  where
    by_answer :
        (x : Session × Result ApiError Response) → IsClean x.0 → IsClean (after_refresh env x).0
    by_answer (s', throw e) k = k
    by_answer (s', ok r) k = read_refresh-IsClean env r s' k
