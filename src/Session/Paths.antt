-- ===== src/Session/Paths.antt =====
-- The paths that each function of web/src/lib/api.ts sends to, in order.
use subdux.Base.{
  Bool, List, Option, Result, String, [], ap, arith, false, if◌then◌else◌, map, none, ok, refl,
  some, throw, true, ◌++◌, ◌∙◌, ◌∷◌, ◌≡◌,
}
use subdux.Session.Request.{
  ApiError, accept_refresh, after_refresh, fetch, fetch_with, is_ok, parse_json, perform_refresh,
  read_refresh, refresh_headers, resolve_access_token,
}
use subdux.Session.State.{
  Environment, Headers, Payload, Response, Session, User, clear_token, get_token,
  remove_local_storage, set_auth, set_token, set_user, write_local_storage,
}

-- The paths that were sent, in order.
abbrev pub paths : Session → List String
paths s = map (λ x. x.path) s.sent

abbrev pub refresh_path : String
refresh_path = "/api/auth/refresh"

map-append {ℓ} :
    {A B : Type ℓ} (f : A → B) (xs ys : List A) → map f (xs ++ ys) ≡ map f xs ++ map f ys
map-append f [] ys = refl
map-append f (x ∷ xs) ys = ap (◌∷◌ (f x)) (map-append f xs ys)

pub paths-get_token : (s : Session) → paths (get_token s).0 ≡ paths s
unfolding get_token remove_local_storage
paths-get_token s = ground arith

pub paths-fetch :
    (path : String) (headers : Headers) (s : Session)
    → paths (fetch path headers s).0 ≡ paths s ++ path ∷ []
unfolding fetch
paths-fetch path headers s = by_replies s.replies
  where
    by_replies :
        (rs : List (Option Response))
        → paths (fetch_with rs path headers s).0 ≡ paths s ++ path ∷ []
    by_replies [] = unfold fetch_with in map-append (λ x. x.path) s.sent _
    by_replies (r ∷ rs) = unfold fetch_with in map-append (λ x. x.path) s.sent _

pub paths-clear_token : (s : Session) → paths (clear_token s) ≡ paths s
unfolding clear_token remove_local_storage
paths-clear_token s = ground arith

paths-set_auth :
    (env : Environment) (token : String) (u : User) (s : Session)
    → paths (set_auth env token u s) ≡ paths s
unfolding set_auth set_user set_token write_local_storage remove_local_storage
paths-set_auth env token u s = ground arith

paths-accept_refresh :
    (env : Environment) (o : Option String) (u : Option User) (s : Session)
    → paths (accept_refresh env o u s).0 ≡ paths s
unfolding accept_refresh
paths-accept_refresh env none u s = refl
paths-accept_refresh env (some token) none s = refl
paths-accept_refresh env (some token) (some u) s = ground (arith, paths-set_auth env token u s)

abbrev Kept : Session → Session × Bool → Type 0
Kept s x = paths x.0 ≡ paths s

paths-read_refresh :
    (env : Environment) (r : Response) (s : Session) → paths (read_refresh env r s).0 ≡ paths s
unfolding read_refresh
paths-read_refresh env r s = by_tests (is_ok r) (parse_json env r)
  where
    by_tests :
        (b : Bool) (o : Option Payload)
        → Kept s (
            if b
            then elim o [
              | none ↦ (s, false)
              | some p ↦ accept_refresh env (resolve_access_token p) p.user s
            ]
            else (s, false))
    by_tests false o = refl
    by_tests true none = refl
    by_tests true (some p) = paths-accept_refresh env (resolve_access_token p) p.user s

pub paths-perform_refresh :
    (env : Environment) (s : Session)
    → paths (perform_refresh env s).0 ≡ paths s ++ refresh_path ∷ []
unfolding perform_refresh
paths-perform_refresh env s =
    by_answer (fetch refresh_path refresh_headers s) (paths-fetch refresh_path refresh_headers s)
  where
    by_answer :
        (x : Session × Result ApiError Response)
        → paths x.0 ≡ paths s ++ refresh_path ∷ []
        → paths (after_refresh env x).0 ≡ paths s ++ refresh_path ∷ []
    by_answer (s', throw e) h = h
    by_answer (s', ok r) h = paths-read_refresh env r s' ∙ h
