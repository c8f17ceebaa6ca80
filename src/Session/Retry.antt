-- ===== src/Session/Retry.antt =====
-- The course of one `requestRaw` of web/src/lib/api.ts: what it sends and how it ends.
use mathlib.Core.List.{append_assoc}
use subdux.Base.{
  Bool, List, Result, String, [], ap, arith, concat, false, if◌then◌else◌, inl, inr, none, ok, refl,
  subst, throw, true, ◌&&◌, ◌++◌, ◌==◌, ◌∙◌, ◌∷◌, ◌≡◌, ◌≢◌, ◌⊎◌,
}
use subdux.Session.Paths.{
  paths, paths-clear_token, paths-fetch, paths-get_token, paths-perform_refresh, refresh_path,
}
use subdux.Session.Request.{
  ApiError, RequestInit, api_error, bind_result, build_headers, can_refresh, fetch, fetch_with,
  finish, handle_unauthorized, network_error, on_response, perform_refresh, refresh_and_retry,
  request_once, request_raw, send, toast_error,
}
use subdux.Session.State.{
  Environment, Response, Session, clear_token, get_token, remove_local_storage, truthy,
}

-- How a call ends: a response is not a 401; a thrown message is that of an expired session, which
-- is cleared and left for the login page; else the network failed.
abbrev pub IsSettled : Environment → Session × Result ApiError Response → Type 0
IsSettled env (s, ok r) = r.status ≢ 401
IsSettled env (s, throw network_error) = Unit
IsSettled env (s, throw (api_error message)) =
    (message ≡ env.t "common.unauthorized")
    × (s.cached_access_token ≡ none)
    × (s.cached_user ≡ none)
    × (s.location ≡ "/login")

-- What the call sent: the request; then at most one refresh; then the request at most once more.
abbrev pub IsCourse : String → Session → Session → Type 0
IsCourse path s t =
    (paths t ≡ paths s ++ path ∷ [])
    ⊎ (paths t ≡ paths s ++ path ∷ refresh_path ∷ [])
    ⊎ (paths t ≡ paths s ++ path ∷ refresh_path ∷ path ∷ [])

module _ (env : Environment) (path : String) (options : RequestInit) where
  abbrev full_path : String
  full_path = concat "/api" path

  paths-send : (s : Session) → paths (send env path options s).0 ≡ paths s ++ full_path ∷ []
  unfolding send build_headers
  paths-send s =
      paths-fetch full_path _ (get_token s).0 ∙ ap (λ l. l ++ full_path ∷ []) (paths-get_token s)

  send-error :
      (s : Session) (e : ApiError) → (send env path options s).1 ≡ throw e → e ≡ network_error
  unfolding send fetch fetch_with
  send-error s e h = ground arith

  handle_unauthorized-IsSettled :
      (s : Session) → IsSettled env (handle_unauthorized env {A = Response} s)
  unfolding handle_unauthorized toast_error clear_token remove_local_storage
  handle_unauthorized-IsSettled s = ground arith

  paths-handle_unauthorized :
      (s : Session) → paths (handle_unauthorized env {A = Response} s).0 ≡ paths s
  unfolding handle_unauthorized toast_error
  paths-handle_unauthorized s = paths-clear_token s

  -- What is claimed of an exchange that began with the paths `l` sent.
  record Ends (l : List String) (x : Session × Result ApiError Response) : Type 0 where
    pub sent : paths x.0 ≡ l
    pub settled : IsSettled env x

  finish-Ends : (r : Response) (s : Session) → Ends (paths s) (finish env r s)
  unfolding finish
  finish-Ends r s = by_status (r.status == 401) refl
    where
      by_status :
          (b : Bool)
          → (r.status == 401) ≡ b
          → Ends (paths s) (if b then handle_unauthorized env s else (s, ok r))
      by_status true e = record {
        sent = paths-handle_unauthorized s;
        settled = handle_unauthorized-IsSettled s;
      }
      by_status false e = record { sent = refl; settled = ground arith }

  request_once-Ends :
      (s : Session) → Ends (paths s ++ full_path ∷ []) (request_once env path options s)
  unfolding request_once
  request_once-Ends s = by_answer (send env path options s) (paths-send s) (send-error s)
    where
      by_answer :
          (x : Session × Result ApiError Response)
          → paths x.0 ≡ paths s ++ full_path ∷ []
          → ((e : ApiError) → x.1 ≡ throw e → e ≡ network_error)
          → Ends (paths s ++ full_path ∷ []) (bind_result (finish env) x)
      by_answer (s', ok r) p h = subst (λ l. Ends l (finish env r s')) p (finish-Ends r s')
      by_answer (s', throw network_error) p h = record { sent = p; settled = tt }
      by_answer (s', throw (api_error m)) p h = cc (h (api_error m) refl)

  refresh_and_retry-Ends :
      (s : Session)
      → Ends (paths s ++ refresh_path ∷ []) (refresh_and_retry env path options s)
        ⊎ Ends
            ((paths s ++ refresh_path ∷ []) ++ full_path ∷ [])
            (refresh_and_retry env path options s)
  unfolding refresh_and_retry
  refresh_and_retry-Ends s = by_refresh (perform_refresh env s) (paths-perform_refresh env s)
    where
      by_refresh :
          (x : Session × Bool)
          → paths x.0 ≡ paths s ++ refresh_path ∷ []
          → let y : Session × Result ApiError Response =
              if x.1 then request_once env path options x.0 else handle_unauthorized env x.0 in
            Ends (paths s ++ refresh_path ∷ []) y
            ⊎ Ends ((paths s ++ refresh_path ∷ []) ++ full_path ∷ []) y
      by_refresh (s', true) p = inr (
          subst (λ l. Ends (l ++ full_path ∷ []) (request_once env path options s')) p
            (request_once-Ends s'))
      by_refresh (s', false) p = inl (record {
        sent = paths-handle_unauthorized s' ∙ p;
        settled = handle_unauthorized-IsSettled s';
      })

  -- The three ends of a call that began with the paths `l`, its first request among them.
  abbrev EndsOne : List String → Session × Result ApiError Response → Type 0
  EndsOne l x =
      Ends l x
      ⊎ Ends (l ++ refresh_path ∷ []) x
      ⊎ Ends ((l ++ refresh_path ∷ []) ++ full_path ∷ []) x

  on_response-EndsOne :
      (retry had_token : Bool) (r : Response) (s : Session)
      → EndsOne (paths s) (on_response env path options retry had_token r s)
  unfolding on_response
  on_response-EndsOne retry had_token r s =
      by_tests (r.status == 401) (retry && can_refresh path had_token) refl
    where
      again :
          (x : Session × Result ApiError Response)
          → Ends (paths s ++ refresh_path ∷ []) x
            ⊎ Ends ((paths s ++ refresh_path ∷ []) ++ full_path ∷ []) x
          → EndsOne (paths s) x
      again x (inl h) = inr (inl h)
      again x (inr h) = inr (inr h)

      by_tests :
          (b c : Bool)
          → (r.status == 401) ≡ b
          → EndsOne (paths s) (
              if b
              then (if c then refresh_and_retry env path options s else handle_unauthorized env s)
              else (s, ok r))
      by_tests true true e = again _ (refresh_and_retry-Ends s)
      by_tests true false e =
          inl (record {
            sent = paths-handle_unauthorized s;
            settled = handle_unauthorized-IsSettled s;
          })
      by_tests false c e = inl (record { sent = refl; settled = ground arith })

  request_raw-EndsOne :
      (retry : Bool) (s : Session)
      → EndsOne (paths s ++ full_path ∷ []) (request_raw env path options retry s)
  unfolding request_raw
  request_raw-EndsOne retry s =
      by_answer (send env path options (get_token s).0)
        (paths-send (get_token s).0 ∙ ap (λ l. l ++ full_path ∷ []) (paths-get_token s))
        (send-error (get_token s).0)
    where
      by_answer :
          (x : Session × Result ApiError Response)
          → paths x.0 ≡ paths s ++ full_path ∷ []
          → ((e : ApiError) → x.1 ≡ throw e → e ≡ network_error)
          → EndsOne
              (paths s ++ full_path ∷ [])
              (bind_result (on_response env path options retry (truthy (get_token s).1)) x)
      by_answer (s', ok r) p h =
          subst (λ l. EndsOne l (on_response env path options retry (truthy (get_token s).1) r s'))
            p (on_response-EndsOne retry (truthy (get_token s).1) r s')
      by_answer (s', throw network_error) p h = inl (record { sent = p; settled = tt })
      by_answer (s', throw (api_error m)) p h = cc (h (api_error m) refl)

  IsCourse-of :
      (s : Session) (x : Session × Result ApiError Response)
      → EndsOne (paths s ++ full_path ∷ []) x
      → IsCourse full_path s x.0 × IsSettled env x
  IsCourse-of s x (inl h) = (inl h.sent, h.settled)
  IsCourse-of s x (inr (inl h)) =
      (inr (inl (h.sent ∙ append_assoc (paths s) (full_path ∷ []) (refresh_path ∷ []))), h.settled)
  IsCourse-of s x (inr (inr h)) = (
    inr (
        inr (
          h.sent
          ∙ append_assoc (paths s ++ full_path ∷ []) (refresh_path ∷ []) (full_path ∷ [])
          ∙ append_assoc (paths s) (full_path ∷ []) (refresh_path ∷ full_path ∷ []))),
    h.settled,
  )

-- Whatever the server answers, a call sends its request once, or once and a refresh, or once more
-- after a refresh, and nothing else. It returns a response that is no 401; or throws that the
-- session has expired, with token and user cleared and the login page as location; or the network
-- failed.
pub request_raw-IsCourse :
    (env : Environment) (path : String) (options : RequestInit) (retry : Bool) (s : Session)
    → IsCourse (concat "/api" path) s (request_raw env path options retry s).0
      × IsSettled env (request_raw env path options retry s)
request_raw-IsCourse env path options retry s =
    IsCourse-of env path options s _ (request_raw-EndsOne env path options retry s)
