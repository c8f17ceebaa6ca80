-- ===== src/Session/Shared.antt =====
-- `requestRaw` and `refreshSession` of api.ts for several callers at once: each `await` is a step
-- of its own, and `refreshRequest` is the refresh that they share. Callers and refreshes have
-- numbers; the answer of an exchange is none where `fetch` rejects.
use subdux.Base.{
  Bool, List, NumMap, Option, Result, String, [], concat, false, if◌then◌else◌, none, ok, set_num,
  some, throw, true, ℕ, ◌++◌, ◌+◌, ◌==◌, ◌∷◌,
}
use subdux.Session.Request.{
  ApiError, RequestInit, answer, build_headers, can_refresh, handle_unauthorized, network_error,
  read_refresh, refresh_headers,
}
use subdux.Session.State.{Environment, Headers, Response, Session, get_token, truthy}

-- Where a call stands: before it, at its first exchange (with whether it had a token), awaiting a
-- refresh, at its second exchange, or over.
pub data Phase : Type 0 where
  idle : Phase
  first_exchange : (path : String) (options : RequestInit) (had_token : Bool) → Phase
  awaiting : (path : String) (options : RequestInit) (refresh : ℕ) → Phase
  second_exchange : (path : String) (options : RequestInit) → Phase
  over : Result ApiError Response → Phase

-- `outcomes` has what each settled refresh resolved to; `started` counts the refreshes.
pub record Shared : Type 0 where
  pub session : Session
  pub refresh_request : Option ℕ
  pub started : ℕ
  pub outcomes : NumMap Bool
  pub phases : ℕ → Phase

pub data Event : Type 0 where
  called : (caller : ℕ) (path : String) (options : RequestInit) → Event
  answered : (caller : ℕ) (answer : Option Response) → Event
  refreshed : (answer : Option Response) → Event
  resumed : (caller : ℕ) → Event

abbrev pub at_start : Session → Shared
at_start session = record {
  session = session;
  refresh_request = none;
  started = 0;
  outcomes = λ refresh. none;
  phases = λ caller. idle;
}

abbrev pub set_phase : ℕ → Phase → (ℕ → Phase) → ℕ → Phase
set_phase caller phase phases c = if c == caller then phase else phases c

-- A request on its way.
abbrev pub note_sent : String → Session × Headers → Session
note_sent path (s, headers) = record s {
  sent = s.sent ++ record { path = path; headers = headers } ∷ [];
}

unfoldable pub send_again : ℕ → String → RequestInit → Shared → Shared
send_again caller path options s = record s {
  session = note_sent (concat "/api" path) (build_headers options (s.session));
  phases = set_phase caller (second_exchange path options) (s.phases);
}

-- `if (!refreshRequest) { refreshRequest = performRefresh().finally(...) }`, and the await.
unfoldable pub refresh_session : ℕ → String → RequestInit → Shared → Shared
refresh_session caller path options s = elim (s.refresh_request) [
  | some refresh ↦ record s { phases = set_phase caller (awaiting path options refresh) (s.phases) }
  | none ↦ record s {
    session = note_sent "/api/auth/refresh" (s.session, refresh_headers);
    refresh_request = some (s.started);
    started = s.started + 1;
    phases = set_phase caller (awaiting path options (s.started)) (s.phases);
  }
]

module _ (env : Environment) where
  -- The call ends in `handleUnauthorized`.
  unfoldable pub turn_away : ℕ → Shared → Shared
  turn_away caller s =
      let (session, result) = handle_unauthorized env {A = Response} (s.session) in
      record s { session = session; phases = set_phase caller (over result) (s.phases) }

  unfoldable pub call : ℕ → String → RequestInit → Shared → Shared
  call caller path options s =
      let (session, token) = get_token (s.session) in
      record s {
        session = note_sent (concat "/api" path) (build_headers options session);
        phases = set_phase caller (first_exchange path options (truthy token)) (s.phases);
      }

  unfoldable pub answer_first : ℕ → String → RequestInit → Bool → Option Response → Shared → Shared
  answer_first caller path options had_token none s = record s {
    phases = set_phase caller (over (throw network_error)) (s.phases);
  }
  answer_first caller path options had_token (some r) s =
      if r.status == 401
      then (if can_refresh path had_token
          then refresh_session caller path options s
          else turn_away caller s)
      else record s { phases = set_phase caller (over (ok r)) (s.phases) }

  unfoldable pub answer_second : ℕ → Option Response → Shared → Shared
  answer_second caller none s = record s {
    phases = set_phase caller (over (throw network_error)) (s.phases);
  }
  answer_second caller (some r) s =
      if r.status == 401
      then turn_away caller s
      else record s { phases = set_phase caller (over (ok r)) (s.phases) }

  -- What `performRefresh` makes of the answer.
  unfoldable pub refresh_result : Option Response → Session → Session × Bool
  refresh_result none s = (s, false)
  refresh_result (some r) s = read_refresh env r s

  -- The refresh settles, and `finally` clears `refreshRequest`. The source runs these in two
  -- microtasks, which are one step here: a caller that comes between them, and would be told the
  -- result of the refresh that has just settled, is not modelled.
  unfoldable pub settle_refresh : ℕ → Option Response → Shared → Shared
  settle_refresh refresh answer s =
      let (session, restored) = refresh_result answer (s.session) in
      record s {
        session = session;
        refresh_request = none;
        outcomes = set_num refresh (some restored) (s.outcomes);
      }

  unfoldable pub resume : ℕ → String → RequestInit → Option Bool → Shared → Shared
  resume caller path options none s = s
  resume caller path options (some true) s = send_again caller path options s
  resume caller path options (some false) s = turn_away caller s

  abbrev pub after_answer : ℕ → Option Response → Phase → Shared → Shared
  after_answer caller answer (first_exchange path options had_token) s =
      answer_first caller path options had_token answer s
  after_answer caller answer (second_exchange path options) s = answer_second caller answer s
  after_answer caller answer _ s = s

  abbrev pub after_settled : ℕ → Phase → Shared → Shared
  after_settled caller (awaiting path options refresh) s =
      resume caller path options (s.outcomes refresh) s
  after_settled caller _ s = s

  -- An event that cannot happen in a state changes nothing.
  unfoldable pub step : Event → Shared → Shared
  step (called caller path options) s = elim (s.phases caller) [
    | idle ↦ call caller path options s
    | _ ↦ s
  ]
  step (answered caller answer) s = after_answer caller answer (s.phases caller) s
  step (refreshed answer) s = elim (s.refresh_request) [
    | none ↦ s
    | some refresh ↦ settle_refresh refresh answer s
  ]
  step (resumed caller) s = after_settled caller (s.phases caller) s

  unfoldable pub run : List Event → Shared → Shared
  run [] s = s
  run (event ∷ events) s = run events (step event s)
