-- ===== src/Session/Moves.antt =====
-- What one event does to the refresh that callers share and to who waits for it.
use subdux.Base.{
  Bool, Option, Result, String, false, if◌then◌else◌, none, ok, refl, set_num, some, throw, true, ℕ,
  ◌+◌, ◌==◌, ◌≡◌,
}
use subdux.Session.Request.{
  ApiError, RequestInit, answer, can_refresh, network_error, refresh_headers,
}
use subdux.Session.Shared.{
  Event, Phase, Shared, after_answer, after_settled, answer_first, answer_second, answered,
  awaiting, call, called, first_exchange, idle, note_sent, over, refresh_session, refreshed, resume,
  resumed, second_exchange, send_again, set_phase, settle_refresh, step, turn_away,
}
use subdux.Session.State.{Environment, Response, get_token, truthy}

-- The refresh that a call awaits.
unfoldable pub waits_for : Phase → Option ℕ
waits_for (awaiting path options refresh) = some refresh
waits_for idle = none
waits_for (first_exchange path options had_token) = none
waits_for (second_exchange path options) = none
waits_for (over result) = none

-- Everything but the phases is as before.
pub record SameRefresh (s t : Shared) : Type 0 where
  pub same_request : t.refresh_request ≡ s.refresh_request
  pub same_started : t.started ≡ s.started
  pub same_outcomes : t.outcomes ≡ s.outcomes

pub data Move (s t : Shared) : Type 0 where
  nothing : t ≡ s → Move s t
  proceeds :
      (caller : ℕ) (phase : Phase)
      → waits_for (s.phases caller) ≡ none
      → waits_for phase ≡ none
      → SameRefresh s t
      → t.phases ≡ set_phase caller phase (s.phases)
      → Move s t
  leaves :
      (caller refresh : ℕ) (restored : Bool) (phase : Phase)
      → waits_for (s.phases caller) ≡ some refresh
      → s.outcomes refresh ≡ some restored
      → waits_for phase ≡ none
      → SameRefresh s t
      → t.phases ≡ set_phase caller phase (s.phases)
      → Move s t
  joins :
      (caller refresh : ℕ) (phase : Phase)
      → waits_for (s.phases caller) ≡ none
      → s.refresh_request ≡ some refresh
      → waits_for phase ≡ some refresh
      → SameRefresh s t
      → t.phases ≡ set_phase caller phase (s.phases)
      → Move s t
  starts :
      (caller : ℕ) (phase : Phase)
      → waits_for (s.phases caller) ≡ none
      → s.refresh_request ≡ none
      → t.refresh_request ≡ some (s.started)
      → t.started ≡ s.started + 1
      → t.outcomes ≡ s.outcomes
      → waits_for phase ≡ some (s.started)
      → t.phases ≡ set_phase caller phase (s.phases)
      → Move s t
  settles :
      (refresh : ℕ) (restored : Bool)
      → s.refresh_request ≡ some refresh
      → t.refresh_request ≡ none
      → t.started ≡ s.started
      → t.outcomes ≡ set_num refresh (some restored) (s.outcomes)
      → t.phases ≡ s.phases
      → Move s t

abbrev same :
    {s t : Shared}
    → t.refresh_request ≡ s.refresh_request
    → t.started ≡ s.started
    → t.outcomes ≡ s.outcomes
    → SameRefresh s t
same a b c = record { same_request = a; same_started = b; same_outcomes = c }

module _ (env : Environment) (s : Shared) (caller : ℕ) where
  over-Move :
      (result : Result ApiError Response)
      → waits_for (s.phases caller) ≡ none
      → Move s (record s { phases = set_phase caller (over result) (s.phases) })
  unfolding waits_for
  over-Move result h = proceeds caller (over result) h refl (same refl refl refl) refl

  turn_away-Move : waits_for (s.phases caller) ≡ none → Move s (turn_away env caller s)
  unfolding turn_away waits_for
  turn_away-Move h = proceeds caller _ h refl (same refl refl refl) refl

  refresh_session-Move :
      (path : String) (options : RequestInit)
      → waits_for (s.phases caller) ≡ none
      → Move s (refresh_session caller path options s)
  unfolding refresh_session waits_for
  refresh_session-Move path options h = by_request (s.refresh_request) refl
    where
      by_request :
          (o : Option ℕ)
          → s.refresh_request ≡ o
          → Move s (elim o as (λ x. Shared) [
            | some refresh ↦ record s {
              phases = set_phase caller (awaiting path options refresh) (s.phases);
            }
            | none ↦ record s {
              session = note_sent "/api/auth/refresh" (s.session, refresh_headers);
              refresh_request = some (s.started);
              started = s.started + 1;
              phases = set_phase caller (awaiting path options (s.started)) (s.phases);
            }
          ])
      by_request (some refresh) e =
          joins caller refresh (awaiting path options refresh) h e refl (same refl refl refl) refl
      by_request none e =
          starts caller (awaiting path options (s.started)) h e refl refl refl refl refl

  answer_first-Move :
      (path : String) (options : RequestInit) (had_token : Bool) (answer : Option Response)
      → waits_for (s.phases caller) ≡ none
      → Move s (answer_first env caller path options had_token answer s)
  unfolding answer_first
  answer_first-Move path options had_token none h = over-Move (throw network_error) h
  answer_first-Move path options had_token (some r) h =
      by_tests (r.status == 401) (can_refresh path had_token)
    where
      by_tests :
          (b c : Bool)
          → Move s (
              if b
              then (if c then refresh_session caller path options s else turn_away env caller s)
              else record s { phases = set_phase caller (over (ok r)) (s.phases) })
      by_tests true true = refresh_session-Move path options h
      by_tests true false = turn_away-Move h
      by_tests false c = over-Move (ok r) h

  answer_second-Move :
      (answer : Option Response)
      → waits_for (s.phases caller) ≡ none
      → Move s (answer_second env caller answer s)
  unfolding answer_second
  answer_second-Move none h = over-Move (throw network_error) h
  answer_second-Move (some r) h = by_test (r.status == 401)
    where
      by_test :
          (b : Bool)
          → Move s (
              if b
              then turn_away env caller s
              else record s { phases = set_phase caller (over (ok r)) (s.phases) })
      by_test true = turn_away-Move h
      by_test false = over-Move (ok r) h

  resume-Move :
      (path : String) (options : RequestInit) (refresh : ℕ) (outcome : Option Bool)
      → waits_for (s.phases caller) ≡ some refresh
      → s.outcomes refresh ≡ outcome
      → Move s (resume env caller path options outcome s)
  unfolding resume send_again turn_away waits_for
  resume-Move path options refresh none h e = nothing refl
  resume-Move path options refresh (some true) h e =
      leaves caller refresh true (second_exchange path options) h e refl (same refl refl refl) refl
  resume-Move path options refresh (some false) h e =
      leaves caller refresh false _ h e refl (same refl refl refl) refl

  answered-Move :
      (answer : Option Response) (phase : Phase)
      → s.phases caller ≡ phase
      → Move s (after_answer env caller answer phase s)
  answered-Move answer (first_exchange path options had_token) e =
      answer_first-Move path options had_token answer (rw e (unfold waits_for in refl))
  answered-Move answer (second_exchange path options) e =
      answer_second-Move answer (rw e (unfold waits_for in refl))
  answered-Move answer idle e = nothing refl
  answered-Move answer (awaiting path options refresh) e = nothing refl
  answered-Move answer (over result) e = nothing refl

  resumed-Move :
      (phase : Phase) → s.phases caller ≡ phase → Move s (after_settled env caller phase s)
  resumed-Move (awaiting path options refresh) e =
      resume-Move path options refresh (s.outcomes refresh) (rw e (unfold waits_for in refl)) refl
  resumed-Move idle e = nothing refl
  resumed-Move (first_exchange path options had_token) e = nothing refl
  resumed-Move (second_exchange path options) e = nothing refl
  resumed-Move (over result) e = nothing refl

-- Every event makes one of the moves.
pub step-Move : (env : Environment) (event : Event) (s : Shared) → Move s (step env event s)
unfolding step
step-Move env (called caller path options) s = by_phase (s.phases caller) refl
  where
    by_phase :
        (p : Phase)
        → s.phases caller ≡ p
        → Move s (elim p as (λ x. Shared) [ idle ↦ call env caller path options s | _ ↦ s ])
    by_phase idle e =
        unfold call waits_for in
        proceeds caller (first_exchange path options (truthy (get_token (s.session)).1)) (rw e refl)
          refl (same refl refl refl) refl
    by_phase (first_exchange p o h) e = nothing refl
    by_phase (awaiting p o r) e = nothing refl
    by_phase (second_exchange p o) e = nothing refl
    by_phase (over r) e = nothing refl
step-Move env (answered caller answer) s = answered-Move env s caller answer (s.phases caller) refl
step-Move env (refreshed answer) s = by_request (s.refresh_request) refl
  where
    by_request :
        (o : Option ℕ)
        → s.refresh_request ≡ o
        → Move s (elim o as (λ x. Shared) [
          | none ↦ s
          | some refresh ↦ settle_refresh env refresh answer s
        ])
    by_request none e = nothing refl
    by_request (some refresh) e = unfold settle_refresh in settles refresh _ e refl refl refl refl
step-Move env (resumed caller) s = resumed-Move env s caller (s.phases caller) refl
