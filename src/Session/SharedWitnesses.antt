-- ===== src/Session/SharedWitnesses.antt =====
-- Two callers whose first exchanges end in a 401.
use subdux.Base.{List, Option, [], false, none, refl, some, true, ◌∷◌, ◌≡◌}
use subdux.Session.Flight.{IsReleased, run-FlightStep, run-IsReleased}
use subdux.Session.Flights.{FlightStep, flight_of, waiting}
use subdux.Session.Moves.{waits_for}
use subdux.Session.Request.{RequestInit, build_headers, can_refresh, no_body}
use subdux.Session.Shared.{
  Event, answer_first, answered, at_start, call, called, refresh_session, refreshed, resumed, run,
  step,
}
use subdux.Session.State.{Environment, Response, Session, get_token, truthy}

abbrev env : Environment
env = record {
  encode_user = λ u. "{}";
  decode_user = λ text. none;
  to_lower_case = λ text. text;
  t = λ key. key;
}

abbrev session : Session
session = record {
  cached_access_token = some "old";
  cached_user = none;
  access_token_loaded = true;
  user_loaded = false;
  storage_usable = false;
  storage = λ key. none;
  toasts = [];
  location = "/";
  sent = [];
  replies = [];
}

abbrev options : RequestInit
options = record { method = "GET"; body = no_body; content_type = none }

abbrev refused : Option Response
refused = some (record { status = 401; content_type = none; body = none })

abbrev events : List Event
events =
    called 1 "/a" options ∷ called 2 "/b" options ∷ answered 1 refused ∷ answered 2 refused ∷ []

-- Both wait for the one refresh.
one_refresh : (flight_of (run env events (at_start session))).sent ≡ 1
unfolding run step call answer_first refresh_session get_token can_refresh truthy waits_for
    build_headers
one_refresh = refl

run-FlightStep_example :
    FlightStep
      (flight_of (run env events (at_start session)))
      (flight_of (step env (refreshed none) (run env events (at_start session))))
run-FlightStep_example = run-FlightStep env session events (refreshed none)

run-IsReleased_example :
    IsReleased env
      ((run env (refreshed none ∷ resumed 2 ∷ []) (run env events (at_start session))).phases 2)
run-IsReleased_example = run-IsReleased env session events 2 none waits
  where
    waits : (flight_of (run env events (at_start session))).views 2 ≡ waiting
    waits =
        unfold run step call answer_first refresh_session get_token can_refresh truthy waits_for
          build_headers in
        refl
