-- ===== src/Session/Flight.antt =====
-- The shared refresh as a machine with one flight, and the release of everybody who waits.
use subdux.Base.{
  Bool, List, NumMap, Option, String, [], ap, arith, false, if◌then◌else◌, inl, inr, none, ok, refl,
  set_num, some, subst, sym, throw, true, ℕ, ◌==◌, ◌∙◌, ◌∷◌, ◌≡◌, ◌≢◌,
}
use subdux.Session.Flights.{
  FlightStep, IsShared, at_start-IsShared, flight_of, is_some, joining, landing, leaving,
  phase-cases, stays, tell, told_by, view_of, waiting,
}
use subdux.Session.Moves.{
  Move, SameRefresh, joins, leaves, nothing, proceeds, settles, starts, step-Move, waits_for,
}
use subdux.Session.Request.{RequestInit, answer, api_error, handle_unauthorized, network_error}
use subdux.Session.Shared.{
  Event, Phase, Shared, at_start, awaiting, first_exchange, idle, over, refresh_result, refreshed,
  resume, resumed, run, second_exchange, send_again, set_phase, settle_refresh, step, turn_away,
}
use subdux.Session.Single.{run-IsShared, some_injective}
use subdux.Session.State.{Environment, Response, Session}

-- What the others see of one phase that changed.
others-view :
    (s t : Shared) (caller : ℕ) (phase : Phase)
    → t.outcomes ≡ s.outcomes
    → t.phases ≡ set_phase caller phase (s.phases)
    → (c : ℕ) → c ≢ caller
    → view_of (t.outcomes) (waits_for (t.phases c)) ≡ view_of (s.outcomes) (waits_for (s.phases c))
others-view s t caller phase o e c h = elim (phase-cases caller c phase (s.phases)) [
  | inl (k, q) ↦ absurd (h k)
  | inr (k, q) ↦ rw (o, e, q) refl
]

-- What the caller sees.
own-view :
    (s t : Shared) (caller : ℕ) (phase : Phase)
    → t.outcomes ≡ s.outcomes
    → t.phases ≡ set_phase caller phase (s.phases)
    → view_of (t.outcomes) (waits_for (t.phases caller)) ≡ view_of (s.outcomes) (waits_for phase)
own-view s t caller phase o e = elim (phase-cases caller caller phase (s.phases)) [
  | inl (k, q) ↦ rw (o, e, q) refl
  | inr (k, q) ↦ absurd (k refl)
]

same-view :
    (s t : Shared) (caller : ℕ) (phase : Phase)
    → waits_for (s.phases caller) ≡ none
    → waits_for phase ≡ none
    → SameRefresh s t
    → t.phases ≡ set_phase caller phase (s.phases)
    → (c : ℕ)
    → view_of (t.outcomes) (waits_for (t.phases c)) ≡ view_of (s.outcomes) (waits_for (s.phases c))
same-view s t caller phase w h q e c = elim (phase-cases caller c phase (s.phases)) [
  | inl (k, v) ↦ rw (e, v, h, k, w) refl
  | inr (k, v) ↦ rw (q.same_outcomes, e, v) refl
]

-- A landing tells everybody who waits.
landing-view :
    (s : Shared) (refresh : ℕ) (restored : Bool) (o : Option ℕ)
    → ((f : ℕ) → o ≡ some f → s.outcomes f ≡ none → s.refresh_request ≡ some f)
    → s.refresh_request ≡ some refresh
    → s.outcomes refresh ≡ none
    → view_of (set_num refresh (some restored) (s.outcomes)) o
      ≡ tell restored (view_of (s.outcomes) o)
landing-view s refresh restored none h r n = refl
landing-view s refresh restored (some f) h r n = by_test (f == refresh) refl (s.outcomes f) refl
  where
    by_test :
        (b : Bool)
        → (f == refresh) ≡ b
        → (o : Option Bool) → s.outcomes f ≡ o
        → told_by (if b then some restored else s.outcomes f)
          ≡ tell restored (told_by (s.outcomes f))
    by_test true e o q = rw (this, n) refl
      where
        this : f ≡ refresh
        this = ground (arith, e)
    by_test false e (some b) q = rw q refl
    by_test false e none q =
        absurd (ground (arith, e, some_injective refresh f (sym r ∙ h f refl q)))

Move-FlightStep : (s t : Shared) → Move s t → IsShared s → FlightStep (flight_of s) (flight_of t)
Move-FlightStep s t (nothing e) i = rw e (stays refl refl (λ c. refl))
Move-FlightStep s t (proceeds caller phase w h q e) i =
    stays (q.same_started) (ap is_some (q.same_request)) (same-view s t caller phase w h q e)
Move-FlightStep s t (leaves caller refresh restored phase w o h q e) i =
    leaving caller restored (rw (w, o) refl)
      (own-view s t caller phase (q.same_outcomes) e ∙ rw h refl)
      (others-view s t caller phase (q.same_outcomes) e) (ap is_some (q.same_request))
      (q.same_started)
Move-FlightStep s t (joins caller refresh phase w r h q e) i =
    joining caller (rw w refl)
      (own-view s t caller phase (q.same_outcomes) e ∙ rw (h, (i.current refresh r).1) refl)
      (others-view s t caller phase (q.same_outcomes) e) (rw (q.same_request, r) refl)
      (rw (q.same_started, r) refl)
Move-FlightStep s t (starts caller phase w z r n o h e) i =
    joining caller (rw w refl)
      (own-view s t caller phase o e ∙ rw (h, i.later (s.started) (omega arith)) refl)
      (others-view s t caller phase o e) (rw r refl) (rw (n, z) refl)
Move-FlightStep s t (settles refresh restored r z n o p) i =
    landing restored (rw r refl) (rw z refl) n (λ c.
      rw (o, p)
        (landing-view s refresh restored (waits_for (s.phases c)) (λ f w. (i.waiters c f w).1) r
          ((i.current refresh r).1)))

-- From a state in which nobody waits and no refresh is in flight, whatever the calls, the answers
-- and the order of all steps, each step of the shared `refreshSession` is a step of the machine:
-- a caller who needs a refresh joins the one in flight or sends one where there is none, so that at
-- most one is in flight; its answer tells the same result to everybody who waits; and only a caller
-- who was told goes on.
pub run-FlightStep :
    (env : Environment) (session : Session) (events : List Event) (event : Event)
    → FlightStep
        (flight_of (run env events (at_start session)))
        (flight_of (step env event (run env events (at_start session))))
run-FlightStep env session events event =
    let s = run env events (at_start session) in
    Move-FlightStep s (step env event s) (step-Move env event s)
      (run-IsShared env events (at_start session) (at_start-IsShared session))

-- A caller who waits no more: at its second exchange, or turned away.
abbrev pub IsReleased : Environment → Phase → Type 0
IsReleased env idle = ⊥
IsReleased env (first_exchange path options had_token) = ⊥
IsReleased env (awaiting path options refresh) = ⊥
IsReleased env (second_exchange path options) = Unit
IsReleased env (over (ok r)) = ⊥
IsReleased env (over (throw network_error)) = ⊥
IsReleased env (over (throw (api_error message))) = message ≡ env.t "common.unauthorized"

own_phase :
    (caller : ℕ) (phase : Phase) (phases : ℕ → Phase) → set_phase caller phase phases caller ≡ phase
own_phase caller phase phases = rw (itself) refl
  where
    itself : (caller == caller) ≡ true
    itself = ground arith

resume-IsReleased :
    (env : Environment) (caller : ℕ) (path : String) (options : RequestInit) (restored : Bool)
    (s : Shared)
    → IsReleased env ((resume env caller path options (some restored) s).phases caller)
unfolding resume send_again turn_away handle_unauthorized
resume-IsReleased env caller path options true s =
    subst (IsReleased env) (sym (own_phase caller (second_exchange path options) (s.phases))) tt
resume-IsReleased env caller path options false s =
    subst (IsReleased env)
      (sym (own_phase caller (over (throw (api_error (env.t "common.unauthorized")))) (s.phases)))
      refl

waits_for-awaiting :
    (phase : Phase) (f : ℕ)
    → waits_for phase ≡ some f
    → (path : String) × (options : RequestInit) × (phase ≡ awaiting path options f)
unfolding waits_for
waits_for-awaiting (awaiting path options refresh) f e =
    (path, options, ap (awaiting path options) (some_injective refresh f e))
waits_for-awaiting idle f e = absurd cc
waits_for-awaiting (first_exchange path options had_token) f e = absurd cc
waits_for-awaiting (second_exchange path options) f e = absurd cc
waits_for-awaiting (over result) f e = absurd cc

resumed-IsReleased :
    (env : Environment) (s : Shared) (caller f : ℕ) (restored : Bool)
    → waits_for (s.phases caller) ≡ some f
    → s.outcomes f ≡ some restored
    → IsReleased env ((step env (resumed caller) s).phases caller)
unfolding step
resumed-IsReleased env s caller f restored w o =
    let (path, options, e) = waits_for-awaiting (s.phases caller) f w in
    rw (e, o) (resume-IsReleased env caller path options restored s)

refreshed-outcome :
    (env : Environment) (answer : Option Response) (s : Shared) (f : ℕ)
    → s.refresh_request ≡ some f
    → ((step env (refreshed answer) s).phases ≡ s.phases)
      × ((step env (refreshed answer) s).outcomes f
          ≡ some (refresh_result env answer (s.session)).1)
unfolding step settle_refresh
refreshed-outcome env answer s f e = (rw e refl, rw (e, itself) refl)
  where
    itself : (f == f) ≡ true
    itself = ground arith

waiting-some :
    (outcomes : NumMap Bool) (o : Option ℕ)
    → view_of outcomes o ≡ waiting
    → (f : ℕ) × (o ≡ some f) × (outcomes f ≡ none)
waiting-some outcomes none e = absurd cc
waiting-some outcomes (some f) e = (f, refl, by_outcome (outcomes f) e)
  where
    by_outcome : (o : Option Bool) → told_by o ≡ waiting → o ≡ none
    by_outcome none q = refl
    by_outcome (some b) q = absurd cc

-- Nobody waits for ever: in every state that the calls can reach, whoever waits for the refresh is
-- released by its answer, whatever that is, and one step of its own: it sends its request again, or
-- it is turned away as unauthorized.
pub run-IsReleased :
    (env : Environment) (session : Session) (events : List Event) (caller : ℕ)
    (answer : Option Response)
    → (flight_of (run env events (at_start session))).views caller ≡ waiting
    → IsReleased env (
        (run env
            (refreshed answer ∷ resumed caller ∷ [])
            (run env events (at_start session))).phases
          caller)
unfolding run
run-IsReleased env session events caller answer h =
    let s = run env events (at_start session) in
    let i = run-IsShared env events (at_start session) (at_start-IsShared session) in
    let (f, w, n) = waiting-some (s.outcomes) (waits_for (s.phases caller)) h in
    let (p, o) = refreshed-outcome env answer s f ((i.waiters caller f w).1 n) in
    resumed-IsReleased env (step env (refreshed answer) s) caller f _
      (ap (λ m. waits_for (m caller)) p ∙ w) o
