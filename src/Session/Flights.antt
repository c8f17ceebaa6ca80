-- ===== src/Session/Flights.antt =====
-- The machine with one refresh in flight, and how the callers' state is seen as one.
use subdux.Base.{
  Bool, NumMap, Option, ap, arith, false, if◌then◌else◌, inl, inr, none, refl, some, sym, true, ℕ,
  ◌+◌, ◌<◌, ◌==◌, ◌∙◌, ◌≡◌, ◌≢◌, ◌≤◌, ◌⊎◌,
}
use subdux.Session.Moves.{waits_for}
use subdux.Session.Shared.{Phase, Shared, at_start, set_phase}
use subdux.Session.State.{Session}

-- How a caller stands to the refreshes: not waiting, waiting, or told a result.
pub data View : Type 0 where
  apart waiting : View
  told : Bool → View

-- The machine: the refreshes sent, whether one is in flight, and the callers.
pub record SingleFlight : Type 0 where
  pub sent : ℕ
  pub flying : Bool
  pub views : ℕ → View

abbrev pub tell : Bool → View → View
tell restored waiting = told restored
tell restored apart = apart
tell restored (told r) = told r

-- A caller joins the flight, or sends one where there is none; a landing tells everybody who waits
-- the same result; a caller who was told goes on.
pub data FlightStep (a b : SingleFlight) : Type 0 where
  stays : b.sent ≡ a.sent → b.flying ≡ a.flying → ((c : ℕ) → b.views c ≡ a.views c) → FlightStep a b
  joining :
      (caller : ℕ)
      → a.views caller ≡ apart
      → b.views caller ≡ waiting
      → ((c : ℕ) → c ≢ caller → b.views c ≡ a.views c)
      → b.flying ≡ true
      → b.sent ≡ (if a.flying then a.sent else a.sent + 1)
      → FlightStep a b
  landing :
      (restored : Bool)
      → a.flying ≡ true
      → b.flying ≡ false
      → b.sent ≡ a.sent
      → ((c : ℕ) → b.views c ≡ tell restored (a.views c))
      → FlightStep a b
  leaving :
      (caller : ℕ) (restored : Bool)
      → a.views caller ≡ told restored
      → b.views caller ≡ apart
      → ((c : ℕ) → c ≢ caller → b.views c ≡ a.views c)
      → b.flying ≡ a.flying
      → b.sent ≡ a.sent
      → FlightStep a b

abbrev pub is_some : Option ℕ → Bool
is_some none = false
is_some (some refresh) = true

abbrev pub told_by : Option Bool → View
told_by none = waiting
told_by (some restored) = told restored

abbrev pub view_of : NumMap Bool → Option ℕ → View
view_of outcomes none = apart
view_of outcomes (some refresh) = told_by (outcomes refresh)

abbrev pub flight_of : Shared → SingleFlight
flight_of s = record {
  sent = s.started;
  flying = is_some (s.refresh_request);
  views = λ caller. view_of (s.outcomes) (waits_for (s.phases caller));
}

-- The variable `refreshRequest` holds the one refresh that has no outcome, and whoever awaits a
-- refresh without an outcome awaits that one.
pub record IsShared (s : Shared) : Type 0 where
  pub later : (f : ℕ) → s.started ≤ f → s.outcomes f ≡ none
  pub current : (f : ℕ) → s.refresh_request ≡ some f → (f < s.started) × (s.outcomes f ≡ none)
  pub waiters :
      (c f : ℕ)
      → waits_for (s.phases c) ≡ some f
      → (f < s.started) × (s.outcomes f ≡ none → s.refresh_request ≡ some f)

pub at_start-IsShared : (session : Session) → IsShared (at_start session)
at_start-IsShared session = record {
  later = λ f h. refl;
  current = λ f e. absurd cc;
  waiters = λ c f e. absurd (unfold waits_for in cc);
}

-- One phase changed.
pub phase-cases :
    (caller c : ℕ) (phase : Phase) (phases : ℕ → Phase)
    → ((c ≡ caller) × (set_phase caller phase phases c ≡ phase))
      ⊎ ((c ≢ caller) × (set_phase caller phase phases c ≡ phases c))
phase-cases caller c phase phases = by_test (c == caller) refl
  where
    by_test :
        (b : Bool)
        → (c == caller) ≡ b
        → ((c ≡ caller) × ((if b then phase else phases c) ≡ phase))
          ⊎ ((c ≢ caller) × ((if b then phase else phases c) ≡ phases c))
    by_test true e = inl (ground (arith, e), refl)
    by_test false e = inr (ground (arith, e), refl)

-- Who waits after one phase changed: the caller by its new phase, the others as before.
pub waits-cases :
    (s t : Shared) (caller : ℕ) (phase : Phase) (c f : ℕ)
    → t.phases ≡ set_phase caller phase (s.phases)
    → waits_for (t.phases c) ≡ some f
    → ((c ≡ caller) × (waits_for phase ≡ some f))
      ⊎ ((c ≢ caller) × (waits_for (s.phases c) ≡ some f))
waits-cases s t caller phase c f e h = elim (phase-cases caller c phase (s.phases)) [
  | inl (k, q) ↦ inl (k, sym (ap (λ p. waits_for (p c)) e ∙ ap waits_for q) ∙ h)
  | inr (k, q) ↦ inr (k, sym (ap (λ p. waits_for (p c)) e ∙ ap waits_for q) ∙ h)
]
