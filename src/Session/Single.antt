-- ===== src/Session/Single.antt =====
-- The refresh that callers share, against a machine with one refresh in flight at most.
use subdux.Base.{
  Bool, List, Option, [], ap, arith, false, if◌then◌else◌, inl, inr, none, refl, set_num, some,
  subst, sym, true, ℕ, ◌+◌, ◌<◌, ◌==◌, ◌∙◌, ◌∷◌, ◌≡◌, ◌≤◌,
}
use subdux.Session.Flights.{IsShared, waits-cases}
use subdux.Session.Moves.{
  Move, SameRefresh, joins, leaves, nothing, proceeds, settles, starts, step-Move, waits_for,
}
use subdux.Session.Shared.{Event, Phase, Shared, run, set_phase, step}
use subdux.Session.State.{Environment}

pub some_ne : {f : ℕ} {o : Option ℕ} → o ≡ none → o ≡ some f → ⊥
some_ne h k = absurd cc

pub some_injective : (f g : ℕ) → ◌≡◌ {A = Option ℕ} (some f) (some g) → f ≡ g
some_injective f g h = cc

same-IsShared :
    (s t : Shared)
    → IsShared s
    → SameRefresh s t
    → ((c f : ℕ)
        → waits_for (t.phases c) ≡ some f
        → (f < s.started) × (s.outcomes f ≡ none → s.refresh_request ≡ some f))
    → IsShared t
same-IsShared s t i q waiters = record {
  later = λ f l. ap (λ o. o f) (q.same_outcomes) ∙ i.later f (omega (arith, q.same_started, l));
  current = λ f e.
      let (l, n) = i.current f (sym (q.same_request) ∙ e) in
      (omega (arith, q.same_started, l), ap (λ o. o f) (q.same_outcomes) ∙ n);
  waiters = λ c f e.
      let (l, n) = waiters c f e in
      (
        omega (arith, q.same_started, l),
        λ h. q.same_request ∙ n (sym (ap (λ o. o f) (q.same_outcomes)) ∙ h),
      );
}

-- The invariant is kept where one caller's new phase awaits nothing.
free-IsShared :
    (s t : Shared) (caller : ℕ) (phase : Phase)
    → IsShared s
    → waits_for phase ≡ none
    → SameRefresh s t
    → t.phases ≡ set_phase caller phase (s.phases)
    → IsShared t
free-IsShared s t caller phase i h q e = same-IsShared s t i q (λ c f w.
    elim (waits-cases s t caller phase c f e w)
      as (λ x. (f < s.started) × (s.outcomes f ≡ none → s.refresh_request ≡ some f)) [
        | inl (k, v) ↦ absurd (some_ne h v)
        | inr (k, v) ↦ i.waiters c f v
      ])

joined-IsShared :
    (s t : Shared) (caller refresh : ℕ) (phase : Phase)
    → IsShared s
    → s.refresh_request ≡ some refresh
    → waits_for phase ≡ some refresh
    → SameRefresh s t
    → t.phases ≡ set_phase caller phase (s.phases)
    → IsShared t
joined-IsShared s t caller refresh phase i r h q e = same-IsShared s t i q (λ c f w.
    elim (waits-cases s t caller phase c f e w)
      as (λ x. (f < s.started) × (s.outcomes f ≡ none → s.refresh_request ≡ some f)) [
        | inl (k, v) ↦
            let same_refresh = some_injective refresh f (sym h ∙ v) in
            (omega (arith, same_refresh, (i.current refresh r).0), λ n. r ∙ ap some same_refresh)
        | inr (k, v) ↦ i.waiters c f v
      ])

started-IsShared :
    (s t : Shared) (caller : ℕ) (phase : Phase)
    → IsShared s
    → t.refresh_request ≡ some (s.started)
    → t.started ≡ s.started + 1
    → t.outcomes ≡ s.outcomes
    → s.refresh_request ≡ none
    → waits_for phase ≡ some (s.started)
    → t.phases ≡ set_phase caller phase (s.phases)
    → IsShared t
started-IsShared s t caller phase i r n o z h e = record {
  later = λ f l. ap (λ m. m f) o ∙ i.later f (omega (arith, n, l));
  current = λ f q.
      let this = some_injective (s.started) f (sym r ∙ q) in
      (omega (arith, n, this), ap (λ m. m f) o ∙ i.later f (omega (arith, this)));
  waiters = λ c f w.
      elim (waits-cases s t caller phase c f e w)
        as (λ x. (f < t.started) × (t.outcomes f ≡ none → t.refresh_request ≡ some f)) [
          | inl (k, v) ↦
              let this = some_injective (s.started) f (sym h ∙ v) in
              (omega (arith, n, this), λ q. r ∙ ap some this)
          | inr (k, v) ↦ (
            omega (arith, n, (i.waiters c f v).0),
            λ q. absurd (some_ne z ((i.waiters c f v).1 (sym (ap (λ m. m f) o) ∙ q))),
          )
        ];
}

settled-IsShared :
    (s t : Shared) (refresh : ℕ) (restored : Bool)
    → IsShared s
    → s.refresh_request ≡ some refresh
    → t.refresh_request ≡ none
    → t.started ≡ s.started
    → t.outcomes ≡ set_num refresh (some restored) (s.outcomes)
    → t.phases ≡ s.phases
    → IsShared t
settled-IsShared s t refresh restored i r z n o p = record {
  later = λ f l. ap (λ m. m f) o ∙ past f (omega (arith, n, l));
  current = λ f q. absurd (some_ne z q);
  waiters = λ c f w.
      let (l, u) = i.waiters c f (sym (ap (λ m. waits_for (m c)) p) ∙ w) in
      (omega (arith, n, l), λ q. absurd (gone f u (sym (ap (λ m. m f) o) ∙ q)));
}
  where
    past : (f : ℕ) → s.started ≤ f → set_num refresh (some restored) (s.outcomes) f ≡ none
    past f l = rw (apart_from f l) (i.later f l)
      where
        apart_from : (g : ℕ) → s.started ≤ g → (g == refresh) ≡ false
        apart_from g k = ground (arith, k, (i.current refresh r).0)

    gone :
        (f : ℕ)
        → (s.outcomes f ≡ none → s.refresh_request ≡ some f)
        → set_num refresh (some restored) (s.outcomes) f ≡ none
        → ⊥
    gone f u q = by_test (f == refresh) refl q
      where
        by_test :
            (b : Bool) → (f == refresh) ≡ b → (if b then some restored else s.outcomes f) ≡ none → ⊥
        by_test true e h = absurd cc
        by_test false e h = ground (arith, e, some_injective refresh f (sym r ∙ u h))

Move-IsShared : (s t : Shared) → Move s t → IsShared s → IsShared t
Move-IsShared s t (nothing e) i = subst IsShared (sym e) i
Move-IsShared s t (proceeds caller phase w h q e) i = free-IsShared s t caller phase i h q e
Move-IsShared s t (leaves caller refresh restored phase w o h q e) i =
    free-IsShared s t caller phase i h q e
Move-IsShared s t (joins caller refresh phase w r h q e) i =
    joined-IsShared s t caller refresh phase i r h q e
Move-IsShared s t (starts caller phase w z r n o h e) i =
    started-IsShared s t caller phase i r n o z h e
Move-IsShared s t (settles refresh restored r z n o p) i =
    settled-IsShared s t refresh restored i r z n o p

pub run-IsShared :
    (env : Environment) (events : List Event) (s : Shared)
    → IsShared s
    → IsShared (run env events s)
unfolding run
run-IsShared env [] s i = i
run-IsShared env (event ∷ events) s i =
    run-IsShared env events (step env event s)
      (Move-IsShared s (step env event s) (step-Move env event s) i)
