-- ===== src/Toast/Invariant.antt =====
-- What holds of the toast store between any two events.
use mathlib.Core.Option.{some-injective}
use subdux.Base.{
  All, Bool, Bool-cases, List, Option, [], any, arith, false, inl, inr, none, refl, some, subst,
  suc, true, zero, ℕ, ◌||◌, ◌∷◌, ◌≡◌,
}
use subdux.Toast.{
  Event, Timer, ToastId, ToastRecord, ToastState, create, dismiss, dismiss_later, dismiss_toast,
  fire, hides, id_eq, includes, initial, keep_timer, listen, remove_later, remove_toast,
  remove_toasts, run, run_timer, step, subscribe, take_timer, timer, unlisten, unsubscribe, without,
}
use subdux.Toast.Covered.{Inv, IsCovered, dismiss_targets-Inv}
use subdux.Toast.Distinct.{IsDistinct, dismisses, removes, without-IsDistinct}
use subdux.Toast.Shown.{create_toast-Inv, dismiss_toast-Inv}

-- What a fired timer's list of ids does not name stays covered by the other timers.
take_timer-any :
    (p : Timer → Bool) (i : ℕ) (ts : List Timer) (x : Timer) (rest : List Timer)
    → take_timer i ts ≡ some (x, rest)
    → any p ts ≡ (p x || any p rest)
unfolding take_timer
take_timer-any p i [] x rest e = cc
take_timer-any p zero (t ∷ ts) x rest e = ground arith
take_timer-any p (suc i) (t ∷ ts) x rest e =
    by_rest (take_timer i ts) refl (take_timer-any p i ts) e
  where
    by_rest :
        (o : Option (Timer × List Timer))
        → take_timer i ts ≡ o
        → ((y : Timer) (others : List Timer)
            → take_timer i ts ≡ some (y, others)
            → any p ts ≡ (p y || any p others))
        → keep_timer t o ≡ some (x, rest)
        → any p (t ∷ ts) ≡ (p x || any p rest)
    by_rest none f ih e = cc
    by_rest (some (y, others)) f ih e =
        let step : any p (t ∷ ts) ≡ (p y || any p (t ∷ others)) = ground (arith, ih y others f) in
        subst (λ (r : Timer × List Timer). any p (t ∷ ts) ≡ (p r.0 || any p r.1))
          (some-injective _ _ e) step

-- After a removal no toast on the list has the id.
without-IsCovered :
    (id : ToastId) (ids : List ToastId) (timers : List Timer) (ts : List ToastRecord)
    → All (λ t. includes (id ∷ ids) t.id ≡ false → IsCovered timers t) ts
    → All (λ t. includes ids t.id ≡ false → IsCovered timers t) (without id ts)
unfolding without
without-IsCovered id ids timers [] h = tt
without-IsCovered id ids timers (t ∷ ts) (h, hs) = elim (Bool-cases (id_eq t.id id)) [
  | inl same ↦ rw same (without-IsCovered id ids timers ts hs)
  | inr other ↦ rw other (λ out. h (rw (other, out) refl), without-IsCovered id ids timers ts hs)
]

remove_toasts-Inv :
    (ids : List ToastId) (s : ToastState)
    → IsDistinct s.toasts
    → All (λ t. includes ids t.id ≡ false → IsCovered s.timers t) s.toasts
    → Inv (remove_toasts ids s)
unfolding remove_toasts remove_toast
remove_toasts-Inv [] s d h = record { distinct = d; covered = all_in s.toasts h }
  where
    all_in :
        (ts : List ToastRecord)
        → All (λ t. includes [] t.id ≡ false → IsCovered s.timers t) ts
        → All (IsCovered s.timers) ts
    all_in [] h = tt
    all_in (t ∷ ts) (h, hs) = (h refl, all_in ts hs)
remove_toasts-Inv (id ∷ ids) s d h =
    remove_toasts-Inv ids (remove_toast id s) (without-IsDistinct id s.toasts d)
      (without-IsCovered id ids s.timers s.toasts h)

-- What a toast loses with the timer `x` it regains from what `x` does.
fired-IsCovered :
    (i : ℕ) (timers : List Timer) (x : Timer) (rest : List Timer) (t : ToastRecord)
    → take_timer i timers ≡ some (x, rest)
    → (t.visible ≡ false → removes t.id x ≡ false)
    → (t.visible ≡ true → dismisses t.id x ≡ false)
    → IsCovered timers t
    → IsCovered rest t
fired-IsCovered i timers x rest t e r d h = (
  λ v.
      let all_removes = take_timer-any (removes t.id) i timers x rest e in
      ground (arith, h.0 v, r v),
  λ v p.
      let all_dismisses = take_timer-any (dismisses t.id) i timers x rest e in
      ground (arith, h.1 v p, d v),
)

All-map {ℓ} :
    {A : Type ℓ} {P Q : A → Type 0} (xs : List A) → ((a : A) → P a → Q a) → All P xs → All Q xs
All-map [] f h = tt
All-map (x ∷ xs) f (h, hs) = (f x h, All-map xs f hs)

run_timer-Inv :
    (i : ℕ) (s : ToastState) (x : Timer) (rest : List Timer)
    → take_timer i s.timers ≡ some (x, rest)
    → Inv s
    → Inv (run_timer x (record s { timers = rest }))
unfolding run_timer dismiss_toast hides
run_timer-Inv i s (dismiss_later delay id) rest e h = dismiss_targets-Inv (id ∷ []) _ h.distinct (
    All-map s.toasts
      (λ t c out. fired-IsCovered i s.timers _ rest t e (λ v. refl) (λ v. ground arith) c)
      h.covered)
run_timer-Inv i s (remove_later delay ids) rest e h = remove_toasts-Inv ids _ h.distinct (
    All-map s.toasts (λ t c out. fired-IsCovered i s.timers _ rest t e (λ v. out) (λ v. refl) c)
      h.covered)

fire-Inv : (i : ℕ) (s : ToastState) → Inv s → Inv (fire i s)
unfolding fire
fire-Inv i s h = by_timer (take_timer i s.timers) refl
  where
    by_timer :
        (o : Option (Timer × List Timer))
        → take_timer i s.timers ≡ o
        → Inv (elim o [ none ↦ s | some x ↦ run_timer x.0 (record s { timers = x.1 }) ])
    by_timer none e = h
    by_timer (some (x, rest)) e = run_timer-Inv i s x rest e h

listeners-Inv :
    (listeners : List ℕ) (s : ToastState) → Inv s → Inv (record s { listeners = listeners })
listeners-Inv listeners s h = record { distinct = h.distinct; covered = h.covered }

step-Inv : (e : Event) (s : ToastState) → Inv s → Inv (step e s)
unfolding step subscribe unsubscribe
step-Inv (create type title options) s h = create_toast-Inv type title options s h
step-Inv (dismiss id) s h = dismiss_toast-Inv id s h
step-Inv (timer i) s h = fire-Inv i s h
step-Inv (listen listener) s h = listeners-Inv _ s h
step-Inv (unlisten listener) s h = listeners-Inv _ s h

run_from-Inv : (es : List Event) (s : ToastState) → Inv s → Inv (run es s)
unfolding run
run_from-Inv [] s h = h
run_from-Inv (e ∷ es) s h = run_from-Inv es (step e s) (step-Inv e s h)

-- After any sequence of creations, dismissals, fired timers and subscriptions: no two toasts on the list have one
-- id, every hidden toast has a pending timer that removes it, and every visible toast with a
-- positive duration has a pending timer that dismisses it.
pub run-IsCovered : (es : List Event) → Inv (run es initial)
unfolding initial
run-IsCovered es = run_from-Inv es initial (record { distinct = tt; covered = tt })
