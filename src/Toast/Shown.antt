-- ===== src/Toast/Shown.antt =====
-- What showing a toast keeps of the invariant.
use subdux.Base.{
  All, Bool, Bool-cases, List, Option, String, [], any, arith, false, if◌then◌else◌, inl, inr, ltb,
  none, refl, some, true, ◌++◌, ◌∙◌, ◌∷◌, ◌≡◌,
}
use subdux.Toast.{
  Timer, ToastId, ToastOptions, ToastRecord, ToastState, ToastType, create_toast, default_duration,
  dismiss_later, dismiss_toast, id_eq, make_toast, next_id, or_else, put_toast, replace, show_toast,
}
use subdux.Toast.Covered.{
  All-CoveredUnless, All-IsCovered, Inv, IsCovered, any-append, dismiss_targets-Inv,
}
use subdux.Toast.Distinct.{IsDistinct, dismisses, removes, replace-IsDistinct}
use subdux.Toast.Lookup.{id_eq_iff}

pub dismiss_toast-Inv : (id : Option ToastId) (s : ToastState) → Inv s → Inv (dismiss_toast id s)
unfolding dismiss_toast
dismiss_toast-Inv none s h =
    dismiss_targets-Inv _ s h.distinct (All-CoveredUnless _ s.timers s.toasts h.covered)
dismiss_toast-Inv (some id) s h =
    dismiss_targets-Inv _ s h.distinct (All-CoveredUnless _ s.timers s.toasts h.covered)

replace-IsCovered :
    (id : ToastId) (next : ToastRecord) (timers : List Timer) (ts : List ToastRecord)
    → IsCovered timers next
    → All (IsCovered timers) ts
    → All (IsCovered timers) (replace id next ts)
unfolding replace
replace-IsCovered id next timers [] n h = tt
replace-IsCovered id next timers (t ∷ ts) n (h, hs) =
    (one (id_eq t.id id), replace-IsCovered id next timers ts n hs)
  where
    one : (b : Bool) → IsCovered timers (if b then next else t)
    one true = n
    one false = h

put_toast-IsDistinct :
    (id : ToastId) (next : ToastRecord) (ts : List ToastRecord)
    → next.id ≡ id
    → IsDistinct ts
    → IsDistinct (put_toast id next ts)
unfolding put_toast
put_toast-IsDistinct id next ts own d = elim (Bool-cases (any (λ t. id_eq t.id id) ts)) [
  | inl old ↦ rw (old, put_toast) (replace-IsDistinct id next ts own d)
  | inr new ↦ rw (new, put_toast) (rw own new, d)
]

put_toast-IsCovered :
    (id : ToastId) (next : ToastRecord) (timers : List Timer) (ts : List ToastRecord)
    → IsCovered timers next
    → All (IsCovered timers) ts
    → All (IsCovered timers) (put_toast id next ts)
unfolding put_toast
put_toast-IsCovered id next timers ts n h = by_present (any (λ t. id_eq t.id id) ts)
  where
    by_present : (b : Bool) → All (IsCovered timers) (if b then replace id next ts else next ∷ ts)
    by_present true = replace-IsCovered id next timers ts n h
    by_present false = (n, h)

show_toast-Inv :
    (id : ToastId) (next : ToastRecord) (s : ToastState)
    → next.id ≡ id
    → next.visible ≡ true
    → Inv s
    → Inv (show_toast id next s)
unfolding show_toast
show_toast-Inv id next s own v h = by_duration (ltb 0 (or_else next.duration default_duration)) refl
  where
    more : List Timer
    more = s.timers ++ dismiss_later (or_else next.duration default_duration) id ∷ []

    by_duration :
        (b : Bool)
        → ltb 0 (or_else next.duration default_duration) ≡ b
        → Inv (
            if b
            then (record s {
              toasts = put_toast id next s.toasts;
              called = s.called ++ s.listeners;
              timers = s.timers ++ dismiss_later (or_else next.duration default_duration) id ∷ [];
            })
            else (record s {
              toasts = put_toast id next s.toasts;
              called = s.called ++ s.listeners;
            }))
    by_duration true long = record {
      distinct = put_toast-IsDistinct id next s.toasts own h.distinct;
      covered =
          put_toast-IsCovered id next more s.toasts
            (
              λ hid. cc,
              λ vis pos.
                  any-append (dismisses next.id) s.timers _ ∙ ground (arith, id_eq_iff next.id id),
            )
            (All-IsCovered s.timers more s.toasts
              (λ j e. any-append (removes j) s.timers _ ∙ rw e refl)
              (λ j e. any-append (dismisses j) s.timers _ ∙ rw e refl) h.covered);
    }
    by_duration false zero_ms = record {
      distinct = put_toast-IsDistinct id next s.toasts own h.distinct;
      covered =
          put_toast-IsCovered id next s.timers s.toasts
            (λ hid. cc, λ vis pos. absurd (ground arith)) h.covered;
    }

pub create_toast-Inv :
    (type : ToastType) (title : String) (options : ToastOptions) (s : ToastState)
    → Inv s
    → Inv (create_toast type title options s).0
unfolding create_toast next_id
create_toast-Inv type title options s h = by_id options.id
  where
    by_id :
        (o : Option ToastId)
        → let (id, s') = next_id o s in Inv (show_toast id (make_toast id type title options) s')
    by_id none =
        show_toast-Inv _ _ _ (unfold make_toast in refl) (unfold make_toast in refl)
          (record { distinct = h.distinct; covered = h.covered })
    by_id (some id) = show_toast-Inv _ _ _ (unfold make_toast in refl) (unfold make_toast in refl) h
