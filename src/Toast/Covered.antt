-- ===== src/Toast/Covered.antt =====
-- The pending timers of web/src/lib/toast-store.ts and the toasts that they are about.
use subdux.Base.{
  All, Bool, Bool-cases, List, [], any, arith, false, if◌then◌else◌, inl, inr, refl, true, ◌++◌,
  ◌<◌, ◌||◌, ◌∙◌, ◌∷◌, ◌≡◌,
}
use subdux.Toast.{
  Timer, ToastId, ToastRecord, ToastState, default_duration, dismiss_targets, exit_duration_ms,
  hide_all, hides, or_else, remove_later,
}
use subdux.Toast.Distinct.{IsDistinct, dismisses, hide_all-IsDistinct, removes}

-- A visible toast with a positive duration has a timer that will dismiss it, and a hidden one a
-- timer that will remove it.
abbrev pub IsCovered : List Timer → ToastRecord → Type 0
IsCovered timers t =
    (t.visible ≡ false → any (removes t.id) timers ≡ true)
    × (t.visible ≡ true
        → 0 < or_else t.duration default_duration
        → any (dismisses t.id) timers ≡ true)

pub record Inv (s : ToastState) : Type 0 where
  pub distinct : IsDistinct s.toasts
  pub covered : All (IsCovered s.timers) s.toasts

pub any-append {ℓ} :
    {A : Type ℓ} (p : A → Bool) (xs ys : List A) → any p (xs ++ ys) ≡ (any p xs || any p ys)
any-append p [] ys = refl
any-append p (x ∷ xs) ys = ground (arith, any-append p xs ys)

-- A change of the timers that keeps what covers a toast keeps all toasts covered.
pub All-IsCovered :
    (old new : List Timer) (ts : List ToastRecord)
    → ((id : ToastId) → any (removes id) old ≡ true → any (removes id) new ≡ true)
    → ((id : ToastId) → any (dismisses id) old ≡ true → any (dismisses id) new ≡ true)
    → All (IsCovered old) ts
    → All (IsCovered new) ts
All-IsCovered old new [] r d h = tt
All-IsCovered old new (t ∷ ts) r d (h, hs) =
    ((λ v. r t.id (h.0 v), λ v p. d t.id (h.1 v p)), All-IsCovered old new ts r d hs)

-- Coverage of the toasts that the list of targets does not hide.
abbrev CoveredUnless : List ToastId → List Timer → ToastRecord → Type 0
CoveredUnless targets timers t = hides targets t ≡ false → IsCovered timers t

hide_all-IsCovered :
    (targets : List ToastId) (timers : List Timer) (ts : List ToastRecord)
    → All (CoveredUnless targets timers) ts
    → All (IsCovered (timers ++ remove_later exit_duration_ms targets ∷ [])) (hide_all targets ts)
unfolding hide_all hides
hide_all-IsCovered targets timers [] h = tt
hide_all-IsCovered targets timers (t ∷ ts) (h, hs) =
    (one (hides targets t) refl, hide_all-IsCovered targets timers ts hs)
  where
    one :
        (b : Bool)
        → hides targets t ≡ b
        → IsCovered
            (timers ++ remove_later exit_duration_ms targets ∷ [])
            (if b then (record t { visible = false }) else t)
    one true e = (
      λ v.
          any-append (removes t.id) timers (remove_later exit_duration_ms targets ∷ [])
          ∙ ground arith,
      λ v. cc,
    )
    one false e = (
      λ v.
          any-append (removes t.id) timers (remove_later exit_duration_ms targets ∷ [])
          ∙ rw ((h e).0 v) refl,
      λ v p.
          any-append (dismisses t.id) timers (remove_later exit_duration_ms targets ∷ [])
          ∙ rw ((h e).1 v p) refl,
    )

-- Where nothing is hidden the list stays.
hide_all_of_none :
    (targets : List ToastId) (timers : List Timer) (ts : List ToastRecord)
    → any (hides targets) ts ≡ false
    → All (CoveredUnless targets timers) ts
    → All (IsCovered timers) (hide_all targets ts)
unfolding hide_all
hide_all_of_none targets timers [] e h = tt
hide_all_of_none targets timers (t ∷ ts) e (h, hs) =
    let here : hides targets t ≡ false = ground arith in
    rw here (h here, hide_all_of_none targets timers ts (ground arith) hs)

pub dismiss_targets-Inv :
    (targets : List ToastId) (s : ToastState)
    → IsDistinct s.toasts
    → All (CoveredUnless targets s.timers) s.toasts
    → Inv (dismiss_targets targets s)
unfolding dismiss_targets
dismiss_targets-Inv targets s d h = elim (Bool-cases (any (hides targets) s.toasts)) [
  | inl changed ↦
      rw (changed, dismiss_targets)
        (record {
          distinct = hide_all-IsDistinct targets s.toasts d;
          covered = hide_all-IsCovered targets s.timers s.toasts h;
        })
  | inr same ↦
      rw (same, dismiss_targets)
        (record {
          distinct = hide_all-IsDistinct targets s.toasts d;
          covered = hide_all_of_none targets s.timers s.toasts same h;
        })
]

pub All-CoveredUnless :
    (targets : List ToastId) (timers : List Timer) (ts : List ToastRecord)
    → All (IsCovered timers) ts
    → All (CoveredUnless targets timers) ts
All-CoveredUnless targets timers [] h = tt
All-CoveredUnless targets timers (t ∷ ts) (h, hs) = (λ e. h, All-CoveredUnless targets timers ts hs)
