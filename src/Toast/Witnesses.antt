-- ===== src/Toast/Witnesses.antt =====
-- A short life of two toasts, and the theorems at it.
use subdux.Base.{List, [], false, map, none, refl, some, true, ◌∷◌, ◌≡◌, ◌⊎◌}
use subdux.Toast.{
  Event, ToastOptions, create, create_toast, dismiss_targets, dismiss_toast, error, fire, hide_all,
  hides, id_eq, initial, loading, make_toast, next_id, number, put_toast, replace, run, run_timer,
  show_toast, step, success, take_timer, text, timer,
}
use subdux.Toast.Covered.{Inv}
use subdux.Toast.Invariant.{run-IsCovered}
use subdux.Toast.Created.{Creates, find-create_toast}
use subdux.Toast.Lookup.{find-dismiss_toast, find_toast, shown}

abbrev plain : ToastOptions
plain = record {
  id = none;
  description = none;
  duration = none;
  dismissible = none;
  class_name = none;
  class_names = none;
}

abbrev named : ToastOptions
named = record plain { id = some (text "upload"); duration = some 0 }

-- A loading toast under a name is renewed, another is shown and dismissed by its timer.
abbrev life : List Event
life =
    create loading "Uploading" named
    ∷ create success "Saved" plain
    ∷ create success "Uploaded" (record named { duration = some 100 })
    ∷ timer 0
    ∷ []

life_visible : map (λ t. t.visible) (run life initial).toasts ≡ false ∷ true ∷ []
unfolding run step initial create_toast next_id make_toast show_toast put_toast replace fire
    take_timer run_timer dismiss_toast dismiss_targets hide_all hides id_eq
life_visible = refl

run-IsCovered_example : Inv (run life initial)
run-IsCovered_example = run-IsCovered life

find-create_toast_example :
    Creates error "Failed" named
      (run life initial)
      (create_toast error "Failed" named (run life initial))
find-create_toast_example = find-create_toast error "Failed" named (run life initial)

find-dismiss_toast_example :
    (shown (number 1) (dismiss_toast (some (number 1)) (run life initial)) ≡ false)
    × ((id_eq (text "upload") (number 1) ≡ true)
        ⊎ (find_toast (text "upload") (dismiss_toast (some (number 1)) (run life initial)).toasts
            ≡ find_toast (text "upload") (run life initial).toasts))
find-dismiss_toast_example = find-dismiss_toast (number 1) (text "upload") (run life initial)
