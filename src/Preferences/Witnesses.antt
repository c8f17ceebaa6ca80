-- ===== src/Preferences/Witnesses.antt =====
-- Three settings on an empty storage.
use subdux.Base.{List, [], none, true, ◌∷◌, ◌≡◌}
use subdux.Preferences.{
  LocalStorage, disabled_subscriptions_last, get_default_currency, get_display,
  subscription_cycle_progress,
}
use subdux.Preferences.Apart.{
  Setting, apply_all, apply_all_lem, currency, display, last_currency, last_display,
}

abbrev chosen : List Setting
chosen =
    display subscription_cycle_progress true
    ∷ currency "EUR"
    ∷ display disabled_subscriptions_last true
    ∷ []

abbrev empty_storage : LocalStorage
empty_storage key = none

apply_all_example :
    (get_display subscription_cycle_progress (apply_all chosen empty_storage)
      ≡ last_display subscription_cycle_progress
          (get_display subscription_cycle_progress empty_storage)
          chosen)
    × (get_default_currency "USD" (apply_all chosen empty_storage)
        ≡ last_currency "USD" (get_default_currency "USD" empty_storage) chosen)
apply_all_example = apply_all_lem chosen subscription_cycle_progress "USD" empty_storage
