-- ===== src/Preferences/Apart.antt =====
-- Sequences of settings through web/src/lib/display-preferences.ts and default-currency.ts.
use subdux.Base.{
  Bool, List, String, [], ap, false, if◌then◌else◌, refl, some, str_eq, sym, true, ◌∙◌, ◌∷◌, ◌≡◌,
}
use subdux.Preferences.{
  DisplayPreference, LocalStorage, all_amounts_in_primary_currency, bool_text,
  disabled_subscriptions_last, display_key, get_default_currency, get_display, is_true_text,
  recurring_amounts_as_monthly_cost, set_default_currency, set_display, subscription_cycle_progress,
  text_or,
}

-- The settings are told apart by what they are, not by their keys.
unfoldable pub same_preference : DisplayPreference → DisplayPreference → Bool
same_preference all_amounts_in_primary_currency all_amounts_in_primary_currency = true
same_preference recurring_amounts_as_monthly_cost recurring_amounts_as_monthly_cost = true
same_preference subscription_cycle_progress subscription_cycle_progress = true
same_preference disabled_subscriptions_last disabled_subscriptions_last = true
same_preference _ _ = false

-- Any sequence of settings.
pub data Setting : Type 0 where
  display : DisplayPreference → Bool → Setting
  currency : String → Setting

unfoldable pub apply : Setting → LocalStorage → LocalStorage
apply (display p enabled) storage = set_display p enabled storage
apply (currency c) storage = set_default_currency c storage

unfoldable pub apply_all : List Setting → LocalStorage → LocalStorage
apply_all [] storage = storage
apply_all (s ∷ ss) storage = apply_all ss (apply s storage)

-- What the settings say last of one of them, or what was there before.
unfoldable pub last_display : DisplayPreference → Bool → List Setting → Bool
last_display p before [] = before
last_display p before (display q enabled ∷ ss) =
    last_display p (if same_preference p q then enabled else before) ss
last_display p before (currency c ∷ ss) = last_display p before ss

unfoldable pub last_currency : String → String → List Setting → String
last_currency fallback before [] = before
last_currency fallback before (display q enabled ∷ ss) = last_currency fallback before ss
last_currency fallback before (currency c ∷ ss) =
    last_currency fallback (text_or fallback (some c)) ss

-- No two settings share a key.
keys_apart :
    (p q : DisplayPreference) → str_eq (display_key p) (display_key q) ≡ same_preference p q
unfolding same_preference
keys_apart all_amounts_in_primary_currency all_amounts_in_primary_currency = refl
keys_apart all_amounts_in_primary_currency recurring_amounts_as_monthly_cost = refl
keys_apart all_amounts_in_primary_currency subscription_cycle_progress = refl
keys_apart all_amounts_in_primary_currency disabled_subscriptions_last = refl
keys_apart recurring_amounts_as_monthly_cost all_amounts_in_primary_currency = refl
keys_apart recurring_amounts_as_monthly_cost recurring_amounts_as_monthly_cost = refl
keys_apart recurring_amounts_as_monthly_cost subscription_cycle_progress = refl
keys_apart recurring_amounts_as_monthly_cost disabled_subscriptions_last = refl
keys_apart subscription_cycle_progress all_amounts_in_primary_currency = refl
keys_apart subscription_cycle_progress recurring_amounts_as_monthly_cost = refl
keys_apart subscription_cycle_progress subscription_cycle_progress = refl
keys_apart subscription_cycle_progress disabled_subscriptions_last = refl
keys_apart disabled_subscriptions_last all_amounts_in_primary_currency = refl
keys_apart disabled_subscriptions_last recurring_amounts_as_monthly_cost = refl
keys_apart disabled_subscriptions_last subscription_cycle_progress = refl
keys_apart disabled_subscriptions_last disabled_subscriptions_last = refl

get-apply_display :
    (p q : DisplayPreference) (enabled : Bool) (storage : LocalStorage)
    → get_display p (set_display q enabled storage)
      ≡ (if same_preference p q then enabled else get_display p storage)
unfolding get_display set_display
get-apply_display p q enabled storage =
    rw (sym (keys_apart p q)) (by_test (str_eq (display_key p) (display_key q)) enabled)
  where
    by_test :
        (b e : Bool)
        → is_true_text (if b then some (bool_text e) else storage (display_key p))
          ≡ (if b then e else is_true_text (storage (display_key p)))
    by_test true true = refl
    by_test true false = refl
    by_test false e = refl

get_display-currency :
    (p : DisplayPreference) (c : String) (storage : LocalStorage)
    → get_display p (set_default_currency c storage) ≡ get_display p storage
unfolding get_display set_default_currency
get_display-currency all_amounts_in_primary_currency c storage = refl
get_display-currency recurring_amounts_as_monthly_cost c storage = refl
get_display-currency subscription_cycle_progress c storage = refl
get_display-currency disabled_subscriptions_last c storage = refl

get_default_currency-display :
    (fallback : String) (q : DisplayPreference) (enabled : Bool) (storage : LocalStorage)
    → get_default_currency fallback (set_display q enabled storage)
      ≡ get_default_currency fallback storage
unfolding get_default_currency set_display
get_default_currency-display fallback all_amounts_in_primary_currency enabled storage = refl
get_default_currency-display fallback recurring_amounts_as_monthly_cost enabled storage = refl
get_default_currency-display fallback subscription_cycle_progress enabled storage = refl
get_default_currency-display fallback disabled_subscriptions_last enabled storage = refl

-- After any sequence of settings, each display preference and the default currency read as they
-- were last set, or as before where they were not: the keys do not get in each other's way.
pub apply_all_lem :
    (ss : List Setting) (p : DisplayPreference) (fallback : String) (storage : LocalStorage)
    → (get_display p (apply_all ss storage) ≡ last_display p (get_display p storage) ss)
      × (get_default_currency fallback (apply_all ss storage)
          ≡ last_currency fallback (get_default_currency fallback storage) ss)
unfolding apply_all last_display last_currency apply
apply_all_lem [] p fallback storage = (refl, refl)
apply_all_lem (display q enabled ∷ ss) p fallback storage =
    let rest = apply_all_lem ss p fallback (set_display q enabled storage) in
    (
      rest.0 ∙ ap (λ b. last_display p b ss) (get-apply_display p q enabled storage),
      rest.1
          ∙ ap (λ c. last_currency fallback c ss)
              (get_default_currency-display fallback q enabled storage),
    )
apply_all_lem (currency c ∷ ss) p fallback storage =
    let rest = apply_all_lem ss p fallback (set_default_currency c storage) in
    (
      rest.0 ∙ ap (λ b. last_display p b ss) (get_display-currency p c storage),
      rest.1
          ∙ ap (λ c. last_currency fallback c ss)
              (unfold get_default_currency set_default_currency in refl),
    )
