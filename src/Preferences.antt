-- ===== src/Preferences.antt =====
-- web/src/lib/display-preferences.ts and web/src/lib/default-currency.ts: single values in
-- localStorage.
pub mod Apart
mod Witnesses
use subdux.Base.{
  Bool, Option, String, TextMap, false, if◌then◌else◌, none, set_text, some, str_eq, true,
}

-- localStorage, as the texts under its keys.
abbrev pub LocalStorage : Type 0
LocalStorage = TextMap String

-- The four settings that are on or off, by the names of their keys.
pub data DisplayPreference : Type 0 where
  all_amounts_in_primary_currency recurring_amounts_as_monthly_cost : DisplayPreference
  subscription_cycle_progress disabled_subscriptions_last : DisplayPreference

abbrev pub display_key : DisplayPreference → String
display_key all_amounts_in_primary_currency = "displayAllAmountsInPrimaryCurrency"
display_key recurring_amounts_as_monthly_cost = "displayRecurringAmountsAsMonthlyCost"
display_key subscription_cycle_progress = "displaySubscriptionCycleProgress"
display_key disabled_subscriptions_last = "displayDisabledSubscriptionsLast"

abbrev pub default_currency_key : String
default_currency_key = "defaultCurrency"

abbrev pub is_true_text : Option String → Bool
is_true_text none = false
is_true_text (some text) = str_eq text "true"

abbrev pub bool_text : Bool → String
bool_text true = "true"
bool_text false = "false"

unfoldable pub get_display : DisplayPreference → LocalStorage → Bool
get_display p storage = is_true_text (storage (display_key p))

unfoldable pub set_display : DisplayPreference → Bool → LocalStorage → LocalStorage
set_display p enabled storage = set_text (display_key p) (some (bool_text enabled)) storage

abbrev pub text_or : String → Option String → String
text_or fallback none = fallback
text_or fallback (some text) = if str_eq text "" then fallback else text

unfoldable pub get_default_currency : String → LocalStorage → String
get_default_currency fallback storage = text_or fallback (storage default_currency_key)

unfoldable pub set_default_currency : String → LocalStorage → LocalStorage
set_default_currency currency storage = set_text default_currency_key (some currency) storage
