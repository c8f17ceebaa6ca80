-- ===== src/Dashboard/Witnesses.antt =====
-- A dashboard of two subscriptions, with amounts in whole units.
use mathlib.Core.List.{Perm}
use subdux.Base.{List, [], arith, ltb, none, refl, some, true, ℕ, ◌*◌, ◌/◌, ◌∷◌, ◌≡◌, ◌↔◌}
use subdux.Dashboard.Amount.{Numbers, equal}
use subdux.Dashboard.Filters.{IsSelection, handle_all-IsSelection, matches-inactive}
use subdux.Dashboard.Order.{EndedLast, IsAntisymmetric, filtered_subscriptions-EndedLast}
use subdux.Dashboard.Placed.{AreInPlace, filtered_subscriptions-AreInPlace}
use subdux.Dashboard.Rows.{DashboardOptions, difference, filter, filtered_subscriptions, matches}
use subdux.Dashboard.Wanted.{IsWanted}
use subdux.Dashboard.Selection.{
  FilterEvent, by_amount, field_eq, handle_all, has_active_filters, initial, is_empty, member,
  select_sort_field, toggle_status,
}
use subdux.Subscription.{
  Subscription, SubscriptionStatus, active, ended, interval, is_subscription_active, month,
  recurring, status_eq,
}

abbrev whole : Numbers ℕ
whole = record {
  quotient = λ m n. m / n;
  times = λ m n. m * n;
  is_rate = λ m. ltb 0 m;
  is_truthy = λ m. ltb 0 m;
  difference = difference;
}

abbrev options : DashboardOptions ℕ
options = record {
  trim = λ text. text;
  to_lower_case = λ text. text;
  normalize_currency = λ text. text;
  locale_compare = λ a b. equal;
  date_time = λ text. some 5;
  t = λ key. key;
  numbers = whole;
  categories = [];
  display_disabled_subscriptions_last = true;
  exchange_rates = λ key. none;
  preferred_currency = "EUR";
}

options-IsAntisymmetric : IsAntisymmetric options
options-IsAntisymmetric = record { names = λ a b. refl; amounts = λ a b. ground arith }

abbrev subscription_of : ℕ → SubscriptionStatus → Subscription ℕ
subscription_of id status = record {
  id = id;
  name = "Music";
  amount = 10;
  currency = "EUR";
  status = some status;
  renewal_mode = none;
  ends_at = none;
  billing_type = recurring;
  recurrence_type = interval;
  interval_count = some 1;
  interval_unit = month;
  monthly_day = none;
  yearly_month = none;
  yearly_day = none;
  next_billing_date = some "2030-01-01";
  category = "";
  category_id = none;
  payment_method_id = none;
  notify_enabled = none;
  notify_days_before = none;
  icon = "";
  url = "";
  notes = "";
  created_at = "2029-01-01";
  updated_at = "2029-01-01";
}

abbrev both : List FilterEvent
both = toggle_status ended true ∷ select_sort_field by_amount ∷ select_sort_field by_amount ∷ []

abbrev shown_rows : List (Subscription ℕ)
shown_rows = subscription_of 1 ended ∷ subscription_of 2 active ∷ []

handle_all-IsSelection_example : IsSelection (handle_all both initial)
handle_all-IsSelection_example = handle_all-IsSelection both

matches-inactive_example :
    matches options initial (subscription_of 1 ended)
    ≡ is_subscription_active (subscription_of 1 ended)
matches-inactive_example =
    matches-inactive options initial (subscription_of 1 ended) refl
      (unfold has_active_filters member is_empty status_eq field_eq in refl)

filtered_subscriptions-AreInPlace_example :
    let f = handle_all both initial in
    Perm (filtered_subscriptions options f shown_rows) (filter (matches options f) shown_rows)
    × ((s : Subscription ℕ) → (matches options f s ≡ true) ↔ IsWanted options f s)
    × AreInPlace options f (filtered_subscriptions options f shown_rows)
filtered_subscriptions-AreInPlace_example =
    filtered_subscriptions-AreInPlace options (handle_all both initial) shown_rows
      options-IsAntisymmetric

filtered_subscriptions-EndedLast_example :
    EndedLast (filtered_subscriptions options (handle_all both initial) shown_rows)
filtered_subscriptions-EndedLast_example =
    filtered_subscriptions-EndedLast options (handle_all both initial) shown_rows
      options-IsAntisymmetric refl
