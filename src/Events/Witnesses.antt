-- ===== src/Events/Witnesses.antt =====
-- The creation of a subscription, with plain formats.
use subdux.Base.{All, [], if◌then◌else◌, map, none, refl, some, str_eq, ℕ, ◌==◌, ◌∷◌, ◌≡◌}
use subdux.Events.{
  Formats, SubscriptionDetailEvent, all_fields, created, format_subscription_event_amount_change,
  row_of, rows_of, shown_values, subscription_detail_event_change_row,
  subscription_detail_event_change_rows, subscription_lifecycle_status_label,
  subscription_renewal_mode_label, value_for_amount, value_for_text, values_of_field,
}
use subdux.Events.Changes.{Fits, change_rows-Fits}
use subdux.Subscription.{active, auto_renew}

abbrev plain : Formats ℕ
plain = record {
  t = λ key. if str_eq key "subscription.detail.empty.none" then "none" else key;
  t_default = λ key text. text;
  format_date = λ date. date;
  format_amount = λ amount currency. currency;
}

abbrev creation : SubscriptionDetailEvent ℕ
creation = record {
  id = 1;
  type = created;
  changed_fields = [];
  previous_amount = none;
  new_amount = some 10;
  previous_monthly_amount = none;
  new_monthly_amount = none;
  previous_currency = "";
  new_currency = "EUR";
  previous_next_billing_date = none;
  new_next_billing_date = some "2030-01-01";
  previous_status = none;
  new_status = some active;
  previous_renewal_mode = none;
  new_renewal_mode = some auto_renew;
  previous_category_name = "";
  new_category_name = "";
  previous_payment_method_name = "";
  new_payment_method_name = "";
  changed_at = "2029-12-31";
}

creation_rows :
    map (λ r. r.next) (subscription_detail_event_change_rows plain creation)
    ≡ "EUR" ∷ "2030-01-01" ∷ "active" ∷ "auto_renew" ∷ []
unfolding subscription_detail_event_change_rows subscription_detail_event_change_row rows_of row_of
    values_of_field value_for_text value_for_amount shown_values all_fields
    subscription_lifecycle_status_label subscription_renewal_mode_label
creation_rows = refl

change_rows-Fits_example :
    All (Fits created "none") (subscription_detail_event_change_rows plain creation)
change_rows-Fits_example = change_rows-Fits plain creation refl

-- An amount that became another one.
amount_changed :
    format_subscription_event_amount_change
      (record {
        new_amount = some 2;
        new_currency = none;
        previous_amount = some 1;
        previous_currency = none;
      })
      (λ amount currency. if amount == 1 then "1.00" else "2.00")
    ≡ "1.00 -> 2.00"
unfolding format_subscription_event_amount_change
amount_changed = refl
