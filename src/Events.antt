-- ===== src/Events.antt =====
-- web/src/lib/subscription-event-formatters.ts: the rows that show what an event changed, over the
-- SubscriptionDetailEvent of web/src/types/subscription.ts. `R` is the type of amounts. A text that
-- may be empty in the source is a text here, and a status or mode that may be empty an option.
pub mod Changes
mod Witnesses
use subdux.Base.{
  Bool, List, Option, String, [], concat, false, if◌then◌else◌, none, some, str_eq, true, ℕ, ◌&&◌,
  ◌∷◌,
}
use subdux.Subscription.{
  SubscriptionRenewalMode, SubscriptionStatus, active, auto_renew, cancel_at_period_end, ended,
  manual_renew,
}

pub data SubscriptionEventType : Type 0 where
  created updated manual_renewed deleted system_change : SubscriptionEventType

pub record SubscriptionDetailEvent (R : Type 0) : Type 0 where
  pub id : ℕ
  pub type : SubscriptionEventType
  pub changed_fields : List String
  pub previous_amount : Option R
  pub new_amount : Option R
  pub previous_monthly_amount : Option R
  pub new_monthly_amount : Option R
  pub previous_currency : String
  pub new_currency : String
  pub previous_next_billing_date : Option String
  pub new_next_billing_date : Option String
  pub previous_status : Option SubscriptionStatus
  pub new_status : Option SubscriptionStatus
  pub previous_renewal_mode : Option SubscriptionRenewalMode
  pub new_renewal_mode : Option SubscriptionRenewalMode
  pub previous_category_name : String
  pub new_category_name : String
  pub previous_payment_method_name : String
  pub new_payment_method_name : String
  pub changed_at : String

pub record SubscriptionEventChangeRow : Type 0 where
  pub label : String
  pub next : String
  pub previous : String

-- The translation `t`, `t` with a default, `formatDate` in the language, and the caller's
-- `formatAmount`.
pub record Formats (R : Type 0) : Type 0 where
  pub t : String → String
  pub t_default : String → String → String
  pub format_date : String → String
  pub format_amount : R → String → String

pub data ChangeMode : Type 0 where
  as_created as_deleted as_updated : ChangeMode

abbrev pub or_text : String → String → String
or_text text fallback = if str_eq text "" then fallback else text

abbrev pub status_name : SubscriptionStatus → String
status_name active = "active"
status_name ended = "ended"

abbrev pub mode_name : SubscriptionRenewalMode → String
mode_name auto_renew = "auto_renew"
mode_name manual_renew = "manual_renew"
mode_name cancel_at_period_end = "cancel_at_period_end"

-- The values that a row shows, by the mode.
unfoldable pub shown_values : ChangeMode → String → String → String → String × String
shown_values as_created empty previous next = (empty, or_text next empty)
shown_values as_deleted empty previous next = (or_text previous empty, empty)
shown_values as_updated empty previous next = (or_text previous empty, or_text next empty)

unfoldable pub value_for_text : ChangeMode → String → String → String → Option (String × String)
value_for_text mode empty previous next =
    if str_eq previous "" && str_eq next ""
    then none
    else some (shown_values mode empty previous next)

unfoldable pub all_fields : List String
all_fields =
    "amount" ∷ "monthly_amount" ∷ "next_billing_date" ∷ "status" ∷ "renewal_mode" ∷ "category"
    ∷ "payment_method" ∷ []

unfoldable pub row_of : String → Option (String × String) → Option SubscriptionEventChangeRow
row_of label none = none
row_of label (some (previous, next)) =
    some (record { label = label; next = next; previous = previous })

-- `map` and then `filter` of the rows that are not null.
unfoldable pub rows_of :
    (String → Option SubscriptionEventChangeRow) → List String → List SubscriptionEventChangeRow
rows_of row [] = []
rows_of row (field ∷ fields) =
    let rest = rows_of row fields in elim (row field) [ none ↦ rest | some r ↦ r ∷ rest ]

abbrev pub fields_or_amount : List String → List String
fields_or_amount [] = "amount" ∷ []
fields_or_amount (f ∷ fs) = f ∷ fs

module _ {R : Type 0} (formats : Formats R) where
  unfoldable pub subscription_event_field_label : String → String
  subscription_event_field_label field =
      let key = concat "reports.recentChanges.fields." field in
      if str_eq (formats.t key) key then field else formats.t key

  unfoldable pub subscription_lifecycle_status_label : Option SubscriptionStatus → String
  subscription_lifecycle_status_label none = ""
  subscription_lifecycle_status_label (some s) =
      formats.t_default (concat "subscription.card.status." (status_name s)) (status_name s)

  unfoldable pub subscription_renewal_mode_label : Option SubscriptionRenewalMode → String
  subscription_renewal_mode_label none = ""
  subscription_renewal_mode_label (some m) =
      formats.t_default (concat "subscription.card.renewalMode." (mode_name m)) (mode_name m)

  abbrev pub amount_text : Option R → String → String
  amount_text none currency = ""
  amount_text (some amount) currency = formats.format_amount amount currency

  abbrev pub is_null : Option R → Bool
  is_null none = true
  is_null (some amount) = false

  unfoldable pub value_for_amount :
      ChangeMode → String → Option R → String → Option R → String → Option (String × String)
  value_for_amount mode empty previous previous_currency next next_currency =
      if is_null previous && is_null next
      then none
      else some (
          shown_values mode empty (amount_text previous previous_currency)
            (amount_text next next_currency))

  abbrev pub date_text : Option String → String
  date_text none = ""
  date_text (some date) = if str_eq date "" then "" else formats.format_date date

  unfoldable pub values_of_field :
      ChangeMode → String → SubscriptionDetailEvent R → String → Option (String × String)
  values_of_field mode empty item field =
      let previous_currency = or_text item.previous_currency item.new_currency in
      let new_currency = or_text item.new_currency item.previous_currency in
      if str_eq field "amount"
      then value_for_amount mode empty item.previous_amount previous_currency item.new_amount
          new_currency
      else if str_eq field "monthly_amount"
      then value_for_amount mode empty item.previous_monthly_amount previous_currency
          item.new_monthly_amount new_currency
      else if str_eq field "currency"
      then value_for_text mode empty item.previous_currency item.new_currency
      else if str_eq field "next_billing_date"
      then value_for_text mode empty (date_text item.previous_next_billing_date)
          (date_text item.new_next_billing_date)
      else if str_eq field "status"
      then value_for_text mode empty (subscription_lifecycle_status_label item.previous_status)
          (subscription_lifecycle_status_label item.new_status)
      else if str_eq field "renewal_mode"
      then value_for_text mode empty (subscription_renewal_mode_label item.previous_renewal_mode)
          (subscription_renewal_mode_label item.new_renewal_mode)
      else if str_eq field "category"
      then value_for_text mode empty item.previous_category_name item.new_category_name
      else if str_eq field "payment_method"
      then value_for_text mode empty item.previous_payment_method_name item.new_payment_method_name
      else none

  unfoldable pub subscription_detail_event_change_row :
      ChangeMode → SubscriptionDetailEvent R → String → Option SubscriptionEventChangeRow
  subscription_detail_event_change_row mode item field =
      row_of (subscription_event_field_label field)
        (values_of_field mode (formats.t "subscription.detail.empty.none") item field)

  abbrev pub rows_by_type :
      SubscriptionEventType → SubscriptionDetailEvent R → List SubscriptionEventChangeRow
  rows_by_type created item =
      rows_of (subscription_detail_event_change_row as_created item) all_fields
  rows_by_type deleted item =
      rows_of (subscription_detail_event_change_row as_deleted item) all_fields
  rows_by_type _ item =
      rows_of (subscription_detail_event_change_row as_updated item)
        (fields_or_amount item.changed_fields)

  unfoldable pub subscription_detail_event_change_rows :
      SubscriptionDetailEvent R → List SubscriptionEventChangeRow
  subscription_detail_event_change_rows item = rows_by_type item.type item

-- The amounts that an event changes; a currency may be missing.
pub record EventAmountChange (R : Type 0) : Type 0 where
  pub new_amount : Option R
  pub new_currency : Option String
  pub previous_amount : Option R
  pub previous_currency : Option String

-- The amounts of a change on one line, under the caller's `formatAmount`.
unfoldable pub format_subscription_event_amount_change :
    {R : Type 0} → EventAmountChange R → (R → Option String → String) → String
format_subscription_event_amount_change item format_amount = elim (item.previous_amount) [
  | some previous ↦ elim (item.new_amount) [
    | some new ↦
        concat (format_amount previous (item.previous_currency))
          (concat " -> " (format_amount new (item.new_currency)))
    | none ↦ format_amount previous (item.previous_currency)
  ]
  | none ↦ elim (item.new_amount) [ some new ↦ format_amount new (item.new_currency) | none ↦ "" ]
]

-- The labels of a type of event, which may be any text, and of a mode in the reports.
unfoldable pub subscription_event_type_label : String → (String → String) → String
subscription_event_type_label type t = t (concat "reports.recentChanges.types." type)

unfoldable pub report_renewal_mode_label : SubscriptionRenewalMode → (String → String) → String
report_renewal_mode_label mode t = t (concat "reports.renewalModes." (mode_name mode))
