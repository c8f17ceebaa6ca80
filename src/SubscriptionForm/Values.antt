-- ===== src/SubscriptionForm/Values.antt =====
-- The values of the form and the input that they are sent as: `formatDateInput`,
-- `buildInitialValues` and the payload of `handleSubmit`.
use subdux.Base.{Bool, Option, String, false, if◌then◌else◌, leb, none, some, str_eq, true, ℕ}
use subdux.Subscription.{
  BillingType, IntervalUnit, RecurrenceType, Subscription, SubscriptionRenewalMode,
  SubscriptionStatus, active, auto_renew, cancel_at_period_end, ended, interval, month,
  monthly_date, no_recurrence, no_unit, recurring, yearly_date,
}

pub data SubscriptionNotifySetting : Type 0 where
  default_setting enabled disabled : SubscriptionNotifySetting

pub record SubscriptionFormValues : Type 0 where
  pub amount : String
  pub next_billing_date : String
  pub ends_at : String
  pub category_id : String
  pub currency : String
  pub icon : String
  pub interval_count : String
  pub interval_unit : IntervalUnit
  pub monthly_day : String
  pub name : String
  pub notes : String
  pub notify_days_before : String
  pub notify_enabled : SubscriptionNotifySetting
  pub payment_method_id : String
  pub recurrence_type : RecurrenceType
  pub renewal_mode : SubscriptionRenewalMode
  pub status : SubscriptionStatus
  pub url : String
  pub yearly_day : String
  pub yearly_month : String

-- What `parseInt` gives: a number from zero on, one below zero, or no number.
pub data Parsed : Type 0 where
  whole : ℕ → Parsed
  negative : ℕ → Parsed
  not_a_number : Parsed

-- `R` is the type of amounts, as in `Subscription`.
pub record CreateSubscriptionInput (R : Type 0) : Type 0 where
  pub name : String
  pub amount : R
  pub currency : String
  pub status : SubscriptionStatus
  pub renewal_mode : SubscriptionRenewalMode
  pub ends_at : Option String
  pub billing_type : BillingType
  pub recurrence_type : RecurrenceType
  pub interval_count : Option Parsed
  pub interval_unit : IntervalUnit
  pub next_billing_date : String
  pub monthly_day : Option Parsed
  pub yearly_month : Option Parsed
  pub yearly_day : Option Parsed
  pub category : String
  pub category_id : Option Parsed
  pub payment_method_id : Option Parsed
  pub notify_enabled : Option Bool
  pub notify_days_before : Option ℕ
  pub icon : String
  pub url : String
  pub notes : String

-- JavaScript's numbers and dates: `toString`, `parseInt` and `parseFloat`, today's key, day and
-- month, the date that a text begins with, and the key of a text that `Date` reads.
pub record Runtime (R : Type 0) : Type 0 where
  pub nat_text : ℕ → String
  pub amount_text : R → String
  pub parse_int : String → Parsed
  pub parse_float : String → R
  pub today_key : String
  pub today_day : ℕ
  pub today_month : ℕ
  pub leading_date : String → Option String
  pub parsed_key : String → Option String

abbrev pub max_notification_days_before : ℕ
max_notification_days_before = 10

-- `value || otherwise` on a text that may be missing.
abbrev pub or_text : Option String → String → String
or_text value otherwise = elim value [
  | none ↦ otherwise
  | some v ↦ if str_eq v "" then otherwise else v
]

module _ {R : Type 0} (runtime : Runtime R) where
  unfoldable pub format_date_input : Option String → String
  format_date_input none = runtime.today_key
  format_date_input (some value) =
      if str_eq value "" then runtime.today_key else elim (runtime.leading_date value) [
        | some key ↦ key
        | none ↦ elim (runtime.parsed_key value) [ none ↦ runtime.today_key | some key ↦ key ]
      ]

  -- `value?.toString() || ""` and `(value ?? otherwise).toString()`.
  abbrev pub optional_text : Option ℕ → String
  optional_text value = elim value [ none ↦ "" | some n ↦ runtime.nat_text n ]

  abbrev pub number_text : Option ℕ → ℕ → String
  number_text value otherwise = elim value [
    | none ↦ runtime.nat_text otherwise
    | some n ↦ runtime.nat_text n
  ]

  abbrev pub notify_setting : Option Bool → SubscriptionNotifySetting
  notify_setting none = default_setting
  notify_setting (some true) = enabled
  notify_setting (some false) = disabled

  unfoldable pub build_initial_values : Option (Subscription R) → String → SubscriptionFormValues
  build_initial_values (some subscription) fallback_currency_code = record {
    amount = runtime.amount_text (subscription.amount);
    next_billing_date = format_date_input (subscription.next_billing_date);
    ends_at = format_date_input (elim (subscription.ends_at) [
      | none ↦ subscription.next_billing_date
      | some date ↦ if str_eq date "" then subscription.next_billing_date else some date
    ]);
    category_id = optional_text (subscription.category_id);
    currency = or_text (some (subscription.currency)) fallback_currency_code;
    icon = subscription.icon;
    interval_count = number_text (subscription.interval_count) 1;
    interval_unit = elim (subscription.interval_unit) [ no_unit ↦ month | unit_ ↦ unit_ ];
    monthly_day = number_text (subscription.monthly_day) (runtime.today_day);
    name = subscription.name;
    notes = subscription.notes;
    notify_days_before = optional_text (subscription.notify_days_before);
    notify_enabled = notify_setting (subscription.notify_enabled);
    payment_method_id = optional_text (subscription.payment_method_id);
    recurrence_type = elim (subscription.recurrence_type) [
      | no_recurrence ↦ interval
      | kind ↦ kind
    ];
    renewal_mode = elim (subscription.renewal_mode) [ none ↦ auto_renew | some mode ↦ mode ];
    status = elim (subscription.status) [ none ↦ active | some s ↦ s ];
    url = subscription.url;
    yearly_day = number_text (subscription.yearly_day) (runtime.today_day);
    yearly_month = number_text (subscription.yearly_month) (runtime.today_month);
  }
  build_initial_values none fallback_currency_code = record {
    amount = "";
    next_billing_date = runtime.today_key;
    ends_at = runtime.today_key;
    category_id = "";
    currency = fallback_currency_code;
    icon = "";
    interval_count = "1";
    interval_unit = month;
    monthly_day = runtime.nat_text (runtime.today_day);
    name = "";
    notes = "";
    notify_days_before = "";
    notify_enabled = default_setting;
    payment_method_id = "";
    recurrence_type = interval;
    renewal_mode = auto_renew;
    status = active;
    url = "";
    yearly_day = runtime.nat_text (runtime.today_day);
    yearly_month = runtime.nat_text (runtime.today_month);
  }

  -- `text ? parseInt(text, 10) : null`.
  abbrev pub optional_int : String → Option Parsed
  optional_int value = if str_eq value "" then none else some (runtime.parse_int value)

  -- The days of notice, cut to the range from zero on.
  unfoldable pub clamped_days : Parsed → ℕ
  clamped_days not_a_number = 0
  clamped_days (negative n) = 0
  clamped_days (whole n) =
      if leb n max_notification_days_before then n else max_notification_days_before

  unfoldable pub payload_ends_at : SubscriptionFormValues → Option String
  payload_ends_at values = elim (values.status) [
    | ended ↦ some (values.ends_at)
    | active ↦ elim (values.renewal_mode) [
      | cancel_at_period_end ↦ some (values.next_billing_date)
      | _ ↦ none
    ]
  ]

  abbrev pub if_recurrence : {A : Type 0} → RecurrenceType → RecurrenceType → A → A → A
  if_recurrence interval interval x y = x
  if_recurrence monthly_date monthly_date x y = x
  if_recurrence yearly_date yearly_date x y = x
  if_recurrence no_recurrence no_recurrence x y = x
  if_recurrence _ _ x y = y

  abbrev pub payload_notify_enabled : SubscriptionNotifySetting → Option Bool
  payload_notify_enabled default_setting = none
  payload_notify_enabled enabled = some true
  payload_notify_enabled disabled = some false

  unfoldable pub payload_notify_days : SubscriptionNotifySetting → String → Option ℕ
  payload_notify_days enabled days =
      if str_eq days "" then none else some (clamped_days (runtime.parse_int days))
  payload_notify_days default_setting days = none
  payload_notify_days disabled days = none

  unfoldable pub payload_of : SubscriptionFormValues → String → CreateSubscriptionInput R
  payload_of values icon_value = record {
    name = values.name;
    amount = runtime.parse_float (values.amount);
    currency = values.currency;
    status = values.status;
    renewal_mode = values.renewal_mode;
    ends_at = payload_ends_at values;
    billing_type = recurring;
    recurrence_type = values.recurrence_type;
    interval_count =
        if_recurrence (values.recurrence_type) interval
          (some (runtime.parse_int (values.interval_count))) none;
    interval_unit = if_recurrence (values.recurrence_type) interval (values.interval_unit) no_unit;
    next_billing_date = values.next_billing_date;
    monthly_day =
        if_recurrence (values.recurrence_type) monthly_date
          (some (runtime.parse_int (values.monthly_day))) none;
    yearly_month =
        if_recurrence (values.recurrence_type) yearly_date
          (some (runtime.parse_int (values.yearly_month))) none;
    yearly_day =
        if_recurrence (values.recurrence_type) yearly_date
          (some (runtime.parse_int (values.yearly_day))) none;
    category = "";
    category_id = optional_int (values.category_id);
    payment_method_id = optional_int (values.payment_method_id);
    notify_enabled = payload_notify_enabled (values.notify_enabled);
    notify_days_before = payload_notify_days (values.notify_enabled) (values.notify_days_before);
    icon = icon_value;
    url = values.url;
    notes = values.notes;
  }
