-- ===== src/SubscriptionForm/Unedited.antt =====
-- The input of a form that nobody edited, and the bounds of every input.
use package.text.Mathlib.TextEquality.{eq_iff}
use subdux.Base.{
  Bool, Option, String, ap, arith, false, if◌then◌else◌, none, refl, some, str_eq, true, ℕ, ◌≡◌,
  ◌≢◌, ◌≤◌,
}
use subdux.Subscription.{
  IntervalUnit, RecurrenceType, Subscription, SubscriptionRenewalMode, SubscriptionStatus, day,
  interval, month, monthly_date, no_recurrence, no_unit, week, year, yearly_date,
}
use subdux.SubscriptionForm.Values.{
  CreateSubscriptionInput, Parsed, Runtime, SubscriptionFormValues, SubscriptionNotifySetting,
  build_initial_values, clamped_days, default_setting, disabled, enabled, negative, not_a_number,
  notify_setting, optional_int, optional_text, payload_notify_days, payload_notify_enabled,
  payload_of, whole,
}

abbrev as_whole : Option ℕ → Option Parsed
as_whole none = none
as_whole (some n) = some (whole n)

-- The fields that the kind of recurrence uses are there.
abbrev HasRecurrence : {R : Type 0} → Subscription R → RecurrenceType → Type 0
HasRecurrence subscription interval =
    (n : ℕ) × (subscription.interval_count ≡ some n) × (subscription.interval_unit ≢ no_unit)
HasRecurrence subscription monthly_date = (n : ℕ) × (subscription.monthly_day ≡ some n)
HasRecurrence subscription yearly_date =
    (m : ℕ) × (n : ℕ) × (subscription.yearly_month ≡ some m) × (subscription.yearly_day ≡ some n)
HasRecurrence subscription no_recurrence = ⊥

-- A subscription as the server stores it: nothing that the form has a default for is missing, and
-- the days of notice are in their range.
pub record IsComplete {R : Type 0} (subscription : Subscription R) : Type 0 where
  pub currency_given : subscription.currency ≢ ""
  pub status_given : (s : SubscriptionStatus) × (subscription.status ≡ some s)
  pub mode_given : (m : SubscriptionRenewalMode) × (subscription.renewal_mode ≡ some m)
  pub recurrence_given : HasRecurrence subscription (subscription.recurrence_type)
  pub days_in_range : (n : ℕ) → subscription.notify_days_before ≡ some n → n ≤ 10

abbrev KeepsRecurrence :
    {R : Type 0} → Subscription R → CreateSubscriptionInput R → RecurrenceType → Type 0
KeepsRecurrence subscription input interval =
    (input.interval_count ≡ as_whole (subscription.interval_count))
    × (input.interval_unit ≡ subscription.interval_unit)
KeepsRecurrence subscription input monthly_date =
    input.monthly_day ≡ as_whole (subscription.monthly_day)
KeepsRecurrence subscription input yearly_date =
    (input.yearly_month ≡ as_whole (subscription.yearly_month))
    × (input.yearly_day ≡ as_whole (subscription.yearly_day))
KeepsRecurrence subscription input no_recurrence = Unit

-- The input says what the subscription says.
pub record Keeps {R : Type 0} (subscription : Subscription R) (input : CreateSubscriptionInput R)
    : Type 0 where
  pub name_kept : input.name ≡ subscription.name
  pub amount_kept : input.amount ≡ subscription.amount
  pub currency_kept : input.currency ≡ subscription.currency
  pub status_kept : some (input.status) ≡ subscription.status
  pub mode_kept : some (input.renewal_mode) ≡ subscription.renewal_mode
  pub type_kept : input.recurrence_type ≡ subscription.recurrence_type
  pub recurrence_kept : KeepsRecurrence subscription input (subscription.recurrence_type)
  pub category_kept : input.category_id ≡ as_whole (subscription.category_id)
  pub method_kept : input.payment_method_id ≡ as_whole (subscription.payment_method_id)
  pub notify_kept : input.notify_enabled ≡ subscription.notify_enabled
  pub days_kept :
      subscription.notify_enabled ≡ some true
      → input.notify_days_before ≡ subscription.notify_days_before
  pub icon_kept : input.icon ≡ subscription.icon
  pub url_kept : input.url ≡ subscription.url
  pub notes_kept : input.notes ≡ subscription.notes

module _ {R : Type 0} (runtime : Runtime R)
    (parse_float_text : (r : R) → runtime.parse_float (runtime.amount_text r) ≡ r)
    (parse_int_text : (n : ℕ) → runtime.parse_int (runtime.nat_text n) ≡ whole n)
    (nat_text_filled : (n : ℕ) → runtime.nat_text n ≢ "") where
  optional_int_text :
      (value : Option ℕ) → optional_int runtime (optional_text runtime value) ≡ as_whole value
  optional_int_text none = refl
  optional_int_text (some n) = rw (not_empty) (ap some (parse_int_text n))
    where
      not_empty : str_eq (runtime.nat_text n) "" ≡ false
      not_empty = ground (arith, nat_text_filled n, eq_iff (runtime.nat_text n) "")

  notify_self :
      (value : Option Bool) → payload_notify_enabled runtime (notify_setting runtime value) ≡ value
  notify_self none = refl
  notify_self (some true) = refl
  notify_self (some false) = refl

  days_self :
      (value : Option ℕ)
      → ((n : ℕ) → value ≡ some n → n ≤ 10)
      → payload_notify_days runtime enabled (optional_text runtime value) ≡ value
  unfolding payload_notify_days
  days_self none h = refl
  days_self (some n) h =
      rw (not_empty, parse_int_text n) (unfold clamped_days in ground (arith, h n refl))
    where
      not_empty : str_eq (runtime.nat_text n) "" ≡ false
      not_empty = ground (arith, nat_text_filled n, eq_iff (runtime.nat_text n) "")

  module _ (subscription : Subscription R) (fallback ends_at : String) where
    -- The input of the first values, whatever end the effects have put in.
    abbrev pub unedited : CreateSubscriptionInput R
    unedited =
        payload_of runtime
          (record (build_initial_values runtime (some subscription) fallback) { ends_at = ends_at })
          (subscription.icon)

    keeps_recurrence :
        (kind : RecurrenceType)
        → subscription.recurrence_type ≡ kind
        → HasRecurrence subscription kind
        → KeepsRecurrence subscription unedited kind
    unfolding payload_of build_initial_values
    keeps_recurrence interval e (n, c, u) =
        (rw (e, c) (ap some (parse_int_text n)), rw e (unit_self (subscription.interval_unit) u))
      where
        unit_self :
            (unit_ : IntervalUnit)
            → unit_ ≢ no_unit
            → (elim unit_ as (λ u. IntervalUnit) [ no_unit ↦ month | v ↦ v ]) ≡ unit_
        unit_self day h = refl
        unit_self week h = refl
        unit_self month h = refl
        unit_self year h = refl
        unit_self no_unit h = absurd (h refl)
    keeps_recurrence monthly_date e (n, c) = rw (e, c) (ap some (parse_int_text n))
    keeps_recurrence yearly_date e (m, n, c, d) =
        (rw (e, c) (ap some (parse_int_text m)), rw (e, d) (ap some (parse_int_text n)))
    keeps_recurrence no_recurrence e h = absurd h

    type_self :
        (kind : RecurrenceType)
        → HasRecurrence subscription kind
        → (elim kind as (λ k. RecurrenceType) [ no_recurrence ↦ interval | k ↦ k ]) ≡ kind
    type_self interval h = refl
    type_self monthly_date h = refl
    type_self yearly_date h = refl
    type_self no_recurrence h = absurd h

    -- The first values say what a complete subscription says.
    pub payload_of-build_initial_values : IsComplete subscription → Keeps subscription unedited
    unfolding payload_of build_initial_values
    payload_of-build_initial_values h = record {
      name_kept = refl;
      amount_kept = parse_float_text (subscription.amount);
      currency_kept = ground (arith, h.currency_given, eq_iff (subscription.currency) "");
      status_kept = rw (h.status_given.1) refl;
      mode_kept = rw (h.mode_given.1) refl;
      type_kept = type_self (subscription.recurrence_type) (h.recurrence_given);
      recurrence_kept = keeps_recurrence (subscription.recurrence_type) refl (h.recurrence_given);
      category_kept = optional_int_text (subscription.category_id);
      method_kept = optional_int_text (subscription.payment_method_id);
      notify_kept = notify_self (subscription.notify_enabled);
      days_kept = λ e. rw e (days_self (subscription.notify_days_before) (h.days_in_range));
      icon_kept = refl;
      url_kept = refl;
      notes_kept = refl;
    }

-- Whatever the form holds, the days of notice that are sent are at most ten, and they are sent
-- only where notifications are on.
pub payload_of-notify_days :
    {R : Type 0} (runtime : Runtime R) (values : SubscriptionFormValues) (icon_value : String)
    (n : ℕ)
    → (payload_of runtime values icon_value).notify_days_before ≡ some n
    → (n ≤ 10) × ((payload_of runtime values icon_value).notify_enabled ≡ some true)
unfolding payload_of payload_notify_days
payload_of-notify_days runtime values icon_value n e = by_setting (values.notify_enabled) e
  where
    by_setting :
        (setting : SubscriptionNotifySetting)
        → payload_notify_days runtime setting (values.notify_days_before) ≡ some n
        → (n ≤ 10) × (payload_notify_enabled runtime setting ≡ some true)
    by_setting default_setting q = absurd cc
    by_setting disabled q = absurd cc
    by_setting enabled q = (
      at_most (runtime.parse_int (values.notify_days_before))
          (str_eq (values.notify_days_before) "") q,
      refl,
    )
      where
        at_most :
            (p : Parsed) (b : Bool)
            → (if b then none else some (clamped_days runtime p)) ≡ some n
            → n ≤ 10
        at_most p true r = absurd cc
        at_most (whole m) false r = unfold clamped_days in ground (arith, r)
        at_most (negative m) false r = unfold clamped_days in ground (arith, r)
        at_most not_a_number false r = unfold clamped_days in ground (arith, r)
