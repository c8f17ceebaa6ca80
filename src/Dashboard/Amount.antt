-- ===== src/Dashboard/Amount.antt =====
-- web/src/features/dashboard/dashboard-amount-utils.ts. JavaScript's numbers are a parameter: a
-- quotient of naturals, the product, a finite number above 0, truth, and the sign of a difference.
use subdux.Base.{
  Bool, Option, String, TextMap, concat, if◌then◌else◌, none, some, str_eq, ℕ, ◌*◌, ◌==◌, ◌||◌,
}
use subdux.Subscription.{
  IntervalUnit, RecurrenceType, Subscription, day, interval, is_recurring, month, monthly_date,
  no_recurrence, no_unit, week, year, yearly_date,
}

pub data Sign : Type 0 where
  less equal greater : Sign

abbrev pub flip : Sign → Sign
flip less = greater
flip equal = equal
flip greater = less

pub record Numbers (R : Type 0) : Type 0 where
  pub quotient : ℕ → ℕ → R
  pub times : R → R → R
  pub is_rate : R → Bool
  pub is_truthy : R → Bool
  pub difference : R → R → Sign

module _ {R : Type 0} (numbers : Numbers R) where
  -- The rate under a key, where it is one.
  abbrev pub converted : R → Option R → R
  converted amount none = amount
  converted amount (some rate) = if numbers.is_rate rate then numbers.times amount rate else amount

  -- `normalize` is `trim` and then `toUpperCase`.
  unfoldable pub get_amount_in_target_currency :
      (String → String) → R → String → String → TextMap R → R
  get_amount_in_target_currency normalize amount source target exchange_rates =
      let normalized_source = normalize source in
      let normalized_target = normalize target in
      if str_eq normalized_source ""
        || str_eq normalized_target ""
        || str_eq normalized_source normalized_target
      then amount
      else converted amount
          (exchange_rates (concat normalized_source (concat "->" normalized_target)))

  -- 30.436875 days and 4.348125 weeks are a month.
  unfoldable pub interval_factor : IntervalUnit → ℕ → Option R
  interval_factor day n = some (numbers.quotient 30436875 (1000000 * n))
  interval_factor week n = some (numbers.quotient 4348125 (1000000 * n))
  interval_factor month n = some (numbers.quotient 1 n)
  interval_factor year n = some (numbers.quotient 1 (12 * n))
  interval_factor no_unit n = none

  abbrev pub counted : IntervalUnit → Option ℕ → Option R
  counted unit none = none
  counted unit (some n) = if n == 0 then none else interval_factor unit n

  abbrev pub recurrence_factor : RecurrenceType → IntervalUnit → Option ℕ → Option R
  recurrence_factor interval unit count = counted unit count
  recurrence_factor monthly_date unit count = some (numbers.quotient 1 1)
  recurrence_factor yearly_date unit count = some (numbers.quotient 1 12)
  recurrence_factor no_recurrence unit count = none

  unfoldable pub get_monthly_amount_factor : Subscription R → Option R
  get_monthly_amount_factor s =
      if is_recurring s.billing_type
      then recurrence_factor s.recurrence_type s.interval_unit s.interval_count
      else none

  abbrev pub scaled : R → Option R → R
  scaled amount none = amount
  scaled amount (some f) = if numbers.is_truthy f then numbers.times amount f else amount

  unfoldable pub get_comparable_subscription_amount :
      (String → String) → Subscription R → String → TextMap R → R
  get_comparable_subscription_amount normalize s preferred_currency exchange_rates =
      scaled
        (get_amount_in_target_currency normalize s.amount s.currency preferred_currency
          exchange_rates)
        (get_monthly_amount_factor s)
