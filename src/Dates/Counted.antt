-- ===== src/Dates/Counted.antt =====
-- `daysUntil`, against advancing day by day.
use subdux.Base.{
  Bool, Option, ap, arith, false, if◌then◌else◌, ltb, ltb→lt, none, refl, some, subst, suc, true,
  zero, ℕ, ◌+◌, ◌==◌, ◌≡◌, ◌≤◌,
}
use subdux.Dates.{
  DateParts, Days, Text, advance, ahead, behind, date_only, date_utc, day_number, days_before_month,
  days_before_year, days_between, days_in_month, days_until, is_leap, next_day, not_a_number,
  to_local_date,
}
use subdux.Dates.Accepted.{date_utc-within, is_date, is_date_iff, to_date_parts-is_date}
use subdux.Dates.Calendar.{days_in_month-bounds}

days_before_month-next :
    (y m : ℕ) → 1 ≤ m → days_before_month y (m + 1) ≡ days_before_month y m + days_in_month y m
days_before_month-next y m h =
    subst (λ k. days_before_month y k ≡ days_before_month y m + days_in_month y m) (one_more m)
      (counted m h)
  where
    one_more : (k : ℕ) → suc k ≡ k + 1
    one_more k = omega arith

    counted :
        (k : ℕ) → 1 ≤ k → days_before_month y (suc k) ≡ days_before_month y k + days_in_month y k
    counted k q = unfold days_before_month in ground (arith, q)

days_before_year-next :
    (y : ℕ) → days_before_year (y + 1) ≡ days_before_year y + (if is_leap y then 366 else 365)
days_before_year-next y =
    subst (λ k. days_before_year k ≡ days_before_year y + (if is_leap y then 366 else 365))
      (one_more y) counted
  where
    one_more : (k : ℕ) → suc k ≡ k + 1
    one_more k = omega arith

    counted : days_before_year (suc y) ≡ days_before_year y + (if is_leap y then 366 else 365)
    counted = unfold days_before_year in refl

days_before_december : (y : ℕ) → days_before_month y 12 + 31 ≡ (if is_leap y then 366 else 365)
unfolding days_before_month days_in_month
days_before_december y = ground arith

-- The last day of December and the first of a month.
days_before_first : (y : ℕ) → days_before_month y 1 ≡ 0
unfolding days_before_month
days_before_first y = refl

december_long : (y : ℕ) → days_in_month y 12 ≡ 31
unfolding days_in_month
december_long y = refl

abbrev IsDay : DateParts → Type 0
IsDay p = (1 ≤ p.month) × (p.month ≤ 12) × (1 ≤ p.day) × (p.day ≤ days_in_month p.year p.month)

next_day-count : (p : DateParts) → IsDay p → day_number (next_day p) ≡ day_number p + 1
unfolding day_number next_day
next_day-count p (h, k, l, e) =
    by_tests (ltb p.day (days_in_month p.year p.month)) (p.month == 12) refl refl
  where
    by_tests :
        (b c : Bool)
        → ltb p.day (days_in_month p.year p.month) ≡ b
        → (p.month == 12) ≡ c
        → day_number (
            if b
            then record p { day = p.day + 1 }
            else if c
            then record { year = p.year + 1; month = 1; day = 1 }
            else record { year = p.year; month = p.month + 1; day = 1 })
          ≡ days_before_year p.year + days_before_month p.year p.month + p.day + 1
    by_tests true c q r = omega arith
    by_tests false false q r = omega (
      arith,
      days_before_month-next p.year p.month h,
      last p.day (days_in_month p.year p.month) q e,
    )
      where
        last : (d n : ℕ) → ltb d n ≡ false → d ≤ n → d ≡ n
        last d n a b = ground (arith, a, b)
    by_tests false true q r = december (month_is p.month r)
      where
        month_is : (m : ℕ) → (m == 12) ≡ true → m ≡ 12
        month_is m a = ground (arith, a)

        last : (d n : ℕ) → ltb d n ≡ false → d ≤ n → d ≡ n
        last d n a b = ground (arith, a, b)

        december :
            p.month ≡ 12
            → days_before_year (p.year + 1) + days_before_month (p.year + 1) 1 + 1
              ≡ days_before_year p.year + days_before_month p.year p.month + p.day + 1
        december m = omega (
          arith,
          days_before_year-next p.year,
          days_before_first (p.year + 1),
          days_before_december p.year,
          ap (days_before_month p.year) m,
          last p.day (days_in_month p.year p.month) q e,
          ap (days_in_month p.year) m,
          december_long p.year,
        )

next_day-IsDay : (p : DateParts) → IsDay p → IsDay (next_day p)
unfolding next_day
next_day-IsDay p (h, k, l, e) =
    by_tests (ltb p.day (days_in_month p.year p.month)) (p.month == 12) refl refl
  where
    by_tests :
        (b c : Bool)
        → ltb p.day (days_in_month p.year p.month) ≡ b
        → (p.month == 12) ≡ c
        → IsDay (
            if b
            then record p { day = p.day + 1 }
            else if c
            then record { year = p.year + 1; month = 1; day = 1 }
            else record { year = p.year; month = p.month + 1; day = 1 })
    by_tests true c q r =
        (h, k, omega arith, omega (arith, ltb→lt p.day (days_in_month p.year p.month) q))
    by_tests false true q r =
        (omega arith, omega arith, omega arith, omega (arith, days_in_month-bounds (p.year + 1) 1))
    by_tests false false q r = (
      omega arith,
      below p.month k r,
      omega arith,
      omega (arith, days_in_month-bounds p.year (p.month + 1)),
    )
      where
        below : (m : ℕ) → m ≤ 12 → (m == 12) ≡ false → m + 1 ≤ 12
        below m a b = ground (arith, a, b)

advance-IsDay : (n : ℕ) (p : DateParts) → IsDay p → IsDay (advance n p)
unfolding advance
advance-IsDay zero p h = h
advance-IsDay (suc n) p h = next_day-IsDay (advance n p) (advance-IsDay n p h)

advance-count : (n : ℕ) (p : DateParts) → IsDay p → day_number (advance n p) ≡ day_number p + n
unfolding advance
advance-count zero p h = omega arith
advance-count (suc n) p h =
    omega (arith, next_day-count (advance n p) (advance-IsDay n p h), advance-count n p h)

-- How far a date is from today: by advancing one to the other, where the date is a day of the
-- calendar from the year 100 on.
pub data IsAway (now target : DateParts) : Days → Type 0 where
  later : (n : ℕ) → is_date target ≡ true → target ≡ advance n now → IsAway now target (ahead n)
  earlier :
      (n : ℕ)
      → is_date target ≡ true
      → now ≡ advance (suc n) target
      → IsAway now target (behind (suc n))
  no_day : is_date target ≡ false → IsAway now target not_a_number

is_date-IsDay : (p : DateParts) → is_date p ≡ true → IsDay p
is_date-IsDay p h = let (y, m, n, d, e) = is_date_iff p h in (m, n, d, e)

-- The days between a day and an accepted date.
days_of-IsAway :
    (now target : DateParts) (days : Days)
    → IsDay now
    → IsAway now target days
    → (elim (if is_date target then some target else none) as (λ o. Days) [
      | none ↦ not_a_number
      | some t ↦ days_between now t
    ])
      ≡ days
days_of-IsAway now target _ h (no_day k) = rw k refl
days_of-IsAway now target _ h (later n k e) = rw k (unfold days_between in ground (arith, apart_by))
  where
    apart_by : day_number target ≡ day_number now + n
    apart_by = rw e (advance-count n now h)
days_of-IsAway now target _ h (earlier n k e) =
    rw k (unfold days_between in ground (arith, apart_by))
  where
    apart_by : day_number now ≡ day_number target + suc n
    apart_by = rw e (advance-count (suc n) target (is_date-IsDay target k))

to_local_date-is_date :
    (trim : Text → Text) (parse_date : Text → Option DateParts) (value : Text) (p : DateParts)
    → date_only (trim value) ≡ some p
    → to_local_date trim parse_date value ≡ (if is_date p then some p else none)
unfolding to_local_date
to_local_date-is_date trim parse_date value p e =
    rw (to_local_date, to_date_parts-is_date trim parse_date value p e) (by_date (is_date p) refl)
  where
    by_date :
        (b : Bool)
        → is_date p ≡ b
        → (elim (if b then some p else none) as (λ o. Option DateParts) [
          | none ↦ none
          | some parts ↦ some (date_utc parts)
        ])
          ≡ (if b then some p else none)
    by_date true h = let (y, m, n, d, k) = is_date_iff p h in ap some (date_utc-within p y m n d k)
    by_date false h = refl

-- `daysUntil` of a text with the form of a date: n where the date is today advanced by n days, minus
-- n where today is the date advanced by n days, one at least, and no number where the text names no
-- day of the calendar or a year below 100, which `Date.UTC` takes for the twentieth century's.
pub days_until-IsAway :
    (trim : Text → Text) (parse_date : Text → Option DateParts) (now : DateParts) (value : Text)
    (target : DateParts) (days : Days)
    → is_date now ≡ true
    → date_only (trim value) ≡ some target
    → IsAway now target days
    → days_until trim parse_date now value ≡ days
unfolding days_until
days_until-IsAway trim parse_date now value target days h e a =
    rw (days_until, to_local_date-is_date trim parse_date value target e)
      (days_of-IsAway now target days (is_date-IsDay now h) a)
