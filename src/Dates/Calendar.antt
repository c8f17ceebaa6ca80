-- ===== src/Dates/Calendar.antt =====
-- The calendar that `Date.UTC` counts in: advancing day by day.
use subdux.Base.{Bool, arith, false, leb, leb→le, refl, suc, true, zero, ℕ, ◌+◌, ◌<◌, ◌≡◌, ◌≤◌}
use subdux.Dates.{DateParts, advance, days_in_month, next_day}

pub days_in_month-bounds : (y m : ℕ) → (28 ≤ days_in_month y m) × (days_in_month y m ≤ 31)
unfolding days_in_month
days_in_month-bounds y m = (ground arith, ground arith)

-- A month of the calendar stays one.
pub next_day-month :
    (p : DateParts)
    → (1 ≤ p.month) × (p.month ≤ 12)
    → (1 ≤ (next_day p).month) × ((next_day p).month ≤ 12)
unfolding next_day
next_day-month p (h, k) = (ground arith, ground arith)

pub advance-month :
    (n : ℕ) (p : DateParts)
    → (1 ≤ p.month) × (p.month ≤ 12)
    → (1 ≤ (advance n p).month) × ((advance n p).month ≤ 12)
unfolding advance
advance-month zero p h = h
advance-month (suc n) p h = next_day-month (advance n p) (advance-month n p h)

next_day-year : (p : DateParts) → p.year ≤ (next_day p).year
unfolding next_day
next_day-year p = ground arith

pub advance-year : (n : ℕ) (p : DateParts) → p.year ≤ (advance n p).year
unfolding advance
advance-year zero p = omega arith
advance-year (suc n) p = omega (arith, advance-year n p, next_day-year (advance n p))

-- Within its month the first of a month is advanced to the day asked for.
pub advance-within :
    (n y m : ℕ)
    → n < days_in_month y m
    → advance n (record { year = y; month = m; day = 1 })
      ≡ record { year = y; month = m; day = n + 1 }
unfolding advance
advance-within zero y m h = refl
advance-within (suc n) y m h = rw (advance-within n y m (omega (arith, h))) (one_more n h)
  where
    one_more :
        (k : ℕ)
        → suc k < days_in_month y m
        → next_day (record { year = y; month = m; day = k + 1 })
          ≡ record { year = y; month = m; day = suc k + 1 }
    one_more k l = unfold next_day in ground (arith, l)

next_day-day : (p : DateParts) → (next_day p).day ≤ p.day + 1
unfolding next_day
next_day-day p = ground arith

-- Past the end of the month, the day is smaller than the number asked for.
pub advance-past :
    (n y m : ℕ)
    → days_in_month y m ≤ n
    → (advance n (record { year = y; month = m; day = 1 })).day ≤ n
unfolding advance
advance-past zero y m h = absurd (omega (arith, h, days_in_month-bounds y m))
advance-past (suc n) y m h = by_case (leb (days_in_month y m) n) refl (λ k. advance-past n y m k)
  where
    crossing :
        (k : ℕ)
        → days_in_month y m ≡ suc k
        → (next_day (advance k (record { year = y; month = m; day = 1 }))).day ≤ suc k
    crossing k e =
        rw (advance-within k y m (omega (arith, e))) (unfold next_day in ground (arith, e))

    by_case :
        (b : Bool)
        → leb (days_in_month y m) n ≡ b
        → (days_in_month y m ≤ n → (advance n (record { year = y; month = m; day = 1 })).day ≤ n)
        → (next_day (advance n (record { year = y; month = m; day = 1 }))).day ≤ suc n
    by_case true e past = omega (
      arith,
      past (leb→le (days_in_month y m) n e),
      next_day-day (advance n (record { year = y; month = m; day = 1 })),
    )
    by_case false e past = crossing n (ground (arith, e, h))
