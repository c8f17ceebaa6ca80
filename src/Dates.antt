-- ===== src/Dates.antt =====
-- web/src/lib/utils.ts: the dates without a time, as texts and as parts, and the days until one. A
-- text is the list of its UTF-16 units, `trim` and the parser of `Date` are parameters, and a date
-- of the calendar is advanced day by day, as `Date.UTC` counts.
pub mod Calendar
pub mod Accepted
pub mod Counted
mod Witnesses
use subdux.Base.{
  Bool, List, Option, [], if◌then◌else◌, leb, ltb, none, not, some, suc, zero, ℕ, ◌%◌, ◌&&◌, ◌*◌,
  ◌+◌, ◌-◌, ◌/◌, ◌==◌, ◌||◌, ◌∷◌,
}

abbrev pub Text : Type 0
Text = List ℕ

pub record DateParts : Type 0 where
  pub year : ℕ
  pub month : ℕ
  pub day : ℕ

unfoldable pub digits_from : ℕ → Text → Option ℕ
digits_from n [] = some n
digits_from n (u ∷ us) =
    let rest = digits_from (n * 10 + (u - 48)) us in if leb 48 u && leb u 57 then rest else none

abbrev pub digits : Text → Option ℕ
digits us = digits_from 0 us

abbrev pub all_parts : Option ℕ → Option ℕ → Option ℕ → Option DateParts
all_parts (some y) (some m) (some d) = some (record { year = y; month = m; day = d })
all_parts _ _ _ = none

-- `DATE_ONLY_PATTERN`: four digits, two and two, with a hyphen between them, and anything after.
unfoldable pub date_only : Text → Option DateParts
date_only (a ∷ b ∷ c ∷ d ∷ h ∷ e ∷ f ∷ k ∷ g ∷ i ∷ rest) =
    if h == 45 && k == 45
    then all_parts (digits (a ∷ b ∷ c ∷ d ∷ [])) (digits (e ∷ f ∷ [])) (digits (g ∷ i ∷ []))
    else none
date_only _ = none

unfoldable pub is_leap : ℕ → Bool
is_leap y = y % 4 == 0 && not (y % 100 == 0) || y % 400 == 0

unfoldable pub days_in_month : ℕ → ℕ → ℕ
days_in_month y m =
    if m == 2
    then if is_leap y then 29 else 28
    else if m == 4 || m == 6 || m == 9 || m == 11
    then 30
    else 31

unfoldable pub next_day : DateParts → DateParts
next_day p =
    if ltb p.day (days_in_month p.year p.month)
    then record p { day = p.day + 1 }
    else if p.month == 12
    then record { year = p.year + 1; month = 1; day = 1 }
    else record { year = p.year; month = p.month + 1; day = 1 }

unfoldable pub advance : ℕ → DateParts → DateParts
advance zero p = p
advance (suc n) p = next_day (advance n p)

-- The day before the first of a month.
unfoldable pub before_first : ℕ → ℕ → DateParts
before_first y m =
    if m == 1
    then record { year = y - 1; month = 12; day = 31 }
    else record { year = y; month = m - 1; day = days_in_month y (m - 1) }

-- `new Date(Date.UTC(year, month - 1, day))`, whose month and day may be out of range; a year
-- below 100 is one of the twentieth century.
unfoldable pub date_utc : DateParts → DateParts
date_utc p =
    let y = if ltb p.year 100 then p.year + 1900 else p.year in
    let first_year = if p.month == 0 then y - 1 else y + (p.month - 1) / 12 in
    let first_month = if p.month == 0 then 12 else (p.month - 1) % 12 + 1 in
    if p.day == 0
    then before_first first_year first_month
    else advance (p.day - 1) (record { year = first_year; month = first_month; day = 1 })

module _ (trim : Text → Text) (parse_date : Text → Option DateParts) where
  unfoldable pub to_date_parts : Text → Option DateParts
  to_date_parts value = elim (date_only (trim value)) [
    | none ↦ parse_date value
    | some p ↦
        let c = date_utc p in
        if c.year == p.year && c.month == p.month && c.day == p.day then some p else none
  ]

-- The number of a day, by counting.
unfoldable pub days_before_year : ℕ → ℕ
days_before_year zero = 0
days_before_year (suc y) = days_before_year y + (if is_leap y then 366 else 365)

unfoldable pub days_before_month : ℕ → ℕ → ℕ
days_before_month y zero = 0
days_before_month y (suc m) = days_before_month y m + (if m == 0 then 0 else days_in_month y m)

unfoldable pub day_number : DateParts → ℕ
day_number p = days_before_year p.year + days_before_month p.year p.month + p.day

pub data Days : Type 0 where
  not_a_number : Days
  ahead behind : ℕ → Days

-- `Math.round(diff / DAY_IN_MS)`, of two midnights.
unfoldable pub days_between : DateParts → DateParts → Days
days_between now target =
    if leb (day_number now) (day_number target)
    then ahead (day_number target - day_number now)
    else behind (day_number now - day_number target)

module _ (trim : Text → Text) (parse_date : Text → Option DateParts) where
  -- `new Date(year, month - 1, day)` is taken to be the day of `Date.UTC`: the local zone skips no
  -- day.
  unfoldable pub to_local_date : Text → Option DateParts
  to_local_date value = elim (to_date_parts trim parse_date value) [
    | none ↦ none
    | some parts ↦ some (date_utc parts)
  ]

  unfoldable pub days_until : DateParts → Text → Days
  days_until now date = elim (to_local_date date) [
    | none ↦ not_a_number
    | some target ↦ days_between now target
  ]
