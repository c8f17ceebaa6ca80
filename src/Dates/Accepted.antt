-- ===== src/Dates/Accepted.antt =====
-- The texts that `toDateParts` accepts by its pattern.
use subdux.Base.{
  Bool, Option, ap, arith, false, if◌then◌else◌, leb, leb→le, ltb, none, refl, some, suc, sym, true,
  zero, ℕ, ◌%◌, ◌&&◌, ◌+◌, ◌-◌, ◌/◌, ◌<◌, ◌==◌, ◌∙◌, ◌≡◌, ◌≤◌,
}
use subdux.Dates.{
  DateParts, Text, advance, before_first, date_only, date_utc, days_in_month, to_date_parts,
}
use subdux.Dates.Calendar.{
  advance-month, advance-past, advance-within, advance-year, days_in_month-bounds,
}

-- A day of the calendar, from the year 100 on.
unfoldable pub is_date : DateParts → Bool
is_date p =
    leb 100 p.year
    && leb 1 p.month
    && leb p.month 12
    && leb 1 p.day
    && leb p.day (days_in_month p.year p.month)

abbrev same_parts : DateParts → DateParts → Bool
same_parts c p = c.year == p.year && c.month == p.month && c.day == p.day

abbrev first_year : DateParts → ℕ
first_year p =
    let y = if ltb p.year 100 then p.year + 1900 else p.year in
    if p.month == 0 then y - 1 else y + (p.month - 1) / 12

abbrev first_month : DateParts → ℕ
first_month p = if p.month == 0 then 12 else (p.month - 1) % 12 + 1

first_month-bounds : (p : DateParts) → (1 ≤ first_month p) × (first_month p ≤ 12)
first_month-bounds p = (ground arith, ground arith)

before_first-month :
    (y m : ℕ)
    → (1 ≤ m) × (m ≤ 12)
    → (1 ≤ (before_first y m).month) × ((before_first y m).month ≤ 12)
unfolding before_first
before_first-month y m (h, k) = (ground (arith, h, k), ground (arith, h, k))

before_first-day : (y m : ℕ) → 1 ≤ (before_first y m).day
unfolding before_first
before_first-day y m = ground (arith, days_in_month-bounds y (m - 1))

before_first-year : (y m : ℕ) → y ≤ (before_first y m).year + 1
unfolding before_first
before_first-year y m = ground arith

date_utc-month : (p : DateParts) → (1 ≤ (date_utc p).month) × ((date_utc p).month ≤ 12)
unfolding date_utc
date_utc-month p = by_day (p.day == 0)
  where
    by_day :
        (b : Bool)
        → (1
            ≤ (if b
                then before_first (first_year p) (first_month p)
                else advance
                    (p.day - 1)
                    (record { year = first_year p; month = first_month p; day = 1 })).month)
          × ((if b
                then before_first (first_year p) (first_month p)
                else advance
                    (p.day - 1)
                    (record { year = first_year p; month = first_month p; day = 1 })).month
              ≤ 12)
    by_day true = before_first-month (first_year p) (first_month p) (first_month-bounds p)
    by_day false = advance-month (p.day - 1) _ (first_month-bounds p)

date_utc-year : (p : DateParts) → first_year p ≤ (date_utc p).year + 1
unfolding date_utc
date_utc-year p = by_day (p.day == 0)
  where
    by_day :
        (b : Bool)
        → first_year p
          ≤ (if b
              then before_first (first_year p) (first_month p)
              else advance
                  (p.day - 1)
                  (record { year = first_year p; month = first_month p; day = 1 })).year
            + 1
    by_day true = before_first-year (first_year p) (first_month p)
    by_day false = omega (
      arith,
      advance-year (p.day - 1) (record { year = first_year p; month = first_month p; day = 1 }),
    )

-- In a month of the calendar the first of the month is the one that is written.
first_self :
    (p : DateParts)
    → 100 ≤ p.year
    → 1 ≤ p.month
    → p.month ≤ 12
    → (first_year p ≡ p.year) × (first_month p ≡ p.month)
first_self p h k l = (ground (arith, h, k, l), ground (arith, h, k, l))

pub date_utc-within :
    (p : DateParts)
    → 100 ≤ p.year
    → 1 ≤ p.month
    → p.month ≤ 12
    → 1 ≤ p.day
    → p.day ≤ days_in_month p.year p.month
    → date_utc p ≡ p
unfolding date_utc
date_utc-within p h k l d e =
    let (y, m) = first_self p h k l in
    rw (not_zero p.day d, y, m)
      (advance-within (p.day - 1) p.year p.month (omega (arith, d, e))
        ∙ ap (λ n. record { year = p.year; month = p.month; day = n }) (omega (arith, d)))
  where
    not_zero : (n : ℕ) → 1 ≤ n → (n == 0) ≡ false
    not_zero n q = ground (arith, q)

date_utc-past :
    (p : DateParts)
    → 100 ≤ p.year
    → 1 ≤ p.month
    → p.month ≤ 12
    → days_in_month p.year p.month < p.day
    → (date_utc p).day < p.day
unfolding date_utc
date_utc-past p h k l e =
    let (y, m) = first_self p h k l in
    rw (not_zero p.day (omega (arith, e)), y, m)
      (omega (arith, e, advance-past (p.day - 1) p.year p.month (omega (arith, e))))
  where
    not_zero : (n : ℕ) → 1 ≤ n → (n == 0) ≡ false
    not_zero n q = ground (arith, q)

date_utc-day_zero : (p : DateParts) → p.day ≡ 0 → 1 ≤ (date_utc p).day
unfolding date_utc
date_utc-day_zero p e = rw e (before_first-day (first_year p) (first_month p))

early_year : (p : DateParts) → p.year < 100 → p.year + 2 ≤ first_year p
early_year p h = ground (arith, h)

Bool-ext : (a b : Bool) → (a ≡ true → b ≡ true) → (b ≡ true → a ≡ true) → a ≡ b
Bool-ext true b h k = sym (h refl)
Bool-ext false true h k = k refl
Bool-ext false false h k = refl

same_parts_iff :
    (c p : DateParts)
    → same_parts c p ≡ true
    → (c.year ≡ p.year) × (c.month ≡ p.month) × (c.day ≡ p.day)
same_parts_iff c p h = (ground (arith, h), ground (arith, h), ground (arith, h))

same_parts_self : (p : DateParts) → same_parts p p ≡ true
same_parts_self p = ground arith

pub is_date_iff :
    (p : DateParts)
    → is_date p ≡ true
    → (100 ≤ p.year)
      × (1 ≤ p.month)
      × (p.month ≤ 12)
      × (1 ≤ p.day)
      × (p.day ≤ days_in_month p.year p.month)
unfolding is_date
is_date_iff p h =
    (ground (arith, h), ground (arith, h), ground (arith, h), ground (arith, h), ground (arith, h))

is_date-given :
    (p : DateParts)
    → 100 ≤ p.year
    → 1 ≤ p.month
    → p.month ≤ 12
    → 1 ≤ p.day
    → p.day ≤ days_in_month p.year p.month
    → is_date p ≡ true
unfolding is_date
is_date-given p h k l d e = ground (arith, h, k, l, d, e)

unchanged-is_date : (p : DateParts) → same_parts (date_utc p) p ≡ true → is_date p ≡ true
unchanged-is_date p h =
    let (y, m, d) = same_parts_iff (date_utc p) p h in
    let (k, l) = date_utc-month p in
    let year : 100 ≤ p.year = in_range (leb 100 p.year) refl y in
    let month_low : 1 ≤ p.month = omega (arith, m, k) in
    let month_high : p.month ≤ 12 = omega (arith, m, l) in
    let day_low : 1 ≤ p.day = positive p.day refl d in
    let day_high : p.day ≤ days_in_month p.year p.month =
      at_most (leb p.day (days_in_month p.year p.month)) refl year month_low month_high d in
    is_date-given p year month_low month_high day_low day_high
  where
    in_range : (b : Bool) → leb 100 p.year ≡ b → (date_utc p).year ≡ p.year → 100 ≤ p.year
    in_range true e y = leb→le 100 p.year e
    in_range false e y =
        absurd (omega (arith, y, date_utc-year p, early_year p (ground (arith, e))))

    positive : (n : ℕ) → p.day ≡ n → (date_utc p).day ≡ p.day → 1 ≤ p.day
    positive zero e d = absurd (omega (arith, e, d, date_utc-day_zero p e))
    positive (suc n) e d = omega (arith, e)

    at_most :
        (b : Bool)
        → leb p.day (days_in_month p.year p.month) ≡ b
        → 100 ≤ p.year
        → 1 ≤ p.month
        → p.month ≤ 12
        → (date_utc p).day ≡ p.day
        → p.day ≤ days_in_month p.year p.month
    at_most true e y m n d = leb→le p.day (days_in_month p.year p.month) e
    at_most false e y m n d = absurd (omega (arith, d, date_utc-past p y m n (ground (arith, e))))

same_parts-is_date : (p : DateParts) → same_parts (date_utc p) p ≡ is_date p
same_parts-is_date p = Bool-ext (same_parts (date_utc p) p) (is_date p) (unchanged-is_date p) back
  where
    back : is_date p ≡ true → same_parts (date_utc p) p ≡ true
    back h =
        let (y, m, n, d, e) = is_date_iff p h in
        rw (date_utc-within p y m n d e) (same_parts_self p)

pub to_date_parts-is_date :
    (trim : Text → Text) (parse_date : Text → Option DateParts) (value : Text) (p : DateParts)
    → date_only (trim value) ≡ some p
    → to_date_parts trim parse_date value ≡ (if is_date p then some p else none)
unfolding to_date_parts
to_date_parts-is_date trim parse_date value p e = rw (to_date_parts, e, same_parts-is_date p) refl
