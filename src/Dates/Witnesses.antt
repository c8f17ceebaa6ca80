-- ===== src/Dates/Witnesses.antt =====
-- Runs with concrete dates.
use subdux.Base.{[], none, refl, ◌∷◌, ◌≡◌}
use subdux.Dates.{
  DateParts, Text, advance, ahead, date_only, date_utc, days_in_month, days_until, digits_from,
  is_leap, next_day, not_a_number, to_date_parts, to_local_date,
}
use subdux.Dates.Accepted.{is_date}
use subdux.Dates.Counted.{days_until-IsAway, later}

-- "2026-02-30" and "2026-03-02".
abbrev february_30 : Text
february_30 = 50 ∷ 48 ∷ 50 ∷ 54 ∷ 45 ∷ 48 ∷ 50 ∷ 45 ∷ 51 ∷ 48 ∷ []

abbrev march_2 : Text
march_2 = 50 ∷ 48 ∷ 50 ∷ 54 ∷ 45 ∷ 48 ∷ 51 ∷ 45 ∷ 48 ∷ 50 ∷ []

abbrev today : DateParts
today = record { year = 2026; month = 2; day = 27 }

abbrev target : DateParts
target = record { year = 2026; month = 3; day = 2 }

-- There is no such day.
february_30_until : days_until (λ t. t) (λ t. none) today february_30 ≡ not_a_number
unfolding days_until to_local_date to_date_parts date_only digits_from date_utc advance next_day
    days_in_month is_leap
february_30_until = refl

days_until-IsAway_example : days_until (λ t. t) (λ t. none) today march_2 ≡ ahead 3
unfolding date_only digits_from is_date days_in_month is_leap advance next_day
days_until-IsAway_example =
    days_until-IsAway (λ t. t) (λ t. none) today march_2 target (ahead 3) refl refl
      (later 3 refl refl)
