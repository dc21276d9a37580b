-- ===== src/Bek/Time/Calendar.antt =====
-- The calendar from 1970 on, by years and months.
use bek_os.Common.{ℕ, zero, suc, ◌+◌, ◌-◌, Bool, ◌||◌}
use bek_os.Common.Tests.{if◌then◌else◌, ◌==◌}
use bek_os.Bek.Time.{is_leap_year}

abbrev pub days_in_year : ℕ → ℕ
days_in_year year = if is_leap_year year then 366 else 365

-- The days of the `n` years from 1970 on.
abbrev pub days_in_years : ℕ → ℕ
days_in_years zero = 0
days_in_years (suc n) = days_in_years n + days_in_year (1970 + n)

-- Thirty days have September, April, June and November.
abbrev pub days_in_month : Bool → ℕ → ℕ
days_in_month leap month =
    if month == 2
    then if leap then 29 else 28
    else if month == 4 || (month == 6 || (month == 9 || month == 11))
    then 30
    else 31

-- The days of the first `n` months of a year.
abbrev pub days_in_months : Bool → ℕ → ℕ
days_in_months leap zero = 0
days_in_months leap (suc n) = days_in_months leap n + days_in_month leap (suc n)

-- The days from 1970-01-01 up to a date.
abbrev pub days_before : ℕ → ℕ → ℕ → ℕ
days_before year month day =
    days_in_years (year - 1970) + days_in_months (is_leap_year year) (month - 1) + (day - 1)
