-- ===== src/Tests/Times.antt =====
-- Dates and times at concrete inputs (bek/src/time.cpp).
use bek_os.Common.{◌+◌, ◌-◌, ◌*◌, ◌≡◌, ◌<◌, ◌≤◌, ◌⊎◌, refl, arith}
use bek_os.Bek.Time.{
  DecomposedTime, UnixTimestamp, seconds_in_day, seconds_in_year, is_leap_year, month_days,
  find_month, from_decomposed, decompose,
}
use bek_os.Bek.Time.Seconds.{from_decomposed_lem}
use bek_os.Bek.Time.Parts.{days_through, decompose_lem}

abbrev leap_day : DecomposedTime
leap_day = record {
  year = 2024;
  month = 2;
  day = 29;
  hour = 12;
  minute = 34;
  second = 56;
  nanosecond = 7;
}

abbrev leap_stamp : UnixTimestamp
leap_stamp = record { seconds = 1709210096; nanoseconds = 7 }

from_decomposed_lem_example : from_decomposed leap_day ≡ leap_stamp
from_decomposed_lem_example =
    from_decomposed_lem leap_day (omega arith) (omega arith) (omega arith) (omega arith)
      (omega arith) (omega arith) (omega arith) (omega arith) (omega arith)

decompose_lem_example :
    let t = decompose leap_stamp in
    let leap = is_leap_year t.year in
    ((t.year - 1970) * seconds_in_year
        + (days_through leap (t.month - 1) + t.day) * seconds_in_day
        + t.hour * 3600
        + t.minute * 60
        + t.second
      ≡ leap_stamp.seconds)
    × (1970 ≤ t.year)
    × (1 ≤ t.month)
    × ((t.month ≡ 13) ⊎ (days_through leap (t.month - 1) + t.day < days_through leap t.month))
    × (t.hour < 24)
    × (t.minute < 60)
    × (t.second < 60)
    × (t.nanosecond ≡ leap_stamp.nanoseconds)
decompose_lem_example = decompose_lem leap_stamp (omega arith)

-- The last day of an average year is behind the twelve months of a common one.
last_day :
    decompose (record { seconds = 31536000; nanoseconds = 0 })
    ≡ record { year = 1970; month = 13; day = 0; hour = 0; minute = 0; second = 0; nanosecond = 0 }
unfolding decompose find_month month_days
last_day = refl

first_day :
    decompose (record { seconds = 0; nanoseconds = 0 })
    ≡ record { year = 1970; month = 1; day = 0; hour = 0; minute = 0; second = 0; nanosecond = 0 }
unfolding decompose find_month month_days
first_day = refl
