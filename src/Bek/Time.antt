-- ===== src/Bek/Time.antt =====
-- bek/src/time.cpp: calendar dates and times, seconds from 1970 on, and the packed fields of FAT.
pub mod Calendar
pub mod Seconds
pub mod Parts
pub mod Packed
use bek_os.Common.{ℕ, zero, suc, ◌+◌, ◌-◌, ◌*◌, ◌/◌, ◌%◌, ◌^◌, Bool, ◌&&◌, ◌||◌, not}
use bek_os.Common.Tests.{◌==◌, ltb, leb, if◌then◌else◌, add64, sub64, word, word32, sub32}

pub record DecomposedTime : Type 0 where
  pub year : ℕ
  pub month : ℕ
  pub day : ℕ
  pub hour : ℕ
  pub minute : ℕ
  pub second : ℕ
  pub nanosecond : ℕ

pub record UnixTimestamp : Type 0 where
  pub seconds : ℕ
  pub nanoseconds : ℕ

-- MONTH_DAYS, whose index runs from 0 to 12.
unfoldable pub month_days : ℕ → ℕ
month_days zero = 0
month_days (suc zero) = 31
month_days (suc (suc zero)) = 59
month_days (suc (suc (suc zero))) = 90
month_days (suc (suc (suc (suc zero)))) = 120
month_days (suc (suc (suc (suc (suc zero))))) = 151
month_days (suc (suc (suc (suc (suc (suc zero)))))) = 181
month_days (suc (suc (suc (suc (suc (suc (suc zero))))))) = 212
month_days (suc (suc (suc (suc (suc (suc (suc (suc zero)))))))) = 243
month_days (suc (suc (suc (suc (suc (suc (suc (suc (suc zero))))))))) = 273
month_days (suc (suc (suc (suc (suc (suc (suc (suc (suc (suc zero)))))))))) = 304
month_days (suc (suc (suc (suc (suc (suc (suc (suc (suc (suc (suc zero))))))))))) = 334
month_days (suc (suc (suc (suc (suc (suc (suc (suc (suc (suc (suc (suc n)))))))))))) = 365

abbrev pub seconds_in_year : ℕ
seconds_in_year = 31556952

abbrev pub seconds_in_day : ℕ
seconds_in_day = 86400

abbrev pub is_leap_year : ℕ → Bool
is_leap_year year = year % 4 == 0 && (not (year % 100 == 0) || year % 400 == 0)

-- The first lines of from_decomposed: no time is before 1970.
unfoldable pub from_epoch : DecomposedTime → DecomposedTime
from_epoch time =
    if ltb time.year 1970 then record time { year = 1970; month = 1; day = 1 } else time

-- The days before the year. `year` is a `u32`, and so is the first product.
unfoldable pub days_to_year : ℕ → ℕ
days_to_year year =
    add64
      (sub64 (add64 (365 * (year - 1970) % word32) ((year - 1) / 4 - 1969 / 4))
        ((year - 1) / 100 - 1969 / 100))
      ((year - 1) / 400 - 1969 / 400)

-- The days of the year before the month, with a month that is none read as January.
unfoldable pub days_to_month : ℕ → ℕ → ℕ
unfolding month_days
days_to_month year month =
    let month' = if ltb 12 month || ltb month 1 then 1 else month in
    if leb 3 month' && is_leap_year year
    then month_days (month' - 1) + 1
    else month_days (month' - 1)

-- The days of the month before the day, with a day that is none read as the first.
unfoldable pub days_to_day : ℕ → ℕ
days_to_day day = (if ltb day 1 || ltb 31 day then 1 else day) - 1

unfoldable pub from_decomposed : DecomposedTime → UnixTimestamp
from_decomposed time =
    let t = from_epoch time in
    let days =
      add64 (add64 (days_to_year t.year) (days_to_month t.year t.month)) (days_to_day t.day) in
    record {
      seconds =
          add64
            (add64 (add64 (days * seconds_in_day % word) (t.hour * 3600 % word32))
              (t.minute * 60 % word32))
            t.second;
      nanoseconds = t.nanosecond;
    }

-- The loop of decompose over the months, for the rounds up to the twelfth.
unfoldable pub find_month : ℕ → ℕ → ℕ → Bool → ℕ
unfolding month_days
find_month zero month leftover_days leap_year = month
find_month (suc rounds) month leftover_days leap_year =
    let later = find_month rounds (month + 1) leftover_days leap_year in
    let min_days = if leap_year && leb 3 month then month_days month + 1 else month_days month in
    if ltb leftover_days min_days then month else later

unfoldable pub decompose : UnixTimestamp → DecomposedTime
decompose stamp =
    let leftover = stamp.seconds % seconds_in_year in
    let leftover_days = leftover / seconds_in_day in
    let leftover_in_day = leftover % seconds_in_day in
    let year = (stamp.seconds / seconds_in_year + 1970) % word32 in
    let month = find_month 12 1 leftover_days (is_leap_year year) in
    let days = sub64 leftover_days (month_days (month - 1)) % word32 in
    record {
      year = year;
      month = month;
      day = if is_leap_year year && leb 3 (month - 1) then sub32 days 1 else days;
      hour = leftover_in_day / 3600;
      minute = leftover_in_day % 3600 / 60;
      second = leftover_in_day % 60;
      nanosecond = stamp.nanoseconds;
    }

-- The bit fields of DOSPackedDate and DOSPackedTime, the first in the lowest bits.
unfoldable pub dos_date_from : DecomposedTime → ℕ
dos_date_from date =
    date.day % 2 ^ 5 + date.month % 2 ^ 4 * 2 ^ 5 + sub32 date.year 1980 % 2 ^ 7 * 2 ^ 9

unfoldable pub dos_time_from : DecomposedTime → ℕ
dos_time_from time =
    time.second / 2 % 2 ^ 5 + time.minute % 2 ^ 6 * 2 ^ 5 + time.hour % 2 ^ 5 * 2 ^ 11

unfoldable pub datetime_from_dos : ℕ → ℕ → DecomposedTime
datetime_from_dos dos_date dos_time = record {
  year = dos_date / 2 ^ 9 % 2 ^ 7 + 1980;
  month = if dos_date == 0 then 1 else dos_date / 2 ^ 5 % 2 ^ 4;
  day = if dos_date == 0 then 1 else dos_date % 2 ^ 5;
  hour = dos_time / 2 ^ 11 % 2 ^ 5;
  minute = dos_time / 2 ^ 5 % 2 ^ 6;
  second = dos_time % 2 ^ 5 * 2;
  nanosecond = 0;
}
