-- ===== src/Bek/Time/Seconds.antt =====
-- from_decomposed counts the seconds of the calendar.
use bek_os.Common.{
  ℕ, zero, suc, ◌+◌, ◌-◌, ◌*◌, ◌/◌, ◌%◌, ◌^◌, ◌≤◌, ◌<◌, ◌≡◌, refl, ap, Bool, false, ◌&&◌, arith,
}
use bek_os.Common.Tests.{leb, if◌then◌else◌, ltb, add64, word, word32}
use bek_os.Bek.Time.{
  DecomposedTime, from_decomposed, is_leap_year, month_days, days_to_year, days_to_month,
  days_to_day, from_epoch, seconds_in_day, UnixTimestamp,
}
use bek_os.Bek.Time.Calendar.{days_in_years, days_in_months, days_before}

days_in_years-leaps :
    (n : ℕ)
    → days_in_years n + 492 + 4 + (1969 + n) / 100
      ≡ 365 * n + (1969 + n) / 4 + (1969 + n) / 400 + 19
days_in_years-leaps zero = omega arith
days_in_years-leaps (suc n) = ground (arith, days_in_years-leaps n)

days_in_years-le : (n : ℕ) → days_in_years n ≤ 366 * n
days_in_years-le zero = omega arith
days_in_years-le (suc n) = ground (arith, days_in_years-le n)

days_to_year_lem :
    (year : ℕ)
    → 1970 ≤ year
    → year < 2 ^ 23
    → (days_to_year year ≡ days_in_years (year - 1970)) × (days_in_years (year - 1970) < 2 ^ 32)
unfolding days_to_year
days_to_year_lem year h k =
    let n = year - 1970 in
    let leaps = days_in_years-leaps n in
    let bound = days_in_years-le n in (omega arith, omega arith)

-- The table of the source against the lengths of the months.
month_days_lem :
    (leap : Bool) (n : ℕ)
    → n < 12
    → (if leap && leb 2 n then month_days n + 1 else month_days n) ≡ days_in_months leap n
unfolding month_days
month_days_lem leap zero h = ground arith
month_days_lem leap (suc zero) h = ground arith
month_days_lem leap (suc (suc zero)) h = ground arith
month_days_lem leap (suc (suc (suc zero))) h = ground arith
month_days_lem leap (suc (suc (suc (suc zero)))) h = ground arith
month_days_lem leap (suc (suc (suc (suc (suc zero))))) h = ground arith
month_days_lem leap (suc (suc (suc (suc (suc (suc zero)))))) h = ground arith
month_days_lem leap (suc (suc (suc (suc (suc (suc (suc zero))))))) h = ground arith
month_days_lem leap (suc (suc (suc (suc (suc (suc (suc (suc zero)))))))) h = ground arith
month_days_lem leap (suc (suc (suc (suc (suc (suc (suc (suc (suc zero))))))))) h = ground arith
month_days_lem leap (suc (suc (suc (suc (suc (suc (suc (suc (suc (suc zero)))))))))) h =
    ground arith
month_days_lem leap (suc (suc (suc (suc (suc (suc (suc (suc (suc (suc (suc zero))))))))))) h =
    ground arith
month_days_lem leap (suc (suc (suc (suc (suc (suc (suc (suc (suc (suc (suc (suc n)))))))))))) h =
    absurd (omega arith)

days_to_month_lem :
    (year month : ℕ)
    → 1 ≤ month
    → month ≤ 12
    → days_to_month year month ≡ days_in_months (is_leap_year year) (month - 1)
unfolding days_to_month
days_to_month_lem year month h k = ground (arith, month_days_lem (is_leap_year year) (month - 1))

days_in_months-le : (leap : Bool) (n : ℕ) → days_in_months leap n ≤ 31 * n
days_in_months-le leap zero = omega arith
days_in_months-le leap (suc n) = ground (arith, days_in_months-le leap n)

from_epoch_lem : (t : DecomposedTime) → 1970 ≤ t.year → from_epoch t ≡ t
unfolding from_epoch
from_epoch_lem t h = let late : ltb t.year 1970 ≡ false = ground arith in rw late refl

days_to_day_lem : (day : ℕ) → 1 ≤ day → day ≤ 31 → days_to_day day ≡ day - 1
unfolding days_to_day
days_to_day_lem day h k = ground arith

seconds_lem :
    (y m d h i s ns : ℕ)
    → y < 2 ^ 32
    → m < 2 ^ 32
    → d < 2 ^ 32
    → h < 24
    → i < 60
    → s < 60
    → ◌≡◌ {A = UnixTimestamp}
        (record {
          seconds =
              add64
                (add64
                  (add64 (add64 (add64 y m) d * seconds_in_day % word) (h * 3600 % word32))
                  (i * 60 % word32))
                s;
          nanoseconds = ns;
        })
        (record {
          seconds = (y + m + d) * seconds_in_day + h * 3600 + i * 60 + s;
          nanoseconds = ns;
        })
seconds_lem y m d h i s ns a b c e f g =
    ap (λ (k : ℕ). record { seconds = k; nanoseconds = ns }) (omega arith)

-- from_decomposed of a date of the calendar between the years 1970 and 2 ^ 23 is the number of
-- seconds that the calendar has up to it, and keeps the nanoseconds.
pub from_decomposed_lem :
    (t : DecomposedTime)
    → 1970 ≤ t.year
    → t.year < 2 ^ 23
    → 1 ≤ t.month
    → t.month ≤ 12
    → 1 ≤ t.day
    → t.day ≤ 31
    → t.hour < 24
    → t.minute < 60
    → t.second < 60
    → from_decomposed t ≡ record {
      seconds =
          days_before t.year t.month t.day * seconds_in_day
          + t.hour * 3600
          + t.minute * 60
          + t.second;
      nanoseconds = t.nanosecond;
    }
unfolding from_decomposed
from_decomposed_lem t y y' m m' d d' h i s =
    let year = days_to_year_lem t.year y y' in
    let month = days_to_month_lem t.year t.month m m' in
    let le = days_in_months-le (is_leap_year t.year) (t.month - 1) in
    let epoch = from_epoch_lem t y in
    let day = days_to_day_lem t.day d d' in
    rw (epoch, from_decomposed)
      (rw (year.0, month, day)
        (seconds_lem (days_in_years (t.year - 1970))
          (days_in_months (is_leap_year t.year) (t.month - 1)) (t.day - 1) t.hour t.minute t.second
          t.nanosecond year.1 (omega arith) (omega arith) h i s))
