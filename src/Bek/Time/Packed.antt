-- ===== src/Bek/Time/Packed.antt =====
-- The packed dates and times of FAT, there and back.
use bek_os.Common.{◌*◌, ◌/◌, ◌^◌, ℕ, ◌≤◌, ◌<◌, ◌≡◌, ◌≢◌, arith}
use bek_os.Bek.Time.{DecomposedTime, dos_date_from, dos_time_from, datetime_from_dos}

-- The fields that the packed forms have room for.
abbrev pub FitsDos : DecomposedTime → Type 0
FitsDos t =
    (1980 ≤ t.year)
    × (t.year < 2108)
    × (t.month < 16)
    × (t.day < 32)
    × (t.hour < 32)
    × (t.minute < 64)
    × (t.second < 64)

-- A date and time whose fields the packed forms have room for comes back from them, but for an odd
-- second and the nanoseconds, unless the packed date is 0.
pub datetime_from_dos-dos_date_from :
    (t : DecomposedTime)
    → FitsDos t
    → dos_date_from t ≢ 0
    → datetime_from_dos (dos_date_from t) (dos_time_from t)
      ≡ record t { second = t.second / 2 * 2; nanosecond = 0 }
unfolding dos_date_from dos_time_from datetime_from_dos
datetime_from_dos-dos_date_from t f n = ground arith

-- Packed fields of 16 bits come back from the date and time that they are read as, unless the date
-- is 0.
pub dos_date_from-datetime_from_dos :
    (dos_date dos_time : ℕ)
    → dos_date < 2 ^ 16
    → dos_time < 2 ^ 16
    → dos_date ≢ 0
    → (dos_date_from (datetime_from_dos dos_date dos_time) ≡ dos_date)
      × (dos_time_from (datetime_from_dos dos_date dos_time) ≡ dos_time)
unfolding dos_date_from dos_time_from datetime_from_dos
dos_date_from-datetime_from_dos d t h k n = ground arith
