-- ===== src/Bek/Time/Parts.antt =====
-- decompose splits the seconds and loses none of them.
use bek_os.Common.{
  ℕ, zero, suc, ◌+◌, ◌-◌, ◌*◌, ◌/◌, ◌%◌, ◌^◌, ◌≤◌, ◌<◌, ◌≡◌, refl, subst, Bool, true, false, ◌&&◌,
  ◌⊎◌, inl, inr, arith,
}
use bek_os.Common.Tests.{
  ltb, leb, if◌then◌else◌, Bool-cases, word32, sub64, sub32, ltb→lt, ltb-false,
}
use bek_os.Bek.Time.{
  UnixTimestamp, decompose, find_month, is_leap_year, month_days, seconds_in_day, seconds_in_year,
}

-- The days that decompose counts for the first `n` months. A leap year has its additional day at the
-- end of March.
abbrev pub days_through : Bool → ℕ → ℕ
days_through leap n = if leap && leb 3 n then month_days n + 1 else month_days n

month_days-le : (n : ℕ) → month_days n ≤ 365
unfolding month_days
month_days-le zero = omega arith
month_days-le (suc zero) = omega arith
month_days-le (suc (suc zero)) = omega arith
month_days-le (suc (suc (suc zero))) = omega arith
month_days-le (suc (suc (suc (suc zero)))) = omega arith
month_days-le (suc (suc (suc (suc (suc zero))))) = omega arith
month_days-le (suc (suc (suc (suc (suc (suc zero)))))) = omega arith
month_days-le (suc (suc (suc (suc (suc (suc (suc zero))))))) = omega arith
month_days-le (suc (suc (suc (suc (suc (suc (suc (suc zero)))))))) = omega arith
month_days-le (suc (suc (suc (suc (suc (suc (suc (suc (suc zero))))))))) = omega arith
month_days-le (suc (suc (suc (suc (suc (suc (suc (suc (suc (suc zero)))))))))) = omega arith
month_days-le (suc (suc (suc (suc (suc (suc (suc (suc (suc (suc (suc zero))))))))))) = omega arith
month_days-le (suc (suc (suc (suc (suc (suc (suc (suc (suc (suc (suc (suc n)))))))))))) =
    omega arith

-- The loop ends at the month in which the day lies, or behind the last.
abbrev Found : ℕ → ℕ → Bool → ℕ → Type 0
Found last day leap month =
    (1 ≤ month)
    × (month ≤ last)
    × (days_through leap (month - 1) ≤ day)
    × ((month ≡ last) ⊎ (day < days_through leap month))

find_month_stops :
    (rounds month day : ℕ) (leap : Bool)
    → ltb day (days_through leap month) ≡ true
    → find_month (suc rounds) month day leap ≡ month
unfolding find_month
find_month_stops rounds month day leap e = rw e refl

find_month_goes :
    (rounds month day : ℕ) (leap : Bool)
    → ltb day (days_through leap month) ≡ false
    → find_month (suc rounds) month day leap ≡ find_month rounds (month + 1) day leap
unfolding find_month
find_month_goes rounds month day leap e = rw e refl

find_month_lem :
    (rounds month day : ℕ) (leap : Bool)
    → 1 ≤ month
    → days_through leap (month - 1) ≤ day
    → Found (month + rounds) day leap (find_month rounds month day leap)
find_month_lem zero month day leap h s = unfold find_month in (h, omega arith, s, inl (omega arith))
find_month_lem (suc rounds) month day leap h s =
    elim (Bool-cases (ltb day (days_through leap month))) [
      | inl stop ↦
          rw (find_month_stops rounds month day leap stop)
            (h, omega arith, s, inr (ltb→lt day (days_through leap month) stop))
      | inr go ↦
          let back : month + 1 - 1 ≡ month = omega arith in
          let reached : days_through leap (month + 1 - 1) ≤ day =
            rw back (ltb-false day (days_through leap month) go) in
          let last : month + 1 + rounds ≡ month + suc rounds = omega arith in
          rw (find_month_goes rounds month day leap go) (
            subst (λ l. Found l day leap (find_month rounds (month + 1) day leap)) last
              (find_month_lem rounds (month + 1) day leap (omega arith) reached))
    ]

month_day_lem :
    (leap : Bool) (month day : ℕ)
    → days_through leap (month - 1) ≤ day
    → day < 366
    → (if leap && leb 3 (month - 1)
        then sub32 (sub64 day (month_days (month - 1)) % word32) 1
        else sub64 day (month_days (month - 1)) % word32)
      ≡ day - days_through leap (month - 1)
month_day_lem leap month day s h = let le = month_days-le (month - 1) in ground arith

days_through-zero : (leap : Bool) → days_through leap 0 ≡ 0
unfolding month_days
days_through-zero leap = ground arith

-- decompose of less than about 2 ^ 56 seconds: the fields of the time of day are in range, and with
-- the average years and the days through the months before, they make up the seconds again. The month
-- is the one in which the day lies by the same count, or 13 for the day behind the last.
pub decompose_lem :
    (stamp : UnixTimestamp)
    → stamp.seconds < 2 ^ 56
    → let t = decompose stamp in
      let leap = is_leap_year t.year in
      ((t.year - 1970) * seconds_in_year
          + (days_through leap (t.month - 1) + t.day) * seconds_in_day
          + t.hour * 3600
          + t.minute * 60
          + t.second
        ≡ stamp.seconds)
      × (1970 ≤ t.year)
      × (1 ≤ t.month)
      × ((t.month ≡ 13) ⊎ (days_through leap (t.month - 1) + t.day < days_through leap t.month))
      × (t.hour < 24)
      × (t.minute < 60)
      × (t.second < 60)
      × (t.nanosecond ≡ stamp.nanoseconds)
unfolding decompose
decompose_lem stamp h =
    let year = (stamp.seconds / seconds_in_year + 1970) % word32 in
    let leap = is_leap_year year in
    let day = stamp.seconds % seconds_in_year / seconds_in_day in
    let found =
      find_month_lem 12 1 day leap (omega arith) (rw (days_through-zero leap) (omega arith)) in
    let month = find_month 12 1 day leap in
    let small : day < 366 = omega arith in
    let back = month_day_lem leap month day found.2 small in
    (
      omega (arith, back, found.2),
      omega arith,
      found.0,
      elim found.3 [
        | inl last ↦ inl (omega arith)
        | inr inside ↦ inr (omega (arith, back, found.2))
      ],
      omega arith,
      omega arith,
      omega arith,
      refl,
    )
