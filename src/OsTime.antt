-- ===== src/OsTime.antt =====
-- sdk_port/os/OSTime.c: the calendar time of a count of ticks. The integers are unbounded; the values
-- of a 64-bit count stay within the types of the source, but for `ticks - d` within one second of the
-- least count.
pub mod Clock
pub mod Years
pub mod Months
pub mod Dates
pub mod Times
mod Tests
use gamecube_port.Base.{
  ℕ, zero, suc, ◌+◌, ◌-◌, ◌*◌, ◌/◌, ◌%◌, Bool, true, false, not, ◌&&◌, ◌||◌, Option, none, some,
  List, [], ◌∷◌, ltb, ◌==◌, if◌then◌else◌, get_or,
}
use gamecube_port.Base.Signed.{
  ℤ, pos, negsuc, pos_part, neg_part, sub_ℕ, ◌+ℤ◌, ◌-ℤ◌, times, tdiv, tmod, ltb_ℤ,
}

-- `TICKS_PER_SEC`, `TICKS_PER_MSEC`, `TICKS_PER_USEC_DEN`
abbrev pub ticks_per_sec : ℕ
ticks_per_sec = 40500000

abbrev pub ticks_per_msec : ℕ
ticks_per_msec = 40500

abbrev pub ticks_per_usec_den : ℕ
ticks_per_usec_den = 324

-- `OSCalendarTime`. The fields but the year and the day of the week are never negative.
pub record CalendarTime : Type 0 where
  pub sec : ℕ
  pub min : ℕ
  pub hour : ℕ
  pub mday : ℕ
  pub mon : ℕ
  pub year : ℤ
  pub wday : ℤ
  pub yday : ℕ
  pub msec : ℕ
  pub usec : ℕ

-- `YearDays` and `LeapYearDays`
abbrev pub year_days : List ℕ
year_days = 0 ∷ 31 ∷ 59 ∷ 90 ∷ 120 ∷ 151 ∷ 181 ∷ 212 ∷ 243 ∷ 273 ∷ 304 ∷ 334 ∷ []

abbrev pub leap_year_days : List ℕ
leap_year_days = 0 ∷ 31 ∷ 60 ∷ 91 ∷ 121 ∷ 152 ∷ 182 ∷ 213 ∷ 244 ∷ 274 ∷ 305 ∷ 335 ∷ []

abbrev pub is_zero : ℤ → Bool
is_zero a = (pos_part a == 0) && (neg_part a == 0)

-- `IsLeapYear`
unfoldable pub is_leap_year : ℤ → Bool
unfolding tmod
is_leap_year year =
    (is_zero (tmod year 4) && not (is_zero (tmod year 100))) || is_zero (tmod year 400)

-- `GetLeapDays`
unfoldable pub get_leap_days : ℤ → ℤ
unfolding ◌+ℤ◌ ◌-ℤ◌ tdiv
get_leap_days year =
    if ltb_ℤ year (pos 1)
    then pos 0
    else tdiv (year +ℤ pos 3) 4 -ℤ tdiv (year -ℤ pos 1) 100 +ℤ tdiv (year -ℤ pos 1) 400

-- `totalDays`, in `GetDates`: the days before the year.
unfoldable pub total_days : ℤ → ℤ
unfolding get_leap_days times ◌+ℤ◌
total_days year = times 365 year +ℤ get_leap_days year

-- The loop of `GetDates` over the years.
unfoldable pub find_year : (fuel : ℕ) → (days year : ℤ) → Option ℤ
unfolding total_days ◌-ℤ◌
find_year zero days year = none
find_year (suc fuel) days year =
    let rest = find_year fuel days (year -ℤ pos 1) in
    if ltb_ℤ days (total_days year) then rest else some year

-- The loop of `GetDates` over the months below `month`.
unfoldable pub find_month : (month days : ℕ) → List ℕ → ℕ
find_month zero days table = 0
find_month (suc month) days table =
    let rest = find_month month days table in
    if ltb days (get_or table month 0) then rest else month

-- The rest of `GetDates`: the date of the day `yday` of a year.
unfoldable pub date_of : (year wday : ℤ) (yday : ℕ) → CalendarTime
unfolding is_leap_year find_month
date_of year wday yday =
    let table = if is_leap_year year then leap_year_days else year_days in
    let month = find_month 12 yday table in
    record {
      sec = 0;
      min = 0;
      hour = 0;
      mday = yday - get_or table month 0 + 1;
      mon = month;
      year = year;
      wday = wday;
      yday = yday;
      msec = 0;
      usec = 0;
    }

-- `GetDates`; the loop over the years ends with no day of the year below 0.
unfoldable pub get_dates : (fuel : ℕ) → (days : ℤ) → Option CalendarTime
unfolding find_year date_of total_days tdiv tmod ◌+ℤ◌ ◌-ℤ◌
get_dates fuel days = elim (find_year fuel days (tdiv days 365)) [
  | none ↦ none
  | some year ↦ some (date_of year (tmod (days +ℤ pos 6) 7) (pos_part (days -ℤ total_days year)))
]

-- `BIAS`
abbrev pub bias : ℕ
bias = 2000 * 365 + (2000 + 3) / 4 - (2000 - 1) / 100 + (2000 - 1) / 400

-- The ticks of the last second, in `OSTicksToCalendarTime`.
unfoldable pub tick_rest : ℤ → ℤ
unfolding tmod ◌+ℤ◌
tick_rest ticks =
    let d = tmod ticks ticks_per_sec in if ltb_ℤ d (pos 0) then d +ℤ pos ticks_per_sec else d

-- The days and the seconds of the last day, in `OSTicksToCalendarTime`.
unfoldable pub day_and_secs : ℤ → ℤ × ℤ
unfolding tick_rest tdiv tmod ◌+ℤ◌ ◌-ℤ◌
day_and_secs ticks =
    let seconds = tdiv (ticks -ℤ tick_rest ticks) ticks_per_sec in
    let days = tdiv seconds 86400 +ℤ pos bias in
    let secs = tmod seconds 86400 in
    if ltb_ℤ secs (pos 0) then (days -ℤ pos 1, secs +ℤ pos 86400) else (days, secs)

-- `OSTicksToCalendarTime`
unfoldable pub ticks_to_calendar_time : (fuel : ℕ) → (ticks : ℤ) → Option CalendarTime
unfolding get_dates tick_rest day_and_secs
ticks_to_calendar_time fuel ticks =
    let d = pos_part (tick_rest ticks) in
    let r = day_and_secs ticks in
    let secs = pos_part (r.1) in
    elim (get_dates fuel (r.0)) [
      | none ↦ none
      | some td ↦ some (record td {
        usec = d * 8 / ticks_per_usec_den % 1000;
        msec = d / ticks_per_msec % 1000;
        hour = secs / 60 / 60;
        min = secs / 60 % 60;
        sec = secs % 60;
      })
    ]
