-- ===== src/OsTime/Tests.antt =====
-- The start of the year 2000, from which ticks are counted, and a day before year 0.
use gamecube_port.Base.{◌≡◌, ◌+◌, refl, arith, some, ◌<◌, ◌≤◌, ◌/◌}
use gamecube_port.Base.Signed.{ℤ, pos, negsuc, ◌+ℤ◌, ◌-ℤ◌, times, tdiv, tmod, pos_part, neg_part}
use gamecube_port.OsTime.{
  CalendarTime, bias, day_and_secs, tick_rest, total_days, get_leap_days, is_leap_year, get_dates,
  find_year, date_of, find_month, ticks_per_sec, ticks_to_calendar_time,
}
use gamecube_port.OsTime.Clock.{day_and_secs-split}
use gamecube_port.OsTime.Dates.{days_in_year, IsDate, total_days-days_in_year, get_dates-IsDate}
use gamecube_port.OsTime.Times.{IsTime, ticks_to_calendar_time-IsTime}

-- 29 February 2000
leap_day :
    get_dates 6 (pos (bias + 59))
    ≡ some (record {
      sec = 0;
      min = 0;
      hour = 0;
      mday = 29;
      mon = 1;
      year = pos 2000;
      wday = pos 2;
      yday = 59;
      msec = 0;
      usec = 0;
    })
unfolding get_dates find_year date_of find_month total_days get_leap_days is_leap_year times tdiv
    tmod ◌+ℤ◌ ◌-ℤ◌
leap_day = refl

abbrev ticks : ℤ
ticks = negsuc 0

day : (day_and_secs ticks).0 ≡ pos (bias + 0) -ℤ pos 1
unfolding day_and_secs tick_rest tdiv tmod ◌+ℤ◌ ◌-ℤ◌
day = refl

day_and_secs-split_example :
    let (days, secs) = day_and_secs ticks in
    let rest = tick_rest ticks in
    (times ticks_per_sec (times 86400 (days -ℤ pos bias) +ℤ secs) +ℤ rest ≡ ticks)
    × ((neg_part secs ≡ 0) × (pos_part secs < 86400))
    × ((neg_part rest ≡ 0) × (pos_part rest < ticks_per_sec))
day_and_secs-split_example = day_and_secs-split ticks

total_days-days_in_year_example :
    total_days (pos 2001) ≡ total_days (pos 2000) +ℤ pos (days_in_year (pos 2000))
total_days-days_in_year_example = total_days-days_in_year 2000

get_dates-IsDate_example :
    (c : CalendarTime) × (get_dates 2 (negsuc 400) ≡ some c) × IsDate (negsuc 400) c
get_dates-IsDate_example = get_dates-IsDate (negsuc 400) 2 (omega arith)

enough : pos_part ((day_and_secs ticks).0) / 365 + 2 ≤ 2100
unfolding day_and_secs tick_rest tdiv tmod ◌+ℤ◌ ◌-ℤ◌
enough = omega arith

ticks_to_calendar_time-IsTime_example :
    (c : CalendarTime) × (ticks_to_calendar_time 2100 ticks ≡ some c) × IsTime ticks c
ticks_to_calendar_time-IsTime_example = ticks_to_calendar_time-IsTime ticks 2100 enough
