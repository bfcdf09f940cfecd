-- ===== src/OsTime/Times.antt =====
-- `OSTicksToCalendarTime`: the fields of the clock beside the date.
use gamecube_port.Base.{ℕ, ◌+◌, ◌*◌, ◌/◌, ◌%◌, ◌≤◌, ◌<◌, ◌≡◌, refl, arith, some}
use gamecube_port.Base.Signed.{ℤ, pos_part}
use gamecube_port.OsTime.{
  CalendarTime, get_dates, tick_rest, day_and_secs, ticks_per_msec, ticks_per_usec_den,
  ticks_to_calendar_time,
}
use gamecube_port.OsTime.Clock.{day_and_secs-split}
use gamecube_port.OsTime.Dates.{IsDate, get_dates-IsDate}

-- `td` with the fields of the clock.
abbrev timed : ℤ → CalendarTime → CalendarTime
timed ticks td =
    let d = pos_part (tick_rest ticks) in
    let secs = pos_part ((day_and_secs ticks).1) in
    record td {
      usec = d * 8 / ticks_per_usec_den % 1000;
      msec = d / ticks_per_msec % 1000;
      hour = secs / 60 / 60;
      min = secs / 60 % 60;
      sec = secs % 60;
    }

timed_eq :
    (fuel : ℕ) (ticks : ℤ) (td : CalendarTime)
    → get_dates fuel ((day_and_secs ticks).0) ≡ some td
    → ticks_to_calendar_time fuel ticks ≡ some (timed ticks td)
unfolding ticks_to_calendar_time
timed_eq fuel ticks td e = rw (ticks_to_calendar_time, e) refl

-- What a calendar time says of a count of ticks. A microsecond is 40.5 ticks.
pub record IsTime (ticks : ℤ) (c : CalendarTime) : Type 0 where
  pub date : IsDate ((day_and_secs ticks).0) c
  pub of_day : (c.hour * 60 + c.min) * 60 + c.sec ≡ pos_part ((day_and_secs ticks).1)
  pub hours : c.hour < 24
  pub minutes : c.min < 60
  pub seconds : c.sec < 60
  pub milliseconds : c.msec ≡ pos_part (tick_rest ticks) / ticks_per_msec
  pub millisecond : c.msec < 1000
  pub microsecond : c.usec < 1000

-- With enough fuel, every count of ticks has a calendar time: its date is that of its day, and the hour,
-- the minute and the second are the parts of the seconds of the day, the milliseconds and the
-- microseconds those of the rest of the count.
pub ticks_to_calendar_time-IsTime :
    (ticks : ℤ) (fuel : ℕ)
    → pos_part ((day_and_secs ticks).0) / 365 + 2 ≤ fuel
    → (c : CalendarTime) × (ticks_to_calendar_time fuel ticks ≡ some c) × IsTime ticks c
ticks_to_calendar_time-IsTime t fuel h =
    let r = get_dates-IsDate (day_and_secs t).0 fuel h in
    let d = r.2 in
    let split = day_and_secs-split t in
    (
      timed t r.0,
      timed_eq fuel t r.0 r.1,
      record {
        date = record {
          day_of_year = d.day_of_year;
          in_year = d.in_year;
          month = d.month;
          day_of_month = d.day_of_month;
          first = d.first;
          last = d.last;
        };
        of_day = omega arith;
        hours = omega (arith, split);
        minutes = omega arith;
        seconds = omega arith;
        milliseconds = omega (arith, split);
        millisecond = omega arith;
        microsecond = omega arith;
      },
    )
