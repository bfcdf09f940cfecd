-- ===== src/OsTime/Dates.antt =====
-- `GetDates` against the Gregorian calendar: months by their lengths, years by the leap rule.
use mathlib.Core.Path.{subst}
use gamecube_port.Base.{
  ℕ, zero, suc, ◌+◌, ◌*◌, ◌/◌, ◌%◌, ◌≤◌, ◌<◌, ◌≡◌, ◌∙◌, refl, sym, ap, arith, Bool, true, false,
  not, ◌&&◌, ◌||◌, ◌==◌, if◌then◌else◌, ltb→lt, some, get_or,
}
use gamecube_port.Base.Signed.{
  ℤ, pos, negsuc, pos_part, neg_part, ◌+ℤ◌, ◌-ℤ◌, tdiv, tmod, ltb_ℤ, eq_of_parts, one_part,
  +ℤ_parts, -ℤ_parts, tmod_parts,
}
use gamecube_port.OsTime.{
  CalendarTime, year_days, leap_year_days, is_zero, is_leap_year, total_days, find_year, find_month,
  date_of, get_dates,
}
use gamecube_port.OsTime.Years.{
  minus, total_minus, next_minus, next_pos, total_pos, total_neg, total_zero, leaps, IsYear,
  find_year-IsYear,
}
use gamecube_port.OsTime.Months.{
  months, sum_take, tables, get-starts, sum_take-suc, InMonth, find_month-InMonth, sum_months,
  months_length,
}

abbrev year_length : Bool → ℕ
year_length leap = if leap then 366 else 365

-- The days of a year by the leap rule.
abbrev pub days_in_year : ℤ → ℕ
days_in_year y = if is_leap_year y then 366 else 365

zero_test : (y n : ℕ) → 0 < n → is_zero (tmod (pos y) n) ≡ (y % n == 0)
zero_test y n h = let t = tmod_parts (pos y) n h in ground (arith, t, h)

leap_rule :
    (y : ℕ) → is_leap_year (pos y) ≡ (((y % 4 == 0) && not (y % 100 == 0)) || (y % 400 == 0))
unfolding is_leap_year
leap_rule y =
    rw (zero_test y 4 (omega arith), zero_test y 100 (omega arith), zero_test y 400 (omega arith))
      refl

leaps-suc :
    (y : ℕ)
    → 1 ≤ y
    → suc y * 365 + leaps (suc y)
      ≡ y * 365
        + leaps y
        + (if ((y % 4 == 0) && not (y % 100 == 0)) || (y % 400 == 0) then 366 else 365)
leaps-suc y h = ground (arith, h)

year_one : total_days (pos 1) ≡ pos 366
year_one = let a = total_pos 1 (omega arith) in eq_of_parts _ _ (omega (arith, a))

year_zero : total_days (pos 0) +ℤ pos (days_in_year (pos 0)) ≡ pos 366
unfolding is_leap_year total_days tmod ◌+ℤ◌
year_zero = refl

year_at_least : (leap : Bool) → 365 ≤ (if leap then 366 else 365)
year_at_least true = omega arith
year_at_least false = omega arith

negsuc-minus : (n : ℕ) → negsuc n ≡ minus (suc n)
negsuc-minus n = eq_of_parts _ _ (ground arith)

-- The source's closed formula for the days before a year from 0 on agrees with the leap rule: the next
-- year starts as many days later as the year has.
pub total_days-days_in_year :
    (y : ℕ) → total_days (pos (suc y)) ≡ total_days (pos y) +ℤ pos (days_in_year (pos y))
total_days-days_in_year zero = year_one ∙ sym year_zero
total_days-days_in_year (suc y) =
    let n = days_in_year (pos (suc y)) in
    let t = total_days (pos (suc y)) +ℤ pos n in
    let a = total_pos (suc y) (omega arith) in
    let b = total_pos (suc (suc y)) (omega arith) in
    let c = leaps-suc (suc y) (omega arith) in
    let d = ap year_length (leap_rule (suc y)) in
    let e = +ℤ_parts (total_days (pos (suc y))) (pos n) in
    eq_of_parts _ _ (omega (arith, a, b, c, d, e, one_part t))

-- The days before a year from 0 on, by the leap rule alone.
abbrev days_before : ℕ → ℕ
days_before zero = 0
days_before (suc y) = days_before y + days_in_year (pos y)

-- The first day of a year, and how long it is: before year 0 each year has 365 days.
abbrev pub first_day : ℤ → ℤ
first_day (pos y) = pos (days_before y)
first_day (negsuc n) = minus (suc n * 365)

abbrev pub days_counted : ℤ → ℕ
days_counted (pos y) = days_in_year (pos y)
days_counted (negsuc n) = 365

pos_sum : (a b : ℕ) → pos a +ℤ pos b ≡ pos (a + b)
unfolding ◌+ℤ◌
pos_sum a b = ground arith

total_days-first_day : (y : ℤ) → total_days y ≡ first_day y
total_days-first_day (pos zero) = total_zero
total_days-first_day (pos (suc y)) =
    total_days-days_in_year y
    ∙ ap (λ t. t +ℤ pos (days_in_year (pos y))) (total_days-first_day (pos y))
    ∙ pos_sum (days_before y) (days_in_year (pos y))
total_days-first_day (negsuc n) = let t = total_neg n in eq_of_parts _ _ (ground (arith, t))

counted_most : (y : ℤ) → days_counted y ≤ days_in_year y
counted_most (pos y) = omega arith
counted_most (negsuc n) = year_at_least (is_leap_year (negsuc n))

-- The day of the year.
year_day :
    (days year : ℤ)
    → IsYear days year
    → let d = pos_part (days -ℤ total_days year) in
      (total_days year +ℤ pos d ≡ days) × (d < days_counted year)
year_day days year r = (back, bound year r)
  where
    early : (y : ℤ) → IsYear days y → neg_part (days -ℤ total_days y) ≡ 0
    early y h =
        let u = -ℤ_parts days (total_days y) in
        let le : pos_part (total_days y) + neg_part days ≤ pos_part days + neg_part (total_days y) =
          ground (arith, h.started) in
        omega (arith, u, le, one_part (days -ℤ total_days y))

    back : total_days year +ℤ pos (pos_part (days -ℤ total_days year)) ≡ days
    back =
        let d = pos_part (days -ℤ total_days year) in
        let u = -ℤ_parts days (total_days year) in
        let v = +ℤ_parts (total_days year) (pos d) in
        eq_of_parts _ _ (omega (arith, u, v, early year r))

    bound : (y : ℤ) → IsYear days y → pos_part (days -ℤ total_days y) < days_counted y
    bound (pos y) h =
        let n = days_in_year (pos y) in
        let e : ltb_ℤ days (total_days (pos y) +ℤ pos n) ≡ true =
          ap (ltb_ℤ days) (sym (total_days-days_in_year y))
          ∙ ap (λ z. ltb_ℤ days (total_days z)) (sym (next_pos y))
          ∙ h.before_next in
        let l = ltb→lt _ _ e in
        let u = -ℤ_parts days (total_days (pos y)) in
        let v = +ℤ_parts (total_days (pos y)) (pos n) in omega (arith, u, v, l, early (pos y) h)
    bound (negsuc n) h =
        let a = total_neg n in
        let b = total_minus n in
        let z : negsuc n +ℤ pos 1 ≡ minus n =
          ap (λ y. y +ℤ pos 1) (negsuc-minus n) ∙ next_minus n in
        let e : ltb_ℤ days (total_days (minus n)) ≡ true =
          ap (λ y. ltb_ℤ days (total_days y)) (sym z) ∙ h.before_next in
        let l = ltb→lt _ _ e in
        let u = -ℤ_parts days (total_days (negsuc n)) in
        omega (arith, a, b, u, l, early (negsuc n) h)

-- The date that a day has: its year, its day of the year, its month and its day of the month.
pub record IsDate (days : ℤ) (c : CalendarTime) : Type 0 where
  pub day_of_year : first_day c.year +ℤ pos c.yday ≡ days
  pub in_year : c.yday < days_counted c.year
  pub month : c.mon < 12
  pub day_of_month : sum_take c.mon (months (is_leap_year c.year)) + c.mday ≡ c.yday + 1
  pub first : 1 ≤ c.mday
  pub last : c.mday ≤ get_or (months (is_leap_year c.year)) c.mon 0

date_of-IsDate :
    (days year wday : ℤ) (d : ℕ)
    → total_days year +ℤ pos d ≡ days
    → d < days_counted year
    → IsDate days (date_of year wday d)
unfolding date_of
date_of-IsDate days year wday d e l =
    let leap = is_leap_year year in
    let ms = months leap in
    let table = if leap then leap_year_days else year_days in
    let k = find_month 12 d table in
    let within : d < sum_take 12 (months leap) =
      subst (λ n. d < n) (sym (sum_months leap)) (omega (arith, l, counted_most year)) in
    let r =
      subst (λ t. InMonth ms d (find_month 12 d t)) (sym (tables leap))
        (find_month-InMonth ms d 12 (omega (arith, months_length leap)) within) in
    let g =
      ap (λ t. get_or t (find_month 12 d table) 0) (tables leap)
      ∙ get-starts ms 0 (find_month 12 d table) r.0 in
    let s = sum_take-suc ms (find_month 12 d table) in
    record {
      day_of_year = ap (λ t. t +ℤ pos d) (sym (total_days-first_day year)) ∙ e;
      in_year = l;
      month = omega (arith, r.0, months_length leap);
      day_of_month = omega (arith, r, g);
      first = omega arith;
      last = omega (arith, r, g, s);
    }

dated :
    (fuel : ℕ) (days y : ℤ)
    → find_year fuel days (tdiv days 365) ≡ some y
    → get_dates fuel days
      ≡ some (date_of y (tmod (days +ℤ pos 6) 7) (pos_part (days -ℤ total_days y)))
unfolding get_dates
dated fuel days y e = rw (get_dates, e) refl

-- With enough fuel for the years, every day number has a date with its year, its day of the year, its
-- month and its day of the month. From year 0 on they are those of the Gregorian calendar. Before it each
-- year has 365 days, and where the leap rule makes it a leap year, these are its first 365 days.
pub get_dates-IsDate :
    (days : ℤ) (fuel : ℕ)
    → pos_part days / 365 + 2 ≤ fuel
    → (c : CalendarTime) × (get_dates fuel days ≡ some c) × IsDate days c
get_dates-IsDate days fuel h =
    let r = find_year-IsYear days fuel h in
    let y = r.0 in
    let (e, l) = year_day days y r.2 in
    let wday = tmod (days +ℤ pos 6) 7 in
    let d = pos_part (days -ℤ total_days y) in
    (date_of y wday d, dated fuel days y r.1, date_of-IsDate days y wday d e l)
