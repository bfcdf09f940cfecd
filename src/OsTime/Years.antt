-- ===== src/OsTime/Years.antt =====
-- The search of `GetDates` for the year.
use mathlib.Core.Path.{subst}
use gamecube_port.Base.{
  ℕ, zero, suc, ◌+◌, ◌-◌, ◌*◌, ◌/◌, ◌≤◌, ◌<◌, ◌≡◌, inl, inr, refl, arith, true, false, Bool-cases,
  Option, some, ap, ◌∙◌, sym, ltb, ltb→lt, lt→ltb,
}
use gamecube_port.Base.Signed.{
  ℤ, pos, negsuc, pos_part, neg_part, sub_ℕ, ◌+ℤ◌, ◌-ℤ◌, times, tdiv, ltb_ℤ, eq_of_parts, one_part,
  +ℤ_parts, -ℤ_parts, tdiv_parts, times_parts,
}
use gamecube_port.OsTime.{get_leap_days, total_days, find_year}

-- The leap years before a year from 1 on, as the source counts them.
abbrev pub leaps : ℕ → ℕ
leaps y = (y + 3) / 4 - (y - 1) / 100 + (y - 1) / 400

leap_pos :
    (y : ℕ)
    → 1 ≤ y
    → (pos_part (get_leap_days (pos y)) ≡ leaps y) × (neg_part (get_leap_days (pos y)) ≡ 0)
unfolding get_leap_days
leap_pos y h =
    let t : ltb_ℤ (pos y) (pos 1) ≡ false = ground (arith, h) in
    let u = pos y +ℤ pos 3 in
    let v = pos y -ℤ pos 1 in
    let a = tdiv u 4 in
    let b = tdiv v 100 in
    let c = tdiv v 400 in
    let p = +ℤ_parts (pos y) (pos 3) in
    let q = -ℤ_parts (pos y) (pos 1) in
    let r = -ℤ_parts a b in
    let s = +ℤ_parts (a -ℤ b) c in
    let ou = one_part u in
    let ov = one_part v in
    let od = one_part (a -ℤ b) in
    let oe = one_part (a -ℤ b +ℤ c) in
    let ta = tdiv_parts u 4 in
    let tb = tdiv_parts v 100 in
    let tc = tdiv_parts v 400 in
    rw (t) (
      omega (arith, h, p, q, r, s, ou, ov, od, oe, ta, tb, tc),
      omega (arith, h, p, q, r, s, ou, ov, od, oe, ta, tb, tc),
    )

-- The days before a year from 1 on, before year 0, and before a year below 0.
pub total_pos :
    (y : ℕ)
    → 1 ≤ y
    → (pos_part (total_days (pos y)) ≡ y * 365 + leaps y) × (neg_part (total_days (pos y)) ≡ 0)
unfolding total_days
total_pos y h =
    let l = leap_pos y h in
    let t = times_parts 365 (pos y) in
    let s = times 365 (pos y) +ℤ get_leap_days (pos y) in
    let p = +ℤ_parts (times 365 (pos y)) (get_leap_days (pos y)) in
    (omega (arith, l, t, p, one_part s), omega (arith, l, t, p, one_part s))

pub total_zero : total_days (pos 0) ≡ pos 0
unfolding total_days get_leap_days times tdiv ◌+ℤ◌ ◌-ℤ◌
total_zero = refl

leap_neg : (y : ℕ) → get_leap_days (negsuc y) ≡ pos 0
unfolding get_leap_days
leap_neg y = let t : ltb_ℤ (negsuc y) (pos 1) ≡ true = ground arith in rw (t) refl

pub total_neg :
    (y : ℕ)
    → (pos_part (total_days (negsuc y)) ≡ 0) × (neg_part (total_days (negsuc y)) ≡ suc y * 365)
unfolding total_days
total_neg y =
    let t = times_parts 365 (negsuc y) in
    let s = times 365 (negsuc y) +ℤ pos 0 in
    let p = +ℤ_parts (times 365 (negsuc y)) (pos 0) in
    rw (leap_neg y) (omega (arith, t, p, one_part s), omega (arith, t, p, one_part s))

-- `year` is the year of the day `days`: the day is not before its start, and it is before the start of
-- the next year.
pub record IsYear (days year : ℤ) : Type 0 where
  pub started : ltb_ℤ days (total_days year) ≡ false
  pub before_next : ltb_ℤ days (total_days (year +ℤ pos 1)) ≡ true

module _ (fuel : ℕ) (days year : ℤ) where
  stops : ltb_ℤ days (total_days year) ≡ false → find_year (suc fuel) days year ≡ some year
  unfolding find_year
  stops e = rw (e) refl

  goes_on :
      ltb_ℤ days (total_days year) ≡ true
      → find_year (suc fuel) days year ≡ find_year fuel days (year -ℤ pos 1)
  unfolding find_year
  goes_on e = rw (e) refl

pub next_pos : (y : ℕ) → pos y +ℤ pos 1 ≡ pos (suc y)
next_pos y =
    let p = +ℤ_parts (pos y) (pos 1) in
    eq_of_parts _ _ (omega (arith, p, one_part (pos y +ℤ pos 1)))

prev_pos : (y : ℕ) → pos (suc y) -ℤ pos 1 ≡ pos y
prev_pos y =
    let p = -ℤ_parts (pos (suc y)) (pos 1) in
    eq_of_parts _ _ (omega (arith, p, one_part (pos (suc y) -ℤ pos 1)))

-- The loop finds a year.
abbrev pub Finds : ℤ → Option ℤ → Type 0
Finds days o = (y : ℤ) × (o ≡ some y) × IsYear days y

-- From the year that the loop starts with down to the right one.
find-pos :
    (fuel d y : ℕ)
    → y < fuel
    → ltb_ℤ (pos d) (total_days (pos (suc y))) ≡ true
    → Finds (pos d) (find_year fuel (pos d) (pos y))
find-pos zero d y l h = absurd (omega (arith, l))
find-pos (suc fuel) d zero l h =
    let t : ltb_ℤ (pos d) (total_days (pos 0)) ≡ false = rw (total_zero) (ground arith) in
    (pos 0, stops fuel (pos d) (pos 0) t, record { started = t; before_next = rw (next_pos 0) h })
find-pos (suc fuel) d (suc y) l h = elim (Bool-cases (ltb_ℤ (pos d) (total_days (pos (suc y))))) [
  | inl e ↦
      let eq = goes_on fuel (pos d) (pos (suc y)) e ∙ ap (find_year fuel (pos d)) (prev_pos y) in
      let r = find-pos fuel d y (omega (arith, l)) e in (r.0, eq ∙ r.1, r.2)
  | inr e ↦ (
    pos (suc y),
    stops fuel (pos d) (pos (suc y)) e,
    record { started = e; before_next = rw (next_pos (suc y)) h },
  )
]

-- Years from 0 down.
abbrev pub minus : ℕ → ℤ
minus n = sub_ℕ 0 n

pub total_minus :
    (n : ℕ) → (pos_part (total_days (minus n)) ≡ 0) × (neg_part (total_days (minus n)) ≡ n * 365)
total_minus zero = (ap pos_part total_zero, ap neg_part total_zero)
total_minus (suc n) =
    let e : minus (suc n) ≡ negsuc n = eq_of_parts _ _ (ground arith) in rw (e) (total_neg n)

minus_parts : (n : ℕ) → (pos_part (minus n) ≡ 0) × (neg_part (minus n) ≡ n)
minus_parts n = (ground arith, ground arith)

prev_minus : (n : ℕ) → minus n -ℤ pos 1 ≡ minus (suc n)
prev_minus n =
    let p = -ℤ_parts (minus n) (pos 1) in
    eq_of_parts _ _
      (omega (arith, p, one_part (minus n -ℤ pos 1), minus_parts n, minus_parts (suc n)))

pub next_minus : (n : ℕ) → minus (suc n) +ℤ pos 1 ≡ minus n
next_minus n =
    let p = +ℤ_parts (minus (suc n)) (pos 1) in
    eq_of_parts _ _
      (omega (arith, p, one_part (minus (suc n) +ℤ pos 1), minus_parts n, minus_parts (suc n)))

before_minus : (x n : ℕ) → n * 365 < suc x → ltb_ℤ (negsuc x) (total_days (minus n)) ≡ true
before_minus x n h = let t = total_minus n in ground (arith, h, t)

from_minus : (x n : ℕ) → suc x ≤ n * 365 → ltb_ℤ (negsuc x) (total_days (minus n)) ≡ false
from_minus x n h = let t = total_minus n in ground (arith, h, t)

found_minus : (x n : ℕ) → suc x ≤ suc n * 365 → n * 365 < suc x → IsYear (negsuc x) (minus (suc n))
found_minus x n h k = record {
  started = from_minus x (suc n) h;
  before_next = rw (next_minus n) (before_minus x n k);
}

start_minus : (x : ℕ) → tdiv (negsuc x) 365 ≡ minus (suc x / 365)
start_minus x =
    let t = tdiv_parts (negsuc x) 365 in
    eq_of_parts _ _ (omega (arith, t, minus_parts (suc x / 365)))

find-neg :
    (fuel x : ℕ) → Finds (negsuc x) (find_year (suc (suc fuel)) (negsuc x) (minus (suc x / 365)))
find-neg fuel x = elim (Bool-cases (ltb (suc x / 365 * 365) (suc x))) [
  | inl e ↦
      let k = suc x / 365 in
      let low : suc x / 365 * 365 < suc x = ltb→lt _ _ e in
      let high : suc x ≤ suc (suc x / 365) * 365 = omega arith in
      let f = goes_on (suc fuel) (negsuc x) (minus k) (before_minus x k low) in
      let g = stops fuel (negsuc x) (minus (suc k)) (from_minus x (suc k) high) in
      (
        minus (suc k),
        f ∙ ap (find_year (suc fuel) (negsuc x)) (prev_minus k) ∙ g,
        found_minus x k high low,
      )
  | inr e ↦ whole_years fuel x (suc x / 365) (ground (arith, e))
]
  where
    whole_years :
        (fuel x k : ℕ)
        → suc x ≡ k * 365
        → Finds (negsuc x) (find_year (suc (suc fuel)) (negsuc x) (minus k))
    whole_years fuel x zero h = absurd (omega (arith, h))
    whole_years fuel x (suc k) h = (
      minus (suc k),
      stops (suc fuel) (negsuc x) (minus (suc k)) (from_minus x (suc k) (omega (arith, h))),
      found_minus x k (omega (arith, h)) (omega (arith, h)),
    )

-- With enough fuel the loop ends at the year of the day.
pub find_year-IsYear :
    (days : ℤ) (fuel : ℕ)
    → pos_part days / 365 + 2 ≤ fuel
    → Finds days (find_year fuel days (tdiv days 365))
find_year-IsYear (pos d) fuel h =
    let t = tdiv_parts (pos d) 365 in
    let e : tdiv (pos d) 365 ≡ pos (d / 365) = eq_of_parts _ _ (omega (arith, t)) in
    let l = total_pos (suc (d / 365)) (omega arith) in
    let late : ltb_ℤ (pos d) (total_days (pos (suc (d / 365)))) ≡ true =
      lt→ltb _ _ (omega (arith, l)) in
    subst (λ y. Finds (pos d) (find_year fuel (pos d) y)) (sym e)
      (find-pos fuel d (d / 365) (omega (arith, h)) late)
find_year-IsYear (negsuc x) zero h = absurd (omega (arith, h))
find_year-IsYear (negsuc x) (suc zero) h = absurd (omega (arith, h))
find_year-IsYear (negsuc x) (suc (suc fuel)) h =
    subst (λ y. Finds (negsuc x) (find_year (suc (suc fuel)) (negsuc x) y)) (sym (start_minus x))
      (find-neg fuel x)
