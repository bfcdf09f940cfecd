-- ===== src/OsTime/Months.antt =====
-- The months of `GetDates`, by their lengths.
use gamecube_port.Base.{
  ℕ, zero, suc, ◌+◌, ◌≤◌, ◌<◌, ◌≡◌, refl, arith, Bool, true, false, Bool-cases, inl, inr,
  if◌then◌else◌, ltb, ltb→lt, List, [], ◌∷◌, length, get_or,
}
use gamecube_port.OsTime.{year_days, leap_year_days, find_month}

-- The lengths of the months.
abbrev pub months : Bool → List ℕ
months leap = 31 ∷ (if leap then 29 else 28) ∷ 31 ∷ 30 ∷ 31 ∷ 30 ∷ 31 ∷ 31 ∷ 30 ∷ 31 ∷ 30 ∷ 31 ∷ []

abbrev pub sum_take : ℕ → List ℕ → ℕ
sum_take zero ms = 0
sum_take (suc k) [] = 0
sum_take (suc k) (m ∷ ms) = m + sum_take k ms

-- The table of the sums of the lengths before.
abbrev pub starts : ℕ → List ℕ → List ℕ
starts acc [] = []
starts acc (m ∷ ms) = acc ∷ starts (acc + m) ms

pub tables : (leap : Bool) → (if leap then leap_year_days else year_days) ≡ starts 0 (months leap)
tables true = refl
tables false = refl

pub get-starts :
    (ms : List ℕ) (acc k : ℕ) → k < length ms → get_or (starts acc ms) k 0 ≡ acc + sum_take k ms
get-starts [] acc k h = absurd (omega (arith, h))
get-starts (m ∷ ms) acc zero h = omega arith
get-starts (m ∷ ms) acc (suc k) h = omega (arith, get-starts ms (acc + m) k (omega (arith, h)))

pub sum_take-suc : (ms : List ℕ) (k : ℕ) → sum_take (suc k) ms ≡ sum_take k ms + get_or ms k 0
sum_take-suc [] zero = refl
sum_take-suc [] (suc k) = refl
sum_take-suc (m ∷ ms) zero = omega arith
sum_take-suc (m ∷ ms) (suc k) = omega (arith, sum_take-suc ms k)

-- The month that the loop finds.
abbrev pub InMonth : List ℕ → ℕ → ℕ → Type 0
InMonth ms d k = (k < length ms) × (sum_take k ms ≤ d) × (d < sum_take (suc k) ms)

pub find_month-InMonth :
    (ms : List ℕ) (d n : ℕ)
    → n ≤ length ms
    → d < sum_take n ms
    → InMonth ms d (find_month n d (starts 0 ms))
unfolding find_month
find_month-InMonth ms d zero l h = absurd (omega (arith, h))
find_month-InMonth ms d (suc n) l h =
    let g = get-starts ms 0 n (omega (arith, l)) in
    elim (Bool-cases (ltb d (get_or (starts 0 ms) n 0))) [
      | inl e ↦ rw (e) (
          find_month-InMonth ms d n (omega (arith, l))
            (omega (arith, ltb→lt d (get_or (starts 0 ms) n 0) e, g)))
      | inr e ↦
          let k : get_or (starts 0 ms) n 0 ≤ d = ground (arith, e) in
          rw (e) (omega (arith, l), omega (arith, k, g), h)
    ]

pub sum_months : (leap : Bool) → sum_take 12 (months leap) ≡ (if leap then 366 else 365)
sum_months true = refl
sum_months false = refl

pub months_length : (leap : Bool) → length (months leap) ≡ 12
months_length true = refl
months_length false = refl
