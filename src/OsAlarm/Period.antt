-- ===== src/OsAlarm/Period.antt =====
-- A periodic alarm is set for the first of its times that is not past.
mod Tests
use gamecube_port.Base.{
  true, ℕ, ◌+◌, ◌-◌, ◌*◌, ◌/◌, ◌%◌, ◌^◌, ◌≤◌, ◌<◌, ◌≡◌, refl, arith, if◌then◌else◌, ltb,
}
use gamecube_port.Base.Int.{slt64}
use gamecube_port.OsAlarm.{periodic_fire}

turns : (d p : ℕ) → 0 < p → (d < p * (d / p + 1)) × (p * (d / p + 1) ≤ d + p)
turns d p h = (grind arith, grind arith)

-- Where nothing overflows, the machine's arithmetic is exact.
periodic_fire-exact :
    (time start period : ℕ)
    → start < time
    → time + period < 2 ^ 63
    → 0 < period
    → periodic_fire time start period ≡ start + period * ((time - start) / period + 1)
unfolding periodic_fire
periodic_fire-exact time start period l b p =
    let due : slt64 start time ≡ true = ground (arith, l, b) in
    let gap : (time + 2 ^ 64 - start) % 2 ^ 64 ≡ time - start = omega (arith, l, b) in
    let (_, le) = turns (time - start) period p in rw (due, gap) (exact _ (omega (arith, le, l, b)))
  where
    exact : (x : ℕ) → x < 2 ^ 64 → x % 2 ^ 64 ≡ x
    exact x h = omega (arith, h)

-- For times that are not negative, a positive period and no overflow, a periodic alarm that has
-- started fires a whole number of periods after its start, later than now and within one period.
pub periodic_fire-next :
    (time start period : ℕ)
    → start < time
    → time + period < 2 ^ 63
    → 0 < period
    → (time < periodic_fire time start period)
      × (periodic_fire time start period ≤ time + period)
      × ((k : ℕ) × (periodic_fire time start period ≡ start + period * k))
periodic_fire-next time start period l b p =
    let (lt, le) = turns (time - start) period p in
    rw (periodic_fire-exact time start period l b p)
      (omega (arith, lt, l), omega (arith, le, l), ((time - start) / period + 1, refl))
