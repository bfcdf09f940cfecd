-- ===== src/OsAlarm/Period/Tests.antt =====
-- The times of a periodic alarm.
use gamecube_port.Base.{ℕ, ◌+◌, ◌*◌, ◌≤◌, ◌<◌, ◌≡◌, refl, arith}
use gamecube_port.OsAlarm.{periodic_fire}
use gamecube_port.OsAlarm.Period.{periodic_fire-next}

periodic_fire_before : periodic_fire 40 100 7 ≡ 100
unfolding periodic_fire
periodic_fire_before = refl

periodic_fire-next_example :
    (1000 < periodic_fire 1000 100 7)
    × (periodic_fire 1000 100 7 ≤ 1007)
    × ((k : ℕ) × (periodic_fire 1000 100 7 ≡ 100 + 7 * k))
periodic_fire-next_example = periodic_fire-next 1000 100 7 (omega arith) (omega arith) (omega arith)
