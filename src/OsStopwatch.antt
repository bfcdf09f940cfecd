-- ===== src/OsStopwatch.antt =====
-- sdk_port/os/OSStopwatch.c: stopwatches over a clock that each reading advances by one.
-- `OSDumpStopwatch` only prints.
pub mod Laps
mod Tests
use gamecube_port.Base.{ℕ, ◌+◌, ◌-◌, ◌%◌, ◌^◌, ltb, ◌==◌, if◌then◌else◌}

-- `OSStopwatch`
pub record Stopwatch : Type 0 where
  pub name : ℕ
  pub total : ℕ
  pub hits : ℕ
  pub running : ℕ
  pub last : ℕ
  pub min : ℕ
  pub max : ℕ

-- `OSGetTime`: the reading and `gc_os_time_counter` behind it are the same.
abbrev pub get_time : ℕ → ℕ
get_time counter = (counter + 1) % 2 ^ 64

abbrev pub sub64 : ℕ → ℕ → ℕ
sub64 a b = (a + 2 ^ 64 - b) % 2 ^ 64

-- `OSInitStopwatch`
unfoldable pub init_stopwatch : (name : ℕ) → Stopwatch
init_stopwatch name = record {
  name = name;
  total = 0;
  hits = 0;
  running = 0;
  last = 0;
  min = 0xFFFFFFFF;
  max = 0;
}

-- `OSStartStopwatch`
unfoldable pub start_stopwatch : Stopwatch → ℕ → Stopwatch × ℕ
start_stopwatch sw counter = (record sw { running = 1; last = get_time counter }, get_time counter)

-- `OSStopStopwatch`
unfoldable pub stop_stopwatch : Stopwatch → ℕ → Stopwatch × ℕ
stop_stopwatch sw counter =
    let interval = sub64 (get_time counter) sw.last in
    if sw.running == 0 then (sw, counter) else (
      record sw {
        total = (sw.total + interval) % 2 ^ 64;
        running = 0;
        hits = (sw.hits + 1) % 2 ^ 32;
        max = if ltb sw.max interval then interval else sw.max;
        min = if ltb interval sw.min then interval else sw.min;
      },
      get_time counter,
    )

-- `OSCheckStopwatch`, its result a bit pattern of 64 bits
unfoldable pub check_stopwatch : Stopwatch → ℕ → ℕ × ℕ
check_stopwatch sw counter =
    if sw.running == 0
    then (sw.total, counter)
    else ((sw.total + sub64 (get_time counter) sw.last) % 2 ^ 64, get_time counter)

-- `OSResetStopwatch`
unfoldable pub reset_stopwatch : Stopwatch → Stopwatch
unfolding init_stopwatch
reset_stopwatch sw = init_stopwatch sw.name
