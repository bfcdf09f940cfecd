-- ===== src/OsInterrupts/Tests.antt =====
-- Two sections, one inside the other, without a state page.
use gamecube_port.Base.{◌≡◌, false}
use gamecube_port.OsInterrupts.{Ints, is_enabled}
use gamecube_port.OsInterrupts.Section.{over, section, run, restore-disable}

abbrev host : Ints
host = record {
  mem = record { base = 0; size = 0; present = false; byte = λ i. 0 };
  ints_enabled = 1;
}

restore-disable_example : is_enabled (run (section (section over over) over) host) ≡ is_enabled host
restore-disable_example = restore-disable (section (section over over) over) host
