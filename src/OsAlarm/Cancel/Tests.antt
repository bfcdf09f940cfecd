-- ===== src/OsAlarm/Cancel/Tests.antt =====
-- A list of two alarms, of which the first is cancelled.
use gamecube_port.Base.{◌≡◌, refl, [], ◌∷◌, arith, true}
use gamecube_port.GcMem.{Mem, set_field, load_u32be, put_u32be, gc_mem_ptr}
use gamecube_port.OsAlarm.{AlarmState, alarm_handler, alarm_next, alarm_prev, cancel_alarm}
use gamecube_port.OsAlarm.Cancel.{IsAlarms, cancel_alarm-remove}

abbrev blank : Mem
blank = record { base = 0x1000; size = 0x100; present = true; byte = λ _. 0 }

abbrev mem : Mem
mem =
    set_field (set_field (set_field blank 0x1000 alarm_handler 1) 0x1000 alarm_next 0x1040) 0x1040
      alarm_prev 0x1000

abbrev state : AlarmState
state = record { queue_head = 0x1000; queue_tail = 0x1040; system_time = 0 }

state-IsAlarms : IsAlarms state mem (0x1000 ∷ 0x1040 ∷ [])
unfolding load_u32be put_u32be gc_mem_ptr
state-IsAlarms = record {
  head = refl;
  tail = refl;
  links = (refl, refl, (refl, refl, tt));
  nodes = (
    (omega arith, (refl, omega arith, omega arith, omega arith)),
    ((omega arith, (refl, omega arith, omega arith, omega arith)), tt),
  );
  distinct = ((omega arith, tt), (tt, tt));
}

is_set : load_u32be mem 0x1000 ≡ 1
unfolding load_u32be put_u32be gc_mem_ptr
is_set = refl

cancel_alarm-remove_example :
    let (st', m') = cancel_alarm 0x1000 state mem in IsAlarms st' m' (0x1040 ∷ [])
cancel_alarm-remove_example =
    cancel_alarm-remove state mem 0x1000 [] (0x1040 ∷ []) state-IsAlarms (omega (arith, is_set))
