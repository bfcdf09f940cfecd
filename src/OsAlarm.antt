-- ===== src/OsAlarm.antt =====
-- sdk_port/os/OSAlarm.c: alarms in emulated RAM, in one doubly linked list by their time.
pub mod Period
pub mod Cancel
use gamecube_port.Base.{
  ℕ, zero, suc, ◌+◌, ◌-◌, ◌*◌, ◌/◌, ◌%◌, ◌^◌, Option, none, some, ◌==◌, if◌then◌else◌,
}
use gamecube_port.Base.Int.{slt64, sle64}
use gamecube_port.GcMem.{Mem, field, set_field}

-- `PORT_ALARM_*`
abbrev pub alarm_handler : ℕ
alarm_handler = 0

abbrev pub alarm_fire : ℕ
alarm_fire = 8

abbrev pub alarm_prev : ℕ
alarm_prev = 16

abbrev pub alarm_next : ℕ
alarm_next = 20

abbrev pub alarm_period : ℕ
alarm_period = 24

abbrev pub alarm_start : ℕ
alarm_start = 32

-- `port_OSAlarmState`; an `int64_t` is kept as its bit pattern.
pub record AlarmState : Type 0 where
  pub queue_head : ℕ
  pub queue_tail : ℕ
  pub system_time : ℕ

-- `load_s64be` and `store_s64be` at a field of an alarm
unfoldable pub field64 : Mem → (alarm off : ℕ) → ℕ
field64 m alarm off = field m alarm off * 2 ^ 32 + field m alarm (off + 4)

unfoldable pub set_field64 : Mem → (alarm off v : ℕ) → Mem
set_field64 m alarm off v =
    set_field (set_field m alarm off (v / 2 ^ 32)) alarm (off + 4) (v % 2 ^ 32)

-- `port_OSAlarmInit`
unfoldable pub alarm_init : AlarmState
alarm_init = record { queue_head = 0; queue_tail = 0; system_time = 0 }

-- `port_OSCreateAlarm`
unfoldable pub create_alarm : (alarm : ℕ) → Mem → Mem
create_alarm alarm m = set_field m alarm alarm_handler 0

-- The first time of a periodic alarm that is not past. The sums and products of the source overflow,
-- which C leaves undefined, where these wrap.
unfoldable pub periodic_fire : (time start period : ℕ) → ℕ
periodic_fire time start period =
    if slt64 start time
    then (start + period * ((time + 2 ^ 64 - start) % 2 ^ 64 / period + 1)) % 2 ^ 64
    else start

-- The time for which `InsertAlarm` sets an alarm.
unfoldable pub fire_time : AlarmState → (alarm fire : ℕ) → Mem → ℕ
unfolding field64 periodic_fire
fire_time st alarm fire m =
    if slt64 0 (field64 m alarm alarm_period)
    then periodic_fire st.system_time (field64 m alarm alarm_start) (field64 m alarm alarm_period)
    else fire

-- The loop of `InsertAlarm`: the first alarm from `next_a` on of a later time, or null.
unfoldable pub find_later : (fuel next_a fire : ℕ) → Mem → Option ℕ
unfolding field64
find_later zero next_a fire m = none
find_later (suc fuel) next_a fire m =
    let rest = find_later fuel (field m next_a alarm_next) fire m in
    if next_a == 0
    then some 0
    else if sle64 (field64 m next_a alarm_fire) fire
    then rest
    else some next_a

-- `Insert before next_a`
unfoldable pub insert_before : (alarm next_a : ℕ) → AlarmState → Mem → AlarmState × Mem
insert_before alarm next_a st m =
    let prev_a = field m next_a alarm_prev in
    let m1 = set_field m alarm alarm_prev prev_a in
    let m2 = set_field m1 next_a alarm_prev alarm in
    let m3 = set_field m2 alarm alarm_next next_a in
    if prev_a == 0
    then (record st { queue_head = alarm }, m3)
    else (st, set_field m3 prev_a alarm_next alarm)

-- `Insert at tail`
unfoldable pub insert_tail : (alarm : ℕ) → AlarmState → Mem → AlarmState × Mem
insert_tail alarm st m =
    let prev_a = st.queue_tail in
    let m2 = set_field (set_field m alarm alarm_next 0) alarm alarm_prev prev_a in
    if prev_a == 0
    then (record st { queue_head = alarm; queue_tail = alarm }, m2)
    else (record st { queue_tail = alarm }, set_field m2 prev_a alarm_next alarm)

-- `InsertAlarm`; `fuel` bounds the alarms of the list.
unfoldable pub insert_alarm :
    (fuel alarm fire handler : ℕ) → AlarmState → Mem → Option (AlarmState × Mem)
unfolding fire_time set_field64 find_later insert_before insert_tail
insert_alarm fuel alarm fire handler st m =
    let fire' = fire_time st alarm fire m in
    let m1 = set_field64 (set_field m alarm alarm_handler handler) alarm alarm_fire fire' in
    elim (find_later fuel st.queue_head fire' m1) [
      | none ↦ none
      | some next_a ↦
          some (if next_a == 0 then insert_tail alarm st m1 else insert_before alarm next_a st m1)
    ]

-- `port_OSSetAlarm`
unfoldable pub set_alarm : (fuel alarm tick : ℕ) → AlarmState → Mem → Option (AlarmState × Mem)
unfolding set_field64 insert_alarm
set_alarm fuel alarm tick st m =
    insert_alarm fuel alarm ((st.system_time + tick) % 2 ^ 64) 1 st
      (set_field64 m alarm alarm_period 0)

-- `port_OSSetPeriodicAlarm`
unfoldable pub set_periodic_alarm :
    (fuel alarm start period : ℕ) → AlarmState → Mem → Option (AlarmState × Mem)
unfolding set_field64 insert_alarm
set_periodic_alarm fuel alarm start period st m =
    insert_alarm fuel alarm 0 1 st
      (set_field64 (set_field64 m alarm alarm_period period) alarm alarm_start start)

-- `port_OSCancelAlarm`
unfoldable pub cancel_alarm : (alarm : ℕ) → AlarmState → Mem → AlarmState × Mem
cancel_alarm alarm st m =
    let next_a = field m alarm alarm_next in
    let m1 = if next_a == 0 then m else set_field m next_a alarm_prev (field m alarm alarm_prev) in
    let st1 = if next_a == 0 then record st { queue_tail = field m alarm alarm_prev } else st in
    let prev_a = field m1 alarm alarm_prev in
    let m2 = if prev_a == 0 then m1 else set_field m1 prev_a alarm_next next_a in
    let st2 = if prev_a == 0 then record st1 { queue_head = next_a } else st1 in
    if field m alarm alarm_handler == 0 then (st, m) else (st2, set_field m2 alarm alarm_handler 0)

-- `port_OSAlarmFireHead`; the number is the alarm that fires, or null.
unfoldable pub fire_head : (fuel : ℕ) → AlarmState → Mem → Option (ℕ × AlarmState × Mem)
unfolding field64 insert_alarm
fire_head fuel st m =
    let alarm = st.queue_head in
    let next_a = field m alarm alarm_next in
    let st1 =
      if next_a == 0
      then record st { queue_head = next_a; queue_tail = 0 }
      else record st { queue_head = next_a } in
    let m1 = if next_a == 0 then m else set_field m next_a alarm_prev 0 in
    let handler = field m1 alarm alarm_handler in
    let m2 = set_field m1 alarm alarm_handler 0 in
    if alarm == 0
    then some (0, st, m)
    else if slt64 st.system_time (field64 m alarm alarm_fire)
    then some (0, st, m)
    else if slt64 0 (field64 m2 alarm alarm_period)
    then elim (insert_alarm fuel alarm 0 handler st1 m2) [
      | none ↦ none
      | some r ↦ some (alarm, r.0, r.1)
    ]
    else some (alarm, st1, m2)
