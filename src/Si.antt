-- ===== src/Si.antt =====
-- sdk_port/si/SI.c: the serial interface, its sampling rate, the packets and alarms of transfers that
-- have to wait, and the buffers of responses, all in emulated RAM. The printing of traces is left out.
pub mod Response
mod Tests
use gamecube_port.Base.{
  ℕ, ◌+◌, ◌*◌, ◌%◌, ◌^◌, Bool, true, false, not, ◌&&◌, ◌||◌, List, [], ◌∷◌, ltb, leb, ◌==◌,
  if◌then◌else◌, get_or, bit_and,
}
use gamecube_port.Base.Int.{slt32, sle32}
use gamecube_port.GcMem.{Mem, load_u32be, store_u32be, field, set_field, add32}
use gamecube_port.SdkState.{state_store, state_load_or, state_load16_or}
use gamecube_port.OsAlarm.{field64, set_field64}
use gamecube_port.OsInterrupts.{Ints, count_call, disable_interrupts, restore_interrupts}

-- `XYNTSC` and `XYPAL`: for each number of milliseconds, the lines between polls and their count.
abbrev pub xy_ntsc : List (ℕ × ℕ)
xy_ntsc =
    (246, 2)
    ∷ (15, 18)
    ∷ (30, 9)
    ∷ (44, 6)
    ∷ (52, 5)
    ∷ (65, 4)
    ∷ (87, 3)
    ∷ (87, 3)
    ∷ (87, 3)
    ∷ (131, 2)
    ∷ (131, 2)
    ∷ (131, 2)
    ∷ []

abbrev pub xy_pal : List (ℕ × ℕ)
xy_pal =
    (296, 2)
    ∷ (15, 21)
    ∷ (29, 11)
    ∷ (45, 7)
    ∷ (52, 6)
    ∷ (63, 5)
    ∷ (78, 4)
    ∷ (104, 3)
    ∷ (104, 3)
    ∷ (104, 3)
    ∷ (104, 3)
    ∷ (156, 2)
    ∷ []

-- The state page.
abbrev pub off_vi_regs : ℕ
off_vi_regs = 0x100

abbrev pub off_tv_format : ℕ
off_tv_format = 0x1A8

abbrev pub off_sampling_rate : ℕ
off_sampling_rate = 0x360

abbrev pub off_xy_line : ℕ
off_xy_line = 0x364

abbrev pub off_xy_count : ℕ
off_xy_count = 0x368

abbrev pub off_xy_calls : ℕ
off_xy_calls = 0x36C

abbrev pub off_status : ℕ
off_status = 0x3C0

abbrev pub off_resp_words : ℕ
off_resp_words = 0x3D0

-- `SI_PACKET_BASE` and its likes
abbrev pub packet_base : ℕ
packet_base = 0x801A6F98

abbrev pub alarm_base : ℕ
alarm_base = 0x801A7018

abbrev pub xfer_time_base : ℕ
xfer_time_base = 0x801A70D8

abbrev pub alarm_handler_pc : ℕ
alarm_handler_pc = 0x800D9C38

abbrev pub alarm_queue_ptr : ℕ
alarm_queue_ptr = 0x801A5E68

abbrev pub valid_base : ℕ
valid_base = 0x801A7148

abbrev pub input_base : ℕ
input_base = 0x801A7158

-- The host variables of SI.c, `s_tv_format` of VI.c, and the state of the interrupts with emulated RAM.
pub record Si : Type 0 where
  pub ints : Ints
  pub sampling_rate : ℕ
  pub tv_format : ℕ
  pub system_time : ℕ
  pub setalarm_delta : ℕ
  pub hw_xfer_ok : Bool
  pub status_seed : ℕ → ℕ
  pub resp_seed : ℕ → ℕ × ℕ

abbrev pub set_mem : Si → Mem → Si
set_mem s m = record s { ints = record s.ints { mem = m } }

-- `chan` is a signed number, as a bit pattern.
abbrev pub is_chan : ℕ → Bool
is_chan chan = not (slt32 chan 0 || sle32 4 chan)

-- `VIGetTvFormat`
unfoldable pub get_tv_format : Si → ℕ × Si
unfolding state_load_or
get_tv_format s =
    let format = state_load_or s.ints.mem off_tv_format s.tv_format in
    (format, record s { tv_format = format })

-- `SISetXY`
unfoldable pub set_xy : (line count : ℕ) → Mem → Mem
unfolding count_call
set_xy line count m =
    count_call off_xy_calls (state_store (state_store m off_xy_line line) off_xy_count count)

-- The row of the table of a television format; an unknown format has the first row.
unfoldable pub xy_row : (format msec : ℕ) → ℕ × ℕ
xy_row format msec =
    if (format == 0) || (format == 2) || (format == 5)
    then get_or xy_ntsc msec (0, 0)
    else if format == 1
    then get_or xy_pal msec (0, 0)
    else get_or xy_ntsc 0 (0, 0)

-- `SISetSamplingRate`
unfoldable pub set_sampling_rate : (msec : ℕ) → Si → Si
unfolding get_tv_format set_xy xy_row disable_interrupts restore_interrupts state_load16_or
set_sampling_rate msec s =
    let rate = if ltb 11 msec then 11 else msec in
    let (level, i1) = disable_interrupts s.ints in
    let s1 = record s {
      ints = record i1 { mem = state_store i1.mem off_sampling_rate rate };
      sampling_rate = rate;
    } in
    let (format, s2) = get_tv_format s1 in
    let (line, count) = xy_row format rate in
    let vi54 = state_load16_or s2.ints.mem (off_vi_regs + 54 * 2) 0 in
    let factor = if vi54 % 2 == 1 then 2 else 1 in
    let s3 = set_mem s2 (set_xy (factor * line) count s2.ints.mem) in
    record s3 { ints = (restore_interrupts level s3.ints).1 }

-- `SIRefreshSamplingRate`
unfoldable pub refresh_sampling_rate : Si → Si
unfolding set_sampling_rate state_load_or
refresh_sampling_rate s =
    set_sampling_rate (state_load_or s.ints.mem off_sampling_rate s.sampling_rate) s

-- The packet of a transfer that waits.
unfoldable pub queue_packet :
    (chan output output_bytes input input_bytes callback fire : ℕ) → Mem → Mem
unfolding set_field64
queue_packet chan output output_bytes input input_bytes callback fire m =
    let pkt = packet_base + chan * 0x20 in
    let m1 = set_field (set_field m pkt 0 chan) pkt 4 output in
    let m2 = set_field (set_field m1 pkt 8 output_bytes) pkt 0xC input in
    let m3 = set_field (set_field m2 pkt 0x10 input_bytes) pkt 0x14 callback in
    set_field64 m3 pkt 0x18 fire

-- The alarm of a transfer that waits for its time.
unfoldable pub arm_alarm : (chan fire : ℕ) → Mem → Mem
unfolding set_field64
arm_alarm chan fire m =
    let alarm = alarm_base + chan * 0x28 in
    let m1 = set_field (set_field m alarm 0 alarm_handler_pc) alarm 4 0 in
    let m2 = set_field64 m1 alarm 8 fire in
    set_field (set_field m2 alarm 0x10 0) alarm 0x14 alarm_queue_ptr

-- What the harness says of the clock and of the hardware: `gc_os_set_system_time_seed`,
-- `gc_os_set_setalarm_delta` and `gc_si_set_hw_xfer_ok`.
abbrev set_system_time_seed : (system_time : ℕ) → Si → Si
set_system_time_seed system_time s = record s { system_time = system_time }

abbrev set_setalarm_delta : (delta_ticks : ℕ) → Si → Si
set_setalarm_delta delta_ticks s = record s { setalarm_delta = delta_ticks }

abbrev set_hw_xfer_ok : (ok : ℕ) → Si → Si
set_hw_xfer_ok ok s = record s { hw_xfer_ok = not (ok == 0) }

-- `SITransfer`, whose pointers are reduced to 32 bits
unfoldable pub transfer :
    (chan output output_bytes input input_bytes callback delay : ℕ) → Si → Bool × Si
unfolding field64 queue_packet arm_alarm
transfer chan output output_bytes input input_bytes callback delay s =
    let now = s.system_time in
    let xfer = field64 s.ints.mem (xfer_time_base + chan * 8) 0 in
    let fire = if delay == 0 then now else (xfer + delay) % 2 ^ 64 in
    let m1 = queue_packet chan output output_bytes input input_bytes callback fire s.ints.mem in
    let m2 = arm_alarm chan ((fire + s.setalarm_delta) % 2 ^ 64) m1 in
    if not (is_chan chan)
    then (false, s)
    else if leb fire now && s.hw_xfer_ok
    then (true, s)
    else (true, set_mem s (if ltb now fire then m2 else m1))

-- `gc_si_set_status_seed` and `gc_si_set_resp_words_seed`
unfoldable pub set_status_seed : (chan status : ℕ) → Si → Si
set_status_seed chan status s =
    let s1 = record s { status_seed = λ k. if chan == k then status else s.status_seed k } in
    if leb 4 chan then s else set_mem s1 (state_store s1.ints.mem (off_status + chan * 4) status)

unfoldable pub set_resp_words_seed : (chan word0 word1 : ℕ) → Si → Si
set_resp_words_seed chan word0 word1 s =
    let s1 = record s { resp_seed = λ k. if chan == k then (word0, word1) else s.resp_seed k } in
    let off = off_resp_words + chan * 8 in
    let m1 = state_store s1.ints.mem off word0 in
    if leb 4 chan then s else set_mem s1 (state_store m1 (off + 4) word1)

-- `SI_ERROR_RDST`: a response is there.
abbrev pub has_response : ℕ → Bool
has_response status = not (bit_and status 0x20 == 0)

-- `SIGetResponseRaw`, whose result its only caller drops
unfoldable pub get_response_raw : (chan : ℕ) → Si → Si
get_response_raw chan s =
    let (w0, w1) = s.resp_seed chan in
    let m1 = store_u32be s.ints.mem (input_base + chan * 8) w0 in
    let m2 = store_u32be m1 (input_base + chan * 8 + 4) w1 in
    let m3 = store_u32be m2 (valid_base + chan * 4) 1 in
    if is_chan chan && has_response (s.status_seed chan) then set_mem s m3 else s

-- The words of a buffer are handed to the caller at `data_addr`.
unfoldable pub hand_over : (chan data_addr : ℕ) → Mem → Mem
hand_over chan data_addr m =
    let w0 = load_u32be m (input_base + chan * 8) in
    let w1 = load_u32be m (input_base + chan * 8 + 4) in
    store_u32be (store_u32be m data_addr w0) (add32 data_addr 4) w1

-- Whether a buffer holds a response, which is then handed over, and no longer marked as there.
unfoldable pub take_response : (chan data_addr : ℕ) → Mem → Bool × Mem
unfolding hand_over
take_response chan data_addr m =
    let valid = load_u32be m (valid_base + chan * 4) in
    let m1 = store_u32be m (valid_base + chan * 4) 0 in
    (not (valid == 0), if valid == 0 then m1 else hand_over chan data_addr m1)

-- The end of `SIGetResponse`
unfoldable pub end_response : Bool → Si → Bool × Mem → Bool × Si
unfolding restore_interrupts
end_response level s (valid, m) =
    let i = record s.ints { mem = m } in (valid, record s { ints = (restore_interrupts level i).1 })

-- `SIGetResponse`
unfoldable pub get_response : (chan data_addr : ℕ) → Si → Bool × Si
unfolding get_response_raw take_response disable_interrupts end_response
get_response chan data_addr s =
    let (level, i1) = disable_interrupts s.ints in
    let s1 = get_response_raw chan (record s { ints = i1 }) in
    if not (is_chan chan)
    then (false, s)
    else end_response level s1 (take_response chan data_addr s1.ints.mem)
