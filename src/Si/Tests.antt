-- ===== src/Si/Tests.antt =====
-- A response on the first channel, a sampling rate and a transfer that waits.
use gamecube_port.Base.{◌+◌, ◌≡◌, [], ◌∷◌, refl, arith, true, false, inl}
use gamecube_port.GcMem.{load_u32be, put_u32be, load_u16be}
use gamecube_port.SdkState.{state_load_or}
use gamecube_port.Si.{
  Si, off_xy_line, off_xy_count, packet_base, set_sampling_rate, transfer, get_response,
}
use gamecube_port.Si.Response.{HandsOver, get_response-HandsOver}

abbrev ready : Si
ready = record {
  ints = record {
    mem = record { base = 0x80000000; size = 0x1800000; present = true; byte = λ i. 0 };
    ints_enabled = 1;
  };
  sampling_rate = 0;
  tv_format = 0;
  system_time = 0;
  setalarm_delta = 0;
  hw_xfer_ok = false;
  status_seed = λ k. 0x20;
  resp_seed = λ k. (1, 2);
}

get_response-HandsOver_example : HandsOver 0 0x80001000 1 2 (get_response 0 0x80001000 ready)
get_response-HandsOver_example =
    get_response-HandsOver ready 0 0x80001000 (omega arith) refl (omega arith) (omega arith)
      (refl, omega arith, omega arith, omega arith) (refl, omega arith, omega arith, omega arith)
      (omega arith) (inl (omega arith))

-- A rate out of range is the last row of the table.
slow_rate :
    let m = (set_sampling_rate 40 ready).ints.mem in
    state_load_or m off_xy_line 0 ∷ state_load_or m off_xy_count 0 ∷ [] ≡ 131 ∷ 2 ∷ []
unfolding set_sampling_rate state_load_or load_u32be put_u32be load_u16be
slow_rate = refl

-- A transfer on the second channel waits.
waiting_packet :
    let m = (transfer 1 0x1000 3 0x2000 8 0x3000 5 ready).1.ints.mem in
    load_u32be m (packet_base + 0x24) ∷ load_u32be m (packet_base + 0x3C) ∷ [] ≡ 0x1000 ∷ 5 ∷ []
unfolding transfer load_u32be put_u32be
waiting_packet = refl
