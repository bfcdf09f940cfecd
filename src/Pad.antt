-- ===== src/Pad.antt =====
-- sdk_port/pad/PAD.c: the dead zone and the clamping of a controller's sticks and triggers, and the
-- reset of controllers.
pub mod Clamp
mod Tests
use gamecube_port.Base.{
  ℕ, zero, suc, ◌+◌, ◌-◌, ◌*◌, ◌/◌, ◌%◌, ◌^◌, Bool, true, false, not, ◌&&◌, ltb, leb, ◌==◌,
  if◌then◌else◌, List, [], ◌∷◌, bit_or, bit_and,
}
use gamecube_port.GcMem.{Mem}
use gamecube_port.SdkState.{state_store, state_load_or, state_count}
use gamecube_port.OsThread.{cntlzw, not32}

-- `PADStatus`; an `s8` is kept as its bit pattern.
pub record PadStatus : Type 0 where
  pub button : ℕ
  pub stick_x : ℕ
  pub stick_y : ℕ
  pub substick_x : ℕ
  pub substick_y : ℕ
  pub trigger_l : ℕ
  pub trigger_r : ℕ
  pub analog_a : ℕ
  pub analog_b : ℕ
  pub err : ℕ

-- `ClampRegion`
abbrev pub min_trigger : ℕ
min_trigger = 30

abbrev pub max_trigger : ℕ
max_trigger = 180

abbrev pub min_stick : ℕ
min_stick = 15

abbrev pub max_stick : ℕ
max_stick = 72

abbrev pub xy_stick : ℕ
xy_stick = 40

abbrev pub min_substick : ℕ
min_substick = 15

abbrev pub max_substick : ℕ
max_substick = 59

abbrev pub xy_substick : ℕ
xy_substick = 31

-- The sign and the magnitude of an `s8`, and the `s8` of a sign and a magnitude.
abbrev pub is_negative8 : ℕ → Bool
is_negative8 v = leb 128 v

abbrev pub magnitude8 : ℕ → ℕ
magnitude8 v = if is_negative8 v then 256 - v else v

abbrev pub signed8 : Bool → ℕ → ℕ
signed8 negative v = if negative then (256 - v % 256) % 256 else v % 256

-- The dead zone: what a magnitude exceeds the minimum by.
abbrev pub dead_zone : (min v : ℕ) → ℕ
dead_zone min v = if leb v min then 0 else v - min

-- How far a point is out: the weighted sum whose bound is `xy * max`.
unfoldable pub reach : (max xy x y : ℕ) → ℕ
reach max xy x y =
    if leb (xy * y) (xy * x) then xy * x + (max - xy) * y else xy * y + (max - xy) * x

unfoldable pub scale : (max xy d v : ℕ) → ℕ
scale max xy d v = if ltb (xy * max) d then xy * max * v / d else v

-- `ClampStick`, of the region's three numbers, where `xy` is at most `max`.
unfoldable pub clamp_stick : (max xy min px py : ℕ) → ℕ × ℕ
unfolding reach scale
clamp_stick max xy min px py =
    let x = dead_zone min (magnitude8 px) in
    let y = dead_zone min (magnitude8 py) in
    let d = reach max xy x y in
    if (x == 0) && (y == 0) then (0, 0) else (
      signed8 (is_negative8 px) (scale max xy d x),
      signed8 (is_negative8 py) (scale max xy d y),
    )

-- The trigger of `PADClamp`.
unfoldable pub clamp_trigger : ℕ → ℕ
clamp_trigger v =
    if leb v min_trigger
    then 0
    else (if ltb max_trigger v then max_trigger - min_trigger else v - min_trigger)

-- One turn of the loop of `PADClamp`.
unfoldable pub clamp_status : PadStatus → PadStatus
unfolding clamp_stick clamp_trigger
clamp_status s =
    let stick = clamp_stick max_stick xy_stick min_stick s.stick_x s.stick_y in
    let substick = clamp_stick max_substick xy_substick min_substick s.substick_x s.substick_y in
    if not (s.err == 0) then s else record s {
      stick_x = stick.0;
      stick_y = stick.1;
      substick_x = substick.0;
      substick_y = substick.1;
      trigger_l = clamp_trigger s.trigger_l;
      trigger_r = clamp_trigger s.trigger_r;
    }

unfoldable pub clamp_all : (n : ℕ) → List PadStatus → List PadStatus
unfolding clamp_status
clamp_all zero ss = ss
clamp_all (suc n) [] = []
clamp_all (suc n) (s ∷ ss) = clamp_status s ∷ clamp_all n ss

abbrev pub off_clamp_calls : ℕ
off_clamp_calls = 0x384

-- `PADClamp`
unfoldable pub pad_clamp : List PadStatus → Mem → List PadStatus × Mem
unfolding clamp_all
pad_clamp ss m = (clamp_all 4 ss, state_count m off_clamp_calls)

-- The globals of the reset.
pub record PadGlobals : Type 0 where
  pub reset_mask : ℕ
  pub recalibrate_bits : ℕ
  pub resetting_bits : ℕ
  pub resetting_chan : ℕ
  pub reset_callback_ptr : ℕ

abbrev pub chan0_bit : ℕ
chan0_bit = 0x80000000

-- The channel that a reset takes first, and the bits that are left.
unfoldable pub first_chan : ℕ → ℕ
unfolding cntlzw
first_chan bits = if bits == 0 then 32 else cntlzw bits

unfoldable pub bits_left : ℕ → ℕ
unfolding first_chan
bits_left bits =
    let chan = first_chan bits in
    if chan == 32 then bits else bit_and bits (not32 (chan0_bit / 2 ^ chan))

-- `PADReset`
unfoldable pub pad_reset : (mask : ℕ) → PadGlobals → Mem → PadGlobals × Mem
unfolding first_chan bits_left
pad_reset mask g m =
    let m1 = state_count (state_store m 0x38C mask) 0x388 in
    let bits = bit_or (state_load_or m 0x398 g.resetting_bits) mask in
    let recalibrate = state_load_or m 0x3A0 g.recalibrate_bits in
    let callback = state_load_or m 0x3A4 g.reset_callback_ptr in
    let m2 = state_store m1 0x398 (bits_left bits) in
    let m3 = state_store m2 0x39C (first_chan bits) in
    let m4 = state_store m3 0x3A0 recalibrate in
    (
      record {
        reset_mask = mask;
        recalibrate_bits = recalibrate;
        resetting_bits = bits_left bits;
        resetting_chan = first_chan bits;
        reset_callback_ptr = callback;
      },
      state_store m4 0x3A4 callback,
    )

-- `PADRecalibrate`
unfoldable pub pad_recalibrate : (mask : ℕ) → PadGlobals → Mem → PadGlobals × Mem
pad_recalibrate mask g m = (
  record g { recalibrate_bits = mask },
  state_store (state_count (state_store m 0x394 mask) 0x390) 0x3A0 mask,
)
