-- ===== src/Pad/Tests.antt =====
-- A controller's input, clamped.
use gamecube_port.Base.{◌≡◌, refl}
use gamecube_port.Pad.{PadStatus, clamp_status, clamp_stick, reach, scale}
use gamecube_port.Pad.Clamp.{IsClamped, clamp_status-IsClamped}

-- the stick far up to the left, the left trigger all the way
abbrev status : PadStatus
status = record {
  button = 0;
  stick_x = 156;
  stick_y = 100;
  substick_x = 3;
  substick_y = 90;
  trigger_l = 255;
  trigger_r = 12;
  analog_a = 0;
  analog_b = 0;
  err = 0;
}

clamp_stick_corner : clamp_stick 72 40 15 156 100 ≡ (216, 40)
unfolding clamp_stick reach scale
clamp_stick_corner = refl

clamp_status-IsClamped_example : IsClamped (clamp_status status)
clamp_status-IsClamped_example = clamp_status-IsClamped status refl
