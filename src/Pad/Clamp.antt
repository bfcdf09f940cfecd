-- ===== src/Pad/Clamp.antt =====
-- The clamped stick stays in the octagon of its region, and the clamped trigger in its range.
use gamecube_port.Base.{
  Bool, true, false, ℕ, zero, suc, ◌+◌, ◌-◌, ◌*◌, ◌/◌, ◌≤◌, ◌<◌, ◌≡◌, arith, ==_iff, not, ltb, ◌&&◌,
  ◌==◌, if◌then◌else◌, Bool-cases, inl, inr,
}
use gamecube_port.Pad.{
  PadStatus, clamp_status, max_stick, xy_stick, max_substick, xy_substick, max_trigger, min_trigger,
  reach, scale, clamp_stick, clamp_trigger, magnitude8, signed8, is_negative8, dead_zone,
}

div_le : (a d k : ℕ) → a ≤ k * d → 0 < d → a / d ≤ k
div_le a d k h z = grind arith

div_mul : (a d : ℕ) → a / d * d ≤ a
div_mul a d = grind arith

le_cancel : (a b d : ℕ) → a * d ≤ b * d → 0 < d → a ≤ b
le_cancel a b d h z = grind arith

mul_le : (c a b : ℕ) → a ≤ b → c * a ≤ c * b
mul_le zero a b h = omega arith
mul_le (suc c) a b h = omega (arith, mul_le c a b h)

module _ (k d : ℕ) (pos : 0 < d) where
  -- A weighted sum that is at most `d` is at most `k` after the scaling by `k / d`.
  scaled_sum : (a b x y : ℕ) → a * x + b * y ≤ d → a * (k * x / d) + b * (k * y / d) ≤ k
  scaled_sum a b x y h =
      let p : a * (k * x / d * d) ≤ a * (k * x) = mul_le a _ _ (div_mul (k * x) d) in
      let q : b * (k * y / d * d) ≤ b * (k * y) = mul_le b _ _ (div_mul (k * y) d) in
      let r : k * (a * x + b * y) ≤ k * d = mul_le k _ _ h in
      le_cancel _ k d (grind (arith, p, q, r)) pos

-- The octagon of a region: both weighted sums are at most `xy * max`.
abbrev pub IsInOctagon : (max xy : ℕ) → ℕ × ℕ → Type 0
IsInOctagon max xy p =
    (xy * p.0 + (max - xy) * p.1 ≤ xy * max) × (xy * p.1 + (max - xy) * p.0 ≤ xy * max)

-- Both weighted sums of a point are at most its reach.
abbrev IsReach : (max xy x y : ℕ) → Type 0
IsReach max xy x y =
    (xy * x + (max - xy) * y ≤ reach max xy x y) × (xy * y + (max - xy) * x ≤ reach max xy x y)

scale-IsInOctagon :
    (max xy x y : ℕ)
    → IsReach max xy x y
    → IsInOctagon max xy (scale max xy (reach max xy x y) x, scale max xy (reach max xy x y) y)
unfolding scale
scale-IsInOctagon max xy x y (g, h) = elim (Bool-cases (ltb (xy * max) (reach max xy x y))) [
  | inl e ↦
      let pos : 0 < reach max xy x y = ground (arith, e) in
      rw (e) (
        scaled_sum (xy * max) (reach max xy x y) pos xy (max - xy) x y g,
        scaled_sum (xy * max) (reach max xy x y) pos xy (max - xy) y x h,
      )
  | inr e ↦
      let small : reach max xy x y ≤ xy * max = ground (arith, e) in
      rw (e) (omega (arith, g, small), omega (arith, h, small))
]

weights_le : (x y : ℕ) → IsReach 72 40 x y × IsReach 59 31 x y
unfolding reach
weights_le x y = ground arith

magnitude8-signed8 : (n : Bool) (v : ℕ) → v ≤ 127 → magnitude8 (signed8 n v) ≡ v
magnitude8-signed8 true v h = ground (arith, h)
magnitude8-signed8 false v h = ground (arith, h)

-- The magnitudes of the two coordinates.
abbrev pub magnitudes : ℕ × ℕ → ℕ × ℕ
magnitudes p = (magnitude8 (p.0), magnitude8 (p.1))

clamp_stick-IsInOctagon :
    (max xy min px py : ℕ)
    → ((x y : ℕ) → IsReach max xy x y)
    → ((u v : ℕ) → IsInOctagon max xy (u, v) → (u ≤ 127) × (v ≤ 127))
    → IsInOctagon max xy (magnitudes (clamp_stick max xy min px py))
unfolding clamp_stick
clamp_stick-IsInOctagon max xy min px py g small =
    let x = dead_zone min (magnitude8 px) in
    let y = dead_zone min (magnitude8 py) in
    let d = reach max xy x y in
    let o = scale-IsInOctagon max xy x y (g x y) in
    let (a, b) = small (scale max xy d x) (scale max xy d y) o in
    elim (Bool-cases ((x == 0) && (y == 0))) [
      | inl e ↦ rw (e) (omega arith, omega arith)
      | inr e ↦
          rw
            (
              e,
              magnitude8-signed8 (is_negative8 px) (scale max xy d x) a,
              magnitude8-signed8 (is_negative8 py) (scale max xy d y) b,
            )
            o
    ]

-- What `PADClamp` leaves of a controller's input: sticks in their octagons, triggers up to 150.
pub record IsClamped (s : PadStatus) : Type 0 where
  pub stick : IsInOctagon max_stick xy_stick (magnitudes (s.stick_x, s.stick_y))
  pub substick : IsInOctagon max_substick xy_substick (magnitudes (s.substick_x, s.substick_y))
  pub left : s.trigger_l ≤ max_trigger - min_trigger
  pub right : s.trigger_r ≤ max_trigger - min_trigger

clamp_trigger-le : (v : ℕ) → clamp_trigger v ≤ 150
unfolding clamp_trigger
clamp_trigger-le v = ground arith

IsClamped-connected :
    (c : Bool) (s t : PadStatus) → c ≡ true → IsClamped t → IsClamped (if not c then s else t)
IsClamped-connected true s t e h = h
IsClamped-connected false s t e h = ground arith

-- `PADClamp` brings the sticks of a connected controller into their octagons and its triggers into
-- their range, whatever the input.
pub clamp_status-IsClamped : (s : PadStatus) → s.err ≡ 0 → IsClamped (clamp_status s)
unfolding clamp_status
clamp_status-IsClamped s e = IsClamped-connected (s.err == 0) s _ ((==_iff s.err 0).1 e) (record {
  stick =
      clamp_stick-IsInOctagon 72 40 15 s.stick_x s.stick_y (λ x y. (weights_le x y).0)
        (λ u v o. (omega (arith, o), omega (arith, o)));
  substick =
      clamp_stick-IsInOctagon 59 31 15 s.substick_x s.substick_y (λ x y. (weights_le x y).1)
        (λ u v o. (omega (arith, o), omega (arith, o)));
  left = clamp_trigger-le s.trigger_l;
  right = clamp_trigger-le s.trigger_r;
})
