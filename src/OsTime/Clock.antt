-- ===== src/OsTime/Clock.antt =====
-- The split of a count of ticks into days, seconds and the ticks of the last second.
use gamecube_port.Base.{
  ◌+◌, ◌%◌, ◌<◌, ◌≡◌, ◌⊎◌, inl, inr, arith, ap, ◌∙◌, Bool-cases, if◌then◌else◌,
}
use gamecube_port.Base.Signed.{
  ℤ, pos, negsuc, pos_part, neg_part, ◌+ℤ◌, ◌-ℤ◌, times, tdiv, tmod, ltb_ℤ, eq_of_parts, one_part,
  +ℤ_parts, -ℤ_parts, tdiv_parts, tmod_parts, times_parts,
}
use gamecube_port.OsTime.{ticks_per_sec, bias, tick_rest, day_and_secs}

rest_lem :
    (ticks : ℤ) → (neg_part (tick_rest ticks) ≡ 0) × (pos_part (tick_rest ticks) < ticks_per_sec)
unfolding tick_rest tmod ◌+ℤ◌
rest_lem (pos n) = (ground arith, ground arith)
rest_lem (negsuc n) = (ground arith, ground arith)

rest_parts :
    (t : ℤ)
    → (pos_part (tick_rest t) + neg_part t % ticks_per_sec ≡ pos_part t % ticks_per_sec)
      ⊎ (pos_part (tick_rest t) + neg_part t % ticks_per_sec
          ≡ pos_part t % ticks_per_sec + ticks_per_sec)
unfolding tick_rest tmod ◌+ℤ◌
rest_parts (pos n) = inl (ground arith)
rest_parts (negsuc n) = ground arith

-- The days and the seconds of the last day, of a count of seconds.
abbrev day_of : ℤ → ℤ × ℤ
day_of s =
    let days = tdiv s 86400 +ℤ pos bias in
    let secs = tmod s 86400 in
    if ltb_ℤ secs (pos 0) then (days -ℤ pos 1, secs +ℤ pos 86400) else (days, secs)

seconds_lem :
    (ticks : ℤ)
    → times ticks_per_sec (tdiv (ticks -ℤ tick_rest ticks) ticks_per_sec) +ℤ tick_rest ticks ≡ ticks
seconds_lem t =
    let d = tick_rest t in
    let e = t -ℤ d in
    let q = tdiv e ticks_per_sec in
    eq_of_parts _ _ (
      omega (
        arith,
        rest_lem t,
        rest_parts t,
        one_part e,
        one_part t,
        -ℤ_parts t d,
        tdiv_parts e ticks_per_sec,
        times_parts ticks_per_sec q,
        +ℤ_parts (times ticks_per_sec q) d,
      ))

-- The two outcomes of the correction.
abbrev IsSplit : ℤ → ℤ × ℤ → Type 0
IsSplit s r =
    (times 86400 (r.0 -ℤ pos bias) +ℤ r.1 ≡ s) × (neg_part r.1 ≡ 0) × (pos_part r.1 < 86400)

days_lem : (s : ℤ) → IsSplit s (day_of s)
days_lem s =
    let secs = tmod s 86400 in
    let q = tdiv s 86400 in
    let days = q +ℤ pos bias in
    let (ps, ns) = tmod_parts s 86400 (omega arith) in
    let (pq, nq) = tdiv_parts s 86400 in
    let one = one_part s in
    elim (Bool-cases (ltb_ℤ secs (pos 0))) [
      | inl e ↦
          let low : 0 < neg_part secs = ground (arith, e) in
          let days' = days -ℤ pos 1 in
          let secs' = secs +ℤ pos 86400 in
          let back = days' -ℤ pos bias in
          let a = +ℤ_parts q (pos bias) in
          let b = -ℤ_parts days (pos 1) in
          let c = -ℤ_parts days' (pos bias) in
          let d = +ℤ_parts secs (pos 86400) in
          let f = times_parts 86400 back in
          let g = +ℤ_parts (times 86400 back) secs' in
          let h = one_part secs' in
          rw (e) (
            eq_of_parts _ _ (omega (arith, low, ps, ns, pq, nq, one, a, b, c, d, f, g, h)),
            omega (arith, low, ps, ns, one, d, h),
            omega (arith, low, ps, ns, one, d, h),
          )
      | inr e ↦
          let high : neg_part secs ≡ 0 = ground (arith, e) in
          let back = days -ℤ pos bias in
          let a = +ℤ_parts q (pos bias) in
          let c = -ℤ_parts days (pos bias) in
          let f = times_parts 86400 back in
          let g = +ℤ_parts (times 86400 back) secs in
          rw (e) (
            eq_of_parts _ _ (omega (arith, high, ps, ns, pq, nq, one, a, c, f, g)),
            high,
            omega (arith, high, ps, ns, one),
          )
    ]

-- Every count of ticks is the time of its days, its seconds and its rest: the seconds are those of less
-- than a day, and the rest is less than a second, for counts below 0 as well.
pub day_and_secs-split :
    (ticks : ℤ)
    → let (days, secs) = day_and_secs ticks in
      let rest = tick_rest ticks in
      (times ticks_per_sec (times 86400 (days -ℤ pos bias) +ℤ secs) +ℤ rest ≡ ticks)
      × ((neg_part secs ≡ 0) × (pos_part secs < 86400))
      × ((neg_part rest ≡ 0) × (pos_part rest < ticks_per_sec))
unfolding day_and_secs
day_and_secs-split t =
    let q = tdiv (t -ℤ tick_rest t) ticks_per_sec in
    let (e, n, l) = days_lem q in
    (ap (λ z. times ticks_per_sec z +ℤ tick_rest t) e ∙ seconds_lem t, (n, l), rest_lem t)
