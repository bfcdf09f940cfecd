-- ===== src/OsStopwatch/Laps.antt =====
-- What a stopwatch shows after a number of laps.
use gamecube_port.Base.{
  ℕ, ◌+◌, ◌%◌, ◌^◌, ◌<◌, ◌≡◌, refl, ◌∙◌, ap, arith, List, [], ◌∷◌, length, ltb, if◌then◌else◌,
}
use gamecube_port.OsStopwatch.{
  Stopwatch, get_time, sub64, init_stopwatch, start_stopwatch, stop_stopwatch,
}

-- A lap: the stopwatch is started, the clock is read `gap` times by others, the stopwatch is stopped.
abbrev pub lap : (gap : ℕ) → Stopwatch × ℕ → Stopwatch × ℕ
lap gap s = let r = start_stopwatch s.0 s.1 in stop_stopwatch r.0 (r.1 + gap)

abbrev pub laps : List ℕ → Stopwatch × ℕ → Stopwatch × ℕ
laps [] s = s
laps (g ∷ gs) s = laps gs (lap g s)

-- The lengths of the laps: their sum, and the least and the greatest of them and a start value.
abbrev pub sum : List ℕ → ℕ
sum [] = 0
sum (g ∷ gs) = g + 1 + sum gs

abbrev pub least : List ℕ → ℕ → ℕ
least [] d = d
least (g ∷ gs) d = least gs (if ltb (g + 1) d then g + 1 else d)

abbrev pub greatest : List ℕ → ℕ → ℕ
greatest [] d = d
greatest (g ∷ gs) d = greatest gs (if ltb d (g + 1) then g + 1 else d)

-- What a stopwatch that is stopped has counted.
pub record IsCount (total hits min max : ℕ) (sw : Stopwatch) : Type 0 where
  pub is_total : sw.total ≡ total
  pub is_hits : sw.hits ≡ hits
  pub is_min : sw.min ≡ min
  pub is_max : sw.max ≡ max

lap_lem :
    (gap total hits min max counter : ℕ) (sw : Stopwatch)
    → IsCount total hits min max sw
    → total + (gap + 1) < 2 ^ 64
    → hits + 1 < 2 ^ 32
    → counter + (gap + 2) < 2 ^ 64
    → IsCount
        (total + (gap + 1))
        (hits + 1)
        (if ltb (gap + 1) min then gap + 1 else min)
        (if ltb max (gap + 1) then gap + 1 else max)
        ((lap gap (sw, counter)).0)
      × ((lap gap (sw, counter)).1 ≡ counter + (gap + 2))
unfolding start_stopwatch stop_stopwatch
lap_lem gap total hits min max counter sw r a b c =
    let i : sub64 (get_time (get_time counter + gap)) (get_time counter) ≡ gap + 1 =
      omega (arith, c) in
    let t = r.is_total in
    let h = r.is_hits in
    (
      record {
        is_total = ap (λ d. (sw.total + d) % 2 ^ 64) i ∙ omega (arith, t, a);
        is_hits = omega (arith, h, b);
        is_min =
            ap (λ d. if ltb d sw.min then d else sw.min) i
            ∙ ap (λ l. if ltb (gap + 1) l then gap + 1 else l) r.is_min;
        is_max =
            ap (λ d. if ltb sw.max d then d else sw.max) i
            ∙ ap (λ l. if ltb l (gap + 1) then gap + 1 else l) r.is_max;
      },
      omega (arith, c),
    )

laps_from :
    (gs : List ℕ) (total hits min max counter : ℕ) (sw : Stopwatch)
    → IsCount total hits min max sw
    → total + sum gs < 2 ^ 64
    → hits + length gs < 2 ^ 32
    → counter + sum gs + length gs < 2 ^ 64
    → IsCount
        (total + sum gs)
        (hits + length gs)
        (least gs min)
        (greatest gs max)
        ((laps gs (sw, counter)).0)
laps_from [] total hits min max counter sw r a b c = record {
  is_total = omega (arith, r.is_total);
  is_hits = omega (arith, r.is_hits);
  is_min = r.is_min;
  is_max = r.is_max;
}
laps_from (g ∷ gs) total hits min max counter sw r a b c =
    let (n, e) =
      lap_lem g total hits min max counter sw r (omega (arith, a)) (omega (arith, b))
        (omega (arith, c)) in
    let s = lap g (sw, counter) in
    let rest =
      laps_from gs (total + (g + 1)) (hits + 1) _ _ (s.1) (s.0) n (omega (arith, a))
        (omega (arith, b)) (omega (arith, c, e)) in
    record {
      is_total = rest.is_total ∙ omega arith;
      is_hits = rest.is_hits ∙ omega arith;
      is_min = rest.is_min;
      is_max = rest.is_max;
    }

-- A new stopwatch shows after any number of laps, while nothing overflows, their number, the sum of
-- their lengths, the greatest length, and the least one or 0xFFFFFFFF, whichever is less.
pub laps_lem :
    (gs : List ℕ) (name counter : ℕ)
    → length gs < 2 ^ 32
    → counter + sum gs + length gs < 2 ^ 64
    → IsCount
        (sum gs)
        (length gs)
        (least gs 0xFFFFFFFF)
        (greatest gs 0)
        ((laps gs (init_stopwatch name, counter)).0)
unfolding init_stopwatch
laps_lem gs name counter b c =
    let r =
      laps_from gs 0 0 0xFFFFFFFF 0 counter (init_stopwatch name)
        (record { is_total = refl; is_hits = refl; is_min = refl; is_max = refl })
        (omega (arith, c)) (omega (arith, b)) c in
    record {
      is_total = r.is_total ∙ omega arith;
      is_hits = r.is_hits ∙ omega arith;
      is_min = r.is_min;
      is_max = r.is_max;
    }
