-- ===== src/OsStopwatch/Tests.antt =====
-- Three laps.
use gamecube_port.Base.{ℕ, List, [], ◌∷◌, arith, length}
use gamecube_port.OsStopwatch.{init_stopwatch}
use gamecube_port.OsStopwatch.Laps.{laps, sum, least, greatest, IsCount, laps_lem}

abbrev gaps : List ℕ
gaps = 4 ∷ 0 ∷ 9 ∷ []

laps_lem_example :
    IsCount
      (sum gaps)
      (length gaps)
      (least gaps 0xFFFFFFFF)
      (greatest gaps 0)
      ((laps gaps (init_stopwatch 1, 7)).0)
laps_lem_example = laps_lem gaps 1 7 (omega arith) (omega arith)
