-- ===== src/OsThread/Chosen/Tests.antt =====
-- The queue of the most urgent priority holds two threads.
use gamecube_port.Base.{◌^◌, arith, [], ◌∷◌}
use gamecube_port.OsThread.{Os, cntlzw}
use gamecube_port.OsThread.Scheduler.{choose_next}
use gamecube_port.OsThread.Chosen.{IsChosen, choose_next-first}
use gamecube_port.OsThread.Links.Tests.{state, queued}

abbrev ready : Os
ready = record state { run_queue_bits = 2 ^ 31; gc_base = 0x1000 }

choose_next-first_example : IsChosen ready 0x1000 0x2000 (0x2040 ∷ []) (choose_next ready)
unfolding cntlzw
choose_next-first_example = choose_next-first ready 0x2000 (0x2040 ∷ []) (omega arith) queued
