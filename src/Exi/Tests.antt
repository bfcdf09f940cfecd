-- ===== src/Exi/Tests.antt =====
-- Calls on the first and the second channel, with a hook that fills the first byte of a buffer.
use gamecube_port.Base.{ℕ, ◌≡◌, refl, List, [], ◌∷◌, Option, none, some, true, false}
use gamecube_port.GcMem.{update}
use gamecube_port.Exi.{Exi, Hook, new_channel, exi_init, lock, unlock, select, deselect, sync}
use gamecube_port.Exi.Imm.{imm, imm_ex, dma}
use gamecube_port.Exi.Runs.{
  Call, lock_call, select_call, imm_ex_call, dma_call, deselect_call, hook_call, run, EndsSound,
  run_init-EndsSound, release-lock,
}

abbrev off : Exi
off = record { regs = λ i. 0; chan = λ k. new_channel; dma_hook = none; host = λ i. 0x52 }

abbrev fill : Hook
fill channel addr buffer length type host = (true, update host buffer 0x77)

-- A command of five bytes, and the direct transfer that it announces.
abbrev script : List Call
script =
    hook_call (some fill)
    ∷ lock_call 0 1 5
    ∷ select_call 0 1
    ∷ imm_ex_call 0 0x100 5 1
    ∷ dma_call 0 0x200 512 0 0
    ∷ deselect_call 0
    ∷ []

run_init-EndsSound_example : EndsSound (run script (exi_init off))
run_init-EndsSound_example = run_init-EndsSound script off

-- The byte that a run leaves at an address.
abbrev byte_at : ℕ → Option Exi → ℕ
byte_at a none = 0
byte_at a (some e) = e.host a

filled : byte_at 0x200 (run script (exi_init off)) ≡ 0x77
unfolding exi_init lock select imm_ex dma deselect
filled = refl

-- A transfer is pending on a channel that is locked.
abbrev pending : Exi
pending = (imm ((select ((lock (exi_init off) 1 0 5).1) 1 0).1) 1 0x100 2 1 0).1

release-lock_example :
    let e1 = (sync pending 1).1 in
    let e2 = (deselect e1 1).1 in
    let (freed, e3) = unlock e2 1 in
    (freed ≡ true) × ((e3.chan 1).selected ≡ false) × ((lock e3 1 0 5).0 ≡ true)
release-lock_example = release-lock pending 1 0 5 refl
