-- ===== src/Exi/Runs.antt =====
-- Sequences of calls, and that a channel can be released after any of them.
use gamecube_port.Base.{
  ℕ, ◌%◌, ◌^◌, ◌≡◌, refl, arith, Bool, true, false, not, List, [], ◌∷◌, ◌==◌, Bool-cases, if_cases,
  ◌&&◌, inl, inr, Option, none, some, ◌+◌, ◌/◌,
}
use gamecube_port.Exi.{
  Exi, Hook, is_channel, is_busy, exi_init, lock, unlock, select, deselect, sync, attach, detach,
  set_exi_callback, complete_transfer,
}
use gamecube_port.Exi.Imm.{imm, imm_ex, dma}
use gamecube_port.Exi.Sound.{
  Sound, new_Sound, lock-Sound, unlock-Sound, select-Sound, deselect-Sound, attach-Sound,
  detach-Sound, set_exi_callback-Sound, sync-Sound,
}
use gamecube_port.Exi.Started.{Ended, imm-Sound, imm_ex-Ended, dma-Sound}

-- The calls that change a channel, and what the host assigns to `gc_exi_dma_hook`. A length is reduced
-- to the 32 bits of its type.
pub data Call : Type 0 where
  lock_call : (channel device callback : ℕ) → Call
  unlock_call : (channel : ℕ) → Call
  select_call : (channel device : ℕ) → Call
  deselect_call : (channel : ℕ) → Call
  imm_call : (channel buffer length type callback : ℕ) → Call
  imm_ex_call : (channel buffer length type : ℕ) → Call
  dma_call : (channel buffer length type callback : ℕ) → Call
  sync_call : (channel : ℕ) → Call
  attach_call : (channel callback : ℕ) → Call
  detach_call : (channel : ℕ) → Call
  callback_call : (channel callback : ℕ) → Call
  hook_call : (hook : Option Hook) → Call

-- A call on fuel whose result is dropped.
abbrev after : Option (Bool × Exi) → Option Exi
after none = none
after (some r) = some (r.1)

-- The fuel for the pieces of a transfer.
abbrev pieces : (length : ℕ) → ℕ
pieces length = (length % 2 ^ 32 + 3) / 4 + 1

abbrev pub step : Call → Exi → Option Exi
step (lock_call c device callback) e = some ((lock e c device callback).1)
step (unlock_call c) e = some ((unlock e c).1)
step (select_call c device) e = some ((select e c device).1)
step (deselect_call c) e = some ((deselect e c).1)
step (imm_call c buffer length type callback) e =
    some ((imm e c buffer (length % 2 ^ 32) type callback).1)
step (imm_ex_call c buffer length type) e =
    after (imm_ex (pieces length) e c buffer (length % 2 ^ 32) type)
step (dma_call c buffer length type callback) e =
    some ((dma e c buffer (length % 2 ^ 32) type callback).2)
step (sync_call c) e = some ((sync e c).1)
step (attach_call c callback) e = some ((attach e c callback).1)
step (detach_call c) e = some ((detach e c).1)
step (callback_call c callback) e = some ((set_exi_callback e c callback).1)
step (hook_call hook) e = some (record e { dma_hook = hook })

abbrev pub then_run : Option Exi → (Exi → Option Exi) → Option Exi
then_run none f = none
then_run (some e) f = f e

-- The calls one after another, with no result if one of them runs out of fuel.
abbrev pub run : List Call → Exi → Option Exi
run [] e = some e
run (call ∷ calls) e = then_run (step call e) (run calls)

-- The calls have ended, and left all channels sound.
abbrev pub EndsSound : Option Exi → Type 0
EndsSound none = true ≡ false
EndsSound (some e) = Sound e

after-EndsSound : (r : Option (Bool × Exi)) → Ended r → EndsSound (after r)
after-EndsSound none h = h
after-EndsSound (some r) h = h

step-EndsSound : (call : Call) (e : Exi) → Sound e → EndsSound (step call e)
step-EndsSound (lock_call c device callback) e h = lock-Sound e h c device callback
step-EndsSound (unlock_call c) e h = unlock-Sound e h c
step-EndsSound (select_call c device) e h = select-Sound e h c device
step-EndsSound (deselect_call c) e h = deselect-Sound e h c
step-EndsSound (imm_call c buffer length type callback) e h =
    imm-Sound e c buffer (length % 2 ^ 32) type callback h (omega arith)
step-EndsSound (imm_ex_call c buffer length type) e h =
    after-EndsSound (imm_ex (pieces length) e c buffer (length % 2 ^ 32) type)
      (imm_ex-Ended (pieces length) e c buffer (length % 2 ^ 32) type h (omega arith) (omega arith))
step-EndsSound (dma_call c buffer length type callback) e h =
    dma-Sound e c buffer (length % 2 ^ 32) type callback h
step-EndsSound (sync_call c) e h = sync-Sound e h c
step-EndsSound (attach_call c callback) e h = attach-Sound e h c callback
step-EndsSound (detach_call c) e h = detach-Sound e h c
step-EndsSound (callback_call c callback) e h = set_exi_callback-Sound e h c callback
step-EndsSound (hook_call hook) e h = h

then_EndsSound :
    (o : Option Exi) (f : Exi → Option Exi)
    → EndsSound o
    → ((e : Exi) → Sound e → EndsSound (f e))
    → EndsSound (then_run o f)
then_EndsSound none f h g = h
then_EndsSound (some e) f h g = g e h

run-EndsSound : (calls : List Call) (e : Exi) → Sound e → EndsSound (run calls e)
run-EndsSound [] e h = h
run-EndsSound (call ∷ calls) e h =
    then_EndsSound (step call e) (run calls) (step-EndsSound call e h)
      (λ e1 h1. run-EndsSound calls e1 h1)

-- After the initialization, any sequence of calls ends, and then no direct transfer is pending, and an
-- immediate one only on a channel whose device is selected, of one to four bytes. Among the calls the
-- host may set any hook for direct transfers that changes no more than the memory of the host.
pub run_init-EndsSound : (calls : List Call) (e : Exi) → EndsSound (run calls (exi_init e))
unfolding exi_init
run_init-EndsSound calls e = run-EndsSound calls (exi_init e) (λ k. new_Sound)

module _ (e : Exi) (channel : ℕ) (valid : is_channel channel ≡ true) where
  complete_done :
      is_busy (e.chan channel) ≡ true
      → ((complete_transfer e channel).chan channel).dma_flag ≡ false
  unfolding complete_transfer
  complete_done busy = let self : (channel == channel) ≡ true = ground arith in rw (busy, self) refl

  sync_idle : is_busy ((sync e channel).1.chan channel) ≡ false
  unfolding sync
  sync_idle =
      let c = e.chan channel in
      let P : Bool × Exi → Type 0 = λ r. is_busy (r.1.chan channel) ≡ false in
      let self : (channel == channel) ≡ true = ground arith in
      if_cases P (not (is_channel channel)) (false, e) _ (λ g. absurd (ground (arith, g, valid)))
        (λ _.
          if_cases P (not (is_busy c) && not c.imm_flag) (true, e) _ (λ g. ground (arith, g))
            (λ g.
              let busy : is_busy c ≡ true = ground (arith, g) in
              rw (self, complete_done busy) refl))

  deselect_free :
      is_busy (e.chan channel) ≡ false
      → (((deselect e channel).1.chan channel).selected ≡ false)
        × (is_busy ((deselect e channel).1.chan channel) ≡ false)
  unfolding deselect
  deselect_free idle = elim (Bool-cases (e.chan channel).selected) [
    | inl g ↦
        let self : (channel == channel) ≡ true = ground arith in
        rw (valid, g, idle, self) (refl, idle)
    | inr g ↦ rw (valid, g) (g, idle)
  ]

  unlock_free :
      is_busy (e.chan channel) ≡ false
      → (e.chan channel).selected ≡ false
      → ((unlock e channel).0 ≡ true)
        × (((unlock e channel).1.chan channel).locked ≡ false)
        × (((unlock e channel).1.chan channel).selected ≡ false)
  unfolding unlock
  unlock_free idle g =
      let self : (channel == channel) ≡ true = ground arith in
      rw (valid, idle, self) (refl, refl, g)

  -- A lock of a channel that is not locked succeeds.
  lock_free :
      (device callback : ℕ)
      → (e.chan channel).locked ≡ false
      → (lock e channel device callback).0 ≡ true
  unfolding lock
  lock_free device callback g = rw (valid, g) refl

-- From any state, also one that any calls lead to, a wait, a release of the device and one of the
-- lock make a channel free: the last one succeeds, and a lock succeeds again, with no device
-- selected.
pub release-lock :
    (e : Exi) (channel device callback : ℕ)
    → is_channel channel ≡ true
    → let e1 = (sync e channel).1 in
      let e2 = (deselect e1 channel).1 in
      let (freed, e3) = unlock e2 channel in
      (freed ≡ true)
      × ((e3.chan channel).selected ≡ false)
      × ((lock e3 channel device callback).0 ≡ true)
release-lock e channel device callback valid =
    let e1 = (sync e channel).1 in
    let (g, idle) = deselect_free e1 channel valid (sync_idle e channel valid) in
    let e2 = (deselect e1 channel).1 in
    let (freed, unlocked, none_selected) = unlock_free e2 channel valid idle g in
    (freed, none_selected, lock_free ((unlock e2 channel).1) channel valid device callback unlocked)
