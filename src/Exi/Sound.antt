-- ===== src/Exi/Sound.antt =====
-- What is pending on a channel stays sound under every call.
use gamecube_port.Base.{
  ℕ, ◌≤◌, ◌<◌, ◌≡◌, refl, sym, ◌∙◌, arith, Bool, true, false, not, ◌&&◌, ◌==◌, if◌then◌else◌,
  if_cases,
}
use gamecube_port.Exi.{
  Exi, Channel, is_channel, is_busy, set_chan, lock, unlock, select, deselect, sync, attach, detach,
  set_exi_callback, to_buffer, complete_transfer, new_channel,
}

-- A direct transfer is over when its call returns, and an immediate one, of one to four bytes, is
-- pending only on a channel with a selected device.
pub record IsSound (c : Channel) : Type 0 where
  pub no_dma : c.dma_flag ≡ false
  pub is_selected : c.imm_flag ≡ true → c.selected ≡ true
  pub some_byte : c.imm_flag ≡ true → 0 < c.imm_len
  pub few_bytes : c.imm_flag ≡ true → c.imm_len ≤ 4

abbrev pub Sound : Exi → Type 0
Sound e = (k : ℕ) → IsSound (e.chan k)

pub new_Sound : IsSound new_channel
new_Sound = record {
  no_dma = refl;
  is_selected = λ h. absurd (ground (arith, h));
  some_byte = λ h. absurd (ground (arith, h));
  few_bytes = λ h. absurd (ground (arith, h));
}

pub set_Sound :
    (e : Exi) (channel : ℕ) (c : Channel) → Sound e → IsSound c → Sound (set_chan e channel c)
set_Sound e channel c h p k = if_cases IsSound (channel == k) c (e.chan k) (λ _. p) (λ _. h k)

-- A change of other fields.
pub keep :
    (c c' : Channel)
    → c'.dma_flag ≡ c.dma_flag
    → c'.imm_flag ≡ c.imm_flag
    → c'.selected ≡ c.selected
    → c'.imm_len ≡ c.imm_len
    → IsSound c
    → IsSound c'
keep c c' e1 e2 e3 e4 s = record {
  no_dma = e1 ∙ s.no_dma;
  is_selected = λ g. e3 ∙ s.is_selected (sym e2 ∙ g);
  some_byte = λ g. omega (arith, e4, s.some_byte (sym e2 ∙ g));
  few_bytes = λ g. omega (arith, e4, s.few_bytes (sym e2 ∙ g));
}

abbrev pub Result : Bool × Exi → Type 0
Result r = Sound (r.1)

-- A call that is refused on some conditions and else changes one channel.
pub guard :
    (b : Bool) (e : Exi) (r : Bool × Exi)
    → Sound e
    → (b ≡ false → Result r)
    → Result (if b then (false, e) else r)
guard b e r h f = if_cases Result b (false, e) r (λ _. h) f

module _ (e : Exi) (h : Sound e) (channel : ℕ) where
  pub lock-Sound : (device callback : ℕ) → Result (lock e channel device callback)
  unfolding lock
  lock-Sound device callback = guard (not (is_channel channel)) e _ h (λ _.
      guard (e.chan channel).locked e _ h
        (λ _. set_Sound e channel _ h (keep (e.chan channel) _ refl refl refl refl (h channel))))

  pub unlock-Sound : Result (unlock e channel)
  unfolding unlock
  unlock-Sound = guard (not (is_channel channel)) e _ h (λ _.
      guard (is_busy (e.chan channel)) e _ h
        (λ _. set_Sound e channel _ h (keep (e.chan channel) _ refl refl refl refl (h channel))))

  pub select-Sound : (device : ℕ) → Result (select e channel device)
  unfolding select
  select-Sound device =
      let s = h channel in
      let c = e.chan channel in
      guard (not (is_channel channel)) e _ h (λ _. guard (not c.locked) e _ h (λ _.
        guard c.selected e _ h (λ _. set_Sound e channel _ h (record {
          no_dma = s.no_dma;
          is_selected = λ g. refl;
          some_byte = s.some_byte;
          few_bytes = s.few_bytes;
        }))))

  pub deselect-Sound : Result (deselect e channel)
  unfolding deselect
  deselect-Sound =
      let c = e.chan channel in
      guard (not (is_channel channel)) e _ h (λ _. guard (not c.selected) e _ h (λ _.
        guard (is_busy c) e _ h (λ idle.
          let no_imm : c.imm_flag ≡ false = ground (arith, idle) in
          set_Sound e channel _ h (record {
            no_dma = (h channel).no_dma;
            is_selected = λ g. absurd (ground (arith, g, no_imm));
            some_byte = (h channel).some_byte;
            few_bytes = (h channel).few_bytes;
          }))))

  pub attach-Sound : (callback : ℕ) → Result (attach e channel callback)
  unfolding attach
  attach-Sound callback = guard (not (is_channel channel)) e _ h (λ _.
      guard ((e.chan channel).attach_ok == 0) e _ h
        (λ _. set_Sound e channel _ h (keep (e.chan channel) _ refl refl refl refl (h channel))))

  pub detach-Sound : Result (detach e channel)
  unfolding detach
  detach-Sound =
      guard (not (is_channel channel)) e _ h
        (λ _. set_Sound e channel _ h (keep (e.chan channel) _ refl refl refl refl (h channel)))

  pub set_exi_callback-Sound : (callback : ℕ) → Sound ((set_exi_callback e channel callback).1)
  unfolding set_exi_callback
  set_exi_callback-Sound callback =
      if_cases (λ (r : ℕ × Exi). Sound (r.1)) (not (is_channel channel)) (0, e) _ (λ _. h)
        (λ _. set_Sound e channel _ h (keep (e.chan channel) _ refl refl refl refl (h channel)))

  buffer_Sound : Sound (to_buffer e channel)
  unfolding to_buffer
  buffer_Sound =
      let c = e.chan channel in
      if_cases Sound (c.imm_flag && not (c.imm_len == 0) && not (c.imm_buf == 0)) _ e (λ _. h)
        (λ _. h)

  -- A transfer completes with nothing pending.
  complete_Sound : Sound (complete_transfer e channel)
  unfolding complete_transfer
  complete_Sound =
      let c = e.chan channel in
      if_cases Sound (not (is_busy c)) e _ (λ _. h)
        (λ _. set_Sound (to_buffer e channel) channel _ buffer_Sound (record {
          no_dma = refl;
          is_selected = λ g. absurd (ground (arith, g));
          some_byte = λ g. absurd (ground (arith, g));
          few_bytes = λ g. absurd (ground (arith, g));
        }))

  pub sync-Sound : Result (sync e channel)
  unfolding sync
  sync-Sound =
      let c = e.chan channel in
      let done = complete_Sound in
      guard (not (is_channel channel)) e _ h (λ _.
        if_cases Result (not (is_busy c) && not c.imm_flag) (true, e) _ (λ _. h)
          (λ _. set_Sound (complete_transfer e channel) channel _ done (record {
            no_dma = (done channel).no_dma;
            is_selected = λ g. absurd (ground (arith, g));
            some_byte = λ g. absurd (ground (arith, g));
            few_bytes = λ g. absurd (ground (arith, g));
          })))
