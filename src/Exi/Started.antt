-- ===== src/Exi/Started.antt =====
-- A transfer of one to four bytes is pending when its call returns.
use gamecube_port.Base.{
  ℕ, ◌≤◌, ◌<◌, ◌^◌, ◌≡◌, refl, sym, ◌∙◌, arith, Bool, true, false, not, ◌||◌, ◌&&◌, Option, none,
  some, ◌==◌, if◌then◌else◌, if_cases, zero, suc, ◌+◌, ◌-◌, ◌/◌,
}
use gamecube_port.Base.Int.{slt32, sle32}
use gamecube_port.Exi.{Exi, Channel, Hook, is_channel, is_busy, set_chan, exi_read, sync}
use gamecube_port.Exi.Imm.{
  imm, imm_ex, imm_pieces, capture, is_command, dma, run_hook, start_dma, end_dma, start_imm,
  read_status, write_imm, status_command, pack,
}
use gamecube_port.Exi.Sound.{IsSound, Sound, set_Sound, guard, Result, keep, sync-Sound}

-- A channel behind the guards of a transfer.
record IsLive (n : ℕ) (c : Channel) : Type 0 where
  no_dma : c.dma_flag ≡ false
  no_imm : c.imm_flag ≡ false
  is_selected : c.selected ≡ true
  length : c.imm_len ≡ n

Live-Sound : (n : ℕ) (c : Channel) → IsLive n c → IsSound c
Live-Sound n c p = record {
  no_dma = p.no_dma;
  is_selected = λ g. p.is_selected;
  some_byte = λ g. absurd (ground (arith, g, p.no_imm));
  few_bytes = λ g. absurd (ground (arith, g, p.no_imm));
}

module _ (channel n : ℕ) where
  abbrev Started : Exi → Type 0
  Started e = Sound e × IsLive n (e.chan channel)

  set_Started : (e : Exi) (c : Channel) → Sound e → IsLive n c → Started (set_chan e channel c)
  set_Started e c h p =
      let self : (channel == channel) ≡ true = ground arith in
      (set_Sound e channel c h (Live-Sound n c p), rw self p)

  like_Live :
      (c c' : Channel)
      → c'.dma_flag ≡ c.dma_flag
      → c'.imm_flag ≡ c.imm_flag
      → c'.selected ≡ c.selected
      → c'.imm_len ≡ c.imm_len
      → IsLive n c
      → IsLive n c'
  like_Live c c' e1 e2 e3 e4 p = record {
    no_dma = e1 ∙ p.no_dma;
    no_imm = e2 ∙ p.no_imm;
    is_selected = e3 ∙ p.is_selected;
    length = e4 ∙ p.length;
  }

  read_status-Started : (e : Exi) → Started e → Started (read_status e channel n)
  unfolding read_status
  read_status-Started e s =
      let c = e.chan channel in
      if_cases Started ((n == 1) && (c.dev == 0) && c.pending_status_read) _ e
        (λ _. set_Started e _ s.0 (like_Live c _ refl refl refl refl s.1)) (λ _. s)

  status_command-Live : (c : Channel) (cmd : ℕ) → IsLive n c → IsLive n (status_command c cmd)
  unfolding status_command
  status_command-Live c cmd p =
      if_cases (IsLive n) (cmd == 0x83) _ _ (λ _. like_Live c _ refl refl refl refl p)
        (λ _.
          if_cases (IsLive n) (cmd == 0x89) _ c (λ _. like_Live c _ refl refl refl refl p) (λ _. p))

  write_imm-Started : (e : Exi) (buffer : ℕ) → Started e → Started (write_imm e channel buffer n)
  unfolding write_imm
  write_imm-Started e buffer s =
      let c = e.chan channel in
      let c1 = record c { last_imm_data = pack e.host n 0 buffer } in
      let p : IsLive n c1 = like_Live c c1 refl refl refl refl s.1 in
      set_Started e _ s.0 (
        if_cases (IsLive n) (c.dev == 0) (status_command c1 (e.host buffer)) c1
          (λ _. status_command-Live c1 (e.host buffer) p) (λ _. p))

  start_imm-Sound :
      (e : Exi) (buffer type callback : ℕ)
      → Sound e
      → (e.chan channel).selected ≡ true
      → is_busy (e.chan channel) ≡ false
      → 0 < n
      → n ≤ 4
      → Sound (start_imm e channel buffer n type callback)
  unfolding start_imm
  start_imm-Sound e buffer type callback h g idle pos few =
      let c = e.chan channel in
      let c1 = record c {
        tc_cb = callback;
        imm_len = n;
        imm_buf = buffer;
        last_imm_len = n;
        last_imm_type = type;
        last_imm_data = 0;
      } in
      let s1 = set_Started e c1 h (record {
        no_dma = ground (arith, idle);
        no_imm = ground (arith, idle);
        is_selected = g;
        length = refl;
      }) in
      let e1 = set_chan e channel c1 in
      let e2 : Exi =
        if type == exi_read then read_status e1 channel n else write_imm e1 channel buffer n in
      let s2 =
        if_cases Started (type == exi_read) (read_status e1 channel n)
          (write_imm e1 channel buffer n) (λ _. read_status-Started e1 s1)
          (λ _. write_imm-Started e1 buffer s1) in
      set_Sound e2 channel _ s2.0 (record {
        no_dma = s2.1.no_dma;
        is_selected = λ _. s2.1.is_selected;
        some_byte = λ _. omega (arith, s2.1.length, pos);
        few_bytes = λ _. omega (arith, s2.1.length, few);
      })

pub imm-Sound :
    (e : Exi) (channel buffer n type callback : ℕ)
    → Sound e
    → n < 2 ^ 32
    → Result (imm e channel buffer n type callback)
unfolding imm
imm-Sound e channel buffer n type callback h fits =
    let c = e.chan channel in
    guard (not (is_channel channel)) e _ h (λ _. guard (sle32 n 0 || slt32 4 n) e _ h (λ size.
      guard (not c.selected) e _ h (λ g. guard (is_busy c) e _ h (λ idle.
        start_imm-Sound channel n e buffer type callback h (ground (arith, g)) idle
          (ground (arith, size)) (ground (arith, size))))))

-- A direct transfer that is refused, and one that its hook does.
abbrev Moved : Bool × ℕ × Exi → Type 0
Moved r = Sound (r.2)

refuse :
    (b : Bool) (e : Exi) (r : Bool × ℕ × Exi)
    → Sound e
    → (b ≡ false → Moved r)
    → Moved (if b then (false, 0, e) else r)
refuse b e r h f = if_cases Moved b (false, 0, e) r (λ _. h) f

-- A channel that is changed twice has what was put last.
over_Sound :
    (e : Exi) (channel : ℕ) (c1 c2 : Channel)
    → Sound e
    → IsSound c2
    → Sound (set_chan (set_chan e channel c1) channel c2)
over_Sound e channel c1 c2 h p k =
    let old = if channel == k then c1 else e.chan k in
    if_cases IsSound (channel == k) c2 old (λ _. p) (λ f. rw f (h k))

run_hook-Sound :
    (hook : Option Hook) (e : Exi) (channel buffer n type callback : ℕ)
    → Sound e
    → Moved (run_hook hook e channel buffer n type callback)
unfolding run_hook start_dma end_dma
run_hook-Sound none e channel buffer n type callback h = h
run_hook-Sound (some hook) e channel buffer n type callback h =
    let c = e.chan channel in
    let s = h channel in
    let self : (channel == channel) ≡ true = ground arith in
    let e1 = start_dma e channel type callback in
    let idle : (c' : Channel)
        → c'.dma_flag ≡ false
        → c'.imm_flag ≡ c.imm_flag
        → c'.selected ≡ c.selected
        → c'.imm_len ≡ c.imm_len
        → IsSound c' =
      λ c' e1 e2 e3 e4. keep c c' (e1 ∙ sym s.no_dma) e2 e3 e4 s in
    if_cases Moved (not (hook channel ((e1.chan channel).addr) buffer n type e1.host).0) _ _
      (λ _.
        over_Sound e channel _ _ h (idle _ refl (rw (self) refl) (rw (self) refl) (rw (self) refl)))
      (λ _.
        over_Sound e channel _ _ h (idle _ refl (rw (self) refl) (rw (self) refl) (rw (self) refl)))

pub dma-Sound :
    (e : Exi) (channel buffer n type callback : ℕ)
    → Sound e
    → Moved (dma e channel buffer n type callback)
unfolding dma
dma-Sound e channel buffer n type callback h =
    let c = e.chan channel in
    refuse (not (is_channel channel)) e _ h (λ _. refuse ((buffer == 0) || sle32 n 0) e _ h (λ _.
      refuse (not c.selected) e _ h (λ _. refuse (is_busy c) e _ h (λ _.
        refuse (not c.has_addr) e _ h
          (λ _. run_hook-Sound e.dma_hook e channel buffer n type callback h)))))

capture-Sound :
    (e : Exi) (channel buffer n type : ℕ) → Sound e → Sound (capture e channel buffer n type)
unfolding capture
capture-Sound e channel buffer n type h =
    let is_write = is_channel channel && not (type == exi_read) in
    if_cases Sound (is_write && sle32 5 n && not (buffer == 0) && is_command e.host buffer) _ e
      (λ _. set_Sound e channel _ h (keep (e.chan channel) _ refl refl refl refl (h channel)))
      (λ _. h)

-- A call on fuel that has ended.
abbrev pub Ended : Option (Bool × Exi) → Type 0
Ended none = true ≡ false
Ended (some r) = Result r

imm_pieces-Ended :
    (fuel : ℕ) (e : Exi) (channel buffer n type : ℕ)
    → Sound e
    → n < 2 ^ 32
    → (n + 3) / 4 < fuel
    → Ended (imm_pieces fuel e channel buffer n type)
unfolding imm_pieces
imm_pieces-Ended zero e channel buffer n type h fits enough = absurd (omega (arith, enough))
imm_pieces-Ended (suc fuel) e channel buffer n type h fits enough =
    let piece = if slt32 4 n then 4 else n in
    let small : piece < 2 ^ 32 = ground (arith, fits) in
    let r1 = imm e channel buffer piece type 0 in
    let h1 = imm-Sound e channel buffer piece type 0 h small in
    let r2 = sync (r1.1) channel in
    let h2 = sync-Sound (r1.1) h1 channel in
    let rest = imm_pieces fuel (r2.1) channel (buffer + piece) (n - piece) type in
    if_cases Ended (sle32 n 0) (some (true, e)) _ (λ _. h)
      (λ positive.
        if_cases Ended (not r1.0) (some (false, r1.1)) _ (λ _. h1)
          (λ _.
            if_cases Ended (not r2.0) (some (false, r2.1)) rest (λ _. h2)
              (λ _.
                imm_pieces-Ended fuel (r2.1) channel (buffer + piece) (n - piece) type h2
                  (omega (arith, fits)) (ground (arith, enough, fits, positive)))))

-- A transfer in pieces ends within one turn more than it has pieces of four bytes or less, and leaves all sound.
pub imm_ex-Ended :
    (fuel : ℕ) (e : Exi) (channel buffer n type : ℕ)
    → Sound e
    → n < 2 ^ 32
    → (n + 3) / 4 < fuel
    → Ended (imm_ex fuel e channel buffer n type)
unfolding imm_ex
imm_ex-Ended fuel e channel buffer n type h fits enough =
    imm_pieces-Ended fuel (capture e channel buffer n type) channel buffer n type
      (capture-Sound e channel buffer n type h) fits enough
