-- ===== src/Exi.antt =====
-- sdk_port/exi/EXI.c: the model of the expansion interface, three channels with a lock, a selected
-- device, transfers of at most four bytes, and a card's status register behind channel and device 0.
pub mod Imm
pub mod Sound
pub mod Started
pub mod Runs
mod Tests
use gamecube_port.Base.{
  ℕ, zero, suc, ◌+◌, ◌-◌, ◌*◌, ◌/◌, ◌%◌, ◌^◌, Bool, true, false, not, ◌&&◌, ◌||◌, Option, none,
  some, ◌==◌, if◌then◌else◌, bit_and,
}
use gamecube_port.Base.Int.{slt32, sle32}
use gamecube_port.GcMem.{update}

abbrev pub max_chan : ℕ
max_chan = 3

abbrev pub reg_max : ℕ
reg_max = 5

-- `EXI_READ`; any other type of transfer writes.
abbrev pub exi_read : ℕ
exi_read = 0

-- The bytes of the host, below 256, which pointers index; a null pointer is 0. A callback is its
-- address.
abbrev pub Host : Type 0
Host = ℕ → ℕ

-- `GcExiControl`, whose `state` is five flags, `GcExiCardProto`, and the arrays `gc_exi_*` at one
-- channel. `probeex_ret` is a bit pattern.
pub record Channel : Type 0 where
  pub exi_cb : ℕ
  pub tc_cb : ℕ
  pub ext_cb : ℕ
  pub dma_flag : Bool
  pub imm_flag : Bool
  pub selected : Bool
  pub attached : Bool
  pub locked : Bool
  pub imm_len : ℕ
  pub imm_buf : ℕ
  pub dev : ℕ
  pub cmd0 : ℕ
  pub addr : ℕ
  pub has_addr : Bool
  pub pending_status_read : Bool
  pub probeex_ret : ℕ
  pub getid_ok : ℕ
  pub id : ℕ
  pub attach_ok : ℕ
  pub card_status : ℕ
  pub status_reads : ℕ
  pub status_clears : ℕ
  pub last_imm_len : ℕ
  pub last_imm_type : ℕ
  pub last_imm_data : ℕ
  pub deselect_calls : ℕ
  pub unlock_calls : ℕ
  pub exi_callback_ptr : ℕ
  pub ext_callback_ptr : ℕ

-- A hook for direct transfers, of a channel, an address, a buffer, a length and a type.
abbrev pub Hook : Type 0
Hook = (channel exi_addr buffer length type : ℕ) → Host → Bool × Host

-- The state of EXI.c and the memory of the host. A register is numbered as in `gc_exi_regs`.
pub record Exi : Type 0 where
  pub regs : ℕ → ℕ
  pub chan : ℕ → Channel
  pub dma_hook : Option Hook
  pub host : Host

-- `channel` is a signed number, as a bit pattern.
abbrev pub is_channel : ℕ → Bool
is_channel channel = not (slt32 channel 0 || sle32 max_chan channel)

abbrev pub set_chan : Exi → ℕ → Channel → Exi
set_chan e channel c = record e { chan = λ k. if channel == k then c else e.chan k }

-- `regp`
abbrev pub reg : ℕ → ℕ → ℕ
reg channel idx = channel * reg_max + idx

abbrev pub set_reg : Exi → (channel idx v : ℕ) → Exi
set_reg e channel idx v = record e { regs = update e.regs (reg channel idx) v }

abbrev pub bit : Bool → ℕ
bit true = 1
bit false = 0

abbrev pub is_busy : Channel → Bool
is_busy c = c.dma_flag || c.imm_flag

-- `exi_0cr`
abbrev pub control : (tstart dma rw tlen : ℕ) → ℕ
control tstart dma rw tlen = tstart % 2 + dma % 2 * 2 + rw % 2 * 4 + tlen % 16 * 16

-- The bytes of the register for immediate transfers, from the highest, to a buffer.
unfoldable pub unpack : (n i value buffer : ℕ) → Host → Host
unpack zero i value buffer host = host
unpack (suc n) i value buffer host =
    unpack n (i + 1) value buffer (update host (buffer + i) (value / 2 ^ ((3 - i) * 8) % 256))

-- The buffer of an immediate transfer gets the register.
unfoldable pub to_buffer : Exi → ℕ → Exi
unfolding unpack
to_buffer e channel =
    let c = e.chan channel in
    if c.imm_flag && not (c.imm_len == 0) && not (c.imm_buf == 0)
    then record e { host = unpack c.imm_len 0 (e.regs (reg channel 4)) c.imm_buf e.host }
    else e

-- `complete_transfer`
unfoldable pub complete_transfer : Exi → ℕ → Exi
unfolding to_buffer
complete_transfer e channel =
    let c = e.chan channel in
    if not (is_busy c)
    then e
    else set_chan (to_buffer e channel) channel (record c { dma_flag = false; imm_flag = false })

-- `EXISetExiCallback`
unfoldable pub set_exi_callback : Exi → (channel callback : ℕ) → ℕ × Exi
set_exi_callback e channel callback =
    let c = e.chan channel in
    if not (is_channel channel) then (0, e) else (
      c.exi_cb,
      set_chan e channel (record c { exi_cb = callback; exi_callback_ptr = callback }),
    )

abbrev pub new_channel : Channel
new_channel = record {
  exi_cb = 0;
  tc_cb = 0;
  ext_cb = 0;
  dma_flag = false;
  imm_flag = false;
  selected = false;
  attached = false;
  locked = false;
  imm_len = 0;
  imm_buf = 0;
  dev = 0;
  cmd0 = 0;
  addr = 0;
  has_addr = false;
  pending_status_read = false;
  probeex_ret = 2 ^ 32 - 1;
  getid_ok = 0;
  id = 0;
  attach_ok = 1;
  card_status = 0;
  status_reads = 0;
  status_clears = 0;
  last_imm_len = 0;
  last_imm_type = 0;
  last_imm_data = 0;
  deselect_calls = 0;
  unlock_calls = 0;
  exi_callback_ptr = 0;
  ext_callback_ptr = 0;
}

-- `EXIInit`
unfoldable pub exi_init : Exi → Exi
exi_init e = record e { regs = λ i. 0; chan = λ k. new_channel; dma_hook = none }

-- `EXILock`
unfoldable pub lock : Exi → (channel device callback : ℕ) → Bool × Exi
lock e channel device callback =
    let c = e.chan channel in
    if not (is_channel channel)
    then (false, e)
    else if c.locked
    then (false, e)
    else (true, set_chan e channel (record c { dev = device; exi_cb = callback; locked = true }))

-- `EXIUnlock`
unfoldable pub unlock : Exi → (channel : ℕ) → Bool × Exi
unlock e channel =
    let c = e.chan channel in
    if not (is_channel channel) then (false, e) else if is_busy c then (false, e) else (
      true,
      set_chan e channel
          (record c { locked = false; unlock_calls = (c.unlock_calls + 1) % 2 ^ 32 }),
    )

-- `EXISelect`
unfoldable pub select : Exi → (channel device : ℕ) → Bool × Exi
select e channel device =
    let c = e.chan channel in
    let e1 = set_chan e channel (record c { dev = device; selected = true }) in
    if not (is_channel channel)
    then (false, e)
    else if not c.locked
    then (false, e)
    else if c.selected
    then (false, e)
    else (true, set_reg e1 channel 0 (device % 4 + 0x100))

-- `EXIDeselect`
unfoldable pub deselect : Exi → (channel : ℕ) → Bool × Exi
deselect e channel =
    let c = e.chan channel in
    if not (is_channel channel)
    then (false, e)
    else if not c.selected
    then (false, e)
    else if is_busy c
    then (false, e)
    else (
      true,
      set_chan e channel
          (record c { selected = false; deselect_calls = (c.deselect_calls + 1) % 2 ^ 32 }),
    )

-- `EXISync`
unfoldable pub sync : Exi → (channel : ℕ) → Bool × Exi
unfolding complete_transfer
sync e channel =
    let c = e.chan channel in
    let e1 = complete_transfer e channel in
    let c1 = e1.chan channel in
    if not (is_channel channel)
    then (false, e)
    else if not (is_busy c) && not c.imm_flag
    then (true, e)
    else (true, set_chan e1 channel (record c1 { imm_flag = false; imm_len = 0; imm_buf = 0 }))

-- `EXIProbe` and `EXIProbeEx`
unfoldable pub probe : Exi → ℕ → Bool
probe e channel = if not (is_channel channel) then false else slt32 0 (e.chan channel).probeex_ret

unfoldable pub probe_ex : Exi → ℕ → ℕ
probe_ex e channel = if not (is_channel channel) then 2 ^ 32 - 1 else (e.chan channel).probeex_ret

-- `EXIAttach`
unfoldable pub attach : Exi → (channel callback : ℕ) → Bool × Exi
attach e channel callback =
    let c = e.chan channel in
    if not (is_channel channel) then (false, e) else if c.attach_ok == 0 then (false, e) else (
      true,
      set_chan e channel
          (record c { ext_cb = callback; ext_callback_ptr = callback; attached = true }),
    )

-- `EXIDetach`
unfoldable pub detach : Exi → (channel : ℕ) → Bool × Exi
detach e channel =
    let c = e.chan channel in
    if not (is_channel channel) then (false, e) else (
      true,
      set_chan e channel (record c { ext_cb = 0; ext_callback_ptr = 0; attached = false }),
    )

-- `EXIGetState`: `EXI_STATE_*` of the flags
unfoldable pub get_state : Exi → ℕ → ℕ
get_state e channel =
    let c = e.chan channel in
    if not (is_channel channel)
    then 0
    else bit c.dma_flag
      + bit c.imm_flag * 2
      + bit c.selected * 4
      + bit c.attached * 8
      + bit c.locked * 16

-- `EXIGetID`: whether it succeeds, and the value written to `id` if that is not null
unfoldable pub get_id : Exi → ℕ → Bool × Option ℕ
get_id e channel =
    let c = e.chan channel in
    if not (is_channel channel)
    then (false, none)
    else if c.getid_ok == 0
    then (false, some 0)
    else (true, some c.id)
