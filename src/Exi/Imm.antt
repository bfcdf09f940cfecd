-- ===== src/Exi/Imm.antt =====
-- sdk_port/exi/EXI.c: `EXIImm`, `EXIImmEx` and `EXIDma`. A length is a signed number, as a bit
-- pattern, and a buffer that is written from is not null.
use gamecube_port.Base.{
  ℕ, zero, suc, ◌+◌, ◌-◌, ◌*◌, ◌%◌, ◌^◌, Bool, true, false, not, ◌&&◌, ◌||◌, Option, none, some,
  ◌==◌, if◌then◌else◌, bit_and,
}
use gamecube_port.Base.Int.{slt32, sle32}
use gamecube_port.Exi.{
  Channel, Exi, Host, Hook, is_channel, is_busy, set_chan, set_reg, control, exi_read, sync,
}

-- The commands of a card that EXI.c knows.
abbrev pub read_status_cmd : ℕ
read_status_cmd = 0x83

abbrev pub clear_status_cmd : ℕ
clear_status_cmd = 0x89

-- The bytes of a buffer, the first one highest.
unfoldable pub pack : Host → (n i buffer : ℕ) → ℕ
pack host zero i buffer = 0
pack host (suc n) i buffer = host (buffer + i) * 2 ^ ((3 - i) * 8) + pack host n (i + 1) buffer

-- What a read of one byte finds if the card's status was asked for.
unfoldable pub read_status : Exi → (channel length : ℕ) → Exi
read_status e channel length =
    let c = e.chan channel in
    let status = c.card_status % 256 * 2 ^ 24 in
    let c1 = record c {
      pending_status_read = false;
      status_reads = (c.status_reads + 1) % 2 ^ 32;
      last_imm_data = status;
    } in
    if (length == 1) && (c.dev == 0) && c.pending_status_read
    then set_reg (set_chan e channel c1) channel 4 status
    else e

-- The commands for the card's status: 0x83 asks for it, 0x89 clears its error bits.
unfoldable pub status_command : Channel → (cmd : ℕ) → Channel
status_command c cmd =
    if cmd == read_status_cmd
    then record c { pending_status_read = true }
    else if cmd == clear_status_cmd
    then record c {
      pending_status_read = false;
      card_status = bit_and c.card_status (2 ^ 32 - 1 - 0x18);
      status_clears = (c.status_clears + 1) % 2 ^ 32;
    }
    else c

unfoldable pub write_imm : Exi → (channel buffer length : ℕ) → Exi
unfolding pack status_command
write_imm e channel buffer length =
    let c = e.chan channel in
    let value = pack e.host length 0 buffer in
    let c1 = record c { last_imm_data = value } in
    let c2 = if c.dev == 0 then status_command c1 (e.host buffer) else c1 in
    set_reg (set_chan e channel c2) channel 4 value

-- A transfer that the guards let through.
unfoldable pub start_imm : Exi → (channel buffer length type callback : ℕ) → Exi
unfolding read_status write_imm
start_imm e channel buffer length type callback =
    let c = record (e.chan channel) {
      tc_cb = callback;
      imm_len = length;
      imm_buf = buffer;
      last_imm_len = length;
      last_imm_type = type;
      last_imm_data = 0;
    } in
    let e1 = set_chan e channel c in
    let e2 =
      if type == exi_read
      then read_status e1 channel length
      else write_imm e1 channel buffer length in
    let e3 = set_chan e2 channel (record (e2.chan channel) { imm_flag = true }) in
    set_reg e3 channel 3 (control 1 0 (if type == 0 then 0 else 1) (length - 1))

-- `EXIImm`
unfoldable pub imm : Exi → (channel buffer length type callback : ℕ) → Bool × Exi
unfolding start_imm
imm e channel buffer length type callback =
    let c = e.chan channel in
    if not (is_channel channel)
    then (false, e)
    else if sle32 length 0 || slt32 4 length
    then (false, e)
    else if not c.selected
    then (false, e)
    else if is_busy c
    then (false, e)
    else (true, start_imm e channel buffer length type callback)

-- The address in a card's command of five bytes.
unfoldable pub decode_addr : Host → ℕ → ℕ
decode_addr host b =
    host (b + 1) % 2 ^ 7 * 2 ^ 17
    + host (b + 2) * 2 ^ 9
    + host (b + 3) % 4 * 2 ^ 7
    + host (b + 4) % 2 ^ 7

-- Whether the bytes are a card's command to read a segment, or to write or erase.
abbrev pub is_command : Host → ℕ → Bool
is_command host b = (host b == 0x52) || (host b == 0xF2) || (host b == 0xF1)

unfoldable pub capture : Exi → (channel buffer length type : ℕ) → Exi
unfolding decode_addr
capture e channel buffer length type =
    let c = record (e.chan channel) {
      cmd0 = e.host buffer;
      addr = decode_addr e.host buffer;
      has_addr = true;
    } in
    let is_write = is_channel channel && not (type == exi_read) in
    if is_write && sle32 5 length && not (buffer == 0) && is_command e.host buffer
    then set_chan e channel c
    else e

-- The loop of `EXIImmEx` over pieces of at most four bytes.
unfoldable pub imm_pieces :
    (fuel : ℕ) → Exi → (channel buffer remaining type : ℕ) → Option (Bool × Exi)
unfolding imm sync
imm_pieces zero e channel buffer remaining type = none
imm_pieces (suc fuel) e channel buffer remaining type =
    let n = if slt32 4 remaining then 4 else remaining in
    let (sent, e1) = imm e channel buffer n type 0 in
    let (synced, e2) = sync e1 channel in
    let rest = imm_pieces fuel e2 channel (buffer + n) (remaining - n) type in
    if sle32 remaining 0
    then some (true, e)
    else if not sent
    then some (false, e1)
    else if not synced
    then some (false, e2)
    else rest

-- `EXIImmEx`
unfoldable pub imm_ex : (fuel : ℕ) → Exi → (channel buffer length type : ℕ) → Option (Bool × Exi)
unfolding capture imm_pieces
imm_ex fuel e channel buffer length type =
    imm_pieces fuel (capture e channel buffer length type) channel buffer length type

-- The state of a channel while the hook runs: a direct transfer is pending.
unfoldable pub start_dma : Exi → (channel type callback : ℕ) → Exi
start_dma e channel type callback =
    let c = record (e.chan channel) { tc_cb = callback; dma_flag = true } in
    set_reg (set_chan e channel c) channel 3 (control 1 1 (if type == 0 then 0 else 1) 0)

-- The transfer is over, and its callback is called if the hook succeeded.
unfoldable pub end_dma : Bool → Exi → (channel : ℕ) → Bool × ℕ × Exi
end_dma ok e channel =
    let c = record (e.chan channel) { dma_flag = false } in
    if not ok
    then (false, 0, set_chan e channel c)
    else (true, c.tc_cb, set_chan e channel (record c { tc_cb = 0 }))

-- What `EXIDma` does behind its guards. The hook gets the memory of the host alone.
unfoldable pub run_hook :
    Option Hook → Exi → (channel buffer length type callback : ℕ) → Bool × ℕ × Exi
unfolding start_dma end_dma
run_hook none e channel buffer length type callback = (false, 0, e)
run_hook (some hook) e channel buffer length type callback =
    let e1 = start_dma e channel type callback in
    let (ok, host) = hook channel ((e1.chan channel).addr) buffer length type e1.host in
    end_dma ok (record e1 { host = host }) channel

-- `EXIDma`: whether it succeeds, and the callback that it calls.
unfoldable pub dma : Exi → (channel buffer length type callback : ℕ) → Bool × ℕ × Exi
unfolding run_hook
dma e channel buffer length type callback =
    let c = e.chan channel in
    if not (is_channel channel)
    then (false, 0, e)
    else if (buffer == 0) || sle32 length 0
    then (false, 0, e)
    else if not c.selected
    then (false, 0, e)
    else if is_busy c
    then (false, 0, e)
    else if not c.has_addr
    then (false, 0, e)
    else run_hook e.dma_hook e channel buffer length type callback
