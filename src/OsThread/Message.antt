-- ===== src/OsThread/Message.antt =====
-- The message queues of sdk_port/os/osthread.c: a ring of words with a queue of senders and one of
-- receivers.
pub mod Ring
pub mod Header
pub mod Send
pub mod Receive
pub mod Jam
pub mod Runs
mod Tests
use gamecube_port.Base.{
  ℕ, zero, suc, ◌+◌, ◌-◌, ◌*◌, ◌%◌, ◌^◌, true, false, Option, none, some, if◌then◌else◌, ◌==◌, Bool,
}
use gamecube_port.Base.Int.{sle32}
use gamecube_port.GcMem.{add32, sub32, mul32}
use gamecube_port.OsThread.{
  Os, M, pure, diverge, skip, gets, ◌>>=◌, ◌>>◌, get32, set32, q_init, msgq_send, msgq_recv,
  msgq_count, msgq_first, msgq_used, msgq_msgs, max_msgs_per_q,
}
use gamecube_port.OsThread.Scheduler.{sleep_thread, wakeup_thread}

-- The loop of `port_OSInitMessageQueue` over the slots from `i` on.
clear_slots : (n i mq : ℕ) → M (Unit {0})
clear_slots zero i mq = skip
clear_slots (suc n) i mq = do set32 mq (msgq_msgs + i * 4) 0; clear_slots n (i + 1) mq

-- `port_OSInitMessageQueue`
unfoldable pub init_message_queue : (mq count : ℕ) → M (Unit {0})
unfolding clear_slots
init_message_queue mq count = do
  q_init (add32 mq msgq_send)
  q_init (add32 mq msgq_recv)
  set32 mq msgq_count count
  set32 mq msgq_first 0
  set32 mq msgq_used 0
  clear_slots max_msgs_per_q 0 mq

-- The remainder of `int32_t` for operands that are not negative.
abbrev pub rem : ℕ → ℕ → ℕ
rem a b = a % b

-- A full or empty queue: fail, or sleep if bit 0 of the flags is set; the result is false.
unfoldable pub block : (fuel queue flags : ℕ) → M Bool
block fuel queue flags =
    if flags % 2 == 0 then pure false else (do sleep_thread fuel queue; pure false)

-- `port_OSSendMessage`
unfoldable pub send_message : (fuel mq msg flags : ℕ) → M Bool
unfolding block
send_message fuel mq msg flags = do
  count ← get32 mq msgq_count
  used ← get32 mq msgq_used
  if sle32 count used then block fuel (add32 mq msgq_send) flags else do
    first ← get32 mq msgq_first
    let last = rem (add32 first used) count
    set32 mq (add32 msgq_msgs (mul32 last 4)) msg
    set32 mq msgq_used (add32 used 1)
    wakeup_thread fuel (add32 mq msgq_recv)
    pure true

-- `port_OSReceiveMessage`: the message, if there is one.
unfoldable pub receive_message : (fuel mq flags : ℕ) → M (Option ℕ)
unfolding block
receive_message fuel mq flags = do
  used ← get32 mq msgq_used
  if used == 0 then (do done ← block fuel (add32 mq msgq_recv) flags; pure none) else do
    first ← get32 mq msgq_first
    count ← get32 mq msgq_count
    msg ← get32 mq (add32 msgq_msgs (mul32 first 4))
    set32 mq msgq_first (rem (add32 first 1) count)
    set32 mq msgq_used (sub32 used 1)
    wakeup_thread fuel (add32 mq msgq_send)
    pure (some msg)

-- `port_OSJamMessage`
unfoldable pub jam_message : (fuel mq msg flags : ℕ) → M Bool
unfolding block
jam_message fuel mq msg flags = do
  count ← get32 mq msgq_count
  used ← get32 mq msgq_used
  if sle32 count used then block fuel (add32 mq msgq_send) flags else do
    old ← get32 mq msgq_first
    let first = rem (sub32 (add32 old count) 1) count
    set32 mq (add32 msgq_msgs (mul32 first 4)) msg
    set32 mq msgq_first first
    set32 mq msgq_used (add32 used 1)
    wakeup_thread fuel (add32 mq msgq_recv)
    pure true
