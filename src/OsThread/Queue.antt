-- ===== src/OsThread/Queue.antt =====
-- The thread queues and the owned-mutex queues of sdk_port/os/osthread.c.
use gamecube_port.Base.{ℕ, zero, suc, if◌then◌else◌, ◌==◌}
use gamecube_port.Base.Int.{sle32}
use gamecube_port.OsThread.{
  M, pure, diverge, ◌>>=◌, ◌>>◌, get32, set32, queue_head, queue_tail, thread_priority, mutex_head,
  mutex_tail, mutex_link_next, mutex_link_prev,
}

-- `port_AddTail`
unfoldable pub add_tail : (queue thread next_off prev_off : ℕ) → M (Unit {0})
add_tail queue thread next_off prev_off = do
  prev ← get32 queue queue_tail
  if prev == 0 then set32 queue queue_head thread else set32 prev next_off thread
  set32 thread prev_off prev
  set32 thread next_off 0
  set32 queue queue_tail thread

-- The loop of `port_AddPrio`: the first thread from `next` on of a later priority, or null.
unfoldable pub find_prio : (fuel next prio next_off : ℕ) → M ℕ
find_prio zero next prio next_off = diverge
find_prio (suc fuel) next prio next_off = if next == 0 then pure 0 else do
  p ← get32 next thread_priority
  if sle32 p prio then (do n ← get32 next next_off; find_prio fuel n prio next_off) else pure next

-- `port_AddPrio`
unfoldable pub add_prio : (fuel queue thread next_off prev_off : ℕ) → M (Unit {0})
unfolding add_tail find_prio
add_prio fuel queue thread next_off prev_off = do
  prio ← get32 thread thread_priority
  head ← get32 queue queue_head
  next ← find_prio fuel head prio next_off
  if next == 0 then add_tail queue thread next_off prev_off else do
    set32 thread next_off next
    prev ← get32 next prev_off
    set32 next prev_off thread
    set32 thread prev_off prev
    if prev == 0 then set32 queue queue_head thread else set32 prev next_off thread

-- `port_RemoveItem`
unfoldable pub remove_item : (queue thread next_off prev_off : ℕ) → M (Unit {0})
remove_item queue thread next_off prev_off = do
  next ← get32 thread next_off
  prev ← get32 thread prev_off
  if next == 0 then set32 queue queue_tail prev else set32 next prev_off prev
  if prev == 0 then set32 queue queue_head next else set32 prev next_off next

-- `port_RemoveHead`
unfoldable pub remove_head : (queue next_off prev_off : ℕ) → M ℕ
remove_head queue next_off prev_off = do
  thread ← get32 queue queue_head
  nh ← get32 thread next_off
  if nh == 0 then set32 queue queue_tail 0 else set32 nh prev_off 0
  set32 queue queue_head nh
  pure thread

-- `port_MutexPushTail`
unfoldable pub mutex_push_tail : (thread mutex : ℕ) → M (Unit {0})
mutex_push_tail thread mutex = do
  prev ← get32 thread mutex_tail
  if prev == 0 then set32 thread mutex_head mutex else set32 prev mutex_link_next mutex
  set32 mutex mutex_link_prev prev
  set32 mutex mutex_link_next 0
  set32 thread mutex_tail mutex

-- `port_MutexPopHead`
unfoldable pub mutex_pop_head : ℕ → M ℕ
mutex_pop_head thread = do
  mutex ← get32 thread mutex_head
  next ← get32 mutex mutex_link_next
  if next == 0 then set32 thread mutex_tail 0 else set32 next mutex_link_prev 0
  set32 thread mutex_head next
  pure mutex

-- `port_MutexPopItem`
unfoldable pub mutex_pop_item : (thread mutex : ℕ) → M (Unit {0})
mutex_pop_item thread mutex = do
  next ← get32 mutex mutex_link_next
  prev ← get32 mutex mutex_link_prev
  if next == 0 then set32 thread mutex_tail prev else set32 next mutex_link_prev prev
  if prev == 0 then set32 thread mutex_head next else set32 prev mutex_link_next next
