-- ===== src/OsThread/Priority.antt =====
-- Effective priorities, the run queue, and priority inheritance of sdk_port/os/osthread.c.
use gamecube_port.Base.{ℕ, zero, suc, some, if◌then◌else◌, ◌==◌, bit_or, bit_and}
use gamecube_port.Base.Int.{slt32, sle32}
use gamecube_port.GcMem.{add32}
use gamecube_port.OsThread.{
  M, pure, diverge, skip, gets, ◌>>=◌, ◌>>◌, get32, set32, get16, set_hint, queue_head, thread_base,
  thread_state, thread_suspend, thread_priority, thread_queue, thread_mutex, link_next, link_prev,
  mutex_head, mutex_queue, mutex_thread, mutex_link_next, state_ready, state_running, state_waiting,
  runqueue_addr, priority_bit, not32,
}
use gamecube_port.OsThread.Queue.{add_tail, add_prio, remove_item}

-- The loop of `port_OSGetEffectivePriority`, over the mutexes that the thread owns.
unfoldable pub best_waiter : (fuel mutex priority : ℕ) → M ℕ
best_waiter zero mutex priority = diverge
best_waiter (suc fuel) mutex priority = if mutex == 0 then pure priority else do
  blocked ← get32 (add32 mutex mutex_queue) queue_head
  bp ← if blocked == 0 then pure priority else get32 blocked thread_priority
  next ← get32 mutex mutex_link_next
  best_waiter fuel next (if slt32 bp priority then bp else priority)

-- `port_OSGetEffectivePriority`
unfoldable pub get_effective_priority : (fuel thread : ℕ) → M ℕ
unfolding best_waiter
get_effective_priority fuel thread = do
  base ← get32 thread thread_base
  mutex ← get32 thread mutex_head
  best_waiter fuel mutex base

abbrev pub set_bit : ℕ → M (Unit {0})
set_bit prio s =
    some (tt, record s { run_queue_bits = bit_or s.run_queue_bits (priority_bit prio) })

abbrev pub clear_bit : ℕ → M (Unit {0})
clear_bit prio s =
    some (tt, record s { run_queue_bits = bit_and s.run_queue_bits (not32 (priority_bit prio)) })

-- `port_SetRun`
unfoldable pub set_run : ℕ → M (Unit {0})
set_run thread = do
  prio ← get32 thread thread_priority
  rq ← gets (λ s. runqueue_addr s prio)
  set32 thread thread_queue rq
  add_tail rq thread link_next link_prev
  set_bit prio
  set_hint

-- `port_UnsetRun`
unfoldable pub unset_run : ℕ → M (Unit {0})
unset_run thread = do
  queue ← get32 thread thread_queue
  prio ← get32 thread thread_priority
  remove_item queue thread link_next link_prev
  head ← get32 queue queue_head
  if head == 0 then clear_bit prio else skip
  set32 thread thread_queue 0

-- `port_SetEffectivePriority`: the next thread to adjust, or null.
unfoldable pub set_effective_priority : (fuel thread priority : ℕ) → M ℕ
set_effective_priority fuel thread priority = do
  state ← get16 thread thread_state
  if state == state_ready
      then ready
      else if state == state_waiting
      then waiting
      else if state == state_running
      then running
      else pure 0
  where
    ready : M ℕ
    ready = do unset_run thread; set32 thread thread_priority priority; set_run thread; pure 0

    waiting : M ℕ
    waiting = do
      q ← get32 thread thread_queue
      remove_item q thread link_next link_prev
      set32 thread thread_priority priority
      add_prio fuel q thread link_next link_prev
      m ← get32 thread thread_mutex
      if m == 0 then pure 0 else get32 m mutex_thread

    running : M ℕ
    running = do set_hint; set32 thread thread_priority priority; pure 0

-- The loop of `port_UpdatePriority`; `rounds` bounds the chain of owners, `fuel` each walk.
unfoldable pub update_priority : (rounds fuel thread : ℕ) → M (Unit {0})
update_priority zero fuel t = diverge
update_priority (suc rounds) fuel t = do
  suspend ← get32 t thread_suspend
  if slt32 0 suspend then skip else do
    priority ← get_effective_priority fuel t
    old ← get32 t thread_priority
    if old == priority then skip else do
      t' ← set_effective_priority fuel t priority
      if t' == 0 then skip else update_priority rounds fuel t'

-- The loop of `port_OSPromoteThread`
unfoldable pub promote_thread : (rounds fuel thread priority : ℕ) → M (Unit {0})
promote_thread zero fuel t priority = diverge
promote_thread (suc rounds) fuel t priority = do
  suspend ← get32 t thread_suspend
  if slt32 0 suspend then skip else do
    old ← get32 t thread_priority
    if sle32 old priority then skip else do
      t' ← set_effective_priority fuel t priority
      if t' == 0 then skip else promote_thread rounds fuel t' priority
