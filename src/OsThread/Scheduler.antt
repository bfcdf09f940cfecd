-- ===== src/OsThread/Scheduler.antt =====
-- The scheduler core of sdk_port/os/osthread.c: which thread runs next, sleeping and waking.
use gamecube_port.Base.{
  ℕ, zero, suc, ◌^◌, Bool, true, false, some, if◌then◌else◌, ◌==◌, not, ◌&&◌, ◌-◌,
}
use gamecube_port.Base.Int.{slt32, sle32}
use gamecube_port.GcMem.{add32}
use gamecube_port.OsThread.{
  M, pure, diverge, skip, gets, ◌>>=◌, ◌>>◌, get32, set32, get16, set16, set_hint, queue_head,
  thread_state, thread_suspend, thread_priority, thread_queue, link_next, link_prev, mutex_head,
  mutex_count, mutex_thread, mutex_queue, state_ready, state_running, state_waiting, runqueue_addr,
  cntlzw,
}
use gamecube_port.OsThread.Queue.{add_prio, remove_head, mutex_pop_head}
use gamecube_port.OsThread.Priority.{set_run, clear_bit}

abbrev pub set_current : ℕ → M (Unit {0})
set_current t s = some (tt, record s { current_thread = t })

abbrev pub clear_hint : M (Unit {0})
clear_hint s = some (tt, record s { run_queue_hint = 0 })

-- The part of `port_SelectThread` before a thread is chosen: whether to go on. The running thread
-- keeps the processor, or goes back to its run queue.
unfoldable pub put_back : Bool → M Bool
put_back yield = do
  current ← gets (λ s. s.current_thread)
  if current == 0 then pure true else do
    state ← get16 current thread_state
    if not (state == state_running) then pure true else do
      priority ← gets (λ s. cntlzw s.run_queue_bits)
      mine ← get32 current thread_priority
      if not yield && sle32 mine priority
          then pure false
          else do set16 current thread_state state_ready; set_run current; pure true

-- The rest of it: the head of the first run queue that is not empty becomes the current thread.
unfoldable pub choose_next : M ℕ
choose_next = do
  set_current 0
  bits ← gets (λ s. s.run_queue_bits)
  if bits == 0 then pure 0 else do
    clear_hint
    let priority = cntlzw bits
    queue ← gets (λ s. runqueue_addr s priority)
    next ← remove_head queue link_next link_prev
    head ← get32 queue queue_head
    if head == 0 then clear_bit priority else skip
    set32 next thread_queue 0
    set16 next thread_state state_running
    set_current next
    pure next

-- `port_SelectThread`
unfoldable pub select_thread : Bool → M ℕ
unfolding put_back choose_next
select_thread yield = do
  stopped ← gets (λ s. slt32 0 s.reschedule)
  if stopped then pure 0 else do go ← put_back yield; if go then choose_next else pure 0

-- `port_OSReschedule`
unfoldable pub os_reschedule : M (Unit {0})
os_reschedule = do
  hint ← gets (λ s. s.run_queue_hint)
  if hint == 0 then skip else (do n ← select_thread false; skip)

-- `port_OSSleepThread`
unfoldable pub sleep_thread : (fuel queue : ℕ) → M (Unit {0})
sleep_thread fuel queue = do
  ct ← gets (λ s. s.current_thread)
  set16 ct thread_state state_waiting
  set32 ct thread_queue queue
  add_prio fuel queue ct link_next link_prev
  set_hint
  os_reschedule

-- The loop of `port_OSWakeupThread`
unfoldable pub wake_all : (fuel queue : ℕ) → M (Unit {0})
wake_all zero queue = diverge
wake_all (suc fuel) queue = do
  head ← get32 queue queue_head
  if head == 0 then skip else do
    thread ← remove_head queue link_next link_prev
    set16 thread thread_state state_ready
    suspend ← get32 thread thread_suspend
    if slt32 0 suspend then skip else set_run thread
    wake_all fuel queue

-- `port_OSWakeupThread`
unfoldable pub wakeup_thread : (fuel queue : ℕ) → M (Unit {0})
wakeup_thread fuel queue = do wake_all fuel queue; os_reschedule

-- `port_OSYieldThread`
unfoldable pub yield_thread : M (Unit {0})
yield_thread = do n ← select_thread true; skip

-- `port_OSUnlockAllMutex`; `rounds` bounds the mutexes that are owned.
unfoldable pub unlock_all_mutex : (rounds fuel thread : ℕ) → M (Unit {0})
unlock_all_mutex zero fuel thread = diverge
unlock_all_mutex (suc rounds) fuel thread = do
  head ← get32 thread mutex_head
  if head == 0 then skip else do
    mutex ← mutex_pop_head thread
    set32 mutex mutex_count 0
    set32 mutex mutex_thread 0
    wakeup_thread fuel (add32 mutex mutex_queue)
    unlock_all_mutex rounds fuel thread

-- `port_OSDisableScheduler` and `port_OSEnableScheduler` return the count before the change.
unfoldable pub disable_scheduler : M ℕ
disable_scheduler s = some (s.reschedule, record s { reschedule = add32 s.reschedule 1 })

unfoldable pub enable_scheduler : M ℕ
enable_scheduler s = some (s.reschedule, record s { reschedule = add32 s.reschedule (2 ^ 32 - 1) })
