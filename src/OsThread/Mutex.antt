-- ===== src/OsThread/Mutex.antt =====
-- The mutexes and condition variables of sdk_port/os/osthread.c.
use gamecube_port.Base.{
  ℕ, zero, suc, ◌-◌, ◌^◌, true, false, if◌then◌else◌, ◌==◌, ltb, ◌&&◌, not, Bool,
}
use gamecube_port.Base.Int.{slt32}
use gamecube_port.GcMem.{add32, sub32}
use gamecube_port.OsThread.{
  M, pure, diverge, skip, gets, ◌>>=◌, ◌>>◌, get32, set32, get16, q_init, queue_head, thread_state,
  thread_priority, thread_base, thread_val, thread_mutex, mutex_queue, mutex_thread, mutex_count,
  state_running,
}
use gamecube_port.OsThread.Queue.{mutex_push_tail, mutex_pop_item}
use gamecube_port.OsThread.Priority.{get_effective_priority, promote_thread}
use gamecube_port.OsThread.Scheduler.{
  sleep_thread, wakeup_thread, disable_scheduler, enable_scheduler,
}

-- `port_OSInitMutex`
unfoldable pub init_mutex : ℕ → M (Unit {0})
init_mutex mutex = do
  q_init (add32 mutex mutex_queue)
  set32 mutex mutex_thread 0
  set32 mutex mutex_count 0

-- A recursive lock.
abbrev pub count_up : ℕ → M (Unit {0})
count_up mutex = do count ← get32 mutex mutex_count; set32 mutex mutex_count (add32 count 1)

-- `port_OSTryLockMutex`
unfoldable pub try_lock_mutex : ℕ → M Bool
try_lock_mutex mutex = do
  ct ← gets (λ s. s.current_thread)
  owner ← get32 mutex mutex_thread
  if owner == 0
      then (do
        set32 mutex mutex_thread ct
        count ← get32 mutex mutex_count
        set32 mutex mutex_count (add32 count 1)
        mutex_push_tail ct mutex
        pure true)
      else if owner == ct
      then (do count_up mutex; pure true)
      else pure false

-- `port_OSLockMutex`, one iteration of the retail loop: a thread that does not get the mutex
-- promotes its owner and sleeps.
unfoldable pub lock_mutex : (fuel mutex : ℕ) → M (Unit {0})
lock_mutex fuel mutex = do
  ct ← gets (λ s. s.current_thread)
  owner ← get32 mutex mutex_thread
  if owner == 0
      then (do
        set32 mutex mutex_thread ct
        count ← get32 mutex mutex_count
        set32 mutex mutex_count (add32 count 1)
        mutex_push_tail ct mutex)
      else if owner == ct
      then count_up mutex
      else (do
        set32 ct thread_mutex mutex
        mine ← get32 ct thread_priority
        promote_thread fuel fuel owner mine
        sleep_thread fuel (add32 mutex mutex_queue))

-- The end of an inherited priority, when a mutex is let go.
drop_priority : (fuel thread : ℕ) → M (Unit {0})
drop_priority fuel ct = do
  priority ← get32 ct thread_priority
  base ← get32 ct thread_base
  if slt32 priority base
      then (do p ← get_effective_priority fuel ct; set32 ct thread_priority p)
      else skip

-- `port_OSUnlockMutex`
unfoldable pub unlock_mutex : (fuel mutex : ℕ) → M (Unit {0})
unfolding drop_priority
unlock_mutex fuel mutex = do
  ct ← gets (λ s. s.current_thread)
  owner ← get32 mutex mutex_thread
  if not (owner == ct) then skip else do
    old ← get32 mutex mutex_count
    let count = sub32 old 1
    set32 mutex mutex_count count
    if not (count == 0) then skip else do
      mutex_pop_item ct mutex
      set32 mutex mutex_thread 0
      drop_priority fuel ct
      wakeup_thread fuel (add32 mutex mutex_queue)

-- `port_OSInitCond`
unfoldable pub init_cond : ℕ → M (Unit {0})
init_cond cond = q_init (add32 cond queue_head)

-- `port_OSWaitCond`: the count is saved in the thread, for `process_pending_locks`.
unfoldable pub wait_cond : (fuel cond mutex : ℕ) → M (Unit {0})
unfolding drop_priority
wait_cond fuel cond mutex = do
  ct ← gets (λ s. s.current_thread)
  owner ← get32 mutex mutex_thread
  if not (owner == ct) then skip else do
    count ← get32 mutex mutex_count
    set32 mutex mutex_count 0
    mutex_pop_item ct mutex
    set32 mutex mutex_thread 0
    drop_priority fuel ct
    off ← disable_scheduler
    wakeup_thread fuel (add32 mutex mutex_queue)
    on ← enable_scheduler
    sleep_thread fuel (add32 cond queue_head)
    set32 ct thread_mutex mutex
    set32 ct thread_val count

-- `port_OSSignalCond`
unfoldable pub signal_cond : (fuel cond : ℕ) → M (Unit {0})
signal_cond fuel cond = wakeup_thread fuel (add32 cond queue_head)

-- `port_ProcessPendingLocks`; `rounds` bounds its loop.
unfoldable pub process_pending_locks : (rounds fuel : ℕ) → M (Unit {0})
process_pending_locks zero fuel = diverge
process_pending_locks (suc rounds) fuel = do
  ct ← gets (λ s. s.current_thread)
  if ct == 0 then skip else do
    m ← get32 ct thread_mutex
    if m == 0 then skip else do
      state ← get16 ct thread_state
      if not (state == state_running) then skip else do
        saved ← get32 ct thread_val
        set32 ct thread_mutex 0
        lock_mutex fuel m
        owner ← get32 m mutex_thread
        count ← get32 m mutex_count
        if ltb 0 saved && owner == ct && count == 1
            then (do set32 m mutex_count saved; set32 ct thread_val (2 ^ 32 - 1))
            else skip
        process_pending_locks rounds fuel
