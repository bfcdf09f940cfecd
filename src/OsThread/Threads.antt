-- ===== src/OsThread/Threads.antt =====
-- The thread operations of sdk_port/os/osthread.c: creation, suspension, exit and joining.
use gamecube_port.Base.{
  ℕ, zero, suc, ◌+◌, ◌-◌, ◌%◌, ◌^◌, true, false, some, Option, none, if◌then◌else◌, ◌==◌, ltb, ◌||◌,
  not, Bool,
}
use gamecube_port.Base.Int.{slt32}
use gamecube_port.GcMem.{Mem, gc_mem_ptr, add32, sub32}
use gamecube_port.OsThread.{
  M, pure, skip, gets, ◌>>=◌, ◌>>◌, get32, set32, get16, set16, set_hint, q_init, thread_id,
  thread_state, thread_attr, thread_suspend, thread_priority, thread_base, thread_val, thread_queue,
  link_next, link_prev, join_head, join_tail, thread_mutex, mutex_head, mutex_tail, active_next,
  active_prev, mutex_thread, state_ready, state_running, state_waiting, state_moribund,
  runqueue_addr, activeq_addr, thread_addr, waitq_addr, max_threads, max_wait_queues, total_size,
}
use gamecube_port.OsThread.Queue.{add_tail, add_prio, remove_item}
use gamecube_port.OsThread.Priority.{get_effective_priority, set_run, unset_run, update_priority}
use gamecube_port.OsThread.Scheduler.{os_reschedule, select_thread, wakeup_thread, unlock_all_mutex}

-- `memset(gc_mem_ptr(addr, len), 0, len)`
unfoldable pub zero_bytes : Mem → ℕ → ℕ → Mem
zero_bytes m addr len = elim (gc_mem_ptr m addr len) [
  | none ↦ m
  | some o ↦ record m { byte = λ j. if ltb j o || not (ltb j (o + len)) then m.byte j else 0 }
]

-- for (i = from; i < from + n; i++) body(i)
for_range : (n from : ℕ) → (ℕ → M (Unit {0})) → M (Unit {0})
for_range zero i body = skip
for_range (suc n) i body = do body i; for_range n (i + 1) body

-- The first lines of `port_OSThreadInit`, before the default thread.
init_queues : ℕ → M (Unit {0})
unfolding for_range zero_bytes
init_queues gc_base = do
  λ s. some (
    tt,
    record s {
      gc_base = gc_base;
      current_thread = 0;
      run_queue_bits = 0;
      run_queue_hint = 0;
      reschedule = 0;
      mem = zero_bytes s.mem gc_base total_size;
    },
  )
  for_range 32 0 λ prio. do q ← gets (λ s. runqueue_addr s prio); q_init q
  active ← gets activeq_addr
  q_init active
  for_range max_wait_queues 0 λ i. do q ← gets (λ s. waitq_addr s i); q_init q
  for_range max_threads 0 λ i. do t ← gets (λ s. thread_addr s i); set32 t thread_id i

-- `port_OSThreadInit`
unfoldable pub thread_init : ℕ → M (Unit {0})
unfolding init_queues
thread_init gc_base = do
  init_queues gc_base
  def ← gets (λ s. thread_addr s 0)
  set16 def thread_state state_running
  set16 def thread_attr 1
  set32 def thread_priority 16
  set32 def thread_base 16
  set32 def thread_suspend 0
  set32 def thread_val (2 ^ 32 - 1)
  set32 def thread_queue 0
  set32 def thread_mutex 0
  (λ s. some (tt, record s { current_thread = def }))
  active ← gets activeq_addr
  add_tail active def active_next active_prev

-- `port_OSCreateThread`; `priority` is a bit pattern.
unfoldable pub create_thread : (slot priority attr : ℕ) → M ℕ
create_thread slot priority attr = if slt32 priority 0 || slt32 31 priority then pure 0 else do
  t ← gets (λ s. thread_addr s slot)
  set16 t thread_state state_ready
  set16 t thread_attr (attr % 2)
  set32 t thread_base priority
  set32 t thread_priority priority
  set32 t thread_suspend 1
  set32 t thread_val (2 ^ 32 - 1)
  set32 t thread_queue 0
  set32 t link_next 0
  set32 t link_prev 0
  set32 t thread_mutex 0
  set32 t mutex_head 0
  set32 t mutex_tail 0
  set32 t join_head 0
  set32 t join_tail 0
  active ← gets activeq_addr
  add_tail active t active_next active_prev
  pure 1

-- Priority inheritance of a waiting thread: its mutex's owner is adjusted.
unfoldable pub update_owner : (fuel thread : ℕ) → M (Unit {0})
update_owner fuel thread = do
  m ← get32 thread thread_mutex
  if m == 0 then skip else (do owner ← get32 m mutex_thread; update_priority fuel fuel owner)

-- `port_OSResumeThread`: the count before.
unfoldable pub resume_thread : (fuel thread : ℕ) → M ℕ
unfolding update_owner
resume_thread fuel thread = do
  count ← get32 thread thread_suspend
  let rest = sub32 count 1
  set32 thread thread_suspend rest
  if slt32 rest 0
      then set32 thread thread_suspend 0
      else if rest == 0
      then (do wake; os_reschedule)
      else skip
  pure count
  where
    ready : M (Unit {0})
    ready = do
      prio ← get_effective_priority fuel thread
      set32 thread thread_priority prio
      set_run thread

    waiting : M (Unit {0})
    waiting = do
      q ← get32 thread thread_queue
      remove_item q thread link_next link_prev
      prio ← get_effective_priority fuel thread
      set32 thread thread_priority prio
      add_prio fuel q thread link_next link_prev
      update_owner fuel thread

    wake : M (Unit {0})
    wake = do
      state ← get16 thread thread_state
      if state == state_ready then ready else if state == state_waiting then waiting else skip

-- `port_OSSuspendThread`: the count before.
unfoldable pub suspend_thread : (fuel thread : ℕ) → M ℕ
unfolding update_owner
suspend_thread fuel thread = do
  count ← get32 thread thread_suspend
  set32 thread thread_suspend (add32 count 1)
  if count == 0 then (do stop; os_reschedule) else skip
  pure count
  where
    waiting : M (Unit {0})
    waiting = do
      q ← get32 thread thread_queue
      remove_item q thread link_next link_prev
      set32 thread thread_priority 32
      add_tail q thread link_next link_prev
      update_owner fuel thread

    stop : M (Unit {0})
    stop = do
      state ← get16 thread thread_state
      if state == state_running
          then (do set_hint; set16 thread thread_state state_ready)
          else if state == state_ready
          then unset_run thread
          else if state == state_waiting
          then waiting
          else skip

-- What `port_OSCancelThread` and `port_OSExitThread` share: leave the active queue, or stay as a
-- corpse for a joiner.
leave : (thread : ℕ) → M Bool
leave thread = do
  attr ← get16 thread thread_attr
  active ← gets activeq_addr
  if attr % 2 == 1
      then (do
        remove_item active thread active_next active_prev
        set16 thread thread_state 0
        pure true)
      else (do set16 thread thread_state state_moribund; pure false)

-- `port_OSCancelThread`
unfoldable pub cancel_thread : (fuel thread : ℕ) → M (Unit {0})
unfolding update_owner leave
cancel_thread fuel thread = do
  state ← get16 thread thread_state
  suspend ← get32 thread thread_suspend
  if state == state_ready
      then (do (if slt32 0 suspend then skip else unset_run thread); finish)
      else if state == state_running
      then (do set_hint; finish)
      else if state == state_waiting
      then (do waiting suspend; finish)
      else skip
  where
    waiting : ℕ → M (Unit {0})
    waiting suspend = do
      q ← get32 thread thread_queue
      remove_item q thread link_next link_prev
      set32 thread thread_queue 0
      if slt32 0 suspend then skip else update_owner fuel thread

    finish : M (Unit {0})
    finish = do
      detached ← leave thread
      unlock_all_mutex fuel fuel thread
      wakeup_thread fuel (add32 thread join_head)
      os_reschedule

-- `port_OSExitThread`
unfoldable pub exit_thread : (fuel val : ℕ) → M (Unit {0})
unfolding leave
exit_thread fuel val = do
  ct ← gets (λ s. s.current_thread)
  detached ← leave ct
  if detached then skip else set32 ct thread_val val
  unlock_all_mutex fuel fuel ct
  wakeup_thread fuel (add32 ct join_head)
  set_hint
  n ← select_thread false
  skip

-- `port_OSJoinThread`, the path that does not block: the value of a thread that has ended.
unfoldable pub join_thread : (thread : ℕ) → M (Option ℕ)
join_thread thread = do
  attr ← get16 thread thread_attr
  state ← get16 thread thread_state
  if attr % 2 == 1 then pure none else if not (state == state_moribund) then pure none else do
    val ← get32 thread thread_val
    active ← gets activeq_addr
    remove_item active thread active_next active_prev
    set16 thread thread_state 0
    pure (some val)
