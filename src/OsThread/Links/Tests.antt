-- ===== src/OsThread/Links/Tests.antt =====
-- A queue of two threads in memory.
use gamecube_port.Base.{ℕ, refl, arith, [], ◌∷◌, true}
use gamecube_port.GcMem.{update, load_u32be, gc_mem_ptr}
use gamecube_port.OsThread.{Os}
use gamecube_port.OsThread.Queue.{add_tail, remove_item}
use gamecube_port.OsThread.Links.{thread_offsets, IsThreads, Leaves, remove_item-remove}
use gamecube_port.OsThread.Links.Append.{add_tail-append}

abbrev two_threads : ℕ → ℕ
two_threads =
    update
      (update
        (update (update (update (update (λ i. 0) 0x1002 0x20) 0x1006 0x20) 0x1007 0x40) 0x201E 0x20)
        0x201F 0x40)
      0x2062 0x20

abbrev pub state : Os
state = record {
  mem = record { base = 0; size = 0x10000; present = true; byte = two_threads };
  current_thread = 0;
  run_queue_bits = 0;
  run_queue_hint = 0;
  reschedule = 0;
  gc_base = 0;
}

pub queued : IsThreads 64 28 32 thread_offsets state.mem 0x1000 (0x2000 ∷ 0x2040 ∷ [])
unfolding load_u32be gc_mem_ptr
queued = record {
  mapped = (refl, omega arith, omega arith, omega arith);
  head = refl;
  tail = refl;
  links = (refl, refl, (refl, refl, tt));
  nodes = (
    (omega arith, (refl, omega arith, omega arith, omega arith)),
    ((omega arith, (refl, omega arith, omega arith, omega arith)), tt),
  );
  distinct = ((omega arith, tt), (tt, tt));
  beside = (omega arith, (omega arith, tt));
}

remove_item-remove_example :
    Leaves
      (remove_item 0x1000 0x2040 28 32 state)
      state
      tt
      (λ m. IsThreads 64 28 32 thread_offsets m 0x1000 (0x2000 ∷ []))
remove_item-remove_example =
    remove_item-remove 64 28 32 thread_offsets state 0x1000 0x2040 (0x2000 ∷ []) [] queued

add_tail-append_example :
    Leaves
      (add_tail 0x1000 0x3000 28 32 state)
      state
      tt
      (λ m. IsThreads 64 28 32 thread_offsets m 0x1000 (0x2000 ∷ 0x2040 ∷ 0x3000 ∷ []))
add_tail-append_example =
    add_tail-append 64 28 32 thread_offsets 0x1000 0x3000 state (0x2000 ∷ 0x2040 ∷ []) queued
      (omega arith, (refl, omega arith, omega arith, omega arith)) (omega arith)
      (omega arith, (omega arith, tt))
