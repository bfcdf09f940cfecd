-- ===== src/OsThread/Message/Tests.antt =====
-- A message queue of two slots on concrete memory.
use gamecube_port.Base.{ℕ, ◌≡◌, refl, List, [], ◌∷◌, arith, true, false, some, none}
use gamecube_port.GcMem.{Mem, load_u32be, put_u32be, set_field, gc_mem_ptr}
use gamecube_port.OsThread.{Os, msgq_count, msgq_used, msgq_msgs}
use gamecube_port.OsThread.Message.Header.{IsRing}
use gamecube_port.OsThread.Message.Runs.{
  Op, send, jam, receive, run, deque_run, deque_run_refines, taken, received,
}

abbrev mq : ℕ
mq = 0x1100

abbrev blank : Mem
blank = record { base = 0x1000; size = 0x400; present = true; byte = λ _. 0 }

-- the memory of a queue of two slots, with no thread waiting
abbrev os : Mem → Os
os m = record {
  mem = m;
  current_thread = 0;
  run_queue_bits = 0;
  run_queue_hint = 0;
  reschedule = 0;
  gc_base = 0x1000;
}

abbrev none_in : Mem
none_in = set_field blank mq msgq_count 2

-- the first slot holds 7
abbrev one_in : Mem
one_in = set_field (set_field none_in mq msgq_used 1) mq msgq_msgs 7

empty : IsRing 2 (os none_in) mq []
unfolding load_u32be put_u32be gc_mem_ptr
empty = record {
  mapped = (refl, omega arith, omega arith, omega arith);
  count_is = refl;
  count_max = omega arith;
  first_in = omega arith;
  used_is = refl;
  fits = omega arith;
  slots = tt;
  no_sender = refl;
  no_receiver = refl;
  no_hint = refl;
}

one : IsRing 2 (os one_in) mq (7 ∷ [])
unfolding load_u32be put_u32be gc_mem_ptr
one = record {
  mapped = (refl, omega arith, omega arith, omega arith);
  count_is = refl;
  count_max = omega arith;
  first_in = omega arith;
  used_is = refl;
  fits = omega arith;
  slots = (refl, tt);
  no_sender = refl;
  no_receiver = refl;
  no_hint = refl;
}

abbrev script : List Op
script = receive ∷ send 5 ∷ jam 6 ∷ send 9 ∷ receive ∷ receive ∷ []

deque_run-script :
    deque_run 2 [] script
    ≡ received none
      ∷ taken true
      ∷ taken true
      ∷ taken false
      ∷ received (some 6)
      ∷ received (some 5)
      ∷ []
unfolding deque_run
deque_run-script = refl

deque_run_refines_example :
    (s' : Os) × (run 1 mq script (os none_in) ≡ some (deque_run 2 [] script, s'))
deque_run_refines_example =
    deque_run_refines 0 2 script (os none_in) mq [] empty
      (tt, (omega arith, (omega arith, (omega arith, (tt, (tt, tt))))))
