-- ===== src/DvdQueue/Tests.antt =====
-- The waiting queues on concrete memory.
use mathlib.Core.Path.{subst}
use gamecube_port.Base.{ℕ, ◌<◌, ◌≡◌, refl, [], ◌∷◌, arith, true, true}
use gamecube_port.GcMem.{Mem, set_field, load_u32be, put_u32be, gc_mem_ptr}
use gamecube_port.DvdQueue.{
  queue_addr, push_waiting_queue, dequeue_waiting_queue, pop_waiting_queue,
}
use gamecube_port.DvdQueue.Ring.{IsRing, push-append}
use gamecube_port.DvdQueue.Dequeue.{dequeue-remove}
use gamecube_port.DvdQueue.Priority.{pop_waiting_queue-first}

abbrev blank : Mem
blank = record { base = 0x1000; size = 0x100; present = true; byte = λ _. 0 }

abbrev base : ℕ
base = 0x1000

-- two queues that have been cleared
abbrev cleared : Mem
cleared =
    set_field
      (set_field (set_field (set_field blank 0x1000 0 0x1000) 0x1000 4 0x1000) 0x1008 0 0x1008)
      0x1008 4 0x1008

first_empty : IsRing cleared (queue_addr base 0) []
unfolding load_u32be put_u32be gc_mem_ptr
first_empty = record {
  links = (refl, refl, tt);
  nodes = ((omega arith, (refl, omega arith, omega arith, omega arith)), tt);
  distinct = (tt, tt);
}

second_empty : IsRing cleared (queue_addr base 1) []
unfolding load_u32be put_u32be gc_mem_ptr
second_empty = record {
  links = (refl, refl, tt);
  nodes = ((omega arith, (refl, omega arith, omega arith, omega arith)), tt);
  distinct = (tt, tt);
}

push-append_example :
    IsRing (push_waiting_queue base 1 0x1040 cleared) (queue_addr base 1) (0x1040 ∷ [])
push-append_example =
    push-append base 1 0x1040 cleared [] second_empty
      (omega arith, (refl, omega arith, omega arith, omega arith)) (omega arith, tt)

-- the second queue holds a block, the first none
abbrev pushed : Mem
pushed =
    set_field
      (set_field
        (set_field
          (set_field (set_field (set_field blank 0x1000 0 0x1000) 0x1000 4 0x1000) 0x1008 0 0x1040)
          0x1008 4 0x1040)
        0x1040 0 0x1008)
      0x1040 4 0x1008

pushed_first : IsRing pushed (queue_addr base 0) []
unfolding load_u32be put_u32be gc_mem_ptr
pushed_first = record {
  links = (refl, refl, tt);
  nodes = ((omega arith, (refl, omega arith, omega arith, omega arith)), tt);
  distinct = (tt, tt);
}

pushed_second : IsRing pushed (queue_addr base 1) (0x1040 ∷ [])
unfolding load_u32be put_u32be gc_mem_ptr
pushed_second = record {
  links = (refl, refl, (refl, refl, tt));
  nodes = (
    (omega arith, (refl, omega arith, omega arith, omega arith)),
    ((omega arith, (refl, omega arith, omega arith, omega arith)), tt),
  );
  distinct = ((omega arith, tt), (tt, tt));
}

below_one : (j : ℕ) → j < 1 → IsRing pushed (queue_addr base j) []
below_one j l =
    let zero_is : 0 ≡ j = omega (arith, l) in
    subst (λ i. IsRing pushed (queue_addr base i) []) zero_is pushed_first

pop_waiting_queue-first_example :
    ((pop_waiting_queue base pushed).0 ≡ 0x1040)
    × IsRing ((pop_waiting_queue base pushed).1) (queue_addr base 1) []
pop_waiting_queue-first_example =
    pop_waiting_queue-first base 1 0x1040 pushed [] (omega arith) below_one pushed_second

dequeue-remove_example :
    ((dequeue_waiting_queue 0x1040 pushed).0 ≡ true)
    × IsRing ((dequeue_waiting_queue 0x1040 pushed).1) (queue_addr base 1) []
dequeue-remove_example = dequeue-remove pushed (queue_addr base 1) 0x1040 [] [] pushed_second
