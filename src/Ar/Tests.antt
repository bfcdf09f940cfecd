-- ===== src/Ar/Tests.antt =====
-- The ARAM allocator on concrete memory.
use gamecube_port.Base.{◌≡◌, refl, List, [], ◌∷◌, arith, true, false}
use gamecube_port.GcMem.{Mem}
use gamecube_port.Ar.{ArState, ar_init, ar_alloc}
use gamecube_port.Ar.Stack.{
  IsStack, ar_init-IsStack, ar_alloc-push, Op, alloc, free, run, stack_run, alloc_run_refines,
}

abbrev mem : Mem
mem = record { base = 0x1000; size = 0x100; present = true; byte = λ _. 0 }

abbrev off : ArState
off = record {
  stack_pointer = 0;
  free_blocks = 0;
  block_length_base = 0;
  block_length_idx = 0;
  size = 0;
  init_flag = false;
}

abbrev on : ArState
on = (ar_init off 0x1000 4 0x1000000).1

empty : IsStack 4 on mem []
empty =
    ar_init-IsStack off mem 0x1000 4 0x1000000 refl (refl, omega arith, omega arith, omega arith)
      (omega arith)

one_block : IsStack 4 ((ar_alloc on mem 96).1) ((ar_alloc on mem 96).2) (96 ∷ [])
one_block = (ar_alloc-push 4 on mem [] 96 empty (omega arith) (omega arith)).1

abbrev script : List Op
script = alloc 96 ∷ alloc 32 ∷ free ∷ alloc 64 ∷ free ∷ free ∷ []

stack_run-script : stack_run [] script ≡ 0x4000 ∷ 0x4060 ∷ 0x4060 ∷ 0x4060 ∷ 0x4060 ∷ 0x4000 ∷ []
unfolding stack_run
stack_run-script = refl

alloc_run_refines_example : run on mem script ≡ stack_run [] script
alloc_run_refines_example = alloc_run_refines 4 script on mem [] empty (omega arith)
