-- ===== src/OsAlloc/Tests.antt =====
-- A heap with two free blocks, of which the second is large enough for the request.
use gamecube_port.Base.{
  Option, ℕ, none, ◌≡◌, refl, [], ◌∷◌, arith, true, false, some, List, inl, ◌+◌, ◌≤◌,
}
use gamecube_port.Base.Int.{slt32}
use gamecube_port.GcMem.{Mem, Mapped, set_field, field, load_u32be, put_u32be, gc_mem_ptr}
use gamecube_port.SdkState.{state_base, state_load_or, is_state_mapped}
use gamecube_port.OsAlloc.{
  dl_add_front, cell_prev, cell_next, cell_size, hd_size, hd_free, dl_extract,
}
use gamecube_port.OsAlloc.Heaps.{
  find_fit, take_cell, take_part, take_whole, AllocState, current, is_heap, heap_desc,
  alloc_from_heap, free_to_heap, destroy_heap, round_up, round_down,
}
use gamecube_port.OsAlloc.Lists.{IsCells, dl_extract-remove}
use gamecube_port.OsAlloc.Blocks.{Block, IsHeap}
use gamecube_port.OsAlloc.FirstFit.{first_fit}
use gamecube_port.OsAlloc.Alloc.{Serves, alloc_from_heap-first_fit}
use gamecube_port.OsAlloc.Errors.{destroy_heap-dead}

abbrev blank : Mem
blank = record { base = 0x1000; size = 0x400; present = true; byte = λ _. 0 }

abbrev heads : Mem
heads = set_field (set_field blank 0x1000 hd_size 0x300) 0x1000 hd_free 0x1020

abbrev mem : Mem
mem =
    let m1 = set_field (set_field heads 0x1020 cell_next 0x1200) 0x1020 cell_size 0x100 in
    set_field (set_field m1 0x1200 cell_prev 0x1020) 0x1200 cell_size 0x200

abbrev state : AllocState
state = record {
  curr_heap = 0;
  heap_array = 0x1000;
  num_heaps = 1;
  arena_start = 0x1020;
  arena_end = 0x1400;
}

abbrev blocks : List Block
blocks = (0x1020, 0x100) ∷ (0x1200, 0x200) ∷ []

is_current : current state mem ≡ state
unfolding current state_load_or is_state_mapped gc_mem_ptr
is_current = refl

is_live : is_heap (current state mem) 0 ≡ true
unfolding is_heap current state_load_or is_state_mapped gc_mem_ptr
is_live = refl

desc : heap_desc (current state mem).heap_array 0 ≡ 0x1000
unfolding current state_load_or is_state_mapped gc_mem_ptr
desc = refl

cells : IsCells mem 0x1020 (0x1020 ∷ 0x1200 ∷ [])
unfolding load_u32be put_u32be gc_mem_ptr
cells = record {
  head = refl;
  links = (refl, refl, (refl, refl, tt));
  nodes = (
    (omega arith, (refl, omega arith, omega arith, omega arith)),
    ((omega arith, (refl, omega arith, omega arith, omega arith)), tt),
  );
  distinct = ((omega arith, tt), (tt, tt));
}

blocks-IsHeap : IsHeap mem 0x1000 blocks []
unfolding load_u32be put_u32be gc_mem_ptr
blocks-IsHeap = record {
  free_side = record {
    cells = cells;
    blocks = (
      (omega arith, (refl, omega arith, omega arith, omega arith), omega arith, omega arith, refl),
      (
        (
          omega arith,
          (refl, omega arith, omega arith, omega arith),
          omega arith,
          omega arith,
          refl,
        ),
        tt,
      ),
    );
    outside = (omega arith, (omega arith, tt));
    pairs = ((omega arith, tt), (tt, tt));
  };
  allocated_side = record {
    cells = record { head = refl; links = tt; nodes = tt; distinct = tt };
    blocks = tt;
    outside = tt;
    pairs = tt;
  };
  desc = (refl, omega arith, omega arith, omega arith);
  across = (tt, (tt, tt));
}

alive : slt32 (field mem (heap_desc (current state mem).heap_array 0) hd_size) 0 ≡ false
unfolding current state_load_or is_state_mapped gc_mem_ptr load_u32be put_u32be
alive = refl

at_desc : IsHeap mem (heap_desc (current state mem).heap_array 0) blocks []
unfolding current state_load_or is_state_mapped gc_mem_ptr
at_desc = blocks-IsHeap

alloc_from_heap-first_fit_example :
    Serves
      (alloc_from_heap 3 0 0x100 state mem)
      mem
      (heap_desc (current state mem).heap_array 0)
      []
      (first_fit (round_up 0x120) blocks)
alloc_from_heap-first_fit_example =
    alloc_from_heap-first_fit mem state 0 0x100 3 blocks [] at_desc is_live alive (omega arith)
      (omega arith) (omega arith)

-- The block handed out and the free blocks behind.
chosen :
    first_fit (round_up 0x120) blocks
    ≡ some ((0x1200, 0x120), (0x1020, 0x100) ∷ (0x1320, 0xE0) ∷ [])
unfolding round_up round_down
chosen = refl

dl_extract-remove_example :
    let (list', m') = dl_extract 0x1020 0x1200 mem in IsCells m' list' (0x1020 ∷ [])
dl_extract-remove_example = dl_extract-remove mem 0x1020 0x1200 (0x1020 ∷ []) [] cells

desc-Mapped : Mapped mem (heap_desc (current state mem).heap_array 0) 12
unfolding current state_load_or is_state_mapped gc_mem_ptr
desc-Mapped = (refl, omega arith, omega arith, omega arith)

desc_low : heap_desc (current state mem).heap_array 0 + 12 ≤ state_base
desc_low = omega (arith, desc)

destroy_heap-dead_example :
    let m' = destroy_heap 0 state mem in
    (alloc_from_heap 3 0 0x100 state m' ≡ some (0, m'))
    × (free_to_heap 3 0 0x1220 state m' ≡ some m')
destroy_heap-dead_example =
    destroy_heap-dead mem state 0 0x100 0x1220 3 is_live desc-Mapped (inl desc_low)

-- A request whose rounded size is negative as an `int32_t` fits every cell.
address : Option (ℕ × Mem) → ℕ
address none = 0
address (some r) = r.0

too_large : address (alloc_from_heap 3 0 0x7FFFFFE0 state mem) ≡ 0x1040
unfolding address alloc_from_heap current state_load_or is_state_mapped gc_mem_ptr load_u32be
    put_u32be is_heap round_up round_down find_fit take_cell take_part take_whole dl_add_front
too_large = refl
