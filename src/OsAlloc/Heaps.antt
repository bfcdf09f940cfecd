-- ===== src/OsAlloc/Heaps.antt =====
-- The heaps of sdk_port/os/OSAlloc.c: `OSInitAlloc`, `OSCreateHeap`, allocation and release.
use gamecube_port.Base.{
  ℕ, zero, suc, ◌+◌, ◌-◌, ◌%◌, Bool, not, ◌&&◌, Option, none, some, ltb, ◌==◌, if◌then◌else◌,
}
use gamecube_port.Base.Int.{slt32, sle32}
use gamecube_port.GcMem.{Mem, field, set_field, add32, sub32, mul32}
use gamecube_port.SdkState.{state_store, state_load_or}
use gamecube_port.OsAlloc.{
  cell_prev, cell_next, cell_size, cell_hd, hd_size, hd_free, hd_allocated, heapdesc_size, header,
  minus_one, dl_add_front, dl_extract, dl_insert,
}

-- `round_down` and `round_up` at `ALIGNMENT`: clearing the low 5 bits takes the remainder off.
unfoldable pub round_down : ℕ → ℕ
round_down x = x - x % 32

unfoldable pub round_up : ℕ → ℕ
unfolding round_down
round_up x = round_down (add32 x 31)

-- `__OSCurrHeap` and the `__gc_osalloc_*` globals. The two `int32_t` are bit patterns.
pub record AllocState : Type 0 where
  pub curr_heap : ℕ
  pub heap_array : ℕ
  pub num_heaps : ℕ
  pub arena_start : ℕ
  pub arena_end : ℕ

-- The globals as the functions read them: from the state page where it is mapped.
unfoldable pub current : AllocState → Mem → AllocState
unfolding state_load_or
current st m = record {
  curr_heap = state_load_or m 0x20 st.curr_heap;
  heap_array = state_load_or m 0x24 st.heap_array;
  num_heaps = state_load_or m 0x28 st.num_heaps;
  arena_start = state_load_or m 0x2C st.arena_start;
  arena_end = state_load_or m 0x30 st.arena_end;
}

-- The number of turns of a loop below an `int32_t`.
abbrev pub turns : ℕ → ℕ
turns n = if slt32 n 0 then 0 else n

-- The loop of `OSInitAlloc` over the descriptors from `i` on.
unfoldable pub clear_heaps : (n i array : ℕ) → Mem → Mem
clear_heaps zero i array m = m
clear_heaps (suc n) i array m =
    let hd = add32 array (mul32 i heapdesc_size) in
    clear_heaps n (i + 1) array
      (set_field (set_field (set_field m hd hd_size minus_one) hd hd_free 0) hd hd_allocated 0)

-- `OSInitAlloc`
unfoldable pub init_alloc : (arena_lo arena_hi max_heaps : ℕ) → Mem → ℕ × AllocState × Mem
unfolding round_up round_down clear_heaps
init_alloc arena_lo arena_hi max_heaps m =
    let m1 = state_store (state_store m 0x24 arena_lo) 0x28 max_heaps in
    let m2 = state_store (clear_heaps (turns max_heaps) 0 arena_lo m1) 0x20 minus_one in
    let new_lo = round_up (add32 arena_lo (mul32 max_heaps heapdesc_size)) in
    let new_hi = round_down arena_hi in
    (
      new_lo,
      record {
        curr_heap = minus_one;
        heap_array = arena_lo;
        num_heaps = max_heaps;
        arena_start = new_lo;
        arena_end = new_hi;
      },
      state_store (state_store m2 0x2C new_lo) 0x30 new_hi,
    )

-- The address of a heap's descriptor.
abbrev pub heap_desc : (array heap : ℕ) → ℕ
heap_desc array heap = add32 array (mul32 heap heapdesc_size)

-- The one free cell of a new heap, and its descriptor.
unfoldable pub write_heap : (hd start size : ℕ) → Mem → Mem
write_heap hd s size m =
    let m1 = set_field m hd hd_size size in
    let m2 = set_field (set_field m1 s cell_prev 0) s cell_next 0 in
    let m3 = set_field (set_field m2 s cell_size size) s cell_hd 0 in
    set_field (set_field m3 hd hd_free s) hd hd_allocated 0

-- The loop of `OSCreateHeap` over the descriptors from `heap` on.
unfoldable pub create_from : (n heap array start size : ℕ) → Mem → ℕ × Mem
unfolding write_heap
create_from zero heap array s size m = (minus_one, m)
create_from (suc n) heap array s size m =
    let rest = create_from n (heap + 1) array s size m in
    let hd = heap_desc array heap in
    if slt32 (field m hd hd_size) 0 then (heap, write_heap hd s size m) else rest

-- `OSCreateHeap`
unfoldable pub create_heap : (start end : ℕ) → AllocState → Mem → ℕ × Mem
unfolding round_up round_down current create_from
create_heap start end st m =
    let s = round_up start in
    let c = current st m in
    create_from (turns c.num_heaps) 0 c.heap_array s (sub32 (round_down end) s) m

-- `OSSetCurrentHeap`
unfoldable pub set_current_heap : (heap : ℕ) → AllocState → Mem → ℕ × AllocState × Mem
unfolding current
set_current_heap heap st m =
    ((current st m).curr_heap, record st { curr_heap = heap }, state_store m 0x20 heap)

-- The guard of the operations on a heap.
unfoldable pub is_heap : AllocState → (heap : ℕ) → Bool
is_heap c heap = not (c.heap_array == 0) && not (slt32 heap 0) && slt32 heap c.num_heaps

-- The loop of `OSAllocFromHeap`: the first cell from `cell` on that is large enough, or null.
unfoldable pub find_fit : (fuel req cell : ℕ) → Mem → Option ℕ
find_fit zero req cell m = none
find_fit (suc fuel) req cell m =
    let rest = find_fit fuel req (field m cell cell_next) m in
    if cell == 0 then some 0 else if sle32 req (field m cell cell_size) then some cell else rest

-- `Extract from free list`, in `OSAllocFromHeap`
unfoldable pub take_whole : (hd prev next : ℕ) → Mem → Mem
take_whole hd prev next m =
    let m1 = if next == 0 then m else set_field m next cell_prev prev in
    if prev == 0 then set_field m1 hd hd_free next else set_field m1 prev cell_next next

-- `Split`, in `OSAllocFromHeap`
unfoldable pub take_part : (hd cell prev next req leftover : ℕ) → Mem → Mem
take_part hd cell prev next req leftover m =
    let new_cell = add32 cell req in
    let m1 = set_field (set_field m cell cell_size req) new_cell cell_size leftover in
    let m2 = set_field (set_field m1 new_cell cell_prev prev) new_cell cell_next next in
    let m3 = set_field m2 new_cell cell_hd 0 in
    let m4 = if next == 0 then m3 else set_field m3 next cell_prev new_cell in
    if prev == 0 then set_field m4 hd hd_free new_cell else set_field m4 prev cell_next new_cell

-- The part of `OSAllocFromHeap` behind its loop, when the cell is not null.
unfoldable pub take_cell : (hd cell req : ℕ) → Mem → Mem
unfolding take_whole take_part dl_add_front
take_cell hd cell req m =
    let prev = field m cell cell_prev in
    let next = field m cell cell_next in
    let leftover = sub32 (field m cell cell_size) req in
    let m1 =
      if ltb leftover 0x40
      then take_whole hd prev next m
      else take_part hd cell prev next req leftover m in
    let r = dl_add_front (field m1 hd hd_allocated) cell m1 in
    set_field (set_field (r.1) cell cell_hd hd) hd hd_allocated (r.0)

-- `OSAllocFromHeap`: the address of the block, or null.
unfoldable pub alloc_from_heap : (fuel heap size : ℕ) → AllocState → Mem → Option (ℕ × Mem)
unfolding current is_heap round_up find_fit take_cell
alloc_from_heap fuel heap size st m =
    let c = current st m in
    let hd = heap_desc c.heap_array heap in
    let req = round_up (add32 size header) in
    if sle32 size 0
    then some (0, m)
    else if not (is_heap c heap)
    then some (0, m)
    else if slt32 (field m hd hd_size) 0
    then some (0, m)
    else elim (find_fit fuel req (field m hd hd_free) m) [
      | none ↦ none
      | some cell ↦
          some (if cell == 0 then (0, m) else (add32 cell header, take_cell hd cell req m))
    ]

-- `OSAlloc`
unfoldable pub alloc : (fuel size : ℕ) → AllocState → Mem → Option (ℕ × Mem)
unfolding current alloc_from_heap
alloc fuel size st m = alloc_from_heap fuel (current st m).curr_heap size st m

-- What `OSFreeToHeap` does to the cell behind its guards.
unfoldable pub free_cell : (fuel hd cell : ℕ) → Mem → Option Mem
unfolding dl_extract dl_insert
free_cell fuel hd cell m =
    let e = dl_extract (field m hd hd_allocated) cell m in
    let m1 = set_field (set_field (e.1) hd hd_allocated (e.0)) cell cell_hd 0 in
    elim (dl_insert fuel (field m1 hd hd_free) cell m1) [
      | none ↦ none
      | some r ↦ some (set_field (r.1) hd hd_free (r.0))
    ]

-- `OSFreeToHeap`
unfoldable pub free_to_heap : (fuel heap ptr : ℕ) → AllocState → Mem → Option Mem
unfolding current is_heap free_cell
free_to_heap fuel heap ptr st m =
    let c = current st m in
    let hd = heap_desc c.heap_array heap in
    if ptr == 0
    then some m
    else if not (is_heap c heap)
    then some m
    else if slt32 (field m hd hd_size) 0
    then some m
    else free_cell fuel hd (sub32 ptr header) m

-- `OSFree`
unfoldable pub free : (fuel ptr : ℕ) → AllocState → Mem → Option Mem
unfolding current free_to_heap
free fuel ptr st m = free_to_heap fuel (current st m).curr_heap ptr st m

-- `OSDestroyHeap`
unfoldable pub destroy_heap : (heap : ℕ) → AllocState → Mem → Mem
unfolding current is_heap
destroy_heap heap st m =
    let c = current st m in
    if not (is_heap c heap) then m else set_field m (heap_desc c.heap_array heap) hd_size minus_one

-- `OSAddToHeap`
unfoldable pub add_to_heap : (fuel heap start end : ℕ) → AllocState → Mem → Option Mem
unfolding current is_heap round_up round_down dl_insert
add_to_heap fuel heap start end st m =
    let c = current st m in
    let hd = heap_desc c.heap_array heap in
    let s = round_up start in
    let size = sub32 (round_down end) s in
    let m1 = set_field (set_field m s cell_size size) s cell_hd 0 in
    let m2 = set_field m1 hd hd_size (add32 (field m1 hd hd_size) size) in
    if not (is_heap c heap)
    then some m
    else if slt32 (field m hd hd_size) 0
    then some m
    else elim (dl_insert fuel (field m2 hd hd_free) s m2) [
      | none ↦ none
      | some r ↦ some (set_field (r.1) hd hd_free (r.0))
    ]
