-- ===== src/OsAlloc/Check.antt =====
-- `OSCheckHeap` of sdk_port/os/OSAlloc.c.
use gamecube_port.Base.{
  ℕ, zero, suc, ◌+◌, ◌-◌, ◌%◌, Bool, not, ◌&&◌, ◌||◌, Option, none, some, ltb, leb, ◌==◌,
  if◌then◌else◌,
}
use gamecube_port.Base.Int.{slt32}
use gamecube_port.GcMem.{Mem, field, add32}
use gamecube_port.OsAlloc.{cell_prev, cell_next, cell_size, hd_size, hd_free, hd_allocated, header}
use gamecube_port.OsAlloc.Heaps.{alloc, AllocState, current, is_heap, heap_desc}

-- The tests that `OSCheckHeap` makes of every cell.
unfoldable pub is_sound_cell : AllocState → (cell : ℕ) → Mem → Bool
is_sound_cell c cell m =
    let next = field m cell cell_next in
    let size = field m cell cell_size in
    not (ltb cell c.arena_start)
    && ltb cell c.arena_end
    && (cell % 32 == 0)
    && ((next == 0) || (field m next cell_prev == cell))
    && not (slt32 size 0x40)
    && (size % 32 == 0)

-- The walk along the allocated list; the total, which stays in the range of `hd->size`, or no total.
unfoldable pub check_allocated :
    (fuel : ℕ) → AllocState → (limit cell total : ℕ) → Mem → Option (Option ℕ)
unfolding is_sound_cell
check_allocated zero c limit cell total m = none
check_allocated (suc fuel) c limit cell total m =
    let total' = total + field m cell cell_size in
    let rest = check_allocated fuel c limit (field m cell cell_next) total' m in
    if cell == 0
    then some (some total)
    else if not (is_sound_cell c cell m) || ltb limit total'
    then some none
    else rest

-- The walk along the free list: the total and the free bytes.
unfoldable pub check_free :
    (fuel : ℕ) → AllocState → (limit cell total bytes : ℕ) → Mem → Option (Option (ℕ × ℕ))
unfolding is_sound_cell
check_free zero c limit cell total bytes m = none
check_free (suc fuel) c limit cell total bytes m =
    let next = field m cell cell_next in
    let size = field m cell cell_size in
    let rest = check_free fuel c limit next (total + size) (bytes + size - header) m in
    if cell == 0
    then some (some (total, bytes))
    else if not (is_sound_cell c cell m)
        || (not (next == 0) && leb next (add32 cell size))
        || ltb limit (total + size)
    then some none
    else rest

-- A list starts with a cell that has none before it.
abbrev pub is_head : (cell : ℕ) → Mem → Bool
is_head cell m = (cell == 0) || (field m cell cell_prev == 0)

-- `OSCheckHeap`: the free bytes, or `none` for -1.
unfoldable pub check_heap : (fuel heap : ℕ) → AllocState → Mem → Option (Option ℕ)
unfolding current is_heap check_allocated check_free
check_heap fuel heap st m =
    let c = current st m in
    let hd = heap_desc c.heap_array heap in
    let limit = field m hd hd_size in
    if not (is_heap c heap)
    then some none
    else if slt32 limit 0
    then some none
    else if not (is_head (field m hd hd_allocated) m)
    then some none
    else elim (check_allocated fuel c limit (field m hd hd_allocated) 0 m) [
      | none ↦ none
      | some none ↦ some none
      | some (some total) ↦
          if not (is_head (field m hd hd_free) m)
          then some none
          else elim (check_free fuel c limit (field m hd hd_free) total 0 m) [
            | none ↦ none
            | some none ↦ some none
            | some (some r) ↦ some (if r.0 == limit then some (r.1) else none)
          ]
    ]

-- `gc_os_alloc_fixed_calls`, `gc_os_dump_heap_calls`, `gc_os_alloc_fixed_last_size`
pub record AllocCounts : Type 0 where
  pub fixed_calls : ℕ
  pub dump_calls : ℕ
  pub fixed_last_size : ℕ

-- `OSAllocFixed`
unfoldable pub alloc_fixed :
    (fuel size : ℕ) → AllocState → AllocCounts → Mem → AllocCounts × Option (ℕ × Mem)
unfolding alloc
alloc_fixed fuel size st n m =
    (record n { fixed_calls = add32 n.fixed_calls 1; fixed_last_size = size }, alloc fuel size st m)

-- `OSDumpHeap`
unfoldable pub dump_heap : AllocCounts → AllocCounts
dump_heap n = record n { dump_calls = add32 n.dump_calls 1 }
