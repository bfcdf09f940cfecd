-- ===== src/OsAlloc.antt =====
-- sdk_port/os/OSAlloc.c: heaps of cells in emulated RAM, each with a list of free cells by address
-- and a list of allocated ones.
pub mod Heaps
pub mod Check
pub mod Lists
pub mod Blocks
pub mod Give
pub mod Ends
pub mod Members
pub mod Take
pub mod Whole
pub mod Split
pub mod Part
pub mod FirstFit
pub mod Alloc
pub mod Errors
mod Tests
use gamecube_port.Base.{
  ℕ, zero, suc, ◌+◌, ◌-◌, ◌*◌, ◌%◌, ◌^◌, Bool, true, false, not, ◌&&◌, ◌||◌, Option, none, some,
  ltb, leb, ◌==◌, if◌then◌else◌,
}
use gamecube_port.Base.Int.{slt32, sle32}
use gamecube_port.GcMem.{Mem, field, set_field, add32, sub32, mul32}
use gamecube_port.SdkState.{state_store, state_load_or}

-- the words of a cell's header, and of a heap's descriptor
abbrev pub cell_prev : ℕ
cell_prev = 0

abbrev pub cell_next : ℕ
cell_next = 4

abbrev pub cell_size : ℕ
cell_size = 8

abbrev pub cell_hd : ℕ
cell_hd = 12

abbrev pub hd_size : ℕ
hd_size = 0

abbrev pub hd_free : ℕ
hd_free = 4

abbrev pub hd_allocated : ℕ
hd_allocated = 8

abbrev pub heapdesc_size : ℕ
heapdesc_size = 12

abbrev pub header : ℕ
header = 0x20

-- -1 as an `int32_t`
abbrev pub minus_one : ℕ
minus_one = 0xFFFFFFFF

-- `port_DLAddFront`
unfoldable pub dl_add_front : (list cell : ℕ) → Mem → ℕ × Mem
dl_add_front list cell m =
    let m1 = set_field (set_field m cell cell_next list) cell cell_prev 0 in
    (cell, if list == 0 then m1 else set_field m1 list cell_prev cell)

-- `port_DLLookup`; `fuel` bounds the cells of the list.
unfoldable pub dl_lookup : (fuel list cell : ℕ) → Mem → Option ℕ
dl_lookup zero list cell m = none
dl_lookup (suc fuel) list cell m =
    let rest = dl_lookup fuel (field m list cell_next) cell m in
    if list == 0 then some 0 else if list == cell then some list else rest

-- `port_DLExtract`
unfoldable pub dl_extract : (list cell : ℕ) → Mem → ℕ × Mem
dl_extract list cell m =
    let next = field m cell cell_next in
    let prev = field m cell cell_prev in
    let m1 = if next == 0 then m else set_field m next cell_prev prev in
    if prev == 0 then (next, m1) else (list, set_field m1 prev cell_next next)

-- The loop of `port_DLInsert`: the neighbours between which the cell belongs.
unfoldable pub insert_position : (fuel cell prev next : ℕ) → Mem → Option (ℕ × ℕ)
insert_position zero cell prev next m = none
insert_position (suc fuel) cell prev next m =
    let rest = insert_position fuel cell next (field m next cell_next) m in
    if next == 0 then some (prev, next) else if leb cell next then some (prev, next) else rest

-- `Coalesce with next?` of `port_DLInsert`, and `Coalesce prev with cell?`: the cell `a` swallows
-- the cell `b` behind it, if it ends where `b` starts.
unfoldable pub coalesce : (a b : ℕ) → Mem → Mem
coalesce a b m =
    let size = field m a cell_size in
    let m1 = set_field m a cell_size (add32 size (field m b cell_size)) in
    let next = field m1 b cell_next in
    let m2 = set_field m1 a cell_next next in
    if add32 a size == b then (if next == 0 then m2 else set_field m2 next cell_prev a) else m

-- The part of `port_DLInsert` behind its loop.
unfoldable pub insert_between : (list cell prev next : ℕ) → Mem → ℕ × Mem
unfolding coalesce
insert_between list cell prev next m =
    let m1 = set_field (set_field m cell cell_next next) cell cell_prev prev in
    let m2 = if next == 0 then m1 else coalesce cell next (set_field m1 next cell_prev cell) in
    if prev == 0 then (cell, m2) else (list, coalesce prev cell (set_field m2 prev cell_next cell))

-- `port_DLInsert`
unfoldable pub dl_insert : (fuel list cell : ℕ) → Mem → Option (ℕ × Mem)
unfolding insert_position insert_between
dl_insert fuel list cell m = elim (insert_position fuel cell 0 list m) [
  | none ↦ none
  | some p ↦ some (insert_between list cell p.0 p.1 m)
]
