-- ===== src/Dvd/Names.antt =====
-- sdk_port/dvd/DVD.c: `DVDGetCurrentDir`, which spells the path of an entry. The caller's buffer is
-- a host array, indexed from its start.
pub mod Copied
pub mod Spelled
mod Tests
use gamecube_port.Base.{
  ℕ, zero, suc, ◌+◌, ◌-◌, Bool, true, false, not, ◌||◌, Option, none, some, leb, ◌==◌,
  if◌then◌else◌,
}
use gamecube_port.Base.Int.{slt32}
use gamecube_port.GcMem.{Mem, load_u8, add32, update}
use gamecube_port.Dvd.{Dvd, fst_entry_is_dir, fst_string_off, fst_parent_dir}
use gamecube_port.Dvd.Paths.{with_fst, slash}

abbrev pub Buffer : Type 0
Buffer = ℕ → ℕ

-- `myStrncpyMem`: the index behind the last character written, and the buffer.
unfoldable pub copy_name : Mem → (room src_addr loc : ℕ) → Buffer → ℕ × Buffer
copy_name m zero src_addr loc path = (loc, path)
copy_name m (suc room) src_addr loc path =
    let ch = load_u8 m src_addr in
    let rest = copy_name m room (add32 src_addr 1) (loc + 1) (update path loc ch) in
    if ch == 0 then (loc, path) else rest

-- A directory's part of `entryToPathRec`, behind the path of its parent.
unfoldable pub add_entry : Dvd → (entry maxlen : ℕ) → ℕ × Buffer → ℕ × Buffer
unfolding copy_name
add_entry d entry maxlen (loc, path) =
    if loc == maxlen
    then (loc, path)
    else copy_name d.mem (maxlen - (loc + 1)) (add32 d.fst_string_start (fst_string_off d entry))
        (loc + 1) (update path loc slash)

-- `entryToPathRec`
unfoldable pub entry_to_path : (fuel : ℕ) → Dvd → (entry maxlen : ℕ) → Buffer → Option (ℕ × Buffer)
unfolding add_entry
entry_to_path zero d entry maxlen path = none
entry_to_path (suc fuel) d entry maxlen path =
    let parent = entry_to_path fuel d (fst_parent_dir d entry) maxlen path in
    let spelled : Option (ℕ × Buffer) = elim parent [
      | none ↦ none
      | some r ↦ some (add_entry d entry maxlen r)
    ] in
    if entry == 0 then some (0, path) else spelled

-- What `DVDConvertEntrynumToPath` does at the end of the path.
unfoldable pub terminate : (is_dir : Bool) → (maxlen : ℕ) → ℕ × Buffer → Bool × Buffer
terminate is_dir maxlen (loc, path) =
    if loc == maxlen
    then (false, update path (maxlen - 1) 0)
    else if not is_dir
    then (true, update path loc 0)
    else if loc == maxlen - 1
    then (false, update path loc 0)
    else (true, update (update path loc slash) (loc + 1) 0)

-- `DVDConvertEntrynumToPath` into a buffer that is not null
unfoldable pub convert_entrynum :
    (fuel : ℕ) → Dvd → (entrynum maxlen : ℕ) → Buffer → Option (Bool × Buffer)
unfolding entry_to_path terminate
convert_entrynum fuel d entrynum maxlen path =
    let spelled : Option (Bool × Buffer) = elim (entry_to_path fuel d entrynum maxlen path) [
      | none ↦ none
      | some r ↦ some (terminate (fst_entry_is_dir d entrynum) maxlen r)
    ] in
    if maxlen == 0
    then some (false, path)
    else if d.fst_max_entry_num == 0
    then some (false, path)
    else if slt32 entrynum 0 || leb d.fst_max_entry_num entrynum
    then some (false, path)
    else spelled

-- `DVDGetCurrentDir`, without the table that it may look up first
unfoldable pub get_current_dir : (fuel : ℕ) → Dvd → (maxlen : ℕ) → Buffer → Option (Bool × Buffer)
unfolding convert_entrynum with_fst
get_current_dir fuel d maxlen path =
    let d' = with_fst d in convert_entrynum fuel d' d'.current_directory maxlen path
