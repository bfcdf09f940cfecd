-- ===== src/Dvd/Files.antt =====
-- sdk_port/dvd/DVD.c: opening, reading and closing files, and cancelling a command.
pub mod Stored
mod Tests
use gamecube_port.Base.{
  ℕ, zero, suc, ◌+◌, ◌-◌, ◌^◌, Bool, true, false, not, ◌&&◌, ◌||◌, Option, none, some, List, [],
  ◌∷◌, ltb, leb, ◌==◌, if◌then◌else◌, get_or, set, length,
}
use gamecube_port.Base.Int.{slt32}
use gamecube_port.GcMem.{Mem, add32}
use gamecube_port.SdkState.{state_store, state_load_or}
use gamecube_port.Dvd.{
  Dvd, DvdFile, DvdCounters, fst_entry_is_dir, fst_file_pos, fst_file_len, max_test_files,
  off_open_calls, off_read_calls, off_close_calls, off_last_read_len, off_last_read_off,
}
use gamecube_port.Dvd.Paths.{convert_path, drop}

abbrev pub minus_one : ℕ
minus_one = 2 ^ 32 - 1

abbrev pub state_canceled : ℕ
state_canceled = 10

-- `gc_dvd_test_reset_files`
unfoldable pub reset_files : Dvd → Dvd
reset_files d = record d { test_files = clear d.test_files }
  where
    clear : List (Option (List ℕ)) → List (Option (List ℕ))
    clear [] = []
    clear (f ∷ fs) = none ∷ clear fs

-- `gc_dvd_test_set_file`. Null data are no bytes; `has_memory` is whether the host has room for a copy.
unfoldable pub set_file : Bool → ℕ → List ℕ → Dvd → Dvd
set_file has_memory entrynum content d =
    let file = if length content == 0 then none else if has_memory then some content else none in
    if slt32 entrynum 0
    then d
    else if leb max_test_files entrynum
    then d
    else record d { test_files = set d.test_files entrynum file }

-- `DVDGetCommandBlockStatus`
unfoldable pub get_command_block_status : Option DvdFile → ℕ
get_command_block_status none = 0
get_command_block_status (some file) = file.state

-- `DVDFastOpen`: the file information that a successful call writes.
unfoldable pub fast_open : Dvd → ℕ → Option DvdFile
fast_open d entrynum =
    let opened : DvdFile = record {
      state = 0;
      entrynum = entrynum;
      start_addr = fst_file_pos d entrynum;
      length = fst_file_len d entrynum;
    } in
    let of_table =
      if leb d.fst_max_entry_num entrynum
      then none
      else if fst_entry_is_dir d entrynum
      then none
      else some opened in
    let of_test : Option DvdFile = elim (get_or d.test_files entrynum none) [
      | none ↦ none
      | some content ↦ some (record {
        state = 0;
        entrynum = entrynum;
        start_addr = entrynum;
        length = length content;
      })
    ] in
    if slt32 entrynum 0
    then none
    else if leb max_test_files entrynum
        && (d.fst_max_entry_num == 0 || leb d.fst_max_entry_num entrynum)
    then none
    else if d.fst_max_entry_num == 0
    then of_test
    else of_table

-- `DVDOpen` into file information that is not null
unfoldable pub open_path : (fuel : ℕ) → Dvd → List ℕ → Option (Option DvdFile × Dvd)
unfolding convert_path fast_open
open_path fuel d path = elim (convert_path fuel d path) [
  | none ↦ none
  | some (entry, d1) ↦
      let calls = add32 (state_load_or d1.mem off_open_calls (d1.counters.open_calls)) 1 in
      let d2 = record d1 {
        mem = state_store d1.mem off_open_calls calls;
        counters = record d1.counters { open_calls = calls };
      } in
      some (fast_open d2 entry, d2)
]

-- The counters that a read sets.
unfoldable pub count_read : Dvd → (len offset : ℕ) → Dvd
unfolding state_load_or
count_read d len offset =
    let calls = add32 (state_load_or d.mem off_read_calls (d.counters.read_calls)) 1 in
    let m1 = state_store d.mem off_read_calls calls in
    let m2 = state_store m1 off_last_read_len len in
    record d {
      mem = state_store m2 off_last_read_off offset;
      counters = record d.counters {
        read_calls = calls;
        last_read_len = len;
        last_read_off = offset;
      };
    }

abbrev pub take : {A : Type 0} → ℕ → List A → List A
take zero xs = []
take (suc n) [] = []
take (suc n) (x ∷ xs) = x ∷ take n xs

-- The part of a file that a read copies, or nothing where it fails.
unfoldable pub read_bytes : List ℕ → (len offset : ℕ) → Option (List ℕ)
read_bytes content len offset =
    let n = if ltb (length content) (add32 offset len) then length content - offset else len in
    if ltb (length content) offset then none else some (take n (drop offset content))

-- `DVDRead` from file information into a buffer, neither of them null: the bytes that it copies to
-- the buffer, whose number it returns, or nothing where it returns -1.
unfoldable pub read : Dvd → (entrynum len offset : ℕ) → Option (List ℕ) × Dvd
unfolding count_read read_bytes
read d entrynum len offset =
    let copied : Option (List ℕ) = elim (get_or d.test_files entrynum none) [
      | none ↦ none
      | some content ↦ if slt32 offset 0 || slt32 len 0 then none else read_bytes content len offset
    ] in
    (
      if slt32 entrynum 0 then none else if leb max_test_files entrynum then none else copied,
      count_read d len offset,
    )

-- The value that `DVDRead` returns.
abbrev pub read_result : Option (List ℕ) → ℕ
read_result none = minus_one
read_result (some bytes) = length bytes

-- `DVDReadAsync`: whether it succeeds, the bytes, the value that the callback gets, and the file.
unfoldable pub read_async :
    Dvd → DvdFile → (len offset : ℕ) → Bool × Option (List ℕ) × ℕ × DvdFile × Dvd
unfolding read
read_async d file len offset =
    let busy = record d { counters = record d.counters { async_busy_seen = 1 } } in
    let (bytes, d') = read busy file.entrynum len offset in
    let failed = slt32 (read_result bytes) 0 in
    (
      not failed,
      bytes,
      if failed then minus_one else read_result bytes,
      record file { state = 0 },
      d',
    )

-- `DVDReadPrio`
unfoldable pub read_prio : Dvd → (entrynum len offset : ℕ) → ℕ × Option (List ℕ) × Dvd
unfolding read
read_prio d entrynum len offset =
    let (bytes, d') = read d entrynum len offset in
    (if slt32 (read_result bytes) 0 then minus_one else 0, bytes, d')

-- `DVDClose`
unfoldable pub close : Dvd → Dvd
unfolding state_load_or
close d =
    let calls = add32 (state_load_or d.mem off_close_calls (d.counters.close_calls)) 1 in
    record d {
      mem = state_store d.mem off_close_calls calls;
      counters = record d.counters { close_calls = calls };
    }

-- `DVDCancel`: the value returned, and the state of the block.
unfoldable pub cancel : Option ℕ → ℕ × Option ℕ
cancel none = (minus_one, none)
cancel (some state) =
    if state == 0 || state == minus_one || state == state_canceled
    then (0, some state)
    else (0, some state_canceled)
