-- ===== src/Dvd.antt =====
-- sdk_port/dvd/DVD.c: the state of the drive, the table of files that tests inject, and the file
-- system table in emulated RAM, whose entries are 12 bytes each.
pub mod Files
pub mod Paths
pub mod Names
use gamecube_port.Base.{
  ℕ, zero, suc, ◌*◌, ◌^◌, ◌/◌, Bool, Option, List, [], ◌∷◌, not, ◌==◌, bit_and,
}
use gamecube_port.GcMem.{Mem, load_u32be, add32, mul32}
use gamecube_port.SdkState.{state_store, state_load_or}

-- The state page.
abbrev pub off_initialized : ℕ
off_initialized = 0x300

abbrev pub off_drive_status : ℕ
off_drive_status = 0x304

abbrev pub off_open_calls : ℕ
off_open_calls = 0x308

abbrev pub off_read_calls : ℕ
off_read_calls = 0x30C

abbrev pub off_close_calls : ℕ
off_close_calls = 0x310

abbrev pub off_last_read_len : ℕ
off_last_read_len = 0x314

abbrev pub off_last_read_off : ℕ
off_last_read_off = 0x318

-- The size of the two tables that tests fill.
abbrev pub max_test_files : ℕ
max_test_files = 512

-- The host counters `gc_dvd_*`
pub record DvdCounters : Type 0 where
  pub initialized : ℕ
  pub drive_status : ℕ
  pub open_calls : ℕ
  pub read_calls : ℕ
  pub close_calls : ℕ
  pub last_read_len : ℕ
  pub last_read_off : ℕ
  pub async_busy_seen : ℕ

-- The state of DVD.c and emulated RAM. `test_files` has the bytes of each file, or nothing where the
-- pointer is null; `test_paths` has the first `g_dvd_test_path_count` paths.
pub record Dvd : Type 0 where
  pub mem : Mem
  pub counters : DvdCounters
  pub test_files : List (Option (List ℕ))
  pub test_paths : List (Option (List ℕ))
  pub fst_start : ℕ
  pub fst_string_start : ℕ
  pub fst_max_entry_num : ℕ
  pub current_directory : ℕ
  pub long_file_name_flag : ℕ

-- `DVDFileInfo` with its command block, whose state is a bit pattern.
pub record DvdFile : Type 0 where
  pub state : ℕ
  pub start_addr : ℕ
  pub length : ℕ
  pub entrynum : ℕ

-- `DVDInit`
unfoldable pub dvd_init : Dvd → Dvd
dvd_init d = record d {
  mem = state_store (state_store d.mem off_initialized 1) off_drive_status 0;
  counters = record d.counters { initialized = 1; drive_status = 0 };
}

-- `DVDGetDriveStatus`
unfoldable pub get_drive_status : Dvd → ℕ × Dvd
unfolding state_load_or
get_drive_status d =
    let status = state_load_or d.mem off_drive_status (d.counters.drive_status) in
    (status, record d { counters = record d.counters { drive_status = status } })

-- `fst_field` of the table at `start`
abbrev pub fst_field : Dvd → (entry off : ℕ) → ℕ
fst_field d entry off = load_u32be d.mem (add32 (add32 d.fst_start (mul32 entry 12)) off)

-- The highest byte of the first word tells a directory.
abbrev pub fst_entry_is_dir : Dvd → ℕ → Bool
fst_entry_is_dir d entry = not (bit_and (fst_field d entry 0) 0xff000000 == 0)

abbrev pub fst_string_off : Dvd → ℕ → ℕ
fst_string_off d entry = bit_and (fst_field d entry 0) 0x00ffffff

abbrev pub fst_parent_dir : Dvd → ℕ → ℕ
fst_parent_dir d entry = fst_field d entry 4

abbrev pub fst_next_dir : Dvd → ℕ → ℕ
fst_next_dir d entry = fst_field d entry 8

abbrev pub fst_file_pos : Dvd → ℕ → ℕ
fst_file_pos d entry = fst_field d entry 4

abbrev pub fst_file_len : Dvd → ℕ → ℕ
fst_file_len d entry = fst_field d entry 8

-- `__DVDFSInit`; the first entry of a table has the number of entries.
unfoldable pub fs_init : Dvd → Dvd
fs_init d =
    let start = load_u32be d.mem 0x80000030 in
    let count = load_u32be d.mem (add32 start 8) in
    elim (start == 0) [
      | Bool.true ↦ record d {
        fst_start = start;
        fst_string_start = 0;
        fst_max_entry_num = 0;
        current_directory = 0;
      }
      | Bool.false ↦ record d {
        fst_start = start;
        fst_string_start = add32 start (mul32 count 12);
        fst_max_entry_num = count;
        current_directory = 0;
      }
    ]
