-- ===== src/Card/Dir/Tests.antt =====
-- The directory of a card on concrete memory.
use gamecube_port.Base.{ℕ, ◌≡◌, ◌<◌, ◌↔◌, ◌⊎◌, refl, true, false, none, some, ◌==◌, if◌then◌else◌}
use gamecube_port.GcMem.{Mem, add32, load_u8, gc_mem_ptr}
use gamecube_port.Card.{ready, nofile}
use gamecube_port.Card.Dir.{
  DirControl, compare_file_name, compare_from, is_file, get_file_no, max_file, off_filename,
  filename_max,
}
use gamecube_port.Card.Dir.Names.{SameName, compare_file_name_iff}
use gamecube_port.Card.Dir.Search.{IsFirst, get_file_no-IsFirst}

-- Every name in this memory is "AAA…", of 32 characters.
abbrev mem : Mem
mem = record { base = 0x1000; size = 0x2000; present = true; byte = λ _. 65 }

abbrev name : ℕ → ℕ
name i = if i == 32 then 0 else 65

abbrev card : DirControl
card = record {
  attached = true;
  c_block = 64;
  sector_size = 8192;
  dir_addr = 0x1000;
  fat_addr = 0x3000;
  game_name = λ _. 65;
  company = λ _. 65;
  disk_id_is_none = false;
}

compare_file_name-name : compare_file_name 0x1000 name mem ≡ true
unfolding compare_file_name compare_from load_u8 gc_mem_ptr
compare_file_name-name = refl

compare_file_name_iff_example :
    (compare_file_name 0x1000 name mem ≡ true)
    ↔ SameName filename_max 0 (add32 0x1000 off_filename) name mem
compare_file_name_iff_example = compare_file_name_iff 0x1000 name mem

get_file_no-IsFirst_example :
    ((get_file_no card name mem ≡ (nofile, none))
      × ((j : ℕ) → j < max_file → is_file card name mem j ≡ false))
    ⊎ ((i : ℕ) × (get_file_no card name mem ≡ (ready, some i))
        × IsFirst card name mem 0 i
        × (i < max_file))
get_file_no-IsFirst_example = get_file_no-IsFirst card name mem refl
