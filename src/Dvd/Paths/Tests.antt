-- ===== src/Dvd/Paths/Tests.antt =====
-- A table of a directory "a" with the file "b.c" in it.
use gamecube_port.Base.{ℕ, ◌≡◌, refl, List, [], ◌∷◌, arith, true, some, get_or}
use gamecube_port.GcMem.{Mem, load_u8, load_u32be, gc_mem_ptr}
use gamecube_port.Dvd.{Dvd, DvdCounters}
use gamecube_port.Dvd.Paths.{convert_path, component_end}
use gamecube_port.Dvd.Paths.Tree.{Forest, nil, file, dir}
use gamecube_port.Dvd.Paths.Component.{join}
use gamecube_port.Dvd.Paths.Walk.{Stands, resolve}
use gamecube_port.Dvd.Paths.Convert.{convert_path-resolve}

abbrev table : List ℕ
table =
    1 ∷ 0 ∷ 0 ∷ 5 ∷ 0 ∷ 0 ∷ 0 ∷ 0 ∷ 0 ∷ 0 ∷ 0 ∷ 3 ∷ 1 ∷ 0 ∷ 0 ∷ 0 ∷ 0 ∷ 0 ∷ 0 ∷ 0 ∷ 0 ∷ 0 ∷ 0 ∷ 3
    ∷ 0 ∷ 0 ∷ 0 ∷ 2 ∷ 0 ∷ 0 ∷ 1 ∷ 0 ∷ 0 ∷ 0 ∷ 0 ∷ 9 ∷ 0x61 ∷ 0 ∷ 0x62 ∷ 0x2E ∷ 0x63 ∷ 0 ∷ []

abbrev mem : Mem
mem = record { base = 0x80000000; size = 0x100; present = true; byte = λ i. get_or table i 0 }

abbrev none_yet : DvdCounters
none_yet = record {
  initialized = 0;
  drive_status = 0;
  open_calls = 0;
  read_calls = 0;
  close_calls = 0;
  last_read_len = 0;
  last_read_off = 0;
  async_busy_seen = 0;
}

abbrev pub disc : Dvd
disc = record {
  mem = mem;
  counters = none_yet;
  test_files = [];
  test_paths = [];
  fst_start = 0x80000000;
  fst_string_start = 0x80000024;
  fst_max_entry_num = 3;
  current_directory = 0;
  long_file_name_flag = 0;
}

abbrev pub name_a : List ℕ
name_a = 0x61 ∷ []

abbrev name_b : List ℕ
name_b = 0x62 ∷ 0x2E ∷ 0x63 ∷ []

abbrev tree : Forest
tree = dir name_a (file name_b nil) nil

at_root : Stands disc (0, tree) []
unfolding load_u8 load_u32be gc_mem_ptr
at_root = (
  (
    (
      refl,
      (refl, (omega arith, omega arith), refl),
      refl,
      (
        refl,
        (
          refl,
          (omega arith, omega arith),
          (refl, (omega arith, omega arith), (refl, (omega arith, omega arith), refl)),
        ),
        refl,
      ),
      refl,
    ),
    omega arith,
  ),
  refl,
)

-- "A/../a/B.c"
abbrev parts : List (List ℕ)
parts = (0x2E ∷ 0x2E ∷ []) ∷ name_a ∷ (0x42 ∷ 0x2E ∷ 0x63 ∷ []) ∷ []

convert_path-resolve_example : convert_path 3 disc (join ((0x41 ∷ []) ∷ parts)) ≡ some (2, disc)
unfolding resolve component_end
convert_path-resolve_example =
    convert_path-resolve disc tree tree [] (omega arith) (omega arith) at_root at_root (0x41 ∷ [])
      parts
      (
        ((omega arith, omega arith), tt),
        (
          ((omega arith, omega arith), ((omega arith, omega arith), tt)),
          (
            ((omega arith, omega arith), tt),
            (
              (
                (omega arith, omega arith),
                ((omega arith, omega arith), ((omega arith, omega arith), tt)),
              ),
              tt,
            ),
          ),
        ),
      )
