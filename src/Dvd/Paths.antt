-- ===== src/Dvd/Paths.antt =====
-- sdk_port/dvd/DVD.c: `DVDConvertPathToEntrynum` and `DVDChangeDir`. A C string is the list of its
-- characters before the terminator, and a pointer into it the rest of the list.
pub mod Tree
pub mod Search
pub mod Component
pub mod Walk
pub mod Convert
pub mod Tests
use gamecube_port.Base.{
  ℕ, zero, suc, ◌+◌, ◌-◌, ◌^◌, Bool, true, false, not, ◌&&◌, ◌||◌, Option, none, some, List, [],
  ◌∷◌, ltb, leb, ◌==◌, if◌then◌else◌, get_or, head_or, length,
}
use gamecube_port.Base.Int.{slt32}
use gamecube_port.GcMem.{Mem, load_u8, gc_mem_ptr, add32}
use gamecube_port.Dvd.{Dvd, fst_entry_is_dir, fst_string_off, fst_parent_dir, fst_next_dir, fs_init}

abbrev pub slash : ℕ
slash = 0x2F

abbrev pub dot : ℕ
dot = 0x2E

abbrev pub space : ℕ
space = 0x20

abbrev pub not_found : ℕ
not_found = 2 ^ 32 - 1

-- `tolower` of the C library, in its default locale
abbrev pub tolower : ℕ → ℕ
tolower c = if leb 0x41 c && leb c 0x5A then c + 0x20 else c

abbrev pub drop {ℓ} : {A : Type ℓ} → ℕ → List A → List A
drop zero xs = xs
drop (suc n) [] = []
drop (suc n) (x ∷ xs) = drop n xs

-- `isSameMem`. `dvd_load_u8` gives -1 where nothing is mapped, which ends a string in RAM as 0 does,
-- and so does `load_u8`. A string in RAM that goes on where the path ends differs from it there.
unfoldable pub is_same_mem : Mem → List ℕ → ℕ → Bool
unfolding load_u8 gc_mem_ptr
is_same_mem m [] string_addr = load_u8 m string_addr == 0
is_same_mem m (c ∷ path) string_addr =
    let ch = load_u8 m string_addr in
    let rest = is_same_mem m path (add32 string_addr 1) in
    if ch == 0 then c == slash else if tolower c == tolower ch then rest else false

-- What the loop over a path component leaves: the index of its end, whether it is illegal, and the
-- index behind its dot.
abbrev pub scan_end : ℕ → Option ℕ → Bool → ℕ × Bool
scan_end n none illegal = (n, illegal)
scan_end n (some start) illegal = (n, illegal || ltb 3 (n - start))

abbrev pub is_some : Option ℕ → Bool
is_some none = false
is_some (some start) = true

unfoldable pub scan_name : List ℕ → ℕ → Option ℕ → Bool → ℕ × Bool
scan_name [] n ext illegal = scan_end n ext illegal
scan_name (c ∷ path) n ext illegal =
    let after_dot = scan_name path (n + 1) (some (n + 1)) illegal in
    let after = scan_name path (n + 1) ext (illegal || c == space) in
    if c == slash
    then scan_end n ext illegal
    else if c == dot
    then (if ltb 8 n || is_some ext then (n, true) else after_dot)
    else after

-- The same loop for long file names, which only looks for the end.
unfoldable pub name_length : List ℕ → ℕ
name_length [] = 0
name_length (c ∷ path) = let rest = suc (name_length path) in if c == slash then 0 else rest

unfoldable pub component_end : Dvd → List ℕ → ℕ × Bool
unfolding scan_name name_length
component_end d path =
    if d.long_file_name_flag == 0 then scan_name path 0 none false else (name_length path, false)

-- The loop over the entries of a directory, which ends at `end`: the entry found, or nothing.
unfoldable pub search_dir :
    (fuel : ℕ) → Dvd → List ℕ → (is_dir : Bool) → (i end : ℕ) → Option (Option ℕ)
unfolding is_same_mem
search_dir zero d path is_dir i end = none
search_dir (suc fuel) d path is_dir i end =
    let next = if fst_entry_is_dir d i then fst_next_dir d i else add32 i 1 in
    let rest = search_dir fuel d path is_dir next end in
    if not (ltb i end)
    then some none
    else if not (fst_entry_is_dir d i) && is_dir
    then rest
    else if is_same_mem d.mem path (add32 d.fst_string_start (fst_string_off d i))
    then some (some i)
    else rest

-- What one turn of the walk does: it returns, or it goes on from a directory and the rest of the path.
pub data Turn : Type 0 where
  done : ℕ → Turn
  go_on : (dir : ℕ) → (path : List ℕ) → Turn

-- The components "." and "..", if the path starts with one.
unfoldable pub dots : Dvd → ℕ → List ℕ → Option Turn
dots d dir path =
    if get_or path 0 0 == dot
    then (if get_or path 1 0 == dot
        then (if get_or path 2 0 == slash
            then some (go_on (fst_parent_dir d dir) (drop 3 path))
            else if get_or path 2 0 == 0
            then some (done (fst_parent_dir d dir))
            else none)
        else if get_or path 1 0 == slash
        then some (go_on dir (drop 2 path))
        else if get_or path 1 0 == 0
        then some (done dir)
        else none)
    else none

-- What follows the search of a directory.
unfoldable pub next_hier : Bool → List ℕ → ℕ → Option ℕ → Turn
next_hier is_dir path n none = done not_found
next_hier is_dir path n (some i) = if is_dir then go_on i (drop (n + 1) path) else done i

-- Any other component, which ends at the index `n`.
unfoldable pub enter : (fuel : ℕ) → Dvd → ℕ → List ℕ → ℕ × Bool → Option Turn
unfolding search_dir next_hier
enter fuel d dir path (n, illegal) =
    let is_dir = not (get_or path n 0 == 0) in
    let found = search_dir fuel d path is_dir (add32 dir 1) (fst_next_dir d dir) in
    let answer : Option Turn = elim found [
      | none ↦ none
      | some o ↦ some (next_hier is_dir path n o)
    ] in
    if illegal then some (done not_found) else answer

unfoldable pub component : (fuel : ℕ) → Dvd → ℕ → List ℕ → Option Turn
unfolding component_end enter
component fuel d dir path = enter fuel d dir path (component_end d path)

abbrev pub or_else : Option Turn → Option Turn → Option Turn
or_else none u = u
or_else (some t) u = some t

unfoldable pub turn : (fuel : ℕ) → Dvd → ℕ → List ℕ → Option Turn
unfolding dots component
turn fuel d dir [] = some (done dir)
turn fuel d dir (c ∷ path) =
    if c == slash
    then some (go_on 0 path)
    else or_else (dots d dir (c ∷ path)) (component fuel d dir (c ∷ path))

-- The loop over the components of a path. Every turn that goes on leaves a shorter path.
unfoldable pub walk_path : (turns fuel : ℕ) → Dvd → ℕ → List ℕ → Option ℕ
unfolding turn
walk_path zero fuel d dir path = none
walk_path (suc turns) fuel d dir path = elim (turn fuel d dir path) [
  | none ↦ none
  | some (done i) ↦ some i
  | some (go_on dir' path') ↦ walk_path turns fuel d dir' path'
]

-- Whether two C strings are equal.
unfoldable pub strcmp : List ℕ → List ℕ → Bool
strcmp [] [] = true
strcmp [] (y ∷ ys) = false
strcmp (x ∷ xs) [] = false
strcmp (x ∷ xs) (y ∷ ys) = if x == y then strcmp xs ys else false

-- The table of paths of the tests.
unfoldable pub find_path : ℕ → List (Option (List ℕ)) → List ℕ → ℕ
unfolding strcmp
find_path i [] path = not_found
find_path i (none ∷ ps) path = find_path (i + 1) ps path
find_path i (some p ∷ ps) path =
    let rest = find_path (i + 1) ps path in if strcmp p path then i else rest

-- `gc_dvd_test_set_paths` of the first 512 paths, and `gc_dvd_test_reset_paths`
unfoldable pub take_paths : ℕ → List (Option (List ℕ)) → List (Option (List ℕ))
take_paths zero ps = []
take_paths (suc n) [] = []
take_paths (suc n) (p ∷ ps) = p ∷ take_paths n ps

unfoldable pub set_paths : List (Option (List ℕ)) → Dvd → Dvd
unfolding take_paths
set_paths ps d = record d { test_paths = take_paths 512 ps }

-- The table is looked up when there is none yet.
unfoldable pub with_fst : Dvd → Dvd
unfolding fs_init
with_fst d = if d.fst_max_entry_num == 0 then fs_init d else d

-- The entry of a path, in the table or, without one, in the paths of the tests.
unfoldable pub look_up : (fuel : ℕ) → Dvd → List ℕ → Option ℕ
unfolding walk_path find_path
look_up fuel d path =
    if d.fst_max_entry_num == 0
    then some (find_path 0 d.test_paths path)
    else walk_path (suc (length path)) fuel d d.current_directory path

abbrev pub found_at : Dvd → Option ℕ → Option (ℕ × Dvd)
found_at d none = none
found_at d (some i) = some (i, d)

-- `DVDConvertPathToEntrynum` of a path that is not null
unfoldable pub convert_path : (fuel : ℕ) → Dvd → List ℕ → Option (ℕ × Dvd)
unfolding with_fst look_up
convert_path fuel d path = found_at (with_fst d) (look_up fuel (with_fst d) path)

-- `DVDChangeDir`
unfoldable pub change_dir : (fuel : ℕ) → Dvd → List ℕ → Option (Bool × Dvd)
unfolding convert_path with_fst
change_dir fuel d path = elim (convert_path fuel (with_fst d) path) [
  | none ↦ none
  | some (entry, d') ↦ some (
      if slt32 entry 0
      then (false, d')
      else if not (fst_entry_is_dir d' entry)
      then (false, d')
      else (true, record d' { current_directory = entry }))
]
