-- ===== src/Dvd/Paths/Tree.antt =====
-- The file system table as a tree: entries are numbered as they are met on the way down, a directory
-- before what it holds.
use mathlib.Core.Path.{subst}
use gamecube_port.Base.{
  ℕ, suc, ◌+◌, ◌≤◌, ◌<◌, ◌≡◌, ◌≢◌, refl, arith, Bool, true, false, Option, none, some, List, [],
  ◌∷◌, ◌++◌, ◌==◌, if◌then◌else◌, All, if_cases,
}
use gamecube_port.GcMem.{Mem, load_u8, add32}
use gamecube_port.Dvd.{Dvd, fst_entry_is_dir, fst_string_off, fst_parent_dir, fst_next_dir}
use gamecube_port.Dvd.Paths.{tolower, slash, is_same_mem}

-- The entries of a directory, in order.
pub data Forest : Type 0 where
  nil : Forest
  file : (name : List ℕ) → (rest : Forest) → Forest
  dir : (name : List ℕ) → (inner : Forest) → (rest : Forest) → Forest

abbrev pub count : Forest → ℕ
count nil = 0
count (file n rest) = suc (count rest)
count (dir n inner rest) = suc (count inner + count rest)

-- Equality of names up to case.
abbrev pub same_name : List ℕ → List ℕ → Bool
same_name [] [] = true
same_name [] (y ∷ ys) = false
same_name (x ∷ xs) [] = false
same_name (x ∷ xs) (y ∷ ys) = if tolower x == tolower y then same_name xs ys else false

-- The first entry of the name in a directory whose entries are numbered from `i`, with what it holds;
-- only directories count if one is wanted.
unfoldable pub find_in : Forest → (i : ℕ) → List ℕ → (is_dir : Bool) → Option (ℕ × Forest)
find_in nil i c is_dir = none
find_in (file n rest) i c is_dir =
    let later = find_in rest (i + 1) c is_dir in
    if is_dir then later else if same_name c n then some (i, nil) else later
find_in (dir n inner rest) i c is_dir =
    let later = find_in rest (i + 1 + count inner) c is_dir in
    if same_name c n then some (i, inner) else later

-- A character of a name or of a path component.
abbrev pub IsPlain : ℕ → Type 0
IsPlain c = (0 < c) × (c ≢ slash)

-- A string in emulated RAM that spells a name.
abbrev pub Spells : Mem → ℕ → List ℕ → Type 0
Spells m addr [] = load_u8 m addr ≡ 0
Spells m addr (c ∷ n) = (load_u8 m addr ≡ c) × IsPlain c × Spells m (add32 addr 1) n

abbrev pub Named : Dvd → ℕ → List ℕ → Type 0
Named d i n = Spells d.mem (add32 d.fst_string_start (fst_string_off d i)) n

-- The entries from `i` up to `end` of the table are those of a forest in the directory `parent`.
abbrev pub Laid : Dvd → (parent i : ℕ) → Forest → (end : ℕ) → Type 0
Laid d parent i nil end = i ≡ end
Laid d parent i (file n rest) end =
    (fst_entry_is_dir d i ≡ false) × Named d i n × Laid d parent (i + 1) rest end
Laid d parent i (dir n inner rest) end =
    (fst_entry_is_dir d i ≡ true)
    × Named d i n
    × (fst_parent_dir d i ≡ parent)
    × Laid d i (i + 1) inner (fst_next_dir d i)
    × Laid d parent (fst_next_dir d i) rest end

pub Laid-count :
    (d : Dvd) (parent i : ℕ) (t : Forest) (end : ℕ) → Laid d parent i t end → end ≡ i + count t
Laid-count d parent i nil end h = omega (arith, h)
Laid-count d parent i (file n rest) end h = omega (arith, Laid-count d parent (i + 1) rest end h.2)
Laid-count d parent i (dir n inner rest) end h = omega (
  arith,
  Laid-count d i (i + 1) inner (fst_next_dir d i) h.3,
  Laid-count d parent (fst_next_dir d i) rest end h.4,
)

-- What follows a component in a path.
pub data IsRest : List ℕ → Type 0 where
  at_end : IsRest []
  at_slash : {path : List ℕ} → IsRest (slash ∷ path)

tolower-slash : (c : ℕ) → c ≢ slash → tolower c ≢ tolower slash
tolower-slash c h = ground arith

-- A component ends where the string in RAM does, or before.
ends :
    (m : Mem) (rest : List ℕ) (addr : ℕ)
    → IsRest rest
    → load_u8 m addr ≡ 0
    → is_same_mem m rest addr ≡ true
unfolding is_same_mem
ends m [] addr at_end h = rw h refl
ends m (c ∷ path) addr at_slash h = rw h refl

goes_on :
    (m : Mem) (y : ℕ) (rest : List ℕ) (addr : ℕ)
    → IsRest rest
    → load_u8 m addr ≡ y
    → IsPlain y
    → is_same_mem m rest addr ≡ false
unfolding is_same_mem
goes_on m y [] addr at_end h p = let e : (y == 0) ≡ false = ground arith in rw (h, e) refl
goes_on m y (c ∷ path) addr at_slash h p =
    let e : (y == 0) ≡ false = ground arith in
    let e1 : (tolower slash == tolower y) ≡ false = grind (arith, tolower-slash y p.1) in
    rw (h, e, e1) refl

-- The comparison with a string in RAM is that of names, up to the end of the component.
pub is_same_mem-same_name :
    (m : Mem) (c n rest : List ℕ) (addr : ℕ)
    → All IsPlain c
    → IsRest rest
    → Spells m addr n
    → is_same_mem m (c ++ rest) addr ≡ same_name c n
unfolding is_same_mem
is_same_mem-same_name m [] [] rest addr p r h = ends m rest addr r h
is_same_mem-same_name m [] (y ∷ ys) rest addr p r h = goes_on m y rest addr r h.0 h.1
is_same_mem-same_name m (x ∷ xs) [] rest addr p r h = grind (arith, h, p.0)
is_same_mem-same_name m (x ∷ xs) (y ∷ ys) rest addr p r h =
    let e : (y == 0) ≡ false = grind (arith, h.1) in
    let k = is_same_mem-same_name m xs ys rest (add32 addr 1) p.1 r h.2 in rw (h.0, e, k) refl

-- A directory that a search finds is laid out in turn, and its parent is the directory searched.
abbrev pub Found : Dvd → (parent end : ℕ) → Bool → Option (ℕ × Forest) → Type 0
Found d parent end is_dir none = Unit {0}
Found d parent end is_dir (some (i, inner)) =
    is_dir ≡ true
    → (fst_parent_dir d i ≡ parent)
      × Laid d i (i + 1) inner (fst_next_dir d i)
      × (fst_next_dir d i ≤ end)

pub find_in-Found :
    (d : Dvd) (parent i : ℕ) (t : Forest) (end : ℕ) (c : List ℕ) (is_dir : Bool)
    → Laid d parent i t end
    → Found d parent end is_dir (find_in t i c is_dir)
unfolding find_in
find_in-Found d parent i nil end c is_dir h = tt
find_in-Found d parent i (file n rest) end c true h =
    find_in-Found d parent (i + 1) rest end c true h.2
find_in-Found d parent i (file n rest) end c false h =
    if_cases (Found d parent end false) (same_name c n) (some (i, nil))
      (find_in rest (i + 1) c false) (λ e. λ f. absurd (ground (arith, f)))
      (λ e. find_in-Found d parent (i + 1) rest end c false h.2)
find_in-Found d parent i (dir n inner rest) end c is_dir h =
    let k = Laid-count d i (i + 1) inner (fst_next_dir d i) h.3 in
    let k1 = Laid-count d parent (fst_next_dir d i) rest end h.4 in
    if_cases (Found d parent end is_dir) (same_name c n) (some (i, inner))
      (find_in rest (i + 1 + count inner) c is_dir) (λ e. λ f. (h.2, h.3, omega (arith, k1)))
      (λ e.
        subst (λ j. Found d parent end is_dir (find_in rest j c is_dir)) k
          (find_in-Found d parent (fst_next_dir d i) rest end c is_dir h.4))
