-- ===== src/Dvd/Paths/Search.antt =====
-- The loop over the entries of a directory skips what its directories hold, and finds the entry that
-- the tree has.
use gamecube_port.Base.{
  ℕ, zero, suc, ◌+◌, ◌<◌, ◌^◌, ◌≡◌, refl, arith, Bool, true, false, Option, none, some, List, ◌++◌,
  ltb, if◌then◌else◌, All,
}
use gamecube_port.GcMem.{add32}
use gamecube_port.Dvd.{Dvd, fst_string_off, fst_next_dir}
use gamecube_port.Dvd.Paths.{search_dir}
use gamecube_port.Dvd.Paths.Tree.{
  Forest, nil, file, dir, count, same_name, find_in, IsPlain, Laid, Laid-count, IsRest,
  is_same_mem-same_name,
}

abbrev pub number : Option (ℕ × Forest) → Option ℕ
number none = none
number (some (i, inner)) = some i

abbrev entry_name : Dvd → ℕ → ℕ
entry_name d i = add32 d.fst_string_start (fst_string_off d i)

-- One turn at a file, and at a directory.
at_file :
    (want match : Bool) (i : ℕ) (later : Option (ℕ × Forest))
    → (if want then some (number later) else if match then some (some i) else some (number later))
      ≡ some (number (if want then later else if match then some (i, nil) else later))
at_file true match i later = refl
at_file false true i later = refl
at_file false false i later = refl

at_dir :
    (match : Bool) (i : ℕ) (inner : Forest) (later : Option (ℕ × Forest))
    → (if match then some (some i) else some (number later))
      ≡ some (number (if match then some (i, inner) else later))
at_dir true i inner later = refl
at_dir false i inner later = refl

module _ (d : Dvd) (c path : List ℕ) (plain : All IsPlain c) (r : IsRest path) (want : Bool) where
  pub search_dir-find_in :
      (fuel parent i : ℕ) (t : Forest) (end : ℕ)
      → Laid d parent i t end
      → end < 2 ^ 32
      → count t < fuel
      → search_dir fuel d (c ++ path) want i end ≡ some (number (find_in t i c want))
  unfolding search_dir find_in
  search_dir-find_in zero parent i t end h lt f = absurd (omega (arith, f))
  search_dir-find_in (suc fuel) parent i nil end h lt f =
      let e : ltb i end ≡ false = ground arith in rw e refl
  search_dir-find_in (suc fuel) parent i (file n rest) end h lt f =
      let k = Laid-count d parent (i + 1) rest end h.2 in
      let e : ltb i end ≡ true = ground arith in
      let e1 : add32 i 1 ≡ i + 1 = omega (arith, lt, k) in
      let ih = search_dir-find_in fuel parent (i + 1) rest end h.2 lt (omega (arith, f)) in
      let s = is_same_mem-same_name d.mem c n path (entry_name d i) plain r h.1 in
      rw (e, h.0, s, e1, ih) (at_file want (same_name c n) i (find_in rest (i + 1) c want))
  search_dir-find_in (suc fuel) parent i (dir n inner rest) end h lt f =
      let k = Laid-count d i (i + 1) inner (fst_next_dir d i) h.3 in
      let k1 = Laid-count d parent (fst_next_dir d i) rest end h.4 in
      let e : ltb i end ≡ true = ground arith in
      let ih =
        search_dir-find_in fuel parent (fst_next_dir d i) rest end h.4 lt (omega (arith, f)) in
      let s = is_same_mem-same_name d.mem c n path (entry_name d i) plain r h.1 in
      rw (e, h.0, s, ih, k)
        (at_dir (same_name c n) i inner (find_in rest (i + 1 + count inner) c want))
