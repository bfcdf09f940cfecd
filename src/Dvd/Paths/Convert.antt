-- ===== src/Dvd/Paths/Convert.antt =====
-- `DVDConvertPathToEntrynum` of a table that is laid out as a tree.
use mathlib.Core.Path.{subst}
use gamecube_port.Base.{
  ℕ, suc, ◌≤◌, ◌<◌, ◌^◌, ◌≡◌, refl, sym, arith, false, some, List, [], ◌∷◌, ◌==◌, All, length,
  length-append, ap,
}
use gamecube_port.Dvd.{Dvd}
use gamecube_port.Dvd.Paths.{convert_path, found_at, look_up, with_fst}
use gamecube_port.Dvd.Paths.Tree.{Forest, IsPlain}
use gamecube_port.Dvd.Paths.Component.{join, rest_of, is_illegal}
use gamecube_port.Dvd.Paths.Walk.{Place, Stands, resolve, walk_path-resolve}

length-rest_of : (cs : List (List ℕ)) → length cs ≤ length (rest_of cs)
length-rest_of [] = omega arith
length-rest_of (c ∷ cs) = omega (arith, length-rest_of cs, length-append c (rest_of cs))

-- A table that is there is not looked up again.
pub with_fst_some : (d : Dvd) → 0 < d.fst_max_entry_num → with_fst d ≡ d
unfolding with_fst
with_fst_some d h = let e : (d.fst_max_entry_num == 0) ≡ false = ground arith in rw e refl

module _ (d : Dvd) (root here : Forest) (above : List Place) where
  look_up_lem :
      0 < d.fst_max_entry_num
      → d.fst_max_entry_num < 2 ^ 32
      → Stands d (0, root) []
      → Stands d (d.current_directory, here) above
      → (c : List ℕ) (cs : List (List ℕ)) → All (All IsPlain) (c ∷ cs)
      → look_up d.fst_max_entry_num d (join (c ∷ cs))
        ≡ some (resolve (is_illegal d) root (d.current_directory, here) above (c ∷ cs))
  unfolding look_up
  look_up_lem pos small at_root h c cs plain =
      let e0 : (d.fst_max_entry_num == 0) ≡ false = ground arith in
      let n : length cs < suc (length (join (c ∷ cs))) =
        omega (arith, length-rest_of cs, length-append c (rest_of cs)) in
      let w =
        walk_path-resolve d d.fst_max_entry_num small (omega arith) root at_root
          (suc (length (join (c ∷ cs)))) (d.current_directory, here) above c cs h plain.0 plain.1
          n in
      rw e0 w

  -- For a table that a tree of names lays out, a path of any components is converted, within as many
  -- turns as the table has entries, to the number that the walk of that tree gives: down to the first
  -- entry of a name up to case, up at "..", to the root at a leading slash, and to -1 if a name is
  -- missing or illegal.
  pub convert_path-resolve :
      0 < d.fst_max_entry_num
      → d.fst_max_entry_num < 2 ^ 32
      → Stands d (0, root) []
      → Stands d (d.current_directory, here) above
      → (c : List ℕ) (cs : List (List ℕ)) → All (All IsPlain) (c ∷ cs)
      → convert_path d.fst_max_entry_num d (join (c ∷ cs))
        ≡ some (resolve (is_illegal d) root (d.current_directory, here) above (c ∷ cs), d)
  unfolding convert_path
  convert_path-resolve pos small at_root h c cs plain =
      subst
        (λ d'.
          found_at d' (look_up d.fst_max_entry_num d' (join (c ∷ cs)))
          ≡ some (resolve (is_illegal d) root (d.current_directory, here) above (c ∷ cs), d))
        (sym (with_fst_some d pos)) (ap (found_at d) (look_up_lem pos small at_root h c cs plain))
