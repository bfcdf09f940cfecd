-- ===== src/Dvd/Paths/Walk.antt =====
-- The walk along a path of the file system table goes down and up the tree that the table lays out.
use gamecube_port.Base.{
  ℕ, zero, suc, ◌+◌, ◌≤◌, ◌<◌, ◌^◌, ◌≡◌, refl, arith, ◌∙◌, ap, Bool, true, false, Option, none,
  some, List, [], ◌∷◌, ◌++◌, ◌==◌, if◌then◌else◌, Bool-cases, inl, inr, All, length,
}
use gamecube_port.GcMem.{add32}
use gamecube_port.Dvd.{Dvd, fst_parent_dir, fst_next_dir}
use gamecube_port.Dvd.Paths.{
  strcmp, slash, Turn, done, go_on, not_found, component, component_end, next_hier, enter, or_else,
  turn, walk_path, dots,
}
use gamecube_port.Dvd.Paths.Tree.{Forest, find_in, IsPlain, Laid, Laid-count, Found, find_in-Found}
use gamecube_port.Dvd.Paths.Search.{number, search_dir-find_in}
use gamecube_port.Dvd.Paths.Component.{
  rest_of, rest_of-IsRest, join, is_more, then_on, one_dot, two_dots, dots_of, dots_lem, is_illegal,
  component_end-append, get_or-at_end, drop-append,
}

if_false : {A : Type 0} (b : Bool) (x y : A) → b ≡ false → (if b then x else y) ≡ y
if_false b x y e = rw e refl

-- The number of a directory and what it holds.
abbrev pub Place : Type 0
Place = ℕ × Forest

-- The parent of a place under the directories above it, the nearest first; the root is its own.
abbrev pub up : Place → List Place → Place
up here [] = here
up here (p ∷ ps) = p

abbrev pub ups : List Place → List Place
ups [] = []
ups (p ∷ ps) = ps

-- The entry that the components of a path name, from a place: an empty component at the front of
-- others leads to the root, "." and ".." stay and go up, and any other one, if it is legal, goes to
-- the first entry of its name, which has to be a directory if components follow.
unfoldable pub resolve :
    (is_illegal : List ℕ → Bool) → (root : Forest) → Place → List Place → List (List ℕ) → ℕ
unfolding find_in strcmp
resolve is_illegal root here above [] = here.0
resolve is_illegal root here above ([] ∷ []) = here.0
resolve is_illegal root here above ([] ∷ (c ∷ cs)) = resolve is_illegal root (0, root) [] (c ∷ cs)
resolve is_illegal root here above ((x ∷ c) ∷ cs) =
    if strcmp (x ∷ c) one_dot
    then resolve is_illegal root here above cs
    else if strcmp (x ∷ c) two_dots
    then resolve is_illegal root (up here above) (ups above) cs
    else if is_illegal (x ∷ c)
    then not_found
    else elim (find_in here.1 (here.0 + 1) (x ∷ c) (is_more cs)) [
      | none ↦ not_found
      | some p ↦ resolve is_illegal root p (here ∷ above) cs
    ]

-- What a turn at a name does.
abbrev follow : List (List ℕ) → Option Place → Turn
follow cs none = done not_found
follow cs (some p) = then_on cs p.0

next_hier-follow :
    (c : List ℕ) (cs : List (List ℕ)) (o : Option Place)
    → next_hier (is_more cs) (c ++ rest_of cs) (length c) (number o) ≡ follow cs o
unfolding next_hier
next_hier-follow c cs none = refl
next_hier-follow c [] (some p) = refl
next_hier-follow c (e ∷ cs) (some p) =
    let k : length c + 1 ≡ suc (length c) = omega arith in
    rw k (ap (go_on p.0) (drop-append c (join (e ∷ cs)) slash))

module _ (d : Dvd) where
  abbrev Holds : Place → Type 0
  Holds p =
      Laid d p.0 (p.0 + 1) p.1 (fst_next_dir d p.0) × (fst_next_dir d p.0 ≤ d.fst_max_entry_num)

  -- A place of the table, with the directories above it.
  abbrev pub Stands : Place → List Place → Type 0
  Stands p [] = Holds p × (fst_parent_dir d p.0 ≡ p.0)
  Stands p (q ∷ qs) = Holds p × (fst_parent_dir d p.0 ≡ q.0) × Stands q qs

  abbrev name_turn : Place → List ℕ → List (List ℕ) → Option Turn
  name_turn p c cs =
      if is_illegal d c
      then some (done not_found)
      else some (follow cs (find_in p.1 (p.0 + 1) c (is_more cs)))

  module _ (fuel : ℕ) (small : d.fst_max_entry_num < 2 ^ 32)
      (enough : d.fst_max_entry_num ≤ fuel) where
    enter_legal :
        (p : Place) (c : List ℕ) (cs : List (List ℕ))
        → Holds p
        → All IsPlain c
        → enter fuel d p.0 (c ++ rest_of cs) (length c, false)
          ≡ some (follow cs (find_in p.1 (p.0 + 1) c (is_more cs)))
    unfolding enter
    enter_legal p c cs h plain =
        let k = Laid-count d p.0 (p.0 + 1) p.1 (fst_next_dir d p.0) h.0 in
        let e2 : add32 p.0 1 ≡ p.0 + 1 = omega (arith, k, h.1, small) in
        let s =
          search_dir-find_in d c (rest_of cs) plain (rest_of-IsRest cs) (is_more cs) fuel p.0
            (p.0 + 1) p.1 (fst_next_dir d p.0) h.0 (omega (arith, h.1, small))
            (omega (arith, k, h.1, enough)) in
        let g = get_or-at_end c cs in
        rw (g, e2, s, g) (ap some (next_hier-follow c cs (find_in p.1 (p.0 + 1) c (is_more cs))))

    enter_lem :
        (p : Place) (c : List ℕ) (cs : List (List ℕ)) (r : ℕ × Bool)
        → Holds p
        → All IsPlain c
        → r.1 ≡ is_illegal d c
        → (is_illegal d c ≡ false → r.0 ≡ length c)
        → enter fuel d p.0 (c ++ rest_of cs) r ≡ name_turn p c cs
    unfolding enter
    enter_lem p c cs r h plain e0 e1 = elim (Bool-cases (is_illegal d c)) [
      | inl e ↦ rw (e0, e) refl
      | inr e ↦ rw e (
          ap (enter fuel d p.0 (c ++ rest_of cs)) (λ i. (e1 e i, (e0 ∙ e) i))
          ∙ enter_legal p c cs h plain)
    ]

    component_lem :
        (p : Place) (c : List ℕ) (cs : List (List ℕ))
        → Holds p
        → All IsPlain c
        → component fuel d p.0 (c ++ rest_of cs) ≡ name_turn p c cs
    unfolding component
    component_lem p c cs h plain =
        let (e0, e1) = component_end-append d c (rest_of cs) plain (rest_of-IsRest cs) in
        enter_lem p c cs (component_end d (c ++ rest_of cs)) h plain e0 e1

    -- One turn at a component that is not empty.
    turn_lem :
        (p : Place) (x : ℕ) (c : List ℕ) (cs : List (List ℕ))
        → Holds p
        → All IsPlain (x ∷ c)
        → turn fuel d p.0 (x ∷ (c ++ rest_of cs))
          ≡ or_else (dots_of d p.0 (x ∷ c) cs) (name_turn p (x ∷ c) cs)
    unfolding turn
    turn_lem p x c cs h plain =
        let e : (x == slash) ≡ false = grind (arith, plain.0) in
        let text = c ++ rest_of cs in
        if_false (x == slash) (some (go_on 0 text))
          (or_else (dots d p.0 (x ∷ text)) (component fuel d p.0 (x ∷ text))) e
        ∙ ap (λ t. or_else t (component fuel d p.0 (x ∷ text))) (dots_lem d p.0 x c cs plain.1)
        ∙ ap (or_else (dots_of d p.0 (x ∷ c) cs)) (component_lem p (x ∷ c) cs h plain)

    -- The walk after a turn.
    abbrev after : (turns : ℕ) → Option Turn → Option ℕ
    after turns none = none
    after turns (some (done i)) = some i
    after turns (some (go_on i path)) = walk_path turns fuel d i path

    module _ (root : Forest) (at_root : Stands (0, root) []) where
      abbrev target : Place → List Place → List (List ℕ) → ℕ
      target p above cs = resolve (is_illegal d) root p above cs

      -- The walk of so many turns, from any place.
      abbrev Walks : ℕ → Type 0
      Walks turns =
          (p : Place) (above : List Place) (c : List ℕ) (cs : List (List ℕ))
          → Stands p above
          → All IsPlain c
          → All (All IsPlain) cs
          → length cs < turns
          → walk_path turns fuel d p.0 (join (c ∷ cs)) ≡ some (target p above (c ∷ cs))

      on_lem :
          (turns : ℕ) (p : Place) (above : List Place) (cs : List (List ℕ))
          → Walks turns
          → Stands p above
          → All (All IsPlain) cs
          → length cs ≤ turns
          → after turns (some (then_on cs p.0)) ≡ some (target p above cs)
      unfolding resolve
      on_lem turns p above [] w h plain le = refl
      on_lem turns p above (c ∷ cs) w h plain le =
          w p above c cs h plain.0 plain.1 (omega (arith, le))

      up-Stands :
          (p : Place) (above : List Place) → Stands p above → Stands (up p above) (ups above)
      up-Stands p [] h = h
      up-Stands p (q ∷ qs) h = h.2

      up_parent :
          (p : Place) (above : List Place) → Stands p above → fst_parent_dir d p.0 ≡ (up p above).0
      up_parent p [] h = h.1
      up_parent p (q ∷ qs) h = h.1

      Stands-Holds : (p : Place) (above : List Place) → Stands p above → Holds p
      Stands-Holds p [] h = h.0
      Stands-Holds p (q ∷ qs) h = h.0

      found_lem :
          (turns : ℕ) (p : Place) (above : List Place) (cs : List (List ℕ)) (o : Option Place)
          → Walks turns
          → Stands p above
          → All (All IsPlain) cs
          → length cs ≤ turns
          → Found d p.0 (fst_next_dir d p.0) (is_more cs) o
          → after turns (some (follow cs o))
            ≡ some (elim o [ none ↦ not_found | some q ↦ target q (p ∷ above) cs ])
      unfolding resolve
      found_lem turns p above cs none w h plain le f = refl
      found_lem turns p above [] (some q) w h plain le f = refl
      found_lem turns p above (c ∷ cs) (some q) w h plain le f =
          let (parent, laid, inside) = f refl in
          let outer = Stands-Holds p above h in
          w q (p ∷ above) c cs ((laid, omega (arith, inside, outer.1)), parent, h) plain.0 plain.1
            (omega (arith, le))

      -- The cases of a component.
      name_lem :
          (turns : ℕ) (a b l : Bool) (i j : ℕ) (o : Option Place) (cs : List (List ℕ)) (x y z : ℕ)
          → after turns (some (then_on cs i)) ≡ some x
          → after turns (some (then_on cs j)) ≡ some y
          → after turns (some (follow cs o)) ≡ some z
          → after turns (
              or_else
                (if a then some (then_on cs i) else if b then some (then_on cs j) else none)
                (if l then some (done not_found) else some (follow cs o)))
            ≡ some (if a then x else if b then y else if l then not_found else z)
      name_lem turns true b l i j o cs x y z e0 e1 e2 = e0
      name_lem turns false true l i j o cs x y z e0 e1 e2 = e1
      name_lem turns false false true i j o cs x y z e0 e1 e2 = refl
      name_lem turns false false false i j o cs x y z e0 e1 e2 = e2

      pub walk_path-resolve : (turns : ℕ) → Walks turns
      unfolding walk_path turn resolve
      walk_path-resolve zero p above c cs h plain plains le = absurd (omega (arith, le))
      walk_path-resolve (suc turns) p above [] [] h plain plains le = refl
      walk_path-resolve (suc turns) p above [] (c ∷ cs) h plain plains le =
          walk_path-resolve turns (0, root) [] c cs at_root plains.0 plains.1 (omega (arith, le))
      walk_path-resolve (suc turns) p above (x ∷ c) cs h plain plains le =
          let w = walk_path-resolve turns in
          let n : length cs ≤ turns = omega (arith, le) in
          let q = up p above in
          let o = find_in p.1 (p.0 + 1) (x ∷ c) (is_more cs) in
          let inside = (Stands-Holds p above h).0 in
          let e1 : after turns (some (then_on cs (fst_parent_dir d p.0)))
              ≡ some (target q (ups above) cs) =
            ap (λ j. after turns (some (then_on cs j))) (up_parent p above h)
            ∙ on_lem turns q (ups above) cs w (up-Stands p above h) plains n in
          ap (after turns) (turn_lem p x c cs (Stands-Holds p above h) plain)
          ∙ name_lem turns (strcmp (x ∷ c) one_dot) (strcmp (x ∷ c) two_dots) (is_illegal d (x ∷ c))
              p.0 (fst_parent_dir d p.0) o cs (target p above cs) (target q (ups above) cs)
              (elim o [ none ↦ not_found | some q' ↦ target q' (p ∷ above) cs ])
              (on_lem turns p above cs w h plains n) e1
              (found_lem turns p above cs o w h plains n (
                find_in-Found d p.0 (p.0 + 1) p.1 (fst_next_dir d p.0) (x ∷ c) (is_more cs) inside))
