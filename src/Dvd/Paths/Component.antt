-- ===== src/Dvd/Paths/Component.antt =====
-- What one turn of the walk makes of a path component: "." and "..", or a name that the directory is
-- searched for.
use gamecube_port.Base.{
  ℕ, suc, ◌+◌, ◌≡◌, refl, sym, arith, ◌∙◌, Bool, true, false, not, ◌||◌, Option, none, some, List,
  [], ◌∷◌, ◌++◌, ltb, ◌==◌, if◌then◌else◌, Bool-cases, inl, inr, All, get_or, length, if_cases,
}
use gamecube_port.Dvd.{Dvd, fst_parent_dir}
use gamecube_port.Dvd.Paths.{
  strcmp, slash, dot, space, drop, dots, Turn, done, go_on, scan_name, scan_end, is_some,
  name_length, component_end,
}
use gamecube_port.Dvd.Paths.Tree.{IsPlain, IsRest, at_end, at_slash}

-- The text of components, with a slash between any two.
abbrev pub rest_of : List (List ℕ) → List ℕ
rest_of [] = []
rest_of (c ∷ cs) = slash ∷ (c ++ rest_of cs)

abbrev pub join : List (List ℕ) → List ℕ
join [] = []
join (c ∷ cs) = c ++ rest_of cs

pub rest_of-IsRest : (cs : List (List ℕ)) → IsRest (rest_of cs)
rest_of-IsRest [] = at_end
rest_of-IsRest (c ∷ cs) = at_slash

abbrev pub is_more : List (List ℕ) → Bool
is_more [] = false
is_more (c ∷ cs) = true

-- The walk goes on with the components that are left, or returns.
abbrev pub then_on : List (List ℕ) → ℕ → Turn
then_on [] i = done i
then_on (c ∷ cs) i = go_on i (join (c ∷ cs))

abbrev pub one_dot : List ℕ
one_dot = dot ∷ []

abbrev pub two_dots : List ℕ
two_dots = dot ∷ dot ∷ []

abbrev pub dots_of : Dvd → ℕ → List ℕ → List (List ℕ) → Option Turn
dots_of d i c cs =
    if strcmp c one_dot
    then some (then_on cs i)
    else if strcmp c two_dots
    then some (then_on cs (fst_parent_dir d i))
    else none

module _ (d : Dvd) (i : ℕ) where
  dots_one : (x : ℕ) (cs : List (List ℕ)) → dots d i (x ∷ rest_of cs) ≡ dots_of d i (x ∷ []) cs
  unfolding dots strcmp
  dots_one x [] = elim (Bool-cases (x == dot)) [ inl e ↦ rw e refl | inr e ↦ rw e refl ]
  dots_one x (c ∷ cs) = elim (Bool-cases (x == dot)) [ inl e ↦ rw e refl | inr e ↦ rw e refl ]

  -- A second character that is no dot.
  dots_other :
      (x y : ℕ) (path : List ℕ) → (y == dot) ≡ false → IsPlain y → dots d i (x ∷ y ∷ path) ≡ none
  unfolding dots
  dots_other x y path e p =
      let e1 : (y == slash) ≡ false = ground arith in
      let e2 : (y == 0) ≡ false = ground arith in
      elim (Bool-cases (x == dot)) [ inl f ↦ rw (f, e, e1, e2) refl | inr f ↦ rw f refl ]

  dots_of_other :
      (x y : ℕ) (c : List ℕ) (cs : List (List ℕ))
      → (y == dot) ≡ false
      → dots_of d i (x ∷ y ∷ c) cs ≡ none
  unfolding strcmp
  dots_of_other x y c cs e = elim (Bool-cases (x == dot)) [
    | inl f ↦ rw (f, e) refl
    | inr f ↦ rw f refl
  ]

  dots_two :
      (x y : ℕ) (cs : List (List ℕ))
      → (y == dot) ≡ true
      → dots d i (x ∷ y ∷ rest_of cs) ≡ dots_of d i (x ∷ y ∷ []) cs
  unfolding dots strcmp
  dots_two x y [] e = elim (Bool-cases (x == dot)) [ inl f ↦ rw (f, e) refl | inr f ↦ rw f refl ]
  dots_two x y (c ∷ cs) e = elim (Bool-cases (x == dot)) [
    | inl f ↦ rw (f, e) refl
    | inr f ↦ rw f refl
  ]

  dots_long :
      (x y z : ℕ) (c : List ℕ) (cs : List (List ℕ))
      → (y == dot) ≡ true
      → IsPlain z
      → dots d i (x ∷ y ∷ z ∷ (c ++ rest_of cs)) ≡ dots_of d i (x ∷ y ∷ z ∷ c) cs
  unfolding dots strcmp
  dots_long x y z c cs e p =
      let e1 : (z == slash) ≡ false = ground arith in
      let e2 : (z == 0) ≡ false = ground arith in
      elim (Bool-cases (x == dot)) [ inl f ↦ rw (f, e, e1, e2) refl | inr f ↦ rw f refl ]

  -- The test for "." and ".." looks at the component only.
  pub dots_lem :
      (x : ℕ) (c : List ℕ) (cs : List (List ℕ))
      → All IsPlain c
      → dots d i (x ∷ (c ++ rest_of cs)) ≡ dots_of d i (x ∷ c) cs
  dots_lem x [] cs p = dots_one x cs
  dots_lem x (y ∷ []) cs p = elim (Bool-cases (y == dot)) [
    | inl e ↦ dots_two x y cs e
    | inr e ↦ dots_other x y (rest_of cs) e p.0 ∙ sym (dots_of_other x y [] cs e)
  ]
  dots_lem x (y ∷ z ∷ c) cs p = elim (Bool-cases (y == dot)) [
    | inl e ↦ dots_long x y z c cs e p.1.0
    | inr e ↦ dots_other x y (z ∷ (c ++ rest_of cs)) e p.0 ∙ sym (dots_of_other x y (z ∷ c) cs e)
  ]

  -- Nothing is a component of itself: no turn is spent on an empty one.
  pub dots_empty : (cs : List (List ℕ)) → dots_of d i [] cs ≡ none
  unfolding strcmp
  dots_empty cs = refl

-- The end of a component, and whether it is illegal.
end_lem :
    (path : List ℕ) (n : ℕ) (ext : Option ℕ) (illegal : Bool)
    → IsRest path
    → scan_name path n ext illegal ≡ scan_end n ext illegal
unfolding scan_name
end_lem [] n ext illegal at_end = refl
end_lem (c ∷ path) n ext illegal at_slash = refl

scan_name-append :
    (c path : List ℕ) (n : ℕ) (ext : Option ℕ) (illegal : Bool)
    → All IsPlain c
    → IsRest path
    → scan_name (c ++ path) n ext illegal ≡ scan_name c n ext illegal
unfolding scan_name
scan_name-append [] path n ext illegal p r = end_lem path n ext illegal r
scan_name-append (x ∷ c) path n ext illegal p r =
    rw
      (
        scan_name-append c path (n + 1) (some (n + 1)) illegal p.1 r,
        scan_name-append c path (n + 1) ext (illegal || x == space) p.1 r,
      )
      refl

-- The end of a legal component is that of its text.
abbrev Ends : ℕ → ℕ × Bool → Type 0
Ends n r = r.1 ≡ false → r.0 ≡ n

scan_name-Ends :
    (c : List ℕ) (n : ℕ) (ext : Option ℕ) (illegal : Bool)
    → All IsPlain c
    → Ends (n + length c) (scan_name c n ext illegal)
unfolding scan_name
scan_name-Ends [] n none illegal p = λ h. omega arith
scan_name-Ends [] n (some start) illegal p = λ h. omega arith
scan_name-Ends (x ∷ c) n ext illegal p =
    let e : (x == slash) ≡ false = grind (arith, p.0) in
    let P = Ends (n + suc (length c)) in
    let dotted = scan_name c (n + 1) (some (n + 1)) illegal in
    let plain = scan_name c (n + 1) ext (illegal || x == space) in
    let k : P dotted = λ h. omega (arith, scan_name-Ends c (n + 1) (some (n + 1)) illegal p.1 h) in
    let k1 : P plain =
      λ h. omega (arith, scan_name-Ends c (n + 1) ext (illegal || x == space) p.1 h) in
    let twice = ltb 8 n || is_some ext in
    rw e (
      if_cases P (x == dot) (if twice then (n, true) else dotted) plain
        (λ _. if_cases P twice (n, true) dotted (λ _. λ h. absurd (ground (arith, h))) (λ _. k))
        (λ _. k1))

name_length-append :
    (c path : List ℕ) → All IsPlain c → IsRest path → name_length (c ++ path) ≡ length c
unfolding name_length
name_length-append [] path p r = start path r
  where
    start : (path : List ℕ) → IsRest path → name_length path ≡ 0
    start [] at_end = refl
    start (c ∷ path) at_slash = refl
name_length-append (x ∷ c) path p r =
    let e : (x == slash) ≡ false = grind (arith, p.0) in
    rw (e, name_length-append c path p.1 r) refl

-- What makes a component illegal, by itself.
abbrev pub is_illegal : Dvd → List ℕ → Bool
is_illegal d c = (component_end d c).1

abbrev end_if : Bool → List ℕ → ℕ × Bool
end_if short path = if short then scan_name path 0 none false else (name_length path, false)

end_if-append :
    (short : Bool) (c path : List ℕ)
    → All IsPlain c
    → IsRest path
    → ((end_if short (c ++ path)).1 ≡ (end_if short c).1)
      × ((end_if short c).1 ≡ false → (end_if short (c ++ path)).0 ≡ length c)
end_if-append true c path p r =
    rw (scan_name-append c path 0 none false p r)
      (refl, λ h. omega (arith, scan_name-Ends c 0 none false p h))
end_if-append false c path p r = (refl, λ h. name_length-append c path p r)

pub component_end-append :
    (d : Dvd) (c path : List ℕ)
    → All IsPlain c
    → IsRest path
    → ((component_end d (c ++ path)).1 ≡ is_illegal d c)
      × (is_illegal d c ≡ false → (component_end d (c ++ path)).0 ≡ length c)
unfolding component_end
component_end-append d c path p r = end_if-append (d.long_file_name_flag == 0) c path p r

pub get_or-at_end :
    (c : List ℕ) (cs : List (List ℕ))
    → not (get_or (c ++ rest_of cs) (length c) 0 == 0) ≡ is_more cs
get_or-at_end [] [] = refl
get_or-at_end [] (c ∷ cs) = refl
get_or-at_end (x ∷ c) cs = get_or-at_end c cs

pub drop-append : (c path : List ℕ) (x : ℕ) → drop (suc (length c)) (c ++ (x ∷ path)) ≡ path
drop-append [] path x = refl
drop-append (y ∷ c) path x = drop-append c path x
