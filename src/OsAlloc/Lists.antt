-- ===== src/OsAlloc/Lists.antt =====
-- The list helpers `port_DLAddFront`, `port_DLLookup` and `port_DLExtract` of sdk_port/os/OSAlloc.c.
use gamecube_port.Base.{
  ℕ, suc, ◌≡◌, refl, ◌∙◌, List, [], ◌∷◌, ◌++◌, arith, head_or, last_or, length, All, true, false,
  Bool, Bool-cases, inl, inr, ◌==◌, ==_iff, if◌then◌else◌, some,
}
use gamecube_port.GcMem.{Mem, Apart, field, set_field}
use gamecube_port.GcMem.Laws.{field-set-Apart, field-set_self, field-set_ne}
use gamecube_port.GcMem.Chain.{Node, Distinct, All-last, Apart-sym}
use gamecube_port.GcMem.Dll.{
  Offsets, Dll, Nodes, Dll-set-Apart, Dll-set_first, Dll-split, All-join, Distinct-join,
}
use gamecube_port.GcMem.Unhook.{
  nonzero, unhook, IsAround, IsAround-split, unhook-links, unhook-Nodes,
}
use gamecube_port.OsAlloc.{cell_prev, cell_next, dl_add_front, dl_lookup, dl_extract}

abbrev pub cell_bytes : ℕ
cell_bytes = 16

pub offsets : Offsets cell_bytes cell_next cell_prev
offsets = omega arith

-- `list` is the first of the cells `xs`, which are linked in both directions between null links.
pub record IsCells (m : Mem) (list : ℕ) (xs : List ℕ) : Type 0 where
  pub head : list ≡ head_or xs 0
  pub links : Dll cell_next cell_prev m 0 xs 0
  pub nodes : Nodes m cell_bytes xs
  pub distinct : Distinct cell_bytes xs

module _ (m : Mem) (b list : ℕ) where
  -- What the call leaves, with the links that it reads as `p` and `n`.
  abbrev left : (p n : ℕ) → ℕ × Mem
  left p n =
      let m1 = if n == 0 then m else set_field m n cell_prev p in
      if p == 0 then (n, m1) else (list, set_field m1 p cell_next n)

  left_lem :
      (xs ys : List ℕ)
      → IsAround 16 4 0 offsets m b xs ys
      → list ≡ head_or (xs ++ (b ∷ ys)) 0
      → left (last_or xs 0) (head_or ys 0)
        ≡ (head_or (xs ++ ys) 0, unhook 4 0 m (last_or xs 0) (head_or ys 0))
  left_lem [] ys r h = refl
  left_lem (x ∷ xs) ys r h =
      let p : Node m 16 (last_or xs x) = All-last (Node m 16) x xs r.nodes_before in
      rw (nonzero (last_or xs x) p.0, h) refl

-- Whether the list names the cell.
abbrev pub is_in : ℕ → List ℕ → Bool
is_in c [] = false
is_in c (x ∷ xs) = if x == c then true else is_in c xs

-- A cell is taken out of wherever it stands in its list: the call returns the head of the list of the
-- other cells, which keep their order and are linked in both directions.
pub dl_extract-remove :
    (m : Mem) (list cell : ℕ) (xs ys : List ℕ)
    → IsCells m list (xs ++ (cell ∷ ys))
    → let (list', m') = dl_extract list cell m in IsCells m' list' (xs ++ ys)
unfolding dl_extract
dl_extract-remove m list b xs ys r =
    let (d, f) = Dll-split 4 0 m 0 xs (b ∷ ys) 0 r.links in
    let around = IsAround-split 16 4 0 offsets m xs b ys r.links r.nodes r.distinct in
    rw (f.0, f.1, left_lem m b list xs ys around r.head)
      (record {
        head = refl;
        links = unhook-links 16 4 0 offsets m b xs ys around;
        nodes =
            unhook-Nodes 16 4 0 offsets m (last_or xs 0) (head_or ys 0) (xs ++ ys)
              (All-join (Node m 16) xs ys around.nodes_before around.nodes_after);
        distinct =
            Distinct-join 16 xs ys around.distinct_before around.distinct_after around.across;
      })

-- A cell outside the list is put in front: the call returns it as the head, and the list is linked in
-- both directions.
pub dl_add_front-cons :
    (m : Mem) (list cell : ℕ) (xs : List ℕ)
    → IsCells m list xs
    → Node m cell_bytes cell
    → All (Apart cell_bytes cell) xs
    → let (list', m') = dl_add_front list cell m in IsCells m' list' (cell ∷ xs)
unfolding dl_add_front
dl_add_front-cons m list c [] r n a = rw (r.head) (record {
  head = refl;
  links = (
    field-set_ne (set_field m c 4 0) 16 c n.1 0 0 (omega arith) 4 (omega arith) (omega arith)
        ∙ field-set_self m 16 c n.1 4 0 (omega arith) (omega arith),
    field-set_self (set_field m c 4 0) 16 c n.1 0 0 (omega arith) (omega arith),
    tt,
  );
  nodes = (n, tt);
  distinct = (tt, tt);
})
dl_add_front-cons m list c (x ∷ xs) r n a =
    let p = r.nodes.0 in
    let m1 = set_field m c 4 x in
    let m2 = set_field m1 c 0 0 in
    let d1 =
      Dll-set-Apart 16 4 0 offsets m c 4 x 0 (x ∷ xs) 0 n.1 (omega arith) r.nodes a r.links in
    let d2 = Dll-set-Apart 16 4 0 offsets m1 c 0 0 0 (x ∷ xs) 0 n.1 (omega arith) r.nodes a d1 in
    let back : Apart 16 x c = Apart-sym 16 c x a.0 in
    let next : field m2 c 4 ≡ x =
      field-set_ne m1 16 c n.1 0 0 (omega arith) 4 (omega arith) (omega arith)
      ∙ field-set_self m 16 c n.1 4 x (omega arith) (omega (arith, p)) in
    rw (r.head, nonzero x p.0)
      (record {
        head = refl;
        links = (
          field-set-Apart m2 16 x p.1 0 c (omega arith) c 4 n.1 (omega arith) back ∙ next,
          field-set-Apart m2 16 x p.1 0 c (omega arith) c 0 n.1 (omega arith) back
              ∙ field-set_self m1 16 c n.1 0 0 (omega arith) (omega arith),
          Dll-set_first 16 4 0 offsets m2 0 c x xs 0 r.nodes r.distinct (omega (arith, n)) d2,
        );
        nodes = (n, r.nodes);
        distinct = (a, r.distinct);
      })

-- The lookup ends after at most one turn more than the list has cells, and finds the cell if the list
-- holds it and nothing otherwise.
pub dl_lookup_lem :
    (m : Mem) (list cell p : ℕ) (xs : List ℕ)
    → list ≡ head_or xs 0
    → Dll cell_next cell_prev m p xs 0
    → Nodes m cell_bytes xs
    → dl_lookup (suc (length xs)) list cell m ≡ some (if is_in cell xs then cell else 0)
unfolding dl_lookup
dl_lookup_lem m list cell p [] h d n = rw (h) refl
dl_lookup_lem m list cell p (x ∷ xs) h d n = elim (Bool-cases (x == cell)) [
  | inl e ↦ rw (h, nonzero x n.0.0, e, (==_iff x cell).0 e) refl
  | inr e ↦ rw (h, nonzero x n.0.0, e) (dl_lookup_lem m (field m x cell_next) cell x xs d.0 d.2 n.1)
]
