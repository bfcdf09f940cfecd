-- ===== src/GcMem/Unhook.antt =====
-- Taking a structure out of a doubly linked list that ends with null links: its neighbours are made to
-- name each other.
use mathlib.Core.Path.{subst}
use mathlib.Core.List.{append-nil}
use gamecube_port.Base.{
  ℕ, ◌≡◌, ◌≢◌, refl, sym, List, [], ◌∷◌, ◌++◌, arith, head_or, last_or, All, true, false, Bool,
  Bool-cases, inl, inr, ◌==◌, if◌then◌else◌,
}
use gamecube_port.GcMem.{Mem, Mapped, Apart, field, set_field}
use gamecube_port.GcMem.Laws.{field-set-Apart}
use gamecube_port.GcMem.Chain.{Node, Distinct, All-last, Apart-sym}
use gamecube_port.GcMem.Dll.{
  Offsets, Dll, Nodes, Dll-set-Apart, Dll-set_last, Dll-set_first, Dll-append, Dll-split, All-split,
  Across, Distinct-split, Across-column,
}

pub nonzero : (x : ℕ) → x ≢ 0 → (x == 0) ≡ false
nonzero x h = ground (arith, h)

pub Nodes-if :
    (size : ℕ) (c : Bool) (m m' : Mem) (xs : List ℕ)
    → Nodes m size xs
    → Nodes m' size xs
    → Nodes (if c then m else m') size xs
Nodes-if size true m m' xs h k = h
Nodes-if size false m m' xs h k = k

-- The writes to the two neighbours `p` and `n`, of which either may be null.
abbrev pub first_write : (pv : ℕ) (m : Mem) (p n : ℕ) → Mem
first_write pv m p n = if n == 0 then m else set_field m n pv p

abbrev pub unhook : (nx pv : ℕ) (m : Mem) (p n : ℕ) → Mem
unhook nx pv m p n =
    if p == 0 then first_write pv m p n else set_field (first_write pv m p n) p nx n

module _ (size nx pv : ℕ) (o : Offsets size nx pv) where
  unhook_first : (m : Mem) (c : ℕ) → c ≢ 0 → unhook nx pv m 0 c ≡ set_field m c pv 0
  unhook_first m c h = rw (nonzero c h) refl

  unhook_last : (m : Mem) (p : ℕ) → p ≢ 0 → unhook nx pv m p 0 ≡ set_field m p nx 0
  unhook_last m p h = rw (nonzero p h) refl

  pub unhook_both :
      (m : Mem) (p c : ℕ)
      → p ≢ 0
      → c ≢ 0
      → unhook nx pv m p c ≡ set_field (set_field m c pv p) p nx c
  unhook_both m p c h k = rw (nonzero p h, nonzero c k) refl

  -- The writes map nothing anew and take nothing away.
  pub unhook-Nodes :
      (m : Mem) (p n : ℕ) (xs : List ℕ) → Nodes m size xs → Nodes (unhook nx pv m p n) size xs
  unhook-Nodes m p n xs h =
      let f : Nodes (first_write pv m p n) size xs =
        Nodes-if size (n == 0) m (set_field m n pv p) xs h h in
      Nodes-if size (p == 0) (first_write pv m p n) (set_field (first_write pv m p n) p nx n) xs f f

  -- A list in the memory that the writes leave.
  abbrev List0 : List ℕ → Mem → Type 0
  List0 xs m = Dll nx pv m 0 xs 0

  module _ (m : Mem) (b : ℕ) where
    -- The list `xs`, the structure `b` and the list `ys` before the call.
    pub record IsAround (xs ys : List ℕ) : Type 0 where
      pub before : Dll nx pv m 0 xs b
      pub after : Dll nx pv m b ys 0
      pub nodes_before : Nodes m size xs
      pub nodes_after : Nodes m size ys
      pub node : Node m size b
      pub distinct_before : Distinct size xs
      pub distinct_after : Distinct size ys
      pub across : Across size xs ys

    pub unhook-links :
        (xs ys : List ℕ)
        → IsAround xs ys
        → Dll nx pv (unhook nx pv m (last_or xs 0) (head_or ys 0)) 0 (xs ++ ys) 0
    unhook-links [] [] r = tt
    unhook-links [] (c ∷ zs) r = subst (List0 (c ∷ zs)) (sym (unhook_first m c r.nodes_after.0.0)) (
        Dll-set_first size nx pv o m b 0 c zs 0 r.nodes_after r.distinct_after (omega arith)
          r.after)
    unhook-links (x ∷ xs) [] r =
        let p : Node m size (last_or xs x) = All-last (Node m size) x xs r.nodes_before in
        let d =
          Dll-set_last size nx pv o m 0 x xs b 0 r.nodes_before r.distinct_before (omega arith)
            r.before in
        subst (List0 (x ∷ (xs ++ []))) (sym (unhook_last m (last_or xs x) p.0)) (
          subst (λ zs. Dll nx pv (set_field m (last_or xs x) nx 0) 0 (x ∷ zs) 0)
            (sym (append-nil xs)) d)
    unhook-links (x ∷ xs) (c ∷ zs) r =
        let q = last_or xs x in
        let p : Node m size (last_or xs x) = All-last (Node m size) x xs r.nodes_before in
        let down : All (Apart size (last_or xs x)) (c ∷ zs) =
          All-last (λ z. All (Apart size z) (c ∷ zs)) x xs r.across in
        let up = (Across-column size (x ∷ xs) c zs r.across).0 in
        let k = r.nodes_after in
        let n = r.nodes_before in
        let m1 = set_field m c pv q in
        let f1 =
          Dll-set_first size nx pv o m b q c zs 0 k r.distinct_after (omega (arith, p)) r.after in
        let a1 = Dll-set-Apart size nx pv o m c pv q 0 (x ∷ xs) b k.0.1 o.prev_in n up r.before in
        let a2 =
          Dll-set_last size nx pv o m1 0 x xs b c n r.distinct_before (omega (arith, k)) a1 in
        let f2 = Dll-set-Apart size nx pv o m1 q nx c q (c ∷ zs) 0 p.1 o.next_in k down f1 in
        subst (List0 (x ∷ (xs ++ (c ∷ zs)))) (sym (unhook_both m q c p.0 k.0.0))
          (Dll-append nx pv (set_field m1 q nx c) 0 (x ∷ xs) (c ∷ zs) 0 a2 f2)

  -- The link back of the structure is not changed by the write to the one behind it.
  pub prev-first_write :
      (m : Mem) (b p n : ℕ)
      → Mapped m b size
      → (n ≢ 0 → Mapped m n size × Apart size n b)
      → field (first_write pv m p n) b pv ≡ field m b pv
  prev-first_write m b p n h k = elim (Bool-cases (n == 0)) [
    | inl e ↦ rw (e) refl
    | inr e ↦
        let alive : n ≢ 0 = ground (arith, e) in
        let (i, a) = k alive in
        rw (e) (field-set-Apart m size n i pv p o.prev_in b pv h o.prev_in a)
  ]

  pub behind :
      (m : Mem) (b : ℕ) (ys : List ℕ)
      → Nodes m size ys
      → All (Apart size b) ys
      → head_or ys 0 ≢ 0
      → Mapped m (head_or ys 0) size × Apart size (head_or ys 0) b
  behind m b [] k a h = absurd (h refl)
  behind m b (c ∷ zs) k a h = (k.0.1, Apart-sym size b c a.0)

  -- The list before, taken apart at the structure.
  pub IsAround-split :
      (m : Mem) (xs : List ℕ) (b : ℕ) (ys : List ℕ)
      → Dll nx pv m 0 (xs ++ (b ∷ ys)) 0
      → Nodes m size (xs ++ (b ∷ ys))
      → Distinct size (xs ++ (b ∷ ys))
      → IsAround m b xs ys
  IsAround-split m xs b ys links nodes distinct =
      let (d, f) = Dll-split nx pv m 0 xs (b ∷ ys) 0 links in
      let (n, k) = All-split (Node m size) xs (b ∷ ys) nodes in
      let (e, g, x) = Distinct-split size xs (b ∷ ys) distinct in
      record {
        before = d;
        after = f.2;
        nodes_before = n;
        nodes_after = k.1;
        node = k.0;
        distinct_before = e;
        distinct_after = g.1;
        across = (Across-column size xs b ys x).1;
      }
