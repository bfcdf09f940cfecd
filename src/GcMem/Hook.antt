-- ===== src/GcMem/Hook.antt =====
-- Putting a structure between two neighbours of a doubly linked list that ends with null links: its own
-- links are set, and its neighbours are made to name it.
use mathlib.Core.Path.{subst}
use gamecube_port.Base.{
  ℕ, ◌≡◌, ◌≢◌, refl, sym, ◌∙◌, List, [], ◌∷◌, ◌++◌, arith, head_or, last_or, All, ◌==◌,
  if◌then◌else◌,
}
use gamecube_port.GcMem.{Mem, Apart, field, set_field}
use gamecube_port.GcMem.Laws.{field-set-Apart}
use gamecube_port.GcMem.Chain.{Node, Distinct, All-last, Apart-sym}
use gamecube_port.GcMem.Dll.{
  Offsets, Dll, Nodes, Dll-set-Apart, Dll-set_last, Dll-set_first, Dll-append, Across,
  Across-column,
}
use gamecube_port.GcMem.Unhook.{nonzero, Nodes-if, first_write}

-- The writes to the two neighbours `p` and `n` of `b`, of which either may be null.
abbrev pub hook : (nx pv : ℕ) (m : Mem) (b p n : ℕ) → Mem
hook nx pv m b p n =
    if p == 0 then first_write pv m b n else set_field (first_write pv m b n) p nx b

module _ (size nx pv : ℕ) (o : Offsets size nx pv) where
  pub hook-Nodes :
      (m : Mem) (b p n : ℕ) (xs : List ℕ) → Nodes m size xs → Nodes (hook nx pv m b p n) size xs
  hook-Nodes m b p n xs h =
      let f : Nodes (first_write pv m b n) size xs =
        Nodes-if size (n == 0) m (set_field m n pv b) xs h h in
      Nodes-if size (p == 0) (first_write pv m b n) (set_field (first_write pv m b n) p nx b) xs f f

  module _ (m : Mem) (b : ℕ) where
    -- The lists `xs` and `ys` before the call, and the structure between, whose own links are set.
    pub record IsBetween (xs : List ℕ) (e : ℕ) (q : ℕ) (ys : List ℕ) : Type 0 where
      pub before : Dll nx pv m 0 xs e
      pub after : Dll nx pv m q ys 0
      pub nodes_before : Nodes m size xs
      pub nodes_after : Nodes m size ys
      pub node : Node m size b
      pub distinct_before : Distinct size xs
      pub distinct_after : Distinct size ys
      pub across : Across size xs ys
      pub apart_before : All (Apart size b) xs
      pub apart_after : All (Apart size b) ys
      pub own_next : field m b nx ≡ head_or ys 0
      pub own_prev : field m b pv ≡ last_or xs 0

    -- What the first write leaves of the lists.
    abbrev After : (xs : List ℕ) (e : ℕ) (ys : List ℕ) → Mem → Type 0
    After xs e ys m1 = Dll nx pv m1 0 xs e × Dll nx pv m1 (last_or xs 0) (b ∷ ys) 0

    write_some : (c : ℕ) → c ≢ 0 → first_write pv m b c ≡ set_field m c pv b
    write_some c h = rw (nonzero c h) refl

    hook_some : (z n : ℕ) → z ≢ 0 → hook nx pv m b z n ≡ set_field (first_write pv m b n) z nx b
    hook_some z n h = rw (nonzero z h) refl

    write-Nodes : (n : ℕ) (xs : List ℕ) → Nodes m size xs → Nodes (first_write pv m b n) size xs
    write-Nodes n xs h = Nodes-if size (n == 0) m (set_field m n pv b) xs h h

    -- The link back of the structure behind.
    hook_next :
        (xs : List ℕ) (e q : ℕ) (ys : List ℕ)
        → IsBetween xs e q ys
        → After xs e ys (first_write pv m b (head_or ys 0))
    hook_next xs e q [] r = (r.before, (r.own_next, r.own_prev, tt))
    hook_next xs e q (c ∷ zs) r =
        let k = r.nodes_after in
        let back : Apart size c b = Apart-sym size b c r.apart_after.0 in
        let up = (Across-column size xs c zs r.across).0 in
        subst (After xs e (c ∷ zs)) (sym (write_some c k.0.0)) (
          Dll-set-Apart size nx pv o m c pv b 0 xs e k.0.1 o.prev_in r.nodes_before up r.before,
          (
            field-set-Apart m size c k.0.1 pv b o.prev_in b nx r.node.1 o.next_in back ∙ r.own_next,
            field-set-Apart m size c k.0.1 pv b o.prev_in b pv r.node.1 o.prev_in back ∙ r.own_prev,
            Dll-set_first size nx pv o m q b c zs 0 k r.distinct_after (omega (arith, r.node))
                r.after,
          ),
        )

    pub hook-links :
        (xs : List ℕ) (e q : ℕ) (ys : List ℕ)
        → IsBetween xs e q ys
        → Dll nx pv (hook nx pv m b (last_or xs 0) (head_or ys 0)) 0 (xs ++ (b ∷ ys)) 0
    hook-links [] e q ys r = (hook_next [] e q ys r).1
    hook-links (x ∷ xs) e q ys r =
        let (d, f) = hook_next (x ∷ xs) e q ys r in
        let m1 = first_write pv m b (head_or ys 0) in
        let n = r.nodes_before in
        let z = last_or xs x in
        let p : Node m size (last_or xs x) = All-last (Node m size) x xs n in
        let n1 = write-Nodes (head_or ys 0) (x ∷ xs) n in
        let y1 = write-Nodes (head_or ys 0) (b ∷ ys) (r.node, r.nodes_after) in
        let p1 : Node m1 size (last_or xs x) = All-last (Node m1 size) x xs n1 in
        let down : All (Apart size (last_or xs x)) ys =
          All-last (λ z. All (Apart size z) ys) x xs r.across in
        let back : Apart size (last_or xs x) b =
          Apart-sym size b (last_or xs x) (All-last (Apart size b) x xs r.apart_before) in
        subst (λ u. Dll nx pv u 0 (x ∷ (xs ++ (b ∷ ys))) 0) (sym (hook_some z (head_or ys 0) p.0))
          (Dll-append nx pv (set_field m1 z nx b) 0 (x ∷ xs) (b ∷ ys) 0
            (Dll-set_last size nx pv o m1 0 x xs e b n1 r.distinct_before (omega (arith, r.node)) d)
            (Dll-set-Apart size nx pv o m1 z nx b z (b ∷ ys) 0 p1.1 o.next_in y1 (back, down) f))
