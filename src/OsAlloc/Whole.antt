-- ===== src/OsAlloc/Whole.antt =====
-- `OSAllocFromHeap` takes a whole cell out of the free list: what is left is a heap without it.
use mathlib.Core.Path.{subst}
use gamecube_port.Base.{
  ℕ, ◌<◌, ◌^◌, ◌≡◌, ◌≢◌, refl, sym, ◌∙◌, ap, List, [], ◌∷◌, ◌++◌, arith, All, head_or, last_or,
}
use gamecube_port.GcMem.{Mem, field}
use gamecube_port.GcMem.Chain.{Node, Distinct, All-last}
use gamecube_port.GcMem.Dll.{Dll, Nodes, Dll-split, Distinct-join, All-join}
use gamecube_port.GcMem.Unhook.{unhook, IsAround, IsAround-split, unhook-links, unhook-Nodes}
use gamecube_port.OsAlloc.{cell_next, cell_prev}
use gamecube_port.OsAlloc.Heaps.{take_whole}
use gamecube_port.OsAlloc.Lists.{IsCells, offsets}
use gamecube_port.OsAlloc.Blocks.{Block, addrs, addrs-append, Beside, IsBlock, IsHeap}
use gamecube_port.OsAlloc.Ends.{Rest}
use gamecube_port.OsAlloc.Members.{All-take, Pairs-take, last_lem, head_lem, Members}
use gamecube_port.OsAlloc.Take.{IsLinked, link-IsLinked}

pub head_lt : (m : Mem) (xs : List ℕ) → Nodes m 16 xs → head_or xs 0 < 2 ^ 32
head_lt m [] h = omega arith
head_lt m (x ∷ xs) h = omega (arith, h.0)

-- The head of a list behind the cells `xs`, if there are none, and otherwise.
pub head_none :
    (m : Mem) (xs zs : List ℕ)
    → Nodes m 16 xs
    → last_or xs 0 ≡ 0
    → head_or zs 0 ≡ head_or (xs ++ zs) 0
head_none m [] zs h e = refl
head_none m (x ∷ xs) zs h e = absurd ((All-last (Node m 16) x xs h).0 e)

pub head_some : (xs ys zs : List ℕ) → last_or xs 0 ≢ 0 → head_or (xs ++ ys) 0 ≡ head_or (xs ++ zs) 0
head_some [] ys zs h = absurd (h refl)
head_some (x ∷ xs) ys zs h = refl

-- The links that `c` holds.
pub own_links :
    (m : Mem) (list : ℕ) (xs : List Block) (c : Block) (ys : List Block)
    → IsCells m list (addrs (xs ++ (c ∷ ys)))
    → (field m c.0 cell_prev ≡ last_or (addrs xs) 0)
      × (field m c.0 cell_next ≡ head_or (addrs ys) 0)
own_links m list xs c ys r =
    let links = subst (λ zs. Dll 4 0 m 0 zs 0) (addrs-append xs (c ∷ ys)) r.links in
    let (d, f) = Dll-split 4 0 m 0 (addrs xs) (c.0 ∷ addrs ys) 0 links in (f.1, f.0)

pub around :
    (m : Mem) (list : ℕ) (xs : List Block) (c : Block) (ys : List Block)
    → IsCells m list (addrs (xs ++ (c ∷ ys)))
    → IsAround 16 4 0 offsets m c.0 (addrs xs) (addrs ys)
around m list xs c ys r =
    let e = addrs-append xs (c ∷ ys) in
    IsAround-split 16 4 0 offsets m (addrs xs) c.0 (addrs ys)
      (subst (λ zs. Dll 4 0 m 0 zs 0) e r.links) (subst (Nodes m 16) e r.nodes)
      (subst (Distinct 16) e r.distinct)

-- The free list without the cell, and the cell loose.
pub take_whole-IsLinked :
    (m : Mem) (hd : ℕ) (xs : List Block) (c : Block) (ys bs : List Block)
    → IsHeap m hd (xs ++ (c ∷ ys)) bs
    → IsLinked (take_whole hd (field m c.0 cell_prev) (field m c.0 cell_next) m) hd c (xs ++ ys) bs
unfolding take_whole
take_whole-IsLinked m hd xs c ys bs r =
    let side = r.free_side in
    let (ep, en) = own_links m (field m hd 4) xs c ys side.cells in
    let a = around m (field m hd 4) xs c ys side.cells in
    let p = last_or (addrs xs) 0 in
    let n = head_or (addrs ys) 0 in
    let k = All-take (IsBlock m) c ys xs side.blocks in
    let o = All-take (Beside (hd, 12)) c ys xs side.outside in
    let ps = Pairs-take xs c ys side.pairs in
    let across = All-take (λ z. All (Beside z) bs) c ys xs r.across in
    let ms = Members m hd c (xs ++ ys) bs k ps across.1 o.1 in
    let e = addrs-append xs ys in
    let nodes = All-join (Node m 16) (addrs xs) (addrs ys) a.nodes_before a.nodes_after in
    let left : IsCells (unhook 4 0 m p n) (head_or (addrs xs ++ addrs ys) 0)
        (addrs xs ++ addrs ys) =
      record {
        head = refl;
        links = unhook-links 16 4 0 offsets m c.0 (addrs xs) (addrs ys) a;
        nodes = unhook-Nodes 16 4 0 offsets m p n (addrs xs ++ addrs ys) nodes;
        distinct =
            Distinct-join 16 (addrs xs) (addrs ys) a.distinct_before a.distinct_after a.across;
      } in
    let rest : Rest m hd (c ∷ (xs ++ ys)) bs m = record {
      side = r.allocated_side;
      blocks = k;
      head = refl;
    } in
    rw (ep, en)
      (link-IsLinked m m hd p n p n c (xs ++ ys) bs r.desc rest (last_lem _ xs ys ms)
        (head_lem _ xs ys ms) (head_or (addrs xs ++ addrs ys) 0)
        (subst (IsCells (unhook 4 0 m p n) (head_or (addrs xs ++ addrs ys) 0)) (sym e) left)
        (head_lt m (addrs xs ++ addrs ys) nodes) o ps.1
        (head_none m (addrs xs) (addrs ys) a.nodes_before)
        (λ z.
          head_some (addrs xs) (addrs ys) (c.0 ∷ addrs ys) z
          ∙ sym (side.cells.head ∙ ap (λ l. head_or l 0) (addrs-append xs (c ∷ ys)))))
