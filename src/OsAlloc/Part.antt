-- ===== src/OsAlloc/Part.antt =====
-- `OSAllocFromHeap` splits a cell of the free list: its rest takes its place in the list.
use mathlib.Core.Path.{subst}
use gamecube_port.Base.{
  ℕ, ◌+◌, ◌≤◌, ◌<◌, ◌^◌, ◌≡◌, refl, sym, ◌∙◌, ap, List, [], ◌∷◌, ◌++◌, arith, All, head_or, last_or,
}
use gamecube_port.GcMem.{Mem, field, add32}
use gamecube_port.GcMem.Chain.{Node, Distinct, All-last}
use gamecube_port.GcMem.Dll.{Dll, Nodes, Across, All-split, All-join}
use gamecube_port.GcMem.Hook.{hook, IsBetween, hook-links, hook-Nodes}
use gamecube_port.OsAlloc.{cell_next, cell_prev, heapdesc_size}
use gamecube_port.OsAlloc.Heaps.{take_part}
use gamecube_port.OsAlloc.Lists.{IsCells, offsets}
use gamecube_port.OsAlloc.Blocks.{
  Block, addrs, addrs-append, addrs-Apart, addrs-Node, addrs-Distinct, Beside, Pairs, IsBlock,
  IsHeap,
}
use gamecube_port.OsAlloc.Members.{
  All-take, All-put, Pairs-take, Pairs-put, last_lem, head_behind, Members, Within, shrink,
}
use gamecube_port.OsAlloc.Take.{IsLinked, link-IsLinked}
use gamecube_port.OsAlloc.Whole.{head_lt, head_none, head_some, own_links, around}
use gamecube_port.OsAlloc.Split.{
  IsHole, IsApart, halves, own_prev, own_next, first-IsBlock, second-IsBlock, halves-IsHole,
}

last_lt : (m : Mem) (xs : List ℕ) → Nodes m 16 xs → last_or xs 0 < 2 ^ 32
last_lt m [] h = omega arith
last_lt m (x ∷ xs) h =
    let p : Node m 16 (last_or xs x) = All-last (Node m 16) x xs h in omega (arith, p)

-- The second part `d` is linked in between `xs` and `ys`.
hooked-IsCells :
    (u m0 : Mem) (hd : ℕ) (d : Block) (xs ys bs : List Block) (e q : ℕ)
    → IsHole m0 hd xs ys bs e q u
    → IsBlock u d
    → All (Beside d) (xs ++ ys)
    → Pairs (xs ++ ys)
    → Distinct 16 (addrs xs) × Distinct 16 (addrs ys) × Across 16 (addrs xs) (addrs ys)
    → field u d.0 cell_next ≡ head_or (addrs ys) 0
    → field u d.0 cell_prev ≡ last_or (addrs xs) 0
    → IsCells
        (hook cell_next cell_prev u d.0 (last_or (addrs xs) 0) (head_or (addrs ys) 0))
        (head_or (addrs xs ++ addrs (d ∷ ys)) 0)
        (addrs (xs ++ (d ∷ ys)))
hooked-IsCells u m0 hd d xs ys bs e q hole k b pairs dist next prev =
    let (bx, by) = All-split (Beside d) xs ys b in
    let eq = addrs-append xs (d ∷ ys) in
    let kfs =
      All-put (IsBlock u) d ys xs k
        (All-join (IsBlock u) xs ys hole.blocks_before hole.blocks_after) in
    let between : IsBetween 16 4 0 offsets u d.0 (addrs xs) e q (addrs ys) = record {
      before = hole.before;
      after = hole.after;
      nodes_before = addrs-Node u xs hole.blocks_before;
      nodes_after = addrs-Node u ys hole.blocks_after;
      node = (addrs-Node u (d ∷ []) (k, tt)).0;
      distinct_before = dist.0;
      distinct_after = dist.1;
      across = dist.2;
      apart_before = addrs-Apart u d xs k hole.blocks_before bx;
      apart_after = addrs-Apart u d ys k hole.blocks_after by;
      own_next = next;
      own_prev = prev;
    } in
    let v = hook 4 0 u d.0 (last_or (addrs xs) 0) (head_or (addrs ys) 0) in
    record {
      head = ap (λ l. head_or l 0) (sym eq);
      links =
          subst (λ l. Dll 4 0 v 0 l 0) (sym eq)
            (hook-links 16 4 0 offsets u d.0 (addrs xs) e q (addrs ys) between);
      nodes =
          hook-Nodes 16 4 0 offsets u d.0 (last_or (addrs xs) 0) (head_or (addrs ys) 0)
            (addrs (xs ++ (d ∷ ys))) (addrs-Node u (xs ++ (d ∷ ys)) kfs);
      distinct = addrs-Distinct u (xs ++ (d ∷ ys)) kfs (Pairs-put xs d ys b pairs);
    }

apart :
    (hd : ℕ) (c : Block) (xs ys bs : List Block)
    → All (Beside c) (xs ++ ys)
    → All (Beside c) bs
    → Beside (hd, heapdesc_size) c
    → hd + heapdesc_size ≤ 2 ^ 32
    → IsApart hd c xs ys bs
apart hd c xs ys bs b a o l =
    let (bx, by) = All-split (Beside c) xs ys b in
    record { beside_before = bx; beside_after = by; beside_allocated = a; outside = o; room = l }

start :
    (m : Mem) (hd : ℕ) (c : Block) (xs ys bs : List Block)
    → IsHeap m hd (xs ++ (c ∷ ys)) bs
    → Dll cell_next cell_prev m 0 (addrs xs) c.0
    → Dll cell_next cell_prev m c.0 (addrs ys) 0
    → IsHole m hd xs ys bs c.0 c.0 m
start m hd c xs ys bs r before after =
    let k = All-take (IsBlock m) c ys xs r.free_side.blocks in
    let (kx, ky) = All-split (IsBlock m) xs ys k.1 in
    record {
      before = before;
      after = after;
      blocks_before = kx;
      blocks_after = ky;
      side = r.allocated_side;
      head = refl;
    }

-- The free list with the second part in the place of the block, and the first part loose.
pub take_part-IsLinked :
    (m : Mem) (hd : ℕ) (xs : List Block) (cell req left : ℕ) (ys bs : List Block)
    → 64 ≤ req
    → 64 ≤ left
    → IsHeap m hd (xs ++ ((cell, req + left) ∷ ys)) bs
    → IsLinked
        (take_part hd cell (field m cell cell_prev) (field m cell cell_next) req left m)
        hd
        (cell, req)
        (xs ++ ((add32 cell req, left) ∷ ys))
        bs
unfolding take_part
take_part-IsLinked m hd xs cell req left ys bs low rest r =
    let c : Block = (cell, req + left) in
    let c1 : Block = (cell, req) in
    let c2 : Block = (add32 cell req, left) in
    let side = r.free_side in
    let (ep, en) = own_links m (field m hd 4) xs c ys side.cells in
    let a = around m (field m hd 4) xs c ys side.cells in
    let p = last_or (addrs xs) 0 in
    let n = head_or (addrs ys) 0 in
    let u = halves cell req left p n m in
    let k = All-take (IsBlock m) c ys xs side.blocks in
    let o = All-take (Beside (hd, 12)) c ys xs side.outside in
    let (besides, pairs) = Pairs-take xs c ys side.pairs in
    let across = All-take (λ z. All (Beside z) bs) c ys xs r.across in
    let hole =
      halves-IsHole m cell req left p n k.0 low rest hd xs ys bs cell cell
        (apart hd c xs ys bs besides across.0 o.0 (omega (arith, r.desc)))
        (start m hd c xs ys bs r a.before a.after) in
    let w2 : Within c c2 = omega (arith, k.0) in
    let k1 = first-IsBlock m cell req left p n k.0 low rest in
    let k2 = second-IsBlock m cell req left p n k.0 low rest in
    let b2 = shrink c c2 (xs ++ ys) w2 besides in
    let fs = xs ++ (c2 ∷ ys) in
    let kfs =
      All-put (IsBlock u) c2 ys xs k2
        (All-join (IsBlock u) xs ys hole.blocks_before hole.blocks_after) in
    let b1 =
      All-put (Beside c1) c2 ys xs (omega (arith, k.0))
        (shrink c c1 (xs ++ ys) (omega arith) besides) in
    let pfs = Pairs-put xs c2 ys b2 pairs in
    let ofs = All-put (Beside (hd, 12)) c2 ys xs (omega (arith, o.0, k.0)) o.1 in
    let acr = All-put (λ z. All (Beside z) bs) c2 ys xs (shrink c c2 bs w2 across.0) across.1 in
    let ms = Members u hd c1 fs bs (k1, kfs) (b1, pfs) acr ofs in
    let e = addrs-append xs (c2 ∷ ys) in
    let cells =
      hooked-IsCells u m hd c2 xs ys bs cell cell hole k2 b2 pairs
        (a.distinct_before, a.distinct_after, a.across)
        (own_next m cell req left p n k.0 low rest (head_lt m (addrs ys) a.nodes_after))
        (own_prev m cell req left p n k.0 low rest (last_lt m (addrs xs) a.nodes_before)) in
    rw (ep, en)
      (link-IsLinked m u hd p n c2.0 c2.0 c1 fs bs r.desc
        (record { side = hole.side; blocks = (k1, kfs); head = hole.head })
        (last_lem _ xs (c2 ∷ ys) ms) (head_behind _ xs c2 ys ms)
        (head_or (addrs xs ++ addrs (c2 ∷ ys)) 0) cells
        (head_lt u (addrs xs ++ addrs (c2 ∷ ys)) (subst (Nodes u 16) e (addrs-Node u fs kfs)))
        (omega (arith, o.0, k.0), ofs) pfs (head_none m (addrs xs) (addrs (c2 ∷ ys)) a.nodes_before)
        (λ z.
          head_some (addrs xs) (addrs (c2 ∷ ys)) (c.0 ∷ addrs ys) z
          ∙ sym (side.cells.head ∙ ap (λ l. head_or l 0) (addrs-append xs (c ∷ ys)))))
