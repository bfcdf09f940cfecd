-- ===== src/OsAlloc/Split.antt =====
-- `OSAllocFromHeap` splits a cell: the headers of its two parts are written inside it.
use gamecube_port.Base.{ℕ, ◌+◌, ◌≤◌, ◌<◌, ◌^◌, ◌≡◌, ◌∙◌, List, arith, All, ◌⊎◌}
use gamecube_port.GcMem.{Mem, Mapped, field, set_field, store_u32be, add32}
use gamecube_port.GcMem.Laws.{load_u32be-store_apart, field-set_self, field-set_ne, Mapped-prefix}
use gamecube_port.GcMem.Dll.{Dll}
use gamecube_port.OsAlloc.{
  cell_next, cell_prev, cell_size, cell_hd, hd_free, hd_allocated, heapdesc_size,
}
use gamecube_port.OsAlloc.Blocks.{
  Block, addrs, Beside, IsBlock, IsSide, Dll-store, addrs-Node, Blocks-store, Beside-SparesLinks,
  Beside-SparesSize, IsSide-store,
}

-- What the stores inside the block `c` keep: the lists on both sides of it, the allocated list, and
-- the head of the free list.
pub record IsHole (m0 : Mem) (hd : ℕ) (xs ys bs : List Block) (e q : ℕ) (m : Mem) : Type 0 where
  pub before : Dll cell_next cell_prev m 0 (addrs xs) e
  pub after : Dll cell_next cell_prev m q (addrs ys) 0
  pub blocks_before : All (IsBlock m) xs
  pub blocks_after : All (IsBlock m) ys
  pub side : IsSide m hd hd_allocated bs
  pub head : field m hd hd_free ≡ field m0 hd hd_free

-- Where the block `c` lies.
pub record IsApart (hd : ℕ) (c : Block) (xs ys bs : List Block) : Type 0 where
  pub beside_before : All (Beside c) xs
  pub beside_after : All (Beside c) ys
  pub beside_allocated : All (Beside c) bs
  pub outside : Beside (hd, heapdesc_size) c
  pub room : hd + heapdesc_size ≤ 2 ^ 32

module _ (m0 : Mem) (hd : ℕ) (c : Block) (xs ys bs : List Block) (e q : ℕ)
    (a : IsApart hd c xs ys bs) where
  store-IsHole :
      (m : Mem) (w v : ℕ)
      → c.0 ≤ w
      → w + 4 ≤ c.0 + c.1
      → IsHole m0 hd xs ys bs e q m
      → IsHole m0 hd xs ys bs e q (store_u32be m w v)
  store-IsHole m w v lo hi r =
      let s = Beside-SparesLinks m c w lo hi xs r.blocks_before a.beside_before in
      let t = Beside-SparesLinks m c w lo hi ys r.blocks_after a.beside_after in
      record {
        before = Dll-store m w v 0 (addrs xs) e (addrs-Node m xs r.blocks_before) s r.before;
        after = Dll-store m w v q (addrs ys) 0 (addrs-Node m ys r.blocks_after) t r.after;
        blocks_before =
            Blocks-store m w v xs r.blocks_before
              (Beside-SparesSize m c w lo hi xs r.blocks_before a.beside_before);
        blocks_after =
            Blocks-store m w v ys r.blocks_after
              (Beside-SparesSize m c w lo hi ys r.blocks_after a.beside_after);
        side =
            IsSide-store m c w lo hi v hd hd_allocated bs (omega (arith, a.outside, a.room))
              a.beside_allocated r.side;
        head =
            load_u32be-store_apart m w (add32 hd 4) v (omega (arith, a.outside, a.room)) ∙ r.head;
      }

-- The headers of the two parts.
abbrev pub halves : (cell req left prev next : ℕ) → Mem → Mem
halves cell req left prev next m =
    let new_cell = add32 cell req in
    let m1 = set_field (set_field m cell cell_size req) new_cell cell_size left in
    let m2 = set_field (set_field m1 new_cell cell_prev prev) new_cell cell_next next in
    set_field m2 new_cell cell_hd 0

module _ (m : Mem) (cell req left prev next : ℕ) (k : IsBlock m (cell, req + left)) (low : 64 ≤ req)
    (rest : 64 ≤ left) where
  new_addr : add32 cell req ≡ cell + req
  new_addr = omega (arith, k)

  node : Mapped m (add32 cell req) 16
  node = (k.1.0, omega (arith, k), omega (arith, k), omega (arith, k))

  abbrev n1 : Mem
  n1 = set_field m cell cell_size req

  abbrev n2 : Mem
  n2 = set_field n1 (add32 cell req) cell_size left

  abbrev n3 : Mem
  n3 = set_field n2 (add32 cell req) cell_prev prev

  abbrev n4 : Mem
  n4 = set_field n3 (add32 cell req) cell_next next

  skip :
      (u : Mem) (f v g : ℕ)
      → f + 4 ≤ 16
      → g + 4 ≤ 16
      → field (set_field u (add32 cell req) f v) cell g ≡ field u cell g
  skip u f v g i j =
      load_u32be-store_apart u (add32 (add32 cell req) f) (add32 cell g) v (omega (arith, k))

  first_size : field (halves cell req left prev next m) cell cell_size ≡ req
  first_size =
      skip n4 12 0 8 (omega arith) (omega arith)
      ∙ skip n3 4 next 8 (omega arith) (omega arith)
      ∙ skip n2 0 prev 8 (omega arith) (omega arith)
      ∙ skip n1 8 left 8 (omega arith) (omega arith)
      ∙ field-set_self m 16 cell (Mapped-prefix m cell (req + left) 16 k.1 (omega (arith, k))) 8 req
          (omega arith) (omega (arith, k))

  other :
      (u : Mem) (f v g : ℕ)
      → Mapped u (add32 cell req) 16
      → f + 4 ≤ 16
      → g + 4 ≤ 16
      → (f + 4 ≤ g) ⊎ (g + 4 ≤ f)
      → field (set_field u (add32 cell req) f v) (add32 cell req) g ≡ field u (add32 cell req) g
  other u f v g h i j a = field-set_ne u 16 (add32 cell req) h f v i g j a

  pub second_size : field (halves cell req left prev next m) (add32 cell req) cell_size ≡ left
  second_size =
      other n4 12 0 8 node (omega arith) (omega arith) (omega arith)
      ∙ other n3 4 next 8 node (omega arith) (omega arith) (omega arith)
      ∙ other n2 0 prev 8 node (omega arith) (omega arith) (omega arith)
      ∙ field-set_self n1 16 (add32 cell req) node 8 left (omega arith) (omega (arith, k))

  pub own_prev :
      prev < 2 ^ 32 → field (halves cell req left prev next m) (add32 cell req) cell_prev ≡ prev
  own_prev l =
      other n4 12 0 0 node (omega arith) (omega arith) (omega arith)
      ∙ other n3 4 next 0 node (omega arith) (omega arith) (omega arith)
      ∙ field-set_self n2 16 (add32 cell req) node 0 prev (omega arith) l

  pub own_next :
      next < 2 ^ 32 → field (halves cell req left prev next m) (add32 cell req) cell_next ≡ next
  own_next l =
      other n4 12 0 4 node (omega arith) (omega arith) (omega arith)
      ∙ field-set_self n3 16 (add32 cell req) node 4 next (omega arith) l

  -- The two parts are blocks.
  pub first-IsBlock : IsBlock (halves cell req left prev next m) (cell, req)
  first-IsBlock = (
    k.0,
    Mapped-prefix m cell (req + left) req k.1 (omega arith),
    low,
    omega (arith, k),
    first_size,
  )

  pub second-IsBlock : IsBlock (halves cell req left prev next m) (add32 cell req, left)
  second-IsBlock = (
    omega (arith, k),
    (k.1.0, omega (arith, k), omega (arith, k), omega (arith, k)),
    rest,
    omega (arith, k),
    second_size,
  )

  pub halves-IsHole :
      (hd : ℕ) (xs ys bs : List Block) (e q : ℕ)
      → IsApart hd (cell, req + left) xs ys bs
      → IsHole m hd xs ys bs e q m
      → IsHole m hd xs ys bs e q (halves cell req left prev next m)
  halves-IsHole hd xs ys bs e q a h =
      let c : Block = (cell, req + left) in
      let s = store-IsHole m hd c xs ys bs e q a in
      let nc = add32 cell req in
      let h1 = s m (add32 cell 8) req (omega (arith, k)) (omega (arith, k)) h in
      let h2 = s n1 (add32 nc 8) left (omega (arith, k)) (omega (arith, k)) h1 in
      let h3 = s n2 (add32 nc 0) prev (omega (arith, k)) (omega (arith, k)) h2 in
      let h4 = s n3 (add32 nc 4) next (omega (arith, k)) (omega (arith, k)) h3 in
      s n4 (add32 nc 12) 0 (omega (arith, k)) (omega (arith, k)) h4
