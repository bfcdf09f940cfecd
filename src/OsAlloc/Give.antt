-- ===== src/OsAlloc/Give.antt =====
-- The end of `OSAllocFromHeap`: the cell joins the allocated list of its heap.
use mathlib.Core.Path.{subst}
use gamecube_port.Base.{
  ℕ, ◌+◌, ◌≤◌, ◌≡◌, ◌≢◌, refl, sym, List, [], ◌∷◌, arith, head_or, All, ◌==◌, Bool-cases, inl, inr,
}
use gamecube_port.GcMem.{Mem, Mapped, field, set_field, add32}
use gamecube_port.GcMem.Laws.{field-set_self}
use gamecube_port.GcMem.Unhook.{nonzero}
use gamecube_port.OsAlloc.{
  cell_next, cell_prev, cell_hd, hd_free, hd_allocated, heapdesc_size, dl_add_front,
}
use gamecube_port.OsAlloc.Lists.{IsCells, dl_add_front-cons}
use gamecube_port.OsAlloc.Blocks.{
  Block, addrs, Beside, Pairs, IsBlock, IsSide, IsHeap, Beside-sym, addrs-Apart, IsCells-store,
  Blocks-store, Beside-SparesLinks, Beside-SparesSize, IsSide-store, addrs-Node, All-column,
  All-row,
}

-- A block that is in neither list of the heap.
pub record IsLoose (m : Mem) (hd : ℕ) (c : Block) (free allocated : List Block) : Type 0 where
  pub block : IsBlock m c
  pub outside : Beside (hd, heapdesc_size) c
  pub free_beside : All (Beside c) free
  pub allocated_beside : All (Beside c) allocated

abbrev front : (l c : ℕ) → Mem → Mem
front l c m = (dl_add_front l c m).1

front_none : (c : ℕ) (m : Mem) → front 0 c m ≡ set_field (set_field m c cell_next 0) c cell_prev 0
unfolding dl_add_front
front_none c m = refl

front_some :
    (l c : ℕ) (m : Mem)
    → l ≢ 0
    → front l c m ≡ set_field (set_field (set_field m c cell_next l) c cell_prev 0) l cell_prev c
unfolding dl_add_front
front_some l c m h = rw (nonzero l h) refl

front_head : (l c : ℕ) (m : Mem) → (dl_add_front l c m).0 ≡ c
unfolding dl_add_front
front_head l c m = refl

front-Mapped : (l c : ℕ) (m : Mem) (a n : ℕ) → Mapped m a n → Mapped (front l c m) a n
unfolding dl_add_front
front-Mapped l c m a n h = elim (Bool-cases (l == 0)) [ inl e ↦ rw (e) h | inr e ↦ rw (e) h ]

-- The stores of `port_DLAddFront` to the header of the cell.
module _ (m : Mem) (hd : ℕ) (c : Block) (k : IsBlock m c) (out : Beside (hd, heapdesc_size) c)
    (v : ℕ) where
  header-IsSide :
      (f off : ℕ) (cs : List Block)
      → f + 4 ≤ 16
      → off + 4 ≤ heapdesc_size
      → Mapped m hd heapdesc_size
      → All (Beside c) cs
      → IsSide m hd off cs
      → IsSide (set_field m c.0 f v) hd off cs
  header-IsSide f off cs i j d s r =
      IsSide-store m c (add32 c.0 f) (omega (arith, k)) (omega (arith, k)) v hd off cs
        (omega (arith, k, out, d)) s r

-- A store to one of the two links of a block among others spares their lengths.
module _ (m : Mem) (c : Block) (cs : List Block) (k : All (IsBlock m) (c ∷ cs))
    (s : All (Beside c) cs) where
  header-Blocks : (f v : ℕ) → f ≤ 4 → All (IsBlock (set_field m c.0 f v)) (c ∷ cs)
  header-Blocks f v i = Blocks-store m (add32 c.0 f) v (c ∷ cs) k (
    omega (arith, k.0),
    Beside-SparesSize m c (add32 c.0 f) (omega (arith, k.0)) (omega (arith, k.0)) cs k.1 s,
  )

  tag-Blocks : (v : ℕ) → All (IsBlock (set_field m c.0 cell_hd v)) (c ∷ cs)
  tag-Blocks v = Blocks-store m (add32 c.0 cell_hd) v (c ∷ cs) k (
    omega (arith, k.0),
    Beside-SparesSize m c (add32 c.0 cell_hd) (omega (arith, k.0)) (omega (arith, k.0)) cs k.1 s,
  )

module _ (m : Mem) (hd : ℕ) (c : Block) (d : Mapped m hd heapdesc_size) where
  front-IsSide :
      (free allocated : List Block)
      → IsLoose m hd c free allocated
      → All (IsBlock m) allocated
      → All (Beside (hd, heapdesc_size)) allocated
      → All (λ a. All (Beside a) free) allocated
      → IsSide m hd hd_free free
      → IsSide (front (head_or (addrs allocated) 0) c.0 m) hd hd_free free
  front-IsSide fs [] r k o a h =
      let b = r.block in
      let out = r.outside in
      let k1 = header-Blocks m c [] (b, tt) tt 4 0 (omega arith) in
      let h1 = header-IsSide m hd c b out 0 4 4 fs (omega arith) (omega arith) d r.free_beside h in
      subst (λ u. IsSide u hd hd_free fs) (sym (front_none c.0 m))
        (header-IsSide (set_field m c.0 4 0) hd c k1.0 out 0 0 4 fs (omega arith) (omega arith) d
          r.free_beside h1)
  front-IsSide fs (e ∷ es) r k o a h =
      let b = r.block in
      let out = r.outside in
      let m1 = set_field m c.0 4 e.0 in
      let m2 = set_field m1 c.0 0 0 in
      let k1 = header-Blocks m c (e ∷ es) (b, k) r.allocated_beside 4 e.0 (omega arith) in
      let k2 = header-Blocks m1 c (e ∷ es) k1 r.allocated_beside 0 0 (omega arith) in
      let h1 =
        header-IsSide m hd c b out e.0 4 4 fs (omega arith) (omega arith) d r.free_beside h in
      let h2 =
        header-IsSide m1 hd c k1.0 out 0 0 4 fs (omega arith) (omega arith) d r.free_beside h1 in
      subst (λ u. IsSide u hd hd_free fs) (sym (front_some e.0 c.0 m k.0.0))
        (header-IsSide m2 hd e k2.1.0 o.0 c.0 0 4 fs (omega arith) (omega arith) d a.0 h2)

  front-Blocks :
      (free allocated : List Block)
      → IsLoose m hd c free allocated
      → All (IsBlock m) allocated
      → Pairs allocated
      → All (IsBlock (front (head_or (addrs allocated) 0) c.0 m)) (c ∷ allocated)
  front-Blocks fs [] r k p =
      let k1 = header-Blocks m c [] (r.block, tt) tt 4 0 (omega arith) in
      let k2 = header-Blocks (set_field m c.0 4 0) c [] k1 tt 0 0 (omega arith) in
      subst (λ u. All (IsBlock u) (c ∷ [])) (sym (front_none c.0 m)) k2
  front-Blocks fs (e ∷ es) r k p =
      let s = r.allocated_beside in
      let m1 = set_field m c.0 4 e.0 in
      let m2 = set_field m1 c.0 0 0 in
      let k1 = header-Blocks m c (e ∷ es) (r.block, k) s 4 e.0 (omega arith) in
      let k2 = header-Blocks m1 c (e ∷ es) k1 s 0 0 (omega arith) in
      let k3 =
        header-Blocks m2 e (c ∷ es) (k2.1.0, (k2.0, k2.1.1)) (Beside-sym c e s.0, p.0) 0 c.0
          (omega arith) in
      subst (λ u. All (IsBlock u) (c ∷ e ∷ es)) (sym (front_some e.0 c.0 m k.0.0))
        (k3.1.0, (k3.0, k3.1.1))

-- The end of `OSAllocFromHeap`, in memory `m`.
abbrev pub give : (hd cell : ℕ) → Mem → Mem
give hd cell m =
    let r = dl_add_front (field m hd hd_allocated) cell m in
    set_field (set_field (r.1) cell cell_hd hd) hd hd_allocated (r.0)

-- The two stores behind `port_DLAddFront`.
give_rest :
    (m : Mem) (hd : ℕ) (c : Block) (cs : List Block)
    → All (IsBlock m) (c ∷ cs)
    → Mapped m hd heapdesc_size
    → All (Beside (hd, heapdesc_size)) (c ∷ cs)
    → Pairs (c ∷ cs)
    → IsCells m c.0 (addrs (c ∷ cs))
    → IsSide (set_field (set_field m c.0 cell_hd hd) hd hd_allocated c.0) hd hd_allocated (c ∷ cs)
give_rest m hd c cs k d o p r =
    let m1 = set_field m c.0 12 hd in
    let w = add32 c.0 12 in
    let k1 = tag-Blocks m c cs k p.0 hd in
    let r1 = IsCells-store m w hd c.0 (addrs (c ∷ cs)) r (
      omega (arith, k.0),
      Beside-SparesLinks m c w (omega (arith, k.0)) (omega (arith, k.0)) cs k.1 p.0,
    ) in
    let lo : hd ≤ add32 hd 8 = omega (arith, d) in
    let hi : add32 hd 8 + 4 ≤ hd + heapdesc_size = omega (arith, d) in
    let links = Beside-SparesLinks m1 (hd, 12) (add32 hd 8) lo hi (c ∷ cs) k1 o in
    let sizes = Beside-SparesSize m1 (hd, 12) (add32 hd 8) lo hi (c ∷ cs) k1 o in
    record {
      cells =
          subst (λ l. IsCells (set_field m1 hd 8 c.0) l (addrs (c ∷ cs)))
            (sym (field-set_self m1 12 hd d 8 c.0 (omega arith) (omega (arith, k.0))))
            (IsCells-store m1 (add32 hd 8) c.0 c.0 (addrs (c ∷ cs)) r1 links);
      blocks = Blocks-store m1 (add32 hd 8) c.0 (c ∷ cs) k1 sizes;
      outside = o;
      pairs = p;
    }

give-free :
    (m : Mem) (hd : ℕ) (c : Block) (fs : List Block)
    → IsBlock m c
    → Mapped m hd heapdesc_size
    → Beside (hd, heapdesc_size) c
    → All (Beside c) fs
    → IsSide m hd hd_free fs
    → IsSide (set_field (set_field m c.0 cell_hd hd) hd hd_allocated c.0) hd hd_free fs
give-free m hd c fs k d o s r =
    let h = header-IsSide m hd c k o hd 12 4 fs (omega arith) (omega arith) d s r in
    IsSide-store (set_field m c.0 12 hd) (hd, 12) (add32 hd 8) (omega (arith, d)) (omega (arith, d))
      c.0 hd 4 fs (omega (arith, d)) r.outside h

-- A loose block becomes the first allocated one.
pub give-IsHeap :
    (m : Mem) (hd : ℕ) (c : Block) (free allocated : List Block)
    → IsHeap m hd free allocated
    → IsLoose m hd c free allocated
    → IsHeap (give hd c.0 m) hd free (c ∷ allocated)
unfolding dl_add_front
give-IsHeap m hd c fs bs h r =
    let l = field m hd hd_allocated in
    let side = h.allocated_side in
    let u = front l c.0 m in
    let same : l ≡ head_or (addrs bs) 0 = side.cells.head in
    let back = All-column fs bs h.across in
    let k : All (IsBlock u) (c ∷ bs) =
      subst (λ z. All (IsBlock (front z c.0 m)) (c ∷ bs)) (sym same)
        (front-Blocks m hd c h.desc fs bs r side.blocks side.pairs) in
    let f : IsSide u hd hd_free fs =
      subst (λ z. IsSide (front z c.0 m) hd hd_free fs) (sym same)
        (front-IsSide m hd c h.desc fs bs r side.blocks side.outside back h.free_side) in
    let d : Mapped u hd heapdesc_size = front-Mapped l c.0 m hd heapdesc_size h.desc in
    let node = addrs-Node m (c ∷ []) (r.block, tt) in
    let cells : IsCells u c.0 (addrs (c ∷ bs)) =
      subst (λ z. IsCells u z (c.0 ∷ addrs bs)) (front_head l c.0 m)
        (dl_add_front-cons m l c.0 (addrs bs) side.cells node.0
          (addrs-Apart m c bs r.block side.blocks r.allocated_beside)) in
    let out : All (Beside (hd, heapdesc_size)) (c ∷ bs) = (r.outside, side.outside) in
    let pairs : Pairs (c ∷ bs) = (r.allocated_beside, side.pairs) in
    record {
      free_side = give-free u hd c fs k.0 d r.outside r.free_beside f;
      allocated_side = give_rest u hd c bs k d out pairs cells;
      desc = d;
      across = All-row c fs bs r.free_beside h.across;
    }
