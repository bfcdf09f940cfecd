-- ===== src/OsAlloc/Take.antt =====
-- `OSAllocFromHeap` takes a whole cell out of the free list.
use mathlib.Core.Path.{subst}
use gamecube_port.Base.{
  ℕ, ◌+◌, ◌≤◌, ◌<◌, ◌^◌, ◌≡◌, ◌≢◌, refl, sym, ◌∙◌, List, ◌∷◌, arith, All, inl, inr, ◌==◌,
  Bool-cases, if◌then◌else◌,
}
use gamecube_port.GcMem.{Mem, Mapped, field, set_field, add32}
use gamecube_port.GcMem.Laws.{field-set_self}
use gamecube_port.OsAlloc.{cell_next, cell_prev, hd_free, hd_allocated, heapdesc_size}
use gamecube_port.OsAlloc.Lists.{IsCells}
use gamecube_port.OsAlloc.Blocks.{
  Block, addrs, Beside, Pairs, IsBlock, IsSide, IsCells-store, Blocks-store, Beside-SparesLinks,
  Beside-SparesSize, IsSide-store,
}
use gamecube_port.OsAlloc.Ends.{ends, Rest, Member, ends-Rest}

-- The stores to the neighbours, and to the descriptor where there is none before.
abbrev pub link : (hd p n v w : ℕ) → Mem → Mem
link hd p n v w m =
    let m1 = if n == 0 then m else set_field m n cell_prev v in
    if p == 0 then set_field m1 hd hd_free w else set_field m1 p cell_next w

link-ends :
    (hd p n v w : ℕ) (m : Mem)
    → link hd p n v w m
      ≡ (if p == 0 then set_field (ends p n v w m) hd hd_free w else ends p n v w m)
link-ends hd p n v w m = elim (Bool-cases (p == 0)) [ inl e ↦ rw (e) refl | inr e ↦ rw (e) refl ]

-- What a heap is with its free list `fs`, and the block `c` outside its lists.
pub record IsLinked (m : Mem) (hd : ℕ) (c : Block) (fs bs : List Block) : Type 0 where
  pub free_side : IsSide m hd hd_free fs
  pub allocated_side : IsSide m hd hd_allocated bs
  pub block : IsBlock m c
  pub desc : Mapped m hd heapdesc_size

module _ (m0 : Mem) (hd : ℕ) (c : Block) (fs bs : List Block) (u : Mem) where
  module _ (d : Mapped u hd heapdesc_size) (r : Rest m0 hd (c ∷ fs) bs u) (h : ℕ)
      (cells : IsCells u h (addrs fs)) (lt : h < 2 ^ 32)
      (o : All (Beside (hd, heapdesc_size)) (c ∷ fs)) (p : Pairs fs) where
    lo : hd ≤ add32 hd hd_free
    lo = omega (arith, d)

    hi : add32 hd hd_free + 4 ≤ hd + heapdesc_size
    hi = omega (arith, d)

    -- The head is stored.
    stored-IsLinked : IsLinked (set_field u hd hd_free h) hd c fs bs
    stored-IsLinked =
        let links = Beside-SparesLinks u (hd, 12) (add32 hd 4) lo hi fs r.blocks.1 o.1 in
        let sizes = Beside-SparesSize u (hd, 12) (add32 hd 4) lo hi (c ∷ fs) r.blocks o in
        let k = Blocks-store u (add32 hd 4) h (c ∷ fs) r.blocks sizes in
        record {
          free_side = record {
            cells =
                subst (λ l. IsCells (set_field u hd 4 h) l (addrs fs))
                  (sym (field-set_self u 12 hd d 4 h (omega arith) lt))
                  (IsCells-store u (add32 hd 4) h h (addrs fs) cells links);
            blocks = k.1;
            outside = o.1;
            pairs = p;
          };
          allocated_side =
              IsSide-store u (hd, 12) (add32 hd 4) lo hi h hd 8 bs (omega (arith, d)) r.side.outside
                r.side;
          block = k.0;
          desc = d;
        }

    -- The head stays.
    kept-IsLinked : h ≡ field m0 hd hd_free → IsLinked u hd c fs bs
    kept-IsLinked e = record {
      free_side = record {
        cells = subst (λ l. IsCells u l (addrs fs)) (e ∙ sym r.head) cells;
        blocks = r.blocks.1;
        outside = o.1;
        pairs = p;
      };
      allocated_side = r.side;
      block = r.blocks.0;
      desc = d;
    }

    choice-IsLinked :
        (q w : ℕ)
        → (q ≡ 0 → w ≡ h)
        → (q ≢ 0 → h ≡ field m0 hd hd_free)
        → IsLinked (if q == 0 then set_field u hd hd_free w else u) hd c fs bs
    choice-IsLinked q w i j = elim (Bool-cases (q == 0)) [
      | inl e ↦ rw (e, i (ground (arith, e))) stored-IsLinked
      | inr e ↦ rw (e) (kept-IsLinked (j (ground (arith, e))))
    ]

pub ends-Mapped : (p n v w : ℕ) (m : Mem) (a k : ℕ) → Mapped m a k → Mapped (ends p n v w m) a k
ends-Mapped p n v w m a k h = elim (Bool-cases (n == 0)) [
  | inl e ↦ elim (Bool-cases (p == 0)) [ inl f ↦ rw (e, f) h | inr f ↦ rw (e, f) h ]
  | inr e ↦ elim (Bool-cases (p == 0)) [ inl f ↦ rw (e, f) h | inr f ↦ rw (e, f) h ]
]

-- The new links of the neighbours make `fs` the free list.
pub link-IsLinked :
    (m0 m : Mem) (hd p n v w : ℕ) (c : Block) (fs bs : List Block)
    → Mapped m hd heapdesc_size
    → Rest m0 hd (c ∷ fs) bs m
    → (p ≢ 0 → Member hd (c ∷ fs) bs p)
    → (n ≢ 0 → Member hd (c ∷ fs) bs n)
    → (h : ℕ) → IsCells (ends p n v w m) h (addrs fs)
    → h < 2 ^ 32
    → All (Beside (hd, heapdesc_size)) (c ∷ fs)
    → Pairs fs
    → (p ≡ 0 → w ≡ h)
    → (p ≢ 0 → h ≡ field m0 hd hd_free)
    → IsLinked (link hd p n v w m) hd c fs bs
link-IsLinked m0 m hd p n v w c fs bs d r mp mn h cells lt o ps i j =
    subst (λ u. IsLinked u hd c fs bs) (sym (link-ends hd p n v w m))
      (choice-IsLinked m0 hd c fs bs (ends p n v w m) (ends-Mapped p n v w m hd 12 d)
        (ends-Rest m0 hd (c ∷ fs) bs (omega (arith, d)) m p n v w mp mn r) h cells lt o ps p w i j)
