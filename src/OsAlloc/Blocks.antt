-- ===== src/OsAlloc/Blocks.antt =====
-- A heap of sdk_port/os/OSAlloc.c as two lists of blocks, each an address and a length, and what a
-- store that spares their headers keeps of it.
use mathlib.Core.Path.{subst}
use gamecube_port.Base.{
  ℕ, sym, ◌+◌, ◌≤◌, ◌<◌, ◌^◌, ◌≡◌, ◌≢◌, refl, ◌∙◌, ap, List, [], ◌∷◌, ◌++◌, arith, All, ◌⊎◌, inl,
  inr,
}
use gamecube_port.GcMem.{Mem, Mapped, Apart, field, add32, store_u32be}
use gamecube_port.GcMem.Laws.{Mapped-prefix, load_u32be-store_apart}
use gamecube_port.GcMem.Chain.{Distinct}
use gamecube_port.GcMem.Dll.{Dll, Nodes}
use gamecube_port.OsAlloc.{cell_size, cell_prev, cell_next, hd_free, hd_allocated, heapdesc_size}
use gamecube_port.OsAlloc.Lists.{IsCells, cell_bytes}

-- the address and the length, header included
abbrev pub Block : Type 0
Block = ℕ × ℕ

abbrev pub addrs : List Block → List ℕ
addrs [] = []
addrs (c ∷ cs) = c.0 ∷ addrs cs

abbrev pub Beside : Block → Block → Type 0
Beside c d = (c.0 + c.1 ≤ d.0) ⊎ (d.0 + d.1 ≤ c.0)

abbrev pub Pairs : List Block → Type 0
Pairs [] = Unit
Pairs (c ∷ cs) = All (Beside c) cs × Pairs cs

-- From 64 bytes of emulated RAM up to half the address space, whose header holds the length.
abbrev pub IsBlock : Mem → Block → Type 0
IsBlock m c =
    (c.0 ≢ 0) × Mapped m c.0 c.1 × (64 ≤ c.1) × (c.1 < 2 ^ 31) × (field m c.0 cell_size ≡ c.1)

-- The list that the descriptor at `hd` names in its word `off`: no block overlaps another one or the
-- descriptor.
pub record IsSide (m : Mem) (hd off : ℕ) (cs : List Block) : Type 0 where
  pub cells : IsCells m (field m hd off) (addrs cs)
  pub blocks : All (IsBlock m) cs
  pub outside : All (Beside (hd, heapdesc_size)) cs
  pub pairs : Pairs cs

-- The two lists of a descriptor; no block of one overlaps a block of the other.
pub record IsHeap (m : Mem) (hd : ℕ) (free allocated : List Block) : Type 0 where
  pub free_side : IsSide m hd hd_free free
  pub allocated_side : IsSide m hd hd_allocated allocated
  pub desc : Mapped m hd heapdesc_size
  pub across : All (λ c. All (Beside c) allocated) free

pub addrs-append : (xs ys : List Block) → addrs (xs ++ ys) ≡ addrs xs ++ addrs ys
addrs-append [] ys = refl
addrs-append (x ∷ xs) ys = ap (λ zs. x.0 ∷ zs) (addrs-append xs ys)

pub Beside-sym : (c d : Block) → Beside c d → Beside d c
Beside-sym c d (inl a) = inr a
Beside-sym c d (inr a) = inl a

-- From each block of the second list to all of the first.
pub All-column :
    (xs ys : List Block) → All (λ c. All (Beside c) ys) xs → All (λ d. All (Beside d) xs) ys
All-column [] [] h = tt
All-column [] (y ∷ ys) h = (tt, All-column [] ys tt)
All-column (x ∷ xs) ys h = zip ys h.0 (All-column xs ys h.1)
  where
    zip :
        (zs : List Block)
        → All (Beside x) zs
        → All (λ d. All (Beside d) xs) zs
        → All (λ d. All (Beside d) (x ∷ xs)) zs
    zip [] a b = tt
    zip (z ∷ zs) a b = ((Beside-sym x z a.0, b.0), zip zs a.1 b.1)

-- One more block in front of the second list.
pub All-row :
    (c : Block) (xs ys : List Block)
    → All (Beside c) xs
    → All (λ d. All (Beside d) ys) xs
    → All (λ d. All (Beside d) (c ∷ ys)) xs
All-row c [] ys a b = tt
All-row c (x ∷ xs) ys a b = ((Beside-sym c x a.0, b.0), All-row c xs ys a.1 b.1)

-- Blocks beside each other have headers apart from each other.
module _ (m : Mem) where
  pub addrs-Node : (cs : List Block) → All (IsBlock m) cs → Nodes m cell_bytes (addrs cs)
  addrs-Node [] h = tt
  addrs-Node (c ∷ cs) h =
      ((h.0.0, Mapped-prefix m c.0 c.1 cell_bytes h.0.1 (omega (arith, h.0))), addrs-Node cs h.1)

  pub Beside-Apart :
      (c d : Block) → IsBlock m c → IsBlock m d → Beside c d → Apart cell_bytes c.0 d.0
  Beside-Apart c d h k b = omega (arith, h, k, b)

  pub addrs-Apart :
      (c : Block) (cs : List Block)
      → IsBlock m c
      → All (IsBlock m) cs
      → All (Beside c) cs
      → All (Apart cell_bytes c.0) (addrs cs)
  addrs-Apart c [] h k b = tt
  addrs-Apart c (d ∷ cs) h k b = (Beside-Apart c d h k.0 b.0, addrs-Apart c cs h k.1 b.1)

  pub addrs-Distinct :
      (cs : List Block) → All (IsBlock m) cs → Pairs cs → Distinct cell_bytes (addrs cs)
  addrs-Distinct [] h p = tt
  addrs-Distinct (c ∷ cs) h p = (addrs-Apart c cs h.0 h.1 p.0, addrs-Distinct cs h.1 p.1)

-- A store at `w` that is not to the links of a cell.
abbrev pub SparesLinks : ℕ → ℕ → Type 0
SparesLinks w x = (w + 4 ≤ x) ⊎ (x + 8 ≤ w)

-- A store at `w` that is not to the length in the header.
abbrev pub SparesSize : ℕ → Block → Type 0
SparesSize w c = (w + 4 ≤ c.0 + 8) ⊎ (c.0 + 12 ≤ w)

module _ (m : Mem) (w v : ℕ) where
  pub Dll-store :
      (p : ℕ) (xs : List ℕ) (e : ℕ)
      → Nodes m cell_bytes xs
      → All (SparesLinks w) xs
      → Dll cell_next cell_prev m p xs e
      → Dll cell_next cell_prev (store_u32be m w v) p xs e
  Dll-store p [] e n s d = tt
  Dll-store p (x ∷ xs) e n s d = (
    load_u32be-store_apart m w (add32 x 4) v (omega (arith, n.0, s.0)) ∙ d.0,
    load_u32be-store_apart m w (add32 x 0) v (omega (arith, n.0, s.0)) ∙ d.1,
    Dll-store x xs e n.1 s.1 d.2,
  )

  pub IsCells-store :
      (list : ℕ) (xs : List ℕ)
      → IsCells m list xs
      → All (SparesLinks w) xs
      → IsCells (store_u32be m w v) list xs
  IsCells-store list xs r s = record {
    head = r.head;
    links = Dll-store 0 xs 0 r.nodes s r.links;
    nodes = r.nodes;
    distinct = r.distinct;
  }

  pub Blocks-store :
      (cs : List Block)
      → All (IsBlock m) cs
      → All (SparesSize w) cs
      → All (IsBlock (store_u32be m w v)) cs
  Blocks-store [] h s = tt
  Blocks-store (c ∷ cs) h s = (
    (
      h.0.0,
      h.0.1,
      h.0.2,
      h.0.3,
      load_u32be-store_apart m w (add32 c.0 8) v (omega (arith, h.0, s.0)) ∙ h.0.4,
    ),
    Blocks-store cs h.1 s.1,
  )

-- A store inside `b` spares the blocks beside `b`.
module _ (m : Mem) (b : Block) (w : ℕ) (lo : b.0 ≤ w) (hi : w + 4 ≤ b.0 + b.1) where
  pub Beside-SparesLinks :
      (cs : List Block) → All (IsBlock m) cs → All (Beside b) cs → All (SparesLinks w) (addrs cs)
  Beside-SparesLinks [] h s = tt
  Beside-SparesLinks (c ∷ cs) h s = (omega (arith, h.0, s.0), Beside-SparesLinks cs h.1 s.1)

  pub Beside-SparesSize :
      (cs : List Block) → All (IsBlock m) cs → All (Beside b) cs → All (SparesSize w) cs
  Beside-SparesSize [] h s = tt
  Beside-SparesSize (c ∷ cs) h s = (omega (arith, h.0, s.0), Beside-SparesSize cs h.1 s.1)

  pub IsSide-store :
      (v hd off : ℕ) (cs : List Block)
      → (w + 4 ≤ add32 hd off) ⊎ (add32 hd off + 4 ≤ w)
      → All (Beside b) cs
      → IsSide m hd off cs
      → IsSide (store_u32be m w v) hd off cs
  IsSide-store v hd off cs spares s r = record {
    cells =
        subst (λ l. IsCells (store_u32be m w v) l (addrs cs))
          (sym (load_u32be-store_apart m w (add32 hd off) v spares))
          (IsCells-store m w v (field m hd off) (addrs cs) r.cells
            (Beside-SparesLinks cs r.blocks s));
    blocks = Blocks-store m w v cs r.blocks (Beside-SparesSize cs r.blocks s);
    outside = r.outside;
    pairs = r.pairs;
  }
