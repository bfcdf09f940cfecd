-- ===== src/OsAlloc/Ends.antt =====
-- The stores that `OSAllocFromHeap` makes to the links of two neighbours in the free list, and what
-- they keep of the rest of the heap.
use gamecube_port.Base.{
  ℕ, ◌+◌, ◌≤◌, ◌^◌, ◌≡◌, ◌≢◌, ◌∙◌, List, [], ◌∷◌, arith, All, ◌⊎◌, inl, inr, ◌==◌, Bool-cases,
  if◌then◌else◌, true, false,
}
use gamecube_port.GcMem.{Mem, field, set_field, add32}
use gamecube_port.GcMem.Laws.{load_u32be-store_apart}
use gamecube_port.OsAlloc.{cell_next, cell_prev, hd_free, hd_allocated, heapdesc_size}
use gamecube_port.OsAlloc.Blocks.{
  Block, Beside, IsBlock, IsSide, SparesSize, Blocks-store, IsSide-store,
}

-- The stores of `v` and `w` to the links of `n` and `p`, of which either may be null.
abbrev pub ends : (p n v w : ℕ) → Mem → Mem
ends p n v w m =
    let m1 = if n == 0 then m else set_field m n cell_prev v in
    if p == 0 then m1 else set_field m1 p cell_next w

-- The cell at `z` is the block or lies outside it.
abbrev pub Sep : ℕ → Block → Type 0
Sep z d = (z ≡ d.0) ⊎ (z + 16 ≤ d.0) ⊎ (d.0 + d.1 ≤ z)

-- A cell of the heap: null, or apart from the descriptor, from the allocated blocks, and from each of
-- the blocks `all` but itself.
abbrev pub Member : (hd : ℕ) (all allocated : List Block) → ℕ → Type 0
Member hd all allocated z =
    (z + 16 ≤ 2 ^ 32)
    × All (Sep z) all
    × All (Beside (z, 16)) allocated
    × Beside (hd, heapdesc_size) (z, 16)

-- What the stores keep: the allocated list, the lengths, and the head of the free list.
pub record Rest (m0 : Mem) (hd : ℕ) (all allocated : List Block) (m : Mem) : Type 0 where
  pub side : IsSide m hd hd_allocated allocated
  pub blocks : All (IsBlock m) all
  pub head : field m hd hd_free ≡ field m0 hd hd_free

module _ (m0 : Mem) (hd : ℕ) (all allocated : List Block) (room : hd + heapdesc_size ≤ 2 ^ 32) where
  spares :
      (z f : ℕ) (cs : List Block)
      → f ≤ 4
      → z + 16 ≤ 2 ^ 32
      → (m : Mem) → All (IsBlock m) cs
      → All (Sep z) cs
      → All (SparesSize (add32 z f)) cs
  spares z f [] i l m k s = tt
  spares z f (c ∷ cs) i l m k s = (omega (arith, s.0, k.0), spares z f cs i l m k.1 s.1)

  set-Rest :
      (m : Mem) (z f v : ℕ)
      → f ≤ 4
      → Member hd all allocated z
      → Rest m0 hd all allocated m
      → Rest m0 hd all allocated (set_field m z f v)
  set-Rest m z f v i h r = record {
    side =
        IsSide-store m (z, 16) (add32 z f) (omega (arith, h)) (omega (arith, h)) v hd hd_allocated
          allocated (omega (arith, h, room)) h.2 r.side;
    blocks = Blocks-store m (add32 z f) v all r.blocks (spares z f all i h.0 m r.blocks h.1);
    head = load_u32be-store_apart m (add32 z f) (add32 hd 4) v (omega (arith, h, room)) ∙ r.head;
  }

  pub ends-Rest :
      (m : Mem) (p n v w : ℕ)
      → (p ≢ 0 → Member hd all allocated p)
      → (n ≢ 0 → Member hd all allocated n)
      → Rest m0 hd all allocated m
      → Rest m0 hd all allocated (ends p n v w m)
  ends-Rest m p n v w hp hn r = second (Bool-cases (p == 0)) (first (Bool-cases (n == 0)))
    where
      first :
          ((n == 0) ≡ true) ⊎ ((n == 0) ≡ false)
          → Rest m0 hd all allocated (if n == 0 then m else set_field m n cell_prev v)
      first (inl e) = rw (e) r
      first (inr e) = rw (e) (set-Rest m n 0 v (omega arith) (hn (ground (arith, e))) r)

      second :
          ((p == 0) ≡ true) ⊎ ((p == 0) ≡ false)
          → Rest m0 hd all allocated (if n == 0 then m else set_field m n cell_prev v)
          → Rest m0 hd all allocated (ends p n v w m)
      second (inl e) k = rw (e) k
      second (inr e) k = rw (e) (
          set-Rest (if n == 0 then m else set_field m n cell_prev v) p 4 w (omega arith)
            (hp (ground (arith, e))) k)
