-- ===== src/OsAlloc/Alloc.antt =====
-- `OSAllocFromHeap` as a whole: what it returns and what it leaves, for every request.
use mathlib.Core.Path.{subst}
use gamecube_port.Base.{
  ℕ, ◌+◌, ◌-◌, ◌≤◌, ◌<◌, ◌^◌, ◌≡◌, ◌≢◌, refl, sym, ◌∙◌, List, ◌∷◌, ◌++◌, arith, All, ap, length,
  length-append, Option, none, some, ltb, ◌==◌, true, false, Bool-cases, inl, inr, if◌then◌else◌,
}
use gamecube_port.Base.Int.{slt32, sle32}
use gamecube_port.GcMem.{Mem, field, add32, sub32}
use gamecube_port.GcMem.Unhook.{nonzero}
use gamecube_port.OsAlloc.{cell_size, hd_size, hd_free, header}
use gamecube_port.OsAlloc.Heaps.{
  AllocState, current, is_heap, heap_desc, round_up, round_down, find_fit, take_cell,
  alloc_from_heap,
}
use gamecube_port.OsAlloc.Blocks.{Block, IsBlock, IsHeap}
use gamecube_port.OsAlloc.Members.{All-take}
use gamecube_port.OsAlloc.FirstFit.{
  carve, first_fit, find-found, find-none, first_fit-cases, whole-IsHeap, part-IsHeap,
}

-- The memory behind the call holds the heap that the specification gives.
carve-IsHeap :
    (m : Mem) (hd req : ℕ) (xs : List Block) (c : Block) (ys bs : List Block)
    → 64 ≤ req
    → req ≤ c.1
    → IsHeap m hd (xs ++ (c ∷ ys)) bs
    → IsHeap (take_cell hd c.0 req m) hd (xs ++ (carve req c ys).1) ((carve req c ys).0 ∷ bs)
unfolding take_cell
carve-IsHeap m hd req xs c ys bs low fit r =
    let k = (All-take (IsBlock m) c ys xs r.free_side.blocks).0 in
    let size : field m c.0 cell_size ≡ c.1 = k.4 in
    let sub : sub32 c.1 req ≡ c.1 - req = omega (arith, k, fit) in
    elim (Bool-cases (ltb (c.1 - req) 64)) [
      | inl e ↦ rw (size, sub, e) (whole-IsHeap m hd req xs c ys bs r)
      | inr e ↦
          let split : c ≡ (c.0, req + (c.1 - req)) = ap (λ z. (c.0, z)) (omega (arith, fit)) in
          rw (size, sub, e)
            (part-IsHeap m hd xs c.0 req (c.1 - req) ys bs low (ground (arith, e))
              (subst (λ z. IsHeap m hd (xs ++ (z ∷ ys)) bs) split r))
    ]

carve_addr : (req : ℕ) (c : Block) (ys : List Block) → c.0 ≡ (carve req c ys).0.0
carve_addr req c ys = elim (Bool-cases (ltb (c.1 - req) 64)) [
  | inl e ↦ rw (e) refl
  | inr e ↦ rw (e) refl
]

-- What a call returns and leaves, given the choice of the specification.
abbrev pub Serves : Option (ℕ × Mem) → Mem → ℕ → List Block → Option (Block × List Block) → Type 0
Serves out m hd allocated none = out ≡ some (0, m)
Serves out m hd allocated (some r) =
    (m' : Mem) × (out ≡ some (r.0.0 + header, m')) × IsHeap m' hd r.1 (r.0 ∷ allocated)

-- The search and what follows it, behind the guards.
module _ (m : Mem) (hd req fuel : ℕ) where
  abbrev served : Option (ℕ × Mem)
  served = elim (find_fit fuel req (field m hd hd_free) m) [
    | none ↦ none
    | some cell ↦ some (if cell == 0 then (0, m) else (add32 cell header, take_cell hd cell req m))
  ]

  served-none : find_fit fuel req (field m hd hd_free) m ≡ some 0 → served ≡ some (0, m)
  served-none e = rw (served, e) refl

  served-some :
      (cell : ℕ)
      → find_fit fuel req (field m hd hd_free) m ≡ some cell
      → cell ≢ 0
      → cell + header ≤ 2 ^ 32 - 1
      → served ≡ some (cell + header, take_cell hd cell req m)
  served-some cell e h l =
      let a : add32 cell header ≡ cell + header = omega (arith, l) in
      rw (served, e, nonzero cell h, a) refl

  nothing-Serves :
      (free bs : List Block)
      → IsHeap m hd free bs
      → req < 2 ^ 31
      → length free < fuel
      → All (λ d. d.1 < req) free
      → served ≡ some (0, m)
  nothing-Serves free bs r small l h = served-none (
      ap (λ p. find_fit fuel req p m) r.free_side.cells.head
      ∙ find-none m req small fuel 0 free l h r.free_side.blocks r.free_side.cells.links)

module _ (m : Mem) (hd req fuel : ℕ) (xs : List Block) (c : Block) (ys bs : List Block) where
  block-Serves :
      IsHeap m hd (xs ++ (c ∷ ys)) bs
      → 64 ≤ req
      → req < 2 ^ 31
      → length (xs ++ (c ∷ ys)) < fuel
      → All (λ d. d.1 < req) xs
      → req ≤ c.1
      → Serves (served m hd req fuel) m hd bs (some ((carve req c ys).0, xs ++ (carve req c ys).1))
  block-Serves r low small l s fit =
      let k = (All-take (IsBlock m) c ys xs r.free_side.blocks).0 in
      let near : length xs < fuel = omega (arith, l, length-append xs (c ∷ ys)) in
      let e =
        ap (λ p. find_fit fuel req p m) r.free_side.cells.head
        ∙ find-found m req small fuel 0 xs c ys near s fit r.free_side.blocks
            r.free_side.cells.links in
      (
        take_cell hd c.0 req m,
        served-some m hd req fuel c.0 e k.0 (omega (arith, k))
            ∙ ap (λ z. some (z + header, take_cell hd c.0 req m)) (carve_addr req c ys),
        carve-IsHeap m hd req xs c ys bs low fit r,
      )

served-Serves :
    (m : Mem) (hd req fuel : ℕ) (free bs : List Block)
    → IsHeap m hd free bs
    → 64 ≤ req
    → req < 2 ^ 31
    → length free < fuel
    → Serves (served m hd req fuel) m hd bs (first_fit req free)
served-Serves m hd req fuel free bs r low small l = elim (first_fit-cases req free) [
  | inl h ↦
      subst (Serves (served m hd req fuel) m hd bs) (sym h.1)
        (nothing-Serves m hd req fuel free bs r small l h.0)
  | inr f ↦ subst (Serves (served m hd req fuel) m hd bs) (sym f.found) (
      block-Serves m hd req fuel f.before f.block f.after bs
        (subst (λ z. IsHeap m hd z bs) f.whole r) low small (subst (λ z. length z < fuel) f.whole l)
        f.too_small f.fit)
]

-- Behind the guards of the call.
guarded :
    (m : Mem) (st : AllocState) (heap size fuel : ℕ)
    → is_heap (current st m) heap ≡ true
    → slt32 (field m (heap_desc (current st m).heap_array heap) hd_size) 0 ≡ false
    → 0 < size
    → size + 63 < 2 ^ 31
    → alloc_from_heap fuel heap size st m
      ≡ served m (heap_desc (current st m).heap_array heap) (round_up (size + header)) fuel
unfolding alloc_from_heap
guarded m st heap size fuel live alive pos lt =
    let a : sle32 size 0 ≡ false = ground (arith, pos, lt) in
    let b : add32 size header ≡ size + header = omega (arith, lt) in
    step a ∙ ap (λ z. served m (heap_desc (current st m).heap_array heap) (round_up z) fuel) b
  where
    step :
        sle32 size 0 ≡ false
        → alloc_from_heap fuel heap size st m
          ≡ served m (heap_desc (current st m).heap_array heap) (round_up (add32 size header)) fuel
    step a = rw (a, live, alive, served) refl

request_bounds :
    (size : ℕ)
    → 0 < size
    → size + 63 < 2 ^ 31
    → (64 ≤ round_up (size + header)) × (round_up (size + header) < 2 ^ 31)
unfolding round_up round_down
request_bounds size pos lt = (ground (arith, pos, lt), ground (arith, pos, lt))

-- A call on a heap that is live, for a positive size that does not overflow: with enough fuel for the
-- free list it returns the address behind the header of the block that the first fit hands out, and
-- leaves the heap with that block first in the allocated list and the free list of the first fit, or it
-- returns null and leaves memory alone if no free block is large enough.
pub alloc_from_heap-first_fit :
    (m : Mem) (st : AllocState) (heap size fuel : ℕ) (free allocated : List Block)
    → IsHeap m (heap_desc (current st m).heap_array heap) free allocated
    → is_heap (current st m) heap ≡ true
    → slt32 (field m (heap_desc (current st m).heap_array heap) hd_size) 0 ≡ false
    → 0 < size
    → size + 63 < 2 ^ 31
    → length free < fuel
    → Serves
        (alloc_from_heap fuel heap size st m)
        m
        (heap_desc (current st m).heap_array heap)
        allocated
        (first_fit (round_up (size + header)) free)
alloc_from_heap-first_fit m st heap size fuel free bs r live alive pos lt l =
    let hd = heap_desc (current st m).heap_array heap in
    let req = round_up (size + header) in
    let (low, small) = request_bounds size pos lt in
    subst (λ out. Serves out m hd bs (first_fit req free))
      (sym (guarded m st heap size fuel live alive pos lt))
      (served-Serves m hd req fuel free bs r low small l)
