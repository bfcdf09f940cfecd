-- ===== src/OsAlloc/FirstFit.antt =====
-- `OSAllocFromHeap` against its specification on lists of blocks: the first free block that is large
-- enough is handed out, and its rest goes back in its place if it can hold a block.
use gamecube_port.Base.{
  ℕ, zero, suc, ◌+◌, ◌-◌, ◌≤◌, ◌<◌, ◌^◌, ◌≡◌, refl, List, [], ◌∷◌, ◌++◌, arith, All, length,
  head_or, Option, none, some, leb, ltb, true, false, Bool-cases, inl, inr, if◌then◌else◌, ap, ◌⊎◌,
}
use gamecube_port.Base.Int.{sle32}
use gamecube_port.GcMem.{Mem, field, add32}
use gamecube_port.GcMem.Dll.{Dll}
use gamecube_port.GcMem.Unhook.{nonzero}
use gamecube_port.OsAlloc.{cell_next, cell_prev, heapdesc_size}
use gamecube_port.OsAlloc.Heaps.{find_fit, take_whole, take_part}
use gamecube_port.OsAlloc.Blocks.{Block, addrs, Beside, IsBlock, IsHeap}
use gamecube_port.OsAlloc.Give.{give, give-IsHeap}
use gamecube_port.OsAlloc.Members.{All-take, All-put, Pairs-take, Within, shrink}
use gamecube_port.OsAlloc.Take.{IsLinked}
use gamecube_port.OsAlloc.Whole.{take_whole-IsLinked}
use gamecube_port.OsAlloc.Part.{take_part-IsLinked}

-- A request taken out of a block that is large enough, with the free blocks behind.
abbrev pub carve : (req : ℕ) → Block → List Block → Block × List Block
carve req c ys =
    if ltb (c.1 - req) 64 then (c, ys) else ((c.0, req), (add32 c.0 req, c.1 - req) ∷ ys)

-- The block handed out, and the free blocks that are left.
abbrev pub first_fit : (req : ℕ) → List Block → Option (Block × List Block)
first_fit req [] = none
first_fit req (c ∷ cs) =
    let rest = first_fit req cs in
    if leb req c.1
    then some (carve req c cs)
    else elim rest [ none ↦ none | some r ↦ some (r.0, c ∷ r.1) ]

module _ (m : Mem) (req : ℕ) (small : req < 2 ^ 31) where
  fits : (s : ℕ) → s < 2 ^ 31 → sle32 req s ≡ leb req s
  fits s l = ground (arith, small, l)

  -- The loop stops at the first block that is large enough.
  pub find-found :
      (fuel p : ℕ) (xs : List Block) (c : Block) (ys : List Block)
      → length xs < fuel
      → All (λ d. d.1 < req) xs
      → req ≤ c.1
      → All (IsBlock m) (xs ++ (c ∷ ys))
      → Dll cell_next cell_prev m p (addrs (xs ++ (c ∷ ys))) 0
      → find_fit fuel req (head_or (addrs (xs ++ (c ∷ ys))) 0) m ≡ some c.0
  unfolding find_fit
  find-found zero p xs c ys l s e k d = absurd (omega (arith, l))
  find-found (suc fuel) p [] c ys l s e k d =
      let t : leb req c.1 ≡ true = ground (arith, e) in
      rw (nonzero c.0 k.0.0, k.0.4, fits c.1 k.0.3, t) refl
  find-found (suc fuel) p (x ∷ xs) c ys l s e k d =
      let t : leb req x.1 ≡ false = ground (arith, s.0) in
      rw (nonzero x.0 k.0.0, k.0.4, fits x.1 k.0.3, t, d.0)
        (find-found fuel x.0 xs c ys (omega (arith, l)) s.1 e k.1 d.2)

  -- The loop runs to the end of the list if no block is.
  pub find-none :
      (fuel p : ℕ) (xs : List Block)
      → length xs < fuel
      → All (λ d. d.1 < req) xs
      → All (IsBlock m) xs
      → Dll cell_next cell_prev m p (addrs xs) 0
      → find_fit fuel req (head_or (addrs xs) 0) m ≡ some 0
  unfolding find_fit
  find-none zero p xs l s k d = absurd (omega (arith, l))
  find-none (suc fuel) p [] l s k d = refl
  find-none (suc fuel) p (x ∷ xs) l s k d =
      let t : leb req x.1 ≡ false = ground (arith, s.0) in
      rw (nonzero x.0 k.0.0, k.0.4, fits x.1 k.0.3, t, d.0)
        (find-none fuel x.0 xs (omega (arith, l)) s.1 k.1 d.2)

-- The first fit, with the blocks before and behind it.
pub record IsFirst (req : ℕ) (cs : List Block) : Type 0 where
  pub before : List Block
  pub block : Block
  pub after : List Block
  pub whole : cs ≡ before ++ (block ∷ after)
  pub too_small : All (λ d. d.1 < req) before
  pub fit : req ≤ block.1
  pub found :
      first_fit req cs ≡ some ((carve req block after).0, before ++ (carve req block after).1)

IsFirst-cons :
    (req : ℕ) (c : Block) (cs : List Block) → c.1 < req → IsFirst req cs → IsFirst req (c ∷ cs)
IsFirst-cons req c cs l r =
    let t : leb req c.1 ≡ false = ground (arith, l) in
    record {
      before = c ∷ r.before;
      block = r.block;
      after = r.after;
      whole = ap (λ z. c ∷ z) r.whole;
      too_small = (l, r.too_small);
      fit = r.fit;
      found = rw (t, r.found) refl;
    }

pub first_fit-cases :
    (req : ℕ) (cs : List Block)
    → (All (λ d. d.1 < req) cs × (first_fit req cs ≡ none)) ⊎ IsFirst req cs
first_fit-cases req [] = inl (tt, refl)
first_fit-cases req (c ∷ cs) = elim (Bool-cases (leb req c.1)) [
  | inl e ↦ inr (record {
    before = [];
    block = c;
    after = cs;
    whole = refl;
    too_small = tt;
    fit = ground (arith, e);
    found = rw (e) refl;
  })
  | inr e ↦
      let l : c.1 < req = ground (arith, e) in
      elim (first_fit-cases req cs) [
        | inl h ↦ inl ((l, h.0), rw (e, h.1) refl)
        | inr h ↦ inr (IsFirst-cons req c cs l h)
      ]
]

-- The block joins the allocated list of a heap that holds the other blocks.
joined :
    (u : Mem) (hd : ℕ) (c : Block) (fs bs : List Block)
    → IsLinked u hd c fs bs
    → All (Beside c) fs
    → All (Beside c) bs
    → Beside (hd, heapdesc_size) c
    → All (λ z. All (Beside z) bs) fs
    → IsHeap (give hd c.0 u) hd fs (c ∷ bs)
joined u hd c fs bs r bf bb o a =
    give-IsHeap u hd c fs bs
      (record {
        free_side = r.free_side;
        allocated_side = r.allocated_side;
        desc = r.desc;
        across = a;
      })
      (record { block = r.block; outside = o; free_beside = bf; allocated_beside = bb })

-- What the cell of the first fit becomes.
module _ (m : Mem) (hd req : ℕ) (xs : List Block) (c : Block) (ys bs : List Block)
    (r : IsHeap m hd (xs ++ (c ∷ ys)) bs) where
  pub whole-IsHeap :
      IsHeap
        (give hd c.0 (take_whole hd (field m c.0 cell_prev) (field m c.0 cell_next) m))
        hd
        (xs ++ ys)
        (c ∷ bs)
  whole-IsHeap =
      let o = All-take (Beside (hd, 12)) c ys xs r.free_side.outside in
      let p = Pairs-take xs c ys r.free_side.pairs in
      let a = All-take (λ z. All (Beside z) bs) c ys xs r.across in
      joined (take_whole hd (field m c.0 cell_prev) (field m c.0 cell_next) m) hd c (xs ++ ys) bs
        (take_whole-IsLinked m hd xs c ys bs r) p.0 a.0 o.0 a.1

pub part-IsHeap :
    (m : Mem) (hd : ℕ) (xs : List Block) (cell req left : ℕ) (ys bs : List Block)
    → 64 ≤ req
    → 64 ≤ left
    → IsHeap m hd (xs ++ ((cell, req + left) ∷ ys)) bs
    → IsHeap
        (give hd cell
          (take_part hd cell (field m cell cell_prev) (field m cell cell_next) req left m))
        hd
        (xs ++ ((add32 cell req, left) ∷ ys))
        ((cell, req) ∷ bs)
part-IsHeap m hd xs cell req left ys bs low rest r =
    let c : Block = (cell, req + left) in
    let c1 : Block = (cell, req) in
    let c2 : Block = (add32 cell req, left) in
    let o = All-take (Beside (hd, 12)) c ys xs r.free_side.outside in
    let k = All-take (IsBlock m) c ys xs r.free_side.blocks in
    let p = Pairs-take xs c ys r.free_side.pairs in
    let a = All-take (λ z. All (Beside z) bs) c ys xs r.across in
    let w : Within c c2 = omega (arith, k.0) in
    let v : Within c c1 = omega arith in
    joined (take_part hd cell (field m cell cell_prev) (field m cell cell_next) req left m) hd c1
      (xs ++ (c2 ∷ ys)) bs (take_part-IsLinked m hd xs cell req left ys bs low rest r)
      (All-put (Beside c1) c2 ys xs (omega (arith, k.0)) (shrink c c1 (xs ++ ys) v p.0))
      (shrink c c1 bs v a.0) (omega (arith, o.0))
      (All-put (λ z. All (Beside z) bs) c2 ys xs (shrink c c2 bs w a.0) a.1)
