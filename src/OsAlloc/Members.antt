-- ===== src/OsAlloc/Members.antt =====
-- The blocks of a heap one by one: taking one out of the free list, putting one in, and how the others
-- lie around it.
use mathlib.Core.Path.{subst}
use gamecube_port.Base.{
  ℕ, ◌+◌, ◌≤◌, ◌≢◌, refl, List, [], ◌∷◌, ◌++◌, arith, All, inl, inr, head_or, last_or,
}
use gamecube_port.GcMem.{Mem}
use gamecube_port.GcMem.Chain.{All-last}
use gamecube_port.GcMem.Dll.{All-split, All-join}
use gamecube_port.OsAlloc.{heapdesc_size}
use gamecube_port.OsAlloc.Blocks.{Block, addrs, addrs-append, Beside, Beside-sym, Pairs, IsBlock}
use gamecube_port.OsAlloc.Ends.{Sep, Member}

module _ (P : Block → Type 0) (c : Block) (ys : List Block) where
  pub All-take : (xs : List Block) → All P (xs ++ (c ∷ ys)) → P c × All P (xs ++ ys)
  All-take xs h = let (a, b) = All-split P xs (c ∷ ys) h in (b.0, All-join P xs ys a b.1)

  pub All-put : (xs : List Block) → P c → All P (xs ++ ys) → All P (xs ++ (c ∷ ys))
  All-put xs p h = let (a, b) = All-split P xs ys h in All-join P xs (c ∷ ys) a (p, b)

pub Pairs-take :
    (xs : List Block) (c : Block) (ys : List Block)
    → Pairs (xs ++ (c ∷ ys))
    → All (Beside c) (xs ++ ys) × Pairs (xs ++ ys)
Pairs-take [] c ys p = p
Pairs-take (x ∷ xs) c ys p =
    let (b, q) = Pairs-take xs c ys p.1 in
    let (s, t) = All-take (Beside x) c ys xs p.0 in ((Beside-sym x c s, b), (t, q))

pub Pairs-put :
    (xs : List Block) (c : Block) (ys : List Block)
    → All (Beside c) (xs ++ ys)
    → Pairs (xs ++ ys)
    → Pairs (xs ++ (c ∷ ys))
Pairs-put [] c ys b p = (b, p)
Pairs-put (x ∷ xs) c ys b p =
    (All-put (Beside x) c ys xs (Beside-sym c x b.0) p.0, Pairs-put xs c ys b.1 p.1)

-- A property of the addresses of blocks, at the last one before a place and the first one behind it.
module _ (P : ℕ → Type 0) where
  last_member : (zs : List ℕ) → All P zs → last_or zs 0 ≢ 0 → P (last_or zs 0)
  last_member [] h a = absurd (a refl)
  last_member (z ∷ zs) h a = All-last P z zs h

  head_member : (zs : List ℕ) → All P zs → head_or zs 0 ≢ 0 → P (head_or zs 0)
  head_member [] h a = absurd (a refl)
  head_member (z ∷ zs) h a = h.0

  pub last_lem :
      (xs ys : List Block)
      → All P (addrs (xs ++ ys))
      → last_or (addrs xs) 0 ≢ 0
      → P (last_or (addrs xs) 0)
  last_lem xs ys h =
      last_member (addrs xs)
        (All-split P (addrs xs) (addrs ys) (subst (All P) (addrs-append xs ys) h)).0

  pub head_lem :
      (xs ys : List Block)
      → All P (addrs (xs ++ ys))
      → head_or (addrs ys) 0 ≢ 0
      → P (head_or (addrs ys) 0)
  head_lem xs ys h =
      head_member (addrs ys)
        (All-split P (addrs xs) (addrs ys) (subst (All P) (addrs-append xs ys) h)).1

  pub head_behind :
      (xs : List Block) (c : Block) (ys : List Block)
      → All P (addrs (xs ++ (c ∷ ys)))
      → head_or (addrs ys) 0 ≢ 0
      → P (head_or (addrs ys) 0)
  head_behind xs c ys h =
      head_member (addrs ys)
        (All-split P (addrs xs) (c.0 ∷ addrs ys) (subst (All P) (addrs-append xs (c ∷ ys)) h)).1.1

-- A part of a block is beside what the block is beside.
abbrev pub Within : Block → Block → Type 0
Within c d = (c.0 ≤ d.0) × (d.0 + d.1 ≤ c.0 + c.1)

pub shrink : (c d : Block) (cs : List Block) → Within c d → All (Beside c) cs → All (Beside d) cs
shrink c d [] w h = tt
shrink c d (e ∷ cs) w h = (omega (arith, w, h.0), shrink c d cs w h.1)

-- Blocks beside each other, as cells.
module _ (m : Mem) where
  Seps-row :
      (c : Block) (cs : List Block)
      → IsBlock m c
      → All (IsBlock m) cs
      → All (Beside c) cs
      → All (Sep c.0) cs
  Seps-row c [] k h b = tt
  Seps-row c (d ∷ cs) k h b = (inr (omega (arith, k, h.0, b.0)), Seps-row c cs k h.1 b.1)

  Seps-add :
      (c : Block) (cs ds : List Block)
      → IsBlock m c
      → All (IsBlock m) ds
      → All (Beside c) ds
      → All (λ d. All (Sep d.0) cs) ds
      → All (λ d. All (Sep d.0) (c ∷ cs)) ds
  Seps-add c cs [] k h b s = tt
  Seps-add c cs (d ∷ ds) k h b s =
      ((inr (omega (arith, k, h.0, b.0)), s.0), Seps-add c cs ds k h.1 b.1 s.1)

  Seps : (cs : List Block) → All (IsBlock m) cs → Pairs cs → All (λ d. All (Sep d.0) cs) cs
  Seps [] h p = tt
  Seps (c ∷ cs) h p =
      ((inl refl, Seps-row c cs h.0 h.1 p.0), Seps-add c cs cs h.0 h.1 p.0 (Seps cs h.1 p.1))

  Beside-prefix :
      (c : Block) (bs : List Block) → IsBlock m c → All (Beside c) bs → All (Beside (c.0, 16)) bs
  Beside-prefix c [] k h = tt
  Beside-prefix c (b ∷ bs) k h = (omega (arith, k, h.0), Beside-prefix c bs k h.1)

  Members-join :
      (hd : ℕ) (all bs cs : List Block)
      → All (IsBlock m) cs
      → All (λ d. All (Sep d.0) all) cs
      → All (λ d. All (Beside d) bs) cs
      → All (Beside (hd, heapdesc_size)) cs
      → All (Member hd all bs) (addrs cs)
  Members-join hd all bs [] h s a o = tt
  Members-join hd all bs (c ∷ cs) h s a o = (
    (omega (arith, h.0), s.0, Beside-prefix c bs h.0 a.0, omega (arith, h.0, o.0)),
    Members-join hd all bs cs h.1 s.1 a.1 o.1,
  )

  -- The cells of a list beside the block `c`.
  pub Members :
      (hd : ℕ) (c : Block) (cs bs : List Block)
      → All (IsBlock m) (c ∷ cs)
      → Pairs (c ∷ cs)
      → All (λ d. All (Beside d) bs) cs
      → All (Beside (hd, heapdesc_size)) cs
      → All (Member hd (c ∷ cs) bs) (addrs cs)
  Members hd c cs bs h p a o = Members-join hd (c ∷ cs) bs cs h.1 (Seps (c ∷ cs) h p).1 a o
