-- ===== src/GcMem/Dll.antt =====
-- Doubly linked lists of structures in emulated RAM, between a predecessor and an end that may be
-- null or a sentinel.
use gamecube_port.Base.{
  ℕ, ◌+◌, ◌≤◌, ◌<◌, ◌^◌, ◌≡◌, ◌∙◌, List, [], ◌∷◌, ◌++◌, head_or, last_or, All, inl, inr, ◌⊎◌,
}
use gamecube_port.GcMem.{Mem, Mapped, Apart, field, set_field}
use gamecube_port.GcMem.Laws.{field-set_self, field-set_ne, field-set-Apart}
use gamecube_port.GcMem.Chain.{Node, Distinct, Apart-sym, All-last}

-- Where the two links stand in a structure of `n` bytes.
pub record Offsets (n nx pv : ℕ) : Type 0 where
  pub next_in : nx + 4 ≤ n
  pub prev_in : pv + 4 ≤ n
  pub no_overlap : (nx + 4 ≤ pv) ⊎ (pv + 4 ≤ nx)

-- From `p` through `xs` to `e`: each structure names its two neighbours.
abbrev pub Dll : (nx pv : ℕ) → Mem → ℕ → List ℕ → ℕ → Type 0
Dll nx pv m p [] e = Unit
Dll nx pv m p (x ∷ xs) e = (field m x nx ≡ head_or xs e) × (field m x pv ≡ p) × Dll nx pv m x xs e

abbrev pub Nodes : Mem → ℕ → List ℕ → Type 0
Nodes m n xs = All (Node m n) xs

module _ (n nx pv : ℕ) (o : Offsets n nx pv) where
  -- A write outside the list keeps it.
  pub Dll-set-Apart :
      (m : Mem) (a f v p : ℕ) (xs : List ℕ) (e : ℕ)
      → Mapped m a n
      → f + 4 ≤ n
      → Nodes m n xs
      → All (Apart n a) xs
      → Dll nx pv m p xs e
      → Dll nx pv (set_field m a f v) p xs e
  Dll-set-Apart m a f v p [] e h i nodes apart d = tt
  Dll-set-Apart m a f v p (x ∷ xs) e h i nodes apart d = (
    field-set-Apart m n a h f v i x nx nodes.0.1 o.next_in apart.0 ∙ d.0,
    field-set-Apart m n a h f v i x pv nodes.0.1 o.prev_in apart.0 ∙ d.1,
    Dll-set-Apart m a f v x xs e h i nodes.1 apart.1 d.2,
  )

  -- A new end behind the last structure.
  pub Dll-set_last :
      (m : Mem) (p x : ℕ) (xs : List ℕ) (e e' : ℕ)
      → Nodes m n (x ∷ xs)
      → Distinct n (x ∷ xs)
      → e' < 2 ^ 32
      → Dll nx pv m p (x ∷ xs) e
      → Dll nx pv (set_field m (last_or xs x) nx e') p (x ∷ xs) e'
  Dll-set_last m p x [] e e' nodes dist l d = (
    field-set_self m n x nodes.0.1 nx e' o.next_in l,
    field-set_ne m n x nodes.0.1 nx e' o.next_in pv o.prev_in o.no_overlap ∙ d.1,
    tt,
  )
  Dll-set_last m p x (y ∷ ys) e e' nodes dist l d =
      let last : Mapped m (last_or ys y) n = (All-last (Node m n) y ys nodes.1).1 in
      let apart : Apart n (last_or ys y) x = Apart-sym n x _ (All-last (Apart n x) y ys dist.0) in
      (
        field-set-Apart m n _ last nx e' o.next_in x nx nodes.0.1 o.next_in apart ∙ d.0,
        field-set-Apart m n _ last nx e' o.next_in x pv nodes.0.1 o.prev_in apart ∙ d.1,
        Dll-set_last m x y ys e e' nodes.1 dist.1 l d.2,
      )

  -- A new predecessor before the first structure.
  pub Dll-set_first :
      (m : Mem) (p p' x : ℕ) (xs : List ℕ) (e : ℕ)
      → Nodes m n (x ∷ xs)
      → Distinct n (x ∷ xs)
      → p' < 2 ^ 32
      → Dll nx pv m p (x ∷ xs) e
      → Dll nx pv (set_field m x pv p') p' (x ∷ xs) e
  Dll-set_first m p p' x xs e nodes dist l d = (
    field-set_ne m n x nodes.0.1 pv p' o.prev_in nx o.next_in (flip o.no_overlap) ∙ d.0,
    field-set_self m n x nodes.0.1 pv p' o.prev_in l,
    Dll-set-Apart m x pv p' x xs e nodes.0.1 o.prev_in nodes.1 dist.0 d.2,
  )
    where
      flip : (nx + 4 ≤ pv) ⊎ (pv + 4 ≤ nx) → (pv + 4 ≤ nx) ⊎ (nx + 4 ≤ pv)
      flip (inl a) = inr a
      flip (inr a) = inl a

module _ (nx pv : ℕ) (m : Mem) where
  pub Dll-append :
      (p : ℕ) (xs ys : List ℕ) (e : ℕ)
      → Dll nx pv m p xs (head_or ys e)
      → Dll nx pv m (last_or xs p) ys e
      → Dll nx pv m p (xs ++ ys) e
  Dll-append p [] ys e a b = b
  Dll-append p (x ∷ []) ys e a b = (a.0, a.1, b)
  Dll-append p (x ∷ y ∷ xs) ys e a b = (a.0, a.1, Dll-append x (y ∷ xs) ys e a.2 b)

  pub Dll-split :
      (p : ℕ) (xs ys : List ℕ) (e : ℕ)
      → Dll nx pv m p (xs ++ ys) e
      → Dll nx pv m p xs (head_or ys e) × Dll nx pv m (last_or xs p) ys e
  Dll-split p [] ys e d = (tt, d)
  Dll-split p (x ∷ []) ys e d = ((d.0, d.1, tt), d.2)
  Dll-split p (x ∷ y ∷ xs) ys e d = let (a, b) = Dll-split x (y ∷ xs) ys e d.2 in ((d.0, d.1, a), b)

-- Facts about the parts of a list of structures.
module _ {A : Type 0} (P : A → Type 0) where
  pub All-split : (xs ys : List A) → All P (xs ++ ys) → All P xs × All P ys
  All-split [] ys h = (tt, h)
  All-split (x ∷ xs) ys h = let (a, b) = All-split xs ys h.1 in ((h.0, a), b)

  pub All-join : (xs ys : List A) → All P xs → All P ys → All P (xs ++ ys)
  All-join [] ys a b = b
  All-join (x ∷ xs) ys a b = (a.0, All-join xs ys a.1 b)

-- Each structure of the first list is apart from each of the second.
abbrev pub Across : ℕ → List ℕ → List ℕ → Type 0
Across n xs ys = All (λ x. All (Apart n x) ys) xs

pub Distinct-split :
    (n : ℕ) (xs ys : List ℕ)
    → Distinct n (xs ++ ys)
    → Distinct n xs × Distinct n ys × Across n xs ys
Distinct-split n [] ys d = (tt, d, tt)
Distinct-split n (x ∷ xs) ys d =
    let (a, b, c) = Distinct-split n xs ys d.1 in
    let (s, t) = All-split (Apart n x) xs ys d.0 in ((s, a), b, (t, c))

pub Distinct-join :
    (n : ℕ) (xs ys : List ℕ)
    → Distinct n xs
    → Distinct n ys
    → Across n xs ys
    → Distinct n (xs ++ ys)
Distinct-join n [] ys a b c = b
Distinct-join n (x ∷ xs) ys a b c =
    (All-join (Apart n x) xs ys a.0 c.0, Distinct-join n xs ys a.1 b c.1)

-- From a structure of the second list to all of the first.
pub Across-column :
    (n : ℕ) (xs : List ℕ) (y : ℕ) (ys : List ℕ)
    → Across n xs (y ∷ ys)
    → All (Apart n y) xs × Across n xs ys
Across-column n [] y ys a = (tt, tt)
Across-column n (x ∷ xs) y ys a =
    let (s, t) = Across-column n xs y ys a.1 in ((Apart-sym n x y a.0.0, s), (a.0.1, t))
