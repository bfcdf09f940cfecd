-- ===== src/GcMem/Chain.antt =====
-- Chains of structures in emulated RAM, linked by one field and ended by a null link.
use gamecube_port.Base.{
  ℕ, ◌+◌, ◌≤◌, ◌≡◌, ◌≢◌, refl, ◌∙◌, List, [], ◌∷◌, ◌++◌, arith, head_or, last_or, All, inl, inr,
  sym, last_or-append_one, All-append_one,
}
use gamecube_port.GcMem.{Mem, Mapped, Apart, field, set_field}
use gamecube_port.GcMem.Laws.{field-set_self, field-set-Apart}

pub Apart-sym : (n x y : ℕ) → Apart n x y → Apart n y x
Apart-sym n x y (inl a) = inr a
Apart-sym n x y (inr a) = inl a

pub All-last : (P : ℕ → Type 0) (x : ℕ) (xs : List ℕ) → All P (x ∷ xs) → P (last_or xs x)
All-last P x [] h = h.0
All-last P x (y ∷ ys) h = All-last P y ys h.1

-- A structure of `n` bytes that a pointer may name.
abbrev pub Node : Mem → ℕ → ℕ → Type 0
Node m n x = (x ≢ 0) × Mapped m x n

abbrev pub Distinct : ℕ → List ℕ → Type 0
Distinct n [] = Unit
Distinct n (x ∷ xs) = All (Apart n x) xs × Distinct n xs

-- Each structure's link names the next one, the last one's is null.
abbrev pub Chain : ℕ → Mem → List ℕ → Type 0
Chain nx m [] = Unit
Chain nx m (x ∷ xs) = (field m x nx ≡ head_or xs 0) × Chain nx m xs

-- The two pointers of a queue of structures: the head is null if it is empty, and the tail is read
-- only if it is not.
pub record IsQueue (n nx : ℕ) (m : Mem) (head tail : ℕ) (xs : List ℕ) : Type 0 where
  pub first : head ≡ head_or xs 0
  pub last : head ≢ 0 → tail ≡ last_or xs 0
  pub links : Chain nx m xs
  pub nodes : All (Node m n) xs
  pub distinct : Distinct n xs

-- A change of memory that spares the links keeps a chain.
pub Chain-frame :
    (nx : ℕ) (m m' : Mem) (xs : List ℕ)
    → All (λ x. field m' x nx ≡ field m x nx) xs
    → Chain nx m xs
    → Chain nx m' xs
Chain-frame nx m m' [] same h = tt
Chain-frame nx m m' (x ∷ xs) same h = (same.0 ∙ h.0, Chain-frame nx m m' xs same.1 h.1)

-- Linking a fresh structure, whose link is null, behind the last one.
pub Chain-link :
    (n nx : ℕ) (m : Mem) (x : ℕ) (xs : List ℕ) (y : ℕ)
    → nx + 4 ≤ n
    → All (Node m n) (x ∷ xs)
    → Distinct n (x ∷ xs)
    → Node m n y
    → All (Apart n y) (x ∷ xs)
    → field m y nx ≡ 0
    → Chain nx m (x ∷ xs)
    → Chain nx (set_field m (last_or xs x) nx y) ((x ∷ xs) ++ (y ∷ []))
Chain-link n nx m x [] y fits nodes dist node apart null h = (
  field-set_self m n x nodes.0.1 nx y fits (omega arith),
  (field-set-Apart m n x nodes.0.1 nx y fits y nx node.1 fits (Apart-sym n y x apart.0) ∙ null, tt),
)
Chain-link n nx m x (z ∷ zs) y fits nodes dist node apart null h = (
  field-set-Apart m n (last_or zs z) (All-last (Node m n) z zs nodes.1).1 nx y fits x nx nodes.0.1
        fits (Apart-sym n x _ (All-last (Apart n x) z zs dist.0))
      ∙ h.0,
  Chain-link n nx m z zs y fits nodes.1 dist.1 node apart.1 null h.1,
)

pub Distinct-append_one :
    (n : ℕ) (xs : List ℕ) (y : ℕ) → Distinct n xs → All (Apart n y) xs → Distinct n (xs ++ (y ∷ []))
Distinct-append_one n [] y d a = (tt, tt)
Distinct-append_one n (x ∷ xs) y d a =
    (All-append_one (Apart n x) xs y d.0 (Apart-sym n y x a.0), Distinct-append_one n xs y d.1 a.1)

module _ (n nx : ℕ) (m : Mem) (y : ℕ) (node : Node m n y) (null : field m y nx ≡ 0) where
  -- A fresh structure as the only one of a queue.
  pub IsQueue-one : IsQueue n nx m y y (y ∷ [])
  IsQueue-one = record {
    first = refl;
    last = λ _. refl;
    links = (null, tt);
    nodes = (node, tt);
    distinct = (tt, tt);
  }

  -- A fresh structure linked behind the tail of a queue that is not empty.
  pub IsQueue-link :
      (head tail x : ℕ) (xs : List ℕ)
      → nx + 4 ≤ n
      → IsQueue n nx m head tail (x ∷ xs)
      → All (Apart n y) (x ∷ xs)
      → IsQueue n nx (set_field m tail nx y) head y ((x ∷ xs) ++ (y ∷ []))
  IsQueue-link head tail x xs fits q apart = rw (q.last alive) (record {
    first = q.first;
    last = λ _. sym (last_or-append_one xs y x);
    links = Chain-link n nx m x xs y fits q.nodes q.distinct node apart null q.links;
    nodes = All-append_one (Node m n) (x ∷ xs) y q.nodes node;
    distinct = Distinct-append_one n (x ∷ xs) y q.distinct apart;
  })
    where
      alive : head ≢ 0
      alive = omega (arith, q.first, q.nodes.0.0)

-- Taking the head, as the code does: the link of the head becomes the head.
pub IsQueue-tail :
    (n nx : ℕ) (m : Mem) (head tail x : ℕ) (xs : List ℕ)
    → IsQueue n nx m head tail (x ∷ xs)
    → (head ≡ x) × IsQueue n nx m (field m head nx) tail xs
IsQueue-tail n nx m head tail x xs q = (
  q.first,
  rw (q.first, q.links.0)
      (record {
        first = refl;
        last = λ h. q.last alive ∙ keeps_last xs h;
        links = q.links.1;
        nodes = q.nodes.1;
        distinct = q.distinct.1;
      }),
)
  where
    alive : head ≢ 0
    alive = omega (arith, q.first, q.nodes.0.0)

    keeps_last : (ys : List ℕ) → head_or ys 0 ≢ 0 → last_or ys x ≡ last_or ys 0
    keeps_last [] h = absurd (h refl)
    keeps_last (y ∷ ys) h = refl

-- A change of memory that spares the links keeps a queue.
pub IsQueue-frame :
    (n nx : ℕ) (m : Mem) (f : ℕ → ℕ) (head tail : ℕ) (xs : List ℕ)
    → All (λ x. field (record m { byte = f }) x nx ≡ field m x nx) xs
    → IsQueue n nx m head tail xs
    → IsQueue n nx (record m { byte = f }) head tail xs
IsQueue-frame n nx m f head tail xs same q = record {
  first = q.first;
  last = q.last;
  links = Chain-frame nx m (record m { byte = f }) xs same q.links;
  nodes = q.nodes;
  distinct = q.distinct;
}
