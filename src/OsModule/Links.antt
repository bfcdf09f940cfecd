-- ===== src/OsModule/Links.antt =====
-- Doubly linked lists of host objects, whose link fields are functions of their addresses, and
-- `OSLink`.
use gamecube_port.Base.{
  ℕ, ◌≡◌, ◌≢◌, refl, sym, ◌∙◌, List, [], ◌∷◌, ◌++◌, head_or, last_or, All, true, false, ◌==◌, arith,
  last_or-append_one, All-append_one,
}
use gamecube_port.GcMem.{update}
use gamecube_port.GcMem.Chain.{All-last}
use gamecube_port.OsModule.{Modules, is_known, link}

-- From `p` through `xs` to `e`: each object names its two neighbours.
abbrev pub Linked : (prev next : ℕ → ℕ) → ℕ → List ℕ → ℕ → Type 0
Linked prev next p [] e = Unit
Linked prev next p (x ∷ xs) e = (next x ≡ head_or xs e) × (prev x ≡ p) × Linked prev next x xs e

abbrev pub Apart : ℕ → List ℕ → Type 0
Apart a xs = All (λ x. a ≢ x) xs

abbrev pub Distinct : List ℕ → Type 0
Distinct [] = Unit
Distinct (x ∷ xs) = Apart x xs × Distinct xs

pub update_self : (f : ℕ → ℕ) (i v : ℕ) → update f i v i ≡ v
update_self f i v = ground arith

pub update_ne : (f : ℕ → ℕ) (i v j : ℕ) → i ≢ j → update f i v j ≡ f j
update_ne f i v j h = ground (arith, h)

module _ (prev next : ℕ → ℕ) where
  -- Writes to the fields of an object outside the list keep it.
  pub Linked-next_apart :
      (a v p : ℕ) (xs : List ℕ) (e : ℕ)
      → Apart a xs
      → Linked prev next p xs e
      → Linked prev (update next a v) p xs e
  Linked-next_apart a v p [] e h d = tt
  Linked-next_apart a v p (x ∷ xs) e h d =
      (update_ne next a v x h.0 ∙ d.0, d.1, Linked-next_apart a v x xs e h.1 d.2)

  pub Linked-prev_apart :
      (a v p : ℕ) (xs : List ℕ) (e : ℕ)
      → Apart a xs
      → Linked prev next p xs e
      → Linked (update prev a v) next p xs e
  Linked-prev_apart a v p [] e h d = tt
  Linked-prev_apart a v p (x ∷ xs) e h d =
      (d.0, update_ne prev a v x h.0 ∙ d.1, Linked-prev_apart a v x xs e h.1 d.2)

  -- A new end behind the last object, and a new predecessor before the first.
  pub Linked-set_last :
      (p x : ℕ) (xs : List ℕ) (e e' : ℕ)
      → Distinct (x ∷ xs)
      → Linked prev next p (x ∷ xs) e
      → Linked prev (update next (last_or xs x) e') p (x ∷ xs) e'
  Linked-set_last p x [] e e' h d = (update_self next x e', d.1, tt)
  Linked-set_last p x (y ∷ ys) e e' h d = (
    update_ne next (last_or ys y) e' x (λ q. All-last (λ z. x ≢ z) y ys h.0 (sym q)) ∙ d.0,
    d.1,
    Linked-set_last x y ys e e' h.1 d.2,
  )

  pub Linked-set_first :
      (p p' x : ℕ) (xs : List ℕ) (e : ℕ)
      → Distinct (x ∷ xs)
      → Linked prev next p (x ∷ xs) e
      → Linked (update prev x p') next p' (x ∷ xs) e
  Linked-set_first p p' x xs e h d =
      (d.0, update_self prev x p', Linked-prev_apart x p' x xs e h.0 d.2)

  pub Linked-append :
      (p : ℕ) (xs ys : List ℕ) (e : ℕ)
      → Linked prev next p xs (head_or ys e)
      → Linked prev next (last_or xs p) ys e
      → Linked prev next p (xs ++ ys) e
  Linked-append p [] ys e a b = b
  Linked-append p (x ∷ []) ys e a b = (a.0, a.1, b)
  Linked-append p (x ∷ y ∷ xs) ys e a b = (a.0, a.1, Linked-append x (y ∷ xs) ys e a.2 b)

  pub Linked-split :
      (p : ℕ) (xs ys : List ℕ) (e : ℕ)
      → Linked prev next p (xs ++ ys) e
      → Linked prev next p xs (head_or ys e) × Linked prev next (last_or xs p) ys e
  Linked-split p [] ys e d = (tt, d)
  Linked-split p (x ∷ []) ys e d = ((d.0, d.1, tt), d.2)
  Linked-split p (x ∷ y ∷ xs) ys e d =
      let (a, b) = Linked-split x (y ∷ xs) ys e d.2 in ((d.0, d.1, a), b)

-- The list of the state holds the modules `xs`.
pub record IsModules (st : Modules) (xs : List ℕ) : Type 0 where
  pub head : st.head ≡ head_or xs 0
  pub tail : st.tail ≡ last_or xs 0
  pub links : Linked st.prev st.next 0 xs 0
  pub alive : All (λ x. x ≢ 0) xs
  pub distinct : Distinct xs

pub nonzero : (x : ℕ) → x ≢ 0 → (x == 0) ≡ false
nonzero x h = ground (arith, h)

Distinct-append_one : (xs : List ℕ) (y : ℕ) → Distinct xs → Apart y xs → Distinct (xs ++ (y ∷ []))
Distinct-append_one [] y d a = (tt, tt)
Distinct-append_one (x ∷ xs) y d a =
    (All-append_one (λ z. x ≢ z) xs y d.0 (λ e. a.0 (sym e)), Distinct-append_one xs y d.1 a.1)

-- A module that is in no list is linked behind the others, in both directions.
pub link-append :
    (st : Modules) (xs : List ℕ) (x : ℕ)
    → IsModules st xs
    → x ≢ 0
    → is_known st x ≡ false
    → Apart x xs
    → ((link x st).0 ≡ true) × IsModules ((link x st).1) (xs ++ (x ∷ []))
unfolding link
link-append st [] x r h k a =
    rw (nonzero x h, k, r.tail)
      (
        refl,
        record {
          head = refl;
          tail = refl;
          links = (update_self st.next x 0, update_self st.prev x 0, tt);
          alive = (h, tt);
          distinct = (tt, tt);
        },
      )
link-append st (y ∷ ys) x r h k a =
    let z = last_or ys y in
    let prev = update st.prev x z in
    let next = update st.next x 0 in
    let d1 = Linked-next_apart st.prev st.next x 0 0 (y ∷ ys) 0 a r.links in
    let d2 = Linked-prev_apart st.prev next x z 0 (y ∷ ys) 0 a d1 in
    let d3 = Linked-set_last prev next 0 y ys 0 x r.distinct d2 in
    let away : z ≢ x = λ q. All-last (λ w. x ≢ w) y ys a (sym q) in
    let own : update next z x x ≡ 0 = update_ne next z x x away ∙ update_self st.next x 0 in
    let alive : last_or ys y ≢ 0 = All-last (λ w. w ≢ 0) y ys r.alive in
    rw (nonzero x h, k, r.tail, nonzero z alive)
      (
        refl,
        record {
          head = r.head;
          tail = sym (last_or-append_one ys x y);
          links =
              Linked-append prev (update next z x) 0 (y ∷ ys) (x ∷ []) 0 d3
                (own, update_self st.prev x z, tt);
          alive = All-append_one (λ w. w ≢ 0) (y ∷ ys) x r.alive h;
          distinct = Distinct-append_one (y ∷ ys) x r.distinct a;
        },
      )
