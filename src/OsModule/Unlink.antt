-- ===== src/OsModule/Unlink.antt =====
-- `OSUnlink` takes a module out of wherever it stands in the list.
use mathlib.Core.Path.{subst}
use mathlib.Core.List.{append-nil}
use gamecube_port.Base.{
  ℕ, ◌≡◌, ◌≢◌, refl, sym, ◌∙◌, ap, List, [], ◌∷◌, ◌++◌, head_or, last_or, last_or-append, All, Bool,
  Bool-cases, true, false, not, ◌||◌, ◌==◌, inl, inr, ◌⊎◌, arith, if◌then◌else◌,
}
use gamecube_port.GcMem.{update}
use gamecube_port.GcMem.Chain.{All-last}
use gamecube_port.GcMem.Dll.{All-split, All-join}
use gamecube_port.OsModule.{Modules, is_known, unlink}
use gamecube_port.OsModule.Links.{
  Linked, Apart, Distinct, update_self, update_ne, Linked-next_apart, Linked-prev_apart,
  Linked-set_last, Linked-set_first, Linked-append, Linked-split, IsModules, nonzero,
}

-- A module that is not known, or null, is refused and the state stays.
pub unlink-unknown :
    (st : Modules) (x : ℕ) → (x ≡ 0) ⊎ (is_known st x ≡ false) → unlink x st ≡ (false, st)
unfolding unlink
unlink-unknown st x (inl e) = rw (e) refl
unlink-unknown st x (inr e) = elim (Bool-cases (x == 0)) [
  | inl f ↦ rw (f) refl
  | inr f ↦ rw (f, e) refl
]

Distinct-split :
    (xs : List ℕ) (x : ℕ) (ys : List ℕ)
    → Distinct (xs ++ (x ∷ ys))
    → Distinct (xs ++ ys) × Apart x xs × Apart x ys
Distinct-split [] x ys d = (d.1, tt, d.0)
Distinct-split (w ∷ ws) x ys d =
    let (a, b) = All-split (λ z. w ≢ z) ws (x ∷ ys) d.0 in
    let (e, f, g) = Distinct-split ws x ys d.1 in
    ((All-join (λ z. w ≢ z) ws ys a b.1, e), ((λ q. b.0 (sym q)), f), g)

Distinct-parts :
    (xs ys : List ℕ) → Distinct (xs ++ ys) → Distinct xs × (Distinct ys × All (λ x. Apart x ys) xs)
Distinct-parts [] ys d = (tt, (d, tt))
Distinct-parts (w ∷ ws) ys d =
    let (a, b) = All-split (λ z. w ≢ z) ws ys d.0 in
    let (e, f) = Distinct-parts ws ys d.1 in ((a, e), (f.0, (b, f.1)))

column : (xs : List ℕ) (c : ℕ) (zs : List ℕ) → All (λ x. Apart x (c ∷ zs)) xs → Apart c xs
column [] c zs a = tt
column (w ∷ ws) c zs a = ((λ q. a.0.0 (sym q)), column ws c zs a.1)

last_ne : (xs : List ℕ) (x : ℕ) → Apart x xs → last_or xs 0 ≢ 0 → last_or xs 0 ≢ x
last_ne [] x a h = absurd (h refl)
last_ne (w ∷ ws) x a h = λ q. All-last (λ z. x ≢ z) w ws a (sym q)

-- The module in the list, and what surrounds it.
record IsPlaced (st : Modules) (xs : List ℕ) (x : ℕ) (ys : List ℕ) : Type 0 where
  before : Linked st.prev st.next 0 xs x
  own_next : st.next x ≡ head_or ys 0
  own_prev : st.prev x ≡ last_or xs 0
  after : Linked st.prev st.next x ys 0
  alive_before : All (λ z. z ≢ 0) xs
  alive : x ≢ 0
  alive_after : All (λ z. z ≢ 0) ys
  rest : Distinct (xs ++ ys)
  apart_before : Apart x xs
  apart_after : Apart x ys

IsPlaced-split :
    (st : Modules) (xs : List ℕ) (x : ℕ) (ys : List ℕ)
    → IsModules st (xs ++ (x ∷ ys))
    → IsPlaced st xs x ys
IsPlaced-split st xs x ys r =
    let (a, b) = Linked-split st.prev st.next 0 xs (x ∷ ys) 0 r.links in
    let (c, d) = All-split (λ z. z ≢ 0) xs (x ∷ ys) r.alive in
    let (e, f, g) = Distinct-split xs x ys r.distinct in
    record {
      before = a;
      own_next = b.0;
      own_prev = b.1;
      after = b.2;
      alive_before = c;
      alive = d.0;
      alive_after = d.1;
      rest = e;
      apart_before = f;
      apart_after = g;
    }

placed-is_known :
    (st : Modules) (xs : List ℕ) (x : ℕ) (ys : List ℕ)
    → IsModules st (xs ++ (x ∷ ys))
    → is_known st x ≡ true
placed-is_known st [] x ys r = let t : (x == x) ≡ true = ground arith in rw (r.head, t) refl
placed-is_known st (w ∷ ws) x ys r =
    let p = IsPlaced-split st (w ∷ ws) x ys r in
    let z : last_or ws w ≢ 0 = All-last (λ z. z ≢ 0) w ws p.alive_before in
    known_lem (st.head == x) (st.prev x == 0) (st.next x == 0)
      (ap (λ v. v == 0) p.own_prev ∙ nonzero (last_or ws w) z)
  where
    known_lem : (a b c : Bool) → b ≡ false → (a || not b || not c) ≡ true
    known_lem a b c e = ground (arith, e)

-- The fields of the module are cleared.
cleared :
    (prev next : ℕ → ℕ) (x p : ℕ) (zs : List ℕ) (e : ℕ)
    → Apart x zs
    → Linked prev next p zs e
    → Linked (update prev x 0) (update next x 0) p zs e
cleared prev next x p zs e a d =
    Linked-prev_apart prev (update next x 0) x 0 p zs e a
      (Linked-next_apart prev next x 0 p zs e a d)

-- What the call leaves, with the links that it reads as `p` and `n`.
abbrev joined : Modules → (p n : ℕ) → Modules
joined st p n =
    let st1 = if p == 0 then record st { head = n } else record st { next = update st.next p n } in
    if n == 0 then record st1 { tail = p } else record st1 { prev = update st1.prev n p }

abbrev left : Modules → (x p n : ℕ) → Modules
left st x p n =
    let st2 = joined st p n in record st2 { prev = update st2.prev x 0; next = update st2.next x 0 }

unlink-left :
    (st : Modules) (x : ℕ)
    → x ≢ 0
    → is_known st x ≡ true
    → (st.prev x ≢ 0 → st.prev x ≢ x)
    → unlink x st ≡ (true, left st x (st.prev x) (st.next x))
unfolding unlink
unlink-left st x h k a = elim (Bool-cases (st.prev x == 0)) [
  | inl e ↦ rw (nonzero x h, k, e) refl
  | inr e ↦
      let away : st.prev x ≢ x = a (ground (arith, e)) in
      rw (nonzero x h, k, e, update_ne st.next (st.prev x) (st.next x) x away) refl
]

left-IsModules :
    (st : Modules) (xs : List ℕ) (x : ℕ) (ys : List ℕ)
    → IsModules st (xs ++ (x ∷ ys))
    → IsPlaced st xs x ys
    → IsModules (left st x (last_or xs 0) (head_or ys 0)) (xs ++ ys)
left-IsModules st [] x [] r p = record {
  head = refl;
  tail = refl;
  links = tt;
  alive = tt;
  distinct = tt;
}
left-IsModules st [] x (c ∷ zs) r p =
    let d = Linked-set_first st.prev st.next x 0 c zs 0 p.rest p.after in
    rw (nonzero c p.alive_after.0) (record {
      head = refl;
      tail = r.tail;
      links = cleared (update st.prev c 0) st.next x 0 (c ∷ zs) 0 p.apart_after d;
      alive = p.alive_after;
      distinct = p.rest;
    })
left-IsModules st (w ∷ ws) x [] r p =
    let z = last_or ws w in
    let e = sym (append-nil ws) in
    let (dist, other) = Distinct-parts (w ∷ ws) [] p.rest in
    let alive : last_or ws w ≢ 0 = All-last (λ v. v ≢ 0) w ws p.alive_before in
    let next = update st.next z 0 in
    let d = Linked-set_last st.prev st.next 0 w ws x 0 dist p.before in
    let links = cleared st.prev next x 0 (w ∷ ws) 0 p.apart_before d in
    rw (nonzero z alive) (record {
      head = r.head;
      tail = ap (λ l. last_or l w) e;
      links = subst (λ l. Linked (update st.prev x 0) (update next x 0) 0 (w ∷ l) 0) e links;
      alive = All-join (λ v. v ≢ 0) (w ∷ ws) [] p.alive_before tt;
      distinct = p.rest;
    })
left-IsModules st (w ∷ ws) x (c ∷ zs) r p =
    let z = last_or ws w in
    let (dist, (after, across)) = Distinct-parts (w ∷ ws) (c ∷ zs) p.rest in
    let alive : last_or ws w ≢ 0 = All-last (λ v. v ≢ 0) w ws p.alive_before in
    let down : Apart (last_or ws w) (c ∷ zs) = All-last (λ v. Apart v (c ∷ zs)) w ws across in
    let up = column (w ∷ ws) c zs across in
    let prev = update st.prev c z in
    let next = update st.next z c in
    let b1 = Linked-prev_apart st.prev st.next c z 0 (w ∷ ws) x up p.before in
    let b2 = Linked-set_last prev st.next 0 w ws x c dist b1 in
    let a1 = Linked-set_first st.prev st.next x z c zs 0 after p.after in
    let a2 = Linked-next_apart prev st.next z c z (c ∷ zs) 0 down a1 in
    let all = Linked-append prev next 0 (w ∷ ws) (c ∷ zs) 0 b2 a2 in
    rw (nonzero z alive, nonzero c p.alive_after.0)
      (record {
        head = r.head;
        tail = r.tail ∙ last_or-append ws x (c ∷ zs) w ∙ sym (last_or-append ws c zs w);
        links =
            cleared prev next x 0 ((w ∷ ws) ++ (c ∷ zs)) 0
              (All-join (λ v. x ≢ v) (w ∷ ws) (c ∷ zs) p.apart_before p.apart_after) all;
        alive = All-join (λ v. v ≢ 0) (w ∷ ws) (c ∷ zs) p.alive_before p.alive_after;
        distinct = p.rest;
      })

left-cleared :
    (st : Modules) (x p n : ℕ) → ((left st x p n).prev x ≡ 0) × ((left st x p n).next x ≡ 0)
left-cleared st x p n = (update_self (joined st p n).prev x 0, update_self (joined st p n).next x 0)

-- A linked module is taken out of wherever it stands in the list: the others keep their order and are
-- linked in both directions, and its own links are null.
pub unlink-remove :
    (st : Modules) (xs : List ℕ) (x : ℕ) (ys : List ℕ)
    → IsModules st (xs ++ (x ∷ ys))
    → let (ok, st') = unlink x st in
      (ok ≡ true) × IsModules st' (xs ++ ys) × ((st'.prev x ≡ 0) × (st'.next x ≡ 0))
unlink-remove st xs x ys r =
    let p = IsPlaced-split st xs x ys r in
    let away : st.prev x ≢ 0 → st.prev x ≢ x =
      subst (λ z. z ≢ 0 → z ≢ x) (sym p.own_prev) (last_ne xs x p.apart_before) in
    let e = unlink-left st x p.alive (placed-is_known st xs x ys r) away in
    let m =
      subst (λ z. IsModules (left st x z (st.next x)) (xs ++ ys)) (sym p.own_prev)
        (subst (λ z. IsModules (left st x (last_or xs 0) z) (xs ++ ys)) (sym p.own_next)
          (left-IsModules st xs x ys r p)) in
    subst
      (λ o. (o.0 ≡ true) × IsModules (o.1) (xs ++ ys) × (((o.1).prev x ≡ 0) × ((o.1).next x ≡ 0)))
      (sym e) (refl, m, left-cleared st x (st.prev x) (st.next x))
