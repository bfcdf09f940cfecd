-- ===== src/Dvd/Names/Copied.antt =====
-- The names of a path as they are copied into a buffer, as far as there is room.
use mathlib.Core.Path.{subst}
use mathlib.Core.List.{append-nil, append_assoc}
use gamecube_port.Base.{
  ℕ, zero, suc, ◌+◌, ◌-◌, ◌≤◌, ◌<◌, ◌≡◌, ◌∙◌, refl, sym, ap, arith, true, false, Bool-cases, inl,
  inr, if_cases, Option, none, some, List, [], ◌∷◌, ◌++◌, ◌==◌, leb, if◌then◌else◌, get_or, length,
  length-append,
}
use gamecube_port.GcMem.{Mem, add32, update}
use gamecube_port.Dvd.{Dvd, fst_string_off, fst_parent_dir}
use gamecube_port.Dvd.Paths.{slash}
use gamecube_port.Dvd.Paths.Tree.{Spells, Named}
use gamecube_port.Dvd.Names.{Buffer, copy_name, add_entry, entry_to_path}

-- The names on the way from an entry up to the root, the entry's own first.
abbrev pub Leads : Dvd → ℕ → List (List ℕ) → Type 0
Leads d entry [] = entry ≡ 0
Leads d entry (name ∷ above) =
    (0 < entry) × Named d entry name × Leads d (fst_parent_dir d entry) above

-- The path of those names, each behind a slash.
abbrev pub spell : List (List ℕ) → List ℕ
spell [] = []
spell (name ∷ above) = spell above ++ (slash ∷ name)

pub get_or-left : (s t : List ℕ) (i : ℕ) → i < length s → get_or (s ++ t) i 0 ≡ get_or s i 0
get_or-left [] t i h = absurd (omega (arith, h))
get_or-left (x ∷ s) t zero h = refl
get_or-left (x ∷ s) t (suc i) h = get_or-left s t i (omega (arith, h))

get_or-next : (s t : List ℕ) (c : ℕ) → get_or (s ++ (c ∷ t)) (length s) 0 ≡ c
get_or-next [] t c = refl
get_or-next (x ∷ s) t c = get_or-next s t c

module _ (path : Buffer) (end : ℕ) where
  -- The characters of a path as far as there is room, and the cells behind them as they were.
  pub record IsCopied (s : List ℕ) (r : ℕ × Buffer) : Type 0 where
    pub at : r.0 ≡ (if leb (length s) end then length s else end)
    pub text : (i : ℕ) → i < r.0 → r.1 i ≡ get_or s i 0
    pub outside : (i : ℕ) → r.0 ≤ i → r.1 i ≡ path i

  -- One more character.
  pub push :
      (s : List ℕ) (loc c : ℕ) (p : Buffer)
      → IsCopied s (loc, p)
      → loc < end
      → IsCopied (s ++ (c ∷ [])) (loc + 1, update p loc c)
  push s loc c p h lt =
      let e : length s ≡ loc = ground (arith, h.at, lt) in
      let l = length-append s (c ∷ []) in
      record {
        at = ground (arith, e, l, lt);
        text = λ i q. elim (Bool-cases (loc == i)) [
          | inl g ↦ rw (g) (
              sym (get_or-next s [] c)
              ∙ ap (λ j. get_or (s ++ (c ∷ [])) j 0) (ground (arith, e, g)))
          | inr g ↦
              let lower : i < loc = ground (arith, g, q) in
              rw (g) (h.text i lower ∙ sym (get_or-left s (c ∷ []) i (omega (arith, lower, e))))
        ];
        outside = λ i q.
            let g : (loc == i) ≡ false = ground (arith, q) in
            rw (g) (h.outside i (omega (arith, q)));
      }

  -- There is no room for more.
  full :
      (s t : List ℕ) (loc : ℕ) (p : Buffer)
      → IsCopied s (loc, p)
      → loc ≡ end
      → IsCopied (s ++ t) (loc, p)
  full s t loc p h e =
      let l = length-append s t in
      record {
        at = ground (arith, e, l, h.at);
        text = λ i q. h.text i q ∙ sym (get_or-left s t i (ground (arith, q, e, h.at)));
        outside = h.outside;
      }

  copy_name-IsCopied :
      (m : Mem) (room src loc : ℕ) (p : Buffer) (s name : List ℕ)
      → IsCopied s (loc, p)
      → loc + room ≡ end
      → Spells m src name
      → IsCopied (s ++ name) (copy_name m room src loc p)
  unfolding copy_name
  copy_name-IsCopied m zero src loc p s name h e n = full s name loc p h (omega (arith, e))
  copy_name-IsCopied m (suc room) src loc p s [] h e n =
      rw (n) (subst (λ z. IsCopied z (loc, p)) (sym (append-nil s)) h)
  copy_name-IsCopied m (suc room) src loc p s (c ∷ name) h e n =
      let nonzero : (c == 0) ≡ false = ground (arith, n.1) in
      rw (n.0, nonzero)
        (subst (λ z. IsCopied z (copy_name m room (add32 src 1) (loc + 1) (update p loc c)))
          (append_assoc s (c ∷ []) name)
          (copy_name-IsCopied m room (add32 src 1) (loc + 1) (update p loc c) (s ++ (c ∷ [])) name
            (push s loc c p h (omega (arith, e))) (omega (arith, e)) n.2))

  add_entry-IsCopied :
      (d : Dvd) (entry : ℕ) (s name : List ℕ) (r : ℕ × Buffer)
      → IsCopied s r
      → Named d entry name
      → IsCopied (s ++ (slash ∷ name)) (add_entry d entry end r)
  unfolding add_entry
  add_entry-IsCopied d entry s name (loc, p) h n =
      let addr = add32 d.fst_string_start (fst_string_off d entry) in
      if_cases (IsCopied (s ++ (slash ∷ name))) (loc == end) (loc, p)
        (copy_name d.mem (end - (loc + 1)) addr (loc + 1) (update p loc slash))
        (λ e. full s (slash ∷ name) loc p h (ground (arith, e)))
        (λ e.
          let lt : loc < end = ground (arith, e, h.at) in
          subst
            (λ z.
              IsCopied z (copy_name d.mem (end - (loc + 1)) addr (loc + 1) (update p loc slash)))
            (append_assoc s (slash ∷ []) name)
            (copy_name-IsCopied d.mem (end - (loc + 1)) addr (loc + 1) (update p loc slash)
              (s ++ (slash ∷ [])) name (push s loc slash p h lt) (omega (arith, lt)) n))

  -- The path of an entry is found and copied.
  abbrev pub Found : List ℕ → Option (ℕ × Buffer) → Type 0
  Found s none = true ≡ false
  Found s (some r) = IsCopied s r

  Found-add :
      (d : Dvd) (entry : ℕ) (s name : List ℕ) (o : Option (ℕ × Buffer))
      → Found s o
      → Named d entry name
      → Found
          (s ++ (slash ∷ name))
          (elim o [ none ↦ none | some r ↦ some (add_entry d entry end r) ])
  Found-add d entry s name none h n = h
  Found-add d entry s name (some r) h n = add_entry-IsCopied d entry s name r h n

  pub entry_to_path-Found :
      (d : Dvd) (names : List (List ℕ)) (fuel entry : ℕ)
      → Leads d entry names
      → length names < fuel
      → Found (spell names) (entry_to_path fuel d entry end path)
  unfolding entry_to_path
  entry_to_path-Found d names zero entry h lt = absurd (omega (arith, lt))
  entry_to_path-Found d [] (suc fuel) entry h lt =
      let e : (entry == 0) ≡ true = ground (arith, h) in
      rw (e) (record {
        at = ground arith;
        text = λ i q. absurd (omega (arith, q));
        outside = λ i q. refl;
      })
  entry_to_path-Found d (name ∷ above) (suc fuel) entry h lt =
      let e : (entry == 0) ≡ false = ground (arith, h.0) in
      let up = entry_to_path fuel d (fst_parent_dir d entry) end path in
      rw (e) (
        Found-add d entry (spell above) name up
          (entry_to_path-Found d above fuel (fst_parent_dir d entry) h.2 (omega (arith, lt))) h.1)
