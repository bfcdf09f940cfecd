-- ===== src/Dvd/Names/Spelled.antt =====
-- The path of the current directory is that of its names, cut where the caller's buffer ends.
use mathlib.Core.Path.{subst}
use gamecube_port.Base.{
  ℕ, ◌+◌, ◌-◌, ◌≤◌, ◌<◌, ◌≡◌, ◌∙◌, refl, sym, arith, Bool, true, false, if_cases, Option, none,
  some, List, [], ◌∷◌, ◌++◌, ◌==◌, ltb, leb, ◌^◌, if◌then◌else◌, get_or, length, length-append,
}
use gamecube_port.Base.Int.{slt32}
use gamecube_port.GcMem.{update}
use gamecube_port.Dvd.{Dvd, fst_entry_is_dir}
use gamecube_port.Dvd.Paths.{slash}
use gamecube_port.Dvd.Paths.Convert.{with_fst_some}
use gamecube_port.Dvd.Names.{Buffer, entry_to_path, terminate, convert_entrynum, get_current_dir}
use gamecube_port.Dvd.Names.Copied.{
  Leads, spell, get_or-left, IsCopied, push, Found, entry_to_path-Found,
}

module _ (path : Buffer) (end : ℕ) where
  -- How much of a text there is room for, with the zero that ends it.
  abbrev pub shown : List ℕ → ℕ
  shown s = if ltb (length s) end then length s else end - 1

  -- Whether the whole text is there, and the part of it that is, with a zero behind it and nothing
  -- written behind that.
  pub record IsWritten (s : List ℕ) (r : Bool × Buffer) : Type 0 where
    pub whole : r.0 ≡ ltb (length s) end
    pub text : (i : ℕ) → i < shown s → r.1 i ≡ get_or s i 0
    pub ends : r.1 (shown s) ≡ 0
    pub outside : (i : ℕ) → shown s < i → r.1 i ≡ path i

  -- A zero at the end of what is shown.
  put :
      (s : List ℕ) (n : ℕ) (ok : Bool) (p : Buffer)
      → ok ≡ ltb (length s) end
      → n ≡ shown s
      → ((i : ℕ) → i < n → p i ≡ get_or s i 0)
      → ((i : ℕ) → n < i → p i ≡ path i)
      → IsWritten s (ok, update p n 0)
  put s n ok p w e t o = record {
    whole = w;
    text = λ i q.
        let g : (n == i) ≡ false = ground (arith, q, e) in rw (g) (t i (omega (arith, q, e)));
    ends = let g : (n == shown s) ≡ true = ground (arith, e) in rw (g) refl;
    outside = λ i q.
        let g : (n == i) ≡ false = ground (arith, q, e) in rw (g) (o i (omega (arith, q, e)));
  }

  terminate-IsWritten :
      (s : List ℕ) (r : ℕ × Buffer)
      → 0 < end
      → IsCopied path end s r
      → IsWritten (s ++ (slash ∷ [])) (terminate true end r)
  unfolding terminate
  terminate-IsWritten s (loc, p) pos h =
      let l = length-append s (slash ∷ []) in
      let t = s ++ (slash ∷ []) in
      let Q = IsWritten t in
      let text : (i : ℕ) → i < loc → p i ≡ get_or t i 0 =
        λ i q. h.text i q ∙ sym (get_or-left s (slash ∷ []) i (ground (arith, q, h.at))) in
      if_cases Q (loc == end) (false, update p (end - 1) 0) _
        (λ e.
          put t (end - 1) false p (ground (arith, e, l, h.at)) (ground (arith, e, l, h.at))
            (λ i q. text i (ground (arith, e, q))) (λ i q. h.outside i (ground (arith, e, q))))
        (λ e.
          let lt : loc < end = ground (arith, e, h.at) in
          if_cases Q (loc == end - 1) (false, update p loc 0) _
            (λ e1.
              put t loc false p (ground (arith, e1, l, h.at, lt)) (ground (arith, e1, l, h.at, lt))
                text (λ i q. h.outside i (omega (arith, q))))
            (λ e1.
              let c = push path end s loc slash p h lt in
              put t (loc + 1) true (update p loc slash) (ground (arith, e1, l, h.at, lt))
                (ground (arith, e1, l, h.at, lt)) c.text (λ i q. c.outside i (omega (arith, q)))))

-- What a call that ends leaves in the buffer: as much of a text as there is room for.
abbrev pub IsNamed : Buffer → ℕ → List ℕ → Option (Bool × Buffer) → Type 0
IsNamed path maxlen s none = true ≡ false
IsNamed path maxlen s (some r) = IsWritten path maxlen s r

IsNamed-terminate :
    (path : Buffer) (maxlen : ℕ) (s : List ℕ) (is_dir : Bool) (o : Option (ℕ × Buffer))
    → 0 < maxlen
    → is_dir ≡ true
    → Found path maxlen s o
    → IsNamed path maxlen
        (s ++ (slash ∷ []))
        (elim o [ none ↦ none | some r ↦ some (terminate is_dir maxlen r) ])
IsNamed-terminate path maxlen s is_dir none pos g h = h
IsNamed-terminate path maxlen s is_dir (some r) pos g h =
    rw (g) (terminate-IsWritten path maxlen s r pos h)

convert_entrynum-IsNamed :
    (d : Dvd) (path : Buffer) (maxlen fuel entry : ℕ) (names : List (List ℕ))
    → 0 < maxlen
    → d.fst_max_entry_num ≤ 2 ^ 31
    → entry < d.fst_max_entry_num
    → fst_entry_is_dir d entry ≡ true
    → Leads d entry names
    → length names < fuel
    → IsNamed path maxlen (spell names ++ (slash ∷ [])) (convert_entrynum fuel d entry maxlen path)
unfolding convert_entrynum
convert_entrynum-IsNamed d path maxlen fuel entry names pos small lt g h enough =
    let e0 : (d.fst_max_entry_num == 0) ≡ false = ground arith in
    let e1 : (maxlen == 0) ≡ false = ground arith in
    let e2 : slt32 entry 0 ≡ false = ground arith in
    let e3 : leb d.fst_max_entry_num entry ≡ false = ground arith in
    rw (e1, e0, e2, e3)
      (IsNamed-terminate path maxlen (spell names) (fst_entry_is_dir d entry)
        (entry_to_path fuel d entry maxlen path) pos g
        (entry_to_path-Found path maxlen d names fuel entry h enough))

-- If a table of at most 2 ^ 31 entries is loaded, the current directory is a directory of it, and names
-- of characters other than slashes lead to it from the root, the call ends within one turn more than
-- there are names. The path is those names, each behind a slash, with a slash behind them. The call
-- writes as much of it as the buffer, which is not empty, has room for, with a zero behind it and
-- nothing behind that, and succeeds exactly if this is the whole.
pub get_current_dir-IsNamed :
    (d : Dvd) (path : Buffer) (maxlen fuel : ℕ) (names : List (List ℕ))
    → 0 < maxlen
    → d.fst_max_entry_num ≤ 2 ^ 31
    → d.current_directory < d.fst_max_entry_num
    → fst_entry_is_dir d d.current_directory ≡ true
    → Leads d d.current_directory names
    → length names < fuel
    → IsNamed path maxlen (spell names ++ (slash ∷ [])) (get_current_dir fuel d maxlen path)
unfolding get_current_dir
get_current_dir-IsNamed d path maxlen fuel names pos small lt g h enough =
    subst
      (λ d'.
        IsNamed path maxlen (spell names ++ (slash ∷ []))
          (convert_entrynum fuel d' d'.current_directory maxlen path))
      (sym (with_fst_some d (omega (arith, lt))))
      (convert_entrynum-IsNamed d path maxlen fuel d.current_directory names pos small lt g h
        enough)
