-- ===== src/Card/Dir/Search.antt =====
-- The search of the directory finds the first file of the name.
use gamecube_port.Base.{
  Bool, ℕ, zero, suc, ◌+◌, ◌≤◌, ◌<◌, ◌≡◌, refl, arith, true, false, not, if◌then◌else◌, Option,
  none, some, inl, inr, ◌⊎◌, Bool-cases,
}
use gamecube_port.GcMem.{Mem}
use gamecube_port.Card.{CardResult, ready, nocard, nofile}
use gamecube_port.Card.Dir.{DirControl, is_file, find_file, get_file_no, max_file, file_result}

-- `i` is the first entry, from `from` on, of a file of the name.
pub record IsFirst (card : DirControl) (file_name : ℕ → ℕ) (m : Mem) (from i : ℕ) : Type 0 where
  pub after : from ≤ i
  pub found : is_file card file_name m i ≡ true
  pub first : (j : ℕ) → from ≤ j → j < i → is_file card file_name m j ≡ false

module _ (card : DirControl) (file_name : ℕ → ℕ) (m : Mem) where
  -- What a search of `n` entries from the one numbered `f` may answer.
  unfoldable pub Answer : (n f : ℕ) → Option ℕ → Type 0
  Answer n f none = (j : ℕ) → f ≤ j → j < f + n → is_file card file_name m j ≡ false
  Answer n f (some i) = IsFirst card file_name m f i × (i < f + n)

  Answer-later :
      (n f : ℕ) (o : Option ℕ)
      → is_file card file_name m f ≡ false
      → Answer n (f + 1) o
      → Answer (suc n) f o
  unfolding Answer
  Answer-later n f none e a = λ j p q. grind (arith, e, a j)
  Answer-later n f (some i) e a = (
    record {
      after = omega (arith, a.0.after);
      found = a.0.found;
      first = λ j p q. grind (arith, e, a.0.first j);
    },
    omega (arith, a.1),
  )

  find_file-Answer : (n f : ℕ) → Answer n f (find_file n f card file_name m)
  unfolding find_file Answer
  find_file-Answer zero f = λ j a b. absurd (omega arith)
  find_file-Answer (suc n) f = elim (Bool-cases (is_file card file_name m f)) [
    | inl e ↦ rw (e) (
      record { after = omega arith; found = e; first = λ j p q. absurd (omega arith) },
      omega arith,
    )
    | inr e ↦ rw (e) (Answer-later n f _ e (find_file-Answer n (f + 1)))
  ]

  -- The result of the search, from its answer.
  unfoldable pub Outcome : CardResult × Option ℕ → Type 0
  Outcome r =
      ((r ≡ (nofile, none)) × ((j : ℕ) → j < max_file → is_file card file_name m j ≡ false))
      ⊎ ((i : ℕ) × (r ≡ (ready, some i)) × IsFirst card file_name m 0 i × (i < max_file))

  Answer-Outcome : (n : ℕ) (o : Option ℕ) → n ≡ max_file → Answer n 0 o → Outcome (file_result o)
  unfolding Answer Outcome
  Answer-Outcome n none e a = inl (refl, λ j l. a j (omega arith) (omega (arith, e)))
  Answer-Outcome n (some i) e a = inr (i, refl, a.0, omega (arith, e, a.1))

  Outcome-attached :
      (c : Bool) (r : CardResult × Option ℕ)
      → c ≡ true
      → Outcome r
      → Outcome (if not c then (nocard, none) else r)
  Outcome-attached true r e o = o
  Outcome-attached false r e o = ground arith

  -- On an attached card, `port_CARDGetFileNo` either finds the file with the least number of all that
  -- the game may access and that have the name, or none of the 127 entries is such a file.
  pub get_file_no-IsFirst :
      card.attached ≡ true
      → ((get_file_no card file_name m ≡ (nofile, none))
          × ((j : ℕ) → j < max_file → is_file card file_name m j ≡ false))
        ⊎ ((i : ℕ) × (get_file_no card file_name m ≡ (ready, some i))
            × IsFirst card file_name m 0 i
            × (i < max_file))
  unfolding get_file_no Outcome
  get_file_no-IsFirst h =
      Outcome-attached card.attached _ h
        (Answer-Outcome max_file _ refl (find_file-Answer max_file 0))
