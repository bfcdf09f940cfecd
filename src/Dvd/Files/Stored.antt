-- ===== src/Dvd/Files/Stored.antt =====
-- The files of the tests: what is stored is what is opened and read.
use gamecube_port.Base.{
  ℕ, zero, suc, ◌+◌, ◌%◌, ◌<◌, ◌^◌, ◌≡◌, ◌≢◌, refl, sym, arith, true, false, none, some, List, [],
  ◌∷◌, ltb, leb, ◌==◌, get_or, set, length, ap,
}
use gamecube_port.Base.Int.{slt32}
use gamecube_port.Dvd.{Dvd}
use gamecube_port.Dvd.Files.{set_file, fast_open, read, read_bytes, take}

get_or-set :
    {A : Type 0} (xs : List A) (i : ℕ) (v d : A) → i < length xs → get_or (set xs i v) i d ≡ v
get_or-set [] i v d h = absurd (omega (arith, h))
get_or-set (x ∷ xs) zero v d h = refl
get_or-set (x ∷ xs) (suc i) v d h = get_or-set xs i v d (omega (arith, h))

get_or-set_ne :
    {A : Type 0} (xs : List A) (i j : ℕ) (v d : A) → i ≢ j → get_or (set xs i v) j d ≡ get_or xs j d
get_or-set_ne [] i j v d h = refl
get_or-set_ne (x ∷ xs) zero zero v d h = absurd (h refl)
get_or-set_ne (x ∷ xs) zero (suc j) v d h = refl
get_or-set_ne (x ∷ xs) (suc i) zero v d h = refl
get_or-set_ne (x ∷ xs) (suc i) (suc j) v d h = get_or-set_ne xs i j v d (λ e. h (omega (arith, e)))

take_all : {A : Type 0} (xs : List A) → take (length xs) xs ≡ xs
take_all [] = refl
take_all (x ∷ xs) = ap (◌∷◌ x) (take_all xs)

read_all :
    (content : List ℕ)
    → length content < 2 ^ 31
    → read_bytes content (length content) 0 ≡ some content
unfolding read_bytes
read_all content h =
    let e0 : ltb (length content) ((0 + length content) % 2 ^ 32) ≡ false = ground arith in
    let e1 : ltb (length content) 0 ≡ false = ground arith in rw (e0, e1, take_all content) refl

module _ (d : Dvd) (entry : ℕ) (content : List ℕ) where
  abbrev stored : Dvd
  stored = record d { test_files = set d.test_files entry (some content) }

  set_file_some : entry < 512 → 0 < length content → set_file true entry content d ≡ stored
  unfolding set_file
  set_file_some lt pos =
      let e0 : slt32 entry 0 ≡ false = ground arith in
      let e1 : leb 512 entry ≡ false = ground arith in
      let e2 : (length content == 0) ≡ false = ground arith in rw (e0, e1, e2) refl

  -- A file that is stored for an entry is opened there with its length, as long as no table is
  -- there, and read whole, and what the other entries hold stays.
  pub set_file-read :
      length d.test_files ≡ 512
      → d.fst_max_entry_num ≡ 0
      → entry < 512
      → 0 < length content
      → length content < 2 ^ 31
      → (fast_open (set_file true entry content d) entry
          ≡ some
              (record { state = 0; start_addr = entry; length = length content; entrynum = entry }))
        × ((read (set_file true entry content d) entry (length content) 0).0 ≡ some content)
        × ((e len offset : ℕ)
            → e ≢ entry
            → (read (set_file true entry content d) e len offset).0 ≡ (read d e len offset).0)
  unfolding fast_open read
  set_file-read size none_yet lt pos small =
      let e0 : slt32 entry 0 ≡ false = ground arith in
      let e1 : leb 512 entry ≡ false = ground arith in
      let e2 : slt32 (length content) 0 ≡ false = ground arith in
      let g = get_or-set d.test_files entry (some content) none (omega (arith, size, lt)) in
      rw (set_file_some lt pos) (
        rw (e0, e1, none_yet, g) refl,
        rw (e0, e1, g, e2, read_all content small) refl,
        λ e len offset h.
            rw (get_or-set_ne d.test_files entry e (some content) none (λ q. h (sym q))) refl,
      )
