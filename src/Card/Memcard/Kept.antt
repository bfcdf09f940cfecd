-- ===== src/Card/Memcard/Kept.antt =====
-- What is written to a card and flushed is there when the card comes back.
use gamecube_port.Base.{
  ℕ, zero, suc, ◌+◌, ◌-◌, ◌≤◌, ◌<◌, ◌≡◌, refl, ◌∙◌, ap, arith, Bool, true, false, Option, none,
  some, List, [], ◌∷◌, ◌++◌, ltb, ◌==◌, if◌then◌else◌, length, length-append, Bool-cases, inl, inr,
}
use gamecube_port.Dvd.Paths.{strcmp, drop}
use gamecube_port.Dvd.Files.{take}
use gamecube_port.Card.Memcard.{
  Memcard, Memcards, no_card, set_card, store_file, is_chan, is_inside, blank, write_file,
  load_or_create, load_from, insert, eject, read_with, read_card, splice, write_with, write_card,
  flush_with, flush, max_size,
}

strcmp_refl : (p : List ℕ) → strcmp p p ≡ true
unfolding strcmp
strcmp_refl [] = refl
strcmp_refl (x ∷ p) = let e : (x == x) ≡ true = ground arith in rw e (strcmp_refl p)

length-take : {A : Type 0} (n : ℕ) (xs : List A) → length (take n xs) ≤ n
length-take zero xs = omega arith
length-take (suc n) [] = omega arith
length-take (suc n) (x ∷ xs) = omega (arith, length-take n xs)

take_enough : {A : Type 0} (n : ℕ) (xs : List A) → length xs ≤ n → take n xs ≡ xs
take_enough zero [] h = refl
take_enough zero (x ∷ xs) h = absurd (omega (arith, h))
take_enough (suc n) [] h = refl
take_enough (suc n) (x ∷ xs) h = ap (◌∷◌ x) (take_enough n xs (omega (arith, h)))

length-blank : (n : ℕ) → length (blank n) ≡ n
length-blank zero = refl
length-blank (suc n) = omega (arith, length-blank n)

append_none : (xs : List ℕ) (n : ℕ) → n ≡ 0 → xs ++ blank n ≡ xs
append_none [] n e = rw e refl
append_none (x ∷ xs) n e = ap (◌∷◌ x) (append_none xs n e)

take-append : (xs ys : List ℕ) → take (length xs) (xs ++ ys) ≡ xs
take-append [] ys = refl
take-append (x ∷ xs) ys = ap (◌∷◌ x) (take-append xs ys)

take-drop-splice :
    (image : List ℕ) (off : ℕ) (bytes : List ℕ)
    → off + length bytes ≤ length image
    → take (length bytes) (drop off (splice image off bytes)) ≡ bytes
take-drop-splice image zero bytes h = take-append bytes (drop (length bytes) image)
take-drop-splice [] (suc off) bytes h = absurd (omega (arith, h))
take-drop-splice (x ∷ image) (suc off) bytes h = take-drop-splice image off bytes (omega (arith, h))

length-drop : (n : ℕ) (xs : List ℕ) → n ≤ length xs → length (drop n xs) + n ≡ length xs
length-drop zero xs h = omega arith
length-drop (suc n) [] h = absurd (omega (arith, h))
length-drop (suc n) (x ∷ xs) h = omega (arith, length-drop n xs (omega (arith, h)))

length-splice :
    (image : List ℕ) (off : ℕ) (bytes : List ℕ)
    → off + length bytes ≤ length image
    → length (splice image off bytes) ≡ length image
length-splice image zero bytes h = omega (
  arith,
  length-append bytes (drop (length bytes) image),
  length-drop (length bytes) image (omega (arith, h)),
)
length-splice [] (suc off) bytes h = absurd (omega (arith, h))
length-splice (x ∷ image) (suc off) bytes h =
    omega (arith, length-splice image off bytes (omega (arith, h)))

module _ (chan : ℕ) (path : List ℕ) (size : ℕ) where
  abbrev kept : List ℕ
  kept = take 511 path

  -- A card in place with an image of its size.
  abbrev in_place : List ℕ → Bool → Memcard
  in_place image is_dirty = record {
    inserted = true;
    size = size;
    image = some image;
    is_dirty = is_dirty;
    path = kept;
  }

  chan_self : (s : Memcards) (c : Memcard) → (set_card s chan c).card chan ≡ c
  chan_self s c = let e : (chan == chan) ≡ true = ground arith in rw e refl

  module _ (valid : is_chan chan ≡ true) (named : 0 < length path) (some_size : 0 < size)
      (small : size ≤ max_size) where
    -- The image that an insertion loads or creates.
    abbrev loaded : Option ℕ → Memcards → Bool × List ℕ × Memcards
    loaded room s = load_or_create room (set_card s chan no_card) kept size

    insert_lem :
        (room : Option ℕ) (s : Memcards)
        → insert room s chan path size ≡ (
            if (loaded room s).0
            then (true, set_card ((loaded room s).2) chan (in_place ((loaded room s).1) false))
            else (false, set_card ((loaded room s).2) chan no_card))
    unfolding insert
    insert_lem room s =
        let e0 : (length path == 0) ≡ false = ground arith in
        let e1 : (size == 0) ≡ false = ground arith in
        let e2 : ltb max_size size ≡ false = ground arith in rw (valid, e0, e1, e2) refl

    loaded_length :
        (room : Option ℕ) (s : Memcards) (f : Option (List ℕ))
        → length ((load_from f room s kept size).1) ≡ size
    unfolding load_from
    loaded_length room s none = length-blank size
    loaded_length room s (some bytes) = omega (
      arith,
      length-append (take size bytes) (blank (size - length (take size bytes))),
      length-take size bytes,
      length-blank (size - length (take size bytes)),
    )

    -- An insertion that succeeds leaves a card with an image of its size.
    insert_place :
        (room : Option ℕ) (s : Memcards)
        → (insert room s chan path size).0 ≡ true
        → (image : List ℕ) × (length image ≡ size)
          × ((insert room s chan path size).1.card chan ≡ in_place image false)
    unfolding load_or_create
    insert_place room s h = elim (Bool-cases ((loaded room s).0)) [
      | inl e ↦ (
        (loaded room s).1,
        loaded_length room (set_card s chan no_card) (s.file kept),
        rw (insert_lem room s, e)
            (chan_self ((loaded room s).2) (in_place ((loaded room s).1) false)),
      )
      | inr e ↦ absurd (ground (arith, e, insert_lem room s, h))
    ]

    -- With an image of the size in the file, the insertion loads it.
    insert_again :
        (room : Option ℕ) (s : Memcards) (image : List ℕ)
        → s.file kept ≡ some image
        → length image ≡ size
        → (insert room s chan path size).1.card chan ≡ in_place image false
    unfolding load_or_create load_from
    insert_again room s image e n =
        let whole = take_enough size image (omega (arith, n)) in
        let full = append_none image (size - length image) (omega (arith, n)) in
        rw (insert_lem room s, e, whole, full)
          (chan_self (set_card s chan no_card) (in_place image false))

    module _ (off : ℕ) (bytes : List ℕ) (inside : off + length bytes ≤ size) where
      is_in :
          (image : List ℕ) (dirty : Bool)
          → is_inside (in_place image dirty) off (length bytes) ≡ true
      is_in image dirty = ground (arith, inside)

      write_lem :
          (s : Memcards) (image : List ℕ)
          → write_with (in_place image false) s chan off bytes
            ≡ (true, set_card s chan (in_place (splice image off bytes) true))
      unfolding write_with
      write_lem s image = rw (valid, is_in image false) refl

      flush_lem :
          (room : ℕ) (s : Memcards) (image : List ℕ)
          → length image ≤ room
          → flush_with (in_place image true) (some room) s chan
            ≡ (true, set_card (store_file s kept image) chan (in_place image false))
      unfolding flush_with write_file
      flush_lem room s image le =
          let same : (length image == length image) ≡ true = ground arith in
          rw (valid, take_enough room image le, same) refl

      read_lem :
          (image : List ℕ)
          → read_with (in_place image false) chan off (length bytes)
            ≡ some (take (length bytes) (drop off image))
      unfolding read_with
      read_lem image = rw (valid, is_in image false) refl

      read_none : read_with no_card chan off (length bytes) ≡ none
      unfolding read_with
      read_none = rw valid refl

      -- The same calls on a state whose card is known.
      write_at :
          (s : Memcards) (image : List ℕ)
          → s.card chan ≡ in_place image false
          → write_card s chan off bytes
            ≡ (true, set_card s chan (in_place (splice image off bytes) true))
      unfolding write_card
      write_at s image e = ap (λ c. write_with c s chan off bytes) e ∙ write_lem s image

      flush_at :
          (room : ℕ) (s : Memcards) (image : List ℕ)
          → s.card chan ≡ in_place image true
          → length image ≤ room
          → flush (some room) s chan
            ≡ (true, set_card (store_file s kept image) chan (in_place image false))
      unfolding flush
      flush_at room s image e le =
          ap (λ c. flush_with c (some room) s chan) e ∙ flush_lem room s image le

      read_at :
          (s : Memcards) (image : List ℕ)
          → s.card chan ≡ in_place image false
          → read_card s chan off (length bytes) ≡ some (take (length bytes) (drop off image))
      unfolding read_card
      read_at s image e = ap (λ c. read_with c chan off (length bytes)) e ∙ read_lem image

      eject_at : (s : Memcards) → eject s chan ≡ set_card s chan no_card
      unfolding eject
      eject_at s = rw valid refl

      read_ejected :
          (s : Memcards) → read_card (set_card s chan no_card) chan off (length bytes) ≡ none
      unfolding read_card
      read_ejected s =
          ap (λ c. read_with c chan off (length bytes)) (chan_self s no_card) ∙ read_none

      -- For a card that could be inserted under a path, bytes that are written inside it and flushed
      -- to a host with room for the image are read again after the card was taken out, where it loses
      -- its image, and inserted again, whatever file was there before.
      pub insert-flush :
          (room again : Option ℕ) (enough : ℕ) (s : Memcards)
          → (insert room s chan path size).0 ≡ true
          → size ≤ enough
          → let s1 = (insert room s chan path size).1 in
            let (written, s2) = write_card s1 chan off bytes in
            let (flushed, s3) = flush (some enough) s2 chan in
            let s4 = eject s3 chan in
            (written ≡ true)
            × (flushed ≡ true)
            × (read_card s4 chan off (length bytes) ≡ none)
            × (read_card (insert again s4 chan path size).1 chan off (length bytes) ≡ some bytes)
      insert-flush room again enough s ok le =
          let (image, n, e) = insert_place room s ok in
          let s1 = (insert room s chan path size).1 in
          let image' = splice image off bytes in
          let fits : off + length bytes ≤ length image = omega (arith, inside, n) in
          let n' : length image' ≡ size = length-splice image off bytes fits ∙ n in
          let s2 = set_card s1 chan (in_place image' true) in
          let s3 = set_card (store_file s2 kept image') chan (in_place image' false) in
          let fl =
            flush_at enough s2 image' (chan_self s1 (in_place image' true))
              (omega (arith, n', le)) in
          let s4 = set_card s3 chan no_card in
          let stored : s4.file kept ≡ some image' = rw (strcmp_refl kept) refl in
          let back =
            read_at ((insert again s4 chan path size).1) image'
              (insert_again again s4 image' stored n') in
          rw (write_at s1 image e, fl, eject_at s3)
            (refl, refl, read_ejected s3, back ∙ ap some (take-drop-splice image off bytes fits))
