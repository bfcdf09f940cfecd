-- ===== src/Card/Check/Copies.antt =====
-- The two copies of the directory and of the allocation table: the verdict on the card, and which copy
-- is kept.
use gamecube_port.Base.{
  ℕ, zero, suc, ◌+◌, ◌-◌, ◌*◌, ◌/◌, ◌%◌, ◌^◌, ◌≤◌, ◌<◌, ◌≡◌, ◌∙◌, refl, ap, arith, Bool, true,
  false, ◌⊎◌, ◌&&◌, Bool-cases, inl, inr, Option, some, ltb, leb, ◌==◌, if◌then◌else◌,
}
use gamecube_port.Card.{is_error, CardResult, ready, broken}
use gamecube_port.Card.Check.{
  Host, WorkCard, block_size, rd16be, checksum_from, checksum, is_sum, copy_block, is_less16,
  choose_copy, dir_at, fat_at, is_dir, is_fat, count, count_free, verify_id, verify_dir, verify_fat,
  verify,
}

-- Two memories that agree from an address on.
module _ (b b' : Host) (from : ℕ) (same : (a : ℕ) → from ≤ a → b' a ≡ b a) where
  rd16be_same : (p : ℕ) → from ≤ p → rd16be b' p ≡ rd16be b p
  unfolding rd16be
  rd16be_same p h = rw (same p h, same (p + 1) (omega (arith, h))) refl

  checksum_from_same :
      (n p sum inv : ℕ) → from ≤ p → checksum_from n p sum inv b' ≡ checksum_from n p sum inv b
  unfolding checksum_from
  checksum_from_same zero p sum inv h = refl
  checksum_from_same (suc n) p sum inv h =
      ap (λ v. checksum_from n (p + 2) ((sum + v) % 2 ^ 16) ((inv + (2 ^ 16 - 1 - v)) % 2 ^ 16) b')
        (rd16be_same p h)
      ∙ checksum_from_same n (p + 2) _ _ (omega (arith, h))

  is_sum_same : (p length q : ℕ) → from ≤ p → from ≤ q → is_sum b' p length q ≡ is_sum b p length q
  unfolding is_sum checksum
  is_sum_same p length q h k =
      rw
        (
          checksum_from_same (length / 2) p 0 0 h,
          rd16be_same q k,
          rd16be_same (q + 2) (omega (arith, k)),
        )
        refl

  count_free_same :
      (n i fat free : ℕ) → from ≤ fat → count_free n i fat free b' ≡ count_free n i fat free b
  unfolding count_free
  count_free_same zero i fat free h = refl
  count_free_same (suc n) i fat free h =
      ap (λ v. count_free n (i + 1) fat (if v == 0 then (free + 1) % 2 ^ 16 else free) b')
        (rd16be_same (fat + i * 2) (omega (arith, h)))
      ∙ count_free_same n (i + 1) fat _ h

  is_fat_same : (cblock fat : ℕ) → from ≤ fat → is_fat cblock b' fat ≡ is_fat cblock b fat
  unfolding is_fat
  is_fat_same cblock fat h =
      rw
        (
          is_sum_same (fat + 4) (block_size - 4) fat (omega (arith, h)) h,
          count_free_same (cblock % 2 ^ 16 - 5) 5 fat 0 h,
          rd16be_same (fat + 6) (omega (arith, h)),
        )
        refl

-- A block is copied, and nothing else changes.
copy_inside :
    (dst src i : ℕ) (b : Host) → i < block_size → copy_block dst src b (dst + i) ≡ b (src + i)
unfolding copy_block
copy_inside dst src i b h =
    let t : (leb dst (dst + i) && ltb (dst + i) (dst + block_size)) ≡ true = ground (arith, h) in
    let e : dst + i - dst ≡ i = omega arith in rw (t, e) refl

copy_outside :
    (dst src a : ℕ) (b : Host) → (a < dst) ⊎ (dst + block_size ≤ a) → copy_block dst src b a ≡ b a
unfolding copy_block
copy_outside dst src a b h =
    let t : (leb dst a && ltb a (dst + block_size)) ≡ false = ground (arith, h) in rw (t) refl

-- If neither of two sound copies is the current one, both hold afterwards what the newer one held, the
-- newer being the one at `p1` if its check code is greater as a signed number, and the one at `p0`
-- otherwise; the call returns the address of the other one, which was overwritten.
pub choose_copy-newer :
    (p0 p1 off i : ℕ) (b : Host)
    → p0 + block_size ≤ p1
    → i < block_size
    → let (newer, older) : ℕ × ℕ =
        if is_less16 (rd16be b (p0 + off)) (rd16be b (p1 + off)) then (p1, p0) else (p0, p1) in
      let (current, b') = choose_copy p0 p1 off 0 b in
      (b' (p0 + i) ≡ b (newer + i)) × (b' (p1 + i) ≡ b (newer + i)) × (current ≡ older)
unfolding choose_copy
choose_copy-newer p0 p1 off i b far h =
    elim (Bool-cases (is_less16 (rd16be b (p0 + off)) (rd16be b (p1 + off)))) [
      | inl e ↦
          rw (e) (
            copy_inside p0 p1 i b h,
            copy_outside p0 p1 (p1 + i) b (inr (omega (arith, far))),
            refl,
          )
      | inr e ↦ rw (e) (
        copy_outside p1 p0 (p0 + i) b (inl (omega (arith, far, h))),
        copy_inside p1 p0 i b h,
        refl,
      )
    ]

-- What `VerifyDir` counts and leaves.
abbrev Triple : Type 0 → Type 0 → Type 0 → Type 0
Triple A B C = A × B × C

errors_lem :
    {A B : Type 0} (n : ℕ) (x x' : A) (y y' : B)
    → let r : Triple ℕ A B = if n == 0 then (0, x, y) else (n, x', y') in r.0 ≡ n
errors_lem n x x' y y' = elim (Bool-cases (n == 0)) [
  | inl e ↦ rw (e) (ground (arith, e))
  | inr e ↦ rw (e) refl
]

verdict_lem :
    {A B : Type 0} (c : Bool) (r s t : CardResult) (x x' : A) (y y' : B)
    → s ≡ t
    → let o : Triple CardResult A B = if c then (r, x, y) else (s, x', y') in
      o.0 ≡ (if c then r else t)
verdict_lem true r s t x x' y y' h = refl
verdict_lem false r s t x x' y y' h = h

verify_dir-errors :
    (card : WorkCard) (b : Host)
    → (verify_dir card b).0 ≡ count (is_dir b (dir_at card 0)) + count (is_dir b (dir_at card 1))
unfolding verify_dir
verify_dir-errors card b =
    errors_lem (count (is_dir b (dir_at card 0)) + count (is_dir b (dir_at card 1))) _ _ _ _

verify_fat-errors :
    (card : WorkCard) (b : Host)
    → (verify_fat card b).0
      ≡ count (is_fat card.cblock b (fat_at card 0)) + count (is_fat card.cblock b (fat_at card 1))
unfolding verify_fat
verify_fat-errors card b =
    errors_lem
      (count (is_fat card.cblock b (fat_at card 0)) + count (is_fat card.cblock b (fat_at card 1)))
      _ _ _ _

choose_same :
    (p0 p1 off current a : ℕ) (b : Host)
    → p0 + block_size ≤ a
    → p1 + block_size ≤ a
    → (choose_copy p0 p1 off current b).1 a ≡ b a
unfolding choose_copy
choose_same p0 p1 off current a b h k = elim (Bool-cases (current == 0)) [
  | inr e ↦ rw (e) refl
  | inl e ↦ elim (Bool-cases (is_less16 (rd16be b (p0 + off)) (rd16be b (p1 + off)))) [
    | inl f ↦ rw (e, f) (copy_outside p0 p1 a b (inr h))
    | inr f ↦ rw (e, f) (copy_outside p1 p0 a b (inr k))
  ]
]

-- The directory's check leaves the card but for its pointer, and memory from the tables on.
record IsLeft (card card' : WorkCard) (b b' : Host) : Type 0 where
  work_area : card'.work_area ≡ card.work_area
  cblock : card'.cblock ≡ card.cblock
  same : (a : ℕ) → fat_at card 0 ≤ a → b' a ≡ b a

verify_dir-IsLeft :
    (card : WorkCard) (b : Host) → IsLeft card ((verify_dir card b).1) b ((verify_dir card b).2)
unfolding verify_dir
verify_dir-IsLeft card b =
    go (Bool-cases (count (is_dir b (dir_at card 0)) + count (is_dir b (dir_at card 1)) == 0))
  where
    go :
        ((count (is_dir b (dir_at card 0)) + count (is_dir b (dir_at card 1)) == 0) ≡ true)
          ⊎ ((count (is_dir b (dir_at card 0)) + count (is_dir b (dir_at card 1)) == 0) ≡ false)
        → IsLeft card ((verify_dir card b).1) b ((verify_dir card b).2)
    go (inl e) = rw (e) (record {
      work_area = refl;
      cblock = refl;
      same = λ a h.
          choose_same (dir_at card 0) (dir_at card 1) _ card.current_dir_ptr a b (omega (arith, h))
            (omega (arith, h));
    })
    go (inr e) = rw (e) (record { work_area = refl; cblock = refl; same = λ a h. refl })

-- Whether all copies are sound.
abbrev pub all_sound : WorkCard → Host → Bool
all_sound card b =
    is_dir b (dir_at card 0)
    && is_dir b (dir_at card 1)
    && (is_fat card.cblock b (fat_at card 0) && is_fat card.cblock b (fat_at card 1))

-- The tables are found through two fields of the card.
fats :
    (c card : WorkCard) (b : Host)
    → c.work_area ≡ card.work_area
    → c.cblock ≡ card.cblock
    → count (is_fat c.cblock b (fat_at c 0)) + count (is_fat c.cblock b (fat_at c 1))
      ≡ count (is_fat card.cblock b (fat_at card 0)) + count (is_fat card.cblock b (fat_at card 1))
fats c card b h k =
    let f : ℕ → ℕ → ℕ = λ w n.
      count (is_fat n b (w + (3 + 0) * block_size))
      + count (is_fat n b (w + (3 + 1) * block_size)) in
    ap (λ w. f w c.cblock) h ∙ ap (f card.work_area) k

four_counts :
    (p q r s : Bool) → (count p + count q + (count r + count s) == 0) ≡ (p && q && (r && s))
four_counts true true true true = refl
four_counts p q r s = ground arith

sound_lem :
    (card : WorkCard) (b : Host)
    → IsLeft card ((verify_dir card b).1) b ((verify_dir card b).2)
    → ((verify_dir card b).0 + (verify_fat ((verify_dir card b).1) ((verify_dir card b).2)).0 == 0)
      ≡ all_sound card b
sound_lem card b l =
    let d = verify_dir card b in
    let low = fat_at card 0 in
    let f0 = is_fat_same b (d.2) low l.same card.cblock (fat_at card 0) (omega arith) in
    let f1 = is_fat_same b (d.2) low l.same card.cblock (fat_at card 1) (omega arith) in
    let e =
      verify_fat-errors (d.1) (d.2)
      ∙ fats (d.1) card (d.2) l.work_area l.cblock
      ∙ ap (λ t. count t + count (is_fat card.cblock (d.2) (fat_at card 1))) f0
      ∙ ap (λ t. count (is_fat card.cblock b (fat_at card 0)) + count t) f1 in
    ap (λ n. n + (verify_fat (d.1) (d.2)).0 == 0) (verify_dir-errors card b)
    ∙ ap (λ n. count (is_dir b (dir_at card 0)) + count (is_dir b (dir_at card 1)) + n == 0) e
    ∙ four_counts (is_dir b (dir_at card 0)) (is_dir b (dir_at card 1))
        (is_fat card.cblock b (fat_at card 0)) (is_fat card.cblock b (fat_at card 1))

-- The result of the check of a card: that of its header if it is an error, and otherwise ready exactly
-- if both copies of the directory and both of the allocation table were sound before the call.
pub verify-verdict :
    (encode : ℕ) (flash : Option (ℕ → ℕ)) (card : WorkCard) (b : Host)
    → (verify encode flash (some card) b).0 ≡ (
        if is_error (verify_id encode flash card b)
        then verify_id encode flash card b
        else if all_sound card b
        then ready
        else broken)
unfolding verify
verify-verdict encode flash card b =
    let l = verify_dir-IsLeft card b in
    verdict_lem (is_error (verify_id encode flash card b)) _ _ _ _ _ _ _
      (ap (λ t. if t then ready else broken) (sound_lem card b l))
