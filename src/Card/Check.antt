-- ===== src/Card/Check.antt =====
-- sdk_port/card/CARDCheck.c: the checks of a card's header, directory and allocation table in its work
-- area, which is host memory. `OSGetFontEncode` and the flash identifier behind `__OSLockSramEx` are
-- arguments.
pub mod Copies
pub mod Agree
mod Tests
use gamecube_port.Base.{
  ℕ, zero, suc, ◌+◌, ◌-◌, ◌*◌, ◌/◌, ◌%◌, ◌^◌, Bool, true, false, not, ◌&&◌, ◌||◌, Option, none,
  some, ltb, leb, ◌==◌, if◌then◌else◌,
}
use gamecube_port.Card.{is_error, CardResult, ready, broken, encoding, fatal_error}
use gamecube_port.Card.Fat.{fold_sum}

-- `CARD_SYSTEM_BLOCK_SIZE`
abbrev pub block_size : ℕ
block_size = 0x2000

-- The bytes of host memory by address, each read modulo 2 ^ 8.
abbrev pub Host : Type 0
Host = ℕ → ℕ

-- The fields of `GcCardControl` that the checks use; a null pointer is 0.
pub record WorkCard : Type 0 where
  pub work_area : ℕ
  pub size_u16 : ℕ
  pub cblock : ℕ
  pub current_dir_ptr : ℕ
  pub current_fat_ptr : ℕ

-- `rd16be`
unfoldable pub rd16be : Host → ℕ → ℕ
rd16be b p = b p % 2 ^ 8 * 2 ^ 8 + b (p + 1) % 2 ^ 8

-- The loop of `rd64be` over `n` bytes from `p` on.
unfoldable pub rd64be_from : (n p v : ℕ) → Host → ℕ
rd64be_from zero p v b = v
rd64be_from (suc n) p v b = rd64be_from n (p + 1) (v * 2 ^ 8 % 2 ^ 64 + b p % 2 ^ 8) b

-- The loop of `card_checksum_u16be` over `n` words from `p` on.
unfoldable pub checksum_from : (n p sum inv : ℕ) → Host → ℕ × ℕ
unfolding rd16be
checksum_from zero p sum inv b = (sum, inv)
checksum_from (suc n) p sum inv b =
    let v = rd16be b p in
    checksum_from n (p + 2) ((sum + v) % 2 ^ 16) ((inv + (2 ^ 16 - 1 - v)) % 2 ^ 16) b

-- `card_checksum_u16be`
unfoldable pub checksum : Host → (p length : ℕ) → ℕ × ℕ
unfolding checksum_from fold_sum
checksum b p length = let s = checksum_from (length / 2) p 0 0 b in (fold_sum s.0, fold_sum s.1)

-- The two check sums of `length` bytes from `p` on are those stored at `q`.
unfoldable pub is_sum : Host → (p length q : ℕ) → Bool
unfolding checksum rd16be
is_sum b p length q =
    let s = checksum b p length in (rd16be b q == s.0) && (rd16be b (q + 2) == s.1)

-- `rand` before and after the serial byte, in the loop of `VerifyID`
abbrev pub step : ℕ → ℕ
step rand = (rand * 1103515245 + 12345) % 2 ^ 64 / 2 ^ 16

-- The loop of `VerifyID` over `n` serial bytes from the one numbered `i`.
unfoldable pub is_serial_from : (n i rand id : ℕ) → (flash_id : ℕ → ℕ) → Host → Bool
is_serial_from zero i rand id flash b = true
is_serial_from (suc n) i rand id flash b =
    let r = step rand in
    (b (id + i) % 2 ^ 8 == (flash i + r) % 2 ^ 8)
    && is_serial_from n (i + 1) (step r % 2 ^ 15) id flash b

-- `VerifyID`; without the flash identifier the SRAM could not be locked.
unfoldable pub verify_id : (encode : ℕ) → Option (ℕ → ℕ) → WorkCard → Host → CardResult
unfolding is_sum rd16be rd64be_from is_serial_from
verify_id encode flash card b =
    let id = card.work_area in
    if id == 0
    then broken
    else if not (rd16be b (id + 32) == 0) || not (rd16be b (id + 34) == card.size_u16)
    then broken
    else if not (is_sum b id 508 (id + 508))
    then broken
    else if not (rd16be b (id + 36) == encode)
    then encoding
    else elim flash [
      | none ↦ broken
      | some f ↦ if is_serial_from 12 0 (rd64be_from 8 (id + 12) 0 b) id f b then ready else broken
    ]

-- `memcpy` between two blocks, neither of which overlaps the other.
unfoldable pub copy_block : (dst src : ℕ) → Host → Host
copy_block dst src b a = if leb dst a && ltb a (dst + block_size) then b (src + (a - dst)) else b a

-- The difference of two check codes, each an `int16_t`, is negative.
abbrev pub is_less16 : ℕ → ℕ → Bool
is_less16 a c = ltb ((a + 2 ^ 15) % 2 ^ 16) ((c + 2 ^ 15) % 2 ^ 16)

-- The choice between two sound copies at `p0` and `p1` whose check codes stand at `off`: the current
-- one, and memory with the newer copied over the older if there was none.
unfoldable pub choose_copy : (p0 p1 off current : ℕ) → Host → ℕ × Host
unfolding rd16be copy_block
choose_copy p0 p1 off current b =
    let older0 = is_less16 (rd16be b (p0 + off)) (rd16be b (p1 + off)) in
    if not (current == 0)
    then (current, b)
    else if older0
    then (p0, copy_block p0 p1 b)
    else (p1, copy_block p1 p0 b)

abbrev pub dir_at : WorkCard → ℕ → ℕ
dir_at card i = card.work_area + (1 + i) * block_size

-- The check of one copy of the directory, in `VerifyDir`.
unfoldable pub is_dir : Host → ℕ → Bool
unfolding is_sum
is_dir b dir = is_sum b dir (block_size - 4) (dir + 127 * 64 + 60)

abbrev pub count : Bool → ℕ
count ok = if ok then 0 else 1

-- `VerifyDir`: the number of bad copies.
unfoldable pub verify_dir : WorkCard → Host → ℕ × WorkCard × Host
unfolding is_dir choose_copy
verify_dir card b =
    let d0 = dir_at card 0 in
    let d1 = dir_at card 1 in
    let errors = count (is_dir b d0) + count (is_dir b d1) in
    let r = choose_copy d0 d1 (127 * 64 + 58) card.current_dir_ptr b in
    if errors == 0
    then (0, record card { current_dir_ptr = r.0 }, r.1)
    else (errors, record card { current_dir_ptr = 0 }, b)

abbrev pub fat_at : WorkCard → ℕ → ℕ
fat_at card i = card.work_area + (3 + i) * block_size

-- The free blocks among `n` from the one numbered `i` on.
unfoldable pub count_free : (n i fat free : ℕ) → Host → ℕ
unfolding rd16be
count_free zero i fat free b = free
count_free (suc n) i fat free b =
    count_free n (i + 1) fat (if rd16be b (fat + i * 2) == 0 then (free + 1) % 2 ^ 16 else free) b

-- The check of one copy of the allocation table, in `VerifyFAT`.
unfoldable pub is_fat : (cblock : ℕ) → Host → ℕ → Bool
unfolding is_sum rd16be count_free
is_fat cblock b fat =
    is_sum b (fat + 4) (block_size - 4) fat
    && (count_free (cblock % 2 ^ 16 - 5) 5 fat 0 b == rd16be b (fat + 6))

-- `VerifyFAT`: the number of bad copies.
unfoldable pub verify_fat : WorkCard → Host → ℕ × WorkCard × Host
unfolding is_fat choose_copy
verify_fat card b =
    let f0 = fat_at card 0 in
    let f1 = fat_at card 1 in
    let errors = count (is_fat card.cblock b f0) + count (is_fat card.cblock b f1) in
    let r = choose_copy f0 f1 4 card.current_fat_ptr b in
    if errors == 0
    then (0, record card { current_fat_ptr = r.0 }, r.1)
    else (errors, record card { current_fat_ptr = 0 }, b)

-- `__CARDVerify`; no card is a null pointer.
unfoldable pub verify :
    (encode : ℕ) → Option (ℕ → ℕ) → Option WorkCard → Host → CardResult × Option WorkCard × Host
unfolding verify_id verify_dir verify_fat
verify encode flash none b = (fatal_error, none, b)
verify encode flash (some card) b =
    let result = verify_id encode flash card b in
    let d = verify_dir card b in
    let f = verify_fat (d.1) (d.2) in
    if is_error result
    then (result, some card, b)
    else (if d.0 + f.0 == 0 then ready else broken, some (f.1), f.2)
