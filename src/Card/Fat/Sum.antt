-- ===== src/Card/Fat/Sum.antt =====
-- The check sums that `port_CARDUpdateFatBlock` leaves are those of the table it leaves.
use gamecube_port.Base.{
  ℕ, zero, suc, ◌+◌, ◌*◌, ◌/◌, ◌%◌, ◌≤◌, ◌<◌, ◌^◌, ◌≡◌, refl, ◌∙◌, sym, ap, arith, inl,
}
use gamecube_port.GcMem.{Mem, Mapped, store_u16be, field16, add32, mul32}
use gamecube_port.GcMem.Laws.{load_u16be-store_self, load_u16be-store_apart, Mapped-field}
use gamecube_port.Card.Fat.{
  CardControl, check_sum, check_sum_from, fold_sum, update_fat_block, fat_checksum, fat_checksuminv,
  fat_checkcode,
}

-- A store below the words that are summed leaves the sums.
check_sum_from-store_below :
    (n i addr sum inv a v : ℕ) (m : Mem)
    → a + 2 ≤ addr
    → addr + 2 * (i + n) ≤ 2 ^ 32
    → check_sum_from n i addr sum inv (store_u16be m a v) ≡ check_sum_from n i addr sum inv m
unfolding check_sum_from
check_sum_from-store_below zero i addr sum inv a v m h b = refl
check_sum_from-store_below (suc n) i addr sum inv a v m h b = rw (
  load_u16be-store_apart m a (add32 addr (mul32 i 2)) v (inl (omega arith)),
  check_sum_from-store_below n (i + 1) addr _ _ a v m h (omega arith),
)

check_sum-store_below :
    (addr length a v : ℕ) (m : Mem)
    → a + 2 ≤ addr
    → addr + length ≤ 2 ^ 32
    → check_sum addr length (store_u16be m a v) ≡ check_sum addr length m
unfolding check_sum
check_sum-store_below addr length a v m h b =
    ap (λ s. (fold_sum s.0, fold_sum s.1))
      (check_sum_from-store_below (length / 2) 0 addr 0 0 a v m h (omega arith))

check_sum_from-lt :
    (n i addr sum inv : ℕ) (m : Mem)
    → sum < 2 ^ 16
    → inv < 2 ^ 16
    → ((check_sum_from n i addr sum inv m).0 < 2 ^ 16)
      × ((check_sum_from n i addr sum inv m).1 < 2 ^ 16)
unfolding check_sum_from
check_sum_from-lt zero i addr sum inv m h k = (h, k)
check_sum_from-lt (suc n) i addr sum inv m h k =
    check_sum_from-lt n (i + 1) addr _ _ m (omega arith) (omega arith)

fold_sum-lt : (s : ℕ) → s < 2 ^ 16 → fold_sum s < 2 ^ 16
unfolding fold_sum
fold_sum-lt s h = ground arith

check_sum-lt :
    (addr length : ℕ) (m : Mem)
    → ((check_sum addr length m).0 < 2 ^ 16) × ((check_sum addr length m).1 < 2 ^ 16)
unfolding check_sum
check_sum-lt addr length m =
    let (a, b) = check_sum_from-lt (length / 2) 0 addr 0 0 m (omega arith) (omega arith) in
    (fold_sum-lt _ a, fold_sum-lt _ b)

-- The three words in front of the table's entries: the two sums, and the check code `c`.
abbrev words : Mem → (fat c s t : ℕ) → Mem
words m fat c s t =
    store_u16be (store_u16be (store_u16be m (add32 fat 4) c) (add32 fat 0) s) (add32 fat 2) t

module _ (m : Mem) (fat c s t : ℕ) (h : Mapped m fat 0x2000) where
  word_0 : s < 2 ^ 16 → field16 (words m fat c s t) fat 0 ≡ s
  word_0 l =
      load_u16be-store_apart _ (add32 fat 2) (add32 fat 0) t (omega arith)
      ∙ load_u16be-store_self (store_u16be m (add32 fat 4) c) (add32 fat 0) s
          (Mapped-field m 0x2000 fat 0 2 h (omega arith) (omega arith)) l

  word_1 : t < 2 ^ 16 → field16 (words m fat c s t) fat 2 ≡ t
  word_1 l =
      load_u16be-store_self _ (add32 fat 2) t
        (Mapped-field m 0x2000 fat 2 2 h (omega arith) (omega arith)) l

  word_2 : c < 2 ^ 16 → field16 (words m fat c s t) fat 4 ≡ c
  word_2 l =
      load_u16be-store_apart _ (add32 fat 2) (add32 fat 4) t (omega arith)
      ∙ load_u16be-store_apart _ (add32 fat 0) (add32 fat 4) s (omega arith)
      ∙ load_u16be-store_self m (add32 fat 4) c
          (Mapped-field m 0x2000 fat 4 2 h (omega arith) (omega arith)) l

  -- The sums are taken above the words that hold them.
  words-check_sum :
      (length : ℕ)
      → length ≤ 0x1FFC
      → check_sum (add32 fat 4) length (words m fat c s t)
        ≡ check_sum (add32 fat 4) length (store_u16be m (add32 fat 4) c)
  words-check_sum length l =
      check_sum-store_below (add32 fat 4) length (add32 fat 2) t _ (omega arith) (omega arith)
      ∙ check_sum-store_below (add32 fat 4) length (add32 fat 0) s _ (omega arith) (omega arith)

-- The table in the memory `m` carries the check sums of its words from the check code on.
abbrev pub IsChecked : ℕ → Mem → Type 0
IsChecked fat m =
    (field16 m fat (fat_checksum * 2) ≡ (check_sum (add32 fat (fat_checkcode * 2)) 0x1FFC m).0)
    × (field16 m fat (fat_checksuminv * 2) ≡ (check_sum (add32 fat (fat_checkcode * 2)) 0x1FFC m).1)

-- After `port_CARDUpdateFatBlock` the two check sums that the table stores are those that
-- `port_CARDCheckSum` computes from the table, and the check code has gone up by one, modulo 2 ^ 16.
pub update_fat_block-IsChecked :
    (card : CardControl) (m : Mem)
    → Mapped m card.fat_addr 0x2000
    → IsChecked card.fat_addr ((update_fat_block card m).1)
      × (field16 ((update_fat_block card m).1) card.fat_addr 4
          ≡ (field16 m card.fat_addr 4 + 1) % 2 ^ 16)
unfolding update_fat_block
update_fat_block-IsChecked card m h =
    let fat = card.fat_addr in
    let c = (field16 m fat 4 + 1) % 2 ^ 16 in
    let sums = check_sum (add32 fat 4) 0x1FFC (store_u16be m (add32 fat 4) c) in
    let same = words-check_sum m fat c (sums.0) (sums.1) h 0x1FFC (omega arith) in
    let (a, b) = check_sum-lt (add32 fat 4) 0x1FFC (store_u16be m (add32 fat 4) c) in
    (
      (
        word_0 m fat c (sums.0) (sums.1) h a ∙ sym (ap (λ r. r.0) same),
        word_1 m fat c (sums.0) (sums.1) h b ∙ sym (ap (λ r. r.1) same),
      ),
      word_2 m fat c (sums.0) (sums.1) h (omega arith),
    )
