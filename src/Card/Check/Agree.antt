-- ===== src/Card/Check/Agree.antt =====
-- card_fat.c and CARDCheck.c agree: the check of a table accepts the sums that the update of the table
-- stores, where the work area is the buffer of emulated RAM.
use gamecube_port.Base.{
  ℕ, zero, suc, ◌+◌, ◌-◌, ◌*◌, ◌%◌, ◌^◌, ◌≤◌, ◌≡◌, ◌∙◌, refl, sym, ap, arith, true, ◌&&◌, ◌==◌,
}
use gamecube_port.GcMem.{Mem, Mapped, load_u16be, gc_mem_ptr, add32, mul32}
use gamecube_port.Card.Fat.{CardControl, check_sum_from, check_sum, fold_sum, update_fat_block}
use gamecube_port.Card.Fat.Sum.{IsChecked, update_fat_block-IsChecked}
use gamecube_port.Card.Check.{block_size, rd16be, checksum_from, checksum, is_sum}

both_equal : (x y p q : ℕ) → x ≡ p → y ≡ q → ((x == p) && (y == q)) ≡ true
both_equal x y p q h k = ground (arith, h, k)

stored-is_sum :
    (b : ℕ → ℕ) (p length q : ℕ)
    → rd16be b q ≡ (checksum b p length).0
    → rd16be b (q + 2) ≡ (checksum b p length).1
    → is_sum b p length q ≡ true
unfolding is_sum
stored-is_sum b p length q h k = both_equal _ _ _ _ h k

module _ (m : Mem) (fat : ℕ) (h : Mapped m fat block_size) where
  word_same :
      (i : ℕ) → i + 2 ≤ block_size → load_u16be m (fat + i) ≡ rd16be m.byte (fat - m.base + i)
  unfolding load_u16be gc_mem_ptr rd16be
  word_same i l = ground (arith, h, l)

  entry_same :
      (i : ℕ)
      → 4 + i * 2 + 2 ≤ block_size
      → load_u16be m (add32 (fat + 4) (mul32 i 2)) ≡ rd16be m.byte (fat - m.base + 4 + i * 2)
  entry_same i l =
      let a : add32 (fat + 4) (mul32 i 2) ≡ fat + (4 + i * 2) = omega (arith, h, l) in
      let b : fat - m.base + (4 + i * 2) ≡ fat - m.base + 4 + i * 2 = omega arith in
      ap (load_u16be m) a ∙ word_same (4 + i * 2) l ∙ ap (rd16be m.byte) b

  sum_same :
      (n i s t : ℕ)
      → 4 + (i + n) * 2 ≤ block_size
      → check_sum_from n i (fat + 4) s t m ≡ checksum_from n (fat - m.base + 4 + i * 2) s t m.byte
  unfolding check_sum_from checksum_from
  sum_same zero i s t l = refl
  sum_same (suc n) i s t l =
      let v = rd16be m.byte (fat - m.base + 4 + i * 2) in
      let s' = (s + v) % 2 ^ 16 in
      let t' = (t + (2 ^ 16 - 1 - v)) % 2 ^ 16 in
      let p : fat - m.base + 4 + (i + 1) * 2 ≡ fat - m.base + 4 + i * 2 + 2 = omega arith in
      ap
        (λ w.
          check_sum_from n (i + 1) (fat + 4) ((s + w) % 2 ^ 16) ((t + (2 ^ 16 - 1 - w)) % 2 ^ 16) m)
        (entry_same i (omega (arith, l)))
      ∙ sum_same n (i + 1) s' t' (omega (arith, l))
      ∙ ap (λ q. checksum_from n q s' t' m.byte) p

  check_sum-checksum :
      check_sum (fat + 4) 0x1FFC m ≡ checksum m.byte (fat - m.base + 4) (block_size - 4)
  unfolding check_sum checksum
  check_sum-checksum =
      ap (λ r. (fold_sum (r.0), fold_sum (r.1)))
        (sum_same 4094 0 0 0 (omega arith)
          ∙ ap (λ q. checksum_from 4094 q 0 0 m.byte) (omega arith))

  IsChecked-is_sum :
      IsChecked fat m → is_sum m.byte (fat - m.base + 4) (block_size - 4) (fat - m.base) ≡ true
  IsChecked-is_sum r =
      let q = fat - m.base in
      let a : fat + 0 ≡ add32 fat 0 = omega (arith, h) in
      let b : fat + 2 ≡ add32 fat 2 = omega (arith, h) in
      let c : fat - m.base ≡ fat - m.base + 0 = omega arith in
      let w0 = ap (rd16be m.byte) c ∙ sym (word_same 0 (omega arith)) ∙ ap (load_u16be m) a in
      let w2 = sym (word_same 2 (omega arith)) ∙ ap (load_u16be m) b in
      let e : add32 fat 4 ≡ fat + 4 = omega (arith, h) in
      let sums = ap (λ z. check_sum z 0x1FFC m) e ∙ check_sum-checksum in
      stored-is_sum m.byte (q + 4) (block_size - 4) q (w0 ∙ r.0 ∙ ap (λ z. z.0) sums)
        (w2 ∙ r.1 ∙ ap (λ z. z.1) sums)

-- The sums that `port_CARDUpdateFatBlock` stores in a mapped table are those that `VerifyFAT` asks for.
pub update_fat_block-is_sum :
    (card : CardControl) (m : Mem)
    → Mapped m card.fat_addr block_size
    → let b = ((update_fat_block card m).1).byte in
      is_sum b (card.fat_addr - m.base + 4) (block_size - 4) (card.fat_addr - m.base) ≡ true
unfolding update_fat_block
update_fat_block-is_sum card m h =
    IsChecked-is_sum ((update_fat_block card m).1) card.fat_addr h
      (update_fat_block-IsChecked card m h).0
