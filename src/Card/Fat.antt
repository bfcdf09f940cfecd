-- ===== src/Card/Fat.antt =====
-- sdk_port/card/card_fat.c: the allocation table of a memory card, an array of 16-bit words in
-- emulated RAM.
pub mod Sum
pub mod Total
mod Tests
use gamecube_port.Base.{
  ℕ, zero, suc, ◌+◌, ◌-◌, ◌*◌, ◌/◌, ◌%◌, ◌^◌, Bool, true, false, not, ◌&&◌, Option, none, some, ltb,
  leb, ◌==◌, if◌then◌else◌,
}
use gamecube_port.GcMem.{Mem, load_u16be, store_u16be, add32, mul32}
use gamecube_port.Card.{CardResult, ready, nocard, broken, insspace}

-- Words of the table that are not entries, and the first block that is not the system's.
abbrev pub fat_checksum : ℕ
fat_checksum = 0

abbrev pub fat_checksuminv : ℕ
fat_checksuminv = 1

abbrev pub fat_checkcode : ℕ
fat_checkcode = 2

abbrev pub fat_freeblocks : ℕ
fat_freeblocks = 3

abbrev pub fat_lastslot : ℕ
fat_lastslot = 4

abbrev pub num_system_block : ℕ
num_system_block = 5

-- `port_CARDControl`
pub record CardControl : Type 0 where
  pub attached : Bool
  pub c_block : ℕ
  pub start_block : ℕ
  pub fat_addr : ℕ

-- `fat_get` and `fat_set`
abbrev pub fat_word : CardControl → ℕ → ℕ
fat_word card index = add32 card.fat_addr (mul32 index 2)

unfoldable pub fat_get : CardControl → ℕ → Mem → ℕ
fat_get card index m = load_u16be m (fat_word card index)

unfoldable pub fat_set : CardControl → ℕ → ℕ → Mem → Mem
fat_set card index v m = store_u16be m (fat_word card index) v

-- `port_CARDIsValidBlockNo`
unfoldable pub is_valid_block_no : CardControl → ℕ → Bool
is_valid_block_no card i_block = leb num_system_block i_block && ltb i_block card.c_block

-- The loop of `port_CARDCheckSum` over `n` words from the one numbered `i`.
unfoldable pub check_sum_from : (n i addr sum inv : ℕ) → Mem → ℕ × ℕ
check_sum_from zero i addr sum inv m = (sum, inv)
check_sum_from (suc n) i addr sum inv m =
    let v = load_u16be m (add32 addr (mul32 i 2)) in
    check_sum_from n (i + 1) addr ((sum + v) % 2 ^ 16) ((inv + (2 ^ 16 - 1 - v)) % 2 ^ 16) m

unfoldable pub fold_sum : ℕ → ℕ
fold_sum s = if s == 2 ^ 16 - 1 then 0 else s

-- `port_CARDCheckSum`, for a length that is not negative
unfoldable pub check_sum : (addr length : ℕ) → Mem → ℕ × ℕ
unfolding check_sum_from fold_sum
check_sum addr length m =
    let s = check_sum_from (length / 2) 0 addr 0 0 m in (fold_sum s.0, fold_sum s.1)

-- `port_CARDUpdateFatBlock`
unfoldable pub update_fat_block : CardControl → Mem → CardResult × Mem
update_fat_block card m =
    let fat = card.fat_addr in
    let counter = (load_u16be m (add32 fat (fat_checkcode * 2)) + 1) % 2 ^ 16 in
    let m1 = store_u16be m (add32 fat (fat_checkcode * 2)) counter in
    let s = check_sum (add32 fat (fat_checkcode * 2)) 0x1FFC m1 in
    let m2 = store_u16be m1 (add32 fat (fat_checksum * 2)) s.0 in
    (ready, store_u16be m2 (add32 fat (fat_checksuminv * 2)) s.1)

-- How the loop of `port_CARDAllocBlock` ends.
pub data AllocExit : Type 0 where
  no_block : Mem → AllocExit
  allocated : (i_block start_block : ℕ) → Mem → AllocExit

-- The block that the search looks at after `i_block`.
unfoldable pub next_block : CardControl → ℕ → ℕ
unfolding is_valid_block_no
next_block card i_block =
    let i = (i_block + 1) % 2 ^ 16 in if is_valid_block_no card i then i else num_system_block

-- A free block is linked behind the one before and made the end of the chain.
unfoldable pub take_block : CardControl → (start_block prev_block i_block : ℕ) → Mem → Mem
unfolding fat_set
take_block card start_block prev_block i_block m =
    let m1 = if start_block == 0xFFFF then m else fat_set card prev_block i_block m in
    fat_set card i_block 0xFFFF m1

-- The loop of `port_CARDAllocBlock`; `n` is `cBlock`.
unfoldable pub alloc_from :
    (fuel : ℕ) → CardControl → (n count i_block prev_block start_block : ℕ) → Mem → Option AllocExit
unfolding next_block fat_get take_block
alloc_from zero card n count i_block prev_block start_block m = none
alloc_from (suc fuel) card n count i_block prev_block start_block m =
    let count' = (count + 1) % 2 ^ 16 in
    let i = next_block card i_block in
    let avail = fat_get card i m == 0 in
    let n' = if avail then n - 1 else n in
    let prev' = if avail then i else prev_block in
    let start' =
      if avail then (if start_block == 0xFFFF then i else start_block) else start_block in
    let m' = if avail then take_block card start_block prev_block i m else m in
    let rest = alloc_from fuel card n' count' i prev' start' m' in
    if n == 0
    then some (allocated i_block start_block m)
    else if ltb card.c_block (num_system_block + count')
    then some (no_block m)
    else rest

unfoldable pub alloc_exit : CardControl → AllocExit → CardResult × CardControl × Mem
unfolding fat_set update_fat_block
alloc_exit card (no_block m) = (broken, card, m)
alloc_exit card (allocated i_block start_block m) =
    let card' = record card { start_block = start_block } in
    let r = update_fat_block card' (fat_set card fat_lastslot i_block m) in (r.0, card', r.1)

-- `port_CARDAllocBlock`; no result when the search is out of fuel.
unfoldable pub alloc_block :
    (fuel : ℕ) → CardControl → (n : ℕ) → Mem → Option (CardResult × CardControl × Mem)
unfolding fat_get fat_set alloc_from alloc_exit
alloc_block fuel card n m =
    if not card.attached
    then some (nocard, card, m)
    else let free_blocks = fat_get card fat_freeblocks m in
      if ltb free_blocks n
      then some (insspace, card, m)
      else let m1 = fat_set card fat_freeblocks (free_blocks - n) m in
        elim (alloc_from fuel card n 0 (fat_get card fat_lastslot m1) 0 0xFFFF m1) [
          | none ↦ none
          | some e ↦ some (alloc_exit card e)
        ]

-- The loop of `port_CARDFreeBlock`; the flag tells whether the chain was sound.
unfoldable pub free_from : (fuel : ℕ) → CardControl → (n_block : ℕ) → Mem → Option (Bool × Mem)
unfolding is_valid_block_no fat_get fat_set
free_from zero card n_block m = none
free_from (suc fuel) card n_block m =
    let next = fat_get card n_block m in
    let m1 = fat_set card n_block 0 m in
    let m2 = fat_set card fat_freeblocks ((fat_get card fat_freeblocks m1 + 1) % 2 ^ 16) m1 in
    let rest = free_from fuel card next m2 in
    if n_block == 0xFFFF
    then some (true, m)
    else if not (is_valid_block_no card n_block)
    then some (false, m)
    else rest

-- `port_CARDFreeBlock`
unfoldable pub free_block :
    (fuel : ℕ) → CardControl → (n_block : ℕ) → Mem → Option (CardResult × Mem)
unfolding free_from update_fat_block
free_block fuel card n_block m =
    if not card.attached then some (nocard, m) else elim (free_from fuel card n_block m) [
      | none ↦ none
      | some r ↦ some (if r.0 then update_fat_block card r.1 else (broken, r.1))
    ]
