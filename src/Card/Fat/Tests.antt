-- ===== src/Card/Fat/Tests.antt =====
-- The allocation table on concrete memory.
use gamecube_port.Base.{◌+◌, ◌%◌, ◌^◌, ◌≡◌, ◌≢◌, refl, arith, true, none}
use gamecube_port.GcMem.{Mem, field16}
use gamecube_port.Card.Fat.{CardControl, update_fat_block, alloc_block}
use gamecube_port.Card.Fat.Sum.{IsChecked, update_fat_block-IsChecked}
use gamecube_port.Card.Fat.Total.{alloc_block-total}

abbrev mem : Mem
mem = record { base = 0x1000; size = 0x2000; present = true; byte = λ i. i }

abbrev card : CardControl
card = record { attached = true; c_block = 64; start_block = 0; fat_addr = 0x1000 }

update_fat_block-IsChecked_example :
    IsChecked 0x1000 ((update_fat_block card mem).1)
    × (field16 ((update_fat_block card mem).1) 0x1000 4 ≡ (field16 mem 0x1000 4 + 1) % 2 ^ 16)
update_fat_block-IsChecked_example =
    update_fat_block-IsChecked card mem (refl, omega arith, omega arith, omega arith)

alloc_block-total_example : alloc_block 65 card 3 mem ≢ none
alloc_block-total_example = alloc_block-total card 3 mem (omega arith)
