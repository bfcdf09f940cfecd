-- ===== src/Card/Check/Tests.antt =====
-- A blank work area, and a blank table.
use gamecube_port.Base.{ℕ, ◌+◌, ◌-◌, ◌≡◌, refl, arith, true, none, some, ◌==◌, if◌then◌else◌}
use gamecube_port.GcMem.{Mem}
use gamecube_port.Card.{is_error, ready, broken}
use gamecube_port.Card.Fat.{CardControl, update_fat_block}
use gamecube_port.Card.Check.{
  Host, WorkCard, block_size, rd16be, is_less16, choose_copy, is_sum, verify_id, verify,
}
use gamecube_port.Card.Check.Copies.{all_sound, choose_copy-newer, verify-verdict}
use gamecube_port.Card.Check.Agree.{update_fat_block-is_sum}

abbrev area : Host
area = λ a. if a == 0x4005 then 1 else 0

abbrev card : WorkCard
card = record {
  work_area = 0x1000;
  size_u16 = 4;
  cblock = 64;
  current_dir_ptr = 0;
  current_fat_ptr = 0;
}

choose_copy-newer_example :
    let (newer, older) : ℕ × ℕ =
      if is_less16 (rd16be area (0x2000 + 4)) (rd16be area (0x4000 + 4))
      then (0x4000, 0x2000)
      else (0x2000, 0x4000) in
    let (current, b') = choose_copy 0x2000 0x4000 4 0 area in
    (b' (0x2000 + 7) ≡ area (newer + 7)) × (b' (0x4000 + 7) ≡ area (newer + 7)) × (current ≡ older)
choose_copy-newer_example = choose_copy-newer 0x2000 0x4000 4 7 area (omega arith) (omega arith)

verify-verdict_example : (verify 0 none (some card) area).0 ≡ (
    if is_error (verify_id 0 none card area)
    then verify_id 0 none card area
    else if all_sound card area
    then ready
    else broken)
verify-verdict_example = verify-verdict 0 none card area

abbrev table : CardControl
table = record { attached = true; c_block = 64; start_block = 5; fat_addr = 0x1000 }

abbrev ram : Mem
ram = record { base = 0x1000; size = 0x2000; present = true; byte = λ _. 0 }

update_fat_block-is_sum_example :
    let b = ((update_fat_block table ram).1).byte in
    is_sum b (0x1000 - 0x1000 + 4) (block_size - 4) (0x1000 - 0x1000) ≡ true
update_fat_block-is_sum_example =
    update_fat_block-is_sum table ram (refl, omega arith, omega arith, omega arith)
