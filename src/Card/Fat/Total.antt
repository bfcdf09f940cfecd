-- ===== src/Card/Fat/Total.antt =====
-- The search for free blocks ends: each turn counts, and the count stops at the blocks of the card.
use gamecube_port.Base.{
  Bool, ℕ, zero, suc, ◌+◌, ◌-◌, ◌%◌, ◌≤◌, ◌<◌, ◌^◌, ◌≡◌, ◌≢◌, refl, arith, Option, none, some, ltb,
  ◌==◌, if◌then◌else◌, true, false, not,
}
use gamecube_port.GcMem.{Mem}
use gamecube_port.Card.Fat.{
  CardControl, alloc_from, alloc_block, alloc_exit, fat_get, fat_freeblocks,
}

-- A loop with two exits gives a result when its next turn does.
two_exits :
    {A : Type 0} (c d : Bool) (x y : A) (z : Option A)
    → (c ≡ false → d ≡ false → z ≢ none)
    → (if c then some x else if d then some y else z) ≢ none
two_exits true d x y z h = ground arith
two_exits false true x y z h = ground arith
two_exits false false x y z h = h refl refl

some_exit :
    {A B : Type 0} (o : Option A) (f : A → B)
    → o ≢ none
    → (elim o [ none ↦ none | some e ↦ some (f e) ]) ≢ none
some_exit none f h = absurd (h refl)
some_exit (some e) f h = ground arith

-- One turn after another; `count` turns have been made.
alloc_from-total :
    (fuel : ℕ) (card : CardControl) (n count i prev start : ℕ) (m : Mem)
    → card.c_block < 2 ^ 16
    → count < 2 ^ 16 - 1
    → 0 < fuel
    → card.c_block < fuel + 5 + count
    → alloc_from fuel card n count i prev start m ≢ none
unfolding alloc_from
alloc_from-total zero card n count i prev start m b c f g = absurd (omega arith)
alloc_from-total (suc fuel) card n count i prev start m b c f g =
    two_exits (n == 0) (ltb card.c_block (5 + (count + 1) % 2 ^ 16)) _ _ _ (λ p q.
      let more : 5 + (count + 1) ≤ card.c_block = ground arith in
      alloc_from-total fuel card _ ((count + 1) % 2 ^ 16) _ _ _ _ b (omega arith) (omega arith)
        (omega arith))

-- With one turn more than the card has blocks, the search for any number of blocks returns.
pub alloc_block-total :
    (card : CardControl) (n : ℕ) (m : Mem)
    → card.c_block < 2 ^ 16
    → alloc_block (card.c_block + 1) card n m ≢ none
unfolding alloc_block
alloc_block-total card n m b =
    two_exits (not card.attached) (ltb (fat_get card fat_freeblocks m) n) _ _ _ (λ p q.
      some_exit _ (alloc_exit card) (
        alloc_from-total (card.c_block + 1) card n 0 _ 0 0xFFFF _ b (omega arith) (omega arith)
          (omega arith)))
