-- ===== src/Card/Unlock/Rand/Tests.antt =====
-- The generator and the scrambling on concrete values.
use gamecube_port.Base.{◌%◌, ◌^◌, ◌≡◌, refl}
use gamecube_port.Card.Unlock.{bitrev, bitrev_from}
use gamecube_port.Card.Unlock.Rand.{numbers, numbers_width}

bitrev-1 : bitrev 1 ≡ 0x80000000
unfolding bitrev bitrev_from
bitrev-1 = refl

bitrev_word : bitrev 0x12345678 ≡ 0x1E6A2C48
unfolding bitrev bitrev_from
bitrev_word = refl

numbers_width_example : numbers 5 64 0x123456789A ≡ numbers 5 32 (0x123456789A % 2 ^ 32)
numbers_width_example = numbers_width 5 0x123456789A
