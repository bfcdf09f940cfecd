-- ===== src/Card/Unlock.antt =====
-- sdk_port/card/card_unlock.c: the scrambling of the unlock protocol and its generator of numbers.
pub mod Rand
use gamecube_port.Base.{
  ℕ, zero, suc, ◌+◌, ◌-◌, ◌*◌, ◌/◌, ◌%◌, ◌^◌, ltb, ◌==◌, if◌then◌else◌, bit_and, bit_or, bit_xor,
}

abbrev pub not32 : ℕ → ℕ
not32 w = 2 ^ 32 - 1 - w

-- a shift of a 32-bit value to the left
abbrev pub shl32 : ℕ → ℕ → ℕ
shl32 w k = w * 2 ^ k % 2 ^ 32

-- `port_exnor_1st`, whose loop turns `rshift` times
unfoldable pub exnor_1st : (rshift word : ℕ) → ℕ
exnor_1st zero w = w
exnor_1st (suc n) w =
    let wk = not32 (bit_xor (bit_xor (bit_xor w (w / 2 ^ 7)) (w / 2 ^ 15)) (w / 2 ^ 23)) in
    exnor_1st n (bit_or (w / 2) (bit_and (shl32 wk 30) 0x40000000))

-- `port_exnor`
unfoldable pub exnor : (lshift word : ℕ) → ℕ
exnor zero w = w
exnor (suc n) w =
    let wk = not32 (bit_xor (bit_xor (bit_xor w (shl32 w 7)) (shl32 w 15)) (shl32 w 23)) in
    exnor n (bit_or (shl32 w 1) (bit_and (wk / 2 ^ 30) 2))

-- The loop of `port_bitrev` over `n` bits from the one numbered `i`.
unfoldable pub bitrev_from : (n i j k wk word : ℕ) → ℕ
bitrev_from zero i j k wk word = wk
bitrev_from (suc n) i j k wk word =
    let bit = bit_and word (2 ^ i) in
    let low = ltb i 16 in
    let last = i == 31 in
    let moved =
      if low
      then shl32 bit (31 - i - k)
      else if last
      then bit_and (bit / 2 ^ 31) 1
      else bit / 2 ^ j in
    let j' = if low then j else if last then j else j + 2 in
    let k' = if low then k + 1 else k in bitrev_from n (i + 1) j' k' (bit_or wk moved) word

unfoldable pub bitrev : ℕ → ℕ
unfolding bitrev_from
bitrev word = bitrev_from 32 0 1 0 0 word

-- `port_CARDSrand` sets the generator's state to the seed; `port_CARDRand`, for an `unsigned long`
-- of `w` bits, gives the number and the next state.
unfoldable pub card_rand : (w next : ℕ) → ℕ × ℕ
card_rand w next =
    let next' = (next * 1103515245 + 12345) % 2 ^ w in (next' / 65536 % 2 ^ 32 % 32768, next')
