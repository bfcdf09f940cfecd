-- ===== src/Card/Unlock/Rand.antt =====
-- The generator gives the same numbers whether `unsigned long` has 32 bits or 64.
mod Tests
use mathlib.Core.Path.{ap₂}
use gamecube_port.Base.{
  ℕ, zero, suc, ◌+◌, ◌*◌, ◌/◌, ◌%◌, ◌^◌, ◌≡◌, refl, ap, ◌∙◌, arith, List, [], ◌∷◌,
}
use gamecube_port.Card.Unlock.{card_rand}

-- The first `n` numbers from a state on.
unfoldable pub numbers : (n w next : ℕ) → List ℕ
unfolding card_rand
numbers zero w next = []
numbers (suc n) w next = (card_rand w next).0 ∷ numbers n w ((card_rand w next).1)

card_rand-step :
    (s t : ℕ)
    → s % 2 ^ 32 ≡ t
    → ((card_rand 64 s).0 ≡ (card_rand 32 t).0) × ((card_rand 64 s).1 % 2 ^ 32 ≡ (card_rand 32 t).1)
unfolding card_rand
card_rand-step s t e = (omega (arith, e), omega (arith, e))

-- From the same seed, `port_CARDRand` gives the same sequence of numbers whether the host's
-- `unsigned long` has 64 bits or 32.
pub numbers_width : (n seed : ℕ) → numbers n 64 seed ≡ numbers n 32 (seed % 2 ^ 32)
unfolding numbers
numbers_width zero seed = refl
numbers_width (suc n) seed =
    let (a, b) = card_rand-step seed (seed % 2 ^ 32) refl in
    ap₂ (◌∷◌) a (numbers_width n ((card_rand 64 seed).1) ∙ ap (numbers n 32) b)
