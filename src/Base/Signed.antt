-- ===== src/Base/Signed.antt =====
-- Integers over the native numbers, with C's division, which rounds towards zero.
use Prim.Native.Nat.{ℕ, zero, suc, ◌+◌, ◌-◌, ◌*◌, ◌/◌, ◌%◌, ◌<◌}
use mathlib.Core.Path.{◌≡◌, refl}
use mathlib.Core.Logic.{◌⊎◌, inl, inr}
use mathlib.Core.Bool.{Bool}
use native.Mathlib.Omega.{arith}
use gamecube_port.Base.Tests.{ltb, leb, if◌then◌else◌}

-- `negsuc n` is -(n + 1).
pub data ℤ : Type 0 where
  pos : ℕ → ℤ
  negsuc : ℕ → ℤ

abbrev pub pos_part : ℤ → ℕ
pos_part (pos n) = n
pos_part (negsuc n) = 0

abbrev pub neg_part : ℤ → ℕ
neg_part (pos n) = 0
neg_part (negsuc n) = suc n

abbrev pub sub_ℕ : ℕ → ℕ → ℤ
sub_ℕ a b = if leb b a then pos (a - b) else negsuc (b - a - 1)

infixl 65 ◌+ℤ◌ ◌-ℤ◌
unfoldable pub ◌+ℤ◌ : ℤ → ℤ → ℤ
a +ℤ b = sub_ℕ (pos_part a + pos_part b) (neg_part a + neg_part b)

unfoldable pub ◌-ℤ◌ : ℤ → ℤ → ℤ
a -ℤ b = sub_ℕ (pos_part a + neg_part b) (neg_part a + pos_part b)

-- Each part of an integer is multiplied, divided or reduced for itself, as one of them is 0.
unfoldable pub times : ℕ → ℤ → ℤ
times n a = sub_ℕ (pos_part a * n) (neg_part a * n)

unfoldable pub tdiv : ℤ → ℕ → ℤ
tdiv a n = sub_ℕ (pos_part a / n) (neg_part a / n)

unfoldable pub tmod : ℤ → ℕ → ℤ
tmod a n = sub_ℕ (pos_part a % n) (neg_part a % n)

abbrev pub ltb_ℤ : ℤ → ℤ → Bool
ltb_ℤ a b = ltb (pos_part a + neg_part b) (pos_part b + neg_part a)

-- What the arithmetic tactics need to know of the operations.
pub one_part : (a : ℤ) → (pos_part a ≡ 0) ⊎ (neg_part a ≡ 0)
one_part (pos n) = inr refl
one_part (negsuc n) = inl refl

pub times_parts :
    (n : ℕ) (a : ℤ)
    → (pos_part (times n a) ≡ pos_part a * n) × (neg_part (times n a) ≡ neg_part a * n)
unfolding times
times_parts n (pos k) = (ground arith, ground arith)
times_parts n (negsuc k) = (ground arith, ground arith)

pub tdiv_parts :
    (a : ℤ) (n : ℕ)
    → (pos_part (tdiv a n) ≡ pos_part a / n) × (neg_part (tdiv a n) ≡ neg_part a / n)
unfolding tdiv
tdiv_parts (pos k) n = (ground arith, ground arith)
tdiv_parts (negsuc k) n = (ground arith, ground arith)

pub tmod_parts :
    (a : ℤ) (n : ℕ)
    → 0 < n
    → (pos_part (tmod a n) ≡ pos_part a % n) × (neg_part (tmod a n) ≡ neg_part a % n)
unfolding tmod
tmod_parts a zero h = absurd (omega (arith, h))
tmod_parts (pos k) (suc n) h = (ground arith, ground arith)
tmod_parts (negsuc k) (suc n) h = (ground arith, ground arith)

pub +ℤ_parts :
    (a b : ℤ)
    → pos_part (a +ℤ b) + neg_part a + neg_part b ≡ neg_part (a +ℤ b) + pos_part a + pos_part b
unfolding ◌+ℤ◌
+ℤ_parts a b = ground arith

pub -ℤ_parts :
    (a b : ℤ)
    → pos_part (a -ℤ b) + neg_part a + pos_part b ≡ neg_part (a -ℤ b) + pos_part a + neg_part b
unfolding ◌-ℤ◌
-ℤ_parts a b = ground arith

pub eq_of_parts : (a b : ℤ) → pos_part a + neg_part b ≡ pos_part b + neg_part a → a ≡ b
eq_of_parts a b h = ground arith
