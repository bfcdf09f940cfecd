-- ===== src/OsThread/Bits.antt =====
-- The count of leading zeros that picks the most urgent priority of the run queue.
mod Tests
use native.Mathlib.Numerals.{unary_clauses}
use gamecube_port.Base.{
  ℕ, zero, suc, ◌+◌, ◌-◌, ◌*◌, ◌^◌, ◌≤◌, ◌<◌, ◌≡◌, ◌≢◌, refl, arith, leb, leb→le, Bool-cases, inl,
  inr, true, false,
}
use gamecube_port.OsThread.{leading_zeros, cntlzw}

leading_zeros-here : (n x : ℕ) → leb (2 ^ n) x ≡ true → leading_zeros (suc n) x ≡ 0
unfolding leading_zeros
leading_zeros-here n x e = rw (leading_zeros, e) refl

leading_zeros-next :
    (n x : ℕ) → leb (2 ^ n) x ≡ false → leading_zeros (suc n) x ≡ 1 + leading_zeros n x
unfolding leading_zeros
leading_zeros-next n x e = rw (leading_zeros, e) refl

-- Among the low `n` bits of `x`, the highest that is set is the one that the count names.
leading_zeros-bounds :
    (n x : ℕ)
    → x ≢ 0
    → x < 2 ^ n
    → (k : ℕ) × (n ≡ suc k + leading_zeros n x) × (2 ^ k ≤ x) × (x < 2 ^ k * 2)
leading_zeros-bounds zero x h l = absurd (omega (arith, h, l))
leading_zeros-bounds (suc n) x h l = elim (Bool-cases (leb (2 ^ n) x)) [
  | inl e ↦
      (n, omega (arith, leading_zeros-here n x e), leb→le (2 ^ n) x e, (simp unary_clauses at l))
  | inr e ↦
      let (k, a, b, c) = leading_zeros-bounds n x h (ground (arith, e)) in
      (k, omega (arith, a, leading_zeros-next n x e), b, c)
]

-- For a word that is not 0, `port_cntlzw` counts the zeros in front of its highest bit: the bit
-- numbered 31 less the count is set, and none above it.
cntlzw_lem :
    (x : ℕ) → x ≢ 0 → x < 2 ^ 32 → (k : ℕ) × (cntlzw x + k ≡ 31) × (2 ^ k ≤ x) × (x < 2 ^ k * 2)
unfolding cntlzw
cntlzw_lem x h l = let (k, a, b, c) = leading_zeros-bounds 32 x h l in (k, omega (arith, a), b, c)
