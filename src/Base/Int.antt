-- ===== src/Base/Int.antt =====
-- Signed machine integers. A value of `int32_t` or `int64_t` is kept as its bit pattern in two's
-- complement; the signed order compares the patterns with the sign bit flipped.
use Prim.Native.Nat.{ℕ, ◌+◌, ◌%◌, ◌^◌}
use mathlib.Core.Bool.{Bool}
use gamecube_port.Base.Tests.{ltb, leb}

abbrev pub flip32 : ℕ → ℕ
flip32 a = (a + 2 ^ 31) % 2 ^ 32

abbrev pub slt32 : ℕ → ℕ → Bool
slt32 a b = ltb (flip32 a) (flip32 b)

abbrev pub sle32 : ℕ → ℕ → Bool
sle32 a b = leb (flip32 a) (flip32 b)

abbrev pub flip64 : ℕ → ℕ
flip64 a = (a + 2 ^ 63) % 2 ^ 64

abbrev pub slt64 : ℕ → ℕ → Bool
slt64 a b = ltb (flip64 a) (flip64 b)

abbrev pub sle64 : ℕ → ℕ → Bool
sle64 a b = leb (flip64 a) (flip64 b)
