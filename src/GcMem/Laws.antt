-- ===== src/GcMem/Laws.antt =====
-- The laws of the big-endian accessors of emulated RAM.
use native.Mathlib.Nat.{add-zero}
use gamecube_port.Base.{ℕ, ◌+◌, ◌-◌, ◌≤◌, ◌<◌, ◌^◌, ◌≡◌, ◌⊎◌, arith}
use gamecube_port.GcMem.{
  Mem, Mapped, load_u16be, load_u32be, store_u16be, store_u32be, put_u16be, put_u32be, field,
  set_field, add32, Apart,
}

-- A word is a 32-bit value.
pub load_u32be-lt : (m : Mem) (a : ℕ) → load_u32be m a < 2 ^ 32
unfolding load_u32be
load_u32be-lt m a = ground arith

pub load_u16be-lt : (m : Mem) (a : ℕ) → load_u16be m a < 2 ^ 16
unfolding load_u16be
load_u16be-lt m a = ground arith

-- A mapped word that is stored is read back.
pub load_u32be-store_self :
    (m : Mem) (a v : ℕ) → Mapped m a 4 → v < 2 ^ 32 → load_u32be (store_u32be m a v) a ≡ v
unfolding load_u32be put_u32be
load_u32be-store_self m a v h l = ground arith

pub load_u16be-store_self :
    (m : Mem) (a v : ℕ) → Mapped m a 2 → v < 2 ^ 16 → load_u16be (store_u16be m a v) a ≡ v
unfolding load_u16be put_u16be
load_u16be-store_self m a v h l = ground arith

-- A store leaves the bytes outside its word.
put_u32be_apart :
    (m : Mem) (a v j : ℕ) → (m.base + j < a) ⊎ (a + 4 ≤ m.base + j) → put_u32be m a v j ≡ m.byte j
unfolding put_u32be
put_u32be_apart m a v j h = ground arith

put_u16be_apart :
    (m : Mem) (a v j : ℕ) → (m.base + j < a) ⊎ (a + 2 ≤ m.base + j) → put_u16be m a v j ≡ m.byte j
unfolding put_u16be
put_u16be_apart m a v j h = ground arith

module _ (m : Mem) (f : ℕ → ℕ) (b : ℕ) where
  -- What is read depends on the bytes of the word alone.
  load_u32be_ext :
      ((i : ℕ) → i < 4 → m.base ≤ b → f (b - m.base + i) ≡ m.byte (b - m.base + i))
      → load_u32be (record m { byte = f }) b ≡ load_u32be m b
  unfolding load_u32be
  load_u32be_ext h = ground (arith, h 0, h 1, h 2, h 3, add-zero (b - m.base))

  load_u16be_ext :
      ((i : ℕ) → i < 2 → m.base ≤ b → f (b - m.base + i) ≡ m.byte (b - m.base + i))
      → load_u16be (record m { byte = f }) b ≡ load_u16be m b
  unfolding load_u16be
  load_u16be_ext h = ground (arith, h 0, h 1, add-zero (b - m.base))

-- A store leaves a word that it does not overlap.
module _ (m : Mem) (a b v : ℕ) where
  pub load_u32be-store_apart :
      (a + 4 ≤ b) ⊎ (b + 4 ≤ a) → load_u32be (store_u32be m a v) b ≡ load_u32be m b
  load_u32be-store_apart h =
      load_u32be_ext m _ b λ i l k. put_u32be_apart m a v (b - m.base + i) (omega arith)

  pub load_u16be-store_u32be_apart :
      (a + 4 ≤ b) ⊎ (b + 2 ≤ a) → load_u16be (store_u32be m a v) b ≡ load_u16be m b
  load_u16be-store_u32be_apart h =
      load_u16be_ext m _ b λ i l k. put_u32be_apart m a v (b - m.base + i) (omega arith)

  pub load_u16be-store_apart :
      (a + 2 ≤ b) ⊎ (b + 2 ≤ a) → load_u16be (store_u16be m a v) b ≡ load_u16be m b
  load_u16be-store_apart h =
      load_u16be_ext m _ b λ i l k. put_u16be_apart m a v (b - m.base + i) (omega arith)

  pub load_u32be-store_u16be_apart :
      (a + 2 ≤ b) ⊎ (b + 4 ≤ a) → load_u32be (store_u16be m a v) b ≡ load_u32be m b
  load_u32be-store_u16be_apart h =
      load_u32be_ext m _ b λ i l k. put_u16be_apart m a v (b - m.base + i) (omega arith)

pub Mapped-field :
    (m : Mem) (n x f k : ℕ) → Mapped m x n → f + k ≤ n → 0 < k → Mapped m (add32 x f) k
Mapped-field m n x f k h i z = ground arith

pub Mapped-prefix : (m : Mem) (x n k : ℕ) → Mapped m x n → k ≤ n → Mapped m x k
Mapped-prefix m x n k h i = (h.0, h.1, omega (arith, h, i), omega (arith, h, i))

-- The same for the fields of structures of `n` bytes.
module _ (m : Mem) (n x : ℕ) (h : Mapped m x n) (f v : ℕ) (inside : f + 4 ≤ n) where
  pub field-set_self : v < 2 ^ 32 → field (set_field m x f v) x f ≡ v
  field-set_self l =
      load_u32be-store_self m (add32 x f) v (Mapped-field m n x f 4 h inside (omega arith)) l

  pub field-set_ne :
      (g : ℕ) → g + 4 ≤ n → (f + 4 ≤ g) ⊎ (g + 4 ≤ f) → field (set_field m x f v) x g ≡ field m x g
  field-set_ne g i a = load_u32be-store_apart m (add32 x f) (add32 x g) v (omega arith)

  pub field-set-Apart :
      (y g : ℕ)
      → Mapped m y n
      → g + 4 ≤ n
      → Apart n x y
      → field (set_field m x f v) y g ≡ field m y g
  field-set-Apart y g k i a = load_u32be-store_apart m (add32 x f) (add32 y g) v (omega arith)
