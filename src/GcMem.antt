-- ===== src/GcMem.antt =====
-- sdk_port/gc_mem.c: the mapper of emulated RAM, and the big-endian accessors that the components
-- define over it, each in its own file.
pub mod Laws
pub mod Chain
pub mod Dll
pub mod Unhook
pub mod Hook
use gamecube_port.Base.{
  ℕ, ◌+◌, ◌-◌, ◌*◌, ◌/◌, ◌%◌, ◌^◌, ◌≤◌, ◌<◌, Bool, true, false, Option, none, some, ◌≡◌, ltb, ◌==◌,
  if◌then◌else◌, ◌&&◌, ◌||◌, not, ◌⊎◌,
}

-- `g_base`, `g_size`, whether `g_buf` is set, and its bytes, each read modulo 2 ^ 8.
pub record Mem : Type 0 where
  pub base : ℕ
  pub size : ℕ
  pub present : Bool
  pub byte : ℕ → ℕ

-- `gc_mem_set`; a null buffer is `present = false`.
unfoldable pub gc_mem_set : ℕ → ℕ → Bool → (ℕ → ℕ) → Mem
gc_mem_set base size present buf = record {
  base = base;
  size = size;
  present = present;
  byte = buf;
}

-- `gc_mem_ptr`: the offset in the buffer, or null.
unfoldable pub gc_mem_ptr : Mem → ℕ → ℕ → Option ℕ
gc_mem_ptr m addr len =
    if not m.present
    then none
    else if ltb addr m.base
    then none
    else if ltb m.size (addr - m.base + len)
    then none
    else some (addr - m.base)

-- one byte through a pointer into the buffer
abbrev pub update : (ℕ → ℕ) → ℕ → ℕ → ℕ → ℕ
update f i v j = if i == j then v else f j

abbrev pub add32 : ℕ → ℕ → ℕ
add32 a b = (a + b) % 2 ^ 32

abbrev pub mul32 : ℕ → ℕ → ℕ
mul32 a b = a * b % 2 ^ 32

abbrev pub sub32 : ℕ → ℕ → ℕ
sub32 a b = (a + 2 ^ 32 - b) % 2 ^ 32

unfoldable pub load_u8 : Mem → ℕ → ℕ
unfolding gc_mem_ptr
load_u8 m addr = elim (gc_mem_ptr m addr 1) [ none ↦ 0 | some o ↦ m.byte o % 2 ^ 8 ]

unfoldable pub load_u16be : Mem → ℕ → ℕ
unfolding gc_mem_ptr
load_u16be m addr = elim (gc_mem_ptr m addr 2) [
  | none ↦ 0
  | some o ↦ m.byte o % 2 ^ 8 * 2 ^ 8 + m.byte (o + 1) % 2 ^ 8
]

unfoldable pub load_u32be : Mem → ℕ → ℕ
unfolding gc_mem_ptr
load_u32be m addr = elim (gc_mem_ptr m addr 4) [
  | none ↦ 0
  | some o ↦
      m.byte o % 2 ^ 8 * 2 ^ 24
      + m.byte (o + 1) % 2 ^ 8 * 2 ^ 16
      + m.byte (o + 2) % 2 ^ 8 * 2 ^ 8
      + m.byte (o + 3) % 2 ^ 8
]

-- The bytes after a store.
unfoldable pub put_u16be : Mem → ℕ → ℕ → ℕ → ℕ
unfolding gc_mem_ptr
put_u16be m addr v = elim (gc_mem_ptr m addr 2) [
  | none ↦ m.byte
  | some o ↦ update (update m.byte o (v / 2 ^ 8 % 2 ^ 8)) (o + 1) (v % 2 ^ 8)
]

unfoldable pub put_u32be : Mem → ℕ → ℕ → ℕ → ℕ
unfolding gc_mem_ptr
put_u32be m addr v = elim (gc_mem_ptr m addr 4) [
  | none ↦ m.byte
  | some o ↦
      update
        (update (update (update m.byte o (v / 2 ^ 24 % 2 ^ 8)) (o + 1) (v / 2 ^ 16 % 2 ^ 8)) (o + 2)
          (v / 2 ^ 8 % 2 ^ 8))
        (o + 3) (v % 2 ^ 8)
]

-- A store changes bytes only, so what is mapped stays mapped by computation.
abbrev pub store_u16be : Mem → ℕ → ℕ → Mem
store_u16be m addr v = record m { byte = put_u16be m addr v }

abbrev pub store_u32be : Mem → ℕ → ℕ → Mem
store_u32be m addr v = record m { byte = put_u32be m addr v }

-- A field of a structure in emulated RAM, at an offset from its address.
abbrev pub field : Mem → ℕ → ℕ → ℕ
field m x off = load_u32be m (add32 x off)

abbrev pub set_field : Mem → ℕ → ℕ → ℕ → Mem
set_field m x off v = store_u32be m (add32 x off) v

abbrev pub field16 : Mem → ℕ → ℕ → ℕ
field16 m x off = load_u16be m (add32 x off)

abbrev pub set_field16 : Mem → ℕ → ℕ → ℕ → Mem
set_field16 m x off v = store_u16be m (add32 x off) v

-- `len` bytes from `addr` are mapped, and the address does not wrap.
abbrev pub Mapped : Mem → ℕ → ℕ → Type 0
Mapped m addr len =
    (m.present ≡ true) × (m.base ≤ addr) × (addr + len ≤ m.base + m.size) × (addr + len ≤ 2 ^ 32)

-- Two structures of `n` bytes that do not overlap.
abbrev pub Apart : ℕ → ℕ → ℕ → Type 0
Apart n x y = (x + n ≤ y) ⊎ (y + n ≤ x)
