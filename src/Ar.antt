-- ===== src/Ar.antt =====
-- sdk_port/ar/ar.c: the LIFO allocator of ARAM, with its block lengths in emulated RAM.
pub mod Stack
mod Tests
use gamecube_port.Base.{ℕ, ◌+◌, Bool, true, false, if◌then◌else◌}
use gamecube_port.GcMem.{Mem, load_u32be, store_u32be, add32, sub32, mul32}

-- `port_ARState`
pub record ArState : Type 0 where
  pub stack_pointer : ℕ
  pub free_blocks : ℕ
  pub block_length_base : ℕ
  pub block_length_idx : ℕ
  pub size : ℕ
  pub init_flag : Bool

abbrev pub base_address : ℕ
base_address = 0x4000

-- Each operation gives its result, and the state and memory after it.
unfoldable pub ar_init : ArState → ℕ → ℕ → ℕ → ℕ × ArState
ar_init st block_length_base num_entries aram_size =
    if st.init_flag then (base_address, st) else (base_address, fresh)
  where
    fresh : ArState
    fresh = record {
      stack_pointer = base_address;
      free_blocks = num_entries;
      block_length_base = block_length_base;
      block_length_idx = 0;
      size = aram_size;
      init_flag = true;
    }

unfoldable pub ar_alloc : ArState → Mem → ℕ → ℕ × ArState × Mem
ar_alloc st m len =
    let addr = add32 st.block_length_base (mul32 st.block_length_idx 4) in
    let st' = record st {
      stack_pointer = add32 st.stack_pointer len;
      block_length_idx = add32 st.block_length_idx 1;
      free_blocks = sub32 st.free_blocks 1;
    } in
    (st.stack_pointer, st', store_u32be m addr len)

-- The results are the new top and the length that goes through `*length`.
unfoldable pub ar_free : ArState → Mem → ℕ × ℕ × ArState
ar_free st m =
    let idx = sub32 st.block_length_idx 1 in
    let block_len = load_u32be m (add32 st.block_length_base (mul32 idx 4)) in
    let top = sub32 st.stack_pointer block_len in
    let st' = record st {
      stack_pointer = top;
      block_length_idx = idx;
      free_blocks = add32 st.free_blocks 1;
    } in
    (top, block_len, st')

unfoldable pub ar_check_init : ArState → Bool
ar_check_init st = st.init_flag

unfoldable pub ar_get_base_address : ArState → ℕ
ar_get_base_address st = base_address

unfoldable pub ar_get_size : ArState → ℕ
ar_get_size st = st.size
