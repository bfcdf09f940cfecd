-- ===== src/SdkState.antt =====
-- sdk_port/sdk_state.h: a page at the end of emulated RAM that mirrors the state of the components.
use gamecube_port.Base.{ℕ, Bool, none, some, if◌then◌else◌}
use gamecube_port.GcMem.{Mem, gc_mem_ptr, load_u16be, load_u32be, store_u32be, add32}

-- `GC_SDK_STATE_BASE`
abbrev pub state_base : ℕ
state_base = 0x817FE000

-- `gc_sdk_state_mapped`
unfoldable pub is_state_mapped : Mem → (off len : ℕ) → Bool
unfolding gc_mem_ptr
is_state_mapped m off len = elim (gc_mem_ptr m (add32 state_base off) len) [
  | none ↦ Bool.false
  | some o ↦ Bool.true
]

-- `gc_sdk_state_store_u32be`: nothing is written when the page is not mapped.
abbrev pub state_store : Mem → (off v : ℕ) → Mem
state_store m off v = store_u32be m (add32 state_base off) v

-- `gc_sdk_state_load_u32_or`
unfoldable pub state_load_or : Mem → (off fallback : ℕ) → ℕ
unfolding is_state_mapped
state_load_or m off fallback =
    if is_state_mapped m off 4 then load_u32be m (add32 state_base off) else fallback

-- A call counter of the page goes up by one.
abbrev pub state_count : Mem → (off : ℕ) → Mem
unfolding state_load_or
state_count m off = state_store m off (add32 (state_load_or m off 0) 1)

-- `gc_sdk_state_load_u16be_or`
unfoldable pub state_load16_or : Mem → (off fallback : ℕ) → ℕ
unfolding is_state_mapped
state_load16_or m off fallback =
    if is_state_mapped m off 2 then load_u16be m (add32 state_base off) else fallback
