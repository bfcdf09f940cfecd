-- ===== src/OsInterrupts.antt =====
-- sdk_port/os/OSInterrupts.c: whether interrupts are enabled, in a host variable and in the state page.
pub mod Section
mod Tests
use gamecube_port.Base.{ℕ, ◌^◌, Bool, not, ◌==◌, if◌then◌else◌}
use gamecube_port.GcMem.{Mem, add32}
use gamecube_port.SdkState.{state_store, state_load_or}

abbrev pub off_enabled : ℕ
off_enabled = 0x40

abbrev pub off_disable_calls : ℕ
off_disable_calls = 0x44

abbrev pub off_restore_calls : ℕ
off_restore_calls = 0x48

-- `gc_os_ints_enabled` and emulated RAM
pub record Ints : Type 0 where
  pub mem : Mem
  pub ints_enabled : ℕ

-- The value that the page has, or the host variable without it.
unfoldable pub enabled_word : Ints → ℕ
unfolding state_load_or
enabled_word s = state_load_or s.mem off_enabled s.ints_enabled

abbrev pub is_enabled : Ints → Bool
is_enabled s = not (enabled_word s == 0)

-- A counter of the page that no host variable mirrors.
unfoldable pub count_call : (off : ℕ) → Mem → Mem
unfolding state_load_or
count_call off m = state_store m off (add32 (state_load_or m off 0) 1)

-- Both copies of the flag.
abbrev pub set_enabled : ℕ → Mem → Ints
set_enabled v m = record { mem = state_store m off_enabled v; ints_enabled = v }

-- `OSDisableInterrupts`
unfoldable pub disable_interrupts : Ints → Bool × Ints
unfolding enabled_word count_call
disable_interrupts s = (is_enabled s, set_enabled 0 (count_call off_disable_calls s.mem))

-- `OSEnableInterrupts`
unfoldable pub enable_interrupts : Ints → Bool × Ints
unfolding enabled_word
enable_interrupts s = (is_enabled s, set_enabled 1 s.mem)

-- `OSRestoreInterrupts`
unfoldable pub restore_interrupts : Bool → Ints → Bool × Ints
unfolding enabled_word count_call
restore_interrupts level s =
    (is_enabled s, set_enabled (if level then 1 else 0) (count_call off_restore_calls s.mem))
