-- ===== src/OsInterrupts/Section.antt =====
-- Critical sections, which may be nested.
use gamecube_port.Base.{ℕ, ◌<◌, ◌^◌, ◌≡◌, refl, ◌∙◌, arith, Bool, true, false, Bool-cases, inl, inr}
use gamecube_port.GcMem.{Mem, Mapped, gc_mem_ptr, add32}
use gamecube_port.GcMem.Laws.{load_u32be-store_self}
use gamecube_port.SdkState.{state_base, is_state_mapped, state_store, state_load_or}
use gamecube_port.OsInterrupts.{
  Ints, enabled_word, is_enabled, set_enabled, off_enabled, count_call, off_restore_calls,
  disable_interrupts, restore_interrupts,
}

mapped_lem :
    (m : Mem) → is_state_mapped m off_enabled 4 ≡ true → Mapped m (add32 state_base off_enabled) 4
unfolding is_state_mapped gc_mem_ptr
mapped_lem m h = (ground (arith, h), ground (arith, h), ground (arith, h), omega arith)

stays_mapped :
    (v : ℕ) (m : Mem)
    → is_state_mapped (state_store m off_enabled v) off_enabled 4 ≡ is_state_mapped m off_enabled 4
unfolding is_state_mapped gc_mem_ptr
stays_mapped v m = refl

-- What was stored last is what is read, with the page and without it.
enabled_word-set_enabled : (v : ℕ) (m : Mem) → v < 2 ^ 32 → enabled_word (set_enabled v m) ≡ v
unfolding enabled_word state_load_or
enabled_word-set_enabled v m lt = elim (Bool-cases (is_state_mapped m off_enabled 4)) [
  | inl e ↦
      rw (stays_mapped v m, e)
        (load_u32be-store_self m (add32 state_base off_enabled) v (mapped_lem m e) lt)
  | inr e ↦ rw (stays_mapped v m, e) refl
]

is_enabled-restore : (level : Bool) (s : Ints) → is_enabled ((restore_interrupts level s).1) ≡ level
unfolding restore_interrupts
is_enabled-restore true s =
    rw (enabled_word-set_enabled 1 (count_call off_restore_calls s.mem) (omega arith)) refl
is_enabled-restore false s =
    rw (enabled_word-set_enabled 0 (count_call off_restore_calls s.mem) (omega arith)) refl

-- Critical sections one after another, each with others inside.
pub data Sections : Type 0 where
  over : Sections
  section : (inner rest : Sections) → Sections

-- A section disables interrupts and restores what it found.
abbrev pub run : Sections → Ints → Ints
run over s = s
run (section inner rest) s =
    let (level, s1) = disable_interrupts s in run rest ((restore_interrupts level (run inner s1)).1)

-- After critical sections that are nested and follow each other in any way, interrupts are enabled if
-- they were before, whether the state page is mapped or not.
pub restore-disable : (p : Sections) (s : Ints) → is_enabled (run p s) ≡ is_enabled s
unfolding disable_interrupts
restore-disable over s = refl
restore-disable (section inner rest) s =
    restore-disable rest
      ((restore_interrupts (is_enabled s) (run inner ((disable_interrupts s).1))).1)
    ∙ is_enabled-restore (is_enabled s) (run inner ((disable_interrupts s).1))
