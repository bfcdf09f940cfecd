-- ===== src/OsAlloc/Errors.antt =====
-- The requests that the heaps of sdk_port/os/OSAlloc.c turn down.
use mathlib.Core.Path.{subst}
use gamecube_port.Base.{
  ℕ, ◌+◌, ◌≤◌, ◌^◌, ◌≡◌, ◌⊎◌, inl, inr, refl, sym, ap, arith, Bool, true, false, not, Bool-cases,
  some, ◌==◌, if◌then◌else◌,
}
use gamecube_port.Base.Int.{slt32, sle32}
use gamecube_port.GcMem.{Mem, Mapped, gc_mem_ptr, field, set_field, add32}
use gamecube_port.GcMem.Laws.{field-set_self, load_u32be-store_apart}
use gamecube_port.SdkState.{state_base, state_load_or, is_state_mapped}
use gamecube_port.OsAlloc.{hd_size, heapdesc_size, minus_one}
use gamecube_port.OsAlloc.Heaps.{
  AllocState, current, is_heap, heap_desc, alloc_from_heap, free_to_heap, destroy_heap,
}

-- The heap is not one of the array, or it was destroyed.
abbrev pub IsDead : AllocState → ℕ → Mem → Type 0
IsDead st heap m =
    (is_heap (current st m) heap ≡ false)
    ⊎ (slt32 (field m (heap_desc (current st m).heap_array heap) hd_size) 0 ≡ true)

two_guards :
    {A : Type 0} (x y : A) (a b : Bool)
    → (a ≡ false) ⊎ (b ≡ true)
    → (if not a then x else if b then x else y) ≡ x
two_guards x y a b (inl e) = rw (e) refl
two_guards x y a b (inr e) = elim (Bool-cases a) [ inl f ↦ rw (e, f) refl | inr f ↦ rw (f) refl ]

-- A request for no bytes or for a negative number of them, or from a heap that there is not, returns
-- null and leaves memory alone, whatever the fuel.
alloc_from_heap-null :
    (m : Mem) (st : AllocState) (heap size fuel : ℕ)
    → (sle32 size 0 ≡ true) ⊎ IsDead st heap m
    → alloc_from_heap fuel heap size st m ≡ some (0, m)
unfolding alloc_from_heap
alloc_from_heap-null m st heap size fuel (inl e) = rw (e) refl
alloc_from_heap-null m st heap size fuel (inr h) = elim (Bool-cases (sle32 size 0)) [
  | inl e ↦ rw (e) refl
  | inr e ↦ rw (e) (two_guards _ _ (is_heap (current st m) heap) _ h)
]

-- A release of null, or to a heap that there is not, leaves memory alone.
pub free_to_heap-null :
    (m : Mem) (st : AllocState) (heap ptr fuel : ℕ)
    → (ptr ≡ 0) ⊎ IsDead st heap m
    → free_to_heap fuel heap ptr st m ≡ some m
unfolding free_to_heap
free_to_heap-null m st heap ptr fuel (inl e) = rw (e) refl
free_to_heap-null m st heap ptr fuel (inr h) = elim (Bool-cases (ptr == 0)) [
  | inl e ↦ rw (e) refl
  | inr e ↦ rw (e) (two_guards _ _ (is_heap (current st m) heap) _ h)
]

-- A store outside the state page leaves what the page holds.
state_load_or-store :
    (m : Mem) (a v off d : ℕ)
    → a + 4 ≤ 2 ^ 32
    → (a + 4 ≤ add32 state_base off) ⊎ (add32 state_base off + 4 ≤ a)
    → state_load_or (set_field m a 0 v) off d ≡ state_load_or m off d
unfolding state_load_or is_state_mapped gc_mem_ptr
state_load_or-store m a v off d l h =
    ap (λ x. if is_state_mapped m off 4 then x else d)
      (load_u32be-store_apart m (add32 a 0) (add32 state_base off) v (omega (arith, l, h)))

current-set :
    (m : Mem) (st : AllocState) (hd v : ℕ)
    → hd + heapdesc_size ≤ 2 ^ 32
    → (hd + heapdesc_size ≤ state_base) ⊎ (state_base + 64 ≤ hd)
    → current st (set_field m hd hd_size v) ≡ current st m
unfolding current
current-set m st hd v l h =
    let e1 = same 0x20 st.curr_heap (omega arith) in
    let e2 = same 0x24 st.heap_array (omega arith) in
    let e3 = same 0x28 st.num_heaps (omega arith) in
    let e4 = same 0x2C st.arena_start (omega arith) in
    let e5 = same 0x30 st.arena_end (omega arith) in
    λ i. record {
      curr_heap = e1 i;
      heap_array = e2 i;
      num_heaps = e3 i;
      arena_start = e4 i;
      arena_end = e5 i;
    }
  where
    same :
        (off d : ℕ)
        → off ≤ 60
        → state_load_or (set_field m hd hd_size v) off d ≡ state_load_or m off d
    same off d k = state_load_or-store m hd v off d (omega arith) (omega (arith, h))

-- A heap that is destroyed hands out nothing and takes nothing back.
pub destroy_heap-dead :
    (m : Mem) (st : AllocState) (heap size ptr fuel : ℕ)
    → is_heap (current st m) heap ≡ true
    → Mapped m (heap_desc (current st m).heap_array heap) heapdesc_size
    → (heap_desc (current st m).heap_array heap + heapdesc_size ≤ state_base)
      ⊎ (state_base + 64 ≤ heap_desc (current st m).heap_array heap)
    → let m' = destroy_heap heap st m in
      (alloc_from_heap fuel heap size st m' ≡ some (0, m'))
      × (free_to_heap fuel heap ptr st m' ≡ some m')
unfolding destroy_heap
destroy_heap-dead m st heap size ptr fuel live d h =
    let hd = heap_desc (current st m).heap_array heap in
    let m' = set_field m hd hd_size minus_one in
    let word : field m' hd hd_size ≡ minus_one =
      field-set_self m 12 hd d 0 minus_one (omega arith) (omega arith) in
    let dead : IsDead st heap (set_field m hd hd_size minus_one) =
      subst
        (λ c.
          (is_heap c heap ≡ false)
          ⊎ (slt32 (field m' (heap_desc c.heap_array heap) hd_size) 0 ≡ true))
        (sym (current-set m st hd minus_one d.3 h)) (inr (rw (word) refl)) in
    rw (live) (
      alloc_from_heap-null m' st heap size fuel (inr dead),
      free_to_heap-null m' st heap ptr fuel (inr dead),
    )
