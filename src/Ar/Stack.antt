-- ===== src/Ar/Stack.antt =====
-- The ARAM allocator refines a stack of block lengths.
use mathlib.Core.Path.{ap₂}
use gamecube_port.Base.{
  ℕ, ◌+◌, ◌*◌, ◌^◌, ◌≤◌, ◌<◌, ◌≡◌, refl, ◌∙◌, List, [], ◌∷◌, arith, length, false,
}
use gamecube_port.GcMem.{Mem, Mapped, load_u32be, store_u32be, add32, sub32, mul32}
use gamecube_port.GcMem.Laws.{load_u32be-store_self, load_u32be-store_apart}
use gamecube_port.Ar.{ArState, base_address, ar_init, ar_alloc, ar_free}

abbrev pub sum : List ℕ → ℕ
sum [] = 0
sum (x ∷ xs) = x + sum xs

-- the address of the entry that is allocated on top of the blocks `xs`
abbrev pub entry : ℕ → List ℕ → ℕ
entry base xs = base + 4 * length xs

-- The array holds the lengths, the oldest first; the list has the newest first.
abbrev pub Lengths : Mem → ℕ → List ℕ → Type 0
Lengths m base [] = Unit
Lengths m base (x ∷ xs) =
    (load_u32be m (base + 4 * length xs) ≡ x) × (x < 2 ^ 32) × Lengths m base xs

-- The state stands for the stack `xs` of allocated blocks, in an array of `cap` entries.
pub record IsStack (cap : ℕ) (st : ArState) (m : Mem) (xs : List ℕ) : Type 0 where
  pub array : Mapped m st.block_length_base (4 * cap)
  pub lengths : Lengths m st.block_length_base xs
  pub index : st.block_length_idx ≡ length xs
  pub free : st.free_blocks + length xs ≡ cap
  pub top : st.stack_pointer ≡ base_address + sum xs
  pub fits : base_address + sum xs < 2 ^ 32
  pub small : cap < 2 ^ 30

Lengths-store :
    (m : Mem) (base i v : ℕ) (xs : List ℕ)
    → Lengths m base xs
    → length xs ≤ i
    → Lengths (store_u32be m (base + 4 * i) v) base xs
Lengths-store m base i v [] h l = tt
Lengths-store m base i v (x ∷ xs) h l = (
  load_u32be-store_apart m (base + 4 * i) (base + 4 * length xs) v (omega arith) ∙ h.0,
  h.1,
  Lengths-store m base i v xs h.2 (omega arith),
)

-- `ARAlloc` pushes the block and returns the address where it starts.
pub ar_alloc-push :
    (cap : ℕ) (st : ArState) (m : Mem) (xs : List ℕ) (len : ℕ)
    → IsStack cap st m xs
    → length xs < cap
    → base_address + sum xs + len < 2 ^ 32
    → let (p, st', m') = ar_alloc st m len in
      (p ≡ base_address + sum xs) × IsStack cap st' m' (len ∷ xs)
unfolding ar_alloc
ar_alloc-push cap st m xs len h room fits = rw slot (h.top, pushed)
  where
    slot : add32 st.block_length_base (mul32 st.block_length_idx 4) ≡ entry st.block_length_base xs
    slot = omega arith

    st' : ArState
    st' = record st {
      stack_pointer = add32 st.stack_pointer len;
      free_blocks = sub32 st.free_blocks 1;
      block_length_idx = add32 st.block_length_idx 1;
    }

    word : Mapped m (entry st.block_length_base xs) 4
    word = ground arith

    pushed : IsStack cap st' (store_u32be m (entry st.block_length_base xs) len) (len ∷ xs)
    pushed = record {
      array = h.array;
      lengths = (
        load_u32be-store_self m _ len word (omega arith),
        omega arith,
        Lengths-store m _ (length xs) len xs h.lengths (omega arith),
      );
      index = omega arith;
      free = omega arith;
      top = omega arith;
      fits = omega arith;
      small = h.small;
    }

-- `ARFree` pops the block that was allocated last, gives its length and the address where it
-- started.
pub ar_free-pop :
    (cap : ℕ) (st : ArState) (m : Mem) (x : ℕ) (xs : List ℕ)
    → IsStack cap st m (x ∷ xs)
    → let (p, len, st') = ar_free st m in
      (p ≡ base_address + sum xs) × (len ≡ x) × IsStack cap st' m xs
unfolding ar_free
ar_free-pop cap st m x xs h = rw (slot, h.lengths.0) (omega arith, refl, popped)
  where
    slot :
        add32 st.block_length_base (mul32 (sub32 st.block_length_idx 1) 4)
        ≡ entry st.block_length_base xs
    slot = omega arith

    st' : ArState
    st' = record st {
      stack_pointer = sub32 st.stack_pointer x;
      free_blocks = add32 st.free_blocks 1;
      block_length_idx = sub32 st.block_length_idx 1;
    }

    popped : IsStack cap st' m xs
    popped = record {
      array = h.array;
      lengths = h.lengths.2;
      index = omega arith;
      free = omega arith;
      top = omega arith;
      fits = omega arith;
      small = h.small;
    }

-- `ARInit` on an allocator that is not initialised gives the empty stack, over an array of
-- `num_entries` mapped words.
pub ar_init-IsStack :
    (st : ArState) (m : Mem) (base num_entries aram_size : ℕ)
    → st.init_flag ≡ false
    → Mapped m base (4 * num_entries)
    → num_entries < 2 ^ 30
    → IsStack num_entries (ar_init st base num_entries aram_size).1 m []
unfolding ar_init
ar_init-IsStack st m base num_entries aram_size e h s = rw e (record {
  array = h;
  lengths = tt;
  index = refl;
  free = omega arith;
  top = refl;
  fits = omega arith;
  small = s;
})

-- What a client may ask, in the abstract: a stack of blocks.
pub data Op : Type 0 where
  alloc : ℕ → Op
  free : Op

-- Calls in order, each with the address it returns.
unfoldable pub run : ArState → Mem → List Op → List ℕ
run st m [] = []
run st m (alloc len ∷ ops) = let (p, st', m') = ar_alloc st m len in p ∷ run st' m' ops
run st m (free ∷ ops) = let (p, len, st') = ar_free st m in p ∷ run st' m ops

-- The same calls on a stack of lengths: a block starts where the blocks below it end.
unfoldable pub stack_run : List ℕ → List Op → List ℕ
stack_run xs [] = []
stack_run xs (alloc len ∷ ops) = (base_address + sum xs) ∷ stack_run (len ∷ xs) ops
stack_run [] (free ∷ ops) = []
stack_run (x ∷ xs) (free ∷ ops) = (base_address + sum xs) ∷ stack_run xs ops

-- Nothing is freed from an empty stack, and no block goes beyond the array or 2 ^ 32.
abbrev pub WithinLimits : ℕ → List ℕ → List Op → Type 0
WithinLimits cap xs [] = Unit
WithinLimits cap xs (alloc len ∷ ops) =
    (length xs < cap) × (base_address + sum xs + len < 2 ^ 32) × WithinLimits cap (len ∷ xs) ops
WithinLimits cap [] (free ∷ ops) = ⊥
WithinLimits cap (x ∷ xs) (free ∷ ops) = WithinLimits cap xs ops

-- Every sequence of calls within the limits returns the addresses that the stack of lengths gives.
pub alloc_run_refines :
    (cap : ℕ) (ops : List Op) (st : ArState) (m : Mem) (xs : List ℕ)
    → IsStack cap st m xs
    → WithinLimits cap xs ops
    → run st m ops ≡ stack_run xs ops
unfolding run stack_run
alloc_run_refines cap [] st m xs h w = refl
alloc_run_refines cap (alloc len ∷ ops) st m xs h w =
    let (e, h') = ar_alloc-push cap st m xs len h w.0 w.1 in
    ap₂ ◌∷◌ e (alloc_run_refines cap ops _ _ (len ∷ xs) h' w.2)
alloc_run_refines cap (free ∷ ops) st m [] h w = absurd w
alloc_run_refines cap (free ∷ ops) st m (x ∷ xs) h w =
    let (e, l, h') = ar_free-pop cap st m x xs h in
    ap₂ ◌∷◌ e (alloc_run_refines cap ops _ m xs h' w)
