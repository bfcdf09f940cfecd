-- ===== src/OsThread/Chosen.antt =====
-- Which thread runs next: the second part of `port_SelectThread`.
mod Tests
use mathlib.Core.Path.{subst}
use gamecube_port.Base.{
  ℕ, ◌+◌, ◌-◌, ◌≤◌, ◌<◌, ◌^◌, ◌≡◌, ◌≢◌, refl, sym, ◌∙◌, ap, List, [], ◌∷◌, arith, head_or, All,
  true, false, Bool, Bool-cases, Option, none, some, inl, inr, ◌⊎◌, ◌==◌, if◌then◌else◌, bit_and,
}
use gamecube_port.GcMem.{
  Mem, Mapped, Apart, load_u32be, put_u16be, put_u32be, field, set_field, field16, set_field16,
  add32,
}
use gamecube_port.GcMem.Laws.{
  load_u32be-store_apart, load_u32be-store_u16be_apart, load_u16be-store_self, Mapped-field,
}
use gamecube_port.GcMem.Chain.{Node}
use gamecube_port.GcMem.Dll.{Offsets, Dll, Nodes}
use gamecube_port.GcMem.Unhook.{IsAround-split, nonzero}
use gamecube_port.OsThread.{
  Os, M, thread_state, thread_queue, state_running, link_next, link_prev, runqueue_addr, cntlzw,
  priority_bit, not32, ◌>>=◌, ◌>>◌, get32, set32, set16, skip, pure, queue_head, bind-some,
}
use gamecube_port.OsThread.Links.{Off, IsThreads, thread_offsets, remove_head_run}
use gamecube_port.OsThread.Scheduler.{choose_next, set_current}
use gamecube_port.OsThread.Priority.{clear_bit}
use gamecube_port.OsThread.Queue.{remove_head}

-- A write inside the structure of `n` bytes at `x` leaves every word outside.
abbrev Spares : ℕ → ℕ → Mem → (ℕ → ℕ) → Type 0
Spares n x m f =
    (a : ℕ) → (a + 4 ≤ x) ⊎ (x + n ≤ a) → load_u32be (record m { byte = f }) a ≡ load_u32be m a

module _ (size nx pv : ℕ) (o : Offsets size nx pv) (m : Mem) (f : ℕ → ℕ) (t q : ℕ) where
  Dll-Spares :
      (p : ℕ) (xs : List ℕ) (e : ℕ)
      → Spares size t m f
      → Nodes m size xs
      → All (Apart size t) xs
      → Dll nx pv m p xs e
      → Dll nx pv (record m { byte = f }) p xs e
  Dll-Spares p [] e s n a d = tt
  Dll-Spares p (x ∷ xs) e s n a d = (
    s (add32 x nx) (omega (arith, n.0, a.0, o.next_in)) ∙ d.0,
    s (add32 x pv) (omega (arith, n.0, a.0, o.prev_in)) ∙ d.1,
    Dll-Spares x xs e s n.1 a.1 d.2,
  )

  IsThreads-Spares :
      (xs : List ℕ)
      → IsThreads size nx pv o m q xs
      → Spares size t m f
      → Off size nx pv o q t
      → All (Apart size t) xs
      → IsThreads size nx pv o (record m { byte = f }) q xs
  IsThreads-Spares xs r s k a = record {
    mapped = r.mapped;
    head = s (add32 q 0) (omega (arith, k, r.mapped)) ∙ r.head;
    tail = s (add32 q 4) (omega (arith, k, r.mapped)) ∙ r.tail;
    links = Dll-Spares 0 xs 0 s r.nodes a r.links;
    nodes = r.nodes;
    distinct = r.distinct;
    beside = r.beside;
  }

-- The two stores that mark a thread as running.
abbrev mark : Mem → ℕ → Mem
mark m x = set_field16 (set_field m x thread_queue 0) x thread_state state_running

mark-Spares : (m : Mem) (x : ℕ) → Mapped m x 64 → Spares 64 x m ((mark m x).byte)
mark-Spares m x i a h =
    load_u32be-store_u16be_apart (set_field m x 24 0) (add32 x 4) a 2 (omega (arith, h, i))
    ∙ load_u32be-store_apart m (add32 x 24) a 0 (omega (arith, h, i))

mark-state : (m : Mem) (x : ℕ) → Mapped m x 64 → field16 (mark m x) x thread_state ≡ state_running
mark-state m x i =
    load_u16be-store_self (set_field m x 24 0) (add32 x 4) 2
      (Mapped-field m 64 x 4 2 i (omega arith) (omega arith)) (omega arith)

abbrev pub IsRunQueue : Mem → ℕ → List ℕ → Type 0
IsRunQueue m q xs = IsThreads 64 link_next link_prev thread_offsets m q xs

-- The bits of the run queues once the queue of a priority holds `xs`.
abbrev pub bits_of : (bits prio : ℕ) → List ℕ → ℕ
bits_of bits prio [] = bit_and bits (not32 (priority_bit prio))
bits_of bits prio (x ∷ xs) = bits

-- The choice has ended with the thread `x`, which is marked as running, and its queue holds `xs`.
abbrev pub IsChosen : Os → (q x : ℕ) → List ℕ → Option (ℕ × Os) → Type 0
IsChosen s q x xs none = true ≡ false
IsChosen s q x xs (some (t, s')) =
    (t ≡ x)
    × (s'.current_thread ≡ x)
    × (field16 s'.mem x thread_state ≡ state_running)
    × IsRunQueue s'.mem q xs
    × (s'.run_queue_bits ≡ bits_of s.run_queue_bits (cntlzw s.run_queue_bits) xs)

-- The program behind the removal.
abbrev after : (q prio next : ℕ) → M ℕ
after q prio next = do
  head ← get32 q queue_head
  if head == 0 then clear_bit prio else skip
  set32 next thread_queue 0
  set16 next thread_state state_running
  set_current next
  pure next

cleared : Os → Os
cleared s = record s { current_thread = 0; run_queue_hint = 0 }

choose_lem :
    (s : Os)
    → s.run_queue_bits ≢ 0
    → let prio = cntlzw s.run_queue_bits in
      let q = runqueue_addr s prio in
      choose_next s ≡ (remove_head q link_next link_prev >>= after q prio) (cleared s)
unfolding choose_next cleared
choose_lem s h = rw (nonzero s.run_queue_bits h) refl

after-IsChosen :
    (s : Os) (m : Mem) (q x : ℕ) (xs : List ℕ)
    → IsRunQueue m q xs
    → Node m 64 x
    → Off 64 28 32 thread_offsets q x
    → All (Apart 64 x) xs
    → IsChosen s q x xs (after q (cntlzw s.run_queue_bits) x (record (cleared s) { mem = m }))
unfolding cleared
after-IsChosen s m q x [] r n k a = rw r.head (
  refl,
  refl,
  mark-state m x n.1,
  IsThreads-Spares 64 28 32 thread_offsets m ((mark m x).byte) x q [] r (mark-Spares m x n.1) k a,
  refl,
)
after-IsChosen s m q x (y ∷ ys) r n k a =
    rw (r.head, nonzero y r.nodes.0.0)
      (
        refl,
        refl,
        mark-state m x n.1,
        IsThreads-Spares 64 28 32 thread_offsets m ((mark m x).byte) x q (y ∷ ys) r
            (mark-Spares m x n.1) k a,
        refl,
      )

run_first :
    (s : Os) (q x : ℕ) (xs : List ℕ)
    → IsRunQueue s.mem q (x ∷ xs)
    → (m : Mem) × (remove_head q link_next link_prev (cleared s)
        ≡ some (x, record (cleared s) { mem = m }))
      × IsRunQueue m q xs
      × Node m 64 x
unfolding cleared
run_first s q x xs r =
    remove_head_run 64 28 32 thread_offsets (record s { current_thread = 0; run_queue_hint = 0 }) q
      x xs r

-- If a bit of the run queues is set, and the queue of the first one that is holds the thread `x` in
-- front of others, the choice ends with `x` as the current thread, marked as running and off its
-- queue, which holds the others in order, and whose bit is cleared exactly if there are none.
pub choose_next-first :
    (s : Os) (x : ℕ) (xs : List ℕ)
    → s.run_queue_bits ≢ 0
    → IsRunQueue s.mem (runqueue_addr s (cntlzw s.run_queue_bits)) (x ∷ xs)
    → IsChosen s (runqueue_addr s (cntlzw s.run_queue_bits)) x xs (choose_next s)
choose_next-first s x xs some_bit r =
    let prio = cntlzw s.run_queue_bits in
    let q = runqueue_addr s prio in
    let (m, e, h, n) = run_first s q x xs r in
    subst (IsChosen s q x xs)
      (sym (
        choose_lem s some_bit
        ∙ bind-some (remove_head q link_next link_prev) (after q prio) (cleared s)
            (record (cleared s) { mem = m }) x e))
      (after-IsChosen s m q x xs h n r.beside.0 r.distinct.0)
