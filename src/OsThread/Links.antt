-- ===== src/OsThread/Links.antt =====
-- The thread queues of sdk_port/os/osthread.c as doubly linked lists in emulated RAM, whose head and
-- tail stand in emulated RAM too.
pub mod Append
pub mod Tests
use mathlib.Core.Path.{subst}
use mathlib.Core.List.{append-nil}
use gamecube_port.Base.{
  ℕ, ◌+◌, ◌-◌, ◌*◌, ◌%◌, ◌^◌, ◌≤◌, ◌<◌, ◌≡◌, ◌≢◌, refl, sym, ◌∙◌, ap, Bool-cases, if_cases, List,
  [], ◌∷◌, ◌++◌, arith, head_or, last_or, last_or-append, last_or-append_one, All, true, false,
  Bool, Option, none, some, inl, inr, ◌⊎◌, ◌==◌, if◌then◌else◌,
}
use gamecube_port.GcMem.{Mem, Mapped, Apart, field, set_field, add32}
use gamecube_port.GcMem.Laws.{
  load_u32be-store_apart, field-set_self, field-set_ne, field-set-Apart, Mapped-field,
}
use gamecube_port.GcMem.Chain.{Node, Distinct, All-last, Apart-sym, Distinct-append_one}
use gamecube_port.GcMem.Dll.{
  Offsets, Dll, Nodes, Dll-set-Apart, Dll-set_last, Dll-set_first, Dll-append, Dll-split, All-split,
  All-join, Distinct-split, Distinct-join, Across-column,
}
use gamecube_port.GcMem.Unhook.{
  nonzero, unhook, first_write, IsAround, IsAround-split, unhook-links, unhook_both,
}
use gamecube_port.OsThread.{Os, M, set32, ◌>>◌, queue_head, queue_tail, queue_size}
use gamecube_port.OsThread.Queue.{add_tail, remove_item, remove_head}

-- The run queues and the queues that threads wait in link threads of 64 bytes.
pub thread_offsets : Offsets 64 28 32
thread_offsets = omega arith

-- Two stores, each at one of two places.
two_writes :
    (s : Os) (m : Mem) (a c : Bool) (x f v y g x' f' v' y' g' : ℕ)
    → s.mem ≡ m
    → ((if a then set32 x f v else set32 y g v) >> (if c then set32 x' f' v' else set32 y' g' v')) s
      ≡ some (
        tt,
        record s {
          mem =
              let m1 = if a then set_field m x f v else set_field m y g v in
              if c then set_field m1 x' f' v' else set_field m1 y' g' v';
        },
      )
two_writes s m true true x f v y g x' f' v' y' g' e = rw (sym e) refl
two_writes s m true false x f v y g x' f' v' y' g' e = rw (sym e) refl
two_writes s m false true x f v y g x' f' v' y' g' e = rw (sym e) refl
two_writes s m false false x f v y g x' f' v' y' g' e = rw (sym e) refl

-- An operation ends with a value, and changes nothing but memory.
abbrev pub Leaves : {A : Type 0} → Option (A × Os) → Os → A → (Mem → Type 0) → Type 0
Leaves none s a P = true ≡ false
Leaves (some r) s a P = (r.0 ≡ a) × (r.1 ≡ record s { mem = r.1.mem }) × P (r.1.mem)

module _ (size nx pv : ℕ) (o : Offsets size nx pv) where
  -- The eight bytes of a queue at `q` beside a structure.
  abbrev pub Off : ℕ → ℕ → Type 0
  Off q x = (q + 8 ≤ x) ⊎ (x + size ≤ q)

  -- The queue at `q` holds the structures `xs`, linked in both directions.
  pub record IsThreads (m : Mem) (q : ℕ) (xs : List ℕ) : Type 0 where
    pub mapped : Mapped m q 8
    pub head : field m q 0 ≡ head_or xs 0
    pub tail : field m q 4 ≡ last_or xs 0
    pub links : Dll nx pv m 0 xs 0
    pub nodes : Nodes m size xs
    pub distinct : Distinct size xs
    pub beside : All (Off q) xs

  module _ (q : ℕ) where
    -- A store in the queue leaves the links alone, and one in a structure the queue.
    pub Dll-store :
        (m : Mem) (f v p : ℕ) (xs : List ℕ) (e : ℕ)
        → Mapped m q 8
        → f + 4 ≤ 8
        → Nodes m size xs
        → All (Off q) xs
        → Dll nx pv m p xs e
        → Dll nx pv (set_field m q f v) p xs e
    Dll-store m f v p [] e i g n s d = tt
    Dll-store m f v p (x ∷ xs) e i g n s d = (
      load_u32be-store_apart m (add32 q f) (add32 x nx) v (omega (arith, i, g, n.0, s.0, o.next_in))
          ∙ d.0,
      load_u32be-store_apart m (add32 q f) (add32 x pv) v (omega (arith, i, g, n.0, s.0, o.prev_in))
          ∙ d.1,
      Dll-store m f v x xs e i g n.1 s.1 d.2,
    )

    pub queue_stays :
        (m : Mem) (y f v g : ℕ)
        → Mapped m q 8
        → g + 4 ≤ 8
        → Node m size y
        → f + 4 ≤ size
        → Off q y
        → field (set_field m y f v) q g ≡ field m q g
    queue_stays m y f v g i h n k s =
        load_u32be-store_apart m (add32 y f) (add32 q g) v (omega (arith, i, h, n, k, s))

    module _ (m : Mem) (b : ℕ) where
      -- What taking `b` out leaves in memory, with its links read as `p` and `n`.
      abbrev left : (p n : ℕ) → Mem
      left p n =
          let m1 = if n == 0 then set_field m q queue_tail p else set_field m n pv p in
          if p == 0 then set_field m1 q queue_head n else set_field m1 p nx n

      writes_lem :
          (s : Os) (p n : ℕ)
          → s.mem ≡ m
          → ((if n == 0 then set32 q queue_tail p else set32 n pv p)
                >> (if p == 0 then set32 q queue_head n else set32 p nx n))
              s
            ≡ some (tt, record s { mem = left p n })
      writes_lem s p n e =
          two_writes s m (n == 0) (p == 0) q queue_tail p n pv q queue_head n p nx e

      left-IsThreads :
          (xs ys : List ℕ)
          → IsAround size nx pv o m b xs ys
          → Mapped m q 8
          → field m q 0 ≡ head_or (xs ++ (b ∷ ys)) 0
          → field m q 4 ≡ last_or (xs ++ (b ∷ ys)) 0
          → All (Off q) (xs ++ ys)
          → IsThreads (left (last_or xs 0) (head_or ys 0)) q (xs ++ ys)
      left-IsThreads [] [] r i h t s =
          let m1 = set_field m q queue_tail 0 in
          record {
            mapped = i;
            head = field-set_self m1 8 q i 0 0 (omega arith) (omega arith);
            tail =
                field-set_ne m1 8 q i 0 0 (omega arith) 4 (omega arith) (omega arith)
                ∙ field-set_self m 8 q i 4 0 (omega arith) (omega arith);
            links = tt;
            nodes = tt;
            distinct = tt;
            beside = tt;
          }
      left-IsThreads [] (c ∷ zs) r i h t s =
          let k = r.nodes_after in
          let m1 = set_field m c pv 0 in
          let d =
            Dll-set_first size nx pv o m b 0 c zs 0 k r.distinct_after (omega arith) r.after in
          rw (nonzero c k.0.0) (record {
            mapped = i;
            head = field-set_self m1 8 q i 0 c (omega arith) (omega (arith, k));
            tail =
                field-set_ne m1 8 q i 0 c (omega arith) 4 (omega arith) (omega arith)
                ∙ queue_stays m c pv 0 4 i (omega arith) k.0 o.prev_in s.0
                ∙ t;
            links = Dll-store m1 0 c 0 (c ∷ zs) 0 i (omega arith) k s d;
            nodes = k;
            distinct = r.distinct_after;
            beside = s;
          })
      left-IsThreads (x ∷ xs) [] r i h t s =
          let n = r.nodes_before in
          let p : Node m size (last_or xs x) = All-last (Node m size) x xs n in
          let (s0, s1) = All-split (Off q) (x ∷ xs) [] s in
          let sp : Off q (last_or xs x) = All-last (Off q) x xs s0 in
          let m1 = set_field m q queue_tail (last_or xs x) in
          let d0 = Dll-store m 4 (last_or xs x) 0 (x ∷ xs) b i (omega arith) n s0 r.before in
          let d = Dll-set_last size nx pv o m1 0 x xs b 0 n r.distinct_before (omega arith) d0 in
          rw (nonzero (last_or xs x) p.0, append-nil xs)
            (record {
              mapped = i;
              head =
                  queue_stays m1 (last_or xs x) nx 0 0 i (omega arith) p o.next_in sp
                  ∙ field-set_ne m 8 q i 4 (last_or xs x) (omega arith) 0 (omega arith)
                      (omega arith)
                  ∙ h;
              tail =
                  queue_stays m1 (last_or xs x) nx 0 4 i (omega arith) p o.next_in sp
                  ∙ field-set_self m 8 q i 4 (last_or xs x) (omega arith) (omega (arith, p));
              links = d;
              nodes = n;
              distinct = r.distinct_before;
              beside = s0;
            })
      left-IsThreads (x ∷ xs) (c ∷ zs) r i h t s =
          let n = r.nodes_before in
          let k = r.nodes_after in
          let p : Node m size (last_or xs x) = All-last (Node m size) x xs n in
          let (s0, s1) = All-split (Off q) (x ∷ xs) (c ∷ zs) s in
          let sp : Off q (last_or xs x) = All-last (Off q) x xs s0 in
          let m1 = set_field m c pv (last_or xs x) in
          let stays : (g : ℕ)
              → g + 4 ≤ 8
              → field (set_field m1 (last_or xs x) nx c) q g ≡ field m q g =
            λ g le.
              queue_stays m1 (last_or xs x) nx c g i le p o.next_in sp
              ∙ queue_stays m c pv (last_or xs x) g i le k.0 o.prev_in s1.0 in
          let d = unhook-links size nx pv o m b (x ∷ xs) (c ∷ zs) r in
          let both = unhook_both size nx pv o m (last_or xs x) c p.0 k.0.0 in
          rw (nonzero (last_or xs x) p.0, nonzero c k.0.0)
            (record {
              mapped = i;
              head = stays 0 (omega arith) ∙ h;
              tail =
                  stays 4 (omega arith)
                  ∙ t
                  ∙ last_or-append xs b (c ∷ zs) x
                  ∙ sym (last_or-append xs c zs x);
              links = subst (λ u. Dll nx pv u 0 (x ∷ (xs ++ (c ∷ zs))) 0) both d;
              nodes = All-join (Node m size) (x ∷ xs) (c ∷ zs) n k;
              distinct =
                  Distinct-join size (x ∷ xs) (c ∷ zs) r.distinct_before r.distinct_after r.across;
              beside = s;
            })

  head_lem :
      (s : Os) (q x n : ℕ)
      → field s.mem q 0 ≡ x
      → field s.mem x nx ≡ n
      → remove_head q nx pv s ≡ some (x, record s { mem = left q s.mem x 0 n })
  unfolding remove_head
  head_lem s q x n e f =
      rw (e, f) (elim (Bool-cases (n == 0)) [ inl g ↦ rw g refl | inr g ↦ rw g refl ])

  -- A structure is taken out of wherever it stands in its queue, which then holds the others in their
  -- order, linked in both directions between its head and its tail; nothing but memory changes.
  pub remove_item-remove :
      (s : Os) (q b : ℕ) (xs ys : List ℕ)
      → IsThreads s.mem q (xs ++ (b ∷ ys))
      → Leaves (remove_item q b nx pv s) s tt (λ m. IsThreads m q (xs ++ ys))
  unfolding remove_item
  remove_item-remove s q b xs ys r =
      let m = s.mem in
      let around = IsAround-split size nx pv o m xs b ys r.links r.nodes r.distinct in
      let (d, f) = Dll-split nx pv m 0 xs (b ∷ ys) 0 r.links in
      let (s0, s1) = All-split (Off q) xs (b ∷ ys) r.beside in
      let e =
        writes_lem q m b s (field m b pv) (field m b nx) refl
        ∙ ap (λ p. some (tt, record s { mem = left q m b p (field m b nx) })) f.1
        ∙ ap (λ n. some (tt, record s { mem = left q m b (last_or xs 0) n })) f.0 in
      subst (λ t. Leaves t s tt (λ m. IsThreads m q (xs ++ ys))) (sym e)
        (
          refl,
          refl,
          left-IsThreads q m b xs ys around r.mapped r.head r.tail (All-join (Off q) xs ys s0 s1.1),
        )

  left_Node : (q : ℕ) (m : Mem) (b p n y : ℕ) → Node m size y → Node (left q m b p n) size y
  left_Node q m b p n y h =
      let P : Mem → Type 0 = λ u. Node u size y in
      let m1 = if n == 0 then set_field m q queue_tail p else set_field m n pv p in
      let h1 =
        if_cases P (n == 0) (set_field m q queue_tail p) (set_field m n pv p) (λ _. h) (λ _. h) in
      if_cases P (p == 0) (set_field m1 q queue_head n) (set_field m1 p nx n) (λ _. h1) (λ _. h1)

  -- The memory that taking the head off leaves.
  pub remove_head_run :
      (s : Os) (q x : ℕ) (xs : List ℕ)
      → IsThreads s.mem q (x ∷ xs)
      → (m : Mem) × (remove_head q nx pv s ≡ some (x, record s { mem = m }))
        × IsThreads m q xs
        × Node m size x
  remove_head_run s q x xs r =
      let m = s.mem in
      let around = IsAround-split size nx pv o m [] x xs r.links r.nodes r.distinct in
      (
        left q m x 0 (head_or xs 0),
        head_lem s q x (head_or xs 0) r.head r.links.0,
        left-IsThreads q m x [] xs around r.mapped r.head r.tail r.beside.1,
        left_Node q m x 0 (head_or xs 0) x r.nodes.0,
      )

  -- The head of a queue that is not empty is taken off and returned, and the others stay in order and
  -- well linked; nothing but memory changes.
  pub remove_head-first :
      (s : Os) (q x : ℕ) (xs : List ℕ)
      → IsThreads s.mem q (x ∷ xs)
      → Leaves (remove_head q nx pv s) s x (λ m. IsThreads m q xs)
  remove_head-first s q x xs r =
      let (m, e, h, n) = remove_head_run s q x xs r in
      subst (λ t. Leaves t s x (λ m. IsThreads m q xs)) (sym e) (refl, refl, h)
