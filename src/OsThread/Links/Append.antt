-- ===== src/OsThread/Links/Append.antt =====
-- `port_AddTail` puts a structure behind those of a thread queue.
use mathlib.Core.Path.{subst}
use gamecube_port.Base.{
  ℕ, ◌+◌, ◌≤◌, ◌<◌, ◌^◌, ◌≡◌, refl, sym, ◌∙◌, List, [], ◌∷◌, ◌++◌, arith, head_or, last_or,
  last_or-append_one, All, Bool-cases, some, inl, inr, ◌⊎◌, ◌==◌, if◌then◌else◌, All-append_one,
}
use gamecube_port.GcMem.{Mem, Mapped, Apart, field, set_field}
use gamecube_port.GcMem.Laws.{field-set_self, field-set_ne}
use gamecube_port.GcMem.Chain.{Node, Distinct, All-last, Distinct-append_one}
use gamecube_port.GcMem.Dll.{Offsets, Dll, Nodes, Dll-set-Apart, Dll-set_last, Dll-append}
use gamecube_port.GcMem.Unhook.{nonzero}
use gamecube_port.OsThread.{Os, queue_head, queue_tail}
use gamecube_port.OsThread.Queue.{add_tail}
use gamecube_port.OsThread.Links.{Off, IsThreads, Leaves, Dll-store, queue_stays}

module _ (size nx pv : ℕ) (o : Offsets size nx pv) (q b : ℕ) where
  flip : (pv + 4 ≤ nx) ⊎ (nx + 4 ≤ pv)
  flip = omega (arith, o.no_overlap)

  -- The writes to the structure itself and to the tail, after `m1`, with the old tail read as `p`.
  abbrev own : Mem → (p : ℕ) → Mem
  own m1 p = set_field (set_field m1 b pv p) b nx 0

  abbrev tailed : Mem → (p : ℕ) → Mem
  tailed m1 p = set_field (own m1 p) q queue_tail b

  -- The new structure's links, and the queue's head.
  own_links :
      (m1 : Mem) (p : ℕ)
      → Node m1 size b
      → p < 2 ^ 32
      → (field (own m1 p) b nx ≡ 0) × (field (own m1 p) b pv ≡ p)
  own_links m1 p n lt = (
    field-set_self (set_field m1 b pv p) size b n.1 nx 0 o.next_in (omega arith),
    field-set_ne (set_field m1 b pv p) size b n.1 nx 0 o.next_in pv o.prev_in o.no_overlap
        ∙ field-set_self m1 size b n.1 pv p o.prev_in lt,
  )

  own_head :
      (m1 : Mem) (p : ℕ)
      → Mapped m1 q 8
      → Node m1 size b
      → Off size nx pv o q b
      → field (tailed m1 p) q 0 ≡ field m1 q 0
  own_head m1 p i n s =
      let m2 = set_field m1 b pv p in
      field-set_ne (own m1 p) 8 q i 4 b (omega arith) 0 (omega arith) (omega arith)
      ∙ queue_stays size nx pv o q m2 b nx 0 0 i (omega arith) n o.next_in s
      ∙ queue_stays size nx pv o q m1 b pv p 0 i (omega arith) n o.prev_in s

  -- The lists that are already there, linked up to `b` in `m1`.
  tailed-IsThreads :
      (m1 : Mem) (xs : List ℕ)
      → Mapped m1 q 8
      → Node m1 size b
      → Off size nx pv o q b
      → field m1 q 0 ≡ head_or (xs ++ (b ∷ [])) 0
      → last_or xs 0 < 2 ^ 32
      → Dll nx pv m1 0 xs b
      → Nodes m1 size xs
      → Distinct size xs
      → All (Off size nx pv o q) xs
      → All (Apart size b) xs
      → IsThreads size nx pv o (tailed m1 (last_or xs 0)) q (xs ++ (b ∷ []))
  tailed-IsThreads m1 xs i n s h lt d nodes distinct beside apart =
      let p = last_or xs 0 in
      let m2 = set_field m1 b pv p in
      let d2 = Dll-set-Apart size nx pv o m1 b pv p 0 xs b n.1 o.prev_in nodes apart d in
      let d3 = Dll-set-Apart size nx pv o m2 b nx 0 0 xs b n.1 o.next_in nodes apart d2 in
      let (e0, e1) = own_links m1 p n lt in
      let all = Dll-append nx pv (own m1 p) 0 xs (b ∷ []) 0 d3 (e0, e1, tt) in
      let ns = All-append_one (Node m1 size) xs b nodes n in
      let off = All-append_one (Off size nx pv o q) xs b beside s in
      record {
        mapped = i;
        head = own_head m1 p i n s ∙ h;
        tail =
            field-set_self (own m1 p) 8 q i 4 b (omega arith) (omega (arith, n))
            ∙ sym (last_or-append_one xs b 0);
        links =
            Dll-store size nx pv o q (own m1 p) 4 b 0 (xs ++ (b ∷ [])) 0 i (omega arith) ns off all;
        nodes = ns;
        distinct = Distinct-append_one size xs b distinct apart;
        beside = off;
      }

  add_tail_lem :
      (s : Os) (p : ℕ)
      → field s.mem q 4 ≡ p
      → add_tail q b nx pv s
        ≡ some (
          tt,
          record s {
            mem =
                tailed
                  (if p == 0 then set_field s.mem q queue_head b else set_field s.mem p nx b)
                  p;
          },
        )
  unfolding add_tail
  add_tail_lem s p e = rw e (elim (Bool-cases (p == 0)) [ inl g ↦ rw g refl | inr g ↦ rw g refl ])

  -- A structure that is in no queue is put behind those of the queue, which stay in order and are
  -- linked with it in both directions; nothing but memory changes.
  pub add_tail-append :
      (s : Os) (xs : List ℕ)
      → IsThreads size nx pv o s.mem q xs
      → Node s.mem size b
      → Off size nx pv o q b
      → All (Apart size b) xs
      → Leaves (add_tail q b nx pv s) s tt (λ m. IsThreads size nx pv o m q (xs ++ (b ∷ [])))
  add_tail-append s [] r n k apart =
      let m1 = set_field s.mem q queue_head b in
      subst (λ t. Leaves t s tt (λ m. IsThreads size nx pv o m q (b ∷ [])))
        (sym (add_tail_lem s 0 r.tail))
        (
          refl,
          refl,
          tailed-IsThreads m1 [] r.mapped n k
              (field-set_self s.mem 8 q r.mapped 0 b (omega arith) (omega (arith, n))) (omega arith)
              tt tt tt tt tt,
        )
  add_tail-append s (x ∷ xs) r n k apart =
      let m = s.mem in
      let z = last_or xs x in
      let p : Node m size (last_or xs x) = All-last (Node m size) x xs r.nodes in
      let sp : Off size nx pv o q (last_or xs x) = All-last (Off size nx pv o q) x xs r.beside in
      let m1 = set_field m z nx b in
      let d =
        Dll-set_last size nx pv o m 0 x xs 0 b r.nodes r.distinct (omega (arith, n)) r.links in
      let h =
        queue_stays size nx pv o q m z nx b 0 r.mapped (omega arith) p o.next_in sp ∙ r.head in
      let done =
        tailed-IsThreads m1 (x ∷ xs) r.mapped n k h (omega (arith, p)) d r.nodes r.distinct r.beside
          apart in
      subst (λ t. Leaves t s tt (λ m. IsThreads size nx pv o m q (x ∷ (xs ++ (b ∷ [])))))
        (sym (add_tail_lem s z r.tail)) (rw (nonzero z p.0) (refl, refl, done))
