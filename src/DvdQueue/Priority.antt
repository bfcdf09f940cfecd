-- ===== src/DvdQueue/Priority.antt =====
-- `port_DVDPopWaitingQueue` takes the oldest block of the first queue that is not empty.
use mathlib.Core.Path.{subst}
use gamecube_port.Base.{
  ℕ, zero, suc, ◌+◌, ◌<◌, ◌≡◌, sym, ◌∙◌, List, [], ◌∷◌, arith, head_or, last_or, All, true, false,
  ◌==◌,
}
use gamecube_port.GcMem.{Mem, Apart, field, set_field}
use gamecube_port.GcMem.Laws.{field-set_self, field-set_ne}
use gamecube_port.GcMem.Chain.{Apart-sym}
use gamecube_port.GcMem.Dll.{Dll, Nodes, Dll-set-Apart, Dll-set_last, Dll-set_first, Dll-append}
use gamecube_port.DvdQueue.{
  off_next, off_prev, queue_size, queue_addr, pop_waiting_queue_prio, pop_from, pop_waiting_queue,
}
use gamecube_port.DvdQueue.Ring.{IsRing, offsets}

-- The writes of `PopWaitingQueuePrio` that take `b`, in front of `n`, out of the list of `q`.
abbrev bypass : (m : Mem) (q n : ℕ) → Mem
bypass m q n = set_field (set_field m q off_next n) n off_prev q

abbrev unlink : (m : Mem) (q b n : ℕ) → Mem
unlink m q b n = set_field (set_field (bypass m q n) b off_next 0) b off_prev 0

module _ (m : Mem) (q b : ℕ) where
  bypass-links :
      (xs : List ℕ)
      → IsRing m q (b ∷ xs)
      → Dll off_next off_prev (bypass m q (head_or xs q)) (last_or xs q) (q ∷ xs) q
  bypass-links [] r =
      let m1 = set_field m q off_next q in
      let k = r.nodes.0.1 in
      (
        field-set_ne m1 queue_size q k off_prev q (omega arith) off_next (omega arith) (omega arith)
            ∙ field-set_self m queue_size q k off_next q (omega arith) (omega (arith, k)),
        field-set_self m1 queue_size q k off_prev q (omega arith) (omega (arith, k)),
        tt,
      )
  bypass-links (c ∷ ys) r =
      let p = last_or ys c in
      let m1 = set_field m q off_next c in
      let k = r.nodes.0.1 in
      let h = r.nodes.1.1.0.1 in
      let a1 =
        Dll-set_last queue_size 0 4 offsets m p q [] b c (r.nodes.0, tt) (tt, tt) (omega (arith, h))
          (r.links.0, r.links.1, tt) in
      let a2 =
        Dll-set-Apart queue_size 0 4 offsets m1 c off_prev q p (q ∷ []) c h (omega arith)
          (r.nodes.0, tt) (Apart-sym queue_size q c r.distinct.0.1.0, tt) a1 in
      let b1 =
        Dll-set-Apart queue_size 0 4 offsets m q off_next c b (c ∷ ys) q k (omega arith) r.nodes.1.1
          r.distinct.0.1 r.links.2.2 in
      let b2 =
        Dll-set_first queue_size 0 4 offsets m1 b q c ys q r.nodes.1.1 r.distinct.1.1
          (omega (arith, k)) b1 in
      Dll-append 0 4 (bypass m q c) p (q ∷ []) (c ∷ ys) q a2 b2

  unlink-IsRing : (xs : List ℕ) → IsRing m q (b ∷ xs) → IsRing (unlink m q b (head_or xs q)) q xs
  unlink-IsRing xs r =
      let m2 = bypass m q (head_or xs q) in
      let m3 = set_field m2 b off_next 0 in
      let h = r.nodes.1.0.1 in
      let nodes : Nodes m queue_size (q ∷ xs) = (r.nodes.0, r.nodes.1.1) in
      let apart : All (Apart queue_size b) (q ∷ xs) =
        (Apart-sym queue_size q b r.distinct.0.0, r.distinct.1.0) in
      let d2 = bypass-links xs r in
      let d3 =
        Dll-set-Apart queue_size 0 4 offsets m2 b off_next 0 (last_or xs q) (q ∷ xs) q h
          (omega arith) nodes apart d2 in
      record {
        links =
            Dll-set-Apart queue_size 0 4 offsets m3 b off_prev 0 (last_or xs q) (q ∷ xs) q h
              (omega arith) nodes apart d3;
        nodes = nodes;
        distinct = (r.distinct.0.1, r.distinct.1.1);
      }

-- `PopWaitingQueuePrio` on a queue that holds a block returns the oldest, and the others stay in order.
pub pop_prio-first :
    (base prio block : ℕ) (m : Mem) (xs : List ℕ)
    → IsRing m (queue_addr base prio) (block ∷ xs)
    → ((pop_waiting_queue_prio base prio m).0 ≡ block)
      × IsRing ((pop_waiting_queue_prio base prio m).1) (queue_addr base prio) xs
unfolding pop_waiting_queue_prio
pop_prio-first base prio b m xs r =
    let q = queue_addr base prio in
    (
      r.links.0,
      subst (λ t. IsRing (unlink m q t (field m t off_next)) q xs) (sym r.links.0)
          (subst (λ n. IsRing (unlink m q b n) q xs) (sym r.links.2.0) (unlink-IsRing m q b xs r)),
    )

-- The sentinel of an empty queue names itself, that of another queue does not.
empty-test : (m : Mem) (q : ℕ) → IsRing m q [] → (field m q off_next == q) ≡ true
empty-test m q r = ground (arith, r.links.0)

cons-test :
    (m : Mem) (q b : ℕ) (xs : List ℕ) → IsRing m q (b ∷ xs) → (field m q off_next == q) ≡ false
cons-test m q b xs r = ground (arith, r.links.0, r.distinct.0.0)

module _ (n i base : ℕ) (m : Mem) where
  pop_from-here :
      (field m (queue_addr base i) off_next == queue_addr base i) ≡ false
      → pop_from (suc n) i base m ≡ pop_waiting_queue_prio base i m
  unfolding pop_from
  pop_from-here e = rw (e)

  pop_from-next :
      (field m (queue_addr base i) off_next == queue_addr base i) ≡ true
      → pop_from (suc n) i base m ≡ pop_from n (i + 1) base m
  unfolding pop_from
  pop_from-next e = rw (e)

-- Empty queues are passed over.
module _ (base b : ℕ) (m : Mem) (xs : List ℕ) where
  pop_waiting_queue-skip :
      (prio : ℕ)
      → prio < 4
      → ((j : ℕ) → j < prio → IsRing m (queue_addr base j) [])
      → IsRing m (queue_addr base prio) (b ∷ xs)
      → pop_waiting_queue base m ≡ pop_waiting_queue_prio base prio m
  unfolding pop_waiting_queue
  pop_waiting_queue-skip zero l e r =
      pop_from-here 3 0 base m (cons-test m (queue_addr base 0) b xs r)
  pop_waiting_queue-skip (suc zero) l e r =
      pop_from-next 3 0 base m (empty-test m (queue_addr base 0) (e 0 (omega arith)))
      ∙ pop_from-here 2 1 base m (cons-test m (queue_addr base 1) b xs r)
  pop_waiting_queue-skip (suc (suc zero)) l e r =
      pop_from-next 3 0 base m (empty-test m (queue_addr base 0) (e 0 (omega arith)))
      ∙ pop_from-next 2 1 base m (empty-test m (queue_addr base 1) (e 1 (omega arith)))
      ∙ pop_from-here 1 2 base m (cons-test m (queue_addr base 2) b xs r)
  pop_waiting_queue-skip (suc (suc (suc zero))) l e r =
      pop_from-next 3 0 base m (empty-test m (queue_addr base 0) (e 0 (omega arith)))
      ∙ pop_from-next 2 1 base m (empty-test m (queue_addr base 1) (e 1 (omega arith)))
      ∙ pop_from-next 1 2 base m (empty-test m (queue_addr base 2) (e 2 (omega arith)))
      ∙ pop_from-here 0 3 base m (cons-test m (queue_addr base 3) b xs r)
  pop_waiting_queue-skip (suc (suc (suc (suc p)))) l e r = ground arith

-- `port_DVDPopWaitingQueue` returns the oldest block of the first queue that is not empty, and keeps
-- the order of the others in that queue.
pub pop_waiting_queue-first :
    (base prio block : ℕ) (m : Mem) (xs : List ℕ)
    → prio < 4
    → ((j : ℕ) → j < prio → IsRing m (queue_addr base j) [])
    → IsRing m (queue_addr base prio) (block ∷ xs)
    → ((pop_waiting_queue base m).0 ≡ block)
      × IsRing ((pop_waiting_queue base m).1) (queue_addr base prio) xs
unfolding pop_waiting_queue
pop_waiting_queue-first base prio b m xs l e r =
    subst {A = ℕ × Mem} (λ t. (t.0 ≡ b) × IsRing (t.1) (queue_addr base prio) xs)
      (sym (pop_waiting_queue-skip base b m xs prio l e r)) (pop_prio-first base prio b m xs r)
