-- ===== src/Arq/Queues.antt =====
-- The two request queues in emulated RAM, and what queueing a request does to them.
use gamecube_port.Base.{
  ℕ, ◌≡◌, ◌≢◌, ◌∙◌, List, [], ◌∷◌, ◌++◌, arith, last_or, All, true, false, if◌then◌else◌,
  All-append_one, ◌==◌, zero, suc,
}
use gamecube_port.GcMem.{Mem, Mapped, Apart, field, set_field}
use gamecube_port.GcMem.Laws.{field-set_self, field-set-Apart, load_u32be-store_apart}
use gamecube_port.GcMem.Chain.{
  Node, All-last, Apart-sym, IsQueue, IsQueue-one, IsQueue-link, IsQueue-frame,
}
use gamecube_port.Arq.{
  ArqState, req_next, req_size, write_request, enqueue, priority_low, priority_high,
}

-- The two queues hold the requests `xs` and `ys`, which do not overlap.
pub record Queues (st : ArqState) (m : Mem) (xs ys : List ℕ) : Type 0 where
  pub hi : IsQueue req_size req_next m st.queue_hi st.tail_hi xs
  pub lo : IsQueue req_size req_next m st.queue_lo st.tail_lo ys
  pub apart : All (λ x. All (Apart req_size x) ys) xs

-- A request that is not queued yet.
pub record IsFresh (m : Mem) (req : ℕ) (xs ys : List ℕ) : Type 0 where
  pub node : Node m req_size req
  pub apart_hi : All (Apart req_size req) xs
  pub apart_lo : All (Apart req_size req) ys

module _ (m : Mem) (req owner type source dest len : ℕ) where
  -- Posting writes only the request itself.
  field-write_request-Apart :
      (x : ℕ)
      → Mapped m req req_size
      → Mapped m x req_size
      → Apart req_size req x
      → field (write_request m req owner type source dest len) x req_next ≡ field m x req_next
  unfolding write_request
  field-write_request-Apart x h k a =
      load_u32be-store_apart _ _ _ _ (omega arith)
      ∙ load_u32be-store_apart _ _ _ _ (omega arith)
      ∙ load_u32be-store_apart _ _ _ _ (omega arith)
      ∙ load_u32be-store_apart _ _ _ _ (omega arith)
      ∙ load_u32be-store_apart _ _ _ _ (omega arith)
      ∙ load_u32be-store_apart _ _ _ _ (omega arith)
      ∙ load_u32be-store_apart _ _ _ _ (omega arith)

  pub field-write_request_next :
      Mapped m req req_size
      → field (write_request m req owner type source dest len) req req_next ≡ 0
  unfolding write_request
  field-write_request_next h =
      load_u32be-store_apart _ _ _ _ (omega arith)
      ∙ load_u32be-store_apart _ _ _ _ (omega arith)
      ∙ load_u32be-store_apart _ _ _ _ (omega arith)
      ∙ load_u32be-store_apart _ _ _ _ (omega arith)
      ∙ load_u32be-store_apart _ _ _ _ (omega arith)
      ∙ load_u32be-store_apart _ _ _ _ (omega arith)
      ∙ field-set_self m req_size req h req_next 0 (omega arith) (omega arith)

  pub write_request-Queues :
      (st : ArqState) (xs ys : List ℕ)
      → Queues st m xs ys
      → IsFresh m req xs ys
      → Queues st (write_request m req owner type source dest len) xs ys
  unfolding write_request
  write_request-Queues st xs ys q fresh = record {
    hi = IsQueue-frame req_size req_next m _ _ _ xs (spared xs q.hi.nodes fresh.apart_hi) q.hi;
    lo = IsQueue-frame req_size req_next m _ _ _ ys (spared ys q.lo.nodes fresh.apart_lo) q.lo;
    apart = q.apart;
  }
    where
      spared :
          (zs : List ℕ)
          → All (Node m req_size) zs
          → All (Apart req_size req) zs
          → All
              (λ x.
                field (write_request m req owner type source dest len) x req_next
                ≡ field m x req_next)
              zs
      spared [] n a = tt
      spared (z ∷ zs) n a = (field-write_request-Apart z fresh.node.1 n.0.1 a.0, spared zs n.1 a.1)

-- A link set behind one queue spares the other queue.
link-Apart :
    (m : Mem) (x v : ℕ) (zs : List ℕ)
    → Mapped m x req_size
    → All (Node m req_size) zs
    → All (Apart req_size x) zs
    → All (λ z. field (set_field m x req_next v) z req_next ≡ field m z req_next) zs
link-Apart m x v [] h n a = tt
link-Apart m x v (z ∷ zs) h n a = (
  field-set-Apart m req_size x h req_next v (omega arith) z req_next n.0.1 (omega arith) a.0,
  link-Apart m x v zs h n.1 a.1,
)

-- The last request of a queue that is not empty is mapped, and apart from a queue that is apart.
tail_facts :
    (m : Mem) (head tail x : ℕ) (xs ys : List ℕ)
    → IsQueue req_size req_next m head tail (x ∷ xs)
    → All (λ z. All (Apart req_size z) ys) (x ∷ xs)
    → (head ≢ 0) × Mapped m tail req_size × All (Apart req_size tail) ys
tail_facts m head tail x xs ys q a =
    let alive : head ≢ 0 = omega (arith, q.first, q.nodes.0.0) in
    let e : tail ≡ last_or xs x = q.last alive in
    (
      alive,
      rw e (All-last (Node m req_size) x xs q.nodes).1,
      rw e (All-last (λ z. All (Apart req_size z) ys) x xs a),
    )

All-Apart_sym :
    (xs ys : List ℕ)
    → All (λ x. All (Apart req_size x) ys) xs
    → All (λ y. All (Apart req_size y) xs) ys
All-Apart_sym xs [] a = tt
All-Apart_sym xs (y ∷ ys) a = (heads xs a, All-Apart_sym xs ys (tails xs a))
  where
    heads :
        (zs : List ℕ) → All (λ x. All (Apart req_size x) (y ∷ ys)) zs → All (Apart req_size y) zs
    heads [] a = tt
    heads (z ∷ zs) a = (Apart-sym req_size z y a.0.0, heads zs a.1)

    tails :
        (zs : List ℕ)
        → All (λ x. All (Apart req_size x) (y ∷ ys)) zs
        → All (λ x. All (Apart req_size x) ys) zs
    tails [] a = tt
    tails (z ∷ zs) a = (a.0.1, tails zs a.1)

-- What queueing a request leads to, by its priority: it is the last of its queue.
abbrev pub Enqueued : ℕ → ℕ → List ℕ → List ℕ → ArqState → Mem → Type 0
Enqueued priority req xs ys st m =
    if priority == priority_high
    then Queues st m (xs ++ (req ∷ [])) ys
    else if priority == priority_low
    then Queues st m xs (ys ++ (req ∷ []))
    else Queues st m xs ys

module _ (st : ArqState) (m : Mem) (req : ℕ) (null : field m req req_next ≡ 0) where
  enqueue-high :
      (xs ys : List ℕ)
      → Queues st m xs ys
      → IsFresh m req xs ys
      → let (st', m') = enqueue st m priority_high req in Queues st' m' (xs ++ (req ∷ [])) ys
  unfolding enqueue
  enqueue-high [] ys q fresh =
      let e : (st.queue_hi == 0) ≡ true = ground (arith, q.hi.first) in
      rw e (record {
        hi = IsQueue-one req_size req_next m req fresh.node null;
        lo = q.lo;
        apart = (fresh.apart_lo, tt);
      })
  enqueue-high (x ∷ xs) ys q fresh =
      let t = tail_facts m st.queue_hi st.tail_hi x xs ys q.hi q.apart in
      let alive : st.queue_hi ≢ 0 = t.0 in
      let e : (st.queue_hi == 0) ≡ false = ground arith in
      rw e (record {
        hi =
            IsQueue-link req_size req_next m req fresh.node null _ _ x xs (omega arith) q.hi
              fresh.apart_hi;
        lo =
            IsQueue-frame req_size req_next m _ _ _ ys (link-Apart m _ req ys t.1 q.lo.nodes t.2)
              q.lo;
        apart = All-append_one (λ z. All (Apart req_size z) ys) (x ∷ xs) req q.apart fresh.apart_lo;
      })

  enqueue-low :
      (xs ys : List ℕ)
      → Queues st m xs ys
      → IsFresh m req xs ys
      → let (st', m') = enqueue st m priority_low req in Queues st' m' xs (ys ++ (req ∷ []))
  unfolding enqueue
  enqueue-low xs [] q fresh =
      let e : (st.queue_lo == 0) ≡ true = ground (arith, q.lo.first) in
      rw e (record {
        hi = q.hi;
        lo = IsQueue-one req_size req_next m req fresh.node null;
        apart = All-Apart_sym (req ∷ []) xs (fresh.apart_hi, tt);
      })
  enqueue-low xs (y ∷ ys) q fresh =
      let apart = All-Apart_sym xs (y ∷ ys) q.apart in
      let t = tail_facts m st.queue_lo st.tail_lo y ys xs q.lo apart in
      let alive : st.queue_lo ≢ 0 = t.0 in
      let e : (st.queue_lo == 0) ≡ false = ground arith in
      rw e (record {
        hi =
            IsQueue-frame req_size req_next m _ _ _ xs (link-Apart m _ req xs t.1 q.hi.nodes t.2)
              q.hi;
        lo =
            IsQueue-link req_size req_next m req fresh.node null _ _ y ys (omega arith) q.lo
              fresh.apart_lo;
        apart =
            All-Apart_sym ((y ∷ ys) ++ (req ∷ [])) xs
              (All-append_one (λ z. All (Apart req_size z) xs) (y ∷ ys) req apart fresh.apart_hi);
      })

  pub enqueue_lem :
      (priority : ℕ) (xs ys : List ℕ)
      → Queues st m xs ys
      → IsFresh m req xs ys
      → let (st', m') = enqueue st m priority req in Enqueued priority req xs ys st' m'
  enqueue_lem zero xs ys q fresh = enqueue-low xs ys q fresh
  enqueue_lem (suc zero) xs ys q fresh = enqueue-high xs ys q fresh
  enqueue_lem (suc (suc p)) xs ys q fresh =
      unfold enqueue in
      let h : (suc (suc p) == priority_high) ≡ false = ground arith in
      let l : (suc (suc p) == priority_low) ≡ false = ground arith in rw (h, l) q

-- Queueing touches neither the engine nor what is pending.
pub enqueue_keeps :
    (st : ArqState) (m : Mem) (priority req : ℕ)
    → let st' = (enqueue st m priority req).0 in
      (st'.pending_hi ≡ st.pending_hi)
      × (st'.pending_lo ≡ st.pending_lo)
      × (st'.dma_log ≡ st.dma_log)
unfolding enqueue
enqueue_keeps st m priority req = ground arith
