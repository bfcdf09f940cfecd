-- ===== src/Arq/Fifo.antt =====
-- The request queues are first in, first out, and the high queue goes before the low one.
use gamecube_port.Base.{ℕ, ◌≡◌, ◌≢◌, refl, List, ◌∷◌, arith, true, false, ◌⊎◌, ◌==◌, ◌&&◌}
use gamecube_port.GcMem.{Mem, field}
use gamecube_port.GcMem.Chain.{IsQueue-tail}
use gamecube_port.Arq.{
  ArqState, req_next, req_size, req_type, req_source, req_dest, req_length, write_request, enqueue,
  pop_task_queue_hi, start_request, post_request, start_next, interrupt_service_routine,
  finish_transfer,
}
use gamecube_port.Arq.Queues.{
  Queues, IsFresh, Enqueued, enqueue_lem, enqueue_keeps, field-write_request_next,
  write_request-Queues,
}

-- While a transfer is pending, `ARQPostRequest` queues the request behind those of its priority,
-- leaves the other queue as it was, and starts nothing: the DMA log and what is pending stay. A
-- request of another priority is dropped.
pub post_request_busy :
    (st : ArqState) (m : Mem) (req owner type priority source dest len : ℕ) (xs ys : List ℕ)
    → (st.pending_hi ≢ 0) ⊎ (st.pending_lo ≢ 0)
    → Queues st m xs ys
    → IsFresh m req xs ys
    → let (st', m') = post_request st m req owner type priority source dest len in
      Enqueued priority req xs ys st' m'
      × (st'.dma_log ≡ st.dma_log)
      × (st'.pending_hi ≡ st.pending_hi)
      × (st'.pending_lo ≡ st.pending_lo)
unfolding post_request
post_request_busy st m req owner type priority source dest len xs ys busy q fresh =
    rw idle (queued, keeps.2, keeps.0, keeps.1)
  where
    m1 : Mem
    m1 = write_request m req owner type source dest len

    keeps :
        let st' = (enqueue st m1 priority req).0 in
        (st'.pending_hi ≡ st.pending_hi)
        × (st'.pending_lo ≡ st.pending_lo)
        × (st'.dma_log ≡ st.dma_log)
    keeps = enqueue_keeps st m1 priority req

    idle :
        ((enqueue st m1 priority req).0.pending_hi == 0
          && (enqueue st m1 priority req).0.pending_lo == 0)
        ≡ false
    idle = rw (keeps.0, keeps.1) (ground arith)

    queued : let (st', m') = enqueue st m1 priority req in Enqueued priority req xs ys st' m'
    queued =
        enqueue_lem st m1 req
          (field-write_request_next m req owner type source dest len fresh.node.1) priority xs ys
          (write_request-Queues m req owner type source dest len st xs ys q fresh)
          (unfold write_request in
            (record { node = fresh.node; apart_hi = fresh.apart_hi; apart_lo = fresh.apart_lo }))

start_request_keeps :
    (st : ArqState) (type source dest len : ℕ)
    → let st' = start_request st type source dest len in
      (st'.queue_lo ≡ st.queue_lo)
      × (st'.tail_lo ≡ st.tail_lo)
      × (st'.tail_hi ≡ st.tail_hi)
      × (st'.pending_lo ≡ st.pending_lo)
      × (st'.has_callback_lo ≡ st.has_callback_lo)
unfolding start_request
start_request_keeps st type source dest len = ground arith

finish_transfer_keeps :
    (st : ArqState)
    → let st' = finish_transfer st in
      (st'.queue_hi ≡ st.queue_hi)
      × (st'.tail_hi ≡ st.tail_hi)
      × (st'.queue_lo ≡ st.queue_lo)
      × (st'.tail_lo ≡ st.tail_lo)
      × (st'.dma_log ≡ st.dma_log)
unfolding finish_transfer
finish_transfer_keeps st = ground arith

-- The state after the head of the high queue is started.
popped : ArqState → Mem → ℕ → ArqState
popped st m req =
    let st1 =
      start_request st (field m req req_type) (field m req req_source) (field m req req_dest)
        (field m req req_length) in
    record st1 { has_callback_hi = true; pending_hi = req; queue_hi = field m req req_next }

start_next-popped :
    (st : ArqState) (m : Mem) → st.queue_hi ≢ 0 → start_next st m ≡ (popped st m st.queue_hi, m)
unfolding start_next pop_task_queue_hi popped
start_next-popped st m alive = let e : (st.queue_hi == 0) ≡ false = ground arith in rw (e, e)

popped-Queues :
    (st : ArqState) (m : Mem) (x : ℕ) (xs ys : List ℕ)
    → Queues st m (x ∷ xs) ys
    → Queues (popped st m st.queue_hi) m xs ys
unfolding popped
popped-Queues st m x xs ys q =
    let k =
      start_request_keeps st (field m st.queue_hi req_type) (field m st.queue_hi req_source)
        (field m st.queue_hi req_dest) (field m st.queue_hi req_length) in
    record {
      hi = rw k.2 (IsQueue-tail req_size req_next m st.queue_hi st.tail_hi x xs q.hi).1;
      lo = rw (k.0, k.1) q.lo;
      apart = q.apart.1;
    }

finish_transfer-Queues :
    (st : ArqState) (m : Mem) (xs ys : List ℕ)
    → Queues st m xs ys
    → Queues (finish_transfer st) m xs ys
finish_transfer-Queues st m xs ys q =
    let k = finish_transfer_keeps st in
    record { hi = rw (k.0, k.1) q.hi; lo = rw (k.2, k.3) q.lo; apart = q.apart }

-- An interrupt while high requests wait starts the one that was posted first, whole, and takes it
-- from its queue; the low queue, its requests and all of emulated RAM stay as they were.
pub interrupt-high :
    (st : ArqState) (m : Mem) (x : ℕ) (xs ys : List ℕ)
    → Queues st m (x ∷ xs) ys
    → let (st', m') = interrupt_service_routine st m in
      Queues st' m' xs ys
      × (m' ≡ m)
      × (st'.pending_hi ≡ x)
      × (st'.has_callback_hi ≡ true)
      × (st'.dma_log
          ≡ (start_request
              (finish_transfer st)
              (field m x req_type)
              (field m x req_source)
              (field m x req_dest)
              (field m x req_length)).dma_log)
unfolding interrupt_service_routine
interrupt-high st m x xs ys q =
    let st0 = finish_transfer st in
    let q0 = finish_transfer-Queues st m (x ∷ xs) ys q in
    let alive : st0.queue_hi ≢ 0 = omega (arith, q0.hi.first, q0.hi.nodes.0.0) in
    rw (start_next-popped st0 m alive) (
      popped-Queues st0 m x xs ys q0,
      refl,
      unfold popped in q0.hi.first,
      unfold popped in refl,
      unfold popped in (rw q0.hi.first refl),
    )
