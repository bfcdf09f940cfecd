-- ===== src/Arq/Chunks.antt =====
-- A low-priority request is transferred in chunks, one for each interrupt.
use mathlib.Core.List.{append_assoc}
use gamecube_port.Base.{
  ℕ, zero, suc, ◌+◌, ◌-◌, ◌*◌, ◌≤◌, ◌<◌, ◌^◌, ◌≡◌, refl, ◌∙◌, List, [], ◌∷◌, ◌++◌, arith, true,
  false, if◌then◌else◌, ◌==◌, length, length-append, leb, ap,
}
use gamecube_port.GcMem.{Mem, Mapped, field, set_field, add32, sub32}
use gamecube_port.GcMem.Laws.{field-set_self, load_u32be-store_apart}
use gamecube_port.GcMem.Chain.{Node}
use gamecube_port.Arq.{
  ArqState, DmaRecord, req_size, req_type, req_source, req_dest, req_length, mram_to_aram, max_dma,
  start_request, take_queue_lo, service_pending_lo, service_queue_lo, finish_transfer,
  pop_task_queue_hi, start_next, interrupt_service_routine,
}

-- The record of a transfer: main memory is the source of one to ARAM, the destination otherwise.
unfoldable pub transfer : (type source dest length : ℕ) → DmaRecord
transfer type source dest len =
    if type == mram_to_aram
    then record { type = type; mainmem = source; aram = dest; length = len }
    else record { type = type; mainmem = dest; aram = source; length = len }

-- What the engine is asked for: `n` whole chunks of `c` bytes, and then the rest.
unfoldable pub chunk_log : ℕ → (c type source dest length : ℕ) → List DmaRecord
unfolding transfer
chunk_log zero c type source dest len = transfer type source dest len ∷ []
chunk_log (suc n) c type source dest len =
    transfer type source dest c ∷ chunk_log n c type (add32 source c) (add32 dest c) (len - c)

unfoldable pub total : List DmaRecord → ℕ
total [] = 0
total (r ∷ rs) = r.length + total rs

pub total-chunk_log :
    (n c type source dest len : ℕ) → n * c ≤ len → total (chunk_log n c type source dest len) ≡ len
unfolding total chunk_log
total-chunk_log zero c type source dest len h = ground arith
total-chunk_log (suc n) c type source dest len h = ground (
  arith,
  total-chunk_log n c type (add32 source c) (add32 dest c) (len - c) (grind arith),
  enough,
)
  where
    enough : c ≤ len
    enough = grind arith

-- A low request is pending with `len` bytes to go, and no high request is about.
pub record Pending (st : ArqState) (m : Mem) (type source dest len : ℕ) : Type 0 where
  pub node : Node m req_size st.pending_lo
  pub pending_hi : st.pending_hi ≡ 0
  pub queue_hi : st.queue_hi ≡ 0
  pub no_callback_hi : st.has_callback_hi ≡ false
  pub no_callback_lo : st.has_callback_lo ≡ false
  pub type_is : field m st.pending_lo req_type ≡ type
  pub source_is : field m st.pending_lo req_source ≡ source
  pub dest_is : field m st.pending_lo req_dest ≡ dest
  pub length_is : field m st.pending_lo req_length ≡ len

-- The fields of a request after a chunk is written back.
write_back :
    (m : Mem) (req l s d : ℕ)
    → Mapped m req req_size
    → l < 2 ^ 32
    → s < 2 ^ 32
    → d < 2 ^ 32
    → let m1 = set_field m req req_length l in
      let m2 = set_field m1 req req_source s in
      let m3 = set_field m2 req req_dest d in
      (field m3 req req_type ≡ field m req req_type)
      × (field m3 req req_source ≡ s)
      × (field m3 req req_dest ≡ d)
      × (field m3 req req_length ≡ l)
write_back m req l s d h hl hs hd = (
  load_u32be-store_apart _ _ _ _ (omega arith)
      ∙ load_u32be-store_apart _ _ _ _ (omega arith)
      ∙ load_u32be-store_apart _ _ _ _ (omega arith),
  load_u32be-store_apart _ _ _ _ (omega arith)
      ∙ field-set_self _ req_size req h req_source s (omega arith) hs,
  field-set_self _ req_size req h req_dest d (omega arith) hd,
  load_u32be-store_apart _ _ _ _ (omega arith)
      ∙ load_u32be-store_apart _ _ _ _ (omega arith)
      ∙ field-set_self m req_size req h req_length l (omega arith) hl,
)

start_request-log :
    (st : ArqState) (type source dest len : ℕ)
    → length st.dma_log < max_dma
    → start_request st type source dest len
      ≡ record st { dma_log = st.dma_log ++ (transfer type source dest len ∷ []) }
unfolding start_request transfer
start_request-log st type source dest len h = ground arith

module _ {st : ArqState} {m : Mem} {type source dest len : ℕ}
    (p : Pending st m type source dest len) where
  start_next-service : start_next st m ≡ service_pending_lo st m
  unfolding start_next pop_task_queue_hi service_queue_lo take_queue_lo
  start_next-service = ground (arith, p.node.0, p.pending_hi, p.queue_hi)

  finish-idle : finish_transfer st ≡ st
  unfolding finish_transfer
  finish-idle = rw (p.no_callback_hi, p.no_callback_lo)

  interrupt-idle : interrupt_service_routine st m ≡ start_next st m
  unfolding interrupt_service_routine
  interrupt-idle = rw finish-idle

  alive : (st.pending_lo == 0) ≡ false
  alive = ground (arith, p.node.0)

  service-last :
      length st.dma_log < max_dma
      → len ≤ st.chunk_size
      → let (st', m') = service_pending_lo st m in
        (st'.dma_log ≡ st.dma_log ++ (transfer type source dest len ∷ []))
        × (st'.has_callback_lo ≡ true)
        × (st'.pending_lo ≡ st.pending_lo)
  unfolding service_pending_lo
  service-last room h =
      let small : leb len st.chunk_size ≡ true = ground arith in
      rw
        (
          alive,
          p.type_is,
          p.source_is,
          p.dest_is,
          p.length_is,
          small,
          start_request-log st type source dest len room,
        )
        (refl, refl, refl)

  service-more :
      length st.dma_log < max_dma
      → st.chunk_size < len
      → len < 2 ^ 32
      → let (st', m') = service_pending_lo st m in
        Pending st' m' type
          (add32 source st.chunk_size)
          (add32 dest st.chunk_size)
          (len - st.chunk_size)
        × (st'.dma_log ≡ st.dma_log ++ (transfer type source dest st.chunk_size ∷ []))
        × (st'.chunk_size ≡ st.chunk_size)
        × (st'.pending_lo ≡ st.pending_lo)
  unfolding service_pending_lo
  service-more room h l =
      let large : leb len st.chunk_size ≡ false = ground arith in
      let c = st.chunk_size in
      let fields =
        write_back m st.pending_lo (sub32 len c) (add32 source c) (add32 dest c) p.node.1
          (omega arith) (omega arith) (omega arith) in
      rw
        (
          alive,
          p.type_is,
          p.source_is,
          p.dest_is,
          p.length_is,
          large,
          start_request-log st type source dest st.chunk_size room,
        )
        (
          record {
            node = p.node;
            pending_hi = p.pending_hi;
            queue_hi = p.queue_hi;
            no_callback_hi = p.no_callback_hi;
            no_callback_lo = p.no_callback_lo;
            type_is = fields.0 ∙ p.type_is;
            source_is = fields.1;
            dest_is = fields.2;
            length_is = fields.3 ∙ omega arith;
          },
          refl,
          refl,
          refl,
        )

-- `n` interrupts in a row.
unfoldable pub interrupts : ℕ → ArqState → Mem → ArqState × Mem
interrupts zero st m = (st, m)
interrupts (suc n) st m = let (st', m') = interrupt_service_routine st m in interrupts n st' m'

interrupts-suc :
    (n : ℕ) (st : ArqState) (m : Mem)
    → interrupts (suc n) st m
      ≡ interrupts n (interrupt_service_routine st m).0 (interrupt_service_routine st m).1
unfolding interrupts
interrupts-suc n st m = refl

-- A low request of `len` bytes that is pending, with nothing of the high queue about and a chunk
-- size of `c`, takes one start and `n` interrupts, if `len` is more than `n` chunks and at most
-- `n + 1`: the engine is asked for `n` whole chunks at consecutive addresses and then for the rest,
-- and only then is the callback armed, with the request still pending.
pub chunks_lem :
    (n : ℕ) (st : ArqState) (m : Mem) (type source dest len : ℕ)
    → Pending st m type source dest len
    → length st.dma_log + n < max_dma
    → n * st.chunk_size < len
    → len ≤ suc n * st.chunk_size
    → len < 2 ^ 32
    → let (st0, m0) = start_next st m in
      let (st', m') = interrupts n st0 m0 in
      (st'.dma_log ≡ st.dma_log ++ chunk_log n st.chunk_size type source dest len)
      × (st'.has_callback_lo ≡ true)
      × (st'.pending_lo ≡ st.pending_lo)
unfolding interrupts chunk_log
chunks_lem zero st m type source dest len p room lo hi l =
    rw (start_next-service p) (service-last p (omega arith) (omega arith))
chunks_lem (suc n) st m type source dest len p room lo hi l =
    let rest =
      chunks_lem n st1 m1 type (add32 source c) (add32 dest c) (len - c) p' room'
        (rw more.2 (grind arith)) (rw more.2 (grind arith)) (omega arith) in
    rw (start_next-service p, interrupts-suc n st1 m1, interrupt-idle p')
      (rest.0 ∙ joined, rest.1, rest.2 ∙ more.3)
  where
    c : ℕ
    c = st.chunk_size

    st1 : ArqState
    st1 = (service_pending_lo st m).0

    m1 : Mem
    m1 = (service_pending_lo st m).1

    more :
        Pending st1 m1 type (add32 source c) (add32 dest c) (len - c)
        × (st1.dma_log ≡ st.dma_log ++ (transfer type source dest c ∷ []))
        × (st1.chunk_size ≡ c)
        × (st1.pending_lo ≡ st.pending_lo)
    more = service-more p (omega arith) (grind arith) l

    p' : Pending st1 m1 type (add32 source c) (add32 dest c) (len - c)
    p' = more.0

    room' : length st1.dma_log + n < max_dma
    room' =
        omega (arith, ap length more.1, length-append st.dma_log (transfer type source dest c ∷ []))

    joined :
        st1.dma_log ++ chunk_log n st1.chunk_size type (add32 source c) (add32 dest c) (len - c)
        ≡ st.dma_log
          ++ (transfer type source dest c
              ∷ chunk_log n c type (add32 source c) (add32 dest c) (len - c))
    joined = rw (more.1, more.2) (append_assoc st.dma_log _ _)
