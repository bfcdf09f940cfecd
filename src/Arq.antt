-- ===== src/Arq.antt =====
-- sdk_port/ar/arq.c: the ARAM request queue. Requests live in emulated RAM and are linked by their
-- first word; the DMA engine is a log.
pub mod Queues
pub mod Fifo
pub mod Chunks
mod Tests
use gamecube_port.Base.{
  ℕ, ◌+◌, Bool, true, false, List, [], ◌∷◌, ◌++◌, ltb, leb, ◌==◌, if◌then◌else◌, ◌&&◌, not, length,
}
use gamecube_port.GcMem.{Mem, field, set_field, add32, sub32}

-- `PORT_ARQ_TYPE_*`, `PORT_ARQ_PRIORITY_*` and the offsets `PORT_ARQ_REQ_*`
abbrev pub mram_to_aram : ℕ
mram_to_aram = 0

abbrev pub priority_low : ℕ
priority_low = 0

abbrev pub priority_high : ℕ
priority_high = 1

abbrev pub chunk_size_default : ℕ
chunk_size_default = 4096

abbrev pub max_dma : ℕ
max_dma = 2048

abbrev pub req_next : ℕ
req_next = 0

abbrev pub req_owner : ℕ
req_owner = 4

abbrev pub req_type : ℕ
req_type = 8

abbrev pub req_source : ℕ
req_source = 16

abbrev pub req_dest : ℕ
req_dest = 20

abbrev pub req_length : ℕ
req_length = 24

abbrev pub req_callback : ℕ
req_callback = 28

abbrev pub req_size : ℕ
req_size = 32

-- `port_DMARecord`
pub record DmaRecord : Type 0 where
  pub type : ℕ
  pub mainmem : ℕ
  pub aram : ℕ
  pub length : ℕ

-- `port_ARQState`. `dma_log` holds the first `dma_count` entries of the array, oldest first, so
-- `dma_count` is its length.
pub record ArqState : Type 0 where
  pub queue_hi : ℕ
  pub tail_hi : ℕ
  pub queue_lo : ℕ
  pub tail_lo : ℕ
  pub pending_hi : ℕ
  pub pending_lo : ℕ
  pub has_callback_hi : Bool
  pub has_callback_lo : Bool
  pub chunk_size : ℕ
  pub dma_log : List DmaRecord
  pub callback_count : ℕ

-- `port_ARStartDMA`: the mocked engine drops what does not fit its log.
unfoldable pub start_dma : ArqState → (type mainmem aram length : ℕ) → ArqState
start_dma st type mainmem aram len =
    if ltb (length st.dma_log) max_dma
    then record st { dma_log = st.dma_log ++ (entry ∷ []) }
    else st
  where
    entry : DmaRecord
    entry = record { type = type; mainmem = mainmem; aram = aram; length = len }

-- The source is main memory for a transfer to ARAM, and ARAM for one to main memory.
unfoldable pub start_request : ArqState → (type source dest length : ℕ) → ArqState
unfolding start_dma
start_request st type source dest len =
    if type == mram_to_aram
    then start_dma st type source dest len
    else start_dma st type dest source len

unfoldable pub arq_init : ArqState
arq_init = record {
  queue_hi = 0;
  tail_hi = 0;
  queue_lo = 0;
  tail_lo = 0;
  pending_hi = 0;
  pending_lo = 0;
  has_callback_hi = false;
  has_callback_lo = false;
  chunk_size = chunk_size_default;
  dma_log = [];
  callback_count = 0;
}

unfoldable pub pop_task_queue_hi : ArqState → Mem → ArqState
pop_task_queue_hi st m =
    if st.queue_hi == 0
    then st
    else let req = st.queue_hi in
      let st1 =
        start_request st (field m req req_type) (field m req req_source) (field m req req_dest)
          (field m req req_length) in
      record st1 { has_callback_hi = true; pending_hi = req; queue_hi = field m req req_next }

-- The first half of `port_ARQServiceQueueLo`: with nothing pending, the head becomes pending.
unfoldable pub take_queue_lo : ArqState → Mem → ArqState
take_queue_lo st m =
    if st.pending_lo == 0 && not (st.queue_lo == 0)
    then record st { pending_lo = st.queue_lo; queue_lo = field m st.queue_lo req_next }
    else st

-- The second half: one chunk of the pending request, whose rest is written back.
unfoldable pub service_pending_lo : ArqState → Mem → ArqState × Mem
service_pending_lo st m =
    if st.pending_lo == 0
    then (st, m)
    else let req = st.pending_lo in
      let type = field m req req_type in
      let source = field m req req_source in
      let dest = field m req req_dest in
      let len = field m req req_length in
      let last = start_request st type source dest len in
      let st' =
        if leb len st.chunk_size
        then record last { has_callback_lo = true }
        else start_request st type source dest st.chunk_size in
      let m1 = set_field m req req_length (sub32 len st.chunk_size) in
      let m2 = set_field m1 req req_source (add32 source st.chunk_size) in
      (st', set_field m2 req req_dest (add32 dest st.chunk_size))

unfoldable pub service_queue_lo : ArqState → Mem → ArqState × Mem
service_queue_lo st m = service_pending_lo (take_queue_lo st m) m

-- The first half of `port_ARQInterruptServiceRoutine`: the callback of the finished transfer.
unfoldable pub finish_transfer : ArqState → ArqState
finish_transfer st =
    if st.has_callback_hi
    then record st {
      callback_count = st.callback_count + 1;
      pending_hi = 0;
      has_callback_hi = false;
    }
    else if st.has_callback_lo
    then record st {
      callback_count = st.callback_count + 1;
      pending_lo = 0;
      has_callback_lo = false;
    }
    else st

-- What the service routine and `port_ARQPostRequest` both end with.
unfoldable pub start_next : ArqState → Mem → ArqState × Mem
start_next st m =
    let st' = pop_task_queue_hi st m in
    if st'.pending_hi == 0 then service_queue_lo st' m else (st', m)

unfoldable pub interrupt_service_routine : ArqState → Mem → ArqState × Mem
interrupt_service_routine st m = start_next (finish_transfer st) m

-- The fields of a posted request; the priority is not stored.
unfoldable pub write_request : Mem → (req owner type source dest length : ℕ) → Mem
write_request m req owner type source dest len =
    let m1 = set_field m req req_next 0 in
    let m2 = set_field m1 req req_owner owner in
    let m3 = set_field m2 req req_type type in
    let m4 = set_field m3 req req_source source in
    let m5 = set_field m4 req req_dest dest in
    let m6 = set_field m5 req req_length len in set_field m6 req req_callback 1

-- The `switch` on the priority: append to that queue. Any other priority queues nothing.
unfoldable pub enqueue : ArqState → Mem → (priority req : ℕ) → ArqState × Mem
enqueue st m priority req =
    if priority == priority_low
    then (if st.queue_lo == 0
        then (record st { queue_lo = req; tail_lo = req }, m)
        else (record st { tail_lo = req }, set_field m st.tail_lo req_next req))
    else if priority == priority_high
    then (if st.queue_hi == 0
        then (record st { queue_hi = req; tail_hi = req }, m)
        else (record st { tail_hi = req }, set_field m st.tail_hi req_next req))
    else (st, m)

unfoldable pub post_request :
    ArqState → Mem → (req owner type priority source dest length : ℕ) → ArqState × Mem
post_request st m req owner type priority source dest len =
    let (st1, m1) = enqueue st (write_request m req owner type source dest len) priority req in
    if st1.pending_hi == 0 && st1.pending_lo == 0 then start_next st1 m1 else (st1, m1)
