-- ===== src/Arq/Tests.antt =====
-- The ARAM request queue on concrete memory.
use gamecube_port.Base.{◌≡◌, refl, [], ◌∷◌, arith, true, false, inr}
use gamecube_port.GcMem.{Mem, field, set_field, load_u32be, put_u32be, gc_mem_ptr}
use gamecube_port.Arq.{
  ArqState, post_request, interrupt_service_routine, start_next, start_request, finish_transfer,
  req_type, req_source, req_dest, req_length, priority_high,
}
use gamecube_port.Arq.Queues.{Queues, Enqueued}
use gamecube_port.Arq.Fifo.{post_request_busy, interrupt-high}
use gamecube_port.Arq.Chunks.{Pending, interrupts, chunk_log, chunks_lem}

abbrev blank : Mem
blank = record { base = 0x1000; size = 0x100; present = true; byte = λ _. 0 }

-- A request of 10000 bytes to ARAM stands at 0x1000.
abbrev mem : Mem
mem =
    set_field (set_field (set_field blank 0x1000 req_source 0x2000) 0x1000 req_dest 0x4000) 0x1000
      req_length 10000

abbrev idle : ArqState
idle = record {
  queue_hi = 0;
  tail_hi = 0;
  queue_lo = 0;
  tail_lo = 0;
  pending_hi = 0;
  pending_lo = 0;
  has_callback_hi = false;
  has_callback_lo = false;
  chunk_size = 4096;
  dma_log = [];
  callback_count = 0;
}

abbrev low_pending : ArqState
low_pending = record idle { pending_lo = 0x1000 }

abbrev high_waits : ArqState
high_waits = record idle { queue_hi = 0x1000; tail_hi = 0x1000 }

no_queue : Queues low_pending mem [] []
no_queue = record {
  hi = record { first = refl; last = λ h. absurd (h refl); links = tt; nodes = tt; distinct = tt };
  lo = record { first = refl; last = λ h. absurd (h refl); links = tt; nodes = tt; distinct = tt };
  apart = tt;
}

high_queue : Queues high_waits mem (0x1000 ∷ []) []
unfolding load_u32be put_u32be gc_mem_ptr
high_queue = record {
  hi = record {
    first = refl;
    last = λ h. refl;
    links = (refl, tt);
    nodes = ((omega arith, (refl, omega arith, omega arith, omega arith)), tt);
    distinct = (tt, tt);
  };
  lo = record { first = refl; last = λ h. absurd (h refl); links = tt; nodes = tt; distinct = tt };
  apart = (tt, tt);
}

post_request_busy_example :
    let (st', m') = post_request low_pending mem 0x1040 7 0 priority_high 0x3000 0x5000 64 in
    Enqueued priority_high 0x1040 [] [] st' m'
    × (st'.dma_log ≡ [])
    × (st'.pending_hi ≡ 0)
    × (st'.pending_lo ≡ 0x1000)
post_request_busy_example =
    post_request_busy low_pending mem 0x1040 7 0 priority_high 0x3000 0x5000 64 [] []
      (inr (omega arith)) no_queue
      (record {
        node = (omega arith, (refl, omega arith, omega arith, omega arith));
        apart_hi = tt;
        apart_lo = tt;
      })

interrupt-high_example :
    let (st', m') = interrupt_service_routine high_waits mem in
    Queues st' m' [] []
    × (m' ≡ mem)
    × (st'.pending_hi ≡ 0x1000)
    × (st'.has_callback_hi ≡ true)
    × (st'.dma_log
        ≡ (start_request
            (finish_transfer high_waits)
            (field mem 0x1000 req_type)
            (field mem 0x1000 req_source)
            (field mem 0x1000 req_dest)
            (field mem 0x1000 req_length)).dma_log)
interrupt-high_example = interrupt-high high_waits mem 0x1000 [] [] high_queue

pending : Pending low_pending mem 0 0x2000 0x4000 10000
unfolding load_u32be put_u32be gc_mem_ptr
pending = record {
  node = (omega arith, (refl, omega arith, omega arith, omega arith));
  pending_hi = refl;
  queue_hi = refl;
  no_callback_hi = refl;
  no_callback_lo = refl;
  type_is = refl;
  source_is = refl;
  dest_is = refl;
  length_is = refl;
}

chunks_lem_example :
    let (st0, m0) = start_next low_pending mem in
    let (st', m') = interrupts 2 st0 m0 in
    (st'.dma_log ≡ chunk_log 2 4096 0 0x2000 0x4000 10000)
    × (st'.has_callback_lo ≡ true)
    × (st'.pending_lo ≡ 0x1000)
chunks_lem_example =
    chunks_lem 2 low_pending mem 0 0x2000 0x4000 10000 pending (omega arith) (omega arith)
      (omega arith) (omega arith)
