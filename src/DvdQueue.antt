-- ===== src/DvdQueue.antt =====
-- sdk_port/dvd/dvdqueue.c: four waiting queues of command blocks, by priority, as circular lists
-- round a sentinel in emulated RAM.
pub mod Ring
pub mod Priority
pub mod Dequeue
mod Tests
use gamecube_port.Base.{ℕ, zero, suc, ◌+◌, Bool, true, false, ◌==◌, if◌then◌else◌, ◌||◌, not}
use gamecube_port.GcMem.{Mem, field, set_field, add32, mul32}

-- `PORT_DVD_QUEUE_*` and `PORT_DVD_BLOCK_*`: both have their links at the same offsets.
abbrev pub off_next : ℕ
off_next = 0

abbrev pub off_prev : ℕ
off_prev = 4

abbrev pub queue_size : ℕ
queue_size = 8

abbrev pub max_queues : ℕ
max_queues = 4

-- `PORT_DVD_QUEUE_ADDR`; the state is the address of the first sentinel.
abbrev pub queue_addr : ℕ → ℕ → ℕ
queue_addr base i = add32 base (mul32 i queue_size)

clear_from : (n i base : ℕ) → Mem → Mem
clear_from zero i base m = m
clear_from (suc n) i base m =
    let q = queue_addr base i in
    clear_from n (i + 1) base (set_field (set_field m q off_next q) q off_prev q)

-- `port_DVDClearWaitingQueue`
unfoldable pub clear_waiting_queue : ℕ → Mem → Mem
unfolding clear_from
clear_waiting_queue base m = clear_from max_queues 0 base m

-- `port_DVDPushWaitingQueue`
unfoldable pub push_waiting_queue : (base prio block : ℕ) → Mem → Mem
push_waiting_queue base prio block m =
    let q = queue_addr base prio in
    let q_prev = field m q off_prev in
    let m1 = set_field m q_prev off_next block in
    let m2 = set_field m1 block off_prev q_prev in
    let m3 = set_field m2 block off_next q in set_field m3 q off_prev block

-- `PopWaitingQueuePrio`
unfoldable pub pop_waiting_queue_prio : (base prio : ℕ) → Mem → ℕ × Mem
pop_waiting_queue_prio base prio m =
    let q = queue_addr base prio in
    let tmp = field m q off_next in
    let tmp_next = field m tmp off_next in
    let m1 = set_field m q off_next tmp_next in
    let m2 = set_field m1 tmp_next off_prev q in
    let m3 = set_field m2 tmp off_next 0 in (tmp, set_field m3 tmp off_prev 0)

-- The loop of `port_DVDPopWaitingQueue` over the queues from `i` on.
unfoldable pub pop_from : (n i base : ℕ) → Mem → ℕ × Mem
pop_from zero i base m = (0, m)
pop_from (suc n) i base m =
    let q = queue_addr base i in
    let rest = pop_from n (i + 1) base m in
    if not (field m q off_next == q) then pop_waiting_queue_prio base i m else rest

unfoldable pub pop_waiting_queue : ℕ → Mem → ℕ × Mem
unfolding pop_from
pop_waiting_queue base m = pop_from max_queues 0 base m

-- The loop of `port_DVDCheckWaitingQueue`.
unfoldable pub check_from : (n i base : ℕ) → Mem → Bool
check_from zero i base m = false
check_from (suc n) i base m =
    let q = queue_addr base i in not (field m q off_next == q) || check_from n (i + 1) base m

unfoldable pub check_waiting_queue : ℕ → Mem → Bool
unfolding check_from
check_waiting_queue base m = check_from max_queues 0 base m

-- `port_DVDDequeueWaitingQueue`
unfoldable pub dequeue_waiting_queue : ℕ → Mem → Bool × Mem
dequeue_waiting_queue block m =
    let prev = field m block off_prev in
    let next = field m block off_next in
    if prev == 0 || next == 0
    then (false, m)
    else (true, set_field (set_field m prev off_next next) next off_prev prev)

-- The inner loop of `port_DVDIsBlockInWaitingQueue`; a walk out of fuel has found nothing.
unfoldable pub walk : (fuel q sentinel block : ℕ) → Mem → Bool
walk zero q sentinel block m = false
walk (suc fuel) q sentinel block m =
    let rest = walk fuel (field m q off_next) sentinel block m in
    if q == sentinel then false else if q == block then true else rest

unfoldable pub is_block_from : (n i fuel base block : ℕ) → Mem → Bool
unfolding walk
is_block_from zero i fuel base block m = false
is_block_from (suc n) i fuel base block m =
    let q = queue_addr base i in
    walk fuel (field m q off_next) q block m || is_block_from n (i + 1) fuel base block m

-- `port_DVDIsBlockInWaitingQueue`; `fuel` bounds the blocks of a queue.
unfoldable pub is_block_in_waiting_queue : (fuel base block : ℕ) → Mem → Bool
unfolding is_block_from
is_block_in_waiting_queue fuel base block m = is_block_from max_queues 0 fuel base block m
