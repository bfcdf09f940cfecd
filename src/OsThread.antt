-- ===== src/OsThread.antt =====
-- sdk_port/os/osthread.h and the accessors of osthread.c: the layout of threads, queues, mutexes and
-- message queues in emulated RAM, and the monad that the operations below run in.
pub mod Bits
pub mod Queue
pub mod Links
pub mod Chosen
pub mod Priority
pub mod Scheduler
pub mod Threads
pub mod Mutex
pub mod Message
use gamecube_port.Base.{
  ℕ, zero, suc, ◌+◌, ◌-◌, ◌*◌, ◌^◌, Bool, true, false, Option, none, some, if◌then◌else◌, leb, ◌==◌,
  bit_or, bit_and, ◌≡◌,
}
use gamecube_port.GcMem.{Mem, field, set_field, field16, set_field16, add32, mul32}

-- `PORT_OS_THREAD_STATE_*`
abbrev pub state_ready : ℕ
state_ready = 1

abbrev pub state_running : ℕ
state_running = 2

abbrev pub state_waiting : ℕ
state_waiting = 4

abbrev pub state_moribund : ℕ
state_moribund = 8

abbrev pub priority_max : ℕ
priority_max = 31

-- `PORT_THREAD_*`: the fields of a thread
abbrev pub thread_id : ℕ
thread_id = 0

abbrev pub thread_state : ℕ
thread_state = 4

abbrev pub thread_attr : ℕ
thread_attr = 6

abbrev pub thread_suspend : ℕ
thread_suspend = 8

abbrev pub thread_priority : ℕ
thread_priority = 12

abbrev pub thread_base : ℕ
thread_base = 16

abbrev pub thread_val : ℕ
thread_val = 20

abbrev pub thread_queue : ℕ
thread_queue = 24

abbrev pub link_next : ℕ
link_next = 28

abbrev pub link_prev : ℕ
link_prev = 32

abbrev pub join_head : ℕ
join_head = 36

abbrev pub join_tail : ℕ
join_tail = 40

abbrev pub thread_mutex : ℕ
thread_mutex = 44

abbrev pub mutex_head : ℕ
mutex_head = 48

abbrev pub mutex_tail : ℕ
mutex_tail = 52

abbrev pub active_next : ℕ
active_next = 56

abbrev pub active_prev : ℕ
active_prev = 60

abbrev pub thread_size : ℕ
thread_size = 64

-- `PORT_QUEUE_*`, `PORT_MUTEX_*`
abbrev pub queue_head : ℕ
queue_head = 0

abbrev pub queue_tail : ℕ
queue_tail = 4

abbrev pub queue_size : ℕ
queue_size = 8

abbrev pub mutex_queue : ℕ
mutex_queue = 0

abbrev pub mutex_thread : ℕ
mutex_thread = 8

abbrev pub mutex_count : ℕ
mutex_count = 12

abbrev pub mutex_link_next : ℕ
mutex_link_next = 16

abbrev pub mutex_link_prev : ℕ
mutex_link_prev = 20

abbrev pub mutex_size : ℕ
mutex_size = 24

-- `PORT_MSGQ_*`
abbrev pub msgq_send : ℕ
msgq_send = 0

abbrev pub msgq_recv : ℕ
msgq_recv = 8

abbrev pub msgq_count : ℕ
msgq_count = 16

abbrev pub msgq_first : ℕ
msgq_first = 20

abbrev pub msgq_used : ℕ
msgq_used = 24

abbrev pub msgq_msgs : ℕ
msgq_msgs = 28

abbrev pub max_msgs_per_q : ℕ
max_msgs_per_q = 16

abbrev pub msgq_size : ℕ
msgq_size = 92

-- `PORT_MAX_*` and the offsets of the arrays from `gc_base`
abbrev pub max_threads : ℕ
max_threads = 32

abbrev pub max_wait_queues : ℕ
max_wait_queues = 16

abbrev pub activeq_offset : ℕ
activeq_offset = 256

abbrev pub threads_offset : ℕ
threads_offset = 264

abbrev pub waitq_offset : ℕ
waitq_offset = 2312

abbrev pub total_size : ℕ
total_size = 3624

-- `port_OSThreadState` and emulated RAM. The two `int32_t` fields are bit patterns.
pub record Os : Type 0 where
  pub mem : Mem
  pub current_thread : ℕ
  pub run_queue_bits : ℕ
  pub run_queue_hint : ℕ
  pub reschedule : ℕ
  pub gc_base : ℕ

-- `none` means that a walk along pointers did not end within its fuel.
abbrev pub M : Type 0 → Type 0
M A = Os → Option (A × Os)

abbrev pub pure : {A : Type 0} → A → M A
pure a s = some (a, s)

abbrev pub diverge : {A : Type 0} → M A
diverge s = none

infixl 5 ◌>>=◌ ◌>>◌
abbrev pub ◌>>=◌ : {A B : Type 0} → M A → (A → M B) → M B
◌>>=◌ m f s = elim (m s) [ none ↦ none | some (a, s') ↦ f a s' ]

abbrev pub ◌>>◌ : {B : Type 0} → M (Unit {0}) → M B → M B
m >> k = m >>= λ _. k

abbrev pub skip : M (Unit {0})
skip = pure tt

abbrev pub gets : {A : Type 0} → (Os → A) → M A
gets f s = some (f s, s)

-- `thr_get32`, `thr_set32` and their likes for queues, mutexes and message queues.
abbrev pub get32 : ℕ → ℕ → M ℕ
get32 x off = gets (λ s. field s.mem x off)

abbrev pub set32 : ℕ → ℕ → ℕ → M (Unit {0})
set32 x off v s = some (tt, record s { mem = set_field s.mem x off v })

abbrev pub get16 : ℕ → ℕ → M ℕ
get16 x off = gets (λ s. field16 s.mem x off)

abbrev pub set16 : ℕ → ℕ → ℕ → M (Unit {0})
set16 x off v s = some (tt, record s { mem = set_field16 s.mem x off v })

abbrev pub set_hint : M (Unit {0})
set_hint s = some (tt, record s { run_queue_hint = 1 })

-- `PORT_RUNQUEUE_ADDR` and its likes
abbrev pub runqueue_addr : Os → ℕ → ℕ
runqueue_addr s prio = add32 s.gc_base (mul32 prio queue_size)

abbrev pub activeq_addr : Os → ℕ
activeq_addr s = add32 s.gc_base activeq_offset

abbrev pub thread_addr : Os → ℕ → ℕ
thread_addr s idx = add32 (add32 s.gc_base threads_offset) (mul32 idx thread_size)

abbrev pub waitq_addr : Os → ℕ → ℕ
waitq_addr s idx = add32 (add32 s.gc_base waitq_offset) (mul32 idx queue_size)

-- `q_init`
unfoldable pub q_init : ℕ → M (Unit {0})
q_init q = do set32 q queue_head 0; set32 q queue_tail 0

-- Leading zeros of the low `n` bits of `x`, from bit `n - 1` down.
unfoldable pub leading_zeros : ℕ → ℕ → ℕ
leading_zeros zero x = 0
leading_zeros (suc n) x = elim (leb (2 ^ n) x) [ true ↦ 0 | false ↦ 1 + leading_zeros n x ]

-- `port_cntlzw`, of a 32-bit value
unfoldable pub cntlzw : ℕ → ℕ
unfolding leading_zeros
cntlzw x = leading_zeros 32 x

-- The bit of a priority in `runQueueBits`. The shift is undefined in C above priority 31.
abbrev pub priority_bit : ℕ → ℕ
priority_bit prio = 2 ^ (priority_max - prio)

abbrev pub not32 : ℕ → ℕ
not32 x = 2 ^ 32 - 1 - x

-- A step that is known to succeed.
pub bind-some :
    {A B : Type 0} (m : M A) (f : A → M B) (s s' : Os) (a : A)
    → m s ≡ some (a, s')
    → (m >>= f) s ≡ f a s'
bind-some m f s s' a e = rw (e, ◌>>=◌)
