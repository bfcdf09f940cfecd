-- ===== src/OsThread/Message/Header.antt =====
-- What a message queue stands for when no thread waits on it, and the effect of its writes.
use gamecube_port.Base.{ℕ, suc, ◌+◌, ◌*◌, ◌^◌, ◌≤◌, ◌<◌, ◌≡◌, ◌∙◌, List, arith, length, ◌⊎◌, some}
use gamecube_port.GcMem.{Mem, Mapped, field, set_field, add32, mul32}
use gamecube_port.GcMem.Laws.{field-set_self, load_u32be-store_apart}
use gamecube_port.OsThread.{
  Os, ◌>>=◌, ◌>>◌, msgq_send, msgq_recv, msgq_count, msgq_first, msgq_used, msgq_msgs, msgq_size,
  max_msgs_per_q, queue_head,
}
use gamecube_port.OsThread.Scheduler.{wake_all, wakeup_thread, os_reschedule}
use gamecube_port.OsThread.Message.Ring.{Slots, Slots-frame}

-- A queue of capacity `n` that holds `xs`, oldest first, with nobody waiting.
pub record IsRing (n : ℕ) (s : Os) (mq : ℕ) (xs : List ℕ) : Type 0 where
  pub mapped : Mapped s.mem mq msgq_size
  pub count_is : field s.mem mq msgq_count ≡ n
  pub count_max : n ≤ max_msgs_per_q
  pub first_in : field s.mem mq msgq_first < n
  pub used_is : field s.mem mq msgq_used ≡ length xs
  pub fits : length xs ≤ n
  pub slots : Slots s.mem mq n (field s.mem mq msgq_first) xs
  pub no_sender : field s.mem (add32 mq msgq_send) queue_head ≡ 0
  pub no_receiver : field s.mem (add32 mq msgq_recv) queue_head ≡ 0
  pub no_hint : s.run_queue_hint ≡ 0

-- Waking an empty queue does nothing.
pub wakeup-empty :
    (fuel q : ℕ) (s : Os)
    → field s.mem q queue_head ≡ 0
    → s.run_queue_hint ≡ 0
    → wakeup_thread (suc fuel) q s ≡ some (tt, s)
unfolding wakeup_thread wake_all os_reschedule
wakeup-empty fuel q s e h = rw (e, h, ◌>>◌, ◌>>=◌, wake_all)

-- The address of a slot does not wrap.
pub slot_offset : (t : ℕ) → t < max_msgs_per_q → add32 msgq_msgs (mul32 t 4) ≡ msgq_msgs + t * 4
slot_offset t h = omega arith

-- The header of a queue after a write to slot `t` and to the field `g` of its header.
abbrev pub wrote : Mem → (mq t msg g v : ℕ) → Mem
wrote m mq t msg g v = set_field (set_field m mq (msgq_msgs + t * 4) msg) mq g v

module _ (m : Mem) (mq t msg g v : ℕ) (h : Mapped m mq msgq_size)
    (inside : t < max_msgs_per_q) where
  pub wrote_self : g + 4 ≤ msgq_msgs → v < 2 ^ 32 → field (wrote m mq t msg g v) mq g ≡ v
  wrote_self i l = field-set_self _ msgq_size mq h g v (omega arith) l

  pub wrote_header :
      (f : ℕ)
      → f + 4 ≤ msgq_msgs
      → g + 4 ≤ msgq_msgs
      → (f + 4 ≤ g) ⊎ (g + 4 ≤ f)
      → field (wrote m mq t msg g v) mq f ≡ field m mq f
  wrote_header f i j a =
      load_u32be-store_apart _ _ _ _ (omega arith) ∙ load_u32be-store_apart _ _ _ _ (omega arith)

  pub wrote_queue :
      (f : ℕ)
      → f + 4 ≤ msgq_msgs
      → g + 4 ≤ msgq_msgs
      → (f + 4 ≤ g) ⊎ (g + 4 ≤ f)
      → field (wrote m mq t msg g v) (add32 mq f) queue_head ≡ field m (add32 mq f) queue_head
  wrote_queue f i j a =
      load_u32be-store_apart _ _ _ _ (omega arith) ∙ load_u32be-store_apart _ _ _ _ (omega arith)

  pub wrote_slot :
      g + 4 ≤ msgq_msgs → msg < 2 ^ 32 → field (wrote m mq t msg g v) mq (msgq_msgs + t * 4) ≡ msg
  wrote_slot i l =
      load_u32be-store_apart _ _ _ _ (omega arith)
      ∙ field-set_self m msgq_size mq h (msgq_msgs + t * 4) msg (omega arith) l

-- A write to the header spares the slots.
pub header-Slots :
    (m : Mem) (mq g v n i : ℕ) (xs : List ℕ)
    → Mapped m mq msgq_size
    → n ≤ max_msgs_per_q
    → g + 4 ≤ msgq_msgs
    → i < n
    → Slots m mq n i xs
    → Slots (set_field m mq g v) mq n i xs
header-Slots m mq g v n i xs h small inside lt s =
    Slots-frame m (set_field m mq g v) mq n i xs
      (λ j l. load_u32be-store_apart m _ _ v (omega arith)) lt s
