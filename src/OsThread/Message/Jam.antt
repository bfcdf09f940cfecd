-- ===== src/OsThread/Message/Jam.antt =====
-- `OSJamMessage` without waiting threads.
use native.Mathlib.Nat.{mod-lt}
use mathlib.Core.Path.{subst}
use gamecube_port.Base.{
  ℕ, suc, ◌+◌, ◌-◌, ◌*◌, ◌%◌, ◌^◌, ◌≤◌, ◌<◌, ◌≡◌, ◌∙◌, ap, List, ◌∷◌, arith, length, ◌⊎◌, inl, true,
  false, some,
}
use gamecube_port.Base.Int.{sle32}
use gamecube_port.GcMem.{Mem, field, set_field, add32, sub32}
use gamecube_port.GcMem.Laws.{field-set_self, load_u32be-store_apart}
use gamecube_port.OsThread.{
  Os, bind-some, pure, msgq_send, msgq_recv, msgq_count, msgq_first, msgq_used, msgq_msgs,
  msgq_size, max_msgs_per_q, queue_head,
}
use gamecube_port.OsThread.Scheduler.{wakeup_thread}
use gamecube_port.OsThread.Message.{jam_message}
use gamecube_port.OsThread.Message.Ring.{Slots, wrap, Slots-keep}
use gamecube_port.OsThread.Message.Header.{
  IsRing, wakeup-empty, slot_offset, wrote, wrote_self, wrote_header, wrote_queue, wrote_slot,
  header-Slots,
}

-- One round back from a ring index.
back : (i n : ℕ) → i < n → ((i + n - 1) % n + 1) % n ≡ i
back i n h = ground (
  arith,
  wrap i (n - 1) n,
  wrap ((i + n - 1) % n) 1 n,
  mod-lt (i + n - 1) {m = n},
  ap (λ (k : ℕ). k % n) regroup,
)
  where
    regroup : i + (n - 1) ≡ i + n - 1
    regroup = omega arith

module _ (fuel n : ℕ) (s : Os) (mq : ℕ) (xs : List ℕ) (r : IsRing n s mq xs) where
  first : ℕ
  first = field s.mem mq msgq_first

  -- `OSJamMessage` on a queue with room that no thread waits on succeeds, and the queue then holds
  -- the message in front of the others, in order.
  pub jam-first :
      (msg flags : ℕ)
      → msg < 2 ^ 32
      → length xs < n
      → (s' : Os) × (jam_message (suc fuel) mq msg flags s ≡ some (true, s'))
        × IsRing n s' mq (msg ∷ xs)
  unfolding jam_message first
  jam-first msg flags small room = (
    s',
    rw (r.count_is, r.used_is, open_test, before, slot_offset t t_in)
        (bind-some (wakeup_thread (suc fuel) (add32 mq msgq_recv)) (λ _. pure true) s' s' tt
          (wakeup-empty fuel (add32 mq msgq_recv) s' no_receiver r.no_hint)),
    record {
      mapped = r.mapped;
      count_is = header msgq_count (omega arith) (omega arith) (inl (omega arith)) ∙ r.count_is;
      count_max = r.count_max;
      first_in = rw first_is t_lt;
      used_is = used_is ∙ omega (arith, r.fits, r.count_max);
      fits = room;
      slots = rw first_is (jammed, kept);
      no_sender = queue msgq_send (omega arith) ∙ r.no_sender;
      no_receiver = no_receiver;
      no_hint = r.no_hint;
    },
  )
    where
      m : Mem
      m = s.mem

      t : ℕ
      t = (first + n - 1) % n

      t_lt : t < n
      t_lt = mod-lt (first + n - 1) {m = n} (omega arith)

      t_in : t < max_msgs_per_q
      t_in = omega (arith, t_lt, r.count_max)

      u : ℕ
      u = add32 (length xs) 1

      m2 : Mem
      m2 = wrote m mq t msg msgq_first t

      s' : Os
      s' = record s { mem = set_field m2 mq msgq_used u }

      open_test : sle32 n (length xs) ≡ false
      open_test = ground (arith, r.count_max)

      before : sub32 (add32 first n) 1 ≡ first + n - 1
      before = omega (arith, r.first_in, r.count_max)

      header :
          (f : ℕ)
          → f + 4 ≤ msgq_msgs
          → f + 4 ≤ msgq_used
          → (f + 4 ≤ msgq_first) ⊎ (msgq_first + 4 ≤ f)
          → field s'.mem mq f ≡ field m mq f
      header f i j a =
          load_u32be-store_apart _ _ _ _ (omega (arith, r.mapped))
          ∙ wrote_header m mq t msg msgq_first t r.mapped t_in f i (omega arith) a

      queue :
          (f : ℕ)
          → f + 4 ≤ msgq_first
          → field s'.mem (add32 mq f) queue_head ≡ field m (add32 mq f) queue_head
      queue f i =
          load_u32be-store_apart _ _ _ _ (omega (arith, r.mapped))
          ∙ wrote_queue m mq t msg msgq_first t r.mapped t_in f (omega arith) (omega arith) (inl i)

      no_receiver : field s'.mem (add32 mq msgq_recv) queue_head ≡ 0
      no_receiver = queue msgq_recv (omega arith) ∙ r.no_receiver

      first_is : field s'.mem mq msgq_first ≡ t
      first_is =
          load_u32be-store_apart _ _ _ _ (omega (arith, r.mapped))
          ∙ wrote_self m mq t msg msgq_first t r.mapped t_in (omega arith) (omega (arith, t_in))

      used_is : field s'.mem mq msgq_used ≡ u
      used_is = field-set_self m2 msgq_size mq r.mapped msgq_used u (omega arith) (omega arith)

      jammed : field s'.mem mq (msgq_msgs + t * 4) ≡ msg
      jammed =
          load_u32be-store_apart _ _ _ _ (omega (arith, r.mapped, t_in))
          ∙ wrote_slot m mq t msg msgq_first t r.mapped t_in (omega arith) small

      round_back : (first + (n - 1)) % n ≡ t
      round_back = ap (λ (k : ℕ). k % n) (omega (arith, r.first_in))

      in_slot : Slots (set_field m mq (msgq_msgs + t * 4) msg) mq n first xs
      in_slot =
          subst (λ k. Slots (set_field m mq (msgq_msgs + k * 4) msg) mq n first xs) round_back
            (Slots-keep m mq n msg r.mapped r.count_max first (n - 1) xs r.first_in (omega arith)
              (omega arith) r.slots)

      kept : Slots s'.mem mq n ((t + 1) % n) xs
      kept = rw (back first n r.first_in) (
          header-Slots m2 mq msgq_used u n first xs r.mapped r.count_max (omega arith) r.first_in (
            header-Slots (set_field m mq (msgq_msgs + t * 4) msg) mq msgq_first t n first xs
              r.mapped r.count_max (omega arith) r.first_in in_slot))
