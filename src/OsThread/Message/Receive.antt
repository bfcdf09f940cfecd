-- ===== src/OsThread/Message/Receive.antt =====
-- `OSReceiveMessage` without waiting threads.
use native.Mathlib.Nat.{mod-lt}
use gamecube_port.Base.{
  ℕ, suc, ◌+◌, ◌%◌, ◌≤◌, ◌<◌, ◌≡◌, ◌∙◌, List, ◌∷◌, arith, length, ◌⊎◌, inl, false, some, ◌==◌,
}
use gamecube_port.GcMem.{Mem, field, set_field, add32, sub32}
use gamecube_port.GcMem.Laws.{field-set_self, load_u32be-store_apart}
use gamecube_port.OsThread.{
  Os, bind-some, pure, msgq_send, msgq_recv, msgq_count, msgq_first, msgq_used, msgq_msgs,
  msgq_size, max_msgs_per_q, queue_head,
}
use gamecube_port.OsThread.Scheduler.{wakeup_thread}
use gamecube_port.OsThread.Message.{receive_message}
use gamecube_port.OsThread.Message.Header.{IsRing, wakeup-empty, slot_offset, header-Slots}

module _ (fuel n : ℕ) (s : Os) (mq x : ℕ) (xs : List ℕ) (r : IsRing n s mq (x ∷ xs)) where
  first : ℕ
  first = field s.mem mq msgq_first

  -- `OSReceiveMessage` on a queue that is not empty and that no thread waits on returns the first
  -- message, and the queue then holds the others, in order.
  pub receive-first :
      (flags : ℕ)
      → (s' : Os) × (receive_message (suc fuel) mq flags s ≡ some (some x, s')) × IsRing n s' mq xs
  unfolding receive_message first
  receive-first flags = (
    s',
    rw (r.used_is, some_used, slot_offset first f_in, r.slots.0, r.count_is, next_is)
        (bind-some (wakeup_thread (suc fuel) (add32 mq msgq_send)) (λ _. pure (some x)) s' s' tt
          (wakeup-empty fuel (add32 mq msgq_send) s' no_sender r.no_hint)),
    record {
      mapped = r.mapped;
      count_is = other msgq_count (omega arith) (omega arith) (inl (omega arith)) ∙ r.count_is;
      count_max = r.count_max;
      first_in = rw first_is next_in;
      used_is = used_is ∙ omega (arith, r.fits, r.count_max);
      fits = omega (arith, r.fits);
      slots = rw first_is (
          header-Slots _ mq msgq_used u n next xs r.mapped r.count_max (omega arith) next_in (
            header-Slots m mq msgq_first next n next xs r.mapped r.count_max (omega arith) next_in
              r.slots.1));
      no_sender = no_sender;
      no_receiver = queue msgq_recv (omega arith) ∙ r.no_receiver;
      no_hint = r.no_hint;
    },
  )
    where
      m : Mem
      m = s.mem

      next : ℕ
      next = (first + 1) % n

      u : ℕ
      u = sub32 (suc (length xs)) 1

      s' : Os
      s' = record s { mem = set_field (set_field m mq msgq_first next) mq msgq_used u }

      some_used : (suc (length xs) == 0) ≡ false
      some_used = ground arith

      next_in : next < n
      next_in = mod-lt (first + 1) {m = n} (omega (arith, r.first_in))

      f_in : first < max_msgs_per_q
      f_in = omega (arith, r.first_in, r.count_max)

      next_is : add32 first 1 ≡ first + 1
      next_is = omega (arith, f_in)

      other :
          (f : ℕ)
          → f + 4 ≤ msgq_msgs
          → f + 4 ≤ msgq_used
          → (f + 4 ≤ msgq_first) ⊎ (msgq_first + 4 ≤ f)
          → field s'.mem mq f ≡ field m mq f
      other f i j a =
          load_u32be-store_apart _ _ _ _ (omega (arith, r.mapped))
          ∙ load_u32be-store_apart _ _ _ _ (omega (arith, r.mapped))

      queue :
          (f : ℕ)
          → f + 4 ≤ msgq_first
          → field s'.mem (add32 mq f) queue_head ≡ field m (add32 mq f) queue_head
      queue f i =
          load_u32be-store_apart _ _ _ _ (omega (arith, r.mapped))
          ∙ load_u32be-store_apart _ _ _ _ (omega (arith, r.mapped))

      no_sender : field s'.mem (add32 mq msgq_send) queue_head ≡ 0
      no_sender = queue msgq_send (omega arith) ∙ r.no_sender

      first_is : field s'.mem mq msgq_first ≡ next
      first_is =
          load_u32be-store_apart _ _ _ _ (omega (arith, r.mapped))
          ∙ field-set_self m msgq_size mq r.mapped msgq_first next (omega arith)
              (omega (arith, next_in, r.count_max))

      used_is : field s'.mem mq msgq_used ≡ u
      used_is = field-set_self _ msgq_size mq r.mapped msgq_used u (omega arith) (omega arith)
