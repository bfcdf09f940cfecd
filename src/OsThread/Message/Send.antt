-- ===== src/OsThread/Message/Send.antt =====
-- `OSSendMessage` and `OSJamMessage` without waiting threads.
use native.Mathlib.Nat.{mod-lt}
use gamecube_port.Base.{
  ℕ, suc, ◌+◌, ◌*◌, ◌%◌, ◌^◌, ◌≤◌, ◌<◌, ◌≡◌, ◌∙◌, List, [], ◌∷◌, ◌++◌, arith, length, length-append,
  inl, true, false, some,
}
use gamecube_port.Base.Int.{sle32}
use gamecube_port.GcMem.{Mem, field, set_field, add32}
use gamecube_port.OsThread.{
  Os, bind-some, pure, msgq_send, msgq_recv, msgq_count, msgq_first, msgq_used, msgq_msgs,
  max_msgs_per_q, queue_head,
}
use gamecube_port.OsThread.Scheduler.{wakeup_thread}
use gamecube_port.OsThread.Message.{send_message}
use gamecube_port.OsThread.Message.Ring.{Slots, Slots-keep, Slots-append}
use gamecube_port.OsThread.Message.Header.{
  IsRing, wakeup-empty, slot_offset, wrote, wrote_self, wrote_header, wrote_queue, wrote_slot,
  header-Slots,
}

module _ (fuel n : ℕ) (s : Os) (mq : ℕ) (xs : List ℕ) (r : IsRing n s mq xs) where
  first : ℕ
  first = field s.mem mq msgq_first

  -- `OSSendMessage` on a queue with room that no thread waits on succeeds, and the queue then holds
  -- the message behind the others, in order.
  pub send-append :
      (msg flags : ℕ)
      → msg < 2 ^ 32
      → length xs < n
      → (s' : Os) × (send_message (suc fuel) mq msg flags s ≡ some (true, s'))
        × IsRing n s' mq (xs ++ (msg ∷ []))
  unfolding send_message first
  send-append msg flags small room = (
    s',
    rw (r.count_is, r.used_is, open_test, sum, slot_offset t t_in)
        (bind-some (wakeup_thread (suc fuel) (add32 mq msgq_recv)) (λ _. pure true) s' s' tt
          (wakeup-empty fuel (add32 mq msgq_recv) s' quiet r.no_hint)),
    record {
      mapped = r.mapped;
      count_is = header msgq_count (omega arith) (omega arith) ∙ r.count_is;
      count_max = r.count_max;
      first_in = rw same_first r.first_in;
      used_is =
          wrote_self m mq t msg msgq_used u r.mapped t_in (omega arith) (omega arith) ∙ length_is;
      fits = omega (arith, length-append xs (msg ∷ []));
      slots = rw same_first sent;
      no_sender = queue msgq_send (omega arith) (omega arith) ∙ r.no_sender;
      no_receiver = quiet;
      no_hint = r.no_hint;
    },
  )
    where
      t : ℕ
      t = (first + length xs) % n

      t_lt : t < n
      t_lt = mod-lt (first + length xs) {m = n} (omega arith)

      t_in : t < max_msgs_per_q
      t_in = omega (arith, t_lt, r.count_max)

      m : Mem
      m = s.mem

      u : ℕ
      u = add32 (length xs) 1

      s' : Os
      s' = record s { mem = wrote m mq t msg msgq_used u }

      header : (f : ℕ) → f + 4 ≤ msgq_msgs → f + 4 ≤ msgq_used → field s'.mem mq f ≡ field m mq f
      header f i a = wrote_header m mq t msg msgq_used u r.mapped t_in f i (omega arith) (inl a)

      queue :
          (f : ℕ)
          → f + 4 ≤ msgq_msgs
          → f + 4 ≤ msgq_used
          → field s'.mem (add32 mq f) queue_head ≡ field m (add32 mq f) queue_head
      queue f i a = wrote_queue m mq t msg msgq_used u r.mapped t_in f i (omega arith) (inl a)

      open_test : sle32 n (length xs) ≡ false
      open_test = ground (arith, r.count_max)

      sum : add32 first (length xs) ≡ first + length xs
      sum = omega (arith, r.first_in, r.count_max, r.fits)

      quiet : field s'.mem (add32 mq msgq_recv) queue_head ≡ 0
      quiet = queue msgq_recv (omega arith) (omega arith) ∙ r.no_receiver

      same_first : field s'.mem mq msgq_first ≡ first
      same_first = header msgq_first (omega arith) (omega arith)

      length_is : u ≡ length (xs ++ (msg ∷ []))
      length_is = omega (arith, length-append xs (msg ∷ []), r.fits, r.count_max)

      sent : Slots s'.mem mq n first (xs ++ (msg ∷ []))
      sent =
          Slots-append m mq n msg r.mapped r.count_max s'.mem.byte first xs r.first_in room
            (header-Slots (set_field m mq (msgq_msgs + t * 4) msg) mq msgq_used u n first xs
              r.mapped r.count_max (omega arith) r.first_in
              (Slots-keep m mq n msg r.mapped r.count_max first (length xs) xs r.first_in room
                (omega arith) r.slots))
            (wrote_slot m mq t msg msgq_used u r.mapped t_in (omega arith) small)
