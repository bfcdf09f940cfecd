-- ===== src/OsThread/Message/Runs.antt =====
-- Any sequence of calls that do not block sees a bounded double-ended queue.
use gamecube_port.Base.{
  ℕ, suc, ◌^◌, ◌≤◌, ◌<◌, ◌≡◌, refl, List, [], ◌∷◌, ◌++◌, arith, length, true, false, leb,
  if◌then◌else◌, Option, some, none, Bool, Bool-cases, inl, inr, leb→le, All, ◌∙◌,
}
use gamecube_port.Base.Int.{sle32}
use gamecube_port.OsThread.{Os, M, pure, ◌>>=◌, bind-some}
use gamecube_port.OsThread.Message.{send_message, receive_message, jam_message}
use gamecube_port.OsThread.Message.Header.{IsRing}
use gamecube_port.OsThread.Message.Send.{send-append}
use gamecube_port.OsThread.Message.Jam.{jam-first}
use gamecube_port.OsThread.Message.Receive.{receive-first}

-- A call without the flag that blocks.
pub data Op : Type 0 where
  send : ℕ → Op
  jam : ℕ → Op
  receive : Op

-- What a call returns: whether a message was taken in, or the message received.
pub data Reply : Type 0 where
  taken : Bool → Reply
  received : Option ℕ → Reply

abbrev pub call : (fuel mq : ℕ) → Op → M Reply
call fuel mq (send x) = do done ← send_message fuel mq x 0; pure (taken done)
call fuel mq (jam x) = do done ← jam_message fuel mq x 0; pure (taken done)
call fuel mq receive = do x ← receive_message fuel mq 0; pure (received x)

unfoldable pub run : (fuel mq : ℕ) → List Op → M (List Reply)
run fuel mq [] = pure []
run fuel mq (op ∷ ops) = do r ← call fuel mq op; rs ← run fuel mq ops; pure (r ∷ rs)

-- The same on a list of at most `n` messages.
unfoldable pub deque_step : (n : ℕ) → List ℕ → Op → Reply × List ℕ
deque_step n xs (send x) =
    if leb n (length xs) then (taken false, xs) else (taken true, xs ++ (x ∷ []))
deque_step n xs (jam x) = if leb n (length xs) then (taken false, xs) else (taken true, x ∷ xs)
deque_step n [] receive = (received none, [])
deque_step n (x ∷ xs) receive = (received (some x), xs)

unfoldable pub deque_run : (n : ℕ) → List ℕ → List Op → List Reply
unfolding deque_step
deque_run n xs [] = []
deque_run n xs (op ∷ ops) = let (r, xs') = deque_step n xs op in r ∷ deque_run n xs' ops

abbrev pub IsWord : Op → Type 0
IsWord (send x) = x < 2 ^ 32
IsWord (jam x) = x < 2 ^ 32
IsWord receive = Unit

module _ (fuel n : ℕ) (s : Os) (mq : ℕ) where
  send_full :
      (xs : List ℕ) (x : ℕ)
      → IsRing n s mq xs
      → n ≤ length xs
      → send_message fuel mq x 0 s ≡ some (false, s)
  unfolding send_message
  send_full xs x r h =
      let full : sle32 n (length xs) ≡ true = ground (arith, r.count_max, r.fits) in
      rw (r.count_is, r.used_is, full)

  jam_full :
      (xs : List ℕ) (x : ℕ)
      → IsRing n s mq xs
      → n ≤ length xs
      → jam_message fuel mq x 0 s ≡ some (false, s)
  unfolding jam_message
  jam_full xs x r h =
      let full : sle32 n (length xs) ≡ true = ground (arith, r.count_max, r.fits) in
      rw (r.count_is, r.used_is, full)

  receive_empty : IsRing n s mq [] → receive_message fuel mq 0 s ≡ some (none, s)
  unfolding receive_message
  receive_empty r = rw r.used_is

-- What a call returns, and that the queue then holds what the list does.
abbrev Refines : (fuel n mq : ℕ) → List ℕ → Op → Os → Type 0
Refines fuel n mq xs op s =
    (s' : Os) × (call (suc fuel) mq op s ≡ some ((deque_step n xs op).0, s'))
    × IsRing n s' mq (deque_step n xs op).1

module _ (fuel n : ℕ) (s : Os) (mq : ℕ) where
  send-Refines :
      (xs : List ℕ) (x : ℕ) → IsRing n s mq xs → x < 2 ^ 32 → Refines fuel n mq xs (send x) s
  unfolding deque_step
  send-Refines xs x r w = elim (Bool-cases (leb n (length xs))) [
    | inl full ↦ (
      s,
      rw full (
          bind-some (send_message (suc fuel) mq x 0) (λ d. pure (taken d)) s s false
            (send_full (suc fuel) n s mq xs x r (leb→le _ _ full))),
      rw full r,
    )
    | inr room ↦
        let (s', e, r') = send-append fuel n s mq xs r x 0 w (ground (arith)) in
        (
          s',
          rw room (bind-some (send_message (suc fuel) mq x 0) (λ d. pure (taken d)) s s' true e),
          rw room r',
        )
  ]

  jam-Refines :
      (xs : List ℕ) (x : ℕ) → IsRing n s mq xs → x < 2 ^ 32 → Refines fuel n mq xs (jam x) s
  unfolding deque_step
  jam-Refines xs x r w = elim (Bool-cases (leb n (length xs))) [
    | inl full ↦ (
      s,
      rw full (
          bind-some (jam_message (suc fuel) mq x 0) (λ d. pure (taken d)) s s false
            (jam_full (suc fuel) n s mq xs x r (leb→le _ _ full))),
      rw full r,
    )
    | inr room ↦
        let (s', e, r') = jam-first fuel n s mq xs r x 0 w (ground (arith)) in
        (
          s',
          rw room (bind-some (jam_message (suc fuel) mq x 0) (λ d. pure (taken d)) s s' true e),
          rw room r',
        )
  ]

  receive-Refines : (xs : List ℕ) → IsRing n s mq xs → Refines fuel n mq xs receive s
  unfolding deque_step
  receive-Refines [] r = (
    s,
    bind-some (receive_message (suc fuel) mq 0) (λ x. pure (received x)) s s none
        (receive_empty (suc fuel) n s mq r),
    r,
  )
  receive-Refines (x ∷ xs) r =
      let (s', e, r') = receive-first fuel n s mq x xs r 0 in
      (s', bind-some (receive_message (suc fuel) mq 0) (λ x. pure (received x)) s s' (some x) e, r')

  call-Refines : (xs : List ℕ) (op : Op) → IsRing n s mq xs → IsWord op → Refines fuel n mq xs op s
  call-Refines xs (send x) r w = send-Refines xs x r w
  call-Refines xs (jam x) r w = jam-Refines xs x r w
  call-Refines xs receive r w = receive-Refines xs r

-- Any sequence of sends, jams and receives that do not block, on a queue in emulated RAM that holds
-- `xs` with no thread waiting, ends and returns what it returns on the list `xs`, bounded by the slots.
pub deque_run_refines :
    (fuel n : ℕ) (ops : List Op) (s : Os) (mq : ℕ) (xs : List ℕ)
    → IsRing n s mq xs
    → All IsWord ops
    → (s' : Os) × (run (suc fuel) mq ops s ≡ some (deque_run n xs ops, s'))
unfolding run deque_run
deque_run_refines fuel n [] s mq xs r w = (s, refl)
deque_run_refines fuel n (op ∷ ops) s mq xs r w =
    let (s1, e1, r1) = call-Refines fuel n s mq xs op r w.0 in
    let (s2, e2) = deque_run_refines fuel n ops s1 mq _ r1 w.1 in
    (
      s2,
      bind-some (call (suc fuel) mq op) _ s s1 _ e1
          ∙ bind-some (run (suc fuel) mq ops) _ s1 s2 _ e2,
    )
