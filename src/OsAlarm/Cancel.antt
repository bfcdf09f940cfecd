-- ===== src/OsAlarm/Cancel.antt =====
-- `port_OSCancelAlarm` takes an alarm out of wherever it stands in the list.
mod Tests
use mathlib.Core.Path.{subst}
use mathlib.Core.List.{append-nil}
use gamecube_port.Base.{
  ℕ, ◌+◌, ◌<◌, ◌^◌, ◌≡◌, ◌≢◌, refl, sym, ◌∙◌, List, [], ◌∷◌, ◌++◌, arith, head_or, last_or,
  last_or-append, All, true, false, Bool, Bool-cases, inl, inr, ◌==◌, if◌then◌else◌,
}
use gamecube_port.GcMem.{Mem, Mapped, Apart, field, set_field}
use gamecube_port.GcMem.Chain.{Node, Distinct, All-last}
use gamecube_port.GcMem.Dll.{
  Offsets, Dll, Nodes, Dll-set-Apart, Dll-split, All-split, All-join, Distinct-split, Distinct-join,
  Across-column,
}
use gamecube_port.GcMem.Unhook.{
  nonzero, unhook, first_write, IsAround, IsAround-split, unhook-links, unhook-Nodes,
  prev-first_write, behind,
}
use gamecube_port.OsAlarm.{AlarmState, alarm_handler, alarm_next, alarm_prev, cancel_alarm}

abbrev pub alarm_size : ℕ
alarm_size = 40

offsets : Offsets alarm_size alarm_next alarm_prev
offsets = omega arith

-- The list of the state holds the alarms `xs`, ended by null links.
pub record IsAlarms (st : AlarmState) (m : Mem) (xs : List ℕ) : Type 0 where
  pub head : st.queue_head ≡ head_or xs 0
  pub tail : st.queue_tail ≡ last_or xs 0
  pub links : Dll alarm_next alarm_prev m 0 xs 0
  pub nodes : Nodes m alarm_size xs
  pub distinct : Distinct alarm_size xs

module _ (m : Mem) (b : ℕ) where
  -- What the call leaves in memory and in the state, with the links that it reads as `p0`, `p1`, `n`.
  abbrev left_mem : (p0 p1 n : ℕ) → Mem
  left_mem p0 p1 n =
      let m1 = if n == 0 then m else set_field m n alarm_prev p0 in
      set_field (if p1 == 0 then m1 else set_field m1 p1 alarm_next n) b alarm_handler 0

  abbrev left_state : AlarmState → (p0 p1 n : ℕ) → AlarmState
  left_state st p0 p1 n =
      let st1 = if n == 0 then record st { queue_tail = p0 } else st in
      if p1 == 0 then record st1 { queue_head = n } else st1

  -- What the state's two pointers become.
  left_ends :
      (st : AlarmState) (xs ys : List ℕ)
      → IsAround 40 20 16 offsets m b xs ys
      → st.queue_head ≡ head_or (xs ++ (b ∷ ys)) 0
      → st.queue_tail ≡ last_or (xs ++ (b ∷ ys)) 0
      → let s' = left_state st (last_or xs 0) (last_or xs 0) (head_or ys 0) in
        (s'.queue_head ≡ head_or (xs ++ ys) 0) × (s'.queue_tail ≡ last_or (xs ++ ys) 0)
  left_ends st [] [] r h t = (refl, refl)
  left_ends st [] (c ∷ zs) r h t = rw (nonzero c r.nodes_after.0.0) (refl, t)
  left_ends st (x ∷ xs) [] r h t =
      let p : Node m alarm_size (last_or xs x) = All-last (Node m alarm_size) x xs r.nodes_before in
      rw (nonzero (last_or xs x) p.0) (h, rw (append-nil xs) refl)
  left_ends st (x ∷ xs) (c ∷ zs) r h t =
      let p : Node m alarm_size (last_or xs x) = All-last (Node m alarm_size) x xs r.nodes_before in
      rw (nonzero (last_or xs x) p.0, nonzero c r.nodes_after.0.0)
        (h, t ∙ last_or-append xs b (c ∷ zs) x ∙ sym (last_or-append xs c zs x))

  left-IsAlarms :
      (st : AlarmState) (xs ys : List ℕ) (p0 p1 n : ℕ)
      → IsAround 40 20 16 offsets m b xs ys
      → st.queue_head ≡ head_or (xs ++ (b ∷ ys)) 0
      → st.queue_tail ≡ last_or (xs ++ (b ∷ ys)) 0
      → All (Apart alarm_size b) (xs ++ ys)
      → p0 ≡ last_or xs 0
      → p1 ≡ last_or xs 0
      → n ≡ head_or ys 0
      → IsAlarms (left_state st p0 p1 n) (left_mem p0 p1 n) (xs ++ ys)
  left-IsAlarms st xs ys p0 p1 n r h t away e0 e1 en =
      let u = unhook 20 16 m (last_or xs 0) (head_or ys 0) in
      let ends = left_ends st xs ys r h t in
      let nodes : Nodes u alarm_size (xs ++ ys) =
        unhook-Nodes 40 20 16 offsets m (last_or xs 0) (head_or ys 0) (xs ++ ys)
          (All-join (Node m alarm_size) xs ys r.nodes_before r.nodes_after) in
      let node : Nodes u alarm_size (b ∷ []) =
        unhook-Nodes 40 20 16 offsets m (last_or xs 0) (head_or ys 0) (b ∷ []) (r.node, tt) in
      rw (e0, e1, en)
        (record {
          head = ends.0;
          tail = ends.1;
          links =
              Dll-set-Apart 40 20 16 offsets u b alarm_handler 0 0 (xs ++ ys) 0 node.0.1
                (omega arith) nodes away (unhook-links 40 20 16 offsets m b xs ys r);
          nodes = nodes;
          distinct = Distinct-join alarm_size xs ys r.distinct_before r.distinct_after r.across;
        })

-- An alarm that is set is taken out of wherever it stands in the list: the list holds the others in
-- their order, linked in both directions between the state's two pointers.
pub cancel_alarm-remove :
    (st : AlarmState) (m : Mem) (alarm : ℕ) (xs ys : List ℕ)
    → IsAlarms st m (xs ++ (alarm ∷ ys))
    → field m alarm alarm_handler ≢ 0
    → let (st', m') = cancel_alarm alarm st m in IsAlarms st' m' (xs ++ ys)
unfolding cancel_alarm
cancel_alarm-remove st m b xs ys r set =
    let (d, f) = Dll-split 20 16 m 0 xs (b ∷ ys) 0 r.links in
    let (n, k) = All-split (Node m alarm_size) xs (b ∷ ys) r.nodes in
    let (e, g, x) = Distinct-split alarm_size xs (b ∷ ys) r.distinct in
    let (col, rest) = Across-column alarm_size xs b ys x in
    let around = IsAround-split 40 20 16 offsets m xs b ys r.links r.nodes r.distinct in
    let p0 = field m b alarm_prev in
    let n' = field m b alarm_next in
    let next_apart =
      subst (λ z. z ≢ 0 → Mapped m z alarm_size × Apart alarm_size z b) (sym f.0)
        (behind 40 20 16 offsets m b ys k.1 g.0) in
    rw (nonzero (field m b alarm_handler) set) (
      left-IsAlarms m b st xs ys p0 (field (first_write 16 m p0 n') b alarm_prev) n' around r.head
        r.tail (All-join (Apart alarm_size b) xs ys col g.0) f.1
        (prev-first_write 40 20 16 offsets m b p0 n' k.0.1 next_apart ∙ f.1) f.0)
