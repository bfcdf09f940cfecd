-- ===== src/DvdQueue/Dequeue.antt =====
-- `port_DVDDequeueWaitingQueue` takes a block out of wherever it stands in its queue.
use mathlib.Core.Path.{subst}
use mathlib.Core.List.{append-nil}
use gamecube_port.Base.{
  ℕ, ◌≡◌, ◌≢◌, refl, sym, ◌∙◌, List, [], ◌∷◌, ◌++◌, arith, head_or, last_or, last_or-append, All,
  true, false, Bool, ◌==◌, ◌||◌, if◌then◌else◌,
}
use gamecube_port.GcMem.{Mem, Apart, set_field}
use gamecube_port.GcMem.Chain.{Node, All-last}
use gamecube_port.GcMem.Dll.{
  Dll, Nodes, Dll-set-Apart, Dll-set_last, Dll-set_first, Dll-append, Dll-split, All-split,
  All-join, Distinct-split, Distinct-join, Across-column,
}
use gamecube_port.DvdQueue.{off_next, off_prev, queue_size, dequeue_waiting_queue}
use gamecube_port.DvdQueue.Ring.{IsRing, offsets}

-- The two neighbours `p` and `n` of a block name each other.
abbrev join : (m : Mem) (p n : ℕ) → Mem
join m p n = set_field (set_field m p off_next n) n off_prev p

module _ (m : Mem) (q b : ℕ) (xs : List ℕ) where
  abbrev prev : ℕ
  prev = last_or xs q

  join-links :
      (ys : List ℕ)
      → IsRing m q (xs ++ (b ∷ ys))
      → Dll off_next off_prev (join m prev (head_or ys q)) (last_or (xs ++ ys) q) (q ∷ (xs ++ ys)) q
  join-links [] r =
      let (a, c) = Dll-split 0 4 m _ (q ∷ xs) (b ∷ []) q r.links in
      let (n, _) = All-split (Node m queue_size) (q ∷ xs) (b ∷ []) r.nodes in
      let (d, _, _) = Distinct-split queue_size (q ∷ xs) (b ∷ []) r.distinct in
      let p : Node m queue_size prev = All-last (Node m queue_size) q xs n in
      let a1 = Dll-set_last queue_size 0 4 offsets m _ q xs b q n d (omega (arith, n)) a in
      let a2 =
        Dll-set_first queue_size 0 4 offsets (set_field m prev off_next q) _ prev q xs q n d
          (omega (arith, p)) a1 in
      subst (λ zs. Dll off_next off_prev (join m prev q) (last_or zs q) (q ∷ zs) q)
        (sym (append-nil xs)) a2
  join-links (c ∷ zs) r =
      let (a, f) = Dll-split 0 4 m _ (q ∷ xs) (b ∷ c ∷ zs) q r.links in
      let (n, k) = All-split (Node m queue_size) (q ∷ xs) (b ∷ c ∷ zs) r.nodes in
      let (d, e, x) = Distinct-split queue_size (q ∷ xs) (b ∷ c ∷ zs) r.distinct in
      let y = (Across-column queue_size (q ∷ xs) b (c ∷ zs) x).1 in
      let up = (Across-column queue_size (q ∷ xs) c zs y).0 in
      let p : Node m queue_size prev = All-last (Node m queue_size) q xs n in
      let down : All (Apart queue_size prev) (c ∷ zs) =
        All-last (λ z. All (Apart queue_size z) (c ∷ zs)) q xs y in
      let m1 = set_field m prev off_next c in
      let a1 = Dll-set_last queue_size 0 4 offsets m _ q xs b c n d (omega (arith, k)) a in
      let a2 =
        Dll-set-Apart queue_size 0 4 offsets m1 c off_prev prev _ (q ∷ xs) c k.1.0.1 (omega arith) n
          up a1 in
      let f1 =
        Dll-set-Apart queue_size 0 4 offsets m prev off_next c b (c ∷ zs) q p.1 (omega arith) k.1
          down f.2 in
      let f2 =
        Dll-set_first queue_size 0 4 offsets m1 b prev c zs q k.1 e.1 (omega (arith, p)) f1 in
      subst (λ t. Dll off_next off_prev (join m prev c) t (q ∷ (xs ++ (c ∷ zs))) q)
        (last_or-append xs b (c ∷ zs) q ∙ sym (last_or-append xs c zs q))
        (Dll-append 0 4 (join m prev c) _ (q ∷ xs) (c ∷ zs) q a2 f2)

  join-IsRing :
      (ys : List ℕ) → IsRing m q (xs ++ (b ∷ ys)) → IsRing (join m prev (head_or ys q)) q (xs ++ ys)
  join-IsRing ys r =
      let (n, k) = All-split (Node m queue_size) (q ∷ xs) (b ∷ ys) r.nodes in
      let (d, e, x) = Distinct-split queue_size (q ∷ xs) (b ∷ ys) r.distinct in
      record {
        links = join-links ys r;
        nodes = All-join (Node m queue_size) (q ∷ xs) ys n k.1;
        distinct =
            Distinct-join queue_size (q ∷ xs) ys d e.1 (Across-column queue_size (q ∷ xs) b ys x).1;
      }

head-Node :
    (m : Mem) (q : ℕ) (ys : List ℕ)
    → Node m queue_size q
    → Nodes m queue_size ys
    → Node m queue_size (head_or ys q)
head-Node m q [] n k = n
head-Node m q (y ∷ ys) n k = k.0

-- The call, with the links that it reads as `p'` and `n'`.
dequeue_linked :
    (m : Mem) (q p n p' n' : ℕ) (zs : List ℕ)
    → p' ≡ p
    → n' ≡ n
    → p ≢ 0
    → n ≢ 0
    → IsRing (join m p n) q zs
    → let r : Bool × Mem = if p' == 0 || n' == 0 then (false, m) else (true, join m p' n') in
      (r.0 ≡ true) × IsRing (r.1) q zs
dequeue_linked m q p n p' n' zs ep en hp hn r =
    let test : (p == 0 || n == 0) ≡ false = ground (arith, hp, hn) in rw (ep, en, test) (refl, r)

-- A block that stands in a queue, wherever it does, is taken out: the call reports success, and the
-- queue holds the other blocks in their order, linked in both directions.
pub dequeue-remove :
    (m : Mem) (q block : ℕ) (xs ys : List ℕ)
    → IsRing m q (xs ++ (block ∷ ys))
    → ((dequeue_waiting_queue block m).0 ≡ true)
      × IsRing ((dequeue_waiting_queue block m).1) q (xs ++ ys)
unfolding dequeue_waiting_queue
dequeue-remove m q b xs ys r =
    let (_, c) = Dll-split 0 4 m _ (q ∷ xs) (b ∷ ys) q r.links in
    let (n, k) = All-split (Node m queue_size) (q ∷ xs) (b ∷ ys) r.nodes in
    let p : Node m queue_size (last_or xs q) = All-last (Node m queue_size) q xs n in
    let s : Node m queue_size (head_or ys q) = head-Node m q ys n.0 k.1 in
    dequeue_linked m q (last_or xs q) (head_or ys q) _ _ (xs ++ ys) c.1 c.0 p.0 s.0
      (join-IsRing m q b xs ys r)
