-- ===== src/DvdQueue/Ring.antt =====
-- Each waiting queue is a list of blocks: a push appends, and a block is taken out of the middle.
use mathlib.Core.Path.{subst}
use gamecube_port.Base.{
  ℕ, ◌∙◌, sym, List, [], ◌∷◌, ◌++◌, arith, last_or, All, last_or-append_one, All-append_one,
}
use gamecube_port.GcMem.{Mem, Apart, set_field}
use gamecube_port.GcMem.Laws.{field-set_self, field-set_ne, field-set-Apart}
use gamecube_port.GcMem.Chain.{Node, Distinct, All-last, Apart-sym, Distinct-append_one}
use gamecube_port.GcMem.Dll.{
  Offsets, Dll, Nodes, Dll-set-Apart, Dll-set_last, Dll-set_first, Dll-append,
}
use gamecube_port.DvdQueue.{off_next, off_prev, queue_size, queue_addr, push_waiting_queue}

pub offsets : Offsets queue_size off_next off_prev
offsets = omega arith

-- The list round the sentinel `q` holds the blocks `xs`, first to leave first.
pub record IsRing (m : Mem) (q : ℕ) (xs : List ℕ) : Type 0 where
  pub links : Dll off_next off_prev m (last_or xs q) (q ∷ xs) q
  pub nodes : Nodes m queue_size (q ∷ xs)
  pub distinct : Distinct queue_size (q ∷ xs)

-- The writes of a push, with the block `p` behind which `b` is linked.
abbrev link : (m : Mem) (q p b : ℕ) → Mem
link m q p b =
    set_field (set_field (set_field (set_field m p off_next b) b off_prev p) b off_next q) q
      off_prev b

module _ (m : Mem) (q b : ℕ) (xs : List ℕ) (r : IsRing m q xs) (node : Node m queue_size b)
    (apart : All (Apart queue_size b) (q ∷ xs)) where
  abbrev last : ℕ
  last = last_or xs q

  last-Node : Node m queue_size last
  last-Node = All-last (Node m queue_size) q xs r.nodes

  link-ring : Dll off_next off_prev (link m q last b) b (q ∷ xs) b
  link-ring =
      let m1 = set_field m last off_next b in
      let m2 = set_field m1 b off_prev last in
      let m3 = set_field m2 b off_next q in
      let d1 =
        Dll-set_last queue_size 0 4 offsets m last q xs q b r.nodes r.distinct (omega (arith, node))
          r.links in
      let d2 =
        Dll-set-Apart queue_size 0 4 offsets m1 b off_prev last last (q ∷ xs) b node.1 (omega arith)
          r.nodes apart d1 in
      let d3 =
        Dll-set-Apart queue_size 0 4 offsets m2 b off_next q last (q ∷ xs) b node.1 (omega arith)
          r.nodes apart d2 in
      Dll-set_first queue_size 0 4 offsets m3 last b q xs b r.nodes r.distinct (omega (arith, node))
        d3

  link-block : Dll off_next off_prev (link m q last b) last (b ∷ []) q
  link-block =
      let m1 = set_field m last off_next b in
      let m2 = set_field m1 b off_prev last in
      let m3 = set_field m2 b off_next q in
      let h = node.1 in
      let k = r.nodes.0.1 in
      let a = Apart-sym queue_size b q apart.0 in
      (
        field-set-Apart m3 queue_size q k off_prev b (omega arith) b off_next h (omega arith) a
            ∙ field-set_self m2 queue_size b h off_next q (omega arith) (omega (arith, k)),
        field-set-Apart m3 queue_size q k off_prev b (omega arith) b off_prev h (omega arith) a
            ∙ field-set_ne m2 queue_size b h off_next q (omega arith) off_prev (omega arith)
                (omega arith)
            ∙ field-set_self m1 queue_size b h off_prev last (omega arith)
                (omega (arith, last-Node)),
        tt,
      )

  link-links : Dll off_next off_prev (link m q last b) b (q ∷ (xs ++ (b ∷ []))) q
  link-links = Dll-append 0 4 (link m q last b) b (q ∷ xs) (b ∷ []) q link-ring link-block

-- `port_DVDPushWaitingQueue` puts a block that overlaps nothing of the queue behind its blocks, and
-- keeps their order and the links in both directions.
pub push-append :
    (base prio block : ℕ) (m : Mem) (xs : List ℕ)
    → IsRing m (queue_addr base prio) xs
    → Node m queue_size block
    → All (Apart queue_size block) (queue_addr base prio ∷ xs)
    → IsRing (push_waiting_queue base prio block m) (queue_addr base prio) (xs ++ (block ∷ []))
unfolding push_waiting_queue
push-append base prio b m xs r node apart =
    let q = queue_addr base prio in
    record {
      links =
          subst
            (λ p.
              Dll off_next off_prev (push_waiting_queue base prio b m) p (q ∷ (xs ++ (b ∷ []))) q)
            (sym (last_or-append_one xs b q))
            (subst (λ p. Dll off_next off_prev (link m q p b) b (q ∷ (xs ++ (b ∷ []))) q)
              (sym (r.links.1)) (link-links m q b xs r node apart));
      nodes = All-append_one (Node m queue_size) (q ∷ xs) b r.nodes node;
      distinct = Distinct-append_one queue_size (q ∷ xs) b r.distinct apart;
    }
