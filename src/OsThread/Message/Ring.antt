-- ===== src/OsThread/Message/Ring.antt =====
-- The slots of a message queue are a ring, and hold the messages in order.
use native.Mathlib.Nat.{mod-lt, mod-eq_of_lt, mod-eq-sub-mod}
use mathlib.Core.Path.{subst}
use gamecube_port.Base.{
  ℕ, zero, suc, ◌+◌, ◌-◌, ◌*◌, ◌%◌, ◌≤◌, ◌<◌, ◌≡◌, ◌≢◌, ◌∙◌, sym, List, [], ◌∷◌, ◌++◌, arith,
  length, ltb, if◌then◌else◌,
}
use gamecube_port.GcMem.{Mem, Mapped, field, set_field}
use gamecube_port.GcMem.Laws.{load_u32be-store_apart}
use gamecube_port.OsThread.{msgq_msgs, msgq_size, max_msgs_per_q}

-- One or more rounds ahead of a ring index: what `%` gives.
pub wrap : (i k n : ℕ) → i < n → k ≤ n → (i + k) % n ≡ (if ltb (i + k) n then i + k else i + k - n)
wrap i k n h l = grind (arith, mod-eq_of_lt, mod-eq-sub-mod)

-- The same slot, counted from the next index.
shift : (i k n : ℕ) → i < n → suc k ≤ n → (i + suc k) % n ≡ ((i + 1) % n + k) % n
shift i k n h l =
    ground (arith, wrap i (suc k) n, wrap i 1 n, wrap ((i + 1) % n) k n, mod-lt (i + 1) {m = n})

ahead-ne : (i k n : ℕ) → i < n → 0 < k → k < n → (i + k) % n ≢ i
ahead-ne i k n h z l = ground (arith, wrap i k n)

-- From index `i` on, going round at `n`, the slots hold `xs`.
abbrev pub Slots : Mem → (mq n i : ℕ) → List ℕ → Type 0
Slots m mq n i [] = Unit
Slots m mq n i (x ∷ xs) = (field m mq (msgq_msgs + i * 4) ≡ x) × Slots m mq n ((i + 1) % n) xs

module _ (m : Mem) (mq n v : ℕ) (h : Mapped m mq msgq_size) (small : n ≤ max_msgs_per_q) where
  -- A write to the slot `k` rounds ahead spares a run of at most `k` messages.
  pub Slots-keep :
      (i k : ℕ) (xs : List ℕ)
      → i < n
      → k < n
      → length xs ≤ k
      → Slots m mq n i xs
      → Slots (set_field m mq (msgq_msgs + (i + k) % n * 4) v) mq n i xs
  Slots-keep i k [] hi hk hl s = tt
  Slots-keep i zero (x ∷ xs) hi hk hl s = absurd (omega arith)
  Slots-keep i (suc k) (x ∷ xs) hi hk hl s =
      let t = (i + suc k) % n in
      let ne : t ≢ i = ahead-ne i (suc k) n hi (omega arith) hk in
      let lt : t < n = mod-lt (i + suc k) {m = n} (omega arith) in
      (
        load_u32be-store_apart m _ _ v (omega arith) ∙ s.0,
        subst (λ t. Slots (set_field m mq (msgq_msgs + t * 4) v) mq n ((i + 1) % n) xs)
            (sym (shift i k n hi (omega arith)))
            (Slots-keep ((i + 1) % n) k xs (mod-lt (i + 1) {m = n} (omega arith)) (omega arith)
              (omega arith) s.1),
      )

  -- The slot behind a run that is not a whole round extends it.
  pub Slots-append :
      (f : ℕ → ℕ) (i : ℕ) (xs : List ℕ)
      → i < n
      → length xs < n
      → Slots (record m { byte = f }) mq n i xs
      → field (record m { byte = f }) mq (msgq_msgs + (i + length xs) % n * 4) ≡ v
      → Slots (record m { byte = f }) mq n i (xs ++ (v ∷ []))
  Slots-append f i [] hi hl s e =
      let z : (i + 0) % n ≡ i = ground (arith, wrap i 0 n) in (rw z at e, tt)
  Slots-append f i (x ∷ xs) hi hl s e = (
    s.0,
    Slots-append f ((i + 1) % n) xs (mod-lt (i + 1) {m = n} (omega arith)) (omega arith) s.1
        (rw (shift i (length xs) n hi (omega arith)) at e),
  )

-- A change of memory that spares the slots keeps what they hold.
pub Slots-frame :
    (m m' : Mem) (mq n i : ℕ) (xs : List ℕ)
    → ((j : ℕ) → j < n → field m' mq (msgq_msgs + j * 4) ≡ field m mq (msgq_msgs + j * 4))
    → i < n
    → Slots m mq n i xs
    → Slots m' mq n i xs
Slots-frame m m' mq n i [] same h s = tt
Slots-frame m m' mq n i (x ∷ xs) same h s = (
  same i h ∙ s.0,
  Slots-frame m m' mq n ((i + 1) % n) xs same (mod-lt (i + 1) {m = n} (omega arith)) s.1,
)
