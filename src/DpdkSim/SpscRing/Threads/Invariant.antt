-- ===== src/DpdkSim/SpscRing/Threads/Invariant.antt =====
-- What holds between any two steps of the threads, and what the log tells of the ring.
use ebpf_system_monitor.Base.{
  ℕ, ◌+◌, ◌-◌, ◌^◌, ◌<◌, ◌≤◌, ◌≡◌, min, Option, none, some, List, [], ◌∷◌, ◌++◌, sub64, length,
  take, drop,
}
use ebpf_system_monitor.DpdkSim.SpscRing.Window.{window}
use ebpf_system_monitor.DpdkSim.SpscRing.Valid.{IsValid, contents}
use ebpf_system_monitor.DpdkSim.SpscRing.Threads.{
  Producer, Consumer, Entry, refuses, measures, sends, finds_none, collects, receives, System,
}

-- A bounded queue that ends as `q` can have answered so. A count, and an answer that it is full or empty,
-- is that of the queue at the load, but for the `lag` items by which the loaded value was old; without lag
-- it is exact.
abbrev pub Explains : {A : Type 0} → ℕ → List (Entry A) → List A → Type 0
Explains c [] q = q ≡ []
Explains c (refuses lag ∷ log) q = (c ≤ length q + lag) × Explains c log q
Explains c (measures n cnt lag ∷ log) q =
    (length q + lag ≤ c) × (cnt ≡ min n (c - (length q + lag))) × Explains c log q
Explains {A} c (sends xs ∷ log) q =
    (old : List A) × (q ≡ old ++ xs) × (length q ≤ c) × Explains c log old
Explains c (finds_none lag ∷ log) q = (length q ≡ lag) × Explains c log q
Explains c (collects n cnt lag ∷ log) q =
    (lag ≤ length q) × (cnt ≡ min n (length q - lag)) × Explains c log q
Explains c (receives xs ∷ log) q = Explains c log (xs ++ q)

module _ {A : Type 0} (c : ℕ) (blank : A) where
  -- The producer's variables against the slots, `head_`, and the value of `tail_` that it got last.
  abbrev pub Produces : Producer A → List A → ℕ → ℕ → Type 0
  Produces Producer.idle slots head seen = Unit {0}
  Produces (Producer.enqueue_checks item h) slots head seen = h ≡ head
  Produces (Producer.enqueue_stores item h) slots head seen = (h ≡ head) × (sub64 head seen < c)
  Produces (Producer.enqueue_publishes item h) slots head seen =
      (h ≡ head) × (sub64 head seen < c) × (window c blank slots head 1 ≡ item ∷ [])
  Produces (Producer.burst_checks items h) slots head seen = h ≡ head
  Produces (Producer.burst_stores items h cnt i rest left) slots head seen =
      (h ≡ head)
      × (sub64 head seen + cnt ≤ c)
      × (cnt ≤ length items)
      × (i + left ≡ cnt)
      × (rest ≡ drop i items)
      × (window c blank slots head i ≡ take i items)

  -- The consumer's variables against the slots, `tail_`, and the value of `head_` that it got last.
  abbrev pub Consumes : Consumer A → List A → ℕ → ℕ → Type 0
  Consumes Consumer.idle slots tail seen = Unit {0}
  Consumes (Consumer.dequeue_checks t) slots tail seen = t ≡ tail
  Consumes (Consumer.dequeue_loads t) slots tail seen = (t ≡ tail) × (0 < sub64 seen tail)
  Consumes (Consumer.dequeue_publishes t item) slots tail seen =
      (t ≡ tail) × (0 < sub64 seen tail) × (window c blank slots tail 1 ≡ item ∷ [])
  Consumes (Consumer.burst_checks n t) slots tail seen = t ≡ tail
  Consumes (Consumer.burst_loads t cnt i items left) slots tail seen =
      (t ≡ tail)
      × (cnt ≤ sub64 seen tail)
      × (i + left ≡ cnt)
      × (window c blank slots tail i ≡ items)

  -- The values that the threads got of each other's counters lie within the bounds that they rely on.
  pub record IsSound (s : System A) : Type 0 where
    pub valid : IsValid c s.ring
    pub seen_tail_fits : s.seen_tail < 2 ^ 64
    pub seen_head_fits : s.seen_head < 2 ^ 64
    pub room : sub64 s.ring.head s.ring.tail + sub64 s.ring.tail s.seen_tail ≤ c
    pub items : sub64 s.seen_head s.ring.tail ≤ sub64 s.ring.head s.ring.tail
    pub produces : Produces s.producer s.ring.slots s.ring.head s.seen_tail
    pub consumes : Consumes s.consumer s.ring.slots s.ring.tail s.seen_head
    pub explained : Explains c s.log (contents c blank s.ring)

abbrev pub After {ℓ} : {A : Type 0} → (System A → Type ℓ) → Option (System A) → Type ℓ
After P none = Unit
After P (some s) = P s
