-- ===== src/DpdkSim/SpscRing/Threads/Races.antt =====
-- The slots that the threads are about to access.
use ebpf_system_monitor.Base.{
  ℕ, zero, suc, ◌+◌, ◌-◌, ◌%◌, ◌<◌, ◌≡◌, ◌≢◌, sym, ap, ◌∙◌, Option, none, some, List, [], ◌∷◌,
  arith, add64, sub64, bit_and,
}
use ebpf_system_monitor.DpdkSim.SpscRing.{mask}
use ebpf_system_monitor.DpdkSim.SpscRing.Capacity.{IsCapacity, mask_mod}
use ebpf_system_monitor.DpdkSim.SpscRing.Window.{apart}
use ebpf_system_monitor.DpdkSim.SpscRing.Valid.{slot_lem}
use ebpf_system_monitor.DpdkSim.SpscRing.Threads.{Producer, Consumer, System, Move, start, run}
use ebpf_system_monitor.DpdkSim.SpscRing.Threads.Invariant.{Produces, Consumes}
use ebpf_system_monitor.DpdkSim.SpscRing.Threads.Stores.{past_head}
use ebpf_system_monitor.DpdkSim.SpscRing.Threads.Interleaving.{run-IsSound}

module _ {A : Type 0} (c : ℕ) where
  -- The slot that the producer's next step writes, and that the consumer's next step reads.
  abbrev pub written : Producer A → Option ℕ
  written (Producer.enqueue_stores item h) = some (bit_and h (mask c))
  written (Producer.burst_stores items h cnt i (x ∷ rest) (suc left)) =
      some (bit_and (add64 h i) (mask c))
  written other = none

  abbrev pub read : Consumer A → Option ℕ
  read (Consumer.dequeue_loads t) = some (bit_and t (mask c))
  read (Consumer.burst_loads t cnt i items (suc left)) = some (bit_and (add64 t i) (mask c))
  read other = none

module _ {A : Type 0} {c : ℕ} (cap : IsCapacity c) (blank : A) where
  slot_at : (p i j : ℕ) → bit_and (add64 p i) (mask c) ≡ j → j ≡ (p + i) % c
  slot_at p i j e = sym e ∙ slot_lem cap p i

  slot_first : (p j : ℕ) → bit_and p (mask c) ≡ j → j ≡ (p + 0) % c
  slot_first p j e =
      sym e ∙ mask_mod cap p ∙ ap (λ (x : ℕ). x % c) (let e' : p ≡ p + 0 = omega arith in e')

  written_lem :
      (pos : Producer A) (slots : List A) (head seen j : ℕ)
      → Produces c blank pos slots head seen
      → written c pos ≡ some j
      → (i : ℕ) × (sub64 head seen + i < c) × (j ≡ (head + i) % c)
  written_lem Producer.idle slots head seen j h e = cc
  written_lem (Producer.enqueue_checks x k) slots head seen j h e = cc
  written_lem (Producer.enqueue_stores x k) slots head seen j (h, free) e =
      (0, omega arith, slot_first head j (cc))
  written_lem (Producer.enqueue_publishes x k) slots head seen j h e = cc
  written_lem (Producer.burst_checks xs k) slots head seen j h e = cc
  written_lem (Producer.burst_stores xs k cnt i [] left) slots head seen j h e = cc
  written_lem (Producer.burst_stores xs k cnt i (x ∷ rest) zero) slots head seen j h e = cc
  written_lem (Producer.burst_stores xs k cnt i (x ∷ rest) (suc left)) slots head seen j
        (h, free, enough, count, over, stored) e =
      (i, omega arith, slot_at head i j (cc))

  read_lem :
      (pos : Consumer A) (slots : List A) (tail seen j : ℕ)
      → Consumes c blank pos slots tail seen
      → read c pos ≡ some j
      → (i : ℕ) × (i < sub64 seen tail) × (j ≡ (tail + i) % c)
  read_lem Consumer.idle slots tail seen j h e = cc
  read_lem (Consumer.dequeue_checks t) slots tail seen j h e = cc
  read_lem (Consumer.dequeue_loads t) slots tail seen j (h, left) e =
      (0, left, slot_first tail j (cc))
  read_lem (Consumer.dequeue_publishes t x) slots tail seen j h e = cc
  read_lem (Consumer.burst_checks n t) slots tail seen j h e = cc
  read_lem (Consumer.burst_loads t cnt i xs zero) slots tail seen j h e = cc
  read_lem (Consumer.burst_loads t cnt i xs (suc left)) slots tail seen j (h, inside, count, loaded)
        e =
      (i, omega arith, slot_at tail i j (cc))

  -- In every state that the threads reach, the slot that the producer writes next is not the one that the
  -- consumer reads next, though `data_` is not atomic and a thread may know the other's counter late.
  pub no_race :
      (ms : List (Move A)) (s : System A) (i j : ℕ)
      → run c blank ms (start c blank) ≡ some s
      → written c s.producer ≡ some i
      → read c s.consumer ≡ some j
      → i ≢ j
  no_race ms s i j r w l same =
      let v = run-IsSound cap blank ms s r in
      let (m, room, at) =
        written_lem s.producer s.ring.slots s.ring.head s.seen_tail i v.produces w in
      let (n, inside, from) =
        read_lem s.consumer s.ring.slots s.ring.tail s.seen_head j v.consumes l in
      let valid = v.valid in
      let a = sub64 s.ring.head s.ring.tail in
      let known : sub64 s.ring.head s.seen_tail ≡ a + sub64 s.ring.tail s.seen_tail =
        omega (arith, valid.head_fits, valid.tail_fits, v.seen_tail_fits, v.room, cap.fits) in
      let before : n < a = omega (arith, v.items) in
      let far : s.ring.tail + n + (a + m - n) ≡ s.ring.tail + a + m = omega arith in
      apart c (s.ring.tail + n) (a + m - n) (omega arith) (omega arith) (
        ap (λ (x : ℕ). x % c) far ∙ sym (past_head cap blank s.ring m valid) ∙ sym at ∙ same ∙ from)
