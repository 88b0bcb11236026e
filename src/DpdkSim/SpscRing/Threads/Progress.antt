-- ===== src/DpdkSim/SpscRing/Threads/Progress.antt =====
-- Each step of a thread brings its call nearer to its end, and can be taken.
use ebpf_system_monitor.Base.{
  ℕ, zero, suc, ◌+◌, ◌<◌, ◌≤◌, ◌≡◌, refl, ap, none, some, [], ◌∷◌, arith, length, leb,
  if◌then◌else◌, length-drop,
}
use ebpf_system_monitor.DpdkSim.SpscRing.Threads.{
  Producer, Consumer, System, begin_consume, begin_produce, produce, consume,
}
use ebpf_system_monitor.DpdkSim.SpscRing.Threads.Invariant.{Produces}

module _ {A : Type 0} where
  -- A bound on the steps that a call has before it.
  abbrev pub producer_left : Producer A → ℕ
  producer_left Producer.idle = 0
  producer_left (Producer.enqueue_checks item h) = 3
  producer_left (Producer.enqueue_stores item h) = 2
  producer_left (Producer.enqueue_publishes item h) = 1
  producer_left (Producer.burst_checks items h) = length items + 2
  producer_left (Producer.burst_stores items h cnt i rest left) = left + 1

  abbrev pub consumer_left : Consumer A → ℕ
  consumer_left Consumer.idle = 0
  consumer_left (Consumer.dequeue_checks t) = 3
  consumer_left (Consumer.dequeue_loads t) = 2
  consumer_left (Consumer.dequeue_publishes t item) = 1
  consumer_left (Consumer.burst_checks n t) = n + 2
  consumer_left (Consumer.burst_loads t cnt i items left) = left + 1

module _ {A : Type 0} (c : ℕ) (blank : A) where
  -- A step of the producer takes it nearer to its return, and leaves the consumer where it is.
  pub produce_left :
      (pos : Producer A) (lag : ℕ) (s t : System A)
      → produce c blank pos lag s ≡ some t
      → (suc (producer_left t.producer) ≤ producer_left pos) × (t.consumer ≡ s.consumer)
  unfolding produce
  produce_left Producer.idle lag s t e = cc
  produce_left (Producer.enqueue_checks x h) lag s t e = ground arith
  produce_left (Producer.enqueue_stores x h) lag s t e = ground arith
  produce_left (Producer.enqueue_publishes x h) lag s t e = ground arith
  produce_left (Producer.burst_checks xs h) lag s t e = ground arith
  produce_left (Producer.burst_stores xs h cnt i rest zero) lag s t e = ground arith
  produce_left (Producer.burst_stores xs h cnt i [] (suc left)) lag s t e = cc
  produce_left (Producer.burst_stores xs h cnt i (x ∷ rest) (suc left)) lag s t e = ground arith

  pub consume_left :
      (pos : Consumer A) (lag : ℕ) (s t : System A)
      → consume c blank pos lag s ≡ some t
      → (suc (consumer_left t.consumer) ≤ consumer_left pos) × (t.producer ≡ s.producer)
  unfolding consume
  consume_left Consumer.idle lag s t e = cc
  consume_left (Consumer.dequeue_checks k) lag s t e = ground arith
  consume_left (Consumer.dequeue_loads k) lag s t e = ground arith
  consume_left (Consumer.dequeue_publishes k x) lag s t e = ground arith
  consume_left (Consumer.burst_checks n k) lag s t e = ground arith
  consume_left (Consumer.burst_loads k cnt i xs zero) lag s t e = ground arith
  consume_left (Consumer.burst_loads k cnt i xs (suc left)) lag s t e = ground arith

  -- A load of the other's counter always gives something: its present value.
  can_load : (n : ℕ) (u : System A) → (t : System A) × ((if leb 0 n then some u else none) ≡ some t)
  can_load n u = (u, ground arith)

  pub can_produce :
      (pos : Producer A) (s : System A)
      → Produces c blank pos s.ring.slots s.ring.head s.seen_tail
      → 0 < producer_left pos
      → (t : System A) × (produce c blank pos 0 s ≡ some t)
  unfolding produce
  can_produce Producer.idle s h busy = absurd (omega arith)
  can_produce (Producer.enqueue_checks x k) s h busy = can_load _ _
  can_produce (Producer.enqueue_stores x k) s h busy = (_, refl)
  can_produce (Producer.enqueue_publishes x k) s h busy = (_, refl)
  can_produce (Producer.burst_checks xs k) s h busy = can_load _ _
  can_produce (Producer.burst_stores xs k cnt i rest zero) s h busy = (_, refl)
  can_produce (Producer.burst_stores xs k cnt i [] (suc left)) s
        (h, free, enough, count, over, stored) busy =
      absurd (omega (arith, length-drop i xs, ap length over))
  can_produce (Producer.burst_stores xs k cnt i (x ∷ rest) (suc left)) s h busy = (_, refl)

  pub can_consume :
      (pos : Consumer A) (s : System A)
      → 0 < consumer_left pos
      → (t : System A) × (consume c blank pos 0 s ≡ some t)
  unfolding consume
  can_consume Consumer.idle s busy = absurd (omega arith)
  can_consume (Consumer.dequeue_checks k) s busy = can_load _ _
  can_consume (Consumer.dequeue_loads k) s busy = (_, refl)
  can_consume (Consumer.dequeue_publishes k x) s busy = (_, refl)
  can_consume (Consumer.burst_checks n k) s busy = can_load _ _
  can_consume (Consumer.burst_loads k cnt i xs zero) s busy = (_, refl)
  can_consume (Consumer.burst_loads k cnt i xs (suc left)) s busy = (_, refl)

  pub begin_produce_keeps :
      (pos next : Producer A) (s t : System A)
      → begin_produce c blank pos next s ≡ some t
      → t.consumer ≡ s.consumer
  begin_produce_keeps Producer.idle next s t e = cc
  begin_produce_keeps (Producer.enqueue_checks x h) next s t e = cc
  begin_produce_keeps (Producer.enqueue_stores x h) next s t e = cc
  begin_produce_keeps (Producer.enqueue_publishes x h) next s t e = cc
  begin_produce_keeps (Producer.burst_checks xs h) next s t e = cc
  begin_produce_keeps (Producer.burst_stores xs h cnt i rest left) next s t e = cc

  pub begin_consume_keeps :
      (pos next : Consumer A) (s t : System A)
      → begin_consume c blank pos next s ≡ some t
      → t.producer ≡ s.producer
  begin_consume_keeps Consumer.idle next s t e = cc
  begin_consume_keeps (Consumer.dequeue_checks k) next s t e = cc
  begin_consume_keeps (Consumer.dequeue_loads k) next s t e = cc
  begin_consume_keeps (Consumer.dequeue_publishes k x) next s t e = cc
  begin_consume_keeps (Consumer.burst_checks n k) next s t e = cc
  begin_consume_keeps (Consumer.burst_loads k cnt i xs left) next s t e = cc
