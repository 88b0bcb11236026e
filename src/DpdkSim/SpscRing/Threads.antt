-- ===== src/DpdkSim/SpscRing/Threads.antt =====
-- src/dpdk_sim/spsc_ring.h with its two threads: each load and store of a method is a step, and the steps
-- of the threads come in any order. A thread reads its own counter as it is. Of the other's it may get an
-- older value, `lag` items back, but none older than what it got before: this is what the memory
-- orders leave open. `log` is what has happened, newest first.
pub mod Invariant
pub mod Stores
pub mod Storing
pub mod Producing
pub mod Consuming
pub mod Interleaving
pub mod Races
pub mod Order
pub mod Progress
pub mod Returns
pub mod TwoProducers
pub mod Sizes
mod Tests
use ebpf_system_monitor.Base.{
  ℕ, zero, suc, ◌+◌, bit_and, Bool, true, false, Option, none, some, List, [], ◌∷◌, ◌++◌, leb, ltb,
  ◌==◌, if◌then◌else◌, add64, sub64, length, get_or, set, take,
}
use ebpf_system_monitor.DpdkSim.SpscRing.{SpscRing, init, mask}

-- Where the producer stands, with the local variables; `h` is the value of `head_` it has read.
pub data Producer (A : Type 0) : Type 0 where
  idle : Producer A
  enqueue_checks : (item : A) (h : ℕ) → Producer A  -- before `tail_.load`
  enqueue_stores : (item : A) (h : ℕ) → Producer A
  enqueue_publishes : (item : A) (h : ℕ) → Producer A  -- before `head_.store`
  burst_checks : (items : List A) (h : ℕ) → Producer A
  -- in round `i`, with the items and the rounds left; without rounds, before `head_.store`
  burst_stores : (items : List A) (h cnt i : ℕ) (rest : List A) (left : ℕ) → Producer A

-- Where the consumer stands; `t` is the value of `tail_` it has read.
pub data Consumer (A : Type 0) : Type 0 where
  idle : Consumer A
  dequeue_checks : (t : ℕ) → Consumer A  -- before `head_.load`
  dequeue_loads : (t : ℕ) → Consumer A
  dequeue_publishes : (t : ℕ) (item : A) → Consumer A  -- before `tail_.store`
  burst_checks : (n t : ℕ) → Consumer A
  burst_loads : (t cnt i : ℕ) (items : List A) (left : ℕ) → Consumer A

-- What the calls have returned so far, at the step that fixes it.
pub data Entry (A : Type 0) : Type 0 where
  refuses : (lag : ℕ) → Entry A  -- `enqueue` returns false
  measures : (n cnt lag : ℕ) → Entry A  -- `enqueue_burst` fixes its count
  sends : (items : List A) → Entry A  -- `head_.store`
  finds_none : (lag : ℕ) → Entry A  -- `dequeue` returns false
  collects : (n cnt lag : ℕ) → Entry A  -- `dequeue_burst` fixes its count
  receives : (items : List A) → Entry A  -- `tail_.store`

-- `seen_tail` and `seen_head` are the values that the threads got last from the other's counter.
pub record System (A : Type 0) : Type 0 where
  pub ring : SpscRing A
  pub seen_tail : ℕ
  pub seen_head : ℕ
  pub producer : Producer A
  pub consumer : Consumer A
  pub log : List (Entry A)

pub data Move (A : Type 0) : Type 0 where
  calls_enqueue : A → Move A
  calls_enqueue_burst : List A → Move A
  produces : (lag : ℕ) → Move A
  calls_dequeue : Move A
  calls_dequeue_burst : (n : ℕ) → Move A
  consumes : (lag : ℕ) → Move A

module _ {A : Type 0} (c : ℕ) (blank : A) where
  unfoldable pub start : System A
  unfolding init
  start = record {
    ring = init c blank;
    seen_tail = 0;
    seen_head = 0;
    producer = Producer.idle;
    consumer = Consumer.idle;
    log = [];
  }

  -- A call begins with the load of the thread's own counter.
  abbrev pub begin_produce : Producer A → Producer A → System A → Option (System A)
  begin_produce Producer.idle next s = some (record s { producer = next })
  begin_produce other next s = none

  abbrev pub begin_consume : Consumer A → Consumer A → System A → Option (System A)
  begin_consume Consumer.idle next s = some (record s { consumer = next })
  begin_consume other next s = none

  -- `tail_.load` by the producer, `head_.load` by the consumer.
  abbrev pub load_tail : ℕ → System A → (ℕ → System A) → Option (System A)
  load_tail lag s next =
      if leb lag (sub64 s.ring.tail s.seen_tail) then some (next (sub64 s.ring.tail lag)) else none

  abbrev pub load_head : ℕ → System A → (ℕ → System A) → Option (System A)
  load_head lag s next =
      if leb lag (sub64 s.ring.head s.seen_head) then some (next (sub64 s.ring.head lag)) else none

  abbrev pub store_slot : ℕ → A → SpscRing A → SpscRing A
  store_slot i item r = record r { slots = set r.slots (bit_and i (mask c)) item }

  -- The next access of the producer.
  unfoldable pub produce : Producer A → ℕ → System A → Option (System A)
  produce Producer.idle lag s = none
  produce (Producer.enqueue_checks item h) lag s = load_tail lag s λ t.
      if leb c (sub64 h t)
      then record s { seen_tail = t; producer = Producer.idle; log = refuses lag ∷ s.log }
      else record s { seen_tail = t; producer = Producer.enqueue_stores item h }
  produce (Producer.enqueue_stores item h) lag s =
      some
        (record s { ring = store_slot h item s.ring; producer = Producer.enqueue_publishes item h })
  produce (Producer.enqueue_publishes item h) lag s = some (record s {
    ring = record s.ring { head = add64 h 1 };
    producer = Producer.idle;
    log = sends (item ∷ []) ∷ s.log;
  })
  produce (Producer.burst_checks items h) lag s = load_tail lag s λ t.
      let free = sub64 c (sub64 h t) in
      let cnt = if ltb (length items) free then length items else free in
      record s {
        seen_tail = t;
        producer = Producer.burst_stores items h cnt 0 items cnt;
        log = measures (length items) cnt lag ∷ s.log;
      }
  produce (Producer.burst_stores items h cnt i rest zero) lag s = some (record s {
    ring = record s.ring { head = add64 h cnt };
    producer = Producer.idle;
    log = sends (take cnt items) ∷ s.log;
  })
  produce (Producer.burst_stores items h cnt i [] (suc left)) lag s = none
  produce (Producer.burst_stores items h cnt i (x ∷ rest) (suc left)) lag s = some (record s {
    ring = store_slot (add64 h i) x s.ring;
    producer = Producer.burst_stores items h cnt (i + 1) rest left;
  })

  -- The next access of the consumer.
  unfoldable pub consume : Consumer A → ℕ → System A → Option (System A)
  consume Consumer.idle lag s = none
  consume (Consumer.dequeue_checks t) lag s = load_head lag s λ h.
      if t == h
      then record s { seen_head = h; consumer = Consumer.idle; log = finds_none lag ∷ s.log }
      else record s { seen_head = h; consumer = Consumer.dequeue_loads t }
  consume (Consumer.dequeue_loads t) lag s = some (record s {
    consumer = Consumer.dequeue_publishes t (get_or s.ring.slots (bit_and t (mask c)) blank);
  })
  consume (Consumer.dequeue_publishes t item) lag s = some (record s {
    ring = record s.ring { tail = add64 t 1 };
    consumer = Consumer.idle;
    log = receives (item ∷ []) ∷ s.log;
  })
  consume (Consumer.burst_checks n t) lag s = load_head lag s λ h.
      let avail = sub64 h t in
      let cnt = if ltb n avail then n else avail in
      record s {
        seen_head = h;
        consumer = Consumer.burst_loads t cnt 0 [] cnt;
        log = collects n cnt lag ∷ s.log;
      }
  consume (Consumer.burst_loads t cnt i items zero) lag s = some (record s {
    ring = record s.ring { tail = add64 t cnt };
    consumer = Consumer.idle;
    log = receives items ∷ s.log;
  })
  consume (Consumer.burst_loads t cnt i items (suc left)) lag s = some (record s {
    consumer =
        Consumer.burst_loads t cnt (i + 1)
          (items ++ (get_or s.ring.slots (bit_and (add64 t i) (mask c)) blank ∷ [])) left;
  })

  -- `none`: the thread is not at such a step.
  unfoldable pub step : Move A → System A → Option (System A)
  unfolding produce consume
  step (calls_enqueue item) s =
      begin_produce s.producer (Producer.enqueue_checks item s.ring.head) s
  step (calls_enqueue_burst items) s =
      begin_produce s.producer (Producer.burst_checks items s.ring.head) s
  step (produces lag) s = produce s.producer lag s
  step calls_dequeue s = begin_consume s.consumer (Consumer.dequeue_checks s.ring.tail) s
  step (calls_dequeue_burst n) s = begin_consume s.consumer (Consumer.burst_checks n s.ring.tail) s
  step (consumes lag) s = consume s.consumer lag s

  unfoldable pub run : List (Move A) → System A → Option (System A)
  unfolding step
  run [] s = some s
  run (m ∷ ms) s = elim (step m s) [ none ↦ none | some t ↦ run ms t ]
