-- ===== src/DpdkSim/SpscRing/Threads/Returns.antt =====
-- No call waits for the other thread.
use ebpf_system_monitor.Base.{
  ℕ, zero, suc, ◌+◌, ◌≤◌, ◌≡◌, ◌⊎◌, inl, inr, refl, ap, none, some, Option-cases, List, [], ◌∷◌,
  arith,
}
use ebpf_system_monitor.DpdkSim.SpscRing.Capacity.{IsCapacity}
use ebpf_system_monitor.DpdkSim.SpscRing.Threads.{
  System, Move, calls_enqueue, calls_enqueue_burst, produces, calls_dequeue, calls_dequeue_burst,
  consumes, start, step, run,
}
use ebpf_system_monitor.DpdkSim.SpscRing.Threads.Interleaving.{run-IsSound, run-keeps}
use ebpf_system_monitor.DpdkSim.SpscRing.Threads.Progress.{
  producer_left, consumer_left, produce_left, consume_left, can_produce, can_consume,
  begin_produce_keeps, begin_consume_keeps,
}

-- How many steps of a thread a list of moves has.
abbrev pub produced : {A : Type 0} → List (Move A) → ℕ
produced [] = 0
produced (produces lag ∷ ms) = suc (produced ms)
produced (calls_enqueue x ∷ ms) = produced ms
produced (calls_enqueue_burst xs ∷ ms) = produced ms
produced (calls_dequeue ∷ ms) = produced ms
produced (calls_dequeue_burst n ∷ ms) = produced ms
produced (consumes lag ∷ ms) = produced ms

abbrev pub consumed : {A : Type 0} → List (Move A) → ℕ
consumed [] = 0
consumed (consumes lag ∷ ms) = suc (consumed ms)
consumed (calls_enqueue x ∷ ms) = consumed ms
consumed (calls_enqueue_burst xs ∷ ms) = consumed ms
consumed (calls_dequeue ∷ ms) = consumed ms
consumed (calls_dequeue_burst n ∷ ms) = consumed ms
consumed (produces lag ∷ ms) = consumed ms

-- No call begins on the producer's side, or on the consumer's.
abbrev pub NoSending : {A : Type 0} → List (Move A) → Type 0
NoSending [] = Unit {0}
NoSending (calls_enqueue x ∷ ms) = ⊥
NoSending (calls_enqueue_burst xs ∷ ms) = ⊥
NoSending (produces lag ∷ ms) = NoSending ms
NoSending (calls_dequeue ∷ ms) = NoSending ms
NoSending (calls_dequeue_burst n ∷ ms) = NoSending ms
NoSending (consumes lag ∷ ms) = NoSending ms

abbrev pub NoReceiving : {A : Type 0} → List (Move A) → Type 0
NoReceiving [] = Unit {0}
NoReceiving (calls_dequeue ∷ ms) = ⊥
NoReceiving (calls_dequeue_burst n ∷ ms) = ⊥
NoReceiving (consumes lag ∷ ms) = NoReceiving ms
NoReceiving (calls_enqueue x ∷ ms) = NoReceiving ms
NoReceiving (calls_enqueue_burst xs ∷ ms) = NoReceiving ms
NoReceiving (produces lag ∷ ms) = NoReceiving ms

module _ {A : Type 0} {c : ℕ} (cap : IsCapacity c) (blank : A) where
  -- The first move of a run, and the rest.
  run-cons :
      (m : Move A) (ms : List (Move A)) (s t : System A)
      → run c blank (m ∷ ms) s ≡ some t
      → (u : System A) × (step c blank m s ≡ some u) × (run c blank ms u ≡ some t)
  unfolding run
  run-cons m ms s t r = elim (Option-cases (step c blank m s)) [
    | inl n ↦ let r' : none ≡ some t = rw (n, run) at r in cc
    | inr (u, go) ↦ (u, go, rw (go, run) at r)
  ]

  producer_bound :
      (ms : List (Move A)) (s t : System A)
      → NoSending ms
      → run c blank ms s ≡ some t
      → produced ms + producer_left t.producer ≤ producer_left s.producer
  unfolding run step
  producer_bound [] s t quiet r =
      let e : s ≡ t = cc in omega (arith, ap (λ (u : System A). producer_left u.producer) e)
  producer_bound (calls_enqueue x ∷ ms) s t quiet r = absurd quiet
  producer_bound (calls_enqueue_burst xs ∷ ms) s t quiet r = absurd quiet
  producer_bound (produces lag ∷ ms) s t quiet r =
      let (u, go, rest) = run-cons (produces lag) ms s t r in
      omega
        (arith, producer_bound ms u t quiet rest, (produce_left c blank s.producer lag s u go).0)
  producer_bound (calls_dequeue ∷ ms) s t quiet r =
      let (u, go, rest) = run-cons calls_dequeue ms s t r in
      omega (
        arith,
        producer_bound ms u t quiet rest,
        ap producer_left (begin_consume_keeps c blank s.consumer _ s u go),
      )
  producer_bound (calls_dequeue_burst n ∷ ms) s t quiet r =
      let (u, go, rest) = run-cons (calls_dequeue_burst n) ms s t r in
      omega (
        arith,
        producer_bound ms u t quiet rest,
        ap producer_left (begin_consume_keeps c blank s.consumer _ s u go),
      )
  producer_bound (consumes lag ∷ ms) s t quiet r =
      let (u, go, rest) = run-cons (consumes lag) ms s t r in
      omega (
        arith,
        producer_bound ms u t quiet rest,
        ap producer_left (consume_left c blank s.consumer lag s u go).1,
      )

  consumer_bound :
      (ms : List (Move A)) (s t : System A)
      → NoReceiving ms
      → run c blank ms s ≡ some t
      → consumed ms + consumer_left t.consumer ≤ consumer_left s.consumer
  unfolding run step
  consumer_bound [] s t quiet r =
      let e : s ≡ t = cc in omega (arith, ap (λ (u : System A). consumer_left u.consumer) e)
  consumer_bound (calls_dequeue ∷ ms) s t quiet r = absurd quiet
  consumer_bound (calls_dequeue_burst n ∷ ms) s t quiet r = absurd quiet
  consumer_bound (consumes lag ∷ ms) s t quiet r =
      let (u, go, rest) = run-cons (consumes lag) ms s t r in
      omega
        (arith, consumer_bound ms u t quiet rest, (consume_left c blank s.consumer lag s u go).0)
  consumer_bound (calls_enqueue x ∷ ms) s t quiet r =
      let (u, go, rest) = run-cons (calls_enqueue x) ms s t r in
      omega (
        arith,
        consumer_bound ms u t quiet rest,
        ap consumer_left (begin_produce_keeps c blank s.producer _ s u go),
      )
  consumer_bound (calls_enqueue_burst xs ∷ ms) s t quiet r =
      let (u, go, rest) = run-cons (calls_enqueue_burst xs) ms s t r in
      omega (
        arith,
        consumer_bound ms u t quiet rest,
        ap consumer_left (begin_produce_keeps c blank s.producer _ s u go),
      )
  consumer_bound (produces lag ∷ ms) s t quiet r =
      let (u, go, rest) = run-cons (produces lag) ms s t r in
      omega (
        arith,
        consumer_bound ms u t quiet rest,
        ap consumer_left (produce_left c blank s.producer lag s u go).1,
      )

  -- A producer's call returns within a bounded number of its own steps, whatever the consumer does in
  -- between, and until it has returned its next step can always be taken.
  pub producer_returns :
      (before ms : List (Move A)) (s t : System A)
      → run c blank before (start c blank) ≡ some s
      → NoSending ms
      → run c blank ms s ≡ some t
      → (produced ms + producer_left t.producer ≤ producer_left s.producer)
        × ((producer_left t.producer ≡ 0)
            ⊎ ((u : System A) × (step c blank (produces 0) t ≡ some u)))
  unfolding step
  producer_returns before ms s t r quiet more =
      (producer_bound ms s t quiet more, next (producer_left t.producer) refl)
    where
      next :
          (n : ℕ)
          → producer_left t.producer ≡ n
          → (producer_left t.producer ≡ 0)
            ⊎ ((u : System A) × (step c blank (produces 0) t ≡ some u))
      next zero e = inl e
      next (suc n) e =
          let v = run-keeps cap blank ms s t more (run-IsSound cap blank before s r) in
          inr (can_produce c blank t.producer t v.produces (omega arith))

  -- So does a consumer's call, whatever the producer does.
  pub consumer_returns :
      (ms : List (Move A)) (s t : System A)
      → NoReceiving ms
      → run c blank ms s ≡ some t
      → (consumed ms + consumer_left t.consumer ≤ consumer_left s.consumer)
        × ((consumer_left t.consumer ≡ 0)
            ⊎ ((u : System A) × (step c blank (consumes 0) t ≡ some u)))
  unfolding step
  consumer_returns ms s t quiet more =
      (consumer_bound ms s t quiet more, next (consumer_left t.consumer) refl)
    where
      next :
          (n : ℕ)
          → consumer_left t.consumer ≡ n
          → (consumer_left t.consumer ≡ 0)
            ⊎ ((u : System A) × (step c blank (consumes 0) t ≡ some u))
      next zero e = inl e
      next (suc n) e = inr (can_consume c blank t.consumer t (omega arith))
