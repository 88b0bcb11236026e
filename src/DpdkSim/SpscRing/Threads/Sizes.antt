-- ===== src/DpdkSim/SpscRing/Threads/Sizes.antt =====
-- `size` and `full`, called by a thread that is neither the producer nor the consumer: it loads `head_` in
-- one state and `tail_` in another, in whichever order the compiler has put the two loads.
use ebpf_system_monitor.Base.{
  ℕ, zero, suc, ◌+◌, ◌-◌, ◌%◌, ◌^◌, ◌<◌, ◌≤◌, ◌≡◌, refl, sym, ap, ◌∙◌, subst, none, some,
  Option-cases, inl, inr, Bool, ◌||◌, List, [], ◌∷◌, arith, leb, ltb, if◌then◌else◌, length,
  length-append, sub64,
}
use ebpf_system_monitor.DpdkSim.SpscRing.{init}
use ebpf_system_monitor.DpdkSim.SpscRing.Capacity.{IsCapacity}
use ebpf_system_monitor.DpdkSim.SpscRing.Window.{length-window}
use ebpf_system_monitor.DpdkSim.SpscRing.Valid.{contents}
use ebpf_system_monitor.DpdkSim.SpscRing.Threads.{
  Producer, Consumer, System, Move, calls_enqueue, calls_enqueue_burst, produces, calls_dequeue,
  calls_dequeue_burst, consumes, start, begin_produce, begin_consume, produce, consume, step, run,
}
use ebpf_system_monitor.DpdkSim.SpscRing.Threads.Invariant.{Consumes, IsSound, After}
use ebpf_system_monitor.DpdkSim.SpscRing.Threads.Interleaving.{
  start-IsSound, step-IsSound, run-IsSound,
}
use ebpf_system_monitor.DpdkSim.SpscRing.Threads.Order.{sent, received, first_in_first_out}

-- `s` is the state in which `head_` is loaded, `t` that of the load of `tail_`.
unfoldable pub observed_size : {A : Type 0} → System A → System A → ℕ
observed_size s t = sub64 s.ring.head t.ring.tail

unfoldable pub observed_full : {A : Type 0} → ℕ → System A → System A → Bool
unfolding observed_size
observed_full capacity s t = leb capacity (observed_size s t)

module _ {A : Type 0} where
  abbrev number_sent : System A → ℕ
  number_sent s = length (sent s.log)

  abbrev number_received : System A → ℕ
  number_received s = length (received s.log)

module _ {A : Type 0} (c : ℕ) (blank : A) where
  produce_keeps :
      (pos : Producer A) (lag : ℕ) (s t : System A)
      → produce c blank pos lag s ≡ some t
      → (t.ring.tail ≡ s.ring.tail) × (number_received t ≡ number_received s)
  unfolding produce
  produce_keeps Producer.idle lag s t e = cc
  produce_keeps (Producer.enqueue_checks x h) lag s t e = ground arith
  produce_keeps (Producer.enqueue_stores x h) lag s t e = ground arith
  produce_keeps (Producer.enqueue_publishes x h) lag s t e = ground arith
  produce_keeps (Producer.burst_checks xs h) lag s t e = ground arith
  produce_keeps (Producer.burst_stores xs h cnt i rest zero) lag s t e = ground arith
  produce_keeps (Producer.burst_stores xs h cnt i [] (suc left)) lag s t e = cc
  produce_keeps (Producer.burst_stores xs h cnt i (x ∷ rest) (suc left)) lag s t e = ground arith

  consume_counts :
      (pos : Consumer A) (lag : ℕ) (s t : System A)
      → consume c blank pos lag s ≡ some t
      → Consumes c blank pos s.ring.slots s.ring.tail s.seen_head
      → s.ring.tail ≡ number_received s % 2 ^ 64
      → t.ring.tail ≡ number_received t % 2 ^ 64
  unfolding consume
  consume_counts Consumer.idle lag s t e h k = cc
  consume_counts (Consumer.dequeue_checks p) lag s t e h k = ground arith
  consume_counts (Consumer.dequeue_loads p) lag s t e h k = ground arith
  consume_counts (Consumer.dequeue_publishes p x) lag s t e h k =
      ground (arith, length-append (received s.log) (x ∷ []))
  consume_counts (Consumer.burst_checks n p) lag s t e h k = ground arith
  consume_counts (Consumer.burst_loads p cnt i xs zero) lag s t e (at, inside, count, loaded) k =
      ground (
        arith,
        length-append (received s.log) xs,
        length-window c blank s.ring.slots s.ring.tail i,
        ap length loaded,
      )
  consume_counts (Consumer.burst_loads p cnt i xs (suc left)) lag s t e h k = ground arith

  -- `tail_` is the number of items received, modulo 2 ^ 64.
  abbrev IsCounted : System A → Type 0
  IsCounted s = s.ring.tail ≡ number_received s % 2 ^ 64

  begin_produce-IsCounted :
      (pos next : Producer A) (s t : System A)
      → begin_produce c blank pos next s ≡ some t
      → IsCounted s
      → IsCounted t
  begin_produce-IsCounted Producer.idle next s t e k = ground arith
  begin_produce-IsCounted (Producer.enqueue_checks x h) next s t e k = cc
  begin_produce-IsCounted (Producer.enqueue_stores x h) next s t e k = cc
  begin_produce-IsCounted (Producer.enqueue_publishes x h) next s t e k = cc
  begin_produce-IsCounted (Producer.burst_checks xs h) next s t e k = cc
  begin_produce-IsCounted (Producer.burst_stores xs h cnt i rest left) next s t e k = cc

  begin_consume-IsCounted :
      (pos next : Consumer A) (s t : System A)
      → begin_consume c blank pos next s ≡ some t
      → IsCounted s
      → IsCounted t
  begin_consume-IsCounted Consumer.idle next s t e k = ground arith
  begin_consume-IsCounted (Consumer.dequeue_checks p) next s t e k = cc
  begin_consume-IsCounted (Consumer.dequeue_loads p) next s t e k = cc
  begin_consume-IsCounted (Consumer.dequeue_publishes p x) next s t e k = cc
  begin_consume-IsCounted (Consumer.burst_checks n p) next s t e k = cc
  begin_consume-IsCounted (Consumer.burst_loads p cnt i xs left) next s t e k = cc

module _ {A : Type 0} {c : ℕ} (cap : IsCapacity c) (blank : A) where
  step-IsCounted :
      (m : Move A) (s t : System A)
      → step c blank m s ≡ some t
      → IsSound c blank s
      → IsCounted c blank s
      → IsCounted c blank t
  unfolding step
  step-IsCounted (calls_enqueue x) s t e v k = begin_produce-IsCounted c blank s.producer _ s t e k
  step-IsCounted (calls_enqueue_burst xs) s t e v k =
      begin_produce-IsCounted c blank s.producer _ s t e k
  step-IsCounted (produces lag) s t e v k =
      let kept = produce_keeps c blank s.producer lag s t e in
      kept.0 ∙ k ∙ ap (λ (n : ℕ). n % 2 ^ 64) (sym kept.1)
  step-IsCounted calls_dequeue s t e v k = begin_consume-IsCounted c blank s.consumer _ s t e k
  step-IsCounted (calls_dequeue_burst n) s t e v k =
      begin_consume-IsCounted c blank s.consumer _ s t e k
  step-IsCounted (consumes lag) s t e v k = consume_counts c blank s.consumer lag s t e v.consumes k

  run-IsCounted :
      (ms : List (Move A)) (s t : System A)
      → run c blank ms s ≡ some t
      → IsSound c blank s
      → IsCounted c blank s
      → IsCounted c blank t
  unfolding run
  run-IsCounted [] s t r v k = let same : s ≡ t = cc in subst (IsCounted c blank) same k
  run-IsCounted (m ∷ ms) s t r v k = elim (Option-cases (step c blank m s)) [
    | inl n ↦ let r' : none ≡ some t = rw (n, run) at r in cc
    | inr (u, go) ↦
        run-IsCounted ms u t (rw (go, run) at r) (step_keeps m s u go v)
          (step-IsCounted m s u go v k)
  ]
    where
      step_keeps :
          (m : Move A) (s u : System A)
          → step c blank m s ≡ some u
          → IsSound c blank s
          → IsSound c blank u
      step_keeps m s u go v = subst (After (IsSound c blank)) go (step-IsSound cap blank m s v)

  -- In the states that the threads reach, the counters are the numbers of the items received and sent.
  counters :
      (ms : List (Move A)) (s : System A)
      → run c blank ms (start c blank) ≡ some s
      → (s.ring.tail ≡ number_received s % 2 ^ 64) × (s.ring.head ≡ number_sent s % 2 ^ 64)
  unfolding start init
  counters ms s r =
      let v = run-IsSound cap blank ms s r in
      let tail = run-IsCounted ms (start c blank) s r (start-IsSound cap blank) refl in
      let valid = v.valid in
      (
        tail,
        omega (
          arith,
          tail,
          valid.head_fits,
          valid.tail_fits,
          ap length (first_in_first_out cap blank ms s r),
          length-append (received s.log) (contents c blank s.ring),
          length-window c blank s.ring.slots s.ring.tail (sub64 s.ring.head s.ring.tail),
        ),
      )

  -- If the ring has taken and given fewer than 2 ^ 64 items, by a margin of its capacity, `size` counts for
  -- another thread the items that have been sent when it loads `head_`, less those that have been
  -- received when it loads `tail_`; if the latter are more, it is 2 ^ 64 less their excess, and `full`
  -- answers true.
  pub observed_size_lem :
      (ms ns : List (Move A)) (s t : System A)
      → run c blank ms (start c blank) ≡ some s
      → run c blank ns (start c blank) ≡ some t
      → length (sent s.log) < 2 ^ 64
      → length (received t.log) + c ≤ 2 ^ 64
      → (observed_size s t ≡ (
          if ltb (length (sent s.log)) (length (received t.log))
          then 2 ^ 64 - (length (received t.log) - length (sent s.log))
          else length (sent s.log) - length (received t.log)))
        × (observed_full c s t ≡ (
            ltb (length (sent s.log)) (length (received t.log))
            || leb (length (received t.log) + c) (length (sent s.log))))
  unfolding observed_size observed_full
  observed_size_lem ms ns s t r q few fewer =
      let head = (counters ms s r).1 in
      let tail = (counters ns t q).0 in
      let pos = cap.positive in (ground (arith, head, tail), ground (arith, head, tail))
