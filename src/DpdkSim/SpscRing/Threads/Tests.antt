-- ===== src/DpdkSim/SpscRing/Threads/Tests.antt =====
-- The threads on a ring of two slots.
use ebpf_system_monitor.Base.{
  ℕ, ◌+◌, ◌-◌, ◌^◌, ◌≤◌, ◌≡◌, ◌≢◌, ◌⊎◌, refl, true, ◌||◌, ltb, leb, length, some, List, [], ◌∷◌,
  ◌++◌, arith, if◌then◌else◌,
}
use ebpf_system_monitor.DpdkSim.SpscRing.Valid.{contents, init-IsValid}
use ebpf_system_monitor.DpdkSim.SpscRing.Samples.{capacity_two}
use ebpf_system_monitor.DpdkSim.SpscRing.Threads.{
  Producer, Consumer, refuses, measures, sends, finds_none, collects, receives, System, Move,
  calls_enqueue, calls_enqueue_burst, produces, calls_dequeue, calls_dequeue_burst, consumes, start,
  step, run,
}
use ebpf_system_monitor.DpdkSim.SpscRing.Threads.Invariant.{Explains}
use ebpf_system_monitor.DpdkSim.SpscRing.Threads.Order.{
  sent, received, run-Explains, first_in_first_out,
}
use ebpf_system_monitor.DpdkSim.SpscRing.Threads.Races.{no_race}
use ebpf_system_monitor.DpdkSim.SpscRing.Threads.Progress.{producer_left}
use ebpf_system_monitor.DpdkSim.SpscRing.Threads.Returns.{produced, producer_returns}
use ebpf_system_monitor.DpdkSim.SpscRing.Threads.Sizes.{
  observed_size, observed_full, observed_size_lem,
}
use ebpf_system_monitor.DpdkSim.SpscRing.Threads.TwoProducers.{
  Pair, both_enqueue, side_by_side, two_producers_lose,
}

-- Two items are sent; the consumer has read the first one's slot while the producer, that does not
-- know of it, finds the ring full.
abbrev moves : List (Move ℕ)
moves =
    calls_enqueue_burst (7 ∷ 8 ∷ 9 ∷ [])
    ∷ produces 0
    ∷ calls_dequeue
    ∷ produces 0
    ∷ produces 0
    ∷ consumes 0
    ∷ calls_dequeue
    ∷ produces 0
    ∷ consumes 0
    ∷ calls_enqueue 9
    ∷ consumes 0
    ∷ consumes 0
    ∷ produces 1
    ∷ calls_enqueue 9
    ∷ produces 0
    ∷ calls_dequeue_burst 5
    ∷ consumes 0
    ∷ []

abbrev reached : System ℕ
reached = record {
  ring = record { head = 2; tail = 1; slots = 7 ∷ 8 ∷ [] };
  seen_tail = 1;
  seen_head = 2;
  producer = Producer.enqueue_stores 9 2;
  consumer = Consumer.burst_loads 1 1 0 [] 1;
  log =
      collects 5 1 0
      ∷ refuses 1
      ∷ receives (7 ∷ [])
      ∷ sends (7 ∷ 8 ∷ [])
      ∷ finds_none 0
      ∷ measures 3 2 0
      ∷ [];
}

moves-reached : run 2 0 moves (start 2 0) ≡ some reached
unfolding run start
moves-reached = refl

run-Explains_example : Explains 2 reached.log (contents 2 0 reached.ring)
run-Explains_example = run-Explains capacity_two 0 moves reached moves-reached

first_in_first_out_example : sent reached.log ≡ received reached.log ++ contents 2 0 reached.ring
first_in_first_out_example = first_in_first_out capacity_two 0 moves reached moves-reached

no_race_example : ◌≢◌ {A = ℕ} 0 1
no_race_example = no_race capacity_two 0 moves reached 0 1 moves-reached refl refl

abbrev further : System ℕ
further = record reached {
  ring = record { head = 2; tail = 2; slots = 9 ∷ 8 ∷ [] };
  producer = Producer.enqueue_publishes 9 2;
  consumer = Consumer.idle;
  log = receives (8 ∷ []) ∷ reached.log;
}

abbrev more_moves : List (Move ℕ)
more_moves = consumes 0 ∷ produces 0 ∷ consumes 0 ∷ []

reached-further : run 2 0 more_moves reached ≡ some further
unfolding run
reached-further = refl

producer_returns_example :
    (produced more_moves + producer_left further.producer ≤ producer_left reached.producer)
    × ((producer_left further.producer ≡ 0)
        ⊎ ((u : System ℕ) × (step 2 0 (produces 0) further ≡ some u)))
producer_returns_example =
    producer_returns capacity_two 0 moves more_moves reached further moves-reached tt
      reached-further

two_producers_lose_example :
    (t : Pair ℕ) × (side_by_side 2 0 (both_enqueue 2 0 5 6) (record {
      system = record (start 2 0) { producer = Producer.idle };
      second = Producer.idle;
    })
      ≡ some t)
    × (t.system.log ≡ sends (6 ∷ []) ∷ sends (5 ∷ []) ∷ (start 2 0).log)
    × (contents 2 0 t.system.ring ≡ contents 2 0 (start 2 0).ring ++ (6 ∷ []))
unfolding start
two_producers_lose_example =
    two_producers_lose capacity_two 0 5 6 (start 2 0) (init-IsValid 2 0) (omega arith)

-- An item comes and goes between the loads of `head_` and of `tail_`.
abbrev comes_and_goes : List (Move ℕ)
comes_and_goes =
    calls_enqueue 7
    ∷ produces 0
    ∷ produces 0
    ∷ produces 0
    ∷ calls_dequeue
    ∷ consumes 0
    ∷ consumes 0
    ∷ consumes 0
    ∷ []

abbrev gone : System ℕ
gone = record {
  ring = record { head = 1; tail = 1; slots = 7 ∷ 0 ∷ [] };
  seen_tail = 0;
  seen_head = 1;
  producer = Producer.idle;
  consumer = Consumer.idle;
  log = receives (7 ∷ []) ∷ sends (7 ∷ []) ∷ [];
}

gone-reached : run 2 0 comes_and_goes (start 2 0) ≡ some gone
unfolding run start
gone-reached = refl

abbrev no_steps : List (Move ℕ)
no_steps = []

abbrev fresh : System ℕ
fresh = record {
  ring = record { head = 0; tail = 0; slots = 0 ∷ 0 ∷ [] };
  seen_tail = 0;
  seen_head = 0;
  producer = Producer.idle;
  consumer = Consumer.idle;
  log = [];
}

at_start : run 2 0 no_steps (start 2 0) ≡ some fresh
unfolding run start
at_start = refl

observed_size_lem_example :
    (observed_size fresh gone ≡ (
      if ltb (length (sent fresh.log)) (length (received gone.log))
      then 2 ^ 64 - (length (received gone.log) - length (sent fresh.log))
      else length (sent fresh.log) - length (received gone.log)))
    × (observed_full 2 fresh gone ≡ (
        ltb (length (sent fresh.log)) (length (received gone.log))
        || leb (length (received gone.log) + 2) (length (sent fresh.log))))
observed_size_lem_example =
    observed_size_lem capacity_two 0 no_steps comes_and_goes fresh gone at_start gone-reached
      (omega arith) (omega arith)

-- `full` answers true though the ring is empty before and after.
empty_is_full : observed_full 2 fresh gone ≡ true
unfolding observed_full
empty_is_full = refl
