-- ===== src/DpdkSim/SpscRing/Threads/Order.antt =====
-- What the logs of all orders of steps have in common.
use ebpf_system_monitor.Base.{ℕ, ◌≡◌, sym, ap, ◌∙◌, some, List, [], ◌∷◌, ◌++◌, append_assoc}
use ebpf_system_monitor.DpdkSim.SpscRing.Capacity.{IsCapacity}
use ebpf_system_monitor.DpdkSim.SpscRing.Valid.{contents}
use ebpf_system_monitor.DpdkSim.SpscRing.Threads.{
  Entry, refuses, measures, sends, finds_none, collects, receives, System, Move, start, run,
}
use ebpf_system_monitor.DpdkSim.SpscRing.Threads.Invariant.{Explains}
use ebpf_system_monitor.DpdkSim.SpscRing.Threads.Interleaving.{run-IsSound}

module _ {A : Type 0} where
  -- All items sent, and all received, in order.
  abbrev pub sent : List (Entry A) → List A
  sent [] = []
  sent (sends xs ∷ log) = sent log ++ xs
  sent (refuses lag ∷ log) = sent log
  sent (measures n cnt lag ∷ log) = sent log
  sent (finds_none lag ∷ log) = sent log
  sent (collects n cnt lag ∷ log) = sent log
  sent (receives xs ∷ log) = sent log

  abbrev pub received : List (Entry A) → List A
  received [] = []
  received (receives xs ∷ log) = received log ++ xs
  received (refuses lag ∷ log) = received log
  received (measures n cnt lag ∷ log) = received log
  received (sends xs ∷ log) = received log
  received (finds_none lag ∷ log) = received log
  received (collects n cnt lag ∷ log) = received log

  Explains-sent :
      (c : ℕ) (log : List (Entry A)) (q : List A) → Explains c log q → sent log ≡ received log ++ q
  Explains-sent c [] q h = sym h
  Explains-sent c (refuses lag ∷ log) q h = Explains-sent c log q h.1
  Explains-sent c (measures n cnt lag ∷ log) q h = Explains-sent c log q h.2
  Explains-sent c (sends xs ∷ log) q (old, e, room, h) =
      ap (λ (l : List A). l ++ xs) (Explains-sent c log old h)
      ∙ append_assoc (received log) old xs
      ∙ ap (◌++◌ (received log)) (sym e)
  Explains-sent c (finds_none lag ∷ log) q h = Explains-sent c log q h.1
  Explains-sent c (collects n cnt lag ∷ log) q h = Explains-sent c log q h.2
  Explains-sent c (receives xs ∷ log) q h =
      Explains-sent c log (xs ++ q) h ∙ sym (append_assoc (received log) xs q)

  -- In whatever order the threads' loads and stores come, and however late a thread sees the other's
  -- counter: all answers of the calls are those of a bounded queue whose calls take effect one after the
  -- other, a sending call when it stores `head_` and a receiving one when it stores `tail_`. `false` and
  -- the count of a burst are as the queue is at the load, but for the items by which the value is old.
  pub run-Explains :
      {c : ℕ} (cap : IsCapacity c) (blank : A) (ms : List (Move A)) (s : System A)
      → run c blank ms (start c blank) ≡ some s
      → Explains c s.log (contents c blank s.ring)
  run-Explains cap blank ms s r = (run-IsSound cap blank ms s r).explained

  -- The items received are those sent, in their order, but for those still in the ring.
  pub first_in_first_out :
      {c : ℕ} (cap : IsCapacity c) (blank : A) (ms : List (Move A)) (s : System A)
      → run c blank ms (start c blank) ≡ some s
      → sent s.log ≡ received s.log ++ contents c blank s.ring
  first_in_first_out {c} cap blank ms s r =
      Explains-sent c s.log (contents c blank s.ring) (run-Explains cap blank ms s r)
