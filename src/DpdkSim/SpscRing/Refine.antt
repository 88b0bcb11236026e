-- ===== src/DpdkSim/SpscRing/Refine.antt =====
-- A ring behaves as the bounded queue of what it holds, whatever calls are made.
use ebpf_system_monitor.Base.{ℕ, ◌≡◌, refl, ◌∙◌, ap, List, [], ◌∷◌, length, Bool, leb, ◌==◌}
use ebpf_system_monitor.DpdkSim.Fifo
use ebpf_system_monitor.DpdkSim.Fifo.{
  Call, enqueues, dequeues, enqueues_burst, dequeues_burst, asks_size, Reply, done, item, count,
  items,
}
use ebpf_system_monitor.DpdkSim.SpscRing.{SpscRing, init, call, run, size, empty, full}
use ebpf_system_monitor.DpdkSim.SpscRing.Capacity.{IsCapacity}
use ebpf_system_monitor.DpdkSim.SpscRing.Valid.{
  IsValid, init-IsValid, contents, contents-init, length-contents,
}
use ebpf_system_monitor.DpdkSim.SpscRing.Single.{
  enqueue-IsValid, dequeue-IsValid, enqueue_refines, dequeue_refines,
}
use ebpf_system_monitor.DpdkSim.SpscRing.Burst.{
  enqueue_burst-IsValid, dequeue_burst-IsValid, enqueue_burst_refines, dequeue_burst_refines,
}

module _ {ℓ} {A : Type ℓ} {c : ℕ} (cap : IsCapacity c) (blank : A) where
  -- Every call keeps the counters below 2 ^ 64, at most `capacity` apart, and the array its size.
  pub call-IsValid : (k : Call A) (r : SpscRing A) → IsValid c r → IsValid c (call c blank k r).1
  unfolding call
  call-IsValid (enqueues x) r v = enqueue-IsValid cap blank x r v
  call-IsValid dequeues r v = dequeue-IsValid cap blank r v
  call-IsValid (enqueues_burst xs) r v = enqueue_burst-IsValid cap blank xs r v
  call-IsValid (dequeues_burst n) r v = dequeue_burst-IsValid cap blank n r v
  call-IsValid asks_size r v = v

  pub call_refines :
      (k : Call A) (r : SpscRing A)
      → IsValid c r
      → let (reply, r') = call c blank k r in
        (reply, contents c blank r') ≡ Fifo.call c k (contents c blank r)
  unfolding call Fifo.call
  call_refines (enqueues x) r v =
      ap (λ (p : Bool × List A). (done p.0, p.1)) (enqueue_refines cap blank x r v)
  call_refines dequeues r v = λ i. let p = dequeue_refines cap blank r v i in (item p.0, p.1)
  call_refines (enqueues_burst xs) r v =
      ap (λ (p : ℕ × List A). (count p.0, p.1)) (enqueue_burst_refines cap blank xs r v)
  call_refines (dequeues_burst n) r v =
      ap (λ (p : ℕ × List A × List A). (items p.0 p.1, p.2)) (dequeue_burst_refines cap blank n r v)
  call_refines asks_size r v = rw length-contents

  -- From any valid state, a sequence of calls gives the replies of the bounded queue.
  run_refines_from :
      (ks : List (Call A)) (r : SpscRing A)
      → IsValid c r
      → run c blank ks r ≡ Fifo.run c ks (contents c blank r)
  unfolding run Fifo.run
  run_refines_from [] r v = refl
  run_refines_from (k ∷ ks) r v =
      rw (run_refines_from ks (call c blank k r).1 (call-IsValid k r v), ← call_refines k r v)

  -- A new ring answers every sequence of calls as an empty bounded queue does.
  pub run_refines : (ks : List (Call A)) → run c blank ks (init c blank) ≡ Fifo.run c ks []
  run_refines ks =
      run_refines_from ks (init c blank) (init-IsValid c blank)
      ∙ ap (Fifo.run c ks) (contents-init c blank)

  -- `size`, `empty` and `full` speak of the items in the ring.
  pub size_lem :
      (r : SpscRing A)
      → (size r ≡ length (contents c blank r))
        × (empty r ≡ (length (contents c blank r) == 0))
        × (full c r ≡ leb c (length (contents c blank r)))
  unfolding size empty full
  size_lem r = rw length-contents (refl, refl, refl)
