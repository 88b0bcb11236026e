-- ===== src/DpdkSim/SpscRing/Tests.antt =====
-- Tests of the ring, and the theorems at concrete inputs.
use ebpf_system_monitor.Base.{ℕ, ◌^◌, ◌<◌, ◌≡◌, ◌↔◌, ◌⊎◌, refl, arith, List, [], ◌∷◌, true, some}
use ebpf_system_monitor.DpdkSim.Fifo
use ebpf_system_monitor.DpdkSim.Fifo.{
  Call, enqueues, dequeues, enqueues_burst, dequeues_burst, asks_size, Reply, done, item, count,
  items,
}
use ebpf_system_monitor.DpdkSim.SpscRing.{
  capacity_check, init, call, run, size, enqueue, dequeue, enqueue_burst, dequeue_burst,
}
use ebpf_system_monitor.DpdkSim.SpscRing.Capacity.{capacity_check_lem}
use ebpf_system_monitor.DpdkSim.SpscRing.Valid.{IsValid, contents}
use ebpf_system_monitor.DpdkSim.SpscRing.Refine.{call_refines}
use ebpf_system_monitor.DpdkSim.SpscRing.Samples.{capacity_four, wrapping}

abbrev script : List (Call ℕ)
script =
    enqueues 1
    ∷ enqueues_burst (2 ∷ 3 ∷ 4 ∷ 5 ∷ [])
    ∷ dequeues
    ∷ enqueues 6
    ∷ dequeues_burst 9
    ∷ asks_size
    ∷ []

run-script :
    run 4 0 script (init 4 0)
    ≡ done true ∷ count 3 ∷ item (some 1) ∷ done true ∷ items 4 (2 ∷ 3 ∷ 4 ∷ 6 ∷ []) ∷ count 0 ∷ []
unfolding run call init enqueue_burst dequeue dequeue_burst size enqueue
run-script = refl

contents-wrapping : contents 4 0 wrapping ≡ 7 ∷ 8 ∷ 9 ∷ []
contents-wrapping = refl

wrapping-IsValid : IsValid 4 wrapping
wrapping-IsValid = omega arith

capacity_check_lem_example :
    (capacity_check 1024 ≡ true) ↔ (◌≡◌ {A = ℕ} 1024 0 ⊎ ((k : ℕ) × (k < 64) × (1024 ≡ 2 ^ k)))
capacity_check_lem_example = capacity_check_lem 1024 (omega arith)

call_refines_example :
    let (reply, r) = call 4 0 (dequeues_burst 2) wrapping in
    (reply, contents 4 0 r) ≡ Fifo.call 4 (dequeues_burst 2) (7 ∷ 8 ∷ 9 ∷ [])
call_refines_example = call_refines capacity_four 0 (dequeues_burst 2) wrapping wrapping-IsValid
