-- ===== src/DpdkSim/SpscRing/Threads/Stores.antt =====
-- What a store of the producer leaves alone.
use native.Mathlib.Nat.{mod-add-mod}
use ebpf_system_monitor.Base.{ℕ, ◌+◌, ◌%◌, ◌<◌, ◌≤◌, ◌≡◌, sym, ap, ◌∙◌, arith, sub64, set}
use ebpf_system_monitor.DpdkSim.SpscRing.{SpscRing}
use ebpf_system_monitor.DpdkSim.SpscRing.Capacity.{IsCapacity}
use ebpf_system_monitor.DpdkSim.SpscRing.Window.{window, window-set_past}
use ebpf_system_monitor.DpdkSim.SpscRing.Valid.{IsValid, head_mod}
use ebpf_system_monitor.DpdkSim.SpscRing.Threads.{Consumer}
use ebpf_system_monitor.DpdkSim.SpscRing.Threads.Invariant.{Consumes}

module _ {A : Type 0} {c : ℕ} (cap : IsCapacity c) (blank : A) where
  -- The slot of position `i` past the head, counted from the tail.
  pub past_head :
      (r : SpscRing A) (i : ℕ)
      → IsValid c r
      → (r.head + i) % c ≡ (r.tail + sub64 r.head r.tail + i) % c
  past_head r i v =
      sym (mod-add-mod r.head c i)
      ∙ ap (λ (x : ℕ). (x + i) % c) (head_mod cap r.head r.tail v.head_fits v.tail_fits)
      ∙ mod-add-mod (r.tail + sub64 r.head r.tail) c i

  -- A store past the items leaves them alone.
  pub window-store :
      (r : SpscRing A) (i n : ℕ) (x : A)
      → IsValid c r
      → n ≤ sub64 r.head r.tail
      → sub64 r.head r.tail + i < c
      → window c blank (set r.slots ((r.head + i) % c) x) r.tail n ≡ window c blank r.slots r.tail n
  window-store r i n x v inside room =
      ap (λ (j : ℕ). window c blank (set r.slots j x) r.tail n) (past_head r i v)
      ∙ window-set_past c blank r.slots r.tail n (r.tail + sub64 r.head r.tail + i) x (omega arith)
          (omega arith)

  -- So it leaves alone what the consumer reads.
  pub Consumes-store :
      (pos : Consumer A) (r : SpscRing A) (seen i : ℕ) (x : A)
      → IsValid c r
      → sub64 seen r.tail ≤ sub64 r.head r.tail
      → sub64 r.head r.tail + i < c
      → Consumes c blank pos r.slots r.tail seen
      → Consumes c blank pos (set r.slots ((r.head + i) % c) x) r.tail seen
  Consumes-store Consumer.idle r seen i x v inside room h = tt
  Consumes-store (Consumer.dequeue_checks t) r seen i x v inside room h = h
  Consumes-store (Consumer.dequeue_loads t) r seen i x v inside room h = h
  Consumes-store (Consumer.dequeue_publishes t item) r seen i x v inside room h =
      (h.0, h.1, window-store r i 1 x v (omega (arith, h.1)) room ∙ h.2)
  Consumes-store (Consumer.burst_checks n t) r seen i x v inside room h = h
  Consumes-store (Consumer.burst_loads t cnt k items left) r seen i x v inside room h =
      (h.0, h.1, h.2, window-store r i k x v (omega (arith, h.1, h.2)) room ∙ h.3)
