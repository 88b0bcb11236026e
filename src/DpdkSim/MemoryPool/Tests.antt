-- ===== src/DpdkSim/MemoryPool/Tests.antt =====
-- Tests of the pool, and the theorems at concrete inputs.
use ebpf_system_monitor.Base.{◌≡◌, refl, [], ◌∷◌, ◌++◌}
use ebpf_system_monitor.DpdkSim.SpscRing
use ebpf_system_monitor.DpdkSim.SpscRing.Samples.{capacity_two}
use ebpf_system_monitor.DpdkSim.MemoryPool.{block, init, alloc, alloc_burst}
use ebpf_system_monitor.DpdkSim.MemoryPool.Ownership.{
  Client, Reach, IsOwned, hold, allocs, allocs_burst, start, next, Reach-IsOwned,
}

-- One block of a pool of two is allocated.
abbrev one_held : Client
one_held = record { pool = (alloc 2 (init 2)).1; held = hold (alloc 2 (init 2)).0 [] }

one_held-Reach : Reach 2 one_held
one_held-Reach = next start (allocs refl)

one_held_list : one_held.held ≡ block 0 ∷ []
unfolding alloc init SpscRing.dequeue SpscRing.enqueue SpscRing.init
one_held_list = refl

-- Then the rest, asking for more than there is.
abbrev all_held : Client
all_held = record {
  pool = (alloc_burst 2 5 one_held.pool).2;
  held = (alloc_burst 2 5 one_held.pool).1 ++ one_held.held;
}

all_held-Reach : Reach 2 all_held
all_held-Reach = next one_held-Reach (allocs_burst 5 refl)

all_held_list : all_held.held ≡ block 1 ∷ block 0 ∷ []
unfolding alloc alloc_burst init SpscRing.dequeue SpscRing.enqueue SpscRing.init
all_held_list = refl

alloc_next : (alloc 2 one_held.pool).0 ≡ block 1
unfolding alloc init SpscRing.dequeue SpscRing.enqueue SpscRing.init
alloc_next = refl

Reach-IsOwned_example : IsOwned 2 all_held
Reach-IsOwned_example = Reach-IsOwned capacity_two all_held-Reach
