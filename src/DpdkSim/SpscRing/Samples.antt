-- ===== src/DpdkSim/SpscRing/Samples.antt =====
-- Capacities and rings for tests.
use ebpf_system_monitor.Base.{ℕ, ◌^◌, ◌-◌, refl, arith, [], ◌∷◌}
use ebpf_system_monitor.DpdkSim.SpscRing.{SpscRing, capacity_check}
use ebpf_system_monitor.DpdkSim.SpscRing.Capacity.{IsCapacity}

abbrev pub capacity_two : IsCapacity 2
unfolding capacity_check
capacity_two = record { positive = omega arith; fits = omega arith; checked = refl }

abbrev pub capacity_four : IsCapacity 4
unfolding capacity_check
capacity_four = record { positive = omega arith; fits = omega arith; checked = refl }

-- Three items, with the counters about to wrap: 7 in slot 2, 8 in slot 3 and 9 in slot 0.
abbrev pub wrapping : SpscRing ℕ
wrapping = record { head = 1; tail = 2 ^ 64 - 2; slots = 9 ∷ 0 ∷ 7 ∷ 8 ∷ [] }
