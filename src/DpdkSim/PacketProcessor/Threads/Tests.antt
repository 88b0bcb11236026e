-- ===== src/DpdkSim/PacketProcessor/Threads/Tests.antt =====
-- A burst of one packet, while the producer fills another.
use mathlib.Core.List.{Mem, mem-cons_self}
use mathlib.Core.List.Perm
use ebpf_system_monitor.Base.{◌+◌, ◌%◌, ◌^◌, ◌≡◌, refl, some, true, [], ◌∷◌, ◌++◌, Perm, arith}
use ebpf_system_monitor.DpdkSim.SpscRing
use ebpf_system_monitor.DpdkSim.MemoryPool
use ebpf_system_monitor.DpdkSim.SpscRing.Samples.{capacity_two, capacity_four}
use ebpf_system_monitor.DpdkSim.MemoryPool.{Ptr, block}
use ebpf_system_monitor.DpdkSim.MemoryPool.Contents.{free_list, blocks_from}
use ebpf_system_monitor.DpdkSim.PacketProcessor.{construct, alloc_packet, send}
use ebpf_system_monitor.DpdkSim.PacketProcessor.Burst.{waiting}
use ebpf_system_monitor.DpdkSim.PacketProcessor.Tests.{sixty, look, fresh}
use ebpf_system_monitor.DpdkSim.PacketProcessor.Threads.{
  outside, handling, State, filled, consume, allocates, fills, submits, consumes, Reach, starts,
  turns,
}
use ebpf_system_monitor.DpdkSim.PacketProcessor.Threads.Accounts.{in_burst, uncounted, accounted}
use ebpf_system_monitor.DpdkSim.PacketProcessor.Threads.Safety.{
  threads_conserved, burst_goes_on, burst_is_exclusive, send_succeeds,
}

abbrev opened : State
opened = record { proc = fresh; held = []; sends = 0; position = outside }

abbrev one_held : State
one_held = record opened { proc = (alloc_packet 4 2 fresh).1; held = block 0 ∷ [] }

abbrev two_held : State
two_held = record one_held {
  proc = (alloc_packet 4 2 one_held.proc).1;
  held = block 1 ∷ block 0 ∷ [];
}

abbrev one_sent : State
one_sent = record two_held {
  proc = (send 4 2 (block 0) two_held.proc).1;
  held = block 1 ∷ [];
  sends = 1;
}

abbrev one_taken : State
one_taken = record one_sent {
  proc = record (one_sent.proc) { ring = record (one_sent.proc.ring) { tail = 1 } };
  position = handling 1 [] (block 0 ∷ []);
}

abbrev one_filled : State
one_filled = record one_taken {
  proc = record (one_taken.proc) { memory = filled 1 sixty one_taken.proc.memory };
}

one_filled-Reach : Reach 4 2 look (λ _. sixty) one_filled
unfolding construct alloc_packet send consume MemoryPool.alloc MemoryPool.init SpscRing.init
    SpscRing.enqueue SpscRing.dequeue SpscRing.dequeue_burst
one_filled-Reach =
    turns
      (turns
        (turns (turns (turns (starts fresh refl) (allocates refl)) (allocates refl))
          (submits (block 0) (block 1 ∷ []) (Perm.swap (block 0) (block 1) []) refl))
        (consumes refl))
      (fills 1 sixty [] (Perm.refl _) refl)

threads_conserved_example :
    Perm
      (free_list 2 one_filled.proc.pool
        ++ ((one_filled.held ++ in_burst one_filled.position) ++ waiting 4 one_filled.proc))
      (blocks_from 0 2)
    × (one_filled.proc.stats.pkts_dropped ≡ 0)
    × ((accounted 4 one_filled.proc + uncounted one_filled.position) % 2 ^ 64
        ≡ one_filled.sends % 2 ^ 64)
threads_conserved_example =
    threads_conserved capacity_four capacity_two one_filled-Reach (omega arith)

burst_goes_on_example : (t : State) × (consume 4 2 one_filled.position one_filled ≡ some t)
burst_goes_on_example = burst_goes_on capacity_four capacity_two one_filled-Reach (omega arith)

burst_is_exclusive_example :
    ¬ Mem (block 0) one_filled.held × ¬ Mem (block 0) (free_list 2 one_filled.proc.pool)
burst_is_exclusive_example =
    burst_is_exclusive capacity_four capacity_two one_filled-Reach (omega arith) (block 0)
      mem-cons_self

send_succeeds_example : (send 4 2 (block 1) one_filled.proc).0 ≡ true
send_succeeds_example =
    send_succeeds capacity_four capacity_two one_filled-Reach (omega arith) (block 1) []
      (Perm.refl _)
