-- ===== src/DpdkSim/PacketProcessor/Tests.antt =====
-- Tests of the processor, and the theorems at concrete inputs.
use mathlib.Core.List.Perm
use ebpf_system_monitor.Base.{
  ◌≡◌, refl, arith, [], ◌∷◌, Perm, some, length, take, drop, ◌==◌, if◌then◌else◌,
}
use ebpf_system_monitor.DpdkSim.SpscRing
use ebpf_system_monitor.DpdkSim.SpscRing.Samples.{capacity_four}
use ebpf_system_monitor.DpdkSim.MemoryPool
use ebpf_system_monitor.DpdkSim.MemoryPool.{Ptr, null, block}
use ebpf_system_monitor.DpdkSim.MemoryPool.Ownership.{hold}
use ebpf_system_monitor.DpdkSim.PacketProcessor.{
  Packet, PacketHandler, BatchProcessor, burst_size, construct, send, alloc_packet, process_burst,
}
use ebpf_system_monitor.DpdkSim.PacketProcessor.Burst.{
  waiting, ring_after, after_burst, process_burst_lem,
}
use ebpf_system_monitor.DpdkSim.PacketProcessor.Session.{
  Session, Run, starts, turns, allocates, submits,
}

abbrev pub sixty : Packet
sixty = record {
  src_ip = 1;
  dst_ip = 2;
  src_port = 3;
  dst_port = 4;
  proto = 6;
  len = 60;
  timestamp_ns = 0;
}

-- The handler leaves the packets as they are.
abbrev pub look : PacketHandler
look p m = m

abbrev pub fresh : BatchProcessor
fresh = record {
  ring = SpscRing.init 4 null;
  pool = MemoryPool.init 2;
  handler = some look;
  stats = record { pkts_processed = 0; pkts_dropped = 0; bytes_processed = 0; bursts = 0 };
  memory = λ _. sixty;
}

abbrev opened : Session
opened = record { proc = fresh; held = []; sends = 0 }

opened-Run : Run 4 2 look (λ _. sixty) opened
unfolding construct
opened-Run = starts fresh refl

abbrev one_held : Session
one_held = record opened {
  proc = (alloc_packet 4 2 fresh).1;
  held = hold (alloc_packet 4 2 fresh).0 [];
}

one_held-Run : Run 4 2 look (λ _. sixty) one_held
one_held-Run = turns opened-Run (allocates refl)

one_held-Perm : Perm one_held.held (block 0 ∷ [])
unfolding alloc_packet MemoryPool.alloc MemoryPool.init SpscRing.dequeue SpscRing.enqueue
    SpscRing.init
one_held-Perm = Perm.refl _

abbrev one_sent : Session
one_sent = record { proc = (send 4 2 (block 0) one_held.proc).1; held = []; sends = 1 }

one_sent-Run : Run 4 2 look (λ _. sixty) one_sent
one_sent-Run = turns one_held-Run (submits (block 0) [] one_held-Perm refl)

-- The waiting packet is handled, counted and given back.
one_processed :
    process_burst 4 2 one_sent.proc
    ≡ some (
      1,
      record one_sent.proc {
        ring = (SpscRing.dequeue_burst 4 null 32 one_sent.proc.ring).2;
        pool = MemoryPool.free_burst 2 (block 0 ∷ []) one_sent.proc.pool;
        stats = record { pkts_processed = 1; pkts_dropped = 0; bytes_processed = 60; bursts = 1 };
      },
    )
unfolding process_burst send alloc_packet MemoryPool.alloc MemoryPool.init MemoryPool.free_burst
    SpscRing.dequeue SpscRing.enqueue SpscRing.init SpscRing.dequeue_burst SpscRing.enqueue_burst
one_processed = refl

process_burst_lem_example :
    (process_burst 4 2 one_sent.proc ≡ (
      if length (take burst_size (waiting 4 one_sent.proc)) == 0
      then some (0, record (one_sent.proc) { ring = ring_after capacity_four 2 one_sent.proc })
      else some (
        length (take burst_size (waiting 4 one_sent.proc)),
        after_burst 2
            (take burst_size (waiting 4 one_sent.proc))
            (ring_after capacity_four 2 one_sent.proc)
            one_sent.proc,
      )))
    × (waiting 4 (record (one_sent.proc) { ring = ring_after capacity_four 2 one_sent.proc })
        ≡ drop burst_size (waiting 4 one_sent.proc))
unfolding send alloc_packet MemoryPool.alloc MemoryPool.init SpscRing.dequeue SpscRing.enqueue
    SpscRing.init
process_burst_lem_example =
    process_burst_lem capacity_four 2 one_sent.proc (omega arith) tt (omega arith)
