-- ===== src/DpdkSim/PacketProcessor.antt =====
-- src/dpdk_sim/packet_processor.h: packets come from a pool, go through a ring, and are handled in
-- bursts. `memory` is what the pool's blocks hold. The handler is the caller's: a function on that
-- memory. The payload's bytes and the padding of `Packet` are never read, and left out.
pub mod Burst
pub mod Session
pub mod Send
pub mod Conservation
pub mod Threads
mod Tests
use ebpf_system_monitor.Base.{
  ℕ, zero, suc, ◌+◌, Bool, true, false, Option, none, some, List, [], ◌∷◌, add64, if◌then◌else◌,
  ◌==◌,
}
use ebpf_system_monitor.DpdkSim.SpscRing
use ebpf_system_monitor.DpdkSim.SpscRing.{SpscRing}
use ebpf_system_monitor.DpdkSim.MemoryPool
use ebpf_system_monitor.DpdkSim.MemoryPool.{MemoryPool, Ptr, null, block}

pub record Packet : Type 0 where
  pub src_ip : ℕ
  pub dst_ip : ℕ
  pub src_port : ℕ
  pub dst_port : ℕ
  pub proto : ℕ
  pub len : ℕ
  pub timestamp_ns : ℕ

abbrev pub Memory : Type 0
Memory = ℕ → Packet

abbrev pub PacketHandler : Type 0
PacketHandler = Ptr → Memory → Memory

abbrev pub burst_size : ℕ
burst_size = 32

pub record ProcessorStats : Type 0 where
  pub pkts_processed : ℕ
  pub pkts_dropped : ℕ
  pub bytes_processed : ℕ
  pub bursts : ℕ

pub record BatchProcessor : Type 0 where
  pub ring : SpscRing Ptr
  pub pool : MemoryPool
  pub handler : Option PacketHandler
  pub stats : ProcessorStats
  pub memory : Memory

-- `if (handler_) handler_(pkt)`
abbrev pub handle : Option PacketHandler → Ptr → Memory → Memory
handle none pkt m = m
handle (some h) pkt m = h pkt m

module _ (ring_size pool_size : ℕ) where
  -- The constructor; `none` is the exception for a null handler.
  unfoldable pub construct : Option PacketHandler → Memory → Option BatchProcessor
  construct none m = none
  construct (some h) m = some (record {
    ring = SpscRing.init ring_size null;
    pool = MemoryPool.init pool_size;
    handler = some h;
    stats = record { pkts_processed = 0; pkts_dropped = 0; bytes_processed = 0; bursts = 0 };
    memory = m;
  })

  unfoldable pub send : Ptr → BatchProcessor → Bool × BatchProcessor
  send pkt bp =
      let (queued, ring') = SpscRing.enqueue ring_size pkt bp.ring in
      if queued then (true, record bp { ring = ring' }) else (
        false,
        record bp {
          ring = ring';
          stats = record (bp.stats) { pkts_dropped = add64 bp.stats.pkts_dropped 1 };
          pool = MemoryPool.free pool_size pkt bp.pool;
        },
      )

  unfoldable pub alloc_packet : BatchProcessor → Ptr × BatchProcessor
  alloc_packet bp =
      let (pkt, pool') = MemoryPool.alloc pool_size bp.pool in (pkt, record bp { pool = pool' })

  -- The loop of `process_burst` over the packets left: the memory and `bytes_processed`. `none` is
  -- the read of `len` through a null pointer.
  unfoldable pub process_loop : Option PacketHandler → List Ptr → Memory → ℕ → Option (Memory × ℕ)
  process_loop h [] m bytes = some (m, bytes)
  process_loop h (null ∷ pkts) m bytes = none
  process_loop h (block b ∷ pkts) m bytes =
      let m' = handle h (block b) m in process_loop h pkts m' (add64 bytes (m' b).len)

  -- The end of `process_burst`, with the result of the loop.
  unfoldable pub finish_burst :
      ℕ → List Ptr → BatchProcessor → Option (Memory × ℕ) → Option (ℕ × BatchProcessor)
  finish_burst n pkts bp none = none
  finish_burst n pkts bp (some (m, bytes)) = some (
    n,
    record bp {
      memory = m;
      stats = record (bp.stats) {
        bytes_processed = bytes;
        pkts_processed = add64 bp.stats.pkts_processed n;
        bursts = add64 bp.stats.bursts 1;
      };
      pool = MemoryPool.free_burst pool_size pkts bp.pool;
    },
  )

  unfoldable pub process_burst : BatchProcessor → Option (ℕ × BatchProcessor)
  unfolding process_loop finish_burst
  process_burst bp =
      let (n, pkts, ring') = SpscRing.dequeue_burst ring_size null burst_size bp.ring in
      let bp' = record bp { ring = ring' } in
      if n == 0
      then some (0, bp')
      else finish_burst n pkts bp' (process_loop bp.handler pkts bp.memory bp.stats.bytes_processed)

  unfoldable pub ring_empty : BatchProcessor → Bool
  ring_empty bp = SpscRing.empty bp.ring
