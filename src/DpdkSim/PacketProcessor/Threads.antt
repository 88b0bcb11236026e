-- ===== src/DpdkSim/PacketProcessor/Threads.antt =====
-- src/dpdk_sim/packet_processor.h with its two threads: the producer calls alloc_packet and send and
-- fills the packets that it holds, at any time between the parts of the processor's process_burst. A
-- call of a ring is one step, which holds for a ring with one producer and one consumer. The free ring of
-- the pool is one only if the producer never frees: `Safety` is about a pool no larger than the ring, where
-- `send` never finds that full. The producer sends only packets that it holds.
pub mod Accounts
pub mod Conserved
pub mod Safety
mod Tests
use ebpf_system_monitor.Base.{
  ℕ, zero, suc, ◌+◌, ◌≡◌, Option, none, some, List, [], ◌∷◌, ◌++◌, Perm, ◌==◌, if◌then◌else◌, add64,
}
use ebpf_system_monitor.DpdkSim.SpscRing
use ebpf_system_monitor.DpdkSim.MemoryPool
use ebpf_system_monitor.DpdkSim.MemoryPool.{Ptr, null, block}
use ebpf_system_monitor.DpdkSim.MemoryPool.Ownership.{hold}
use ebpf_system_monitor.DpdkSim.PacketProcessor.{
  Packet, Memory, PacketHandler, BatchProcessor, burst_size, handle, construct, send, alloc_packet,
}

-- Where process_burst stands: in its loop over a burst of `n`, with the packets handled and those left,
-- or before free_burst.
pub data Position : Type 0 where
  outside : Position
  handling : (n : ℕ) (seen rest : List Ptr) → Position
  freeing : (pkts : List Ptr) → Position

-- `held` are the producer's packets, `sends` is the number of its calls of `send`.
pub record State : Type 0 where
  pub proc : BatchProcessor
  pub held : List Ptr
  pub sends : ℕ
  pub position : Position

abbrev pub filled : ℕ → Packet → Memory → Memory
filled b pkt m i = if i == b then pkt else m i

module _ (rs ps : ℕ) where
  -- The next part of process_burst; `none` is the read of `len` through a null pointer.
  unfoldable pub consume : Position → State → Option State
  consume outside s =
      let (n, pkts, ring') = SpscRing.dequeue_burst rs null burst_size s.proc.ring in
      some (record s {
        proc = record (s.proc) { ring = ring' };
        position = if n == 0 then outside else handling n [] pkts;
      })
  consume (handling n seen []) s = some (record s {
    proc = record (s.proc) {
      stats = record (s.proc.stats) {
        pkts_processed = add64 s.proc.stats.pkts_processed n;
        bursts = add64 s.proc.stats.bursts 1;
      };
    };
    position = freeing seen;
  })
  consume (handling n seen (null ∷ rest)) s = none
  consume (handling n seen (block b ∷ rest)) s =
      let m' = handle s.proc.handler (block b) s.proc.memory in
      some (record s {
        proc = record (s.proc) {
          memory = m';
          stats = record (s.proc.stats) {
            bytes_processed = add64 s.proc.stats.bytes_processed (m' b).len;
          };
        };
        position = handling n (seen ++ (block b ∷ [])) rest;
      })
  consume (freeing pkts) s = some (record s {
    proc = record (s.proc) { pool = MemoryPool.free_burst ps pkts s.proc.pool };
    position = outside;
  })

  -- A step of the one thread or the other.
  pub data Turn (s t : State) : Type 0 where
    allocates :
        t ≡ record s {
          proc = (alloc_packet rs ps s.proc).1;
          held = hold (alloc_packet rs ps s.proc).0 s.held;
        }
        → Turn s t
    fills :
        (b : ℕ) (pkt : Packet) (rest : List Ptr)
        → Perm s.held (block b ∷ rest)
        → t ≡ record s { proc = record (s.proc) { memory = filled b pkt s.proc.memory } }
        → Turn s t
    submits :
        (x : Ptr) (rest : List Ptr)
        → Perm s.held (x ∷ rest)
        → t ≡ record s { proc = (send rs ps x s.proc).1; held = rest; sends = s.sends + 1 }
        → Turn s t
    consumes : consume s.position s ≡ some t → Turn s t

  pub data Reach (h : PacketHandler) (m : Memory) : State → Type 0 where
    starts :
        (bp : BatchProcessor)
        → construct rs ps (some h) m ≡ some bp
        → Reach h m (record { proc = bp; held = []; sends = 0; position = outside })
    turns : {s t : State} → Reach h m s → Turn s t → Reach h m t
