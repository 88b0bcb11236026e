-- ===== src/DpdkSim/PacketProcessor/Session.antt =====
-- A producer and the processor together, and what is invariant in their calls.
use mathlib.Core.List.{Mem, mem-cons_self, mem-cons_of_mem, mem-append_right}
use mathlib.Core.List.Perm
use ebpf_system_monitor.Base.{
  ℕ, ◌+◌, ◌%◌, ◌^◌, ◌<◌, ◌≡◌, ◌≢◌, refl, subst, some, List, [], ◌∷◌, ◌++◌, Perm, length,
}
use ebpf_system_monitor.DpdkSim.SpscRing.Capacity.{IsCapacity}
use ebpf_system_monitor.DpdkSim.SpscRing.Valid.{IsValid}
use ebpf_system_monitor.DpdkSim.MemoryPool
use ebpf_system_monitor.DpdkSim.MemoryPool.{MemoryPool, Ptr, null, block}
use ebpf_system_monitor.DpdkSim.MemoryPool.Contents.{free_list}
use ebpf_system_monitor.DpdkSim.MemoryPool.Ownership.{
  Client, hold, allocs, IsOwned, Step-IsOwned, not-mem-blocks_from,
}
use ebpf_system_monitor.DpdkSim.PacketProcessor.{
  Memory, PacketHandler, BatchProcessor, construct, send, alloc_packet, process_burst,
}
use ebpf_system_monitor.DpdkSim.PacketProcessor.Burst.{waiting, AllBlocks}

-- The processor, the packets that the producer holds, and the number of its calls of `send`.
pub record Session : Type 0 where
  pub proc : BatchProcessor
  pub held : List Ptr
  pub sends : ℕ

module _ (rs ps : ℕ) where
  -- One call: the producer allocates or sends what it holds, the consumer processes a burst.
  pub data Turn (s t : Session) : Type 0 where
    allocates :
        t ≡ record s {
          proc = (alloc_packet rs ps s.proc).1;
          held = hold (alloc_packet rs ps s.proc).0 s.held;
        }
        → Turn s t
    submits :
        (x : Ptr) (rest : List Ptr)
        → Perm s.held (x ∷ rest)
        → t ≡ record { proc = (send rs ps x s.proc).1; held = rest; sends = s.sends + 1 }
        → Turn s t
    processes :
        (n : ℕ) (bp : BatchProcessor)
        → process_burst rs ps s.proc ≡ some (n, bp)
        → t ≡ record s { proc = bp }
        → Turn s t

  pub data Run (h : PacketHandler) (m : Memory) : Session → Type 0 where
    starts :
        (bp : BatchProcessor)
        → construct rs ps (some h) m ≡ some bp
        → Run h m (record { proc = bp; held = []; sends = 0 })
    turns : {s t : Session} → Run h m s → Turn s t → Run h m t

-- To the pool, a packet in the ring is one that its clients hold.
abbrev pub client : ℕ → Session → Client
client rs s = record { pool = s.proc.pool; held = s.held ++ waiting rs s.proc }

pub record IsSound (rs ps : ℕ) (s : Session) : Type 0 where
  pub ring_valid : IsValid rs s.proc.ring
  pub owned : IsOwned ps (client rs s)
  pub bytes_fit : s.proc.stats.bytes_processed < 2 ^ 64
  pub balanced :
      (s.proc.stats.pkts_processed + s.proc.stats.pkts_dropped + length (waiting rs s.proc))
        % 2 ^ 64
      ≡ s.sends % 2 ^ 64

AllBlocks-of_mem : (l : List Ptr) → ((x : Ptr) → Mem x l → x ≢ null) → AllBlocks l
AllBlocks-of_mem [] h = tt
AllBlocks-of_mem (null ∷ l) h = h null mem-cons_self refl
AllBlocks-of_mem (block b ∷ l) h = AllBlocks-of_mem l (λ x m. h x (mem-cons_of_mem (block b) m))

module _ {rs ps : ℕ} (rcap : IsCapacity rs) (pcap : IsCapacity ps) where
  -- No null pointer waits.
  pub waiting-AllBlocks : (s : Session) → IsSound rs ps s → AllBlocks (waiting rs s.proc)
  waiting-AllBlocks s i = AllBlocks-of_mem (waiting rs s.proc) λ x m e.
      not-mem-blocks_from 0 ps x e (
        (Perm.mem_iff i.owned.parted).0
          (mem-append_right (free_list ps s.proc.pool) (mem-append_right s.held m)))

  pub hold-append : (x : Ptr) (xs ys : List Ptr) → hold x (xs ++ ys) ≡ hold x xs ++ ys
  hold-append null xs ys = refl
  hold-append (block b) xs ys = refl

  pub alloc-IsSound :
      (s : Session)
      → IsSound rs ps s
      → IsSound rs ps (record s {
        proc = (alloc_packet rs ps s.proc).1;
        held = hold (alloc_packet rs ps s.proc).0 s.held;
      })
  unfolding alloc_packet
  alloc-IsSound s i = record {
    ring_valid = i.ring_valid;
    owned =
        subst
          (λ (l : List Ptr).
            IsOwned ps (record { pool = (MemoryPool.alloc ps s.proc.pool).1; held = l }))
          (hold-append (MemoryPool.alloc ps s.proc.pool).0 s.held (waiting rs s.proc))
          (Step-IsOwned pcap (allocs refl) i.owned);
    bytes_fit = i.bytes_fit;
    balanced = i.balanced;
  }
