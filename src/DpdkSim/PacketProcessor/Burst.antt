-- ===== src/DpdkSim/PacketProcessor/Burst.antt =====
-- What one burst does, in terms of the packets that wait in the ring.
use ebpf_system_monitor.Base.{
  ℕ, zero, suc, ◌+◌, ◌%◌, ◌^◌, ◌<◌, min, ◌≡◌, ◌∙◌, ap, ap₂, sym, Option, some, List, [], ◌∷◌, arith,
  length, take, drop, add64, if◌then◌else◌, ◌==◌, length-take,
}
use ebpf_system_monitor.DpdkSim.Fifo
use ebpf_system_monitor.DpdkSim.SpscRing
use ebpf_system_monitor.DpdkSim.SpscRing.{SpscRing}
use ebpf_system_monitor.DpdkSim.SpscRing.Capacity.{IsCapacity}
use ebpf_system_monitor.DpdkSim.SpscRing.Valid.{IsValid, contents}
use ebpf_system_monitor.DpdkSim.SpscRing.Burst.{dequeue_burst_refines}
use ebpf_system_monitor.DpdkSim.MemoryPool
use ebpf_system_monitor.DpdkSim.MemoryPool.{MemoryPool, Ptr, null, block}
use ebpf_system_monitor.DpdkSim.PacketProcessor.{
  Memory, PacketHandler, BatchProcessor, burst_size, handle, process_loop, finish_burst,
  process_burst,
}

-- The packets waiting, oldest first.
abbrev pub waiting : ℕ → BatchProcessor → List Ptr
waiting n bp = contents n null bp.ring

-- No null pointer.
abbrev pub AllBlocks : List Ptr → Type 0
AllBlocks [] = Unit {0}
AllBlocks (null ∷ ps) = ⊥
AllBlocks (block b ∷ ps) = AllBlocks ps

-- The memory after the handler has seen the packets in order.
abbrev pub handled : Option PacketHandler → List Ptr → Memory → Memory
handled h [] m = m
handled h (p ∷ ps) m = handled h ps (handle h p m)

-- The lengths that the packets have right after each is handled.
abbrev pub bytes_of : Option PacketHandler → List Ptr → Memory → ℕ
bytes_of h [] m = 0
bytes_of h (null ∷ ps) m = 0
bytes_of h (block b ∷ ps) m = (handle h (block b) m b).len + bytes_of h ps (handle h (block b) m)

module _ (rs ps : ℕ) where
  process_loop_lem :
      (h : Option PacketHandler) (pkts : List Ptr) (m : Memory) (bytes : ℕ)
      → AllBlocks pkts
      → bytes < 2 ^ 64
      → process_loop rs ps h pkts m bytes
        ≡ some (handled h pkts m, (bytes + bytes_of h pkts m) % 2 ^ 64)
  unfolding process_loop
  process_loop_lem h [] m bytes all small = ap (λ (n : ℕ). some (m, n)) (omega arith)
  process_loop_lem h (null ∷ pkts) m bytes all small = absurd all
  process_loop_lem h (block b ∷ pkts) m bytes all small =
      process_loop_lem h pkts (handle h (block b) m) (add64 bytes (handle h (block b) m b).len) all
        (omega arith)
      ∙ ap (λ (n : ℕ). some (handled h pkts (handle h (block b) m), n)) (omega arith)

AllBlocks-take : (n : ℕ) (ps : List Ptr) → AllBlocks ps → AllBlocks (take n ps)
AllBlocks-take zero ps all = tt
AllBlocks-take (suc n) [] all = tt
AllBlocks-take (suc n) (null ∷ ps) all = all
AllBlocks-take (suc n) (block b ∷ ps) all = AllBlocks-take n ps all

-- The state after a burst that took `pkts` and left the ring `ring'`.
abbrev pub after_burst : ℕ → List Ptr → SpscRing Ptr → BatchProcessor → BatchProcessor
after_burst ps pkts ring' bp = record bp {
  ring = ring';
  memory = handled bp.handler pkts bp.memory;
  stats = record (bp.stats) {
    bytes_processed = (bp.stats.bytes_processed + bytes_of bp.handler pkts bp.memory) % 2 ^ 64;
    pkts_processed = add64 bp.stats.pkts_processed (length pkts);
    bursts = add64 bp.stats.bursts 1;
  };
  pool = MemoryPool.free_burst ps pkts bp.pool;
}

module _ {rs : ℕ} (cap : IsCapacity rs) (ps : ℕ) where
  -- The ring after a burst.
  abbrev pub ring_after : BatchProcessor → SpscRing Ptr
  ring_after bp = (SpscRing.dequeue_burst rs null burst_size bp.ring).2

  pub burst_list :
      (bp : BatchProcessor)
      → IsValid rs bp.ring
      → let (n, pkts, ring') = SpscRing.dequeue_burst rs null burst_size bp.ring in
        (n ≡ min burst_size (length (waiting rs bp)))
        × (pkts ≡ take burst_size (waiting rs bp))
        × (contents rs null ring' ≡ drop burst_size (waiting rs bp))
  unfolding Fifo.dequeue_burst
  burst_list bp v =
      let e = dequeue_burst_refines cap null burst_size bp.ring v in
      (ap (λ t. t.0) e, ap (λ t. t.1) e, ap (λ t. t.2) e)

  -- `process_burst` takes the oldest packets, 32 at most, calls the handler on each in order, adds
  -- up their lengths and numbers, counts one burst and returns the packets to the pool; with no
  -- packet waiting it returns 0 and changes no counter. It reads no null pointer, if none was sent.
  pub process_burst_lem :
      (bp : BatchProcessor)
      → IsValid rs bp.ring
      → AllBlocks (waiting rs bp)
      → bp.stats.bytes_processed < 2 ^ 64
      → let pkts = take burst_size (waiting rs bp) in
        (process_burst rs ps bp ≡ (
          if length pkts == 0
          then some (0, record bp { ring = ring_after bp })
          else some (length pkts, after_burst ps pkts (ring_after bp) bp)))
        × (waiting rs (record bp { ring = ring_after bp }) ≡ drop burst_size (waiting rs bp))
  unfolding process_burst finish_burst
  process_burst_lem bp v all small = (
    ap₂ body (burst_list bp v).0 (burst_list bp v).1
        ∙ ap (λ (n : ℕ). body n pkts) (sym (length-take burst_size (waiting rs bp)))
        ∙ ap (λ o. if length pkts == 0 then idle else finish_burst rs ps (length pkts) pkts bp' o)
            (process_loop_lem rs ps bp.handler pkts bp.memory bp.stats.bytes_processed
              (AllBlocks-take burst_size (waiting rs bp) all) small),
    (burst_list bp v).2,
  )
    where
      pkts : List Ptr
      pkts = take burst_size (waiting rs bp)

      bp' : BatchProcessor
      bp' = record bp { ring = ring_after bp }

      idle : Option (ℕ × BatchProcessor)
      idle = some (0, bp')

      body : ℕ → List Ptr → Option (ℕ × BatchProcessor)
      body n qs =
          if n == 0
          then idle
          else finish_burst rs ps n qs bp'
              (process_loop rs ps bp.handler qs bp.memory bp.stats.bytes_processed)
