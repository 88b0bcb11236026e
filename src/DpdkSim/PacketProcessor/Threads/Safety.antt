-- ===== src/DpdkSim/PacketProcessor/Threads/Safety.antt =====
-- What the two threads can rely on.
use mathlib.Core.List.{Mem, Nodup, Nodup-append, mem-append_left, mem-append_right, mem-cons_self}
use mathlib.Core.List.Perm
use ebpf_system_monitor.Base.{
  ℕ, ◌+◌, ◌%◌, ◌^◌, ◌<◌, ◌≤◌, ◌≡◌, refl, ap, ◌∙◌, some, true, List, [], ◌∷◌, ◌++◌, Perm, arith,
  length, length-append, length-perm,
}
use ebpf_system_monitor.DpdkSim.SpscRing
use ebpf_system_monitor.DpdkSim.SpscRing.Capacity.{IsCapacity}
use ebpf_system_monitor.DpdkSim.MemoryPool.{Ptr, null, block}
use ebpf_system_monitor.DpdkSim.MemoryPool.Contents.{free_list, blocks_from}
use ebpf_system_monitor.DpdkSim.MemoryPool.Guarantees.{blocks_from-Nodup}
use ebpf_system_monitor.DpdkSim.MemoryPool.Ownership.{IsOwned-count, not-mem-blocks_from}
use ebpf_system_monitor.DpdkSim.PacketProcessor.{
  PacketHandler, Memory, construct, alloc_packet, send,
}
use ebpf_system_monitor.DpdkSim.PacketProcessor.Burst.{waiting}
use ebpf_system_monitor.DpdkSim.PacketProcessor.Send.{queued}
use ebpf_system_monitor.DpdkSim.PacketProcessor.Threads.{
  Position, outside, handling, freeing, State, consume, allocates, fills, submits, consumes, Reach,
  starts, turns,
}
use ebpf_system_monitor.DpdkSim.PacketProcessor.Threads.Accounts.{
  in_burst, uncounted, accounted, IsKept,
}
use ebpf_system_monitor.DpdkSim.PacketProcessor.Threads.Conserved.{Reach-IsKept}

module _ {rs ps : ℕ} (rcap : IsCapacity rs) (pcap : IsCapacity ps) {h : PacketHandler} {m : Memory}
    {s : State} (r : Reach rs ps h m s) where
  kept : IsKept rs ps s
  kept = Reach-IsKept rcap pcap r

  -- Then the ring has room for a packet that the producer holds.
  held_fits :
      ps ≤ rs
      → (x : Ptr) (rest : List Ptr) → Perm s.held (x ∷ rest)
      → send rs ps x s.proc
        ≡ (true, record (s.proc) { ring = (SpscRing.enqueue rs x s.proc.ring).1 })
  held_fits small x rest p = (queued rcap pcap x s.proc kept.sound.ring_valid room).0
    where
      room : length (waiting rs s.proc) < rs
      room = omega (
        arith,
        IsOwned-count kept.sound.owned,
        length-append (s.held ++ in_burst s.position) (waiting rs s.proc),
        length-append s.held (in_burst s.position),
        length-perm p,
      )

  -- If the pool is no larger than the ring, `send` of a held packet succeeds, whatever the processor is
  -- doing: so the producer never frees a packet, and only the processor sends into the free list.
  pub send_succeeds :
      ps ≤ rs
      → (x : Ptr) (rest : List Ptr) → Perm s.held (x ∷ rest)
      → (send rs ps x s.proc).0 ≡ true
  send_succeeds small x rest p = ap (λ t. t.0) (held_fits small x rest p)

module _ {rs ps : ℕ} (rcap : IsCapacity rs) (pcap : IsCapacity ps) where
  consume-drops :
      (pos : Position) (s t : State)
      → consume rs ps pos s ≡ some t
      → t.proc.stats.pkts_dropped ≡ s.proc.stats.pkts_dropped
  unfolding consume
  consume-drops outside s t e = ground arith
  consume-drops (handling n seen []) s t e = ground arith
  consume-drops (handling n seen (null ∷ rest)) s t e = cc
  consume-drops (handling n seen (block b ∷ rest)) s t e = ground arith
  consume-drops (freeing pkts) s t e = ground arith

  no_drops :
      {h : PacketHandler} {m : Memory} {s : State}
      → ps ≤ rs
      → Reach rs ps h m s
      → s.proc.stats.pkts_dropped ≡ 0
  unfolding construct alloc_packet
  no_drops small (starts bp e) = ground arith
  no_drops small (turns r (allocates e)) = rw e (no_drops small r)
  no_drops small (turns r (fills b pkt rest p e)) = rw e (no_drops small r)
  no_drops small (turns r (submits x rest p e)) =
      rw (e, held_fits rcap pcap r small x rest p) (no_drops small r)
  no_drops small (turns {s} r (consumes e)) = consume-drops s.position s _ e ∙ no_drops small r

module _ {rs ps : ℕ} (rcap : IsCapacity rs) (pcap : IsCapacity ps) {h : PacketHandler} {m : Memory}
    {s : State} (r : Reach rs ps h m s) (small : ps ≤ rs) where
  -- If the pool is no larger than the ring, and the producer sends only packets that it holds: between
  -- any two steps of the producer and of the processor, every packet of the pool is free, held by the
  -- producer, in the burst under way or waiting in the ring, once; none has been dropped; and the packets
  -- processed, dropped and waiting, and those of the burst that are not counted yet, add up to the calls
  -- of send, modulo 2 ^ 64.
  pub threads_conserved :
      Perm
        (free_list ps s.proc.pool ++ ((s.held ++ in_burst s.position) ++ waiting rs s.proc))
        (blocks_from 0 ps)
      × (s.proc.stats.pkts_dropped ≡ 0)
      × ((accounted rs s.proc + uncounted s.position) % 2 ^ 64 ≡ s.sends % 2 ^ 64)
  threads_conserved =
      let k = kept rcap pcap r in (k.sound.owned.parted, no_drops rcap pcap small r, k.balanced)

  goes_on :
      (pos : Position) → ¬ Mem null (in_burst pos) → (t : State) × (consume rs ps pos s ≡ some t)
  unfolding consume
  goes_on outside no_null = (_, refl)
  goes_on (handling n seen []) no_null = (_, refl)
  goes_on (handling n seen (null ∷ rest)) no_null =
      absurd (no_null (mem-append_right seen mem-cons_self))
  goes_on (handling n seen (block b ∷ rest)) no_null = (_, refl)
  goes_on (freeing pkts) no_null = (_, refl)

  -- If the pool is no larger than the ring, and the producer sends only packets that it holds, which
  -- are never null, the processor's next step does not read through a null pointer.
  pub burst_goes_on : (t : State) × (consume rs ps s.position s ≡ some t)
  burst_goes_on = goes_on s.position λ null_in. not-mem-blocks_from 0 ps null refl (
      (Perm.mem_iff (kept rcap pcap r).sound.owned.parted).0 (
        mem-append_right (free_list ps s.proc.pool)
          (mem-append_left (waiting rs s.proc) (mem-append_right s.held null_in))))

  -- If the pool is no larger than the ring, and the producer sends only packets that it holds: a packet
  -- of the burst under way is not one that the producer holds, and fills, nor one that it can get from
  -- the pool.
  pub burst_is_exclusive :
      (x : Ptr) → Mem x (in_burst s.position) → ¬ Mem x s.held × ¬ Mem x (free_list ps s.proc.pool)
  burst_is_exclusive x here =
      let all : Nodup
          (free_list ps s.proc.pool ++ ((s.held ++ in_burst s.position) ++ waiting rs s.proc)) =
        Perm.nodup (Perm.symm (kept rcap pcap r).sound.owned.parted) (blocks_from-Nodup 0 ps) in
      let (_, used, free_or_used) = Nodup-append.0 all in
      let (ours, _, _) = Nodup-append.0 used in
      let (_, _, held_or_burst) = Nodup-append.0 ours in
      (
        λ held. held_or_burst x held here,
        λ free.
            free_or_used x free
              (mem-append_left (waiting rs s.proc) (mem-append_right s.held here)),
      )
