-- ===== src/DpdkSim/PacketProcessor/Send.antt =====
-- `send` in a session: into the ring, or back to the pool.
use mathlib.Core.List.{perm_append_singleton, perm_middle}
use mathlib.Core.List.Perm
use ebpf_system_monitor.Base.{
  ℕ, ◌+◌, ◌<◌, ◌≤◌, ◌≡◌, refl, ◌∙◌, ap, true, false, List, [], ◌∷◌, ◌++◌, Perm, arith, length,
  add64, leb, dec_lt, length-append,
}
use ebpf_system_monitor.DpdkSim.Fifo
use ebpf_system_monitor.DpdkSim.SpscRing
use ebpf_system_monitor.DpdkSim.SpscRing.{SpscRing}
use ebpf_system_monitor.DpdkSim.SpscRing.Capacity.{IsCapacity}
use ebpf_system_monitor.DpdkSim.SpscRing.Valid.{IsValid, contents}
use ebpf_system_monitor.DpdkSim.SpscRing.Single.{enqueue_refines, enqueue-IsValid}
use ebpf_system_monitor.DpdkSim.MemoryPool
use ebpf_system_monitor.DpdkSim.MemoryPool.{MemoryPool, Ptr, null, block}
use ebpf_system_monitor.DpdkSim.MemoryPool.Ownership.{frees, IsOwned-perm, Step-IsOwned}
use ebpf_system_monitor.DpdkSim.PacketProcessor.{BatchProcessor, send}
use ebpf_system_monitor.DpdkSim.PacketProcessor.Burst.{waiting}
use ebpf_system_monitor.DpdkSim.PacketProcessor.Session.{Session, IsSound}

module _ {rs ps : ℕ} (rcap : IsCapacity rs) (pcap : IsCapacity ps) where
  -- The result of `enqueue` and the packets that wait after it.
  enqueue_list :
      (x : Ptr) (bp : BatchProcessor)
      → IsValid rs bp.ring
      → ((SpscRing.enqueue rs x bp.ring).0 ≡ (Fifo.enqueue rs x (waiting rs bp)).0)
        × (contents rs null (SpscRing.enqueue rs x bp.ring).1
            ≡ (Fifo.enqueue rs x (waiting rs bp)).1)
  enqueue_list x bp v =
      let e = enqueue_refines rcap null x bp.ring v in (ap (λ t. t.0) e, ap (λ t. t.1) e)

  pub queued :
      (x : Ptr) (bp : BatchProcessor)
      → IsValid rs bp.ring
      → length (waiting rs bp) < rs
      → (send rs ps x bp ≡ (true, record bp { ring = (SpscRing.enqueue rs x bp.ring).1 }))
        × (contents rs null (SpscRing.enqueue rs x bp.ring).1 ≡ waiting rs bp ++ (x ∷ []))
  unfolding send Fifo.enqueue
  queued x bp v room =
      let (result, list) = enqueue_list x bp v in
      let free : leb rs (length (waiting rs bp)) ≡ false = ground arith in
      let ok : (SpscRing.enqueue rs x bp.ring).0 ≡ true = result ∙ rw free in
      (rw (ok, send), list ∙ rw free)

  pub refused :
      (x : Ptr) (bp : BatchProcessor)
      → IsValid rs bp.ring
      → rs ≤ length (waiting rs bp)
      → (send rs ps x bp ≡ (
        false,
        record bp {
          ring = (SpscRing.enqueue rs x bp.ring).1;
          stats = record (bp.stats) { pkts_dropped = add64 bp.stats.pkts_dropped 1 };
          pool = MemoryPool.free ps x bp.pool;
        },
      ))
        × (contents rs null (SpscRing.enqueue rs x bp.ring).1 ≡ waiting rs bp)
  unfolding send Fifo.enqueue
  refused x bp v full =
      let (result, list) = enqueue_list x bp v in
      let taken : leb rs (length (waiting rs bp)) ≡ true = ground arith in
      let failed : (SpscRing.enqueue rs x bp.ring).0 ≡ false = result ∙ rw taken in
      (rw (failed, send), list ∙ rw taken)

  pub send-IsSound :
      (s : Session) (x : Ptr) (rest : List Ptr)
      → IsSound rs ps s
      → Perm s.held (x ∷ rest)
      → IsSound rs ps (record { proc = (send rs ps x s.proc).1; held = rest; sends = s.sends + 1 })
  send-IsSound s x rest i p = elim (dec_lt (length (waiting rs s.proc)) rs) [
    | yes room ↦
        let (result, list) = queued x s.proc i.ring_valid room in
        rw result (record {
          ring_valid = enqueue-IsValid rcap null x s.proc.ring i.ring_valid;
          owned = rw list (IsOwned-perm (into_ring (waiting rs s.proc)) i.owned);
          bytes_fit = i.bytes_fit;
          balanced =
              omega (arith, i.balanced, ap length list, length-append (waiting rs s.proc) (x ∷ []));
        })
    | no full ↦
        let (result, list) = refused x s.proc i.ring_valid (omega arith) in
        rw result (record {
          ring_valid = enqueue-IsValid rcap null x s.proc.ring i.ring_valid;
          owned = rw list (
              Step-IsOwned pcap (frees x (rest ++ waiting rs s.proc) (Perm.append_right _ p) refl)
                i.owned);
          bytes_fit = i.bytes_fit;
          balanced = omega (arith, i.balanced, ap length list);
        })
  ]
    where
      into_ring : (q : List Ptr) → Perm (s.held ++ q) (rest ++ (q ++ (x ∷ [])))
      into_ring q = Perm.trans (Perm.append_right q p) (
          Perm.trans (Perm.symm (perm_middle rest q))
            (Perm.append_left rest (Perm.symm (perm_append_singleton x q))))
