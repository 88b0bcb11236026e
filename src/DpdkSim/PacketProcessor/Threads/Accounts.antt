-- ===== src/DpdkSim/PacketProcessor/Threads/Accounts.antt =====
-- Where the packets are and what the counters show between two steps, and that the producer's steps keep
-- it.
use mathlib.Core.List.Perm
use ebpf_system_monitor.Base.{
  ℕ, ◌+◌, ◌%◌, ◌^◌, ◌≡◌, refl, ap, sym, subst, Option, none, some, List, [], ◌∷◌, ◌++◌, Perm, arith,
  length,
}
use ebpf_system_monitor.DpdkSim.SpscRing.Capacity.{IsCapacity}
use ebpf_system_monitor.DpdkSim.MemoryPool.{Ptr}
use ebpf_system_monitor.DpdkSim.MemoryPool.Ownership.{hold}
use ebpf_system_monitor.DpdkSim.PacketProcessor.{BatchProcessor, Memory, send, alloc_packet}
use ebpf_system_monitor.DpdkSim.PacketProcessor.Burst.{waiting}
use ebpf_system_monitor.DpdkSim.PacketProcessor.Session.{
  Session, IsSound, alloc-IsSound, hold-append,
}
use ebpf_system_monitor.DpdkSim.PacketProcessor.Send.{send-IsSound}
use ebpf_system_monitor.DpdkSim.PacketProcessor.Threads.{
  Position, outside, handling, freeing, State,
}

-- The packets of the burst under way, and how many of them pkts_processed does not count yet.
abbrev pub in_burst : Position → List Ptr
in_burst outside = []
in_burst (handling n seen rest) = seen ++ rest
in_burst (freeing pkts) = pkts

abbrev pub uncounted : Position → ℕ
uncounted outside = 0
uncounted (handling n seen rest) = length (seen ++ rest)
uncounted (freeing pkts) = 0

abbrev pub Counted : Position → Type 0
Counted outside = Unit {0}
Counted (handling n seen rest) = n ≡ length (seen ++ rest)
Counted (freeing pkts) = Unit {0}

abbrev pub accounted : ℕ → BatchProcessor → ℕ
accounted rs bp = bp.stats.pkts_processed + bp.stats.pkts_dropped + length (waiting rs bp)

-- The state as one of whole calls, with a producer that holds the burst as well.
abbrev pub as_session : ℕ → State → Session
as_session rs s = record {
  proc = s.proc;
  held = s.held ++ in_burst s.position;
  sends = accounted rs s.proc;
}

pub record IsKept (rs ps : ℕ) (s : State) : Type 0 where
  pub sound : IsSound rs ps (as_session rs s)
  pub counted : Counted s.position
  pub balanced : (accounted rs s.proc + uncounted s.position) % 2 ^ 64 ≡ s.sends % 2 ^ 64

abbrev pub After : {A : Type 0} → (A → Type 0) → Option A → Type 0
After P none = Unit {0}
After P (some a) = P a

module _ {rs ps : ℕ} (rcap : IsCapacity rs) (pcap : IsCapacity ps) where
  -- What the whole calls keep, whatever number of sends they have counted.
  pub any_sends :
      (s : Session) (n : ℕ)
      → IsSound rs ps s
      → n ≡ accounted rs s.proc
      → IsSound rs ps (record s { sends = n })
  any_sends s n i e = record {
    ring_valid = i.ring_valid;
    owned = i.owned;
    bytes_fit = i.bytes_fit;
    balanced = ap (λ (k : ℕ). k % 2 ^ 64) (sym e);
  }

  pub alloc-IsKept :
      (s : State)
      → IsKept rs ps s
      → IsKept rs ps (record s {
        proc = (alloc_packet rs ps s.proc).1;
        held = hold (alloc_packet rs ps s.proc).0 s.held;
      })
  unfolding alloc_packet
  alloc-IsKept s k = record {
    sound =
        subst
          (λ (l : List Ptr). IsSound rs ps (record {
            proc = (alloc_packet rs ps s.proc).1;
            held = l;
            sends = accounted rs s.proc;
          }))
          (hold-append rcap pcap (alloc_packet rs ps s.proc).0 s.held (in_burst s.position))
          (alloc-IsSound rcap pcap (as_session rs s) k.sound);
    counted = k.counted;
    balanced = k.balanced;
  }

  pub fills-IsKept :
      (s : State) (m : Memory)
      → IsKept rs ps s
      → IsKept rs ps (record s { proc = record (s.proc) { memory = m } })
  fills-IsKept s m k = record {
    sound = record {
      ring_valid = k.sound.ring_valid;
      owned = k.sound.owned;
      bytes_fit = k.sound.bytes_fit;
      balanced = k.sound.balanced;
    };
    counted = k.counted;
    balanced = k.balanced;
  }

  pub send-IsKept :
      (s : State) (x : Ptr) (rest : List Ptr)
      → Perm s.held (x ∷ rest)
      → IsKept rs ps s
      → IsKept rs ps (record s { proc = (send rs ps x s.proc).1; held = rest; sends = s.sends + 1 })
  send-IsKept s x rest p k =
      let i =
        send-IsSound rcap pcap (as_session rs s) x (rest ++ in_burst s.position) k.sound
          (Perm.append_right (in_burst s.position) p) in
      record {
        sound = any_sends _ (accounted rs (send rs ps x s.proc).1) i refl;
        counted = k.counted;
        balanced = omega (arith, i.balanced, k.balanced);
      }
