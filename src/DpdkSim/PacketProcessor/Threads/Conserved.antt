-- ===== src/DpdkSim/PacketProcessor/Threads/Conserved.antt =====
-- Every packet is in one place, and every call of send is accounted for, between any two steps.
use mathlib.Core.List.{perm_append_comm}
use mathlib.Core.List.Perm
use ebpf_system_monitor.Base.{
  ℕ, ◌≡◌, refl, ◌∙◌, ap, ap₂, sym, subst, List, [], ◌∷◌, ◌++◌, Perm, arith, length, take, drop,
  ◌==◌, Bool-cases, inl, inr, length-take, length-drop, append_assoc, append-nil, take-append-drop,
  ==_iff,
}
use ebpf_system_monitor.DpdkSim.SpscRing
use ebpf_system_monitor.DpdkSim.SpscRing.{SpscRing}
use ebpf_system_monitor.DpdkSim.SpscRing.Capacity.{IsCapacity}
use ebpf_system_monitor.DpdkSim.SpscRing.Valid.{contents}
use ebpf_system_monitor.DpdkSim.SpscRing.Burst.{dequeue_burst-IsValid}
use ebpf_system_monitor.DpdkSim.MemoryPool.{Ptr, null, block}
use ebpf_system_monitor.DpdkSim.MemoryPool.Ownership.{IsOwned, frees_burst, Step-IsOwned}
use ebpf_system_monitor.DpdkSim.PacketProcessor.{PacketHandler, Memory, burst_size}
use ebpf_system_monitor.DpdkSim.PacketProcessor.Burst.{waiting, burst_list}
use ebpf_system_monitor.DpdkSim.PacketProcessor.Conservation.{nil_of_length, construct-IsSound}
use ebpf_system_monitor.DpdkSim.PacketProcessor.Threads.{
  Position, outside, handling, freeing, State, filled, consume, Turn, allocates, fills, submits,
  consumes, Reach, starts, turns,
}
use ebpf_system_monitor.DpdkSim.PacketProcessor.Threads.Accounts.{
  in_burst, uncounted, Counted, accounted, IsKept, After, any_sends, alloc-IsKept, fills-IsKept,
  send-IsKept,
}

module _ {rs ps : ℕ} (rcap : IsCapacity rs) (pcap : IsCapacity ps) where
  -- dequeue_burst, with the position after it.
  take_into :
      (s : State) (pos : Position)
      → IsKept rs ps (record s { position = outside })
      → in_burst pos ≡ take burst_size (waiting rs s.proc)
      → uncounted pos ≡ length (take burst_size (waiting rs s.proc))
      → Counted pos
      → IsKept rs ps (record s {
        proc = record (s.proc) { ring = (SpscRing.dequeue_burst rs null burst_size s.proc.ring).2 };
        position = pos;
      })
  take_into s pos k packets number counted =
      let q = waiting rs s.proc in
      let (_, _, left) = burst_list rcap ps s.proc k.sound.ring_valid in
      let same : (s.held ++ []) ++ q
          ≡ (s.held ++ in_burst pos)
            ++ contents rs null (SpscRing.dequeue_burst rs null burst_size s.proc.ring).2 =
        ap (λ (l : List Ptr). l ++ q) (append-nil s.held)
        ∙ ap (◌++◌ s.held) (sym (take-append-drop burst_size q))
        ∙ sym (append_assoc s.held (take burst_size q) (drop burst_size q))
        ∙ ap₂ (λ (a b : List Ptr). (s.held ++ a) ++ b) (sym packets) (sym left) in
      record {
        sound = record {
          ring_valid = dequeue_burst-IsValid rcap null burst_size s.proc.ring k.sound.ring_valid;
          owned =
              subst (λ (l : List Ptr). IsOwned ps (record { pool = s.proc.pool; held = l })) same
                k.sound.owned;
          bytes_fit = k.sound.bytes_fit;
          balanced = refl;
        };
        counted = counted;
        balanced = omega (
          arith,
          k.balanced,
          number,
          ap length left,
          length-take burst_size q,
          length-drop burst_size q,
        );
      }

  take-IsKept :
      (s : State)
      → IsKept rs ps (record s { position = outside })
      → After (IsKept rs ps) (consume rs ps outside s)
  unfolding consume
  take-IsKept s k =
      let n = (SpscRing.dequeue_burst rs null burst_size s.proc.ring).0 in
      let pkts = (SpscRing.dequeue_burst rs null burst_size s.proc.ring).1 in
      let q = waiting rs s.proc in
      let (count, taken, _) = burst_list rcap ps s.proc k.sound.ring_valid in
      let size = length-take burst_size q in
      elim (Bool-cases (n == 0)) [
        | inl none_waits ↦
            let none_taken : length (take burst_size q) ≡ 0 =
              omega (arith, (==_iff n 0).0 none_waits) in
            rw none_waits (
              take_into s outside k (sym (nil_of_length (take burst_size q) none_taken))
                (sym none_taken) tt)
        | inr some_wait ↦ rw some_wait (
            take_into s (handling n [] pkts) k taken (ap length taken)
              (omega (arith, ap length taken)))
      ]

  count-IsKept :
      (s : State) (n : ℕ) (seen : List Ptr)
      → IsKept rs ps (record s { position = handling n seen [] })
      → After (IsKept rs ps) (consume rs ps (handling n seen []) s)
  unfolding consume
  count-IsKept s n seen k = record {
    sound = record {
      ring_valid = k.sound.ring_valid;
      owned =
          subst
            (λ (l : List Ptr).
              IsOwned ps (record { pool = s.proc.pool; held = (s.held ++ l) ++ waiting rs s.proc }))
            (append-nil seen) k.sound.owned;
      bytes_fit = k.sound.bytes_fit;
      balanced = refl;
    };
    counted = tt;
    balanced = omega (arith, k.balanced, k.counted);
  }

  handle-IsKept :
      (s : State) (n b : ℕ) (seen rest : List Ptr)
      → IsKept rs ps (record s { position = handling n seen (block b ∷ rest) })
      → After (IsKept rs ps) (consume rs ps (handling n seen (block b ∷ rest)) s)
  unfolding consume
  handle-IsKept s n b seen rest k =
      let same : seen ++ (block b ∷ rest) ≡ (seen ++ (block b ∷ [])) ++ rest =
        sym (append_assoc seen (block b ∷ []) rest) in
      record {
        sound = record {
          ring_valid = k.sound.ring_valid;
          owned =
              subst
                (λ (l : List Ptr).
                  IsOwned ps
                    (record { pool = s.proc.pool; held = (s.held ++ l) ++ waiting rs s.proc }))
                same k.sound.owned;
          bytes_fit = omega arith;
          balanced = refl;
        };
        counted = k.counted ∙ ap length same;
        balanced = omega (arith, k.balanced, ap length same);
      }

  -- The burst goes back to the pool.
  free-IsKept :
      (s : State) (pkts : List Ptr)
      → IsKept rs ps (record s { position = freeing pkts })
      → After (IsKept rs ps) (consume rs ps (freeing pkts) s)
  unfolding consume
  free-IsKept s pkts k =
      let q = waiting rs s.proc in
      let front : Perm ((s.held ++ pkts) ++ q) (pkts ++ ((s.held ++ []) ++ q)) =
        Perm.trans (Perm.append_right q (perm_append_comm s.held pkts)) (
          subst (Perm ((pkts ++ s.held) ++ q))
            (append_assoc pkts s.held q
              ∙ ap (λ (l : List Ptr). pkts ++ (l ++ q)) (sym (append-nil s.held)))
            (Perm.refl ((pkts ++ s.held) ++ q))) in
      record {
        sound = record {
          ring_valid = k.sound.ring_valid;
          owned =
              Step-IsOwned pcap (frees_burst pkts ((s.held ++ []) ++ q) front refl) k.sound.owned;
          bytes_fit = k.sound.bytes_fit;
          balanced = refl;
        };
        counted = tt;
        balanced = k.balanced;
      }

  consume-IsKept :
      (pos : Position) (s : State)
      → IsKept rs ps (record s { position = pos })
      → After (IsKept rs ps) (consume rs ps pos s)
  unfolding consume
  consume-IsKept outside s k = take-IsKept s k
  consume-IsKept (handling n seen []) s k = count-IsKept s n seen k
  consume-IsKept (handling n seen (null ∷ rest)) s k = tt
  consume-IsKept (handling n seen (block b ∷ rest)) s k = handle-IsKept s n b seen rest k
  consume-IsKept (freeing pkts) s k = free-IsKept s pkts k

  Turn-IsKept : {s t : State} → Turn rs ps s t → IsKept rs ps s → IsKept rs ps t
  Turn-IsKept {s} (allocates e) k = rw e (alloc-IsKept rcap pcap s k)
  Turn-IsKept {s} (fills b pkt rest p e) k =
      rw e (fills-IsKept rcap pcap s (filled b pkt s.proc.memory) k)
  Turn-IsKept {s} (submits x rest p e) k = rw e (send-IsKept rcap pcap s x rest p k)
  Turn-IsKept {s} (consumes e) k = subst (After (IsKept rs ps)) e (consume-IsKept s.position s k)

  pub Reach-IsKept :
      {h : PacketHandler} {m : Memory} {s : State} → Reach rs ps h m s → IsKept rs ps s
  Reach-IsKept {h} {m} (starts bp e) =
      let i = construct-IsSound rcap pcap h m bp e in
      record {
        sound = any_sends rcap pcap _ (accounted rs bp) i refl;
        counted = tt;
        balanced = omega (arith, i.balanced);
      }
  Reach-IsKept (turns r t) = Turn-IsKept t (Reach-IsKept r)
