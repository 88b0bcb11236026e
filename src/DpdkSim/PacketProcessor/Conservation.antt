-- ===== src/DpdkSim/PacketProcessor/Conservation.antt =====
-- No packet is lost between the pool, the producer and the ring, and every send is accounted for.
use mathlib.Core.List.{perm_append_comm}
use mathlib.Core.List.Perm
use mathlib.Core.Option.{some-injective}
use ebpf_system_monitor.Base.{
  ℕ, ◌+◌, ◌%◌, ◌^◌, ◌<◌, ◌≤◌, ◌≡◌, refl, ◌∙◌, ap, sym, subst, true, some, List, [], ◌∷◌, ◌++◌, Perm,
  arith, length, take, drop, if◌then◌else◌, ◌==◌, Bool-cases, length-append, length-take,
  length-drop, append_assoc, take-append-drop, length-perm, ==_iff, inl, inr,
}
use ebpf_system_monitor.DpdkSim.SpscRing.Capacity.{IsCapacity}
use ebpf_system_monitor.DpdkSim.SpscRing.Valid.{init-IsValid, contents-init}
use ebpf_system_monitor.DpdkSim.SpscRing.Burst.{dequeue_burst-IsValid}
use ebpf_system_monitor.DpdkSim.MemoryPool.{Ptr, null}
use ebpf_system_monitor.DpdkSim.MemoryPool.Contents.{free_list, blocks_from}
use ebpf_system_monitor.DpdkSim.MemoryPool.Ownership.{
  frees_burst, IsOwned-count, Step-IsOwned, init-IsOwned,
}
use ebpf_system_monitor.DpdkSim.PacketProcessor.{
  Memory, PacketHandler, BatchProcessor, burst_size, construct, send, process_burst,
}
use ebpf_system_monitor.DpdkSim.PacketProcessor.Burst.{
  waiting, ring_after, after_burst, process_burst_lem,
}
use ebpf_system_monitor.DpdkSim.PacketProcessor.Session.{
  Session, Turn, allocates, submits, processes, Run, starts, turns, IsSound, alloc-IsSound,
  waiting-AllBlocks,
}
use ebpf_system_monitor.DpdkSim.PacketProcessor.Send.{send-IsSound, queued}

pub nil_of_length : {A : Type 0} (xs : List A) → length xs ≡ 0 → xs ≡ []
nil_of_length [] e = refl
nil_of_length (x ∷ xs) e = absurd (omega arith)

-- The first packets of the ring, put before what the producer holds.
burst_first : (n : ℕ) (held q : List Ptr) → Perm (held ++ q) (take n q ++ (held ++ drop n q))
burst_first n held q = Perm.trans (same (ap (◌++◌ held) (sym (take-append-drop n q)))) (
    Perm.trans (same (sym (append_assoc held (take n q) (drop n q)))) (
      Perm.trans (Perm.append_right (drop n q) (perm_append_comm held (take n q)))
        (same (append_assoc (take n q) held (drop n q)))))
  where
    same : {xs ys : List Ptr} → xs ≡ ys → Perm xs ys
    same {xs} e = subst (Perm xs) e (Perm.refl xs)

module _ {rs ps : ℕ} (rcap : IsCapacity rs) (pcap : IsCapacity ps) where
  left_over :
      (s : Session)
      → IsSound rs ps s
      → waiting rs (record (s.proc) { ring = ring_after rcap ps s.proc })
        ≡ drop burst_size (waiting rs s.proc)
  left_over s i =
      (process_burst_lem rcap ps s.proc i.ring_valid (waiting-AllBlocks rcap pcap s i)
        i.bytes_fit).1

  idle-IsSound :
      (s : Session)
      → IsSound rs ps s
      → length (take burst_size (waiting rs s.proc)) ≡ 0
      → IsSound rs ps (record s { proc = record (s.proc) { ring = ring_after rcap ps s.proc } })
  idle-IsSound s i empty = record {
    ring_valid = dequeue_burst-IsValid rcap null burst_size s.proc.ring i.ring_valid;
    owned = rw same i.owned;
    bytes_fit = i.bytes_fit;
    balanced = rw same i.balanced;
  }
    where
      same : waiting rs (record (s.proc) { ring = ring_after rcap ps s.proc }) ≡ waiting rs s.proc
      same =
          left_over s i
          ∙ ap (λ (l : List Ptr). l ++ drop burst_size (waiting rs s.proc))
              (sym (nil_of_length (take burst_size (waiting rs s.proc)) empty))
          ∙ take-append-drop burst_size (waiting rs s.proc)

  -- The two results of a burst.
  burst-IsSound :
      (s : Session)
      → IsSound rs ps s
      → IsSound rs ps (record s {
        proc =
            after_burst ps (take burst_size (waiting rs s.proc)) (ring_after rcap ps s.proc) s.proc;
      })
  burst-IsSound s i = record {
    ring_valid = dequeue_burst-IsValid rcap null burst_size s.proc.ring i.ring_valid;
    owned = rw (left_over s i) (
        Step-IsOwned pcap
          (frees_burst (take burst_size q) (s.held ++ drop burst_size q)
            (burst_first burst_size s.held q) refl)
          i.owned);
    bytes_fit = omega arith;
    balanced = omega (
      arith,
      i.balanced,
      ap length (left_over s i),
      length-take burst_size q,
      length-drop burst_size q,
    );
  }
    where
      q : List Ptr
      q = waiting rs s.proc

  -- A burst ends in one of these two states.
  burst_cases :
      (s : Session)
      → IsSound rs ps s
      → (bp : BatchProcessor) × (n : ℕ) × (process_burst rs ps s.proc ≡ some (n, bp))
        × IsSound rs ps (record s { proc = bp })
  burst_cases s i = elim (Bool-cases (length (take burst_size (waiting rs s.proc)) == 0)) [
    | inl none_waits ↦ (
      record (s.proc) { ring = ring_after rcap ps s.proc },
      0,
      result ∙ rw none_waits,
      idle-IsSound s i ((==_iff _ 0).0 none_waits),
    )
    | inr some_wait ↦ (
      after_burst ps (take burst_size (waiting rs s.proc)) (ring_after rcap ps s.proc) s.proc,
      length (take burst_size (waiting rs s.proc)),
      result ∙ rw some_wait,
      burst-IsSound s i,
    )
  ]
    where
      result : process_burst rs ps s.proc ≡ (
          if length (take burst_size (waiting rs s.proc)) == 0
          then some (0, record (s.proc) { ring = ring_after rcap ps s.proc })
          else some (
            length (take burst_size (waiting rs s.proc)),
            after_burst ps (take burst_size (waiting rs s.proc)) (ring_after rcap ps s.proc) s.proc,
          ))
      result =
          (process_burst_lem rcap ps s.proc i.ring_valid (waiting-AllBlocks rcap pcap s i)
            i.bytes_fit).0

  Turn-IsSound : {s t : Session} → Turn rs ps s t → IsSound rs ps s → IsSound rs ps t
  Turn-IsSound {s} (allocates e) i = rw e (alloc-IsSound rcap pcap s i)
  Turn-IsSound {s} (submits x rest p e) i = rw e (send-IsSound rcap pcap s x rest i p)
  Turn-IsSound {s} (processes n bp done e) i =
      let (bp', m, done', i') = burst_cases s i in
      let same : bp' ≡ bp = ap (λ t. t.1) (some-injective _ _ (sym done' ∙ done)) in
      rw e (subst (λ b. IsSound rs ps (record s { proc = b })) same i')

  pub construct-IsSound :
      (h : PacketHandler) (m : Memory) (bp : BatchProcessor)
      → construct rs ps (some h) m ≡ some bp
      → IsSound rs ps (record { proc = bp; held = []; sends = 0 })
  unfolding construct
  construct-IsSound h m bp e =
      subst (λ b. IsSound rs ps (record { proc = b; held = []; sends = 0 })) (some-injective _ _ e)
        (record {
          ring_valid = init-IsValid rs null;
          owned = rw (contents-init rs null) (init-IsOwned pcap);
          bytes_fit = omega arith;
          balanced = omega (arith, ap length (contents-init rs null));
        })

  pub Run-IsSound :
      {h : PacketHandler} {m : Memory} {s : Session} → Run rs ps h m s → IsSound rs ps s
  Run-IsSound {h} {m} (starts bp e) = construct-IsSound h m bp e
  Run-IsSound (turns r t) = Turn-IsSound t (Run-IsSound r)

module _ {rs ps : ℕ} (rcap : IsCapacity rs) (pcap : IsCapacity ps) {h : PacketHandler} {m : Memory}
    {s : Session} (r : Run rs ps h m s) where
  -- However the calls are ordered, every packet of the pool is free, held by the producer or
  -- waiting in the ring, once; and the packets processed, dropped and waiting add up to the calls
  -- of `send`, modulo 2 ^ 64.
  pub packets_conserved :
      Perm (free_list ps s.proc.pool ++ (s.held ++ waiting rs s.proc)) (blocks_from 0 ps)
      × ((s.proc.stats.pkts_processed + s.proc.stats.pkts_dropped + length (waiting rs s.proc))
            % 2 ^ 64
          ≡ s.sends % 2 ^ 64)
  packets_conserved = let i = Run-IsSound rcap pcap r in (i.owned.parted, i.balanced)

  -- A burst never reads through a null pointer.
  pub process_burst_total :
      (n : ℕ) × (bp : BatchProcessor) × (process_burst rs ps s.proc ≡ some (n, bp))
  process_burst_total =
      let (bp, n, e, _) = burst_cases rcap pcap s (Run-IsSound rcap pcap r) in (n, bp, e)

  -- With a pool no larger than the ring, `send` of a held packet never fails.
  pub send_never_drops :
      ps ≤ rs
      → (x : Ptr) (rest : List Ptr) → Perm s.held (x ∷ rest)
      → (send rs ps x s.proc).0 ≡ true
  send_never_drops small x rest p = ap (λ t. t.0) (queued rcap pcap x s.proc i.ring_valid room).0
    where
      i : IsSound rs ps s
      i = Run-IsSound rcap pcap r

      room : length (waiting rs s.proc) < rs
      room =
          omega
            (arith, IsOwned-count i.owned, length-append s.held (waiting rs s.proc), length-perm p)
