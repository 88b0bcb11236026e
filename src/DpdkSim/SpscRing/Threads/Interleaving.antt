-- ===== src/DpdkSim/SpscRing/Threads/Interleaving.antt =====
-- Every order of the threads' steps, from a new ring on.
use ebpf_system_monitor.Base.{
  ℕ, ◌≡◌, refl, subst, none, some, Option-cases, inl, inr, List, [], ◌∷◌, arith,
}
use ebpf_system_monitor.DpdkSim.SpscRing.{init}
use ebpf_system_monitor.DpdkSim.SpscRing.Capacity.{IsCapacity}
use ebpf_system_monitor.DpdkSim.SpscRing.Valid.{init-IsValid}
use ebpf_system_monitor.DpdkSim.SpscRing.Threads.{
  Producer, Consumer, System, Move, calls_enqueue, calls_enqueue_burst, produces, calls_dequeue,
  calls_dequeue_burst, consumes, start, begin_produce, begin_consume, step, run,
}
use ebpf_system_monitor.DpdkSim.SpscRing.Threads.Invariant.{Produces, Consumes, IsSound, After}
use ebpf_system_monitor.DpdkSim.SpscRing.Threads.Producing.{produce-IsSound}
use ebpf_system_monitor.DpdkSim.SpscRing.Threads.Consuming.{consume-IsSound}

module _ {A : Type 0} {c : ℕ} (cap : IsCapacity c) (blank : A) where
  pub start-IsSound : IsSound c blank (start c blank)
  unfolding start init
  start-IsSound =
      let v = init-IsValid c blank in
      record {
        valid = v;
        seen_tail_fits = omega arith;
        seen_head_fits = omega arith;
        room = omega arith;
        items = omega arith;
        produces = tt;
        consumes = tt;
        explained = refl;
      }

  begin_produce-IsSound :
      (pos next : Producer A) (s : System A)
      → IsSound c blank s
      → Produces c blank next s.ring.slots s.ring.head s.seen_tail
      → After (IsSound c blank) (begin_produce c blank pos next s)
  begin_produce-IsSound Producer.idle next s v h = record {
    valid = v.valid;
    seen_tail_fits = v.seen_tail_fits;
    seen_head_fits = v.seen_head_fits;
    room = v.room;
    items = v.items;
    produces = h;
    consumes = v.consumes;
    explained = v.explained;
  }
  begin_produce-IsSound (Producer.enqueue_checks x h) next s v p = tt
  begin_produce-IsSound (Producer.enqueue_stores x h) next s v p = tt
  begin_produce-IsSound (Producer.enqueue_publishes x h) next s v p = tt
  begin_produce-IsSound (Producer.burst_checks xs h) next s v p = tt
  begin_produce-IsSound (Producer.burst_stores xs h cnt i rest left) next s v p = tt

  begin_consume-IsSound :
      (pos next : Consumer A) (s : System A)
      → IsSound c blank s
      → Consumes c blank next s.ring.slots s.ring.tail s.seen_head
      → After (IsSound c blank) (begin_consume c blank pos next s)
  begin_consume-IsSound Consumer.idle next s v h = record {
    valid = v.valid;
    seen_tail_fits = v.seen_tail_fits;
    seen_head_fits = v.seen_head_fits;
    room = v.room;
    items = v.items;
    produces = v.produces;
    consumes = h;
    explained = v.explained;
  }
  begin_consume-IsSound (Consumer.dequeue_checks t) next s v p = tt
  begin_consume-IsSound (Consumer.dequeue_loads t) next s v p = tt
  begin_consume-IsSound (Consumer.dequeue_publishes t x) next s v p = tt
  begin_consume-IsSound (Consumer.burst_checks n t) next s v p = tt
  begin_consume-IsSound (Consumer.burst_loads t cnt i xs left) next s v p = tt

  pub step-IsSound :
      (m : Move A) (s : System A) → IsSound c blank s → After (IsSound c blank) (step c blank m s)
  unfolding step
  step-IsSound (calls_enqueue x) s v = begin_produce-IsSound s.producer _ s v refl
  step-IsSound (calls_enqueue_burst xs) s v = begin_produce-IsSound s.producer _ s v refl
  step-IsSound (produces lag) s v = produce-IsSound cap blank s v s.producer lag v.produces
  step-IsSound calls_dequeue s v = begin_consume-IsSound s.consumer _ s v refl
  step-IsSound (calls_dequeue_burst n) s v = begin_consume-IsSound s.consumer _ s v refl
  step-IsSound (consumes lag) s v = consume-IsSound cap blank s v s.consumer lag v.consumes

  pub run-keeps :
      (ms : List (Move A)) (s t : System A)
      → run c blank ms s ≡ some t
      → IsSound c blank s
      → IsSound c blank t
  unfolding run
  run-keeps [] s t r v = let same : s ≡ t = cc in subst (IsSound c blank) same v
  run-keeps (m ∷ ms) s t r v = elim (Option-cases (step c blank m s)) [
    | inl n ↦ let r' : none ≡ some t = rw (n, run) at r in cc
    | inr (u, go) ↦
        run-keeps ms u t (rw (go, run) at r)
          (subst (After (IsSound c blank)) go (step-IsSound m s v))
  ]

  pub run-IsSound :
      (ms : List (Move A)) (s : System A)
      → run c blank ms (start c blank) ≡ some s
      → IsSound c blank s
  run-IsSound ms s r = run-keeps ms (start c blank) s r start-IsSound
