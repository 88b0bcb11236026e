-- ===== src/DpdkSim/SpscRing/Threads/Producing.antt =====
-- The steps of the producer keep the invariant.
use ebpf_system_monitor.Base.{
  ℕ, zero, suc, ◌+◌, ◌-◌, ◌%◌, ◌<◌, ◌≤◌, ◌≡◌, min, refl, sym, ap, ◌∙◌, subst, inl, inr, Bool-cases,
  none, some, List, [], ◌∷◌, ◌++◌, arith, add64, sub64, length, take, drop, set, bit_and, leb, ltb,
  if◌then◌else◌,
}
use ebpf_system_monitor.DpdkSim.SpscRing.{mask}
use ebpf_system_monitor.DpdkSim.SpscRing.Capacity.{IsCapacity, mask_mod}
use ebpf_system_monitor.DpdkSim.SpscRing.Window.{window, length-window, window-set_next}
use ebpf_system_monitor.DpdkSim.SpscRing.Valid.{contents, slot_lem}
use ebpf_system_monitor.DpdkSim.SpscRing.Threads.{Producer, refuses, measures, System, produce}
use ebpf_system_monitor.DpdkSim.SpscRing.Threads.Invariant.{Produces, IsSound, After}
use ebpf_system_monitor.DpdkSim.SpscRing.Threads.Storing.{
  loaded_tail, check-IsSound, store-IsSound, publish-IsSound,
}

-- The item of round `i`.
take_next :
    {A : Type 0} (xs : List A) (i : ℕ) (x : A) (rest : List A)
    → x ∷ rest ≡ drop i xs
    → (take (i + 1) xs ≡ take i xs ++ (x ∷ [])) × (rest ≡ drop (i + 1) xs)
take_next [] zero x rest e = cc
take_next [] (suc i) x rest e = cc
take_next (y ∷ ys) zero x rest e = (cc, cc)
take_next (y ∷ ys) (suc i) x rest e =
    let one : suc i + 1 ≡ suc (i + 1) = omega arith in
    let (a, b) = take_next ys i x rest e in rw one (ap (◌∷◌ y) a, b)

module _ {A : Type 0} {c : ℕ} (cap : IsCapacity c) (blank : A) where
  module _ (s : System A) (v : IsSound c blank s) where
    room_at_head :
        sub64 s.ring.head s.seen_tail
        ≡ sub64 s.ring.head s.ring.tail + sub64 s.ring.tail s.seen_tail
    room_at_head =
        omega (arith, v.valid.head_fits, v.valid.tail_fits, v.seen_tail_fits, v.room, cap.fits)

    occupied : length (contents c blank s.ring) ≡ sub64 s.ring.head s.ring.tail
    occupied = length-window c blank s.ring.slots s.ring.tail (sub64 s.ring.head s.ring.tail)

    load_tail-IsSound :
        (lag : ℕ) (t : System A)
        → (lag ≤ sub64 s.ring.tail s.seen_tail → IsSound c blank t)
        → After (IsSound c blank) (if leb lag (sub64 s.ring.tail s.seen_tail) then some t else none)
    load_tail-IsSound lag t then_sound =
        elim (Bool-cases (leb lag (sub64 s.ring.tail s.seen_tail))) [
          | inl known ↦ rw known (then_sound (ground arith))
          | inr older ↦ rw older tt
        ]

    enqueue_check :
        (item : A) (lag : ℕ)
        → lag ≤ sub64 s.ring.tail s.seen_tail
        → let t = sub64 s.ring.tail lag in
          IsSound c blank (
            if leb c (sub64 s.ring.head t)
            then record s { seen_tail = t; producer = Producer.idle; log = refuses lag ∷ s.log }
            else record s { seen_tail = t; producer = Producer.enqueue_stores item s.ring.head })
    enqueue_check item lag h =
        let t = sub64 s.ring.tail lag in
        let (a, b, d) = loaded_tail cap blank s v lag h in
        elim (Bool-cases (leb c (sub64 s.ring.head t))) [
          | inl full ↦ rw full (
              check-IsSound cap blank s v lag Producer.idle (refuses lag ∷ s.log) h tt
                (ground (arith, occupied), v.explained))
          | inr open_ ↦ rw open_ (
              check-IsSound cap blank s v lag (Producer.enqueue_stores item s.ring.head) s.log h
                (refl, ground arith) v.explained)
        ]

    burst_check :
        (xs : List A) (lag : ℕ)
        → lag ≤ sub64 s.ring.tail s.seen_tail
        → let t = sub64 s.ring.tail lag in
          let free = sub64 c (sub64 s.ring.head t) in
          let cnt = if ltb (length xs) free then length xs else free in
          IsSound c blank (record s {
            seen_tail = t;
            producer = Producer.burst_stores xs s.ring.head cnt 0 xs cnt;
            log = measures (length xs) cnt lag ∷ s.log;
          })
    burst_check xs lag h =
        let t = sub64 s.ring.tail lag in
        let (a, b, d) = loaded_tail cap blank s v lag h in
        let free = sub64 c (sub64 s.ring.head t) in
        let cnt = if ltb (length xs) free then length xs else free in
        let left : free ≡ c - (sub64 s.ring.head s.ring.tail + lag) = omega (arith, cap.fits) in
        let least : cnt ≡ min (length xs) free = ground arith in
        let size = occupied in
        check-IsSound cap blank s v lag (Producer.burst_stores xs s.ring.head cnt 0 xs cnt)
          (measures (length xs) cnt lag ∷ s.log) h
          (refl, omega arith, omega arith, omega arith, refl, refl)
          (omega arith, omega arith, v.explained)

    -- What the producer has stored grows by a store at its end.
    stored_next :
        (i j : ℕ) (x : A)
        → j ≡ (s.ring.head + i) % c
        → i < c
        → window c blank (set s.ring.slots j x) s.ring.head (suc i)
          ≡ window c blank s.ring.slots s.ring.head i ++ (x ∷ [])
    stored_next i j x at room =
        ap (λ (k : ℕ). window c blank (set s.ring.slots k x) s.ring.head (suc i)) at
        ∙ window-set_next c blank s.ring.slots s.ring.head i x v.valid.storage room

    pub produce-IsSound :
        (pos : Producer A) (lag : ℕ)
        → Produces c blank pos s.ring.slots s.ring.head s.seen_tail
        → After (IsSound c blank) (produce c blank pos lag s)
    unfolding produce
    produce-IsSound Producer.idle lag h = tt
    produce-IsSound (Producer.enqueue_checks item k) lag h =
        rw h (load_tail-IsSound lag _ (enqueue_check item lag))
    produce-IsSound (Producer.enqueue_stores item k) lag (h, free) =
        let j = bit_and s.ring.head (mask c) in
        let at : j ≡ (s.ring.head + 0) % c =
          mask_mod cap s.ring.head
          ∙ ap (λ (x : ℕ). x % c) (let e : s.ring.head ≡ s.ring.head + 0 = omega arith in e) in
        rw h (
          store-IsSound cap blank s v 0 j item (Producer.enqueue_publishes item s.ring.head)
            (omega arith) at (refl, free, stored_next 0 j item at (omega arith)))
    produce-IsSound (Producer.enqueue_publishes item k) lag (h, free, stored) =
        rw h (publish-IsSound cap blank s v 1 (item ∷ []) (omega arith) stored)
    produce-IsSound (Producer.burst_checks items k) lag h =
        rw h (load_tail-IsSound lag _ (burst_check items lag))
    produce-IsSound (Producer.burst_stores items k cnt i rest zero) lag
          (h, free, enough, count, over, stored) =
        let e : i ≡ cnt = omega arith in
        rw h (
          publish-IsSound cap blank s v cnt (take cnt items) free
            (subst (λ (n : ℕ). window c blank s.ring.slots s.ring.head n ≡ take n items) e stored))
    produce-IsSound (Producer.burst_stores items k cnt i [] (suc left)) lag h = tt
    produce-IsSound (Producer.burst_stores items k cnt i (x ∷ rest) (suc left)) lag
          (h, free, enough, count, over, stored) =
        let j = bit_and (add64 s.ring.head i) (mask c) in
        let at = slot_lem cap s.ring.head i in
        let (a, b) = take_next items i x rest over in
        let one : i + 1 ≡ suc i = omega arith in
        rw h (
          store-IsSound cap blank s v i j x
            (Producer.burst_stores items s.ring.head cnt (i + 1) rest left) (omega arith) at
            (
              refl,
              free,
              enough,
              omega arith,
              b,
              subst
                  (λ (n : ℕ).
                    window c blank (set s.ring.slots j x) s.ring.head n ≡ take (i + 1) items)
                  (sym one)
                  (stored_next i j x at (omega arith)
                    ∙ ap (λ (l : List A). l ++ (x ∷ [])) stored
                    ∙ sym a),
            ))
