-- ===== src/DpdkSim/SpscRing/Threads/Consuming.antt =====
-- The steps of the consumer keep the invariant.
use ebpf_system_monitor.Base.{
  ℕ, zero, suc, ◌+◌, ◌-◌, ◌≤◌, ◌≡◌, min, refl, sym, ap, ap₂, ◌∙◌, subst, inl, inr, Bool-cases, none,
  some, List, [], ◌∷◌, ◌++◌, arith, add64, sub64, length, get_or, leb, ltb, ◌==◌, if◌then◌else◌,
}
use ebpf_system_monitor.DpdkSim.SpscRing.Capacity.{IsCapacity, mask_mod}
use ebpf_system_monitor.DpdkSim.SpscRing.Window.{window, length-window, window-append, window-snoc}
use ebpf_system_monitor.DpdkSim.SpscRing.Valid.{contents, slot_lem, window-wrap}
use ebpf_system_monitor.DpdkSim.SpscRing.Threads.{
  Consumer, Entry, finds_none, collects, receives, System, consume,
}
use ebpf_system_monitor.DpdkSim.SpscRing.Threads.Invariant.{Explains, Consumes, IsSound, After}

module _ {A : Type 0} {c : ℕ} (cap : IsCapacity c) (blank : A) (s : System A)
    (v : IsSound c blank s) where
  -- What the load of `head_` gives.
  loaded_head :
      (lag : ℕ)
      → lag ≤ sub64 s.ring.head s.seen_head
      → (sub64 (sub64 s.ring.head lag) s.ring.tail ≡ sub64 s.ring.head s.ring.tail - lag)
        × (lag ≤ sub64 s.ring.head s.ring.tail)
  loaded_head lag h =
      let valid = v.valid in
      let a = v.items in
      (
        omega (arith, valid.head_fits, valid.tail_fits, v.seen_head_fits, valid.bounded, cap.fits),
        omega (arith, valid.head_fits, valid.tail_fits, v.seen_head_fits, valid.bounded, cap.fits),
      )

  occupied : length (contents c blank s.ring) ≡ sub64 s.ring.head s.ring.tail
  occupied = length-window c blank s.ring.slots s.ring.tail (sub64 s.ring.head s.ring.tail)

  check-IsSound :
      (lag : ℕ) (pos : Consumer A) (log : List (Entry A))
      → lag ≤ sub64 s.ring.head s.seen_head
      → let h = sub64 s.ring.head lag in
        Consumes c blank pos s.ring.slots s.ring.tail h
        → Explains c log (contents c blank s.ring)
        → IsSound c blank (record s { seen_head = h; consumer = pos; log = log })
  check-IsSound lag pos log h fits tells =
      let (a, b) = loaded_head lag h in
      record {
        valid = v.valid;
        seen_tail_fits = v.seen_tail_fits;
        seen_head_fits = omega arith;
        room = v.room;
        items = omega arith;
        produces = v.produces;
        consumes = fits;
        explained = tells;
      }

  -- A load from the slots.
  load-IsSound :
      (pos : Consumer A)
      → Consumes c blank pos s.ring.slots s.ring.tail s.seen_head
      → IsSound c blank (record s { consumer = pos })
  load-IsSound pos fits = record {
    valid = v.valid;
    seen_tail_fits = v.seen_tail_fits;
    seen_head_fits = v.seen_head_fits;
    room = v.room;
    items = v.items;
    produces = v.produces;
    consumes = fits;
    explained = v.explained;
  }

  -- The store of `tail_`, after `n` items.
  publish-IsSound :
      (n : ℕ) (xs : List A)
      → n ≤ sub64 s.seen_head s.ring.tail
      → window c blank s.ring.slots s.ring.tail n ≡ xs
      → IsSound c blank (record s {
        ring = record s.ring { tail = add64 s.ring.tail n };
        consumer = Consumer.idle;
        log = receives xs ∷ s.log;
      })
  publish-IsSound n xs inside loaded =
      let valid = v.valid in
      let shrunk : sub64 s.ring.head (add64 s.ring.tail n) ≡ sub64 s.ring.head s.ring.tail - n =
        omega (arith, valid.head_fits, valid.tail_fits, v.items, valid.bounded, cap.fits) in
      let seen : sub64 s.seen_head (add64 s.ring.tail n) ≡ sub64 s.seen_head s.ring.tail - n =
        omega (arith, valid.tail_fits, v.seen_head_fits, v.items, valid.bounded, cap.fits) in
      let behind : sub64 (add64 s.ring.tail n) s.seen_tail ≡ sub64 s.ring.tail s.seen_tail + n =
        omega (arith, valid.tail_fits, v.seen_tail_fits, v.items, v.room, cap.fits) in
      let k = sub64 s.ring.head s.ring.tail - n in
      let all : sub64 s.ring.head s.ring.tail ≡ n + k = omega (arith, v.items) in
      let taken : contents c blank s.ring
          ≡ xs
            ++ window c blank s.ring.slots (add64 s.ring.tail n)
                (sub64 s.ring.head (add64 s.ring.tail n)) =
        ap (window c blank s.ring.slots s.ring.tail) all
        ∙ window-append c blank s.ring.slots s.ring.tail n k
        ∙ ap₂ ◌++◌ loaded (
            sym (window-wrap cap blank s.ring.slots (s.ring.tail + n) k)
            ∙ ap (window c blank s.ring.slots (add64 s.ring.tail n)) (sym shrunk)) in
      record {
        valid = record {
          head_fits = valid.head_fits;
          tail_fits = omega arith;
          bounded = omega (arith, valid.bounded);
          storage = valid.storage;
        };
        seen_tail_fits = v.seen_tail_fits;
        seen_head_fits = v.seen_head_fits;
        room = omega (arith, v.room, v.items);
        items = omega (arith, v.items);
        produces = v.produces;
        consumes = tt;
        explained = subst (Explains c s.log) taken v.explained;
      }

  load_head-IsSound :
      (lag : ℕ) (t : System A)
      → (lag ≤ sub64 s.ring.head s.seen_head → IsSound c blank t)
      → After (IsSound c blank) (if leb lag (sub64 s.ring.head s.seen_head) then some t else none)
  load_head-IsSound lag t then_sound = elim (Bool-cases (leb lag (sub64 s.ring.head s.seen_head))) [
    | inl known ↦ rw known (then_sound (ground arith))
    | inr older ↦ rw older tt
  ]

  dequeue_check :
      (lag : ℕ)
      → lag ≤ sub64 s.ring.head s.seen_head
      → let h = sub64 s.ring.head lag in
        IsSound c blank (
          if s.ring.tail == h
          then record s { seen_head = h; consumer = Consumer.idle; log = finds_none lag ∷ s.log }
          else record s { seen_head = h; consumer = Consumer.dequeue_loads s.ring.tail })
  dequeue_check lag known =
      let h = sub64 s.ring.head lag in
      let (a, b) = loaded_head lag known in
      elim (Bool-cases (s.ring.tail == h)) [
        | inl empty ↦ rw empty (
            check-IsSound lag Consumer.idle (finds_none lag ∷ s.log) known tt
              (ground (arith, occupied, v.valid.tail_fits), v.explained))
        | inr more ↦ rw more (
            check-IsSound lag (Consumer.dequeue_loads s.ring.tail) s.log known
              (refl, ground (arith, v.valid.tail_fits)) v.explained)
      ]

  burst_check :
      (n lag : ℕ)
      → lag ≤ sub64 s.ring.head s.seen_head
      → let h = sub64 s.ring.head lag in
        let avail = sub64 h s.ring.tail in
        let cnt = if ltb n avail then n else avail in
        IsSound c blank (record s {
          seen_head = h;
          consumer = Consumer.burst_loads s.ring.tail cnt 0 [] cnt;
          log = collects n cnt lag ∷ s.log;
        })
  burst_check n lag known =
      let h = sub64 s.ring.head lag in
      let (a, b) = loaded_head lag known in
      let avail = sub64 h s.ring.tail in
      let cnt = if ltb n avail then n else avail in
      let least : cnt ≡ min n avail = ground arith in
      let size = occupied in
      check-IsSound lag (Consumer.burst_loads s.ring.tail cnt 0 [] cnt) (collects n cnt lag ∷ s.log)
        known (refl, omega arith, omega arith, refl) (omega arith, omega arith, v.explained)

  pub consume-IsSound :
      (pos : Consumer A) (lag : ℕ)
      → Consumes c blank pos s.ring.slots s.ring.tail s.seen_head
      → After (IsSound c blank) (consume c blank pos lag s)
  unfolding consume
  consume-IsSound Consumer.idle lag h = tt
  consume-IsSound (Consumer.dequeue_checks t) lag h =
      rw h (load_head-IsSound lag _ (dequeue_check lag))
  consume-IsSound (Consumer.dequeue_loads t) lag (h, some_left) = rw h (
      load-IsSound _ (
        refl,
        some_left,
        ap (λ (j : ℕ). get_or s.ring.slots j blank ∷ []) (sym (mask_mod cap s.ring.tail)),
      ))
  consume-IsSound (Consumer.dequeue_publishes t item) lag (h, some_left, loaded) =
      rw h (publish-IsSound 1 (item ∷ []) (omega arith) loaded)
  consume-IsSound (Consumer.burst_checks n t) lag h =
      rw h (load_head-IsSound lag _ (burst_check n lag))
  consume-IsSound (Consumer.burst_loads t cnt i items zero) lag (h, inside, count, loaded) =
      let e : i ≡ cnt = omega arith in
      rw h (
        publish-IsSound cnt items inside
          (subst (λ (n : ℕ). window c blank s.ring.slots s.ring.tail n ≡ items) e loaded))
  consume-IsSound (Consumer.burst_loads t cnt i items (suc left)) lag (h, inside, count, loaded) =
      let one : i + 1 ≡ suc i = omega arith in
      rw h (
        load-IsSound _ (
          refl,
          inside,
          omega arith,
          ap (window c blank s.ring.slots s.ring.tail) one
              ∙ window-snoc c blank s.ring.slots s.ring.tail i
              ∙ ap₂ ◌++◌ loaded (
                  ap (λ (j : ℕ). get_or s.ring.slots j blank ∷ [])
                    (sym (slot_lem cap s.ring.tail i))),
        ))
