-- ===== src/DpdkSim/SpscRing/Threads/Storing.antt =====
-- What a load of `tail_`, a store into a slot and the store of `head_` leave of the invariant.
use ebpf_system_monitor.Base.{
  ℕ, ◌+◌, ◌%◌, ◌<◌, ◌≤◌, ◌≡◌, sym, ap, ◌∙◌, subst, List, ◌∷◌, ◌++◌, arith, add64, sub64, set,
  length-set,
}
use ebpf_system_monitor.DpdkSim.SpscRing.Capacity.{IsCapacity}
use ebpf_system_monitor.DpdkSim.SpscRing.Window.{window, length-window, window_cong, window-append}
use ebpf_system_monitor.DpdkSim.SpscRing.Valid.{contents, head_mod}
use ebpf_system_monitor.DpdkSim.SpscRing.Threads.{Producer, Entry, sends, System}
use ebpf_system_monitor.DpdkSim.SpscRing.Threads.Invariant.{Explains, Produces, IsSound}
use ebpf_system_monitor.DpdkSim.SpscRing.Threads.Stores.{window-store, Consumes-store}

module _ {A : Type 0} {c : ℕ} (cap : IsCapacity c) (blank : A) where
  module _ (s : System A) (v : IsSound c blank s) where
    -- What the load of `tail_` gives.
    pub loaded_tail :
        (lag : ℕ)
        → lag ≤ sub64 s.ring.tail s.seen_tail
        → (sub64 s.ring.head (sub64 s.ring.tail lag) ≡ sub64 s.ring.head s.ring.tail + lag)
          × (sub64 s.ring.tail (sub64 s.ring.tail lag) ≡ lag)
          × (sub64 s.ring.head s.ring.tail + lag ≤ c)
    loaded_tail lag h =
        let valid = v.valid in
        let a = v.room in
        (
          omega (arith, valid.head_fits, valid.tail_fits, v.seen_tail_fits, cap.fits),
          omega (arith, valid.head_fits, valid.tail_fits, v.seen_tail_fits, cap.fits),
          omega arith,
        )

    pub check-IsSound :
        (lag : ℕ) (pos : Producer A) (log : List (Entry A))
        → lag ≤ sub64 s.ring.tail s.seen_tail
        → let t = sub64 s.ring.tail lag in
          Produces c blank pos s.ring.slots s.ring.head t
          → Explains c log (contents c blank s.ring)
          → IsSound c blank (record s { seen_tail = t; producer = pos; log = log })
    check-IsSound lag pos log h fits tells =
        let (a, b, d) = loaded_tail lag h in
        record {
          valid = v.valid;
          seen_tail_fits = omega arith;
          seen_head_fits = v.seen_head_fits;
          room = omega arith;
          items = v.items;
          produces = fits;
          consumes = v.consumes;
          explained = tells;
        }

    -- A store into a slot past the head, with `i` items stored before.
    pub store-IsSound :
        (i j : ℕ) (x : A) (pos : Producer A)
        → sub64 s.ring.head s.ring.tail + i < c
        → j ≡ (s.ring.head + i) % c
        → Produces c blank pos (set s.ring.slots j x) s.ring.head s.seen_tail
        → IsSound c blank
            (record s { ring = record s.ring { slots = set s.ring.slots j x }; producer = pos })
    store-IsSound i j x pos room at fits = record {
      valid = record {
        head_fits = v.valid.head_fits;
        tail_fits = v.valid.tail_fits;
        bounded = v.valid.bounded;
        storage = length-set s.ring.slots j x ∙ v.valid.storage;
      };
      seen_tail_fits = v.seen_tail_fits;
      seen_head_fits = v.seen_head_fits;
      room = v.room;
      items = v.items;
      produces = fits;
      consumes = rw at (
          Consumes-store cap blank s.consumer s.ring s.seen_head i x v.valid v.items room
            v.consumes);
      explained =
          subst (Explains c s.log)
            (sym (
              rw at (
                window-store cap blank s.ring i (sub64 s.ring.head s.ring.tail) x v.valid
                  (omega arith) room)))
            v.explained;
    }

    -- The store of `head_`, after `n` items.
    pub publish-IsSound :
        (n : ℕ) (xs : List A)
        → sub64 s.ring.head s.seen_tail + n ≤ c
        → window c blank s.ring.slots s.ring.head n ≡ xs
        → IsSound c blank (record s {
          ring = record s.ring { head = add64 s.ring.head n };
          producer = Producer.idle;
          log = sends xs ∷ s.log;
        })
    publish-IsSound n xs room stored =
        let valid = v.valid in
        let a = v.room in
        let grown : sub64 (add64 s.ring.head n) s.ring.tail ≡ sub64 s.ring.head s.ring.tail + n =
          omega (arith, valid.head_fits, valid.tail_fits, v.seen_tail_fits, cap.fits) in
        let seen : sub64 s.ring.head s.seen_tail
            ≡ sub64 s.ring.head s.ring.tail + sub64 s.ring.tail s.seen_tail =
          omega (arith, valid.head_fits, valid.tail_fits, v.seen_tail_fits, cap.fits) in
        let longer : window c blank s.ring.slots s.ring.tail
              (sub64 (add64 s.ring.head n) s.ring.tail)
            ≡ contents c blank s.ring ++ xs =
          ap (window c blank s.ring.slots s.ring.tail) grown
          ∙ window-append c blank s.ring.slots s.ring.tail (sub64 s.ring.head s.ring.tail) n
          ∙ ap (◌++◌ (contents c blank s.ring)) (
              window_cong c blank s.ring.slots (s.ring.tail + sub64 s.ring.head s.ring.tail)
                s.ring.head n
                (sym (head_mod cap s.ring.head s.ring.tail valid.head_fits valid.tail_fits))
              ∙ stored) in
        record {
          valid = record {
            head_fits = omega arith;
            tail_fits = valid.tail_fits;
            bounded = omega arith;
            storage = valid.storage;
          };
          seen_tail_fits = v.seen_tail_fits;
          seen_head_fits = v.seen_head_fits;
          room = omega arith;
          items = omega (arith, v.items);
          produces = tt;
          consumes = v.consumes;
          explained = (
            contents c blank s.ring,
            longer,
            omega (
              arith,
              length-window c blank s.ring.slots s.ring.tail
                  (sub64 (add64 s.ring.head n) s.ring.tail),
            ),
            v.explained,
          );
        }
