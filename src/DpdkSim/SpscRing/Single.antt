-- ===== src/DpdkSim/SpscRing/Single.antt =====
-- `enqueue` and `dequeue` against the bounded queue.
use ebpf_system_monitor.Base.{
  ℕ, suc, ◌+◌, ◌<◌, ◌≤◌, ◌≡◌, ◌≢◌, ◌∙◌, ap, ap₂, sym, List, [], ◌∷◌, ◌++◌, arith, bit_and, add64,
  sub64, set, get_or, length-set, dec_lt, ℕ_discrete, leb, true, false, none, some,
}
use ebpf_system_monitor.DpdkSim.Fifo
use ebpf_system_monitor.DpdkSim.SpscRing.{SpscRing, enqueue, dequeue, mask}
use ebpf_system_monitor.DpdkSim.SpscRing.Capacity.{IsCapacity, mask_mod}
use ebpf_system_monitor.DpdkSim.SpscRing.Window.{window, window-set_next, length-window}
use ebpf_system_monitor.DpdkSim.SpscRing.Valid.{IsValid, contents, head_mod, window-wrap}

module _ {ℓ} {A : Type ℓ} {c : ℕ} (cap : IsCapacity c) (blank : A) where
  pub enqueue-IsValid : (x : A) (r : SpscRing A) → IsValid c r → IsValid c (enqueue c x r).1
  unfolding enqueue
  enqueue-IsValid x r v = ground (arith, length-set r.slots (bit_and r.head (mask c)) x, cap.fits)

  pub dequeue-IsValid : (r : SpscRing A) → IsValid c r → IsValid c (dequeue c blank r).1
  unfolding dequeue
  dequeue-IsValid r v = ground (arith, cap.fits)

  -- The slots after a store at the head.
  stored :
      (x : A) (r : SpscRing A)
      → IsValid c r
      → sub64 r.head r.tail < c
      → window c blank (set r.slots (bit_and r.head (mask c)) x) r.tail (suc (sub64 r.head r.tail))
        ≡ contents c blank r ++ (x ∷ [])
  stored x r v room =
      ap (λ (i : ℕ). window c blank (set r.slots i x) r.tail (suc (sub64 r.head r.tail)))
        (mask_mod cap r.head ∙ head_mod cap r.head r.tail v.head_fits v.tail_fits)
      ∙ window-set_next c blank r.slots r.tail (sub64 r.head r.tail) x v.storage room

  enqueue_full : (x : A) (r : SpscRing A) → c ≤ sub64 r.head r.tail → enqueue c x r ≡ (false, r)
  unfolding enqueue
  enqueue_full x r full = ground arith

  enqueue_room :
      (x : A) (r : SpscRing A)
      → sub64 r.head r.tail < c
      → enqueue c x r ≡ (
        true,
        record r { slots = set r.slots (bit_and r.head (mask c)) x; head = add64 r.head 1 },
      )
  unfolding enqueue
  enqueue_room x r room = ground arith

  -- `enqueue` succeeds and appends its item exactly when the ring is not full, and otherwise fails
  -- and changes nothing.
  pub enqueue_refines :
      (x : A) (r : SpscRing A)
      → IsValid c r
      → let (b, r') = enqueue c x r in
        (b, contents c blank r') ≡ Fifo.enqueue c x (contents c blank r)
  unfolding Fifo.enqueue
  enqueue_refines x r v = elim (dec_lt (sub64 r.head r.tail) c) [
    | yes room ↦
        rw (enqueue_room x r room, length-window, le→ltb' room)
          (ap (λ (q : List A). (true, q))
            (ap (window c blank (set r.slots (bit_and r.head (mask c)) x) r.tail) (grown room)
              ∙ stored x r v room))
    | no full ↦ rw (enqueue_full x r (omega arith), length-window, leb_full full)
  ]
    where
      grown : sub64 r.head r.tail < c → sub64 (add64 r.head 1) r.tail ≡ suc (sub64 r.head r.tail)
      grown room = omega (arith, v.head_fits, v.tail_fits, cap.fits)

      le→ltb' : sub64 r.head r.tail < c → leb c (sub64 r.head r.tail) ≡ false
      le→ltb' room = ground arith

      leb_full : ¬ (sub64 r.head r.tail < c) → leb c (sub64 r.head r.tail) ≡ true
      leb_full full = ground arith

  dequeue_empty : (r : SpscRing A) → r.tail ≡ r.head → dequeue c blank r ≡ (none, r)
  unfolding dequeue
  dequeue_empty r e = ground arith

  dequeue_item :
      (r : SpscRing A)
      → r.tail ≢ r.head
      → dequeue c blank r ≡ (
        some (get_or r.slots (bit_and r.tail (mask c)) blank),
        record r { tail = add64 r.tail 1 },
      )
  unfolding dequeue
  dequeue_item r ne = ground arith

  -- The window loses its first item when the tail moves on.
  contents_next :
      (r : SpscRing A)
      → IsValid c r
      → r.tail ≢ r.head
      → contents c blank r
        ≡ get_or r.slots (bit_and r.tail (mask c)) blank
          ∷ contents c blank (record r { tail = add64 r.tail 1 })
  contents_next r v ne =
      ap (window c blank r.slots r.tail) shrunk
      ∙ ap₂ ◌∷◌ (ap (λ (i : ℕ). get_or r.slots i blank) (sym (mask_mod cap r.tail)))
          (sym (window-wrap cap blank r.slots (r.tail + 1) (sub64 r.head (add64 r.tail 1))))
    where
      shrunk : sub64 r.head r.tail ≡ suc (sub64 r.head (add64 r.tail 1))
      shrunk = omega (arith, v.head_fits, v.tail_fits)

  -- `dequeue` hands out the oldest item and removes it, and fails exactly when the ring is empty.
  pub dequeue_refines :
      (r : SpscRing A)
      → IsValid c r
      → let (o, r') = dequeue c blank r in
        (o, contents c blank r') ≡ Fifo.dequeue (contents c blank r)
  unfolding Fifo.dequeue
  dequeue_refines r v = elim (ℕ_discrete r.tail r.head) [
    | yes e ↦
        let none_left : sub64 r.head r.tail ≡ 0 = omega (arith, v.tail_fits) in
        rw (dequeue_empty r e, none_left)
    | no ne ↦ rw (dequeue_item r ne, contents_next r v ne)
  ]
