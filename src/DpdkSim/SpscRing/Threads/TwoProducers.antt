-- ===== src/DpdkSim/SpscRing/Threads/TwoProducers.antt =====
-- Two threads that send into one ring, which the class forbids.
use ebpf_system_monitor.Base.{
  ℕ, suc, ◌+◌, ◌%◌, ◌^◌, ◌<◌, ◌≡◌, refl, ap, ◌∙◌, false, Option, none, some, List, [], ◌∷◌, ◌++◌,
  arith, add64, sub64, set, leb, bit_and, length-set,
}
use ebpf_system_monitor.DpdkSim.SpscRing.{SpscRing, mask}
use ebpf_system_monitor.DpdkSim.SpscRing.Capacity.{IsCapacity, mask_mod}
use ebpf_system_monitor.DpdkSim.SpscRing.Window.{window, window-set_next, window-set_past}
use ebpf_system_monitor.DpdkSim.SpscRing.Valid.{IsValid, contents, head_mod}
use ebpf_system_monitor.DpdkSim.SpscRing.Threads.{
  Producer, sends, System, Move, calls_enqueue, produces, step,
}

-- The first producer is the system's own.
pub record Pair (A : Type 0) : Type 0 where
  pub system : System A
  pub second : Producer A

module _ {A : Type 0} (c : ℕ) (blank : A) where
  -- A move of the one, or of the other.
  abbrev pub first_moves : Move A → Pair A → Option (Pair A)
  first_moves m p = elim (step c blank m p.system) [
    | none ↦ none
    | some s ↦ some (record p { system = s })
  ]

  abbrev pub second_moves : Move A → Pair A → Option (Pair A)
  second_moves m p = elim (step c blank m (record p.system { producer = p.second })) [
    | none ↦ none
    | some s ↦
        some (record { system = record s { producer = p.system.producer }; second = s.producer })
  ]

  -- The same move of both, one after the other.
  abbrev pub both_move : Move A → Move A → Pair A → Option (Pair A)
  both_move m n p = elim (first_moves m p) [ none ↦ none | some q ↦ second_moves n q ]

  -- Each step of the one followed by that of the other.
  unfoldable pub side_by_side : List (Move A × Move A) → Pair A → Option (Pair A)
  unfolding step
  side_by_side [] p = some p
  side_by_side ((m, n) ∷ ms) p = elim (both_move m n p) [ none ↦ none | some q ↦ side_by_side ms q ]

  abbrev pub both_enqueue : A → A → List (Move A × Move A)
  both_enqueue x y =
      (calls_enqueue x, calls_enqueue y)
      ∷ (produces 0, produces 0)
      ∷ (produces 0, produces 0)
      ∷ (produces 0, produces 0)
      ∷ []

  -- The ring that both leave.
  abbrev overwritten : A → A → SpscRing A → SpscRing A
  overwritten x y r =
      let j = bit_and r.head (mask c) in
      record r { slots = set (set r.slots j x) j y; head = add64 r.head 1 }

  abbrev ended : A → A → System A → Pair A
  ended x y s = record {
    system = record s {
      ring = overwritten x y s.ring;
      seen_tail = s.ring.tail;
      producer = Producer.idle;
      log = sends (y ∷ []) ∷ sends (x ∷ []) ∷ s.log;
    };
    second = Producer.idle;
  }

  both_enqueue-ended :
      (x y : A) (s : System A)
      → s.ring.tail < 2 ^ 64
      → leb c (sub64 s.ring.head s.ring.tail) ≡ false
      → side_by_side
          (both_enqueue x y)
          (record { system = record s { producer = Producer.idle }; second = Producer.idle })
        ≡ some (ended x y s)
  unfolding side_by_side
  both_enqueue-ended x y s fits room =
      let now : sub64 s.ring.tail 0 ≡ s.ring.tail = omega arith in ground arith

module _ {A : Type 0} {c : ℕ} (cap : IsCapacity c) (blank : A) where
  contents-overwritten :
      (x y : A) (r : SpscRing A)
      → IsValid c r
      → sub64 r.head r.tail < c
      → contents c blank (overwritten c blank x y r) ≡ contents c blank r ++ (y ∷ [])
  contents-overwritten x y r v room =
      let a = sub64 r.head r.tail in
      let j = bit_and r.head (mask c) in
      let at : j ≡ (r.tail + a) % c =
        mask_mod cap r.head ∙ head_mod cap r.head r.tail v.head_fits v.tail_fits in
      let grown : sub64 (add64 r.head 1) r.tail ≡ suc a =
        omega (arith, v.head_fits, v.tail_fits, cap.fits) in
      ap (window c blank (set (set r.slots j x) j y) r.tail) grown
      ∙ ap (λ (k : ℕ). window c blank (set (set r.slots j x) k y) r.tail (suc a)) at
      ∙ window-set_next c blank (set r.slots j x) r.tail a y (length-set r.slots j x ∙ v.storage)
          room
      ∙ ap (λ (q : List A). q ++ (y ∷ []))
          (ap (λ (k : ℕ). window c blank (set r.slots k x) r.tail a) at
            ∙ window-set_past c blank r.slots r.tail a (r.tail + a) x (omega arith) (omega arith))

  -- If two threads call `enqueue` side by side on a ring with room, both can be told that they have sent
  -- their item while only the second one's is in the ring.
  pub two_producers_lose :
      (x y : A) (s : System A)
      → IsValid c s.ring
      → sub64 s.ring.head s.ring.tail < c
      → (t : Pair A) × (side_by_side c blank
            (both_enqueue c blank x y)
            (record { system = record s { producer = Producer.idle }; second = Producer.idle })
          ≡ some t)
        × (t.system.log ≡ sends (y ∷ []) ∷ sends (x ∷ []) ∷ s.log)
        × (contents c blank t.system.ring ≡ contents c blank s.ring ++ (y ∷ []))
  two_producers_lose x y s v room = (
    ended c blank x y s,
    both_enqueue-ended c blank x y s v.tail_fits (ground arith),
    refl,
    contents-overwritten x y s.ring v room,
  )
