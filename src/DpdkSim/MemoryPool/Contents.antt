-- ===== src/DpdkSim/MemoryPool/Contents.antt =====
-- Each operation of the pool in terms of the list of its free blocks.
use ebpf_system_monitor.Base.{
  ℕ, zero, suc, ◌+◌, ◌-◌, ◌%◌, ◌^◌, ◌<◌, ◌≤◌, min, ◌≡◌, refl, ◌∙◌, ap, sym, Option, none, some,
  List, [], ◌∷◌, ◌++◌, arith, length, take, drop, add64, leb, true, false, length-append, take_all,
  subst, append_assoc, append-nil,
}
use ebpf_system_monitor.DpdkSim.Fifo
use ebpf_system_monitor.DpdkSim.SpscRing
use ebpf_system_monitor.DpdkSim.SpscRing.{SpscRing}
use ebpf_system_monitor.DpdkSim.SpscRing.Capacity.{IsCapacity}
use ebpf_system_monitor.DpdkSim.SpscRing.Valid.{IsValid, contents, init-IsValid, contents-init}
use ebpf_system_monitor.DpdkSim.SpscRing.Single.{
  enqueue-IsValid, dequeue-IsValid, enqueue_refines, dequeue_refines,
}
use ebpf_system_monitor.DpdkSim.SpscRing.Burst.{enqueue_burst-IsValid, enqueue_burst_refines}
use ebpf_system_monitor.DpdkSim.MemoryPool.{
  Ptr, null, block, MemoryPool, populate, init, taken, alloc, free, alloc_loop, alloc_burst,
  free_burst,
}

-- The free blocks, the next to be handed out first.
abbrev pub free_list : ℕ → MemoryPool → List Ptr
free_list c p = contents c null p.free_ring

-- The blocks `i`, `i + 1`, … , `n` of them.
abbrev pub blocks_from : ℕ → ℕ → List Ptr
blocks_from i zero = []
blocks_from i (suc n) = block i ∷ blocks_from (i + 1) n

pub length-blocks_from : (i n : ℕ) → length (blocks_from i n) ≡ n
length-blocks_from i zero = refl
length-blocks_from i (suc n) = ap suc (length-blocks_from (i + 1) n)

module _ {c : ℕ} (cap : IsCapacity c) where
  -- An item enters a queue with room.
  pub enqueue_room :
      (x : Ptr) (r : SpscRing Ptr)
      → IsValid c r
      → length (contents c null r) < c
      → ((SpscRing.enqueue c x r).0 ≡ true)
        × (contents c null (SpscRing.enqueue c x r).1 ≡ contents c null r ++ (x ∷ []))
  unfolding Fifo.enqueue
  enqueue_room x r v room =
      let full : leb c (length (contents c null r)) ≡ false = ground arith in
      let e = enqueue_refines cap null x r v in
      (ap (λ t. t.0) e ∙ rw full, ap (λ t. t.1) e ∙ rw full)

  populate_lem :
      (n i : ℕ) (r : SpscRing Ptr)
      → IsValid c r
      → length (contents c null r) + n ≤ c
      → IsValid c (populate c i n r)
        × (contents c null (populate c i n r) ≡ contents c null r ++ blocks_from i n)
  unfolding populate
  populate_lem zero i r v room = (v, sym (append-nil _))
  populate_lem (suc n) i r v room =
      let r' : SpscRing Ptr = (SpscRing.enqueue c (block i) r).1 in
      let grown = (enqueue_room (block i) r v (omega arith)).1 in
      let (v', e) =
        populate_lem n (i + 1) r' (enqueue-IsValid cap null (block i) r v)
          (omega (arith, ap length grown, length-append (contents c null r) (block i ∷ []))) in
      (
        v',
        e
            ∙ ap (λ (q : List Ptr). q ++ blocks_from (i + 1) n) grown
            ∙ append_assoc (contents c null r) (block i ∷ []) (blocks_from (i + 1) n),
      )

  -- A new pool has every block on its free list: no `enqueue` of the constructor fails.
  pub init_lem : IsValid c (init c).free_ring × (free_list c (init c) ≡ blocks_from 0 c)
  unfolding init
  init_lem =
      let r = SpscRing.init c null in
      let (v, e) =
        populate_lem c 0 r (init-IsValid c null)
          (omega (arith, ap length (contents-init c null))) in
      (v, e ∙ ap (λ (q : List Ptr). q ++ blocks_from 0 c) (contents-init c null))

  -- What `alloc` and the first round of `alloc_burst` see.
  dequeue_list :
      (p : MemoryPool) (q : List Ptr)
      → IsValid c p.free_ring
      → free_list c p ≡ q
      → ((SpscRing.dequeue c null p.free_ring).0 ≡ (Fifo.dequeue q).0)
        × (contents c null (SpscRing.dequeue c null p.free_ring).1 ≡ (Fifo.dequeue q).1)
  dequeue_list p q v e =
      let d = dequeue_refines cap null p.free_ring v in
      (
        ap (λ t. t.0) d ∙ ap (λ t. (Fifo.dequeue t).0) e,
        ap (λ t. t.1) d ∙ ap (λ t. (Fifo.dequeue t).1) e,
      )

  abbrev or_null : Option Ptr → Ptr
  or_null none = null
  or_null (some obj) = obj

  -- One more allocation, unless the free list was empty.
  abbrev counted : ℕ → Option Ptr → ℕ
  counted n none = n
  counted n (some obj) = add64 n 1

  taken_lem :
      (p : MemoryPool) (d : Option Ptr × SpscRing Ptr)
      → ((taken c p d).0 ≡ or_null d.0)
        × ((taken c p d).1.free_ring ≡ d.1)
        × ((taken c p d).1.total_allocs ≡ counted p.total_allocs d.0)
  unfolding taken
  taken_lem p (none, ring) = (refl, refl, refl)
  taken_lem p (some obj, ring) = (refl, refl, refl)

  pub alloc-IsValid : (p : MemoryPool) → IsValid c p.free_ring → IsValid c (alloc c p).1.free_ring
  unfolding alloc
  alloc-IsValid p v =
      subst (IsValid c) (sym (taken_lem p (SpscRing.dequeue c null p.free_ring)).1)
        (dequeue-IsValid cap null p.free_ring v)

  -- `alloc` takes the first free block and counts it; it returns null, and changes neither the
  -- list nor the count, when no block is free.
  pub alloc_lem :
      (p : MemoryPool) (q : List Ptr)
      → IsValid c p.free_ring
      → free_list c p ≡ q
      → ((alloc c p).0 ≡ or_null (Fifo.dequeue q).0)
        × (free_list c (alloc c p).1 ≡ (Fifo.dequeue q).1)
        × ((alloc c p).1.total_allocs ≡ counted p.total_allocs (Fifo.dequeue q).0)
  unfolding alloc
  alloc_lem p q v e =
      let (result, list) = dequeue_list p q v e in
      let (obj, ring, total) = taken_lem p (SpscRing.dequeue c null p.free_ring) in
      (
        obj ∙ ap or_null result,
        ap (contents c null) ring ∙ list,
        total ∙ ap (counted p.total_allocs) result,
      )

  pub free-IsValid :
      (x : Ptr) (p : MemoryPool) → IsValid c p.free_ring → IsValid c (free c x p).free_ring
  unfolding free
  free-IsValid x p v = enqueue-IsValid cap null x p.free_ring v

  -- With fewer free blocks than the pool has, `free` appends its block.
  pub free_lem :
      (x : Ptr) (p : MemoryPool)
      → IsValid c p.free_ring
      → length (free_list c p) < c
      → free_list c (free c x p) ≡ free_list c p ++ (x ∷ [])
  unfolding free
  free_lem x p v room = (enqueue_room x p.free_ring v room).1

  pub free_burst-IsValid :
      (xs : List Ptr) (p : MemoryPool)
      → IsValid c p.free_ring
      → IsValid c (free_burst c xs p).free_ring
  unfolding free_burst
  free_burst-IsValid xs p v = enqueue_burst-IsValid cap null xs p.free_ring v

  -- So does `free_burst`, where its blocks fit.
  pub free_burst_lem :
      (xs : List Ptr) (p : MemoryPool)
      → IsValid c p.free_ring
      → length (free_list c p) + length xs ≤ c
      → free_list c (free_burst c xs p) ≡ free_list c p ++ xs
  unfolding free_burst Fifo.enqueue_burst
  free_burst_lem xs p v room =
      ap (λ t. t.1) (enqueue_burst_refines cap null xs p.free_ring v)
      ∙ ap (◌++◌ (free_list c p)) (take_all (c - length (free_list c p)) xs (omega arith))

  -- What `alloc_loop` returns, from the list `q` of free blocks.
  pub record Allocated (q : List Ptr) (left got : ℕ) (p : MemoryPool)
      (out : ℕ × List Ptr × MemoryPool) : Type 0 where
    pub valid : IsValid c out.2.free_ring
    pub number : out.0 ≡ got + min left (length q)
    pub objs : out.1 ≡ take left q
    pub rest : free_list c out.2 ≡ drop left q
    pub total : out.2.total_allocs ≡ (p.total_allocs + min left (length q)) % 2 ^ 64

  alloc_loop-Allocated :
      (left got : ℕ) (p : MemoryPool) (q : List Ptr)
      → IsValid c p.free_ring
      → p.total_allocs < 2 ^ 64
      → free_list c p ≡ q
      → Allocated q left got p (alloc_loop c left got p)
  unfolding alloc_loop Fifo.dequeue
  alloc_loop-Allocated zero got p q v small e = record {
    valid = v;
    number = omega arith;
    objs = refl;
    rest = e;
    total = omega arith;
  }
  alloc_loop-Allocated (suc left) got p [] v small e =
      let (result, list) = dequeue_list p [] v e in
      rw (result, alloc_loop)
        (record {
          valid = dequeue-IsValid cap null p.free_ring v;
          number = omega arith;
          objs = refl;
          rest = list;
          total = omega arith;
        })
  alloc_loop-Allocated (suc left) got p (x ∷ q) v small e =
      let (result, list) = dequeue_list p (x ∷ q) v e in
      let ih =
        alloc_loop-Allocated left (got + 1)
          (record p {
            free_ring = (SpscRing.dequeue c null p.free_ring).1;
            total_allocs = add64 p.total_allocs 1;
          })
          q (dequeue-IsValid cap null p.free_ring v) (omega arith) list in
      rw (result, alloc_loop)
        (record {
          valid = ih.valid;
          number = omega (arith, ih.number);
          objs = ap (◌∷◌ x) ih.objs;
          rest = ih.rest;
          total = omega (arith, ih.total);
        })

  -- `alloc_burst` takes the first free blocks, as many as asked for and as there are.
  pub alloc_burst-Allocated :
      (n : ℕ) (p : MemoryPool)
      → IsValid c p.free_ring
      → p.total_allocs < 2 ^ 64
      → Allocated (free_list c p) n 0 p (alloc_burst c n p)
  unfolding alloc_burst
  alloc_burst-Allocated n p v small = alloc_loop-Allocated n 0 p (free_list c p) v small refl
