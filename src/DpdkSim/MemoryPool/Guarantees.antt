-- ===== src/DpdkSim/MemoryPool/Guarantees.antt =====
-- What the pool promises to a client that frees only what it holds.
use mathlib.Core.List.{
  Mem, Nodup, Nodup-cons, Nodup-nil, mem-cons, not-mem-nil, mem-append_right, mem-cons_self,
}
use mathlib.Core.List.Perm
use mathlib.Core.Logic.Or
use mathlib.Core.HLevel.{×_prop}
use native.Mathlib.Bridge.{le_prop}
use ebpf_system_monitor.Base.{
  ℕ, zero, suc, ◌+◌, ◌<◌, ◌≤◌, ◌≡◌, ◌↔◌, refl, ◌∙◌, ap, sym, subst, true, List, [], ◌∷◌, ◌++◌, Perm,
  arith, length,
}
use ebpf_system_monitor.DpdkSim.Fifo
use ebpf_system_monitor.DpdkSim.SpscRing
use ebpf_system_monitor.DpdkSim.SpscRing.Capacity.{IsCapacity}
use ebpf_system_monitor.DpdkSim.SpscRing.Valid.{length-contents}
use ebpf_system_monitor.DpdkSim.SpscRing.Burst.{enqueue_burst_refines}
use ebpf_system_monitor.DpdkSim.MemoryPool.{Ptr, null, block, alloc, available, in_use}
use ebpf_system_monitor.DpdkSim.MemoryPool.Contents.{
  free_list, blocks_from, alloc_lem, enqueue_room,
}
use ebpf_system_monitor.DpdkSim.MemoryPool.Ownership.{
  Client, Reach, IsOwned, IsOwned-count, Reach-IsOwned, first-ne-null, room,
}

block-injective : {a b : ℕ} → block a ≡ block b → a ≡ b
block-injective e = cc

mem-blocks_from : (j n b : ℕ) → Mem (block b) (blocks_from j n) → (j ≤ b) × (b < j + n)
mem-blocks_from j zero b m = absurd (not-mem-nil m)
mem-blocks_from j (suc n) b m =
    Or.elim (×_prop le_prop le_prop) (mem-cons.0 m)
      (λ q. let e : b ≡ j = block-injective q in omega arith)
      (λ r. let ih = mem-blocks_from (j + 1) n b r in omega arith)

pub blocks_from-Nodup : (j n : ℕ) → Nodup (blocks_from j n)
blocks_from-Nodup j zero = Nodup-nil
blocks_from-Nodup j (suc n) = Nodup-cons.1 (
  (λ m. let h = mem-blocks_from (j + 1) n j m in absurd (omega arith)),
  blocks_from-Nodup (j + 1) n,
)

module _ {c : ℕ} (cap : IsCapacity c) {s : Client} (r : Reach c s) where
  owned : IsOwned c s
  owned = Reach-IsOwned cap r

  owned-Nodup : Nodup (free_list c s.pool ++ s.held)
  owned-Nodup = Perm.nodup (Perm.symm owned.parted) (blocks_from-Nodup 0 c)

  exclusive :
      (q : List Ptr) (b : ℕ)
      → free_list c s.pool ≡ q
      → (alloc c s.pool).0 ≡ block b
      → ¬ Mem (block b) s.held × (b < c)
  unfolding Fifo.dequeue
  exclusive [] b e a = let result = (alloc_lem cap s.pool [] owned.valid e).0 in cc
  exclusive (x ∷ q) b e a =
      let result = (alloc_lem cap s.pool (x ∷ q) owned.valid e).0 in
      let is_x : x ≡ block b = sym result ∙ a in
      let apart = (Nodup-cons.0 (subst (λ l. Nodup (l ++ s.held)) e owned-Nodup)).0 in
      let is_block = (Perm.mem_iff owned.parted).0 (
        subst (λ l. Mem (block b) (l ++ s.held)) (sym e)
          (subst (λ y. Mem y (x ∷ (q ++ s.held))) is_x mem-cons_self)) in
      (
        λ m. apart (mem-append_right q (subst (λ y. Mem y s.held) (sym is_x) m)),
        omega (arith, mem-blocks_from 0 c b is_block),
      )

  -- `alloc` hands out a block of the pool that its client does not already hold.
  pub alloc_exclusive : (b : ℕ) → (alloc c s.pool).0 ≡ block b → ¬ Mem (block b) s.held × (b < c)
  alloc_exclusive b a = exclusive (free_list c s.pool) b refl a

  exhausted_or :
      (q : List Ptr) → free_list c s.pool ≡ q → ((alloc c s.pool).0 ≡ null) ↔ (length s.held ≡ c)
  unfolding Fifo.dequeue
  exhausted_or [] e = (
    λ _. omega (arith, IsOwned-count owned, ap length e),
    λ _. (alloc_lem cap s.pool [] owned.valid e).0,
  )
  exhausted_or (x ∷ q) e = (
    λ a.
        absurd (first-ne-null x q owned e (sym (alloc_lem cap s.pool (x ∷ q) owned.valid e).0 ∙ a)),
    λ all. absurd (omega (arith, IsOwned-count owned, ap length e)),
  )

  -- `alloc` returns null exactly when the client holds all the blocks.
  pub alloc-null_iff : ((alloc c s.pool).0 ≡ null) ↔ (length s.held ≡ c)
  alloc-null_iff = exhausted_or (free_list c s.pool) refl

  -- The free list is never full for `free` and `free_burst`: the result that each ignores is
  -- success.
  pub free_never_full :
      (x : Ptr) (xs rest : List Ptr)
      → Perm s.held ((x ∷ xs) ++ rest)
      → ((SpscRing.enqueue c x s.pool.free_ring).0 ≡ true)
        × ((SpscRing.enqueue_burst c (x ∷ xs) s.pool.free_ring).0 ≡ length (x ∷ xs))
  unfolding Fifo.enqueue_burst
  free_never_full x xs rest p = (
    (enqueue_room cap x s.pool.free_ring owned.valid (omega (arith, fits))).0,
    ap (λ t. t.0) (enqueue_burst_refines cap null (x ∷ xs) s.pool.free_ring owned.valid)
        ∙ omega (arith, fits),
  )
    where
      fits : length (free_list c s.pool) + length (x ∷ xs) ≤ c
      fits = room cap s (x ∷ xs) rest owned p

  -- `available` and `in_use` count the free blocks and those that the client holds.
  pub available_lem : (available s.pool + length s.held ≡ c) × (in_use c s.pool ≡ length s.held)
  unfolding available in_use
  available_lem =
      omega (arith, IsOwned-count owned, length-contents c null s.pool.free_ring, cap.fits)
