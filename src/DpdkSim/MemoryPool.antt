-- ===== src/DpdkSim/MemoryPool.antt =====
-- src/dpdk_sim/memory_pool.h: the object pool. Its free list is a ring of pointers of the pool's
-- size. A pointer is null or names a block of `storage_`; the pool never looks into a block.
pub mod Contents
pub mod Ownership
pub mod Guarantees
mod Tests
use ebpf_system_monitor.Base.{ℕ, zero, suc, ◌+◌, Option, none, some, List, [], ◌∷◌, add64, sub64}
use ebpf_system_monitor.DpdkSim.SpscRing
use ebpf_system_monitor.DpdkSim.SpscRing.{SpscRing}

pub data Ptr : Type 0 where
  null : Ptr
  block : ℕ → Ptr

pub record MemoryPool : Type 0 where
  pub free_ring : SpscRing Ptr
  pub total_allocs : ℕ

unfoldable pub available : MemoryPool → ℕ
available p = SpscRing.size p.free_ring

module _ (pool_size : ℕ) where
  -- The loop of the constructor from round `i` on, with the rounds left.
  unfoldable pub populate : ℕ → ℕ → SpscRing Ptr → SpscRing Ptr
  populate i zero ring = ring
  populate i (suc n) ring = populate (i + 1) n (SpscRing.enqueue pool_size (block i) ring).1

  unfoldable pub init : MemoryPool
  unfolding populate
  init = record {
    free_ring = populate 0 pool_size (SpscRing.init pool_size null);
    total_allocs = 0;
  }

  -- The branches on the result of `dequeue`.
  unfoldable pub taken : MemoryPool → Option Ptr × SpscRing Ptr → Ptr × MemoryPool
  taken p (none, ring) = (null, record p { free_ring = ring })
  taken p (some obj, ring) =
      (obj, record p { free_ring = ring; total_allocs = add64 p.total_allocs 1 })

  unfoldable pub alloc : MemoryPool → Ptr × MemoryPool
  unfolding taken
  alloc p = taken p (SpscRing.dequeue pool_size null p.free_ring)

  unfoldable pub free : Ptr → MemoryPool → MemoryPool
  free obj p = record p { free_ring = (SpscRing.enqueue pool_size obj p.free_ring).1 }

  -- The `while` of `alloc_burst` with `n - got` rounds left: the count, and what it writes to
  -- `objs` from `got` on. It breaks at the first failing `dequeue`.
  unfoldable pub alloc_loop : ℕ → ℕ → MemoryPool → ℕ × List Ptr × MemoryPool
  alloc_loop zero got p = (got, [], p)
  alloc_loop (suc left) got p =
      let (o, ring) = SpscRing.dequeue pool_size null p.free_ring in
      elim o [
        | none ↦ (got, [], record p { free_ring = ring })
        | some obj ↦
            let (n, objs, p') =
              alloc_loop left (got + 1)
                (record p { free_ring = ring; total_allocs = add64 p.total_allocs 1 }) in
            (n, obj ∷ objs, p')
      ]

  unfoldable pub alloc_burst : ℕ → MemoryPool → ℕ × List Ptr × MemoryPool
  unfolding alloc_loop
  alloc_burst n p = alloc_loop n 0 p

  unfoldable pub free_burst : List Ptr → MemoryPool → MemoryPool
  free_burst objs p = record p { free_ring = (SpscRing.enqueue_burst pool_size objs p.free_ring).1 }

  unfoldable pub in_use : MemoryPool → ℕ
  unfolding available
  in_use p = sub64 pool_size (available p)
