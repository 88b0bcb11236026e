-- ===== src/DpdkSim/MemoryPool/Ownership.antt =====
-- Who owns a block: a client that returns only what it holds, and each block once, shares the
-- blocks with the free list, whatever the order of its calls.
use mathlib.Core.List.{
  Mem, mem-cons, not-mem-nil, perm_middle, perm_append_comm, mem-append_left, mem-cons_self,
}
use mathlib.Core.List.Perm
use mathlib.Core.Logic.Or
use ebpf_system_monitor.Base.{
  ℕ, zero, suc, ◌+◌, ◌^◌, ◌<◌, ◌≤◌, ◌≡◌, ◌≢◌, refl, ◌∙◌, sym, subst, List, [], ◌∷◌, ◌++◌, Perm,
  arith, length, take, drop, length-append, length-perm, perm_shift, take-append-drop, append_assoc,
  append-nil,
}
use ebpf_system_monitor.DpdkSim.Fifo
use ebpf_system_monitor.DpdkSim.SpscRing.Capacity.{IsCapacity}
use ebpf_system_monitor.DpdkSim.SpscRing.Valid.{IsValid}
use ebpf_system_monitor.DpdkSim.MemoryPool.{
  Ptr, null, block, MemoryPool, init, alloc, free, alloc_burst, free_burst,
}
use ebpf_system_monitor.DpdkSim.MemoryPool.Contents.{
  free_list, blocks_from, length-blocks_from, init_lem, alloc-IsValid, alloc_lem, free-IsValid,
  free_lem, free_burst-IsValid, free_burst_lem, alloc_burst-Allocated,
}

-- A pool and the blocks that its client holds.
pub record Client : Type 0 where
  pub pool : MemoryPool
  pub held : List Ptr

abbrev pub hold : Ptr → List Ptr → List Ptr
hold null held = held
hold (block b) held = block b ∷ held

-- One call of the client. What it frees, it holds.
pub data Step (c : ℕ) (s t : Client) : Type 0 where
  allocs :
      t ≡ record { pool = (alloc c s.pool).1; held = hold (alloc c s.pool).0 s.held } → Step c s t
  allocs_burst :
      (n : ℕ)
      → t
        ≡ record { pool = (alloc_burst c n s.pool).2; held = (alloc_burst c n s.pool).1 ++ s.held }
      → Step c s t
  frees :
      (x : Ptr) (rest : List Ptr)
      → Perm s.held (x ∷ rest)
      → t ≡ record { pool = free c x s.pool; held = rest }
      → Step c s t
  frees_burst :
      (xs rest : List Ptr)
      → Perm s.held (xs ++ rest)
      → t ≡ record { pool = free_burst c xs s.pool; held = rest }
      → Step c s t

pub data Reach (c : ℕ) : Client → Type 0 where
  start : Reach c (record { pool = init c; held = [] })
  next : {s t : Client} → Reach c s → Step c s t → Reach c t

-- Each block of the pool is free or held, and not both, nor twice.
pub record IsOwned (c : ℕ) (s : Client) : Type 0 where
  pub valid : IsValid c s.pool.free_ring
  pub parted : Perm (free_list c s.pool ++ s.held) (blocks_from 0 c)
  pub small : s.pool.total_allocs < 2 ^ 64

pub not-mem-blocks_from : (j n : ℕ) (x : Ptr) → x ≡ null → ¬ Mem x (blocks_from j n)
not-mem-blocks_from j zero x e m = not-mem-nil m
not-mem-blocks_from j (suc n) x e m =
    Or.elim (λ a. absurd a) (mem-cons.0 m) (λ q. cc) (not-mem-blocks_from (j + 1) n x e)

hold-perm : (x : Ptr) (q held : List Ptr) → x ≢ null → Perm (q ++ hold x held) ((x ∷ q) ++ held)
hold-perm null q held ne = absurd (ne refl)
hold-perm (block b) q held ne = perm_middle q held

module _ {c : ℕ} where
  -- The free and the held blocks are as many as the pool has.
  pub IsOwned-count : {s : Client} → IsOwned c s → length (free_list c s.pool) + length s.held ≡ c
  IsOwned-count {s} o =
      sym (length-append (free_list c s.pool) s.held)
      ∙ length-perm o.parted
      ∙ length-blocks_from 0 c

  -- The order of what the client holds does not matter.
  pub IsOwned-perm :
      {pool : MemoryPool} {xs ys : List Ptr}
      → Perm xs ys
      → IsOwned c (record { pool = pool; held = xs })
      → IsOwned c (record { pool = pool; held = ys })
  IsOwned-perm {pool} p o = record {
    valid = o.valid;
    parted = Perm.trans (Perm.append_left (free_list c pool) (Perm.symm p)) o.parted;
    small = o.small;
  }

  pub first-ne-null :
      {s : Client} (x : Ptr) (q : List Ptr) → IsOwned c s → free_list c s.pool ≡ x ∷ q → x ≢ null
  first-ne-null {s} x q o e is_null =
      not-mem-blocks_from 0 c x is_null
        ((Perm.mem_iff o.parted).0 (mem-append_left s.held (subst (Mem x) (sym e) mem-cons_self)))

module _ {c : ℕ} (cap : IsCapacity c) where
  pub init-IsOwned : IsOwned c (record { pool = init c; held = [] })
  unfolding init
  init-IsOwned = record {
    valid = (init_lem cap).0;
    parted = rw ((init_lem cap).1, append-nil) (Perm.refl _);
    small = omega arith;
  }

  alloc-IsOwned :
      (s : Client) (q : List Ptr)
      → IsOwned c s
      → free_list c s.pool ≡ q
      → IsOwned c (record { pool = (alloc c s.pool).1; held = hold (alloc c s.pool).0 s.held })
  unfolding Fifo.dequeue
  alloc-IsOwned s [] o e =
      let (obj, list, total) = alloc_lem cap s.pool [] o.valid e in
      record {
        valid = alloc-IsValid cap s.pool o.valid;
        parted = rw (obj, list) (rw e at o.parted);
        small = rw total o.small;
      }
  alloc-IsOwned s (x ∷ q) o e =
      let (obj, list, total) = alloc_lem cap s.pool (x ∷ q) o.valid e in
      record {
        valid = alloc-IsValid cap s.pool o.valid;
        parted =
            rw (obj, list)
              (Perm.trans (hold-perm x q s.held (first-ne-null x q o e)) (rw e at o.parted));
        small = rw total (omega arith);
      }

  alloc_burst-IsOwned :
      (s : Client) (n : ℕ)
      → IsOwned c s
      → IsOwned c (record {
        pool = (alloc_burst c n s.pool).2;
        held = (alloc_burst c n s.pool).1 ++ s.held;
      })
  alloc_burst-IsOwned s n o =
      let a = alloc_burst-Allocated cap n s.pool o.valid o.small in
      record {
        valid = a.valid;
        parted = rw (a.rest, a.objs) (Perm.trans (regroup (free_list c s.pool)) o.parted);
        small = omega (arith, a.total);
      }
    where
      regroup : (q : List Ptr) → Perm (drop n q ++ (take n q ++ s.held)) (q ++ s.held)
      regroup q =
          Perm.trans
            (subst (λ t. Perm t ((drop n q ++ take n q) ++ s.held))
              (append_assoc (drop n q) (take n q) s.held) (Perm.refl _))
            (Perm.append_right s.held (
              subst (Perm (drop n q ++ take n q)) (take-append-drop n q)
                (perm_append_comm (drop n q) (take n q))))

  -- What a client holds is missing from the free list.
  pub room :
      (s : Client) (xs rest : List Ptr)
      → IsOwned c s
      → Perm s.held (xs ++ rest)
      → length (free_list c s.pool) + length xs ≤ c
  room s xs rest o p = omega (arith, IsOwned-count o, length-perm p, length-append xs rest)

  free-IsOwned :
      (s : Client) (x : Ptr) (rest : List Ptr)
      → IsOwned c s
      → Perm s.held (x ∷ rest)
      → IsOwned c (record { pool = free c x s.pool; held = rest })
  unfolding free
  free-IsOwned s x rest o p = record {
    valid = free-IsValid cap x s.pool o.valid;
    parted =
        rw (free_lem cap x s.pool o.valid (omega (arith, room s (x ∷ []) rest o p))) (
          Perm.trans (Perm.symm (perm_shift (free_list c s.pool) (x ∷ []) s.held rest p)) o.parted);
    small = o.small;
  }

  free_burst-IsOwned :
      (s : Client) (xs rest : List Ptr)
      → IsOwned c s
      → Perm s.held (xs ++ rest)
      → IsOwned c (record { pool = free_burst c xs s.pool; held = rest })
  unfolding free_burst
  free_burst-IsOwned s xs rest o p = record {
    valid = free_burst-IsValid cap xs s.pool o.valid;
    parted =
        rw (free_burst_lem cap xs s.pool o.valid (room s xs rest o p))
          (Perm.trans (Perm.symm (perm_shift (free_list c s.pool) xs s.held rest p)) o.parted);
    small = o.small;
  }

  pub Step-IsOwned : {s t : Client} → Step c s t → IsOwned c s → IsOwned c t
  Step-IsOwned {s} (allocs e) o = rw e (alloc-IsOwned s (free_list c s.pool) o refl)
  Step-IsOwned {s} (allocs_burst n e) o = rw e (alloc_burst-IsOwned s n o)
  Step-IsOwned {s} (frees x rest p e) o = rw e (free-IsOwned s x rest o p)
  Step-IsOwned {s} (frees_burst xs rest p e) o = rw e (free_burst-IsOwned s xs rest o p)

  -- However a client calls the pool, as long as it frees only blocks that it holds, the blocks on
  -- the free list and those that it holds are together the blocks of the pool, each once.
  pub Reach-IsOwned : {s : Client} → Reach c s → IsOwned c s
  Reach-IsOwned start = init-IsOwned
  Reach-IsOwned (next r st) = Step-IsOwned st (Reach-IsOwned r)
