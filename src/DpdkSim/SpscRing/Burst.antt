-- ===== src/DpdkSim/SpscRing/Burst.antt =====
-- `enqueue_burst` and `dequeue_burst` against the bounded queue.
use native.Mathlib.Nat.{mod-add-mod}
use ebpf_system_monitor.Base.{
  ℕ, suc, zero, ◌+◌, ◌-◌, ◌%◌, ◌≤◌, min, ◌≡◌, refl, ◌∙◌, ap, ap₂, sym, List, [], ◌∷◌, ◌++◌, arith,
  length, take, bit_and, add64, sub64, set, get_or, length-set, take_clip, drop_clip, append_assoc,
  append-nil, ltb, if◌then◌else◌,
}
use ebpf_system_monitor.DpdkSim.Fifo
use ebpf_system_monitor.DpdkSim.SpscRing.{
  SpscRing, store_burst, load_burst, enqueue_burst, dequeue_burst, mask,
}
use ebpf_system_monitor.DpdkSim.SpscRing.Capacity.{IsCapacity}
use ebpf_system_monitor.DpdkSim.SpscRing.Window.{
  window, window-set_next, length-window, take-window, drop-window,
}
use ebpf_system_monitor.DpdkSim.SpscRing.Valid.{IsValid, contents, slot_lem, head_mod, window-wrap}

-- The count that both bursts compute.
least : ℕ → ℕ → ℕ
least n m = if ltb n m then n else m

least-min : (n m : ℕ) → least n m ≡ min n m
unfolding least
least-min n m = ground arith

module _ {ℓ} {A : Type ℓ} {c : ℕ} (cap : IsCapacity c) (blank : A) where
  length-store_burst :
      (slots : List A) (h i : ℕ) (xs : List A) (n : ℕ)
      → length (store_burst c slots h i xs n) ≡ length slots
  unfolding store_burst
  length-store_burst slots h i xs zero = refl
  length-store_burst slots h i [] (suc n) = refl
  length-store_burst slots h i (x ∷ xs) (suc n) =
      length-store_burst (set slots (bit_and (add64 h i) (mask c)) x) h (i + 1) xs n
      ∙ length-set slots (bit_and (add64 h i) (mask c)) x

  -- A burst stored behind a window of `m` items extends it by what is stored.
  window-store_burst :
      (n : ℕ) (slots : List A) (p m h i : ℕ) (xs : List A)
      → length slots ≡ c
      → m + n ≤ c
      → n ≤ length xs
      → (h + i) % c ≡ (p + m) % c
      → window c blank (store_burst c slots h i xs n) p (m + n)
        ≡ window c blank slots p m ++ take n xs
  unfolding store_burst
  window-store_burst zero slots p m h i xs full room enough e =
      let e' : m + 0 ≡ m = omega arith in rw e' (sym (append-nil _))
  window-store_burst (suc n) slots p m h i [] full room enough e = absurd (omega arith)
  window-store_burst (suc n) slots p m h i (x ∷ xs) full room enough e =
      ap (window c blank (store_burst c (slots' slot) h (i + 1) xs n) p) count
      ∙ window-store_burst n (slots' slot) p (suc m) h (i + 1) xs (length-set slots slot x ∙ full)
          (omega arith) (omega arith) next
      ∙ ap (λ (q : List A). q ++ take n xs)
          (ap (λ (j : ℕ). window c blank (slots' j) p (suc m)) (slot_lem cap h i ∙ e)
            ∙ window-set_next c blank slots p m x full (omega arith))
      ∙ append_assoc (window c blank slots p m) (x ∷ []) (take n xs)
    where
      slot : ℕ
      slot = bit_and (add64 h i) (mask c)

      slots' : ℕ → List A
      slots' j = set slots j x

      count : m + suc n ≡ suc m + n
      count = omega arith

      step : (a b : ℕ) → a % c ≡ b % c → (a + 1) % c ≡ (b + 1) % c
      step a b q = sym (mod-add-mod a c 1) ∙ ap (λ (t : ℕ). (t + 1) % c) q ∙ mod-add-mod b c 1

      next : (h + (i + 1)) % c ≡ (p + suc m) % c
      next =
          let l : h + (i + 1) ≡ h + i + 1 = omega arith in
          let r : p + suc m ≡ p + m + 1 = omega arith in rw (l, r) (step (h + i) (p + m) e)

  -- What the load loop reads is the window.
  load_burst-window :
      (n : ℕ) (slots : List A) (t i : ℕ)
      → load_burst c blank slots t i n ≡ window c blank slots (t + i) n
  unfolding load_burst
  load_burst-window zero slots t i = refl
  load_burst-window (suc n) slots t i =
      ap₂ ◌∷◌ (ap (λ (j : ℕ). get_or slots j blank) (slot_lem cap t i)) (
        load_burst-window n slots t (i + 1)
        ∙ ap (λ (p : ℕ). window c blank slots p n)
            (let e : t + (i + 1) ≡ t + i + 1 = omega arith in e))

  -- A burst of `k` items stored, and one loaded.
  stored : List A → SpscRing A → ℕ → ℕ × SpscRing A
  stored xs r k =
      (k, record r { slots = store_burst c r.slots r.head 0 xs k; head = add64 r.head k })

  loaded : SpscRing A → ℕ → ℕ × List A × SpscRing A
  loaded r k = (k, load_burst c blank r.slots r.tail 0 k, record r { tail = add64 r.tail k })

  enqueue_burst-stored :
      (xs : List A) (r : SpscRing A)
      → IsValid c r
      → enqueue_burst c xs r ≡ stored xs r (min (length xs) (c - sub64 r.head r.tail))
  unfolding enqueue_burst stored least
  enqueue_burst-stored xs r v = ap (stored xs r) count
    where
      free : sub64 c (sub64 r.head r.tail) ≡ c - sub64 r.head r.tail
      free = omega (arith, v.bounded, cap.fits)

      count :
          (if ltb (length xs) (sub64 c (sub64 r.head r.tail))
            then length xs
            else sub64 c (sub64 r.head r.tail))
          ≡ min (length xs) (c - sub64 r.head r.tail)
      count = rw free (least-min (length xs) (c - sub64 r.head r.tail))

  dequeue_burst-loaded :
      (n : ℕ) (r : SpscRing A) → dequeue_burst c blank n r ≡ loaded r (min n (sub64 r.head r.tail))
  unfolding dequeue_burst loaded least
  dequeue_burst-loaded n r = ap (loaded r) (least-min n (sub64 r.head r.tail))

  pub enqueue_burst-IsValid :
      (xs : List A) (r : SpscRing A) → IsValid c r → IsValid c (enqueue_burst c xs r).1
  unfolding stored
  enqueue_burst-IsValid xs r v = rw (enqueue_burst-stored xs r v) (record {
    head_fits = omega arith;
    tail_fits = v.tail_fits;
    bounded = omega (arith, v.bounded, v.head_fits, v.tail_fits, cap.fits);
    storage =
        length-store_burst r.slots r.head 0 xs (min (length xs) (c - sub64 r.head r.tail))
        ∙ v.storage;
  })

  pub dequeue_burst-IsValid :
      (n : ℕ) (r : SpscRing A) → IsValid c r → IsValid c (dequeue_burst c blank n r).2
  unfolding loaded
  dequeue_burst-IsValid n r v = rw (dequeue_burst-loaded n r) (record {
    head_fits = v.head_fits;
    tail_fits = omega arith;
    bounded = omega (arith, v.bounded, v.head_fits, v.tail_fits, cap.fits);
    storage = v.storage;
  })

  -- `enqueue_burst` appends the longest prefix of its items that fits, and returns its length.
  pub enqueue_burst_refines :
      (xs : List A) (r : SpscRing A)
      → IsValid c r
      → let (n, r') = enqueue_burst c xs r in
        (n, contents c blank r') ≡ Fifo.enqueue_burst c xs (contents c blank r)
  unfolding Fifo.enqueue_burst stored
  enqueue_burst_refines xs r v =
      rw (enqueue_burst-stored xs r v, length-window)
        (ap (λ (q : List A). (k, q))
          (ap (window c blank (store_burst c r.slots r.head 0 xs k) r.tail) grown
            ∙ window-store_burst k r.slots r.tail n r.head 0 xs v.storage (omega (arith, v.bounded))
                (omega arith) start
            ∙ ap (◌++◌ (contents c blank r)) (sym (take_clip (c - n) xs))))
    where
      n : ℕ
      n = sub64 r.head r.tail

      k : ℕ
      k = min (length xs) (c - n)

      grown : sub64 (add64 r.head k) r.tail ≡ n + k
      grown = omega (arith, v.bounded, v.head_fits, v.tail_fits, cap.fits)

      start : (r.head + 0) % c ≡ (r.tail + n) % c
      start =
          let e : r.head + 0 ≡ r.head = omega arith in
          rw e (head_mod cap r.head r.tail v.head_fits v.tail_fits)

  -- `dequeue_burst` hands out the oldest items, as many as asked for and as there are, in order.
  pub dequeue_burst_refines :
      (n : ℕ) (r : SpscRing A)
      → IsValid c r
      → let (m, xs, r') = dequeue_burst c blank n r in
        (m, xs, contents c blank r') ≡ Fifo.dequeue_burst n (contents c blank r)
  unfolding Fifo.dequeue_burst loaded
  dequeue_burst_refines n r v =
      rw
        (
          dequeue_burst-loaded n r,
          length-window,
          take-window,
          drop_clip,
          length-window,
          drop-window c blank r.slots r.tail k m (omega arith),
        )
        (λ i. (k, taken i, rest i))
    where
      m : ℕ
      m = sub64 r.head r.tail

      k : ℕ
      k = min n m

      taken : load_burst c blank r.slots r.tail 0 k ≡ window c blank r.slots r.tail k
      taken =
          let e : r.tail + 0 ≡ r.tail = omega arith in rw (load_burst-window k r.slots r.tail 0, e)

      shrunk : sub64 r.head (add64 r.tail k) ≡ m - k
      shrunk = omega (arith, v.head_fits, v.tail_fits)

      rest :
          window c blank r.slots (add64 r.tail k) (sub64 r.head (add64 r.tail k))
          ≡ window c blank r.slots (r.tail + k) (m - k)
      rest = rw shrunk (window-wrap cap blank r.slots (r.tail + k) (m - k))
