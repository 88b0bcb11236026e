-- ===== src/DpdkSim/SpscRing.antt =====
-- src/dpdk_sim/spsc_ring.h: the ring buffer, one method to a definition. `head` and `tail` count
-- items for ever and wrap as `size_t`; `slots` is `data_`. The template's `Capacity` is an argument.
-- A pointer and a count (`items`, `n`) is a list. `blank` is `T{}`, which `data_{}` holds.
pub mod Capacity
pub mod Window
pub mod Valid
pub mod Single
pub mod Burst
pub mod Refine
pub mod Samples
pub mod Threads
mod Tests
use ebpf_system_monitor.Base.{
  ℕ, zero, suc, ◌+◌, bit_and, Bool, true, false, Option, none, some, List, [], ◌∷◌, leb, ltb, ◌==◌,
  if◌then◌else◌, add64, sub64, length, get_or, set, replicate,
}
use ebpf_system_monitor.DpdkSim.Fifo.{Call, Reply}

-- The `static_assert` on `Capacity`.
unfoldable pub capacity_check : ℕ → Bool
capacity_check capacity = bit_and capacity (sub64 capacity 1) == 0

pub record SpscRing {ℓ} (A : Type ℓ) : Type ℓ where
  pub head : ℕ
  pub tail : ℕ
  pub slots : List A

module _ {ℓ} {A : Type ℓ} where
  unfoldable pub size : SpscRing A → ℕ
  size r = sub64 r.head r.tail

  unfoldable pub empty : SpscRing A → Bool
  unfolding size
  empty r = size r == 0

-- `MASK`
abbrev pub mask : ℕ → ℕ
mask capacity = sub64 capacity 1

module _ {ℓ} {A : Type ℓ} (capacity : ℕ) where
  unfoldable pub init : A → SpscRing A
  init blank = record { head = 0; tail = 0; slots = replicate capacity blank }

  unfoldable pub full : SpscRing A → Bool
  unfolding size
  full r = leb capacity (size r)

  unfoldable pub enqueue : A → SpscRing A → Bool × SpscRing A
  enqueue x r = if leb capacity (sub64 r.head r.tail) then (false, r) else (
    true,
    record r { slots = set r.slots (bit_and r.head (mask capacity)) x; head = add64 r.head 1 },
  )

  -- The loop of `enqueue_burst` from round `i` on, with the rounds left.
  unfoldable pub store_burst : List A → ℕ → ℕ → List A → ℕ → List A
  store_burst slots h i xs zero = slots
  store_burst slots h i [] (suc n) = slots
  store_burst slots h i (x ∷ xs) (suc n) =
      store_burst (set slots (bit_and (add64 h i) (mask capacity)) x) h (i + 1) xs n

  unfoldable pub enqueue_burst : List A → SpscRing A → ℕ × SpscRing A
  unfolding store_burst
  enqueue_burst xs r =
      let free = sub64 capacity (sub64 r.head r.tail) in
      let cnt = if ltb (length xs) free then length xs else free in
      (cnt, record r { slots = store_burst r.slots r.head 0 xs cnt; head = add64 r.head cnt })

module _ {ℓ} {A : Type ℓ} (capacity : ℕ) (blank : A) where
  -- `none` is the result `false`, which leaves the caller's item as it was.
  unfoldable pub dequeue : SpscRing A → Option A × SpscRing A
  dequeue r = if r.tail == r.head then (none, r) else (
    some (get_or r.slots (bit_and r.tail (mask capacity)) blank),
    record r { tail = add64 r.tail 1 },
  )

  -- The loop of `dequeue_burst` from round `i` on: what it writes to `items`.
  unfoldable pub load_burst : List A → ℕ → ℕ → ℕ → List A
  load_burst slots t i zero = []
  load_burst slots t i (suc n) =
      get_or slots (bit_and (add64 t i) (mask capacity)) blank ∷ load_burst slots t (i + 1) n

  unfoldable pub dequeue_burst : ℕ → SpscRing A → ℕ × List A × SpscRing A
  unfolding load_burst
  dequeue_burst n r =
      let avail = sub64 r.head r.tail in
      let cnt = if ltb n avail then n else avail in
      (cnt, load_burst r.slots r.tail 0 cnt, record r { tail = add64 r.tail cnt })

  -- A caller's calls in order, with what each returns.
  unfoldable pub call : Call A → SpscRing A → Reply A × SpscRing A
  call (Call.enqueues x) r = let (b, r') = enqueue capacity x r in (Reply.done b, r')
  call Call.dequeues r = let (o, r') = dequeue r in (Reply.item o, r')
  call (Call.enqueues_burst xs) r = let (n, r') = enqueue_burst capacity xs r in (Reply.count n, r')
  call (Call.dequeues_burst n) r = let (m, xs, r') = dequeue_burst n r in (Reply.items m xs, r')
  call Call.asks_size r = (Reply.count (size r), r)

  unfoldable pub run : List (Call A) → SpscRing A → List (Reply A)
  run [] r = []
  run (c ∷ cs) r = let (reply, r') = call c r in reply ∷ run cs r'
