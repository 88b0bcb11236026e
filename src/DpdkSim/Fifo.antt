-- ===== src/DpdkSim/Fifo.antt =====
-- What a ring of fixed capacity promises: a bounded queue, oldest item first, whose bursts move as
-- many items as there are and as fit.
use ebpf_system_monitor.Base.{
  ℕ, ◌-◌, min, Bool, true, false, Option, none, some, List, [], ◌∷◌, ◌++◌, leb, length, take, drop,
  if◌then◌else◌,
}

-- One call on a queue, and what the caller sees of it.
pub data Call {ℓ} (A : Type ℓ) : Type ℓ where
  enqueues : A → Call A
  dequeues : Call A
  enqueues_burst : List A → Call A
  dequeues_burst : ℕ → Call A
  asks_size : Call A

pub data Reply {ℓ} (A : Type ℓ) : Type ℓ where
  done : Bool → Reply A
  item : Option A → Reply A
  count : ℕ → Reply A
  items : ℕ → List A → Reply A

module _ {ℓ} {A : Type ℓ} where
  unfoldable pub dequeue : List A → Option A × List A
  dequeue [] = (none, [])
  dequeue (x ∷ q) = (some x, q)

  unfoldable pub dequeue_burst : ℕ → List A → ℕ × List A × List A
  dequeue_burst n q = (min n (length q), take n q, drop n q)

module _ {ℓ} {A : Type ℓ} (capacity : ℕ) where
  unfoldable pub enqueue : A → List A → Bool × List A
  enqueue x q = if leb capacity (length q) then (false, q) else (true, q ++ (x ∷ []))

  unfoldable pub enqueue_burst : List A → List A → ℕ × List A
  enqueue_burst xs q = (min (length xs) (capacity - length q), q ++ take (capacity - length q) xs)

  unfoldable pub call : Call A → List A → Reply A × List A
  call (enqueues x) q = let (b, q') = enqueue x q in (done b, q')
  call dequeues q = let (o, q') = dequeue q in (item o, q')
  call (enqueues_burst xs) q = let (n, q') = enqueue_burst xs q in (count n, q')
  call (dequeues_burst n) q = let (m, xs, q') = dequeue_burst n q in (items m xs, q')
  call asks_size q = (count (length q), q)

  unfoldable pub run : List (Call A) → List A → List (Reply A)
  run [] q = []
  run (c ∷ cs) q = let (reply, q') = call c q in reply ∷ run cs q'
