-- ===== src/DpdkSim/SpscRing/Valid.antt =====
-- The invariant of the ring, and the queue that a ring holds.
use ebpf_system_monitor.Base.{
  ℕ, ◌+◌, ◌%◌, ◌^◌, ◌<◌, ◌≤◌, ◌≡◌, refl, ◌∙◌, ap, List, [], arith, length, bit_and, add64, sub64,
  length-replicate,
}
use ebpf_system_monitor.DpdkSim.SpscRing.{SpscRing, init, size, mask}
use ebpf_system_monitor.DpdkSim.SpscRing.Capacity.{IsCapacity, mask_mod, wrap_mod}
use ebpf_system_monitor.DpdkSim.SpscRing.Window.{window, length-window, window_cong}

pub record IsValid {ℓ} {A : Type ℓ} (capacity : ℕ) (r : SpscRing A) : Type 0 where
  pub head_fits : r.head < 2 ^ 64
  pub tail_fits : r.tail < 2 ^ 64
  pub bounded : sub64 r.head r.tail ≤ capacity
  pub storage : length r.slots ≡ capacity

-- The items from `tail_` up to `head_`, oldest first.
abbrev pub contents {ℓ} : {A : Type ℓ} → ℕ → A → SpscRing A → List A
contents capacity blank r = window capacity blank r.slots r.tail (sub64 r.head r.tail)

module _ {ℓ} {A : Type ℓ} (capacity : ℕ) (blank : A) where
  pub init-IsValid : IsValid capacity (init capacity blank)
  unfolding init
  init-IsValid = record {
    head_fits = omega arith;
    tail_fits = omega arith;
    bounded = omega arith;
    storage = length-replicate capacity blank;
  }

  -- A new ring is empty.
  pub contents-init : contents capacity blank (init capacity blank) ≡ []
  unfolding init
  contents-init = refl

  pub length-contents : (r : SpscRing A) → length (contents capacity blank r) ≡ size r
  unfolding size
  length-contents r = length-window capacity blank r.slots r.tail (sub64 r.head r.tail)

module _ {c : ℕ} (cap : IsCapacity c) where
  -- The slot of position `i` after the counter `p`: what `(p + i) & MASK` computes.
  pub slot_lem : (p i : ℕ) → bit_and (add64 p i) (mask c) ≡ (p + i) % c
  slot_lem p i = mask_mod cap (add64 p i) ∙ wrap_mod cap (p + i)

  -- Past the items, a full counter ahead of the tail, lies the head.
  pub head_mod : (h t : ℕ) → h < 2 ^ 64 → t < 2 ^ 64 → h % c ≡ (t + sub64 h t) % c
  head_mod h t hh ht =
      let e : h ≡ (t + sub64 h t) % 2 ^ 64 = omega arith in
      ap (λ (x : ℕ). x % c) e ∙ wrap_mod cap (t + sub64 h t)

  -- The window of a counter that has wrapped.
  pub window-wrap {ℓ} :
      {A : Type ℓ} (blank : A) (slots : List A) (p n : ℕ)
      → window c blank slots (p % 2 ^ 64) n ≡ window c blank slots p n
  window-wrap blank slots p n = window_cong c blank slots (p % 2 ^ 64) p n (wrap_mod cap p)
