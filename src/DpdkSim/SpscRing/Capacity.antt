-- ===== src/DpdkSim/SpscRing/Capacity.antt =====
-- What the `static_assert` on `Capacity` gives: `& MASK` is a remainder, and the wrap of `size_t`
-- does not disturb it.
use native.Mathlib.Nat.{one-le-pow, mod-mod_of_dvd}
use ebpf_system_monitor.Base.{
  ℕ, ◌-◌, ◌^◌, ◌%◌, ◌<◌, bit_and, ◌≡◌, ◌⊎◌, inl, inr, ◌↔◌, true, arith, sub64, ==_iff, dec_lt,
}
use ebpf_system_monitor.Base.Bits.{
  bit_and_mask, bit_and_pred_pow, power_of_bit_and, pow_dvd, exponent-lt,
}
use ebpf_system_monitor.DpdkSim.SpscRing.{capacity_check}

-- A capacity that compiles and holds something.
pub record IsCapacity (c : ℕ) : Type 0 where
  pub positive : 0 < c
  pub fits : c < 2 ^ 64
  pub checked : capacity_check c ≡ true

pred_word : (c : ℕ) → 0 < c → c < 2 ^ 64 → sub64 c 1 ≡ c - 1
pred_word c p h = omega arith

pub IsCapacity-power : {c : ℕ} → IsCapacity c → (k : ℕ) × (k < 64) × (c ≡ 2 ^ k)
unfolding capacity_check
IsCapacity-power {c} v = (k, exponent-lt k 64 (rw (← e) v.fits), e)
  where
    bits : bit_and c (c - 1) ≡ 0
    bits = rw (← pred_word c v.positive v.fits) ((==_iff _ 0).0 v.checked)

    k : ℕ
    k = (power_of_bit_and c v.positive bits).0

    e : c ≡ 2 ^ k
    e = (power_of_bit_and c v.positive bits).1

-- `x & MASK` is the remainder by the capacity.
pub mask_mod : {c : ℕ} → IsCapacity c → (x : ℕ) → bit_and x (sub64 c 1) ≡ x % c
mask_mod {c} v x =
    let (k, _, e) = IsCapacity-power v in rw (pred_word c v.positive v.fits, e) (bit_and_mask k x)

-- A counter that has wrapped keeps its remainder.
pub wrap_mod : {c : ℕ} → IsCapacity c → (x : ℕ) → x % 2 ^ 64 % c ≡ x % c
wrap_mod {c} v x =
    let (k, lt, e) = IsCapacity-power v in
    rw e (mod-mod_of_dvd (2 ^ k) x (pow_dvd k 64 (64 - k) (omega arith)))

-- The `static_assert` accepts, of all values of `size_t`, 0 and the powers of two.
pub capacity_check_lem :
    (c : ℕ)
    → c < 2 ^ 64
    → (capacity_check c ≡ true) ↔ ((c ≡ 0) ⊎ ((k : ℕ) × (k < 64) × (c ≡ 2 ^ k)))
unfolding capacity_check
capacity_check_lem c h = (accepts, accepted)
  where
    accepts : capacity_check c ≡ true → (c ≡ 0) ⊎ ((k : ℕ) × (k < 64) × (c ≡ 2 ^ k))
    accepts e = elim (dec_lt 0 c) [
      | yes p ↦ inr (IsCapacity-power (record { positive = p; fits = h; checked = e }))
      | no p ↦ inl (omega arith)
    ]

    accepted : (c ≡ 0) ⊎ ((k : ℕ) × (k < 64) × (c ≡ 2 ^ k)) → capacity_check c ≡ true
    accepted (inl e) = rw e
    accepted (inr (k, _, e)) = (==_iff _ 0).1 (rw pred_word' (rw e (bit_and_pred_pow k)))
      where
        pred_word' : sub64 c 1 ≡ c - 1
        pred_word' = pred_word c (rw e (one-le-pow k 2 (omega arith))) h
