-- ===== src/DpdkSim/SpscRing/Window.antt =====
-- The items that lie in consecutive slots, round the end of the array.
use native.Mathlib.Nat.{mod-add-mod, mod-eq_of_lt, mod-eq-sub-mod, mod-lt}
use ebpf_system_monitor.Base.{
  ℕ, zero, suc, ◌+◌, ◌-◌, ◌%◌, ◌<◌, ◌≤◌, ◌≡◌, refl, sym, ap, ap₂, ◌∙◌, ◌≢◌, List, [], ◌∷◌, ◌++◌,
  arith, length, get_or, set, take, drop, get_or-set_self, get_or-set_ne, dec_lt, min,
}

-- Positions less than a capacity apart lie in different slots.
pub apart : (c p d : ℕ) → 0 < d → d < c → (p + d) % c ≢ p % c
apart c p d pos small e = elim (dec_lt (p % c + d) c) [
  | yes h ↦ omega (arith, mod-add-mod p c d, mod-eq_of_lt h)
  | no h ↦ omega (
    arith,
    mod-add-mod p c d,
    mod-lt p {m = c} (omega arith),
    mod-eq-sub-mod {n = p % c + d} {m = c} (omega arith),
    mod-eq_of_lt {n = p % c + d - c} {m = c} (omega (arith, mod-lt p {m = c} (omega arith))),
  )
]

module _ {ℓ} {A : Type ℓ} (c : ℕ) (blank : A) where
  -- The `n` items from position `p` on; a position is counted without end, and its slot is the
  -- remainder by the capacity.
  abbrev pub window : List A → ℕ → ℕ → List A
  window slots p zero = []
  window slots p (suc n) = get_or slots (p % c) blank ∷ window slots (p + 1) n

  pub length-window : (slots : List A) (p n : ℕ) → length (window slots p n) ≡ n
  length-window slots p zero = refl
  length-window slots p (suc n) = ap suc (length-window slots (p + 1) n)

  -- Only the remainder of the position counts.
  pub window_cong :
      (slots : List A) (p q n : ℕ) → p % c ≡ q % c → window slots p n ≡ window slots q n
  window_cong slots p q zero e = refl
  window_cong slots p q (suc n) e = ap₂ ◌∷◌ (ap (λ (i : ℕ). get_or slots i blank) e) (
      window_cong slots (p + 1) (q + 1) n
        (sym (mod-add-mod p c 1) ∙ ap (λ (t : ℕ). (t + 1) % c) e ∙ mod-add-mod q c 1))

  -- A write past the window, and not yet round to its start, leaves it alone.
  pub window-set_past :
      (slots : List A) (p n q : ℕ) (x : A)
      → p + n ≤ q
      → q < p + c
      → window (set slots (q % c) x) p n ≡ window slots p n
  window-set_past slots p zero q x past before = refl
  window-set_past slots p (suc n) q x past before =
      ap₂ ◌∷◌ (get_or-set_ne slots (q % c) (p % c) x blank other)
        (window-set_past slots (p + 1) n q x (omega arith) (omega arith))
    where
      other : q % c ≢ p % c
      other e =
          apart c p (q - p) (omega arith) (omega arith)
            (ap (λ (t : ℕ). t % c) (let e' : p + (q - p) ≡ q = omega arith in e') ∙ e)

  pub window-snoc :
      (slots : List A) (p n : ℕ)
      → window slots p (suc n) ≡ window slots p n ++ (get_or slots ((p + n) % c) blank ∷ [])
  window-snoc slots p zero = let e : p + 0 ≡ p = omega arith in rw e
  window-snoc slots p (suc n) =
      let e : p + suc n ≡ p + 1 + n = omega arith in
      rw e (ap (◌∷◌ (get_or slots (p % c) blank)) (window-snoc slots (p + 1) n))

  pub window-append :
      (slots : List A) (p m n : ℕ)
      → window slots p (m + n) ≡ window slots p m ++ window slots (p + m) n
  window-append slots p zero n =
      let e : 0 + n ≡ n = omega arith in let e' : p + 0 ≡ p = omega arith in rw (e, e')
  window-append slots p (suc m) n =
      let e : suc m + n ≡ suc (m + n) = omega arith in
      let e' : p + suc m ≡ p + 1 + m = omega arith in
      rw (e, e') (ap (◌∷◌ (get_or slots (p % c) blank)) (window-append slots (p + 1) m n))

  -- A write just past the window extends it.
  pub window-set_next :
      (slots : List A) (p n : ℕ) (x : A)
      → length slots ≡ c
      → n < c
      → window (set slots ((p + n) % c) x) p (suc n) ≡ window slots p n ++ (x ∷ [])
  window-set_next slots p n x full room =
      window-snoc (set slots ((p + n) % c) x) p n
      ∙ ap₂ (λ (u : List A) (v : A). u ++ (v ∷ []))
          (window-set_past slots p n (p + n) x (omega arith) (omega arith))
          (get_or-set_self slots ((p + n) % c) x blank
            (omega (arith, mod-lt (p + n) {m = c} (omega arith))))

  pub take-window :
      (slots : List A) (p k n : ℕ) → take k (window slots p n) ≡ window slots p (min k n)
  take-window slots p zero n = let e : min 0 n ≡ 0 = omega arith in rw e
  take-window slots p (suc k) zero = let e : min (suc k) 0 ≡ 0 = omega arith in rw e
  take-window slots p (suc k) (suc n) =
      let e : min (suc k) (suc n) ≡ suc (min k n) = omega arith in
      rw e (ap (◌∷◌ (get_or slots (p % c) blank)) (take-window slots (p + 1) k n))

  pub drop-window :
      (slots : List A) (p k n : ℕ)
      → k ≤ n
      → drop k (window slots p n) ≡ window slots (p + k) (n - k)
  drop-window slots p zero n h =
      let e : p + 0 ≡ p = omega arith in let e' : n - 0 ≡ n = omega arith in rw (e, e')
  drop-window slots p (suc k) zero h = absurd (omega arith)
  drop-window slots p (suc k) (suc n) h =
      let e : p + suc k ≡ p + 1 + k = omega arith in
      let e' : suc n - suc k ≡ n - k = omega arith in
      rw (e, e') (drop-window slots (p + 1) k n (omega arith))
