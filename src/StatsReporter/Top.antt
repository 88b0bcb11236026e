-- ===== src/StatsReporter/Top.antt =====
-- Which connections `print_top` shows. `std::sort` is a parameter: from an order that meets its
-- precondition it gives a permutation in which no element is before an earlier one.
use mathlib.Core.List.{Perm}
use ebpf_system_monitor.Base.{
  ℕ, zero, suc, ◌≤◌, min, ◌≡◌, ◌∙◌, ap, sym, subst, Bool, true, false, List, [], ◌∷◌, ◌++◌, arith,
  length, take, drop, add64, length-perm, take-append-drop, length-take,
}
use ebpf_system_monitor.StatsReporter.{Entry, StatsReporter, by_traffic, print_top}

-- What `std::sort` asks of its comparison: a strict weak order.
pub record IsWeakOrder {ℓ} {A : Type ℓ} (lt : A → A → Bool) : Type ℓ where
  pub asym : (a b : A) → lt a b ≡ true → lt b a ≡ false
  pub neg_trans : (a b c : A) → lt c b ≡ false → lt b a ≡ false → lt c a ≡ false

module _ {ℓ} {A : Type ℓ} (lt : A → A → Bool) where
  abbrev pub NoneBefore : A → List A → Type 0
  NoneBefore x [] = Unit {0}
  NoneBefore x (y ∷ ys) = (lt y x ≡ false) × NoneBefore x ys

  abbrev pub IsOrdered : List A → Type 0
  IsOrdered [] = Unit {0}
  IsOrdered (x ∷ xs) = NoneBefore x xs × IsOrdered xs

pub record IsSort {ℓ} {A : Type ℓ} (sort : (A → A → Bool) → List A → List A) : Type ℓ where
  pub perm : (lt : A → A → Bool) → IsWeakOrder lt → (xs : List A) → Perm (sort lt xs) xs
  pub ordered : (lt : A → A → Bool) → IsWeakOrder lt → (xs : List A) → IsOrdered lt (sort lt xs)

abbrev pub traffic : Entry → ℕ
traffic e = add64 e.stats.bytes_tx e.stats.bytes_rx

-- The comparison of print_top is a strict weak order, as std::sort asks.
pub by_traffic-IsWeakOrder : IsWeakOrder by_traffic
unfolding by_traffic
by_traffic-IsWeakOrder = record {
  asym = λ a b h. ground arith;
  neg_trans = λ a b c h i. ground arith;
}

-- No entry of the list has more traffic than `t`.
abbrev pub AtLeast : ℕ → List Entry → Type 0
AtLeast t [] = Unit {0}
AtLeast t (e ∷ es) = (traffic e ≤ t) × AtLeast t es

abbrev pub AllAtLeast : List Entry → List Entry → Type 0
AllAtLeast [] rest = Unit {0}
AllAtLeast (e ∷ es) rest = AtLeast (traffic e) rest × AllAtLeast es rest

abbrev pub Descending : List Entry → Type 0
Descending [] = Unit {0}
Descending (e ∷ es) = AtLeast (traffic e) es × Descending es

pub record IsTop (n : ℕ) (r : StatsReporter) (rows : List Entry) : Type 0 where
  pub rest : List Entry
  pub all : Perm (rows ++ rest) r
  pub count : length rows ≡ min n (length r)
  pub descending : Descending rows
  pub busiest : AllAtLeast rows rest

AtLeast-NoneBefore :
    (e : Entry) (es : List Entry) → NoneBefore by_traffic e es → AtLeast (traffic e) es
unfolding by_traffic
AtLeast-NoneBefore e [] h = tt
AtLeast-NoneBefore e (x ∷ xs) h = (ground (arith, h.0), AtLeast-NoneBefore e xs h.1)

Descending-IsOrdered : (es : List Entry) → IsOrdered by_traffic es → Descending es
Descending-IsOrdered [] h = tt
Descending-IsOrdered (e ∷ es) h = (AtLeast-NoneBefore e es h.0, Descending-IsOrdered es h.1)

AtLeast-take : (t n : ℕ) (es : List Entry) → AtLeast t es → AtLeast t (take n es)
AtLeast-take t zero es h = tt
AtLeast-take t (suc n) [] h = tt
AtLeast-take t (suc n) (e ∷ es) h = (h.0, AtLeast-take t n es h.1)

AtLeast-drop : (t n : ℕ) (es : List Entry) → AtLeast t es → AtLeast t (drop n es)
AtLeast-drop t zero es h = h
AtLeast-drop t (suc n) [] h = tt
AtLeast-drop t (suc n) (e ∷ es) h = AtLeast-drop t n es h.1

Descending-split :
    (n : ℕ) (es : List Entry)
    → Descending es
    → Descending (take n es) × AllAtLeast (take n es) (drop n es)
Descending-split zero es h = (tt, tt)
Descending-split (suc n) [] h = (tt, tt)
Descending-split (suc n) (e ∷ es) h =
    let (d, b) = Descending-split n es h.1 in
    ((AtLeast-take (traffic e) n es h.0, d), (AtLeast-drop (traffic e) n es h.0, b))

-- The rows are the n busiest connections, or all if there are fewer, in descending order of their
-- traffic modulo 2 ^ 64, whatever the sort does with equal ones.
pub print_top_lem :
    (sort : (Entry → Entry → Bool) → List Entry → List Entry)
    → IsSort sort
    → (n : ℕ) (r : StatsReporter) → IsTop n r (print_top sort n r)
unfolding print_top
print_top_lem sort s n r =
    let p = s.perm by_traffic by_traffic-IsWeakOrder r in
    let (d, b) =
      Descending-split n (sort by_traffic r) (
        Descending-IsOrdered (sort by_traffic r) (s.ordered by_traffic by_traffic-IsWeakOrder r)) in
    record {
      rest = drop n (sort by_traffic r);
      all = subst (λ l. Perm l r) (sym (take-append-drop n (sort by_traffic r))) p;
      count = length-take n (sort by_traffic r) ∙ ap (min n) (length-perm p);
      descending = d;
      busiest = b;
    }
