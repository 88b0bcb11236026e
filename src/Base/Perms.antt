-- ===== src/Base/Perms.antt =====
-- Permutations: lengths over the native numbers, and regroupings.
use Prim.Native.Nat.{suc}
use mathlib.Core.Path.{◌≡◌, refl, ap, ◌∙◌, subst}
use mathlib.Core.Logic.{∥∥₁_elim}
use mathlib.Core.List.{List, ◌++◌, Perm, Permᴰ, append_assoc}
use mathlib.Core.List.Perm
use native.Mathlib.Nat.{ℕ_set}
use ebpf_system_monitor.Base.Lists.{length}

module _ {ℓ} {A : Type ℓ} where
  length-permᴰ : {xs ys : List A} → Permᴰ xs ys → length xs ≡ length ys
  length-permᴰ Permᴰ.nil = refl
  length-permᴰ (Permᴰ.cons e p) = ap suc (length-permᴰ p)
  length-permᴰ (Permᴰ.swap e f) = refl
  length-permᴰ (Permᴰ.trans p q) = length-permᴰ p ∙ length-permᴰ q

  pub length-perm : {xs ys : List A} → Perm xs ys → length xs ≡ length ys
  length-perm p = ∥∥₁_elim p (ℕ_set _ _) length-permᴰ

  -- A part of the second list moved to the end of the first.
  pub perm_shift : (xs ys zs us : List A) → Perm zs (ys ++ us) → Perm (xs ++ zs) ((xs ++ ys) ++ us)
  perm_shift xs ys zs us p = Perm.trans (Perm.append_left xs p) (subst_refl (append_assoc xs ys us))
    where
      subst_refl : {vs ws : List A} → vs ≡ ws → Perm ws vs
      subst_refl {vs} e = subst (λ (ws : List A). Perm ws vs) e (Perm.refl vs)
